-- ===== src/Fsm/Groups.antt =====
-- The group table of fsm.go: upsertGroup and storeGroup. `lower` stands for `strings.ToLower`.
pub mod Index
use dagger_kubernetes.Prelude.{Bool, not, Option, none, some, String, if◌then◌else◌}
use dagger_kubernetes.Maps.{get, put, remove}
use dagger_kubernetes.Domain.{Group, Result, ok, err, not_found, conflict, is_zero}
use dagger_kubernetes.Fsm.State.{GroupTable}
use dagger_kubernetes.Fsm.Users.{taken_by_other}

module _ (lower : String → String) where
  -- storeGroup
  unfoldable pub store_group : Group → GroupTable → GroupTable
  store_group g t = record {
    groups = put t.groups g.id g;
    groups_by_name = put t.groups_by_name (lower g.name) g.id;
  }

  unfoldable pub drop_group_name : Group → GroupTable → GroupTable
  drop_group_name existing t = record t {
    groups_by_name = remove t.groups_by_name (lower existing.name);
  }

  abbrev pub updated_group : Group → Group → Group
  updated_group g existing = record g {
    created_at = existing.created_at;
    updated_at = if is_zero g.updated_at then existing.updated_at else g.updated_at;
  }

  abbrev pub created_group : Group → Group
  created_group g = record g {
    updated_at = if is_zero g.updated_at then g.created_at else g.updated_at;
  }

  -- upsertGroup, the row exists
  unfoldable pub update_group : Group → Bool → Group → GroupTable → GroupTable × Result (Unit {0})
  update_group g create existing t =
      if create
      then (t, err conflict)
      else if taken_by_other t.groups_by_name (lower g.name) g.id
      then (t, err conflict)
      else (store_group (updated_group g existing) (drop_group_name existing t), ok tt)

  -- upsertGroup, there is no such row
  unfoldable pub create_group : Group → Bool → GroupTable → GroupTable × Result (Unit {0})
  create_group g create t =
      if not create then (t, err not_found) else elim (get t.groups_by_name (lower g.name)) [
        | some other ↦ (t, err conflict)
        | none ↦ (store_group (created_group g) t, ok tt)
      ]

  -- upsertGroup
  unfoldable pub upsert_group : Group → Bool → GroupTable → GroupTable × Result (Unit {0})
  upsert_group g create t = elim (get t.groups g.id) [
    | some existing ↦ update_group g create existing t
    | none ↦ create_group g create t
  ]
