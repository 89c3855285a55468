-- ===== src/Fsm/Groups/Index.antt =====
-- The group table's invariant and upsertGroup.
use dagger_kubernetes.Prelude.{
  Bool, false, ◌≡◌, ◌⊎◌, inl, inr, Option, none, some, String, eq_iff, arith, Option-cases,
}
use dagger_kubernetes.Maps.{get, get-put, get-remove}
use dagger_kubernetes.Maps.Index.{IsIndexed, IsIndexed-change}
use dagger_kubernetes.Domain.{Group}
use dagger_kubernetes.Fsm.State.{GroupTable}
use dagger_kubernetes.Fsm.Users.{taken_by_other}
use dagger_kubernetes.Fsm.Users.Index.{free_of_not_taken}
use dagger_kubernetes.Fsm.Groups.{
  store_group, drop_group_name, updated_group, created_group, update_group, create_group,
  upsert_group,
}

module _ (lower : String → String) where
  abbrev pub group_key : Group → Option String
  group_key g = some (lower g.name)

  -- Rows stand under their own id, and the name index is exact.
  pub record IsGroupTable (t : GroupTable) : Type 0 where
    pub keyed : (id : String) (g : Group) → get t.groups id ≡ some g → g.id ≡ id
    pub by_name : IsIndexed group_key t.groups t.groups_by_name

  module _ (g : Group) (t : GroupTable) (h : IsGroupTable t) where
    create_keeps :
        get t.groups g.id ≡ none
        → get t.groups_by_name (lower g.name) ≡ none
        → IsGroupTable (store_group lower g t)
    unfolding store_group
    create_keeps fresh free = record {
      keyed = λ id x e. ground (arith, get-put t.groups g.id id g, eq_iff g.id id, h.keyed id x);
      by_name =
          IsIndexed-change _ t.groups _ t.groups_by_name _ g.id (some g)
            (λ j. get-put t.groups g.id j g)
            (λ k. rw fresh (get-put t.groups_by_name (lower g.name) k g.id)) (λ k e. ground arith)
            h.by_name;
    }

    update_keeps :
        (old : Group)
        → get t.groups g.id ≡ some old
        → taken_by_other t.groups_by_name (lower g.name) g.id ≡ false
        → IsGroupTable (store_group lower g (drop_group_name lower old t))
    unfolding store_group drop_group_name
    update_keeps old at free = record {
      keyed = λ id x e. ground (arith, get-put t.groups g.id id g, eq_iff g.id id, h.keyed id x);
      by_name =
          IsIndexed-change _ t.groups _ t.groups_by_name _ g.id (some g)
            (λ j. get-put t.groups g.id j g) (λ k. rw at (simp (get-put, get-remove)))
            (λ k e.
              ground (arith, eq_iff (lower g.name) k, free_of_not_taken t.groups_by_name k g.id))
            h.by_name;
    }

  module _ (g : Group) (create : Bool) (t : GroupTable) where
    create_cases :
        ((create_group lower g create t).0 ≡ t)
        ⊎ (((create_group lower g create t).0 ≡ store_group lower (created_group lower g) t)
            × (get t.groups_by_name (lower g.name) ≡ none))
    unfolding create_group
    create_cases = ground arith

    update_cases :
        (old : Group)
        → ((update_group lower g create old t).0 ≡ t)
          ⊎ (((update_group lower g create old t).0
                ≡ store_group lower (updated_group lower g old) (drop_group_name lower old t))
              × (taken_by_other t.groups_by_name (lower g.name) g.id ≡ false))
    unfolding update_group
    update_cases old = ground arith

    -- An upsert keeps the table's invariant, whatever it returns.
    pub upsert_group-IsGroupTable : IsGroupTable t → IsGroupTable (upsert_group lower g create t).0
    unfolding upsert_group
    upsert_group-IsGroupTable h = elim (Option-cases (get t.groups g.id)) [
      | inl fresh ↦ elim create_cases [
        | inl same ↦ rw (fresh, upsert_group) (rw same h)
        | inr (e, free) ↦
            rw (fresh, upsert_group) (rw e (create_keeps (created_group lower g) t h fresh free))
      ]
      | inr (old, at) ↦ elim (update_cases old) [
        | inl same ↦ rw (at, upsert_group) (rw same h)
        | inr (e, free) ↦
            rw (at, upsert_group) (rw e (update_keeps (updated_group lower g old) t h old at free))
      ]
    ]
