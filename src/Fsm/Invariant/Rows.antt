-- ===== src/Fsm/Invariant/Rows.antt =====
-- Rows that are dropped from a table, and those that an upsert leaves.
use dagger_kubernetes.Prelude.{
  Bool, true, ◌≡◌, inl, inr, none, some, String, eq_iff, arith, Option-cases,
}
use dagger_kubernetes.Maps.{get, has, get-put, get-remove, map_values, get-map_values}
use dagger_kubernetes.Maps.Index.{IsIndexed-change, IsIndexed-map_values}
use dagger_kubernetes.Domain.{User, Group, Project}
use dagger_kubernetes.Fsm.State.{UserTable, GroupTable, ProjectTable, oauth_key}
use dagger_kubernetes.Fsm.Users.{
  upsert_user, update_user, create_user, store_user, drop_user_keys, created_user, updated_user,
}
use dagger_kubernetes.Fsm.Users.Index.{IsUserTable, oauth_index_key}
use dagger_kubernetes.Fsm.Groups.{
  upsert_group, update_group, create_group, store_group, drop_group_name, created_group,
  updated_group,
}
use dagger_kubernetes.Fsm.Groups.Index.{IsGroupTable}
use dagger_kubernetes.Fsm.Projects.{delete_project}
use dagger_kubernetes.Fsm.Projects.Index.{IsProjectTable, project_key}
use dagger_kubernetes.Fsm.Cascade.{remove_user_row, remove_group_row, clear_project_group}

module _ (lower : String → String) where
  pub remove_user_row-IsUserTable :
      (id : String) (u : User) (t : UserTable)
      → get t.users id ≡ some u
      → IsUserTable lower t
      → IsUserTable lower (remove_user_row lower id u t)
  unfolding remove_user_row
  remove_user_row-IsUserTable id u t at h = record {
    keyed = λ i x e. ground (arith, get-remove t.users id i, h.keyed i x);
    named = λ i x e. ground (arith, get-remove t.users id i, h.named i x);
    by_name =
        IsIndexed-change _ t.users _ t.users_by_name _ id none (λ j. get-remove t.users id j)
          (λ k. rw at (get-remove t.users_by_name (lower u.username) k)) (λ k e. ground arith)
          h.by_name;
    by_oauth =
        IsIndexed-change oauth_index_key t.users _ t.users_by_oauth _ id none
          (λ j. get-remove t.users id j)
          (λ k.
            rw at (
              ground
                (arith, get-remove t.users_by_oauth (oauth_key u.oauth_provider u.oauth_id) k)))
          (λ k e. ground arith) h.by_oauth;
  }

  pub remove_group_row-IsGroupTable :
      (id : String) (g : Group) (t : GroupTable)
      → get t.groups id ≡ some g
      → IsGroupTable lower t
      → IsGroupTable lower (remove_group_row lower id g t)
  unfolding remove_group_row
  remove_group_row-IsGroupTable id g t at h = record {
    keyed = λ i x e. ground (arith, get-remove t.groups id i, h.keyed i x);
    by_name =
        IsIndexed-change _ t.groups _ t.groups_by_name _ id none (λ j. get-remove t.groups id j)
          (λ k. rw at (get-remove t.groups_by_name (lower g.name) k)) (λ k e. ground arith)
          h.by_name;
  }

  pub delete_project-IsProjectTable :
      (id : String) (t : ProjectTable)
      → IsProjectTable lower t
      → IsProjectTable lower (delete_project lower id t).0
  unfolding delete_project
  delete_project-IsProjectTable id t h = elim (Option-cases (get t.projects id)) [
    | inl missing ↦ rw (missing, delete_project) h
    | inr (p, at) ↦
        rw (at, delete_project)
          (record {
            keyed = λ i x e. ground (arith, get-remove t.projects id i, h.keyed i x);
            by_name =
                IsIndexed-change _ t.projects _ t.projects_by_name _ id none
                  (λ j. get-remove t.projects id j)
                  (λ k. rw at (get-remove t.projects_by_name (lower p.name) k))
                  (λ k e. ground arith) h.by_name;
          })
  ]

  clear_project_group-key :
      (id : String) (p : Project)
      → project_key lower (clear_project_group id p) ≡ project_key lower p
  unfolding clear_project_group
  clear_project_group-key id p = ground arith

  clear_project_group-id : (id : String) (p : Project) → (clear_project_group id p).id ≡ p.id
  unfolding clear_project_group
  clear_project_group-id id p = ground arith

  pub clear_projects-IsProjectTable :
      (id : String) (t : ProjectTable)
      → IsProjectTable lower t
      → IsProjectTable lower
          (record t { projects = map_values (clear_project_group id) t.projects })
  clear_projects-IsProjectTable id t h = record {
    keyed = λ i x e. elim (Option-cases (get t.projects i)) [
      | inl missing ↦ absurd (ground (arith, get-map_values (clear_project_group id) t.projects i))
      | inr (p, at) ↦ ground (
        arith,
        get-map_values (clear_project_group id) t.projects i,
        h.keyed i p at,
        clear_project_group-id id p,
      )
    ];
    by_name =
        IsIndexed-map_values (project_key lower) (clear_project_group id)
          (clear_project_group-key id) t.projects t.projects_by_name h.by_name;
  }

  pub has-upsert_user :
      (u : User) (create : Bool) (t : UserTable) (id : String)
      → has t.users id ≡ true
      → has (upsert_user lower u create t).0.users id ≡ true
  unfolding upsert_user update_user create_user store_user drop_user_keys
  has-upsert_user u create t id h = elim (Option-cases (get t.users u.id)) [
    | inl fresh ↦
        rw (fresh, upsert_user)
          (ground (arith, get-put t.users u.id id (created_user lower u), eq_iff u.id id))
    | inr (old, at) ↦
        rw (at, upsert_user)
          (ground (arith, get-put t.users u.id id (updated_user lower u old), eq_iff u.id id))
  ]

  pub has-upsert_group :
      (g : Group) (create : Bool) (t : GroupTable) (id : String)
      → has t.groups id ≡ true
      → has (upsert_group lower g create t).0.groups id ≡ true
  unfolding upsert_group update_group create_group store_group drop_group_name
  has-upsert_group g create t id h = elim (Option-cases (get t.groups g.id)) [
    | inl fresh ↦
        rw (fresh, upsert_group)
          (ground (arith, get-put t.groups g.id id (created_group lower g), eq_iff g.id id))
    | inr (old, at) ↦
        rw (at, upsert_group)
          (ground (arith, get-put t.groups g.id id (updated_group lower g old), eq_iff g.id id))
  ]
