-- ===== src/Fsm/Projects.antt =====
-- The project table of fsm.go: upsertProject, storeProject and deleteProject.
-- `lower` stands for `strings.ToLower`.
pub mod Index
use dagger_kubernetes.Prelude.{Bool, not, Option, none, some, String, if◌then◌else◌}
use dagger_kubernetes.Maps.{get, put, remove}
use dagger_kubernetes.Domain.{Project, Result, ok, err, not_found, conflict, is_zero}
use dagger_kubernetes.Fsm.State.{ProjectTable}
use dagger_kubernetes.Fsm.Users.{taken_by_other}

module _ (lower : String → String) where
  -- storeProject
  unfoldable pub store_project : Project → ProjectTable → ProjectTable
  store_project p t = record {
    projects = put t.projects p.id p;
    projects_by_name = put t.projects_by_name (lower p.name) p.id;
  }

  unfoldable pub drop_project_name : Project → ProjectTable → ProjectTable
  drop_project_name existing t = record t {
    projects_by_name = remove t.projects_by_name (lower existing.name);
  }

  abbrev pub updated_project : Project → Project → Project
  updated_project p existing = record p {
    created_at = existing.created_at;
    updated_at = if is_zero p.updated_at then existing.updated_at else p.updated_at;
  }

  abbrev pub created_project : Project → Project
  created_project p = record p {
    updated_at = if is_zero p.updated_at then p.created_at else p.updated_at;
  }

  -- upsertProject, the row exists
  unfoldable pub update_project :
      Project → Bool → Project → ProjectTable → ProjectTable × Result (Unit {0})
  update_project p create existing t =
      if create
      then (t, err conflict)
      else if taken_by_other t.projects_by_name (lower p.name) p.id
      then (t, err conflict)
      else (store_project (updated_project p existing) (drop_project_name existing t), ok tt)

  -- upsertProject, there is no such row
  unfoldable pub create_project : Project → Bool → ProjectTable → ProjectTable × Result (Unit {0})
  create_project p create t =
      if not create then (t, err not_found) else elim (get t.projects_by_name (lower p.name)) [
        | some other ↦ (t, err conflict)
        | none ↦ (store_project (created_project p) t, ok tt)
      ]

  -- upsertProject
  unfoldable pub upsert_project : Project → Bool → ProjectTable → ProjectTable × Result (Unit {0})
  upsert_project p create t = elim (get t.projects p.id) [
    | none ↦ create_project p create t
    | some existing ↦ update_project p create existing t
  ]

  -- deleteProject
  unfoldable pub delete_project : String → ProjectTable → ProjectTable × Result (Unit {0})
  delete_project id t = elim (get t.projects id) [
    | none ↦ (t, err not_found)
    | some p ↦ (
      record {
        projects = remove t.projects id;
        projects_by_name = remove t.projects_by_name (lower p.name);
      },
      ok tt,
    )
  ]
