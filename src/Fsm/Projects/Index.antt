-- ===== src/Fsm/Projects/Index.antt =====
-- The project table's invariant and upsertProject.
use dagger_kubernetes.Prelude.{
  Bool, false, ◌≡◌, ◌⊎◌, inl, inr, Option, none, some, String, eq_iff, arith, Option-cases,
}
use dagger_kubernetes.Maps.{get, get-put, get-remove}
use dagger_kubernetes.Maps.Index.{IsIndexed, IsIndexed-change}
use dagger_kubernetes.Domain.{Project}
use dagger_kubernetes.Fsm.State.{ProjectTable}
use dagger_kubernetes.Fsm.Users.{taken_by_other}
use dagger_kubernetes.Fsm.Users.Index.{free_of_not_taken}
use dagger_kubernetes.Fsm.Projects.{
  store_project, drop_project_name, updated_project, created_project, update_project,
  create_project, upsert_project,
}

module _ (lower : String → String) where
  abbrev pub project_key : Project → Option String
  project_key p = some (lower p.name)

  -- Rows stand under their own id, and the name index is exact.
  pub record IsProjectTable (t : ProjectTable) : Type 0 where
    pub keyed : (id : String) (p : Project) → get t.projects id ≡ some p → p.id ≡ id
    pub by_name : IsIndexed project_key t.projects t.projects_by_name

  module _ (p : Project) (t : ProjectTable) (h : IsProjectTable t) where
    create_keeps :
        get t.projects p.id ≡ none
        → get t.projects_by_name (lower p.name) ≡ none
        → IsProjectTable (store_project lower p t)
    unfolding store_project
    create_keeps fresh free = record {
      keyed = λ id x e. ground (arith, get-put t.projects p.id id p, eq_iff p.id id, h.keyed id x);
      by_name =
          IsIndexed-change _ t.projects _ t.projects_by_name _ p.id (some p)
            (λ j. get-put t.projects p.id j p)
            (λ k. rw fresh (get-put t.projects_by_name (lower p.name) k p.id)) (λ k e. ground arith)
            h.by_name;
    }

    update_keeps :
        (old : Project)
        → get t.projects p.id ≡ some old
        → taken_by_other t.projects_by_name (lower p.name) p.id ≡ false
        → IsProjectTable (store_project lower p (drop_project_name lower old t))
    unfolding store_project drop_project_name
    update_keeps old at free = record {
      keyed = λ id x e. ground (arith, get-put t.projects p.id id p, eq_iff p.id id, h.keyed id x);
      by_name =
          IsIndexed-change _ t.projects _ t.projects_by_name _ p.id (some p)
            (λ j. get-put t.projects p.id j p) (λ k. rw at (simp (get-put, get-remove)))
            (λ k e.
              ground (arith, eq_iff (lower p.name) k, free_of_not_taken t.projects_by_name k p.id))
            h.by_name;
    }

  module _ (p : Project) (create : Bool) (t : ProjectTable) where
    create_cases :
        ((create_project lower p create t).0 ≡ t)
        ⊎ (((create_project lower p create t).0 ≡ store_project lower (created_project lower p) t)
            × (get t.projects_by_name (lower p.name) ≡ none))
    unfolding create_project
    create_cases = ground arith

    update_cases :
        (old : Project)
        → ((update_project lower p create old t).0 ≡ t)
          ⊎ (((update_project lower p create old t).0
                ≡ store_project lower (updated_project lower p old) (drop_project_name lower old t))
              × (taken_by_other t.projects_by_name (lower p.name) p.id ≡ false))
    unfolding update_project
    update_cases old = ground arith

    -- An upsert keeps the table's invariant, whatever it returns.
    pub upsert_project-IsProjectTable :
        IsProjectTable t → IsProjectTable (upsert_project lower p create t).0
    unfolding upsert_project
    upsert_project-IsProjectTable h = elim (Option-cases (get t.projects p.id)) [
      | inl fresh ↦ elim create_cases [
        | inl same ↦ rw (fresh, upsert_project) (rw same h)
        | inr (e, free) ↦
            rw (fresh, upsert_project)
              (rw e (create_keeps (created_project lower p) t h fresh free))
      ]
      | inr (old, at) ↦ elim (update_cases old) [
        | inl same ↦ rw (at, upsert_project) (rw same h)
        | inr (e, free) ↦
            rw (at, upsert_project)
              (rw e (update_keeps (updated_project lower p old) t h old at free))
      ]
    ]
