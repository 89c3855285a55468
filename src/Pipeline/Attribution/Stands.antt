-- ===== src/Pipeline/Attribution/Stands.antt =====
-- A project that stands in the replica, and the calls on another project.
use dagger_kubernetes.Prelude.{
  Bool, true, false, ◌≡◌, ◌⊎◌, inl, inr, refl, sym, ap, ◌∙◌, subst, Option, some, List, [], ◌∷◌,
  String, str_eq, eq_iff, arith, Bool-cases, Option-cases,
}
use dagger_kubernetes.Maps.{get, get-put}
use dagger_kubernetes.Domain.{Project, Group, Error, Result, ok, err, nil_dereference}
use dagger_kubernetes.Fsm.State.{FsmState, ProjectTable}
use dagger_kubernetes.Fsm.Projects.{
  upsert_project, create_project, update_project, store_project, drop_project_name, created_project,
  updated_project,
}
use dagger_kubernetes.Fsm.Projects.Index.{IsProjectTable, upsert_project-IsProjectTable}
use dagger_kubernetes.Fsm.Reads.{read_project_by_id, read_row, read_group_by_name}
use dagger_kubernetes.Fsm.Queries.{list_groups}
use dagger_kubernetes.Mapping.{Regexp, Rules, is_active_mapper, map_project}
use dagger_kubernetes.Pipeline.Repo.{Outcome, applied, lost, late}
use dagger_kubernetes.Pipeline.Attribution.{
  IngestEnv, propose_result, new_project, create_in, update_in, require_group, assign,
  mapping_assign, auto_matches, auto_assign_from, resolve_group,
}

pub Result-cases {ℓ} :
    {A : Type ℓ} (r : Result A)
    → ((a : A) × (r ≡ ok a)) ⊎ ((e : Error) × (r ≡ err e)) ⊎ (r ≡ nil_dereference)
Result-cases (ok a) = inl (a, refl)
Result-cases (err e) = inr (inl (e, refl))
Result-cases nil_dereference = inr (inr refl)

pub value_of : (a b : Project) → ok a ≡ ok b → a ≡ b
value_of a b e = ap (λ r. elim r as (λ z. Project) [ ok y ↦ y | err x ↦ a | nil_dereference ↦ a ]) e

module _ (lower : String → String) where
  pub upsert_project-other :
      (q : Project) (create : Bool) (t : ProjectTable) (id : String)
      → str_eq q.id id ≡ false
      → get (upsert_project lower q create t).0.projects id ≡ get t.projects id
  unfolding upsert_project create_project update_project store_project drop_project_name
  upsert_project-other q create t id other = elim (Option-cases (get t.projects q.id)) [
    | inl fresh ↦
        rw (fresh, upsert_project)
          (ground (arith, get-put t.projects q.id id (created_project lower q), other))
    | inr (x, at) ↦
        rw (at, upsert_project)
          (ground (arith, get-put t.projects q.id id (updated_project lower q x), other))
  ]

  pub create-refused :
      (q x : Project) (t : ProjectTable)
      → get t.projects q.id ≡ some x
      → upsert_project lower q true t ≡ (t, err Error.conflict)
  unfolding upsert_project update_project
  create-refused q x t at = rw (at, upsert_project) refl

  module _ (re : Regexp) (env : IngestEnv) (id : String) (p : Project) where
    -- the project stands there in a sound table
    pub record Stands (s : FsmState) : Type 0 where
      pub row : get s.projects id ≡ some p
      pub sound : IsProjectTable lower s.project_table

    pub create_in-Stands :
        (name : String) (s : FsmState) → Stands s → Stands (create_in lower re env name s).0
    unfolding create_in propose_result
    create_in-Stands name s h = proposed env.created
      where
        done : Stands (record s {
          project_table =
              (upsert_project lower (new_project lower re env name) true s.project_table).0;
        })
        done = record {
          row = elim (Bool-cases (str_eq env.new_id id)) [
            | inr other ↦
                upsert_project-other (new_project lower re env name) true s.project_table id other
                ∙ h.row
            | inl same ↦
                let taken : get s.projects env.new_id ≡ some p =
                  subst (λ j. get s.projects j ≡ some p) (sym ((eq_iff env.new_id id).0 same))
                    h.row in
                rw (create-refused (new_project lower re env name) p s.project_table taken) h.row
          ];
          sound =
              upsert_project-IsProjectTable lower (new_project lower re env name) true
                s.project_table h.sound;
        }

        proposed :
            (o : Outcome)
            → Stands
                (propose_result o
                  (
                    record s {
                      project_table =
                          (upsert_project lower
                            (new_project lower re env name)
                            true
                            s.project_table).0;
                    },
                    (upsert_project lower (new_project lower re env name) true s.project_table).1,
                  )
                  s).0
        proposed applied = done
        proposed (lost e) = h
        proposed (late e) = done

    pub assign-Stands :
        (j group_id : String) (s : FsmState)
        → str_eq j id ≡ false
        → Stands s
        → Stands (assign lower re env j group_id s)
    unfolding assign update_in propose_result read_project_by_id read_row
    assign-Stands j group_id s other h = elim (Option-cases (get s.projects j)) [
      | inl missing ↦ rw (missing, assign) h
      | inr (x, at) ↦
          rw (at, assign)
            (required x (h.sound.keyed j x at) (require_group lower re env group_id s))
    ]
      where
        done :
            (x : Project)
            → x.id ≡ j
            → Stands (record s {
              project_table =
                  (upsert_project lower
                    (record x { group_id = group_id; updated_at = env.now })
                    false
                    s.project_table).0;
            })
        done x own = record {
          row =
              upsert_project-other (record x { group_id = group_id; updated_at = env.now }) false
                s.project_table id (subst (λ i. str_eq i id ≡ false) (sym own) other)
              ∙ h.row;
          sound =
              upsert_project-IsProjectTable lower
                (record x { group_id = group_id; updated_at = env.now }) false s.project_table
                h.sound;
        }

        proposed :
            (x : Project)
            → x.id ≡ j
            → (o : Outcome)
            → Stands
                (propose_result o
                  (
                    record s {
                      project_table =
                          (upsert_project lower
                            (record x { group_id = group_id; updated_at = env.now })
                            false
                            s.project_table).0;
                    },
                    (upsert_project lower
                        (record x { group_id = group_id; updated_at = env.now })
                        false
                        s.project_table).1,
                  )
                  s).0
        proposed x own applied = done x own
        proposed x own (lost e) = h
        proposed x own (late e) = done x own

        required :
            (x : Project)
            → x.id ≡ j
            → (r : Result (Unit {0}))
            → Stands (elim r as (λ z. FsmState) [
              | ok u ↦ (update_in lower re env (record x { group_id = group_id }) s).0
              | err e ↦ s
              | nil_dereference ↦ s
            ])
        required x own (ok u) = proposed x own env.assigned
        required x own (err e) = h
        required x own nil_dereference = h

    pub auto_assign-Stands :
        (proj : Project) (gs : List Group) (s : FsmState)
        → str_eq proj.id id ≡ false
        → Stands s
        → Stands (auto_assign_from lower re env proj gs s).0
    unfolding auto_assign_from
    auto_assign-Stands proj [] s other h = h
    auto_assign-Stands proj (g ∷ gs) s other h =
        elim (Bool-cases (auto_matches lower re env g proj.name)) [
          | inl hit ↦ rw (hit, auto_assign_from) (assign-Stands proj.id g.id s other h)
          | inr miss ↦ rw (miss, auto_assign_from) (auto_assign-Stands proj gs s other h)
        ]

    pub mapping_assign-Stands :
        (proj : Project) (group : String) (s : FsmState)
        → str_eq proj.id id ≡ false
        → Stands s
        → Stands (mapping_assign lower re env proj group s).0
    unfolding mapping_assign
    mapping_assign-Stands proj group s other h =
        elim (Result-cases (read_group_by_name lower s group)) [
          | inl (g, at) ↦ rw (at, mapping_assign) (assign-Stands proj.id g.id s other h)
          | inr (inl (e, at)) ↦ rw (at, mapping_assign) h
          | inr (inr at) ↦ rw (at, mapping_assign) h
        ]

    pub resolve_group-Stands :
        (mapper : Option (Rules re)) (proj : Project) (s : FsmState)
        → str_eq proj.id id ≡ false
        → Stands s
        → Stands (resolve_group lower re env mapper proj s).0
    unfolding resolve_group
    resolve_group-Stands mapper proj s other h =
        let auto = auto_assign-Stands proj (list_groups s) s other h in
        elim (Bool-cases (is_active_mapper re mapper)) [
          | inr off ↦ rw (off, resolve_group) auto
          | inl on ↦ elim (Option-cases (map_project re mapper proj.name)) [
            | inl none_maps ↦ rw (on, none_maps, resolve_group) auto
            | inr (group, at) ↦
                rw (on, at, resolve_group) (mapping_assign-Stands proj group s other h)
          ]
        ]
