-- ===== src/Pipeline/Attribution/Kept.antt =====
-- That attribution never moves a project that has a group.
use mathlib.Core.Option.{some_inj}
use dagger_kubernetes.Prelude.{
  Bool, true, false, ◌||◌, ◌≡◌, ◌⊎◌, inl, inr, refl, sym, ap, ◌∙◌, subst, Option, none, some,
  String, str_eq, eq_iff, arith, ltb, Bool-cases, Option-cases, if◌then◌else◌,
}
use dagger_kubernetes.Maps.{get}
use dagger_kubernetes.Domain.{
  Project, TraceMeta, Error, Result, ok, err, nil_dereference, not_found,
}
use dagger_kubernetes.Fsm.State.{FsmState}
use dagger_kubernetes.Fsm.Projects.{upsert_project}
use dagger_kubernetes.Fsm.Reads.{read_project_by_name, read_indexed, dereference}
use dagger_kubernetes.Mapping.{Regexp, Rules}
use dagger_kubernetes.Pipeline.Repo.{
  Outcome, applied, lost, late, text_length, max_ingest_field_len,
}
use dagger_kubernetes.Fsm.Invariant.{WellFormed}
use dagger_kubernetes.Pipeline.Attribution.{
  IngestEnv, propose_result, new_project, create_in, create_by_name, get_or_create_by_name,
  max_project_name_len, is_not_found, project_group, repo_of, attribute_run, ingest,
}
use dagger_kubernetes.Pipeline.Attribution.Stands.{
  Stands, Result-cases, value_of, create-refused, create_in-Stands, resolve_group-Stands,
}

module _ (lower : String → String) (re : Regexp) (env : IngestEnv) (id : String) (p : Project)
    (explicit : str_eq p.group_id "" ≡ false) where
  -- a project without a group is another one
  ungrouped-other :
      (x : Project) (s : FsmState)
      → Stands lower re env id p s
      → get s.projects x.id ≡ some x
      → str_eq x.group_id "" ≡ true
      → str_eq x.id id ≡ false
  ungrouped-other x s h at ungrouped = elim (Bool-cases (str_eq x.id id)) [
    | inr other ↦ other
    | inl same ↦
        let here : some x ≡ some p =
          sym at ∙ ap (get s.projects) ((eq_iff x.id id).0 same) ∙ h.row in
        let grouped : str_eq x.group_id "" ≡ false =
          subst (λ q. str_eq q.group_id "" ≡ false) (sym (some_inj.0 here)) explicit in
        ground arith
  ]

  read_by_name-row :
      (name : String) (x : Project) (s : FsmState)
      → Stands lower re env id p s
      → read_project_by_name lower s name ≡ ok x
      → get s.projects x.id ≡ some x
  unfolding read_project_by_name read_indexed dereference
  read_by_name-row name x s h read = elim (Option-cases (get s.projects_by_name (lower name))) [
    | inl missing ↦
        let never =
          subst
            (λ o.
              (elim o as (λ z. Result Project) [
                | none ↦ err not_found
                | some i ↦ dereference (get s.projects i)
              ])
              ≡ ok x)
            missing read in
        cc
    | inr (i, here) ↦
        let (r, at, keyed) = h.sound.by_name.sound (lower name) i here in
        let found =
          subst
            (λ o.
              (elim o as (λ z. Result Project) [
                | none ↦ err not_found
                | some j ↦ dereference (get s.projects j)
              ])
              ≡ ok x)
            here read in
        let found' : ok r ≡ ok x = subst (λ o. dereference o ≡ ok x) at found in
        let same : r ≡ x = value_of r x found' in
        subst (λ q. get s.projects q.id ≡ some q) same
          (subst (λ j. get s.projects j ≡ some r) (sym (h.sound.keyed i r at)) at)
  ]

  new_project-other :
      (name : String) (s : FsmState)
      → Stands lower re env id p s
      → (create_in lower re env name s).1 ≡ ok tt
      → str_eq env.new_id id ≡ false
  unfolding create_in propose_result
  new_project-other name s h done = elim (Bool-cases (str_eq env.new_id id)) [
    | inr other ↦ other
    | inl same ↦
        let taken : get s.projects env.new_id ≡ some p =
          subst (λ j. get s.projects j ≡ some p) (sym ((eq_iff env.new_id id).0 same)) h.row in
        let refused =
          create-refused lower (new_project lower re env name) p s.project_table taken in
        never env.created (ap (λ r. r.1) refused) done
  ]
    where
      never :
          (o : Outcome) {b : Bool}
          → (upsert_project lower (new_project lower re env name) true s.project_table).1
            ≡ err Error.conflict
          → (propose_result o
              (
                record s {
                  project_table =
                      (upsert_project lower (new_project lower re env name) true s.project_table).0;
                },
                (upsert_project lower (new_project lower re env name) true s.project_table).1,
              )
              s).1
            ≡ ok tt
          → b ≡ false
      never applied refused e = cc
      never (lost x) refused e = cc
      never (late x) refused e = cc

  -- GetOrCreateByName keeps the error of Create where the second read fails too
  abbrev keep_error : Error → Result Project → Result Project
  keep_error x r = elim r as (λ z. Result Project) [
    | ok a ↦ ok a
    | err e ↦ err x
    | nil_dereference ↦ nil_dereference
  ]

  abbrev Finds : FsmState × Result Project → Type 0
  Finds r =
      Stands lower re env id p r.0
      × ((proj : Project)
          → r.1 ≡ ok proj
          → str_eq proj.group_id "" ≡ true
          → str_eq proj.id id ≡ false)

  create_by_name-Finds :
      (name : String) (s : FsmState)
      → Stands lower re env id p s
      → Finds (create_by_name lower re env name s)
  unfolding create_by_name
  create_by_name-Finds name s h =
      let h' = create_in-Stands lower re env id p name s h in
      elim (Result-cases (create_in lower re env name s).1) [
        | inl (u, at) ↦
            rw (at, create_by_name)
              (
                h',
                λ proj e ungrouped.
                    subst (λ q. str_eq q.id id ≡ false) (value_of _ proj e)
                      (new_project-other name s h at),
              )
        | inr (inr at) ↦ rw (at, create_by_name) (h', λ proj e ungrouped. cc)
        | inr (inl (x, at)) ↦
            rw (at, create_by_name)
              (
                h',
                λ proj e ungrouped.
                    again x proj h'
                      (Result-cases
                        (read_project_by_name lower (create_in lower re env name s).0 name))
                      e ungrouped,
              )
      ]
    where
      s' : FsmState
      s' = (create_in lower re env name s).0

      again :
          (x : Error) (proj : Project)
          → Stands lower re env id p s'
          → ((a : Project) × (read_project_by_name lower s' name ≡ ok a))
            ⊎ ((e : Error) × (read_project_by_name lower s' name ≡ err e))
            ⊎ (read_project_by_name lower s' name ≡ nil_dereference)
          → keep_error x (read_project_by_name lower s' name) ≡ ok proj
          → str_eq proj.group_id "" ≡ true
          → str_eq proj.id id ≡ false
      again x proj h' (inl (a, at)) e ungrouped =
          let e' : ok a ≡ ok proj = subst (λ r. keep_error x r ≡ ok proj) at e in
          ungrouped-other proj s' h' (read_by_name-row name proj s' h' (at ∙ e')) ungrouped
      again x proj h' (inr (inl (y, at))) e ungrouped =
          let e' : err x ≡ ok proj = subst (λ r. keep_error x r ≡ ok proj) at e in cc
      again x proj h' (inr (inr at)) e ungrouped =
          let e' : nil_dereference ≡ ok proj = subst (λ r. keep_error x r ≡ ok proj) at e in cc

  get_or_create-Finds :
      (name : String) (s : FsmState)
      → Stands lower re env id p s
      → Finds (get_or_create_by_name lower re env name s)
  unfolding get_or_create_by_name
  get_or_create-Finds name s h =
      elim (Bool-cases (str_eq name "" || ltb max_project_name_len (text_length name))) [
        | inl bad ↦ rw (bad, get_or_create_by_name) (h, λ proj e ungrouped. cc)
        | inr good ↦ elim (Result-cases (read_project_by_name lower s name)) [
          | inl (q, at) ↦
              rw (good, at, get_or_create_by_name)
                (
                  h,
                  λ proj e ungrouped.
                      ungrouped-other proj s h (read_by_name-row name proj s h (at ∙ e)) ungrouped,
                )
          | inr (inr at) ↦ rw (good, at, get_or_create_by_name) (h, λ proj e ungrouped. cc)
          | inr (inl (x, at)) ↦ elim (Bool-cases (is_not_found x)) [
            | inl absent ↦
                rw (good, at, get_or_create_by_name) (rw absent (create_by_name-Finds name s h))
            | inr failed ↦
                rw (good, at, get_or_create_by_name) (rw failed (h, λ proj e ungrouped. cc))
          ]
        ]
      ]

  project_group-Stands :
      (mapper : Option (Rules re)) (r : Result Project) (s : FsmState)
      → Finds (s, r)
      → Stands lower re env id p (project_group lower re env mapper r s).0
  unfolding project_group
  project_group-Stands mapper (err e) s (h, other) = h
  project_group-Stands mapper nil_dereference s (h, other) = h
  project_group-Stands mapper (ok proj) s (h, other) = elim (Bool-cases (str_eq proj.group_id "")) [
    | inr grouped ↦ rw (grouped, project_group) h
    | inl ungrouped ↦
        rw (ungrouped, project_group)
          (resolve_group-Stands lower re env id p mapper proj s (other proj refl ungrouped) h)
  ]

  attribute_run-Stands :
      (mapper : Option (Rules re)) (repo : String) (s : FsmState)
      → Stands lower re env id p s
      → Stands lower re env id p (attribute_run lower re env mapper repo s).0
  unfolding attribute_run
  attribute_run-Stands mapper repo s h =
      let r = get_or_create_by_name lower re env repo s in
      elim (Bool-cases (str_eq repo "")) [
        | inl blank ↦ rw (blank, attribute_run) h
        | inr named ↦
            subst
              (λ b.
                Stands lower re env id p
                  (if b then (s, "") else project_group lower re env mapper r.1 r.0).0)
              (sym named) (project_group-Stands mapper r.1 r.0 (get_or_create-Finds repo s h))
      ]

-- In a well-formed replica, Ingest leaves a project that has a group as it is, whatever the mapping
-- rules and the patterns of the groups match, whatever becomes of the commands, and under which id a
-- new project is made.
pub ingest_keeps_group :
    (lower : String → String) (re : Regexp) (env : IngestEnv) (s : FsmState)
    (w : WellFormed lower s) (id : String) (p : Project) (mapper : Option (Rules re))
    (m : TraceMeta) (git_remote : String)
    → get s.projects id ≡ some p
    → str_eq p.group_id "" ≡ false
    → get (ingest lower re env mapper m git_remote s).projects id ≡ some p
unfolding ingest
ingest_keeps_group lower re env s w id p mapper m git_remote at explicit =
    let h : Stands lower re env id p s = record { row = at; sound = w.projects_ok } in
    elim (Bool-cases (str_eq m.trace_id "" || ltb max_ingest_field_len (text_length m.trace_id))) [
      | inl bad ↦ rw (bad, ingest) at
      | inr good ↦
          rw (good, ingest)
            (attribute_run-Stands lower re env id p explicit mapper (repo_of m git_remote) s h).row
    ]
