-- ===== src/Pipeline/Attribution.antt =====
-- AttributionService of internal/service/attribution_service.go, with the part of
-- internal/service/project_service.go that it calls: Ingest finds or makes the project of a run and
-- the group of the project. Log lines are left out.
pub mod Stands
pub mod Kept
use dagger_kubernetes.Prelude.{
  ℕ, Bool, true, false, not, ◌||◌, Option, none, some, List, [], ◌∷◌, String, str_eq, ltb,
  if◌then◌else◌,
}
use dagger_kubernetes.Domain.{
  Time, is_zero, Project, Group, TraceMeta, Error, Result, ok, err, nil_dereference, validation,
  not_found,
}
use dagger_kubernetes.Fsm.State.{FsmState}
use dagger_kubernetes.Fsm.Projects.{upsert_project}
use dagger_kubernetes.Fsm.Reads.{
  read_project_by_id, read_project_by_name, read_group_by_id, read_group_by_name,
}
use dagger_kubernetes.Fsm.Queries.{list_groups}
use dagger_kubernetes.Mapping.{Regexp, Rules, is_active_mapper, map_project}
use dagger_kubernetes.Pipeline.Repo.{
  Outcome, applied, lost, late, text_length, upsert_ingest, max_ingest_field_len,
}

-- What becomes of the three commands that Ingest may propose, the id that a new project gets, and
-- the time.
pub record IngestEnv : Type 0 where
  pub created : Outcome
  pub assigned : Outcome
  pub ingested : Outcome
  pub new_id : String
  pub now : Time

-- applyCtx, for a command that may fail on the replica
unfoldable pub propose_result :
    Outcome → FsmState × Result (Unit {0}) → FsmState → FsmState × Result (Unit {0})
propose_result applied r s = r
propose_result (lost e) r s = (s, err e)
propose_result (late e) r s = (r.0, err e)

abbrev pub max_project_name_len : ℕ
max_project_name_len = 256

-- `errors.Is(err, domain.ErrNotFound)`
abbrev pub is_not_found : Error → Bool
is_not_found not_found = true
is_not_found _ = false

-- a field that is longer than the bound is dropped
abbrev pub bounded : String → String
bounded field = if ltb max_ingest_field_len (text_length field) then "" else field

-- the repository of a run: that of the CI, or else the git remote
abbrev pub repo_of : TraceMeta → String → String
repo_of m git_remote = bounded (if str_eq m.ci_repo "" then git_remote else m.ci_repo)

module _ (lower : String → String) (re : Regexp) (env : IngestEnv) where
  abbrev upsert_in : Project → Bool → FsmState → FsmState × Result (Unit {0})
  upsert_in p create s =
      let r = upsert_project lower p create s.project_table in
      (record s { project_table = r.0 }, r.1)

  -- the times that Create of ProjectRepo fills in
  abbrev stamped_project : Project → Project
  stamped_project p =
      let created = if is_zero p.created_at then env.now else p.created_at in
      record p {
        created_at = created;
        updated_at = if is_zero p.updated_at then created else p.updated_at;
      }

  -- `&domain.Project{ID: newID(), Name: name}` with those times
  abbrev pub new_project : String → Project
  new_project name =
      stamped_project
        (record { id = env.new_id; name = name; group_id = ""; created_at = 0; updated_at = 0 })

  -- Create of ProjectRepo, of the new project
  unfoldable pub create_in : String → FsmState → FsmState × Result (Unit {0})
  unfolding propose_result
  create_in name s = propose_result env.created (upsert_in (new_project name) true s) s

  -- Update of ProjectRepo
  unfoldable pub update_in : Project → FsmState → FsmState × Result (Unit {0})
  unfolding propose_result
  update_in p s =
      propose_result env.assigned (upsert_in (record p { updated_at = env.now }) false s) s

  -- the end of GetOrCreateByName, where no project has the name
  unfoldable pub create_by_name : String → FsmState → FsmState × Result Project
  unfolding create_in
  create_by_name name s =
      let (s', r) = create_in name s in
      (
        s',
        elim r [
          | ok u ↦ ok (new_project name)
          | nil_dereference ↦ nil_dereference
          | err e ↦ elim (read_project_by_name lower s' name) [
            | ok again ↦ ok again
            | err e' ↦ err e
            | nil_dereference ↦ nil_dereference
          ]
        ],
      )

  -- GetOrCreateByName
  unfoldable pub get_or_create_by_name : String → FsmState → FsmState × Result Project
  unfolding create_by_name
  get_or_create_by_name name s =
      if str_eq name "" || ltb max_project_name_len (text_length name)
      then (s, err validation)
      else elim (read_project_by_name lower s name) [
        | ok p ↦ (s, ok p)
        | err e ↦ if is_not_found e then create_by_name name s else (s, err e)
        | nil_dereference ↦ (s, nil_dereference)
      ]

  -- requireGroup
  unfoldable pub require_group : String → FsmState → Result (Unit {0})
  require_group group_id s =
      let found : Result (Unit {0}) = elim (read_group_by_id s group_id) [
        | ok g ↦ ok tt
        | err e ↦ err e
        | nil_dereference ↦ nil_dereference
      ] in
      if str_eq group_id "" then ok tt else found

  -- Assign, whose answer Ingest only logs
  unfoldable pub assign : String → String → FsmState → FsmState
  unfolding require_group update_in
  assign id group_id s = elim (read_project_by_id s id) [
    | err e ↦ s
    | nil_dereference ↦ s
    | ok p ↦ elim (require_group group_id s) [
      | ok u ↦ (update_in (record p { group_id = group_id }) s).0
      | err e ↦ s
      | nil_dereference ↦ s
    ]
  ]

  -- mappingAssign of a name that a rule maps to `group`
  unfoldable pub mapping_assign : Project → String → FsmState → FsmState × String
  unfolding assign
  mapping_assign proj group s = elim (read_group_by_name lower s group) [
    | ok g ↦ (assign proj.id g.id s, g.id)
    | err e ↦ (s, "")
    | nil_dereference ↦ (s, "")
  ]

  -- does the pattern of the group match the name?
  unfoldable pub auto_matches : Group → String → Bool
  auto_matches g name =
      let matched : Bool = elim (re.compile g.auto_assign_pattern) [
        | none ↦ false
        | some p ↦ re.matches p name
      ] in
      if str_eq g.auto_assign_pattern "" then false else matched

  -- the loop of autoAssign over the groups in the order of their ids
  unfoldable pub auto_assign_from : Project → List Group → FsmState → FsmState × String
  unfolding auto_matches assign
  auto_assign_from proj [] s = (s, "")
  auto_assign_from proj (g ∷ gs) s =
      let rest = auto_assign_from proj gs s in
      if auto_matches g proj.name then (assign proj.id g.id s, g.id) else rest

  -- resolveGroup
  unfoldable pub resolve_group : Option (Rules re) → Project → FsmState → FsmState × String
  unfolding mapping_assign auto_assign_from
  resolve_group mapper proj s =
      let auto = auto_assign_from proj (list_groups s) s in
      let by_rule : FsmState × String = elim (map_project re mapper proj.name) [
        | none ↦ auto
        | some group ↦ mapping_assign proj group s
      ] in
      if is_active_mapper re mapper then by_rule else auto

  -- the group of the project that was found or made
  unfoldable pub project_group : Option (Rules re) → Result Project → FsmState → FsmState × String
  unfolding resolve_group
  project_group mapper (err e) s = (s, "")
  project_group mapper nil_dereference s = (s, "")
  project_group mapper (ok proj) s =
      if str_eq proj.group_id "" then resolve_group mapper proj s else (s, proj.group_id)

  -- the part of Ingest that attributes the run
  unfoldable pub attribute_run : Option (Rules re) → String → FsmState → FsmState × String
  unfolding get_or_create_by_name project_group
  attribute_run mapper repo s =
      let (s', r) = get_or_create_by_name repo s in
      if str_eq repo "" then (s, "") else project_group mapper r s'

  -- Ingest of the row `m`, which holds the fields of the call; `ci_repo` is that of the call
  unfoldable pub ingest : Option (Rules re) → TraceMeta → String → FsmState → FsmState
  unfolding attribute_run upsert_ingest
  ingest mapper m git_remote s =
      let repo = repo_of m git_remote in
      let (s', group_id) = attribute_run mapper repo s in
      let row : TraceMeta = record m {
        group_id = group_id;
        project_name = repo;
        status = bounded m.status;
        failure_reason = "";
        version = bounded m.version;
        ci_provider = bounded m.ci_provider;
        ci_repo = repo;
        updated_at = env.now;
      } in
      if str_eq m.trace_id "" || ltb max_ingest_field_len (text_length m.trace_id)
      then s
      else (record s' { traces = (upsert_ingest env.ingested env.now row s'.traces).0 })
