-- ===== src/Fsm/Behaviour/Panics.antt =====
-- applyCommand and the rows that it dereferences.
use dagger_kubernetes.Prelude.{ℕ, Bool, ◌≡◌, ◌≢◌, inl, inr, Option, some, String, List, arith}
use dagger_kubernetes.Domain.{User, Group, Project, ApiToken, Result, ok, err, nil_dereference}
use dagger_kubernetes.Fsm.State.{FsmState, UserTable, GroupTable, ProjectTable}
use dagger_kubernetes.Fsm.Users.{upsert_user, update_user, create_user}
use dagger_kubernetes.Fsm.Groups.{upsert_group, update_group, create_group}
use dagger_kubernetes.Fsm.Projects.{upsert_project, update_project, create_project, delete_project}
use dagger_kubernetes.Fsm.Tokens.{upsert_token}
use dagger_kubernetes.Fsm.Tokens.Index.{upsert_token_cases}
use dagger_kubernetes.Fsm.Cascade.{delete_user, delete_group, set_members}
use dagger_kubernetes.Fsm.Command.{
  CommandKind, upsert_user_kind, delete_user_kind, upsert_group_kind, delete_group_kind,
  set_members_kind, upsert_project_kind, delete_project_kind, upsert_token_kind, delete_token_kind,
  touch_token_kind, upsert_trace_provision_kind, upsert_trace_ingest_kind, mark_trace_failed_kind,
  set_meta_kind, delete_trace_kind, upsert_session_kind, touch_session_kind, kind_of, user_of,
  token_of, Codec,
}
use dagger_kubernetes.Fsm.Apply.{
  Step, respond, OnHandled, first_handled_cases, apply_payload_cases, apply_payload,
  apply_entity_command, apply_trace_cache_command, apply_session_command, apply_command,
}
use dagger_kubernetes.Fsm.Invariant.{WellFormed}

abbrev Runs {ℓ} : {A : Type ℓ} → Result A → Type 0
Runs (ok a) = Unit
Runs (err e) = Unit
Runs nil_dereference = ⊥

Runs-respond : (r : Result (Unit {0})) → Runs r → Runs (respond r)
Runs-respond (ok x) h = tt
Runs-respond (err e) h = tt
Runs-respond nil_dereference h = h

module _ (lower : String → String) where
  upsert_user-Runs :
      (u : User) (create : Bool) (t : UserTable) → Runs (upsert_user lower u create t).1
  unfolding upsert_user update_user create_user
  upsert_user-Runs u create t = ground arith

  upsert_group-Runs :
      (g : Group) (create : Bool) (t : GroupTable) → Runs (upsert_group lower g create t).1
  unfolding upsert_group update_group create_group
  upsert_group-Runs g create t = ground arith

  upsert_project-Runs :
      (p : Project) (create : Bool) (t : ProjectTable) → Runs (upsert_project lower p create t).1
  unfolding upsert_project update_project create_project
  upsert_project-Runs p create t = ground arith

  delete_project-Runs : (id : String) (t : ProjectTable) → Runs (delete_project lower id t).1
  unfolding delete_project
  delete_project-Runs id t = ground arith

  delete_user-Runs : (id : String) (s : FsmState) → Runs (delete_user lower id s).1
  unfolding delete_user
  delete_user-Runs id s = ground arith

  delete_group-Runs : (id : String) (s : FsmState) → Runs (delete_group lower id s).1
  unfolding delete_group
  delete_group-Runs id s = ground arith

set_members-Runs : (id : String) (ids : List String) (s : FsmState) → Runs (set_members id ids s).1
unfolding set_members
set_members-Runs id ids s = ground arith

module _ (lower : String → String) (codec : Codec) (s : FsmState) (w : WellFormed lower s) where
  open codec use {Raw}

  abbrev StepRuns : Step → Type 0
  StepRuns step = Runs step.1

  upsert_token-Runs : (k : ApiToken) → Runs (upsert_token k s.token_table).1
  upsert_token-Runs k = elim (upsert_token_cases s.token_table w.tokens_ok k) [
    | inl refused ↦ rw refused tt
    | inr stored ↦ rw stored tt
  ]

  payload_runs :
      {P : Type 0} (o : Option P) (label : String) (fn : P → Step)
      → ((p : P) → o ≡ some p → StepRuns (fn p))
      → StepRuns (apply_payload o label fn s)
  payload_runs o label fn = apply_payload_cases StepRuns s o label fn tt

  entity_runs :
      (k : CommandKind) (raw : Raw) → OnHandled StepRuns (apply_entity_command lower codec k raw s)
  unfolding apply_entity_command
  entity_runs upsert_user_kind raw =
      payload_runs (codec.user raw) "user" _
        (λ p e. Runs-respond _ (upsert_user-Runs lower (user_of p) p.create s.user_table))
  entity_runs delete_user_kind raw =
      payload_runs (codec.text raw) "delete user" _
        (λ id e. Runs-respond _ (delete_user-Runs lower id s))
  entity_runs upsert_group_kind raw =
      payload_runs (codec.group raw) "group" _
        (λ p e. Runs-respond _ (upsert_group-Runs lower p.group p.create s.group_table))
  entity_runs delete_group_kind raw =
      payload_runs (codec.text raw) "delete group" _
        (λ id e. Runs-respond _ (delete_group-Runs lower id s))
  entity_runs set_members_kind raw =
      payload_runs (codec.members raw) "set members" _
        (λ p e. Runs-respond _ (set_members-Runs p.group_id p.user_ids s))
  entity_runs upsert_project_kind raw =
      payload_runs (codec.project raw) "project" _
        (λ p e. Runs-respond _ (upsert_project-Runs lower p.project p.create s.project_table))
  entity_runs delete_project_kind raw =
      payload_runs (codec.text raw) "delete project" _
        (λ id e. Runs-respond _ (delete_project-Runs lower id s.project_table))
  entity_runs upsert_token_kind raw =
      payload_runs (codec.token raw) "api token" _
        (λ p e. Runs-respond _ (upsert_token-Runs (token_of p)))
  entity_runs delete_token_kind raw =
      payload_runs (codec.token_owner raw) "delete token" _ (λ id e. tt)
  entity_runs touch_token_kind raw =
      payload_runs (codec.touched_token raw) "touch token" _ (λ p e. tt)
  entity_runs _ raw = tt

  trace_runs :
      (k : CommandKind) (raw : Raw)
      → OnHandled StepRuns (apply_trace_cache_command lower codec k raw s)
  unfolding apply_trace_cache_command
  trace_runs upsert_trace_provision_kind raw =
      payload_runs (codec.provision raw) "trace provision" _ (λ p e. tt)
  trace_runs upsert_trace_ingest_kind raw =
      payload_runs (codec.trace raw) "trace ingest" _ (λ p e. tt)
  trace_runs mark_trace_failed_kind raw =
      payload_runs (codec.failure raw) "mark trace failed" _ (λ p e. tt)
  trace_runs set_meta_kind raw = payload_runs (codec.meta raw) "set meta" _ (λ p e. tt)
  trace_runs delete_trace_kind raw =
      payload_runs (codec.trace_key raw) "delete trace" _ (λ id e. tt)
  trace_runs upsert_user_kind raw = tt
  trace_runs _ raw = tt

  session_runs :
      (k : CommandKind) (raw : Raw) → OnHandled StepRuns (apply_session_command lower codec k raw s)
  unfolding apply_session_command
  session_runs upsert_session_kind raw =
      payload_runs (codec.session raw) "session register" _ (λ p e. tt)
  session_runs touch_session_kind raw =
      payload_runs (codec.touched_session raw) "session touch" _ (λ p e. tt)
  session_runs _ raw = tt

  Runs-no_panic : {A : Type 0} (r : Result A) → Runs r → r ≢ nil_dereference
  Runs-no_panic (ok a) h e = cc
  Runs-no_panic (err d) h e = cc
  Runs-no_panic nil_dereference h e = h

  -- In a well-formed replica no command panics.
  pub apply_command_no_panic :
      (n : ℕ) (raw : Raw) → (apply_command lower codec n raw s).1 ≢ nil_dereference
  unfolding apply_command
  apply_command_no_panic n raw = Runs-no_panic _ (
      first_handled_cases StepRuns _ _ _ _ (entity_runs (kind_of n) raw)
        (trace_runs (kind_of n) raw) (session_runs (kind_of n) raw) tt)
