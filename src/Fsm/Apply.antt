-- ===== src/Fsm/Apply.antt =====
-- The application of a Raft log entry, Apply and applyCommand of fsm.go. `lower` stands for
-- `strings.ToLower` and `codec` for `json.Unmarshal`.
use dagger_kubernetes.Prelude.{◌≡◌, refl, ℕ, Bool, Option, none, some, List, [], ◌∷◌, String}
use dagger_kubernetes.Maps.{Map, put, remove}
use dagger_kubernetes.Domain.{
  TraceMeta, Result, ok, err, nil_dereference, decode_error, unknown_command,
}
use dagger_kubernetes.Session.Store.{SessionStore, apply_session_registered, apply_session_touched}
use dagger_kubernetes.Fsm.State.{FsmState, UserTable, GroupTable, ProjectTable, TokenTable}
use dagger_kubernetes.Fsm.Users.{upsert_user}
use dagger_kubernetes.Fsm.Groups.{upsert_group}
use dagger_kubernetes.Fsm.Projects.{upsert_project, delete_project}
use dagger_kubernetes.Fsm.Tokens.{upsert_token, delete_token, touch_token}
use dagger_kubernetes.Fsm.Traces.{upsert_trace_provision, upsert_trace_ingest, mark_trace_failed}
use dagger_kubernetes.Fsm.Cascade.{delete_user, delete_group, set_members}
use dagger_kubernetes.Fsm.Command.{
  CommandKind, upsert_user_kind, delete_user_kind, upsert_group_kind, delete_group_kind,
  set_members_kind, upsert_project_kind, delete_project_kind, upsert_token_kind, delete_token_kind,
  touch_token_kind, upsert_trace_provision_kind, upsert_trace_ingest_kind, mark_trace_failed_kind,
  set_meta_kind, upsert_manifest_route_kind, delete_manifest_route_kind, upsert_blob_route_kind,
  record_upload_kind, delete_upload_kind, reap_uploads_kind, delete_trace_kind, upsert_session_kind,
  touch_session_kind, touch_manifest_route_kind, kind_of, user_of, token_of, Codec,
}

-- the `interface{}` that Apply returns: nil, or the flag of the disconnect mark
pub data Response : Type 0 where
  nil_response : Response
  transitioned : Bool → Response

abbrev pub Step : Type 0
Step = FsmState × Result Response

-- applyPayload, on what `decode` gave
unfoldable pub apply_payload : {P : Type 0} → Option P → String → (P → Step) → FsmState → Step
apply_payload none label fn s = (s, err (decode_error label))
apply_payload (some p) label fn s = fn p

abbrev pub respond : Result (Unit {0}) → Result Response
respond (ok x) = ok nil_response
respond (err e) = err e
respond nil_dereference = nil_dereference

-- an operation that returns nothing but an error
abbrev pub done : FsmState × Result (Unit {0}) → Step
done r = (r.0, respond r.1)

abbrev pub with_users : FsmState → UserTable × Result (Unit {0}) → Step
with_users s r = (record s { user_table = r.0 }, respond r.1)

abbrev pub with_groups : FsmState → GroupTable × Result (Unit {0}) → Step
with_groups s r = (record s { group_table = r.0 }, respond r.1)

abbrev pub with_projects : FsmState → ProjectTable × Result (Unit {0}) → Step
with_projects s r = (record s { project_table = r.0 }, respond r.1)

abbrev pub with_tokens : FsmState → TokenTable × Result (Unit {0}) → Step
with_tokens s r = (record s { token_table = r.0 }, respond r.1)

abbrev pub with_traces : FsmState → Map TraceMeta → Step
with_traces s traces = (record s { traces = traces }, ok nil_response)

-- the sink is called only where one is wired
abbrev pub with_sink : FsmState → (SessionStore → SessionStore) → Step
with_sink s f = (
  record s { session_sink = elim s.session_sink [ none ↦ none | some sink ↦ some (f sink) ] },
  ok nil_response,
)

-- `if ..., handled := ...; handled { return ... }`, three times, and what is left
unfoldable pub first_handled : Option Step → Option Step → Option Step → Step → Step
first_handled (some step) y z rest = step
first_handled none (some step) z rest = step
first_handled none none (some step) rest = step
first_handled none none none rest = rest

-- What holds of every handler's step, and of the rest, holds of the first that is handled.
abbrev pub OnHandled : (Step → Type 0) → Option Step → Type 0
OnHandled P none = Unit
OnHandled P (some step) = P step

pub first_handled_cases :
    (P : Step → Type 0) (x y z : Option Step) (rest : Step)
    → OnHandled P x
    → OnHandled P y
    → OnHandled P z
    → P rest
    → P (first_handled x y z rest)
unfolding first_handled
first_handled_cases P (some step) y z rest hx hy hz hr = hx
first_handled_cases P none (some step) z rest hx hy hz hr = hy
first_handled_cases P none none (some step) rest hx hy hz hr = hz
first_handled_cases P none none none rest hx hy hz hr = hr

-- What holds of the state as it was, and of each payload's step, holds of `apply_payload`.
pub apply_payload_cases :
    {A : Type 0} (P : Step → Type 0) (s : FsmState) (o : Option A) (label : String) (fn : A → Step)
    → P (s, err (decode_error label))
    → ((a : A) → o ≡ some a → P (fn a))
    → P (apply_payload o label fn s)
unfolding apply_payload
apply_payload_cases P s none label fn refused f = refused
apply_payload_cases P s (some a) label fn refused f = f a refl

module _ (lower : String → String) (codec : Codec) where
  open codec use {Raw}

  -- applyEntityCommand; `none` is "not handled"
  unfoldable pub apply_entity_command : CommandKind → Raw → FsmState → Option Step
  apply_entity_command upsert_user_kind raw s = some (
      apply_payload (codec.user raw) "user"
        (λ p. with_users s (upsert_user lower (user_of p) p.create s.user_table)) s)
  apply_entity_command delete_user_kind raw s =
      some (apply_payload (codec.text raw) "delete user" (λ id. done (delete_user lower id s)) s)
  apply_entity_command upsert_group_kind raw s = some (
      apply_payload (codec.group raw) "group"
        (λ p. with_groups s (upsert_group lower p.group p.create s.group_table)) s)
  apply_entity_command delete_group_kind raw s =
      some (apply_payload (codec.text raw) "delete group" (λ id. done (delete_group lower id s)) s)
  apply_entity_command set_members_kind raw s = some (
      apply_payload (codec.members raw) "set members"
        (λ p. done (set_members p.group_id p.user_ids s)) s)
  apply_entity_command upsert_project_kind raw s = some (
      apply_payload (codec.project raw) "project"
        (λ p. with_projects s (upsert_project lower p.project p.create s.project_table)) s)
  apply_entity_command delete_project_kind raw s = some (
      apply_payload (codec.text raw) "delete project"
        (λ id. with_projects s (delete_project lower id s.project_table)) s)
  apply_entity_command upsert_token_kind raw s = some (
      apply_payload (codec.token raw) "api token"
        (λ p. with_tokens s (upsert_token (token_of p) s.token_table)) s)
  apply_entity_command delete_token_kind raw s = some (
      apply_payload (codec.token_owner raw) "delete token"
        (λ user_id. with_tokens s (delete_token user_id s.token_table, ok tt)) s)
  apply_entity_command touch_token_kind raw s = some (
      apply_payload (codec.touched_token raw) "touch token"
        (λ p. with_tokens s (touch_token p.id p.at s.token_table, ok tt)) s)
  apply_entity_command _ raw s = none

  -- applyTraceCacheCommand; the routing kinds are decode-only no-ops
  unfoldable pub apply_trace_cache_command : CommandKind → Raw → FsmState → Option Step
  apply_trace_cache_command upsert_trace_provision_kind raw s = some (
      apply_payload (codec.provision raw) "trace provision"
        (λ p. with_traces s (upsert_trace_provision p s.traces)) s)
  apply_trace_cache_command upsert_trace_ingest_kind raw s = some (
      apply_payload (codec.trace raw) "trace ingest"
        (λ m. with_traces s (upsert_trace_ingest m s.traces)) s)
  apply_trace_cache_command mark_trace_failed_kind raw s = some (
      apply_payload (codec.failure raw) "mark trace failed"
        (λ p.
          let r = mark_trace_failed p s.traces in
          (record s { traces = r.0 }, ok (transitioned r.1)))
        s)
  apply_trace_cache_command set_meta_kind raw s = some (
      apply_payload (codec.meta raw) "set meta"
        (λ p. (record s { meta = put s.meta p.key p.value }, ok nil_response)) s)
  apply_trace_cache_command upsert_manifest_route_kind raw s = some (s, ok nil_response)
  apply_trace_cache_command delete_manifest_route_kind raw s = some (s, ok nil_response)
  apply_trace_cache_command upsert_blob_route_kind raw s = some (s, ok nil_response)
  apply_trace_cache_command record_upload_kind raw s = some (s, ok nil_response)
  apply_trace_cache_command delete_upload_kind raw s = some (s, ok nil_response)
  apply_trace_cache_command reap_uploads_kind raw s = some (s, ok nil_response)
  apply_trace_cache_command delete_trace_kind raw s = some (
      apply_payload (codec.trace_key raw) "delete trace" (λ id. with_traces s (remove s.traces id))
        s)
  apply_trace_cache_command _ raw s = none

  -- applySessionCommand
  unfoldable pub apply_session_command : CommandKind → Raw → FsmState → Option Step
  apply_session_command upsert_session_kind raw s = some (
      apply_payload (codec.session raw) "session register"
        (λ p.
          let lease = record p.lease { last_activity = p.at } in
          with_sink s (apply_session_registered lease))
        s)
  apply_session_command touch_session_kind raw s = some (
      apply_payload (codec.touched_session raw) "session touch"
        (λ p. with_sink s (apply_session_touched p.cert_fp p.at)) s)
  apply_session_command touch_manifest_route_kind raw s = some (s, ok nil_response)
  apply_session_command _ raw s = none

  -- applyCommand
  unfoldable pub apply_command : ℕ → Raw → FsmState → Step
  unfolding first_handled
  apply_command n raw s =
      first_handled (apply_entity_command (kind_of n) raw s)
        (apply_trace_cache_command (kind_of n) raw s) (apply_session_command (kind_of n) raw s)
        (s, err (unknown_command n))

  -- Apply
  unfoldable pub apply : Raw → FsmState → Step
  apply raw s = elim (codec.command raw) [
    | none ↦ (s, err (decode_error "raft command"))
    | some (n, data_raw) ↦ apply_command n data_raw s
  ]

  -- the committed log, entry by entry
  unfoldable pub apply_log : List Raw → FsmState → FsmState
  apply_log [] s = s
  apply_log (raw ∷ log) s = apply_log log (apply raw s).0
