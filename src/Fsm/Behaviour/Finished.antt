-- ===== src/Fsm/Behaviour/Finished.antt =====
-- The status of a finished trace under applyCommand.
use dagger_kubernetes.Prelude.{
  ℕ, true, ◌≡◌, inl, inr, Option, some, List, String, arith, Option-cases,
}
use dagger_kubernetes.Maps.{get, get-remove}
use dagger_kubernetes.Domain.{TraceMeta}
use dagger_kubernetes.Fsm.State.{FsmState}
use dagger_kubernetes.Fsm.Traces.{is_terminal}
use dagger_kubernetes.Fsm.Cascade.{
  clear_trace_user, clear_trace_group, delete_user, delete_group, set_members,
}
use dagger_kubernetes.Fsm.Command.{
  CommandKind, upsert_user_kind, delete_user_kind, upsert_group_kind, delete_group_kind,
  set_members_kind, upsert_project_kind, delete_project_kind, upsert_token_kind, delete_token_kind,
  touch_token_kind, upsert_trace_provision_kind, upsert_trace_ingest_kind, mark_trace_failed_kind,
  set_meta_kind, delete_trace_kind, upsert_session_kind, touch_session_kind,
  upsert_manifest_route_kind, delete_manifest_route_kind, upsert_blob_route_kind,
  record_upload_kind, delete_upload_kind, reap_uploads_kind, touch_manifest_route_kind, kind_of,
  Codec,
}
use dagger_kubernetes.Fsm.Apply.{
  Step, OnHandled, first_handled_cases, apply_payload_cases, apply_payload, apply_entity_command,
  apply_trace_cache_command, apply_session_command, apply_command,
}
use dagger_kubernetes.Fsm.Behaviour.Status.{
  IsFinal, map_values-IsFinal, provision-IsFinal, ingest-IsFinal, mark-IsFinal,
}

clear_trace_user-status : (id : String) (m : TraceMeta) → (clear_trace_user id m).status ≡ m.status
unfolding clear_trace_user
clear_trace_user-status id m = ground arith

clear_trace_group-status :
    (id : String) (m : TraceMeta) → (clear_trace_group id m).status ≡ m.status
unfolding clear_trace_group
clear_trace_group-status id m = ground arith

module _ (lower : String → String) (s : FsmState) (id : String) (h : IsFinal id s.traces) where
  delete_user-IsFinal : (user_id : String) → IsFinal id (delete_user lower user_id s).0.traces
  unfolding delete_user
  delete_user-IsFinal user_id = elim (Option-cases (get s.users user_id)) [
    | inl missing ↦ rw (missing, delete_user) h
    | inr (u, at) ↦
        rw (at, delete_user)
          (map_values-IsFinal id s.traces h (clear_trace_user user_id)
            (clear_trace_user-status user_id))
  ]

  delete_group-IsFinal : (group_id : String) → IsFinal id (delete_group lower group_id s).0.traces
  unfolding delete_group
  delete_group-IsFinal group_id = elim (Option-cases (get s.groups group_id)) [
    | inl missing ↦ rw (missing, delete_group) h
    | inr (g, at) ↦
        rw (at, delete_group)
          (map_values-IsFinal id s.traces h (clear_trace_group group_id)
            (clear_trace_group-status group_id))
  ]

traces-set_members :
    (id : String) (ids : List String) (s : FsmState) → (set_members id ids s).0.traces ≡ s.traces
unfolding set_members
traces-set_members id ids s = ground arith

module _ (lower : String → String) (codec : Codec) (s : FsmState) (id : String) (m : TraceMeta)
    (here : get s.traces id ≡ some m) (final : is_terminal m.status ≡ true) where
  open codec use {Raw}

  abbrev Keeps : Step → Type 0
  Keeps step = IsFinal id step.0.traces

  now : IsFinal id s.traces
  now x e = ground arith

  payload-Keeps :
      {P : Type 0} (o : Option P) (label : String) (fn : P → Step)
      → ((p : P) → o ≡ some p → Keeps (fn p))
      → Keeps (apply_payload o label fn s)
  payload-Keeps o label fn = apply_payload_cases Keeps s o label fn now

  entity-Keeps :
      (k : CommandKind) (raw : Raw) → OnHandled Keeps (apply_entity_command lower codec k raw s)
  unfolding apply_entity_command
  entity-Keeps upsert_user_kind raw = payload-Keeps (codec.user raw) "user" _ (λ p e. now)
  entity-Keeps delete_user_kind raw =
      payload-Keeps (codec.text raw) "delete user" _ (λ u e. delete_user-IsFinal lower s id now u)
  entity-Keeps upsert_group_kind raw = payload-Keeps (codec.group raw) "group" _ (λ p e. now)
  entity-Keeps delete_group_kind raw =
      payload-Keeps (codec.text raw) "delete group" _ (λ g e. delete_group-IsFinal lower s id now g)
  entity-Keeps set_members_kind raw =
      payload-Keeps (codec.members raw) "set members" _
        (λ p e. rw (traces-set_members p.group_id p.user_ids s) now)
  entity-Keeps upsert_project_kind raw = payload-Keeps (codec.project raw) "project" _ (λ p e. now)
  entity-Keeps delete_project_kind raw =
      payload-Keeps (codec.text raw) "delete project" _ (λ p e. now)
  entity-Keeps upsert_token_kind raw = payload-Keeps (codec.token raw) "api token" _ (λ p e. now)
  entity-Keeps delete_token_kind raw =
      payload-Keeps (codec.token_owner raw) "delete token" _ (λ p e. now)
  entity-Keeps touch_token_kind raw =
      payload-Keeps (codec.touched_token raw) "touch token" _ (λ p e. now)
  entity-Keeps _ raw = tt

  trace-Keeps :
      (k : CommandKind) (raw : Raw)
      → OnHandled Keeps (apply_trace_cache_command lower codec k raw s)
  unfolding apply_trace_cache_command
  trace-Keeps upsert_trace_provision_kind raw =
      payload-Keeps (codec.provision raw) "trace provision" _
        (λ p e. provision-IsFinal id s.traces now p m here)
  trace-Keeps upsert_trace_ingest_kind raw =
      payload-Keeps (codec.trace raw) "trace ingest" _
        (λ x e. ingest-IsFinal id s.traces now x m here)
  trace-Keeps mark_trace_failed_kind raw =
      payload-Keeps (codec.failure raw) "mark trace failed" _
        (λ p e. mark-IsFinal id s.traces now p)
  trace-Keeps set_meta_kind raw = payload-Keeps (codec.meta raw) "set meta" _ (λ p e. now)
  trace-Keeps delete_trace_kind raw =
      payload-Keeps (codec.trace_key raw) "delete trace" _
        (λ k e x at. now x (ground (arith, get-remove s.traces k id)))
  trace-Keeps upsert_manifest_route_kind raw = now
  trace-Keeps delete_manifest_route_kind raw = now
  trace-Keeps upsert_blob_route_kind raw = now
  trace-Keeps record_upload_kind raw = now
  trace-Keeps delete_upload_kind raw = now
  trace-Keeps reap_uploads_kind raw = now
  trace-Keeps _ raw = tt

  session-Keeps :
      (k : CommandKind) (raw : Raw) → OnHandled Keeps (apply_session_command lower codec k raw s)
  unfolding apply_session_command
  session-Keeps upsert_session_kind raw =
      payload-Keeps (codec.session raw) "session register" _ (λ p e. now)
  session-Keeps touch_session_kind raw =
      payload-Keeps (codec.touched_session raw) "session touch" _ (λ p e. now)
  session-Keeps touch_manifest_route_kind raw = now
  session-Keeps _ raw = tt

  -- After any command, a trace whose status was "success" or "failed" still has one of these, or
  -- is gone.
  pub finished_stays_finished :
      (n : ℕ) (raw : Raw) (m' : TraceMeta)
      → get (apply_command lower codec n raw s).0.traces id ≡ some m'
      → is_terminal m'.status ≡ true
  unfolding apply_command
  finished_stays_finished n raw =
      first_handled_cases Keeps _ _ _ _ (entity-Keeps (kind_of n) raw) (trace-Keeps (kind_of n) raw)
        (session-Keeps (kind_of n) raw) now
