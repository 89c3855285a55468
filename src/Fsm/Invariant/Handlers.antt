-- ===== src/Fsm/Invariant/Handlers.antt =====
-- The three command handlers and the invariant of the replica.
use dagger_kubernetes.Prelude.{false, ◌≡◌, Option, some, String, str_eq}
use dagger_kubernetes.Fsm.State.{FsmState}
use dagger_kubernetes.Fsm.Users.Index.{upsert_user-IsUserTable}
use dagger_kubernetes.Fsm.Groups.Index.{upsert_group-IsGroupTable}
use dagger_kubernetes.Fsm.Projects.Index.{upsert_project-IsProjectTable}
use dagger_kubernetes.Fsm.Tokens.Index.{
  IsFreshToken, upsert_token-IsTokenTable, delete_token-IsTokenTable, touch_token-IsTokenTable,
}
use dagger_kubernetes.Fsm.Command.{
  CommandKind, upsert_user_kind, delete_user_kind, upsert_group_kind, delete_group_kind,
  set_members_kind, upsert_project_kind, delete_project_kind, upsert_token_kind, delete_token_kind,
  touch_token_kind, upsert_trace_provision_kind, upsert_trace_ingest_kind, mark_trace_failed_kind,
  set_meta_kind, delete_trace_kind, upsert_manifest_route_kind, delete_manifest_route_kind,
  upsert_blob_route_kind, record_upload_kind, delete_upload_kind, reap_uploads_kind,
  touch_manifest_route_kind, upsert_session_kind, touch_session_kind, CmdUser, CmdToken, user_of,
  token_of, Codec,
}
use dagger_kubernetes.Fsm.Apply.{
  Step, OnHandled, apply_payload_cases, apply_payload, apply_entity_command,
  apply_trace_cache_command, apply_session_command,
}
use dagger_kubernetes.Fsm.Invariant.{WellFormed}
use dagger_kubernetes.Fsm.Invariant.Rows.{
  has-upsert_user, has-upsert_group, delete_project-IsProjectTable,
}
use dagger_kubernetes.Fsm.Invariant.Cascades.{
  delete_user-WellFormed, delete_group-WellFormed, set_members-WellFormed,
}
use dagger_kubernetes.Fsm.Invariant.Traces.{
  remove-IsKeyed, provision-IsKeyed, ingest-IsKeyed, mark-IsKeyed,
}
use dagger_kubernetes.Fsm.Invariant.Tables.{
  with_traces-WellFormed, with_tokens-WellFormed, with_projects-WellFormed, with_users-WellFormed,
  with_groups-WellFormed, with_rest-WellFormed,
}

module _ (lower : String → String) (codec : Codec) where
  open codec use {Raw}

  -- What the services see to before they propose a command: a user has a name, and the id of a
  -- new token is not the id of another user's token.
  abbrev pub IsAdmissible : CommandKind → Raw → FsmState → Type 0
  IsAdmissible upsert_user_kind raw s =
      (p : CmdUser) → codec.user raw ≡ some p → str_eq p.username "" ≡ false
  IsAdmissible upsert_token_kind raw s =
      (p : CmdToken) → codec.token raw ≡ some p → IsFreshToken (token_of p) s.token_table
  IsAdmissible _ raw s = Unit

  abbrev pub Keeps : Option Step → Type 0
  Keeps = OnHandled (λ step. WellFormed lower step.0)

  module _ (s : FsmState) (w : WellFormed lower s) where
    payload-WellFormed :
        {P : Type 0} (o : Option P) (label : String) (fn : P → Step)
        → ((p : P) → o ≡ some p → WellFormed lower (fn p).0)
        → WellFormed lower (apply_payload o label fn s).0
    payload-WellFormed o label fn =
        apply_payload_cases (λ step. WellFormed lower step.0) s o label fn w

    pub entity-Keeps :
        (k : CommandKind) (raw : Raw)
        → IsAdmissible k raw s
        → Keeps (apply_entity_command lower codec k raw s)
    unfolding apply_entity_command
    entity-Keeps upsert_user_kind raw a = payload-WellFormed (codec.user raw) "user" _ (λ p e.
        with_users-WellFormed lower s w _
          (upsert_user-IsUserTable lower (user_of p) p.create s.user_table (named p e) w.users_ok)
          (has-upsert_user lower (user_of p) p.create s.user_table))
      where
        named : (p : CmdUser) → codec.user raw ≡ some p → str_eq (user_of p).username "" ≡ false
        named p e = unfold user_of in a p e
    entity-Keeps delete_user_kind raw a =
        payload-WellFormed (codec.text raw) "delete user" _
          (λ id e. delete_user-WellFormed lower s w id)
    entity-Keeps upsert_group_kind raw a = payload-WellFormed (codec.group raw) "group" _ (λ p e.
        with_groups-WellFormed lower s w _
          (upsert_group-IsGroupTable lower p.group p.create s.group_table w.groups_ok)
          (has-upsert_group lower p.group p.create s.group_table))
    entity-Keeps delete_group_kind raw a =
        payload-WellFormed (codec.text raw) "delete group" _
          (λ id e. delete_group-WellFormed lower s w id)
    entity-Keeps set_members_kind raw a =
        payload-WellFormed (codec.members raw) "set members" _
          (λ p e. set_members-WellFormed lower s w p.group_id p.user_ids)
    entity-Keeps upsert_project_kind raw a =
        payload-WellFormed (codec.project raw) "project" _ (λ p e.
          with_projects-WellFormed lower s w _
            (upsert_project-IsProjectTable lower p.project p.create s.project_table w.projects_ok))
    entity-Keeps delete_project_kind raw a =
        payload-WellFormed (codec.text raw) "delete project" _ (λ id e.
          with_projects-WellFormed lower s w _
            (delete_project-IsProjectTable lower id s.project_table w.projects_ok))
    entity-Keeps upsert_token_kind raw a =
        payload-WellFormed (codec.token raw) "api token" _ (λ p e.
          with_tokens-WellFormed lower s w _
            (upsert_token-IsTokenTable s.token_table w.tokens_ok (token_of p) (a p e)))
    entity-Keeps delete_token_kind raw a =
        payload-WellFormed (codec.token_owner raw) "delete token" _ (λ id e.
          with_tokens-WellFormed lower s w _
            (delete_token-IsTokenTable s.token_table w.tokens_ok id))
    entity-Keeps touch_token_kind raw a =
        payload-WellFormed (codec.touched_token raw) "touch token" _ (λ p e.
          with_tokens-WellFormed lower s w _
            (touch_token-IsTokenTable s.token_table w.tokens_ok p.id p.at))
    entity-Keeps _ raw a = tt

    pub trace-Keeps :
        (k : CommandKind) (raw : Raw) → Keeps (apply_trace_cache_command lower codec k raw s)
    unfolding apply_trace_cache_command
    trace-Keeps upsert_trace_provision_kind raw =
        payload-WellFormed (codec.provision raw) "trace provision" _
          (λ p e. with_traces-WellFormed lower s w _ (provision-IsKeyed s.traces w.traces_keyed p))
    trace-Keeps upsert_trace_ingest_kind raw =
        payload-WellFormed (codec.trace raw) "trace ingest" _
          (λ m e. with_traces-WellFormed lower s w _ (ingest-IsKeyed s.traces w.traces_keyed m))
    trace-Keeps mark_trace_failed_kind raw =
        payload-WellFormed (codec.failure raw) "mark trace failed" _
          (λ p e. with_traces-WellFormed lower s w _ (mark-IsKeyed s.traces w.traces_keyed p))
    trace-Keeps set_meta_kind raw =
        payload-WellFormed (codec.meta raw) "set meta" _
          (λ p e. with_rest-WellFormed lower s w _ s.session_sink)
    trace-Keeps delete_trace_kind raw =
        payload-WellFormed (codec.trace_key raw) "delete trace" _
          (λ id e. with_traces-WellFormed lower s w _ (remove-IsKeyed s.traces id w.traces_keyed))
    trace-Keeps upsert_manifest_route_kind raw = w
    trace-Keeps delete_manifest_route_kind raw = w
    trace-Keeps upsert_blob_route_kind raw = w
    trace-Keeps record_upload_kind raw = w
    trace-Keeps delete_upload_kind raw = w
    trace-Keeps reap_uploads_kind raw = w
    trace-Keeps _ raw = tt

    pub session-Keeps :
        (k : CommandKind) (raw : Raw) → Keeps (apply_session_command lower codec k raw s)
    unfolding apply_session_command
    session-Keeps upsert_session_kind raw =
        payload-WellFormed (codec.session raw) "session register" _
          (λ p e. with_rest-WellFormed lower s w s.meta _)
    session-Keeps touch_session_kind raw =
        payload-WellFormed (codec.touched_session raw) "session touch" _
          (λ p e. with_rest-WellFormed lower s w s.meta _)
    session-Keeps touch_manifest_route_kind raw = w
    session-Keeps _ raw = tt
