-- ===== src/Fsm/Behaviour/Atomic.antt =====
-- applyCommand where it returns an error.
use dagger_kubernetes.Prelude.{ℕ, Bool, ◌≡◌, refl, Option, List, String, arith}
use dagger_kubernetes.Domain.{
  User, Group, Project, ApiToken, Error, Result, ok, err, nil_dereference,
}
use dagger_kubernetes.Fsm.State.{FsmState, UserTable, GroupTable, ProjectTable, TokenTable}
use dagger_kubernetes.Fsm.Users.{upsert_user, update_user, create_user}
use dagger_kubernetes.Fsm.Groups.{upsert_group, update_group, create_group}
use dagger_kubernetes.Fsm.Projects.{upsert_project, update_project, create_project, delete_project}
use dagger_kubernetes.Fsm.Tokens.{upsert_token, replace_token}
use dagger_kubernetes.Fsm.Cascade.{delete_user, delete_group, set_members}
use dagger_kubernetes.Fsm.Command.{
  CommandKind, upsert_user_kind, delete_user_kind, upsert_group_kind, delete_group_kind,
  set_members_kind, upsert_project_kind, delete_project_kind, upsert_token_kind, delete_token_kind,
  touch_token_kind, upsert_trace_provision_kind, upsert_trace_ingest_kind, mark_trace_failed_kind,
  set_meta_kind, delete_trace_kind, upsert_session_kind, touch_session_kind, kind_of, Codec,
  user_of, token_of,
}
use dagger_kubernetes.Fsm.Apply.{
  Step, OnHandled, first_handled_cases, apply_payload_cases, with_users, with_groups, with_projects,
  with_tokens, done, apply_payload, apply_entity_command, apply_trace_cache_command,
  apply_session_command, apply_command,
}

-- An operation that reports an error, or panics, has left its table alone.
abbrev IsAtomic : {T R : Type 0} → T → T × Result R → Type 0
IsAtomic {T} t (t', ok x) = Unit
IsAtomic {T} t (t', err e) = t' ≡ t
IsAtomic {T} t (t', nil_dereference) = t' ≡ t

module _ (lower : String → String) where
  upsert_user-IsAtomic :
      (u : User) (create : Bool) (t : UserTable) → IsAtomic t (upsert_user lower u create t)
  unfolding upsert_user update_user create_user
  upsert_user-IsAtomic u create t = ground arith

  upsert_group-IsAtomic :
      (g : Group) (create : Bool) (t : GroupTable) → IsAtomic t (upsert_group lower g create t)
  unfolding upsert_group update_group create_group
  upsert_group-IsAtomic g create t = ground arith

  upsert_project-IsAtomic :
      (p : Project) (create : Bool) (t : ProjectTable)
      → IsAtomic t (upsert_project lower p create t)
  unfolding upsert_project update_project create_project
  upsert_project-IsAtomic p create t = ground arith

  delete_project-IsAtomic :
      (id : String) (t : ProjectTable) → IsAtomic t (delete_project lower id t)
  unfolding delete_project
  delete_project-IsAtomic id t = ground arith

  delete_user-IsAtomic : (id : String) (s : FsmState) → IsAtomic s (delete_user lower id s)
  unfolding delete_user
  delete_user-IsAtomic id s = ground arith

  delete_group-IsAtomic : (id : String) (s : FsmState) → IsAtomic s (delete_group lower id s)
  unfolding delete_group
  delete_group-IsAtomic id s = ground arith

upsert_token-IsAtomic : (k : ApiToken) (t : TokenTable) → IsAtomic t (upsert_token k t)
unfolding upsert_token replace_token
upsert_token-IsAtomic k t = ground arith

set_members-IsAtomic :
    (id : String) (ids : List String) (s : FsmState) → IsAtomic s (set_members id ids s)
unfolding set_members
set_members-IsAtomic id ids s = ground arith

-- lifting a table's operation to the replica
abbrev IsAtomicStep : FsmState → Step → Type 0
IsAtomicStep s step = IsAtomic s step

users-IsAtomicStep :
    (s : FsmState) (r : UserTable × Result (Unit {0}))
    → IsAtomic s.user_table r
    → IsAtomicStep s (with_users s r)
users-IsAtomicStep s (t, ok x) a = tt
users-IsAtomicStep s (t, err e) a = λ i. record s { user_table = a i }
users-IsAtomicStep s (t, nil_dereference) a = λ i. record s { user_table = a i }

groups-IsAtomicStep :
    (s : FsmState) (r : GroupTable × Result (Unit {0}))
    → IsAtomic s.group_table r
    → IsAtomicStep s (with_groups s r)
groups-IsAtomicStep s (t, ok x) a = tt
groups-IsAtomicStep s (t, err e) a = λ i. record s { group_table = a i }
groups-IsAtomicStep s (t, nil_dereference) a = λ i. record s { group_table = a i }

projects-IsAtomicStep :
    (s : FsmState) (r : ProjectTable × Result (Unit {0}))
    → IsAtomic s.project_table r
    → IsAtomicStep s (with_projects s r)
projects-IsAtomicStep s (t, ok x) a = tt
projects-IsAtomicStep s (t, err e) a = λ i. record s { project_table = a i }
projects-IsAtomicStep s (t, nil_dereference) a = λ i. record s { project_table = a i }

tokens-IsAtomicStep :
    (s : FsmState) (r : TokenTable × Result (Unit {0}))
    → IsAtomic s.token_table r
    → IsAtomicStep s (with_tokens s r)
tokens-IsAtomicStep s (t, ok x) a = tt
tokens-IsAtomicStep s (t, err e) a = λ i. record s { token_table = a i }
tokens-IsAtomicStep s (t, nil_dereference) a = λ i. record s { token_table = a i }

done-IsAtomicStep :
    (s : FsmState) (r : FsmState × Result (Unit {0})) → IsAtomic s r → IsAtomicStep s (done r)
done-IsAtomicStep s (t, ok x) a = tt
done-IsAtomicStep s (t, err e) a = a
done-IsAtomicStep s (t, nil_dereference) a = a

payload-IsAtomicStep :
    {P : Type 0} (s : FsmState) (o : Option P) (label : String) (fn : P → Step)
    → ((p : P) → IsAtomicStep s (fn p))
    → IsAtomicStep s (apply_payload o label fn s)
payload-IsAtomicStep s o label fn f =
    apply_payload_cases (IsAtomicStep s) s o label fn refl (λ p e. f p)

abbrev AllAtomic : FsmState → Option Step → Type 0
AllAtomic s = OnHandled (IsAtomicStep s)

module _ (lower : String → String) (codec : Codec) (s : FsmState) where
  open codec use {Raw}

  entity-AllAtomic :
      (k : CommandKind) (raw : Raw) → AllAtomic s (apply_entity_command lower codec k raw s)
  unfolding apply_entity_command
  entity-AllAtomic upsert_user_kind raw =
      payload-IsAtomicStep s (codec.user raw) "user" _
        (λ p. users-IsAtomicStep s _ (upsert_user-IsAtomic lower (user_of p) p.create s.user_table))
  entity-AllAtomic delete_user_kind raw =
      payload-IsAtomicStep s (codec.text raw) "delete user" _
        (λ id. done-IsAtomicStep s _ (delete_user-IsAtomic lower id s))
  entity-AllAtomic upsert_group_kind raw =
      payload-IsAtomicStep s (codec.group raw) "group" _
        (λ p. groups-IsAtomicStep s _ (upsert_group-IsAtomic lower p.group p.create s.group_table))
  entity-AllAtomic delete_group_kind raw =
      payload-IsAtomicStep s (codec.text raw) "delete group" _
        (λ id. done-IsAtomicStep s _ (delete_group-IsAtomic lower id s))
  entity-AllAtomic set_members_kind raw =
      payload-IsAtomicStep s (codec.members raw) "set members" _
        (λ p. done-IsAtomicStep s _ (set_members-IsAtomic p.group_id p.user_ids s))
  entity-AllAtomic upsert_project_kind raw =
      payload-IsAtomicStep s (codec.project raw) "project" _ (λ p.
        projects-IsAtomicStep s _
          (upsert_project-IsAtomic lower p.project p.create s.project_table))
  entity-AllAtomic delete_project_kind raw =
      payload-IsAtomicStep s (codec.text raw) "delete project" _
        (λ id. projects-IsAtomicStep s _ (delete_project-IsAtomic lower id s.project_table))
  entity-AllAtomic upsert_token_kind raw =
      payload-IsAtomicStep s (codec.token raw) "api token" _
        (λ p. tokens-IsAtomicStep s _ (upsert_token-IsAtomic (token_of p) s.token_table))
  entity-AllAtomic delete_token_kind raw =
      payload-IsAtomicStep s (codec.token_owner raw) "delete token" _ (λ id. tt)
  entity-AllAtomic touch_token_kind raw =
      payload-IsAtomicStep s (codec.touched_token raw) "touch token" _ (λ p. tt)
  entity-AllAtomic _ raw = tt

  trace-AllAtomic :
      (k : CommandKind) (raw : Raw) → AllAtomic s (apply_trace_cache_command lower codec k raw s)
  unfolding apply_trace_cache_command
  trace-AllAtomic upsert_trace_provision_kind raw =
      payload-IsAtomicStep s (codec.provision raw) "trace provision" _ (λ p. tt)
  trace-AllAtomic upsert_trace_ingest_kind raw =
      payload-IsAtomicStep s (codec.trace raw) "trace ingest" _ (λ p. tt)
  trace-AllAtomic mark_trace_failed_kind raw =
      payload-IsAtomicStep s (codec.failure raw) "mark trace failed" _ (λ p. tt)
  trace-AllAtomic set_meta_kind raw = payload-IsAtomicStep s (codec.meta raw) "set meta" _ (λ p. tt)
  trace-AllAtomic delete_trace_kind raw =
      payload-IsAtomicStep s (codec.trace_key raw) "delete trace" _ (λ id. tt)
  trace-AllAtomic upsert_user_kind raw = tt
  trace-AllAtomic _ raw = tt

  session-AllAtomic :
      (k : CommandKind) (raw : Raw) → AllAtomic s (apply_session_command lower codec k raw s)
  unfolding apply_session_command
  session-AllAtomic upsert_session_kind raw =
      payload-IsAtomicStep s (codec.session raw) "session register" _ (λ p. tt)
  session-AllAtomic touch_session_kind raw =
      payload-IsAtomicStep s (codec.touched_session raw) "session touch" _ (λ p. tt)
  session-AllAtomic _ raw = tt

  command-IsAtomicStep : (n : ℕ) (raw : Raw) → IsAtomicStep s (apply_command lower codec n raw s)
  unfolding apply_command
  command-IsAtomicStep n raw =
      first_handled_cases (IsAtomicStep s) _ _ _ _ (entity-AllAtomic (kind_of n) raw)
        (trace-AllAtomic (kind_of n) raw) (session-AllAtomic (kind_of n) raw) refl

  unchanged : (step : Step) → IsAtomicStep s step → (e : Error) → step.1 ≡ err e → step.0 ≡ s
  unchanged (t, ok x) a e h = cc
  unchanged (t, err d) a e h = a
  unchanged (t, nil_dereference) a e h = a

  -- A command that returns an error has changed nothing in the replica.
  pub apply_command_atomic :
      (n : ℕ) (raw : Raw) (e : Error)
      → (apply_command lower codec n raw s).1 ≡ err e
      → (apply_command lower codec n raw s).0 ≡ s
  apply_command_atomic n raw = unchanged _ (command-IsAtomicStep n raw)
