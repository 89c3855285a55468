-- ===== src/Examples.antt =====
-- Concrete inputs of the replica's theorems: a codec over decoded payloads, a log and its replica.
mod Local
mod Replica
mod Reading
mod Runs
mod Stream
use mathlib.Core.Option.{some_inj}
use dagger_kubernetes.Fsm.Tokens.Index.{IsFreshToken}
use dagger_kubernetes.Prelude.{
  subst, ℕ, true, false, if◌then◌else◌, ◌≡◌, refl, Option, none, some, List, [], ◌∷◌, String,
  str_eq,
}
use dagger_kubernetes.Maps.{get, put, remove, keys, empty}
use dagger_kubernetes.Domain.{User, Group, Project, ApiToken, TraceMeta, ok, err, conflict}
use dagger_kubernetes.Fsm.State.{FsmState, new_state, oauth_key}
use dagger_kubernetes.Fsm.Traces.{TraceProvision, TraceFailure, ingested, upsert_trace_ingest}
use dagger_kubernetes.Fsm.Tokens.{upsert_token, replace_token, remove_token, store_token}
use dagger_kubernetes.Fsm.Command.{
  CmdUser, CmdToken, CmdGroup, CmdProject, CmdSetMembers, CmdTouchToken, CmdSetMeta,
  CmdUpsertSession, CmdTouchSession, Codec, kind_of, token_of, user_of, cmd_user_from,
  cmd_token_from,
}
use dagger_kubernetes.Fsm.Users.{
  upsert_user, create_user, created_user, store_user, update_user, drop_user_keys,
}
use dagger_kubernetes.Fsm.Groups.{upsert_group, create_group, created_group, store_group}
use dagger_kubernetes.Fsm.Projects.{upsert_project, create_project, created_project, store_project}
use dagger_kubernetes.Fsm.Cascade.{set_members, all_known}
use dagger_kubernetes.Fsm.Members.{
  replace_members, to_set, drop_edges, add_memberships, add_membership, add_edge, set_at,
}
use dagger_kubernetes.Fsm.Apply.{
  apply_log, apply, apply_command, first_handled, apply_entity_command, apply_trace_cache_command,
  apply_payload,
}
use dagger_kubernetes.Fsm.Snapshot.RoundTrip.{HasDistinctKeys}
use dagger_kubernetes.Fsm.Invariant.{WellFormed}
use dagger_kubernetes.Fsm.Invariant.Commands.{
  IsAdmissibleLog, apply_log-WellFormed, new_state-WellFormed,
}

-- bytes that carry their decoded value
pub data Wire : Type 0 where
  entry : ℕ → Wire → Wire
  text_wire : String → Wire
  user_wire : CmdUser → Wire
  group_wire : CmdGroup → Wire
  members_wire : CmdSetMembers → Wire
  project_wire : CmdProject → Wire
  token_wire : CmdToken → Wire
  touched_token_wire : CmdTouchToken → Wire
  provision_wire : TraceProvision → Wire
  trace_wire : TraceMeta → Wire
  failure_wire : TraceFailure → Wire
  meta_wire : CmdSetMeta → Wire
  session_wire : CmdUpsertSession → Wire
  touched_session_wire : CmdTouchSession → Wire

abbrev text_of : Wire → Option String
text_of (text_wire s) = some s
text_of _ = none

abbrev pub wire_codec : Codec
wire_codec = record {
  Raw = Wire;
  command = λ w. elim w [ entry n d ↦ some (n, d) | _ ↦ none ];
  text = text_of;
  user = λ w. elim w [ user_wire p ↦ some p | _ ↦ none ];
  group = λ w. elim w [ group_wire p ↦ some p | _ ↦ none ];
  members = λ w. elim w [ members_wire p ↦ some p | _ ↦ none ];
  project = λ w. elim w [ project_wire p ↦ some p | _ ↦ none ];
  token = λ w. elim w [ token_wire p ↦ some p | _ ↦ none ];
  token_owner = text_of;
  touched_token = λ w. elim w [ touched_token_wire p ↦ some p | _ ↦ none ];
  provision = λ w. elim w [ provision_wire p ↦ some p | _ ↦ none ];
  trace = λ w. elim w [ trace_wire p ↦ some p | _ ↦ none ];
  failure = λ w. elim w [ failure_wire p ↦ some p | _ ↦ none ];
  meta = λ w. elim w [ meta_wire p ↦ some p | _ ↦ none ];
  trace_key = text_of;
  session = λ w. elim w [ session_wire p ↦ some p | _ ↦ none ];
  touched_session = λ w. elim w [ touched_session_wire p ↦ some p | _ ↦ none ];
}

-- `strings.ToLower` on the names that the examples use
abbrev pub lower_case : String → String
lower_case s =
    if str_eq s "Alice"
    then "alice"
    else if str_eq s "Team"
    then "team"
    else if str_eq s "Web"
    then "web"
    else s

abbrev pub alice : User
alice = record {
  id = "u1";
  username = "Alice";
  role = "user";
  password_hash = "hash";
  oauth_provider = "github";
  oauth_id = "7";
  oauth_token_ciphertext = "";
  oauth_group_ids = [];
  oauth_groups = [];
  oauth_admin = false;
  deactivated_at = none;
  token_version = 0;
  created_at = 10;
  updated_at = 10;
}

abbrev pub team : Group
team = record {
  id = "g1";
  name = "Team";
  description = "";
  max_runner_sessions = 2;
  agent_available = false;
  auto_assign_pattern = "";
  created_at = 11;
  updated_at = 11;
}

abbrev pub web : Project
web = record { id = "p1"; name = "Web"; group_id = "g1"; created_at = 12; updated_at = 12 }

abbrev pub key_of_alice : ApiToken
key_of_alice = record {
  id = "k1";
  user_id = "u1";
  token_hash = "h1";
  token_ciphertext = "";
  prefix = "dk_";
  created_at = 13;
  last_used_at = none;
}

abbrev pub build : TraceMeta
build = record {
  trace_id = "t1";
  user_id = "u1";
  group_id = "g1";
  project_name = "Web";
  status = "running";
  failure_reason = "";
  version = "v0.18.0";
  ci_provider = "";
  ci_repo = "web";
  duration_ms = 0;
  started_at = 14;
  updated_at = 15;
}

abbrev pub finished_build : TraceMeta
finished_build = record build { trace_id = "t2"; status = "success"; started_at = 9 }

-- a log that fills every table: first the rows but the token, then the token and the traces
abbrev pub entity_log : List Wire
entity_log =
    entry 1 (user_wire (record (cmd_user_from alice) { create = true }))
    ∷ entry 3 (group_wire (record { group = team; create = true }))
    ∷ entry 6 (project_wire (record { project = web; create = true }))
    ∷ entry 5 (members_wire (record { group_id = "g1"; user_ids = "u1" ∷ [] }))
    ∷ []

abbrev pub token_log : List Wire
token_log =
    entry 8 (token_wire (cmd_token_from key_of_alice))
    ∷ entry 12 (trace_wire build)
    ∷ entry 12 (trace_wire finished_build)
    ∷ []

abbrev pub entities : FsmState
entities = apply_log lower_case wire_codec entity_log new_state

-- the replica after both
abbrev pub replica : FsmState
replica = apply_log lower_case wire_codec token_log entities

named :
    (p : CmdUser)
    → some (record (cmd_user_from alice) { create = true }) ≡ some p
    → str_eq p.username "" ≡ false
unfolding cmd_user_from
named p e = subst (λ x. str_eq x.username "" ≡ false) (some_inj.0 e) refl

first_token :
    (p : CmdToken) (s : FsmState)
    → some (cmd_token_from key_of_alice) ≡ some p
    → get s.tokens "k1" ≡ none
    → IsFreshToken (token_of p) s.token_table
unfolding cmd_token_from token_of
first_token p s e none_yet =
    subst (λ x. IsFreshToken (token_of x) s.token_table) (some_inj.0 e) (λ old at. cc)

no_token : get entities.tokens "k1" ≡ none
unfolding kind_of apply_log apply apply_command first_handled apply_entity_command apply_payload
    upsert_user create_user store_user upsert_group create_group store_group upsert_project
    create_project store_project set_members replace_members to_set drop_edges add_memberships
    add_membership add_edge set_at all_known put get remove keys empty user_of cmd_user_from
    oauth_key
no_token = refl

entity_log-IsAdmissible : IsAdmissibleLog lower_case wire_codec entity_log new_state
unfolding kind_of
entity_log-IsAdmissible = (named, (tt, (tt, (tt, tt))))

pub entities-WellFormed : WellFormed lower_case entities
entities-WellFormed =
    apply_log-WellFormed lower_case wire_codec entity_log new_state
      (new_state-WellFormed lower_case) entity_log-IsAdmissible

pub token_log-IsAdmissible : IsAdmissibleLog lower_case wire_codec token_log entities
unfolding kind_of
token_log-IsAdmissible = (λ p e. first_token p entities e no_token, (tt, (tt, tt)))

pub replica-WellFormed : WellFormed lower_case replica
replica-WellFormed =
    apply_log-WellFormed lower_case wire_codec token_log entities entities-WellFormed
      token_log-IsAdmissible

-- a second user with the same name, a second token, and a late ingest
abbrev pub double : CmdUser
double = record (cmd_user_from alice) { id = "u2"; oauth_id = ""; create = true }

abbrev pub renamed : User
renamed = record alice { username = "Web"; updated_at = 30 }

abbrev pub second_key : ApiToken
second_key = record key_of_alice { id = "k2"; token_hash = "h2" }

abbrev pub late : TraceMeta
late = record finished_build { status = "running"; updated_at = 40 }

-- what the replica holds, and what it answers to these
pub record Facts : Type 0 where
  pub user_row : get replica.users "u1" ≡ some alice
  pub group_row : get replica.groups "g1" ≡ some team
  pub project_row : get replica.projects "p1" ≡ some web
  pub build_row : get replica.traces "t1" ≡ some build
  pub finished_row : get replica.traces "t2" ≡ some finished_build
  pub no_second : get replica.tokens "k2" ≡ none
  pub refused : (apply_command lower_case wire_codec 1 (user_wire double) replica).1 ≡ err conflict
  pub replaced : (upsert_token second_key replica.token_table).1 ≡ ok tt
  pub renamed_ok : (upsert_user lower_case renamed false replica.user_table).1 ≡ ok tt
  pub late_row :
      get (apply_command lower_case wire_codec 12 (trace_wire late) replica).0.traces "t2"
      ≡ some (ingested late finished_build)

pub replica_facts : Facts
unfolding kind_of apply_log apply apply_command first_handled apply_entity_command
    apply_trace_cache_command apply_payload upsert_user create_user update_user drop_user_keys
    store_user upsert_group create_group store_group upsert_project create_project store_project
    set_members replace_members to_set drop_edges add_memberships add_membership add_edge set_at
    all_known put get remove keys empty user_of cmd_user_from oauth_key token_of cmd_token_from
    upsert_token replace_token remove_token store_token upsert_trace_ingest
replica_facts = record {
  user_row = refl;
  group_row = refl;
  project_row = refl;
  build_row = refl;
  finished_row = refl;
  no_second = refl;
  refused = refl;
  replaced = refl;
  renamed_ok = refl;
  late_row = refl;
}

pub replica-HasDistinctKeys : HasDistinctKeys replica
unfolding kind_of apply_log apply apply_command first_handled apply_entity_command
    apply_trace_cache_command apply_payload upsert_user create_user update_user drop_user_keys
    store_user upsert_group create_group store_group upsert_project create_project store_project
    set_members replace_members to_set drop_edges add_memberships add_membership add_edge set_at
    all_known put get remove keys empty user_of cmd_user_from oauth_key token_of cmd_token_from
    upsert_token replace_token remove_token store_token upsert_trace_ingest
replica-HasDistinctKeys = record {
  users_distinct = (refl, tt);
  groups_distinct = (refl, tt);
  tokens_distinct = (refl, tt);
  projects_distinct = (refl, tt);
  meta_distinct = tt;
}
