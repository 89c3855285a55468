-- ===== src/Fsm/Command.antt =====
-- The Raft commands of fsm.go: their kinds and their payloads.
use dagger_kubernetes.Prelude.{ℕ, Bool, false, Option, List, String, ◌==◌, if◌then◌else◌}
use dagger_kubernetes.Domain.{Time, User, Group, Project, ApiToken, TraceMeta, Lease}
use dagger_kubernetes.Fsm.Traces.{TraceProvision, TraceFailure}

-- commandKind; `other` is any byte that names no command
pub data CommandKind : Type 0 where
  upsert_user_kind delete_user_kind upsert_group_kind delete_group_kind set_members_kind :
      CommandKind
  upsert_project_kind delete_project_kind upsert_token_kind delete_token_kind : CommandKind
  touch_token_kind upsert_trace_provision_kind upsert_trace_ingest_kind : CommandKind
  mark_trace_failed_kind set_meta_kind upsert_manifest_route_kind : CommandKind
  delete_manifest_route_kind upsert_blob_route_kind record_upload_kind delete_upload_kind :
      CommandKind
  reap_uploads_kind delete_trace_kind upsert_session_kind touch_session_kind : CommandKind
  touch_manifest_route_kind : CommandKind
  other : ℕ → CommandKind

-- the numbers that `iota` gives; 17 is reserved
unfoldable pub kind_of : ℕ → CommandKind
kind_of n =
    if n == 1
    then upsert_user_kind
    else if n == 2
    then delete_user_kind
    else if n == 3
    then upsert_group_kind
    else if n == 4
    then delete_group_kind
    else if n == 5
    then set_members_kind
    else if n == 6
    then upsert_project_kind
    else if n == 7
    then delete_project_kind
    else if n == 8
    then upsert_token_kind
    else if n == 9
    then delete_token_kind
    else if n == 10
    then touch_token_kind
    else if n == 11
    then upsert_trace_provision_kind
    else if n == 12
    then upsert_trace_ingest_kind
    else if n == 13
    then mark_trace_failed_kind
    else if n == 14
    then set_meta_kind
    else if n == 15
    then upsert_manifest_route_kind
    else if n == 16
    then delete_manifest_route_kind
    else if n == 18
    then upsert_blob_route_kind
    else if n == 19
    then record_upload_kind
    else if n == 20
    then delete_upload_kind
    else if n == 21
    then reap_uploads_kind
    else if n == 22
    then delete_trace_kind
    else if n == 23
    then upsert_session_kind
    else if n == 24
    then touch_session_kind
    else if n == 25
    then touch_manifest_route_kind
    else other n

-- cmdUser
pub record CmdUser : Type 0 where
  pub id : String
  pub username : String
  pub role : String
  pub password_hash : String
  pub oauth_provider : String
  pub oauth_id : String
  pub oauth_token_ciphertext : String
  pub oauth_group_ids : List String
  pub oauth_groups : List String
  pub oauth_admin : Bool
  pub deactivated_at : Option Time
  pub token_version : ℕ
  pub created_at : Time
  pub updated_at : Time
  pub create : Bool

-- toDomain of cmdUser
unfoldable pub user_of : CmdUser → User
user_of c = record {
  id = c.id;
  username = c.username;
  role = c.role;
  password_hash = c.password_hash;
  oauth_provider = c.oauth_provider;
  oauth_id = c.oauth_id;
  oauth_token_ciphertext = c.oauth_token_ciphertext;
  oauth_group_ids = c.oauth_group_ids;
  oauth_groups = c.oauth_groups;
  oauth_admin = c.oauth_admin;
  deactivated_at = c.deactivated_at;
  token_version = c.token_version;
  created_at = c.created_at;
  updated_at = c.updated_at;
}

-- cmdUserFrom, which leaves the flag false
unfoldable pub cmd_user_from : User → CmdUser
cmd_user_from u = record {
  id = u.id;
  username = u.username;
  role = u.role;
  password_hash = u.password_hash;
  oauth_provider = u.oauth_provider;
  oauth_id = u.oauth_id;
  oauth_token_ciphertext = u.oauth_token_ciphertext;
  oauth_group_ids = u.oauth_group_ids;
  oauth_groups = u.oauth_groups;
  oauth_admin = u.oauth_admin;
  deactivated_at = u.deactivated_at;
  token_version = u.token_version;
  created_at = u.created_at;
  updated_at = u.updated_at;
  create = false;
}

-- cmdToken
pub record CmdToken : Type 0 where
  pub id : String
  pub user_id : String
  pub token_hash : String
  pub token_ciphertext : String
  pub prefix : String
  pub created_at : Time
  pub last_used_at : Option Time

-- toDomain of cmdToken, and cmdTokenFrom
unfoldable pub token_of : CmdToken → ApiToken
token_of c = record {
  id = c.id;
  user_id = c.user_id;
  token_hash = c.token_hash;
  token_ciphertext = c.token_ciphertext;
  prefix = c.prefix;
  created_at = c.created_at;
  last_used_at = c.last_used_at;
}

unfoldable pub cmd_token_from : ApiToken → CmdToken
cmd_token_from t = record {
  id = t.id;
  user_id = t.user_id;
  token_hash = t.token_hash;
  token_ciphertext = t.token_ciphertext;
  prefix = t.prefix;
  created_at = t.created_at;
  last_used_at = t.last_used_at;
}

pub record CmdGroup : Type 0 where
  pub group : Group
  pub create : Bool

pub record CmdProject : Type 0 where
  pub project : Project
  pub create : Bool

pub record CmdSetMembers : Type 0 where
  pub group_id : String
  pub user_ids : List String

pub record CmdTouchToken : Type 0 where
  pub id : String
  pub at : Time

pub record CmdSetMeta : Type 0 where
  pub key : String
  pub value : String

pub record CmdUpsertSession : Type 0 where
  pub lease : Lease
  pub at : Time

pub record CmdTouchSession : Type 0 where
  pub cert_fp : String
  pub at : Time

-- `json.Unmarshal` into each payload type, for a type of raw bytes; `none` is a decode error.
pub record Codec : Type 1 where
  pub Raw : Type 0
  pub command : Raw → Option (ℕ × Raw)
  pub text : Raw → Option String
  pub user : Raw → Option CmdUser
  pub group : Raw → Option CmdGroup
  pub members : Raw → Option CmdSetMembers
  pub project : Raw → Option CmdProject
  pub token : Raw → Option CmdToken
  pub token_owner : Raw → Option String
  pub touched_token : Raw → Option CmdTouchToken
  pub provision : Raw → Option TraceProvision
  pub trace : Raw → Option TraceMeta
  pub failure : Raw → Option TraceFailure
  pub meta : Raw → Option CmdSetMeta
  pub trace_key : Raw → Option String
  pub session : Raw → Option CmdUpsertSession
  pub touched_session : Raw → Option CmdTouchSession
