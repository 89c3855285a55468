-- ===== src/Fsm/State.antt =====
-- fsmState of fsm.go. The blocks of its maps are records of their own, which `FsmState` opens. The
-- lock is held for the whole of every operation, so an operation is one function on the state. The
-- maps hold pointers, but every store copies its argument and every read copies its result, so rows
-- are values here.
use Prim.Native.String.{◌++◌}
use dagger_kubernetes.Prelude.{String, Option, none}
use dagger_kubernetes.Maps.{Map, empty}
use dagger_kubernetes.Domain.{User, Group, Project, ApiToken, TraceMeta}
use dagger_kubernetes.Session.Store.{SessionStore}

pub record UserTable : Type 0 where
  pub users : Map User
  pub users_by_name : Map String
  pub users_by_oauth : Map String

-- `map[string]struct{}`
abbrev pub StringSet : Type 0
StringSet = Map (Unit {0})

pub record MemberTable : Type 0 where
  pub memberships : Map StringSet
  pub memberships_by_user : Map StringSet

pub record GroupTable : Type 0 where
  pub groups : Map Group
  pub groups_by_name : Map String

pub record TokenTable : Type 0 where
  pub tokens : Map ApiToken
  pub tokens_by_hash : Map String
  pub tokens_by_user : Map String

pub record ProjectTable : Type 0 where
  pub projects : Map Project
  pub projects_by_name : Map String

pub record FsmState : Type 0 where
  pub user_table : UserTable
  pub open user_table use *
  pub group_table : GroupTable
  pub open group_table use *
  pub member_table : MemberTable
  pub open member_table use *
  pub token_table : TokenTable
  pub open token_table use *
  pub project_table : ProjectTable
  pub open project_table use *
  pub traces : Map TraceMeta
  pub meta : Map String
  pub session_sink : Option SessionStore

-- newState
abbrev pub new_state : FsmState
new_state = record {
  user_table = record { users = empty; users_by_name = empty; users_by_oauth = empty };
  group_table = record { groups = empty; groups_by_name = empty };
  member_table = record { memberships = empty; memberships_by_user = empty };
  token_table = record { tokens = empty; tokens_by_hash = empty; tokens_by_user = empty };
  project_table = record { projects = empty; projects_by_name = empty };
  traces = empty;
  meta = empty;
  session_sink = none;
}

-- oauthKey: the two parts with a NUL between them
unfoldable pub oauth_key : String → String → String
oauth_key provider oauth_id = provider ++ "\0" ++ oauth_id
