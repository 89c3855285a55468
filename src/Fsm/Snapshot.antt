-- ===== src/Fsm/Snapshot.antt =====
-- Snapshot and Restore, fsm_snapshot.go. A nil pointer of a decoded list is `none`. `lower` stands
-- for `strings.ToLower`; the JSON text between the two is left out, so that Restore takes the
-- decoded payload, `none` where it does not decode.
pub mod RoundTrip
use dagger_kubernetes.Prelude.{Option, none, some, List, [], ◌∷◌, ◌++◌, map, String}
use dagger_kubernetes.Maps.{Map, put, keys, values}
use dagger_kubernetes.Domain.{Group, Project, TraceMeta, Result, ok, err, decode_error}
use dagger_kubernetes.Fsm.State.{FsmState, StringSet, new_state}
use dagger_kubernetes.Fsm.Users.{store_user}
use dagger_kubernetes.Fsm.Groups.{store_group}
use dagger_kubernetes.Fsm.Projects.{store_project}
use dagger_kubernetes.Fsm.Tokens.{store_token}
use dagger_kubernetes.Fsm.Members.{add_membership}
use dagger_kubernetes.Fsm.Command.{
  CmdUser, CmdToken, user_of, cmd_user_from, token_of, cmd_token_from,
}

pub record MembershipEdge : Type 0 where
  pub group_id : String
  pub user_id : String

pub record SnapshotPayload : Type 0 where
  pub users : List (Option CmdUser)
  pub groups : List (Option Group)
  pub memberships : List MembershipEdge
  pub tokens : List (Option CmdToken)
  pub projects : List (Option Project)
  pub traces : List (Option TraceMeta)
  pub meta : Map String

-- copySlice
abbrev pub copy_slice : {R : Type 0} → Map R → List (Option R)
copy_slice m = map (λ x. some x) (values m)

-- the nested loop of Snapshot over the memberships
unfoldable pub edges_of : Map StringSet → List MembershipEdge
edges_of [] = []
edges_of ((group_id, set) ∷ m) =
    map (λ user_id. record { group_id = group_id; user_id = user_id }) (keys set) ++ edges_of m

-- Snapshot
unfoldable pub snapshot : FsmState → SnapshotPayload
snapshot s = record {
  users = map (λ u. some (cmd_user_from u)) (values s.users);
  groups = copy_slice s.groups;
  memberships = edges_of s.memberships;
  tokens = map (λ k. some (cmd_token_from k)) (values s.tokens);
  projects = copy_slice s.projects;
  traces = copy_slice s.traces;
  meta = s.meta;
}

-- a loop of Restore, which passes over nil
unfoldable pub load : {R T : Type 0} → (R → T → T) → List (Option R) → T → T
load f [] t = t
load f (none ∷ xs) t = load f xs t
load f (some x ∷ xs) t = load f xs (f x t)

-- the loop of Restore over the metadata
unfoldable pub load_meta : Map String → Map String → Map String
load_meta [] t = t
load_meta ((k, v) ∷ m) t = load_meta m (put t k v)

-- the loop of Restore over the edges
unfoldable pub load_edges : List MembershipEdge → FsmState → FsmState
load_edges [] s = s
load_edges (e ∷ es) s =
    load_edges es (record s { member_table = add_membership e.group_id e.user_id s.member_table })

-- `s.traces[cp.TraceID] = &cp`
abbrev pub store_trace : TraceMeta → Map TraceMeta → Map TraceMeta
store_trace m traces = put traces m.trace_id m

-- adopt: every map is the other's, the session sink stays
unfoldable pub adopt : FsmState → FsmState → FsmState
adopt s other = record s {
  user_table = other.user_table;
  group_table = other.group_table;
  member_table = other.member_table;
  token_table = other.token_table;
  project_table = other.project_table;
  traces = other.traces;
  meta = other.meta;
}

module _ (lower : String → String) where
  -- the state that Restore builds from a payload
  unfoldable pub restored : SnapshotPayload → FsmState
  restored p = load_edges p.memberships (record new_state {
    user_table = load (λ c. store_user lower (user_of c)) p.users new_state.user_table;
    group_table = load (store_group lower) p.groups new_state.group_table;
    token_table = load (λ c. store_token (token_of c)) p.tokens new_state.token_table;
    project_table = load (store_project lower) p.projects new_state.project_table;
    traces = load store_trace p.traces new_state.traces;
    meta = load_meta p.meta new_state.meta;
  })

  -- Restore
  unfoldable pub restore : Option SnapshotPayload → FsmState → FsmState × Result (Unit {0})
  restore none s = (s, err (decode_error "snapshot"))
  restore (some p) s = (adopt s (restored p), ok tt)
