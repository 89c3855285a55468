-- ===== src/Fsm/Queries.antt =====
-- The listing queries of fsm.go. `range` order is the map's; the sorts fix the order that callers
-- see. `lower` stands for `strings.ToLower`.
pub mod Traces
pub mod Listed
pub mod Complete
pub mod Members
use Prim.Native.String.{compare}
use text.Mathlib.Text.{is_lt, find?}
use dagger_kubernetes.Prelude.{
  ℕ, ℤ, pos, negsuc, Bool, true, false, not, ◌&&◌, ◌||◌, Option, none, some, List, [], ◌∷◌, map,
  String, str_eq, ltb, leb, ◌==◌, is_some, if◌then◌else◌, length, take, keep, sort_by,
}
use dagger_kubernetes.Maps.{Map, get, size, keys, values}
use dagger_kubernetes.Domain.{
  Time, zero_time, is_zero, User, Group, Project, TraceMeta, TraceListResult, TraceFilter,
  default_trace_limit, max_trace_limit,
}
use dagger_kubernetes.Fsm.State.{FsmState, StringSet}
use dagger_kubernetes.Fsm.Members.{set_at}

-- `a < b` on strings
abbrev pub str_lt : String → String → Bool
str_lt a b = is_lt (compare a b)

-- traceSortKey: COALESCE(started_at, updated_at)
unfoldable pub trace_sort_key : TraceMeta → Time
trace_sort_key m = if is_zero m.started_at then m.updated_at else m.started_at

-- `Status == "" || Status == "running"`
abbrev pub is_running : TraceMeta → Bool
is_running m = str_eq m.status "" || str_eq m.status "running"

-- the three `continue`s of listTracesBefore
unfoldable pub is_purgeable : Time → Bool → TraceMeta → Bool
unfolding trace_sort_key
is_purgeable cutoff protect_running m =
    let key = trace_sort_key m in
    if is_zero key
    then false
    else if ltb cutoff key
    then false
    else if protect_running && is_running m
    then false
    else true

-- listTracesBefore
unfoldable pub list_traces_before : Time → Bool → FsmState → List TraceMeta
list_traces_before cutoff protect_running s =
    sort_by (λ a b. ltb (trace_sort_key a) (trace_sort_key b))
      (keep (is_purgeable cutoff protect_running) (values s.traces))

-- oldest first, then by id
abbrev pub older : TraceMeta → TraceMeta → Bool
older a b =
    if trace_sort_key a == trace_sort_key b
    then str_lt a.trace_id b.trace_id
    else ltb (trace_sort_key a) (trace_sort_key b)

-- listRunningTraces
unfoldable pub list_running_traces : FsmState → List TraceMeta
list_running_traces s =
    sort_by older (keep (λ m. is_running m && not (str_eq m.version "")) (values s.traces))

-- the body of the loop of traceStats, at the key `k`
unfoldable pub oldest_of : Time → Time → Time
oldest_of oldest k =
    if is_zero k then oldest else if is_zero oldest || ltb k oldest then k else oldest

-- the loop of traceStats
unfoldable pub oldest_from : Time → List TraceMeta → Time
oldest_from oldest [] = oldest
oldest_from oldest (m ∷ ms) = oldest_from (oldest_of oldest (trace_sort_key m)) ms

-- traceStats
unfoldable pub trace_stats : FsmState → ℕ × Time
trace_stats s = (size s.traces, oldest_from zero_time (values s.traces))

-- clampLimit
unfoldable pub clamp_limit : ℤ → ℕ
clamp_limit (negsuc n) = default_trace_limit
clamp_limit (pos n) =
    if n == 0 then default_trace_limit else if ltb max_trace_limit n then max_trace_limit else n

-- the loop over `f.GroupIDs`
unfoldable pub in_groups : List String → String → Bool
in_groups [] group_id = false
in_groups (gid ∷ gids) group_id = str_eq group_id gid || in_groups gids group_id

-- traceMatches
unfoldable pub trace_matches : TraceFilter → TraceMeta → Bool
unfolding in_groups
trace_matches f m =
    if f.unassigned_only
    then str_eq m.group_id ""
    else if ltb 0 (length f.group_ids)
    then (if in_groups f.group_ids m.group_id
        then true
        else if not (str_eq f.user_id "")
        then str_eq m.group_id "" && str_eq m.user_id f.user_id
        else false)
    else if not f.include_unassigned && not (str_eq f.user_id "")
    then str_eq m.user_id f.user_id
    else true

-- newest first, then by id
abbrev pub newer : TraceListResult → TraceListResult → Bool
newer a b =
    if trace_sort_key a.trace == trace_sort_key b.trace
    then str_lt a.trace.trace_id b.trace.trace_id
    else ltb (trace_sort_key b.trace) (trace_sort_key a.trace)

module _ (lower : String → String) where
  -- containsFold
  unfoldable pub contains_fold : String → String → Bool
  contains_fold s substr =
      if str_eq substr "" then true else is_some (find? (lower s) (lower substr))

  -- the row that the listing shows for a trace: its status made plain, its names joined
  unfoldable pub joined : FsmState → TraceMeta → TraceListResult
  joined s m = record {
    trace =
        if str_eq m.status "" || str_eq m.status "unset"
        then record m { status = "running" }
        else m;
    group_name = elim (get s.groups m.group_id) [ none ↦ "" | some g ↦ g.name ];
    username = elim (get s.users m.user_id) [ none ↦ "" | some u ↦ u.username ];
  }

  -- the text filters, on the joined row
  unfoldable pub text_matches : TraceFilter → TraceListResult → Bool
  unfolding contains_fold
  text_matches f r =
      if not (str_eq f.ci_repo "")
        && not (contains_fold r.trace.ci_repo f.ci_repo)
        && not (contains_fold r.trace.project_name f.ci_repo)
      then false
      else if not (str_eq f.username "") && not (contains_fold r.username f.username)
      then false
      else true

  -- listTraces before the limit
  unfoldable pub matching_traces : TraceFilter → FsmState → List TraceListResult
  matching_traces f s =
      sort_by newer
        (keep (text_matches f) (map (joined s) (keep (trace_matches f) (values s.traces))))

  -- listTraces
  unfoldable pub list_traces : TraceFilter → FsmState → List TraceListResult
  list_traces f s =
      let out = matching_traces f s in
      if ltb (clamp_limit f.limit) (length out) then take (clamp_limit f.limit) out else out

-- the comparison of listUsers and listProjects: by creation time, then by id
abbrev pub earlier : Time → String → Time → String → Bool
earlier t i u j = if t == u then str_lt i j else ltb t u

-- listUsers
unfoldable pub list_users : FsmState → List User
list_users s = sort_by (λ a b. earlier a.created_at a.id b.created_at b.id) (values s.users)

-- listProjects
unfoldable pub list_projects : FsmState → List Project
list_projects s = sort_by (λ a b. earlier a.created_at a.id b.created_at b.id) (values s.projects)

-- listGroups
unfoldable pub list_groups : FsmState → List Group
list_groups s = sort_by (λ a b. str_lt a.id b.id) (values s.groups)

-- the rows of a table that the keys of a set name; a key with no row is passed over
unfoldable pub rows_of : {R : Type 0} → Map R → List String → List R
rows_of rows [] = []
rows_of rows (k ∷ ks) =
    let rest = rows_of rows ks in elim (get rows k) [ none ↦ rest | some r ↦ r ∷ rest ]

-- members
unfoldable pub members : String → FsmState → List User
members group_id s =
    sort_by (λ a b. str_lt a.username b.username)
      (rows_of s.users (keys (set_at s.memberships group_id)))

-- groupsForUser
unfoldable pub groups_for_user : String → FsmState → List Group
groups_for_user user_id s =
    sort_by (λ a b. str_lt a.id b.id)
      (rows_of s.groups (keys (set_at s.memberships_by_user user_id)))

-- allMemberships
unfoldable pub all_memberships : FsmState → List (String × List String)
all_memberships s = map (λ e. (e.0, sort_by str_lt (keys e.1))) s.memberships
