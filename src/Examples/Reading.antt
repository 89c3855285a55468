-- ===== src/Examples/Reading.antt =====
-- The reads' and listings' theorems at concrete inputs.
use dagger_kubernetes.Prelude.{
  pos, ◌≤◌, true, false, ◌≡◌, ◌≢◌, ◌⊎◌, ◌↔◌, refl, some, [], ◌∷◌, String, length, All, Memᴰ,
  IsSorted,
}
use dagger_kubernetes.Maps.{get}
use dagger_kubernetes.Domain.{ApiToken, TraceMeta, TraceFilter, ok, err, not_found}
use dagger_kubernetes.Fsm.State.{oauth_key}
use dagger_kubernetes.Fsm.Users.Index.{oauth_index_key}
use dagger_kubernetes.Fsm.Groups.Index.{group_key}
use dagger_kubernetes.Fsm.Projects.Index.{project_key}
use dagger_kubernetes.Fsm.Members.Linked.{in_group}
use dagger_kubernetes.Fsm.Reads.{
  read_user_by_username, read_user_by_oauth, read_group_by_name, read_project_by_name,
  read_token_by_user, read_token_by_hash,
}
use dagger_kubernetes.Fsm.Reads.Found.{Answers, indexed_reads_exact, token_reads_exact}
use dagger_kubernetes.Fsm.Queries.{
  trace_sort_key, list_traces_before, clamp_limit, joined, trace_matches, in_groups, text_matches,
  contains_fold, list_traces, members, groups_for_user,
}
use dagger_kubernetes.Fsm.Queries.Traces.{MayPurge, list_traces_before_exact}
use dagger_kubernetes.Fsm.Queries.Listed.{IsRowOf, IsNewestFirst, list_traces_exact}
use dagger_kubernetes.Fsm.Queries.Complete.{list_traces_complete}
use dagger_kubernetes.Fsm.Queries.Members.{membership_views_agree}
use dagger_kubernetes.Examples.{
  lower_case, build, alice, team, replica, replica-WellFormed, replica_facts,
}

indexed_reads_exact_example :
    ((name : String)
      → Answers
          (λ u. some (lower_case u.username))
          replica.users
          (lower_case name)
          (read_user_by_username lower_case replica name))
    × ((provider oauth_id : String)
        → Answers oauth_index_key replica.users
            (oauth_key provider oauth_id)
            (read_user_by_oauth replica provider oauth_id))
    × ((name : String)
        → Answers
            (group_key lower_case)
            replica.groups
            (lower_case name)
            (read_group_by_name lower_case replica name))
    × ((name : String)
        → Answers
            (project_key lower_case)
            replica.projects
            (lower_case name)
            (read_project_by_name lower_case replica name))
indexed_reads_exact_example = indexed_reads_exact lower_case replica replica-WellFormed

token_reads_exact_example :
    ((user_id : String)
      → ((read_token_by_user replica user_id ≡ err not_found)
          × ((id : String) (k : ApiToken) → get replica.tokens id ≡ some k → k.user_id ≢ user_id))
        ⊎ ((k : ApiToken) × (read_token_by_user replica user_id ≡ ok (some k))
            × (get replica.tokens k.id ≡ some k)
            × (k.user_id ≡ user_id)))
    × ((hash : String)
        → ((read_token_by_hash replica hash ≡ err not_found)
            × ((id : String) (k : ApiToken) → get replica.tokens id ≡ some k → k.token_hash ≢ hash))
          ⊎ ((k : ApiToken) × (read_token_by_hash replica hash ≡ ok (some k))
              × (get replica.tokens k.id ≡ some k)
              × (k.token_hash ≡ hash)))
token_reads_exact_example = token_reads_exact lower_case replica replica-WellFormed

list_traces_before_exact_example :
    All
      (λ m. (get replica.traces m.trace_id ≡ some m) × MayPurge 12 true m)
      (list_traces_before 12 true replica)
    × ((id : String) (m : TraceMeta)
        → get replica.traces id ≡ some m
        → MayPurge 12 true m
        → Memᴰ m (list_traces_before 12 true replica))
    × IsSorted (λ a b. trace_sort_key a ≤ trace_sort_key b) (list_traces_before 12 true replica)
list_traces_before_exact_example =
    list_traces_before_exact lower_case replica replica-WellFormed 12 true

abbrev of_team : TraceFilter
of_team = record {
  group_ids = "g1" ∷ [];
  include_unassigned = true;
  unassigned_only = false;
  user_id = "u1";
  ci_repo = "";
  username = "";
  limit = pos 10;
}

list_traces_exact_example :
    (length (list_traces lower_case of_team replica) ≤ clamp_limit (pos 10))
    × (1 ≤ clamp_limit (pos 10))
    × (clamp_limit (pos 10) ≤ 500)
    × IsNewestFirst lower_case of_team replica replica-WellFormed
        (list_traces lower_case of_team replica)
    × All
        (IsRowOf lower_case of_team replica replica-WellFormed)
        (list_traces lower_case of_team replica)
list_traces_exact_example = list_traces_exact lower_case of_team replica replica-WellFormed

build_matches :
    (trace_matches of_team build ≡ true)
    × (text_matches lower_case of_team (joined lower_case replica build) ≡ true)
unfolding trace_matches in_groups text_matches contains_fold
build_matches = (refl, refl)

list_traces_complete_example :
    Memᴰ (joined lower_case replica build) (list_traces lower_case of_team replica)
    ⊎ ((length (list_traces lower_case of_team replica) ≡ clamp_limit (pos 10))
        × All
            (λ r. trace_sort_key build ≤ trace_sort_key r.trace)
            (list_traces lower_case of_team replica))
list_traces_complete_example =
    list_traces_complete lower_case of_team replica replica-WellFormed "t1" build
      replica_facts.build_row build_matches.0 build_matches.1

membership_views_agree_example :
    (Memᴰ alice (members "g1" replica) ↔ (in_group replica.member_table "g1" "u1" ≡ true))
    × (Memᴰ team (groups_for_user "u1" replica) ↔ (in_group replica.member_table "g1" "u1" ≡ true))
membership_views_agree_example =
    membership_views_agree lower_case replica replica-WellFormed "g1" "u1" team alice
      replica_facts.group_row replica_facts.user_row
