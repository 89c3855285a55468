-- ===== src/Fsm/Invariant/Tables.antt =====
-- The invariant of the replica where one table is replaced.
use dagger_kubernetes.Prelude.{true, ◌≡◌, Option, String}
use dagger_kubernetes.Maps.{Map, has}
use dagger_kubernetes.Domain.{TraceMeta}
use dagger_kubernetes.Session.Store.{SessionStore}
use dagger_kubernetes.Fsm.State.{FsmState, UserTable, GroupTable, ProjectTable, TokenTable}
use dagger_kubernetes.Fsm.Users.Index.{IsUserTable}
use dagger_kubernetes.Fsm.Groups.Index.{IsGroupTable}
use dagger_kubernetes.Fsm.Projects.Index.{IsProjectTable}
use dagger_kubernetes.Fsm.Tokens.Index.{IsTokenTable}
use dagger_kubernetes.Fsm.Invariant.{WellFormed, IsKeyed}

module _ (lower : String → String) (s : FsmState) (w : WellFormed lower s) where
  pub with_traces-WellFormed :
      (traces : Map TraceMeta) → IsKeyed traces → WellFormed lower (record s { traces = traces })
  with_traces-WellFormed traces keyed = record {
    users_ok = w.users_ok;
    groups_ok = w.groups_ok;
    projects_ok = w.projects_ok;
    tokens_ok = w.tokens_ok;
    members_linked = w.members_linked;
    member_user = w.member_user;
    member_group = w.member_group;
    traces_keyed = keyed;
  }

  pub with_tokens-WellFormed :
      (t : TokenTable) → IsTokenTable t → WellFormed lower (record s { token_table = t })
  with_tokens-WellFormed t h = record {
    users_ok = w.users_ok;
    groups_ok = w.groups_ok;
    projects_ok = w.projects_ok;
    tokens_ok = h;
    members_linked = w.members_linked;
    member_user = w.member_user;
    member_group = w.member_group;
    traces_keyed = w.traces_keyed;
  }

  pub with_projects-WellFormed :
      (t : ProjectTable)
      → IsProjectTable lower t
      → WellFormed lower (record s { project_table = t })
  with_projects-WellFormed t h = record {
    users_ok = w.users_ok;
    groups_ok = w.groups_ok;
    projects_ok = h;
    tokens_ok = w.tokens_ok;
    members_linked = w.members_linked;
    member_user = w.member_user;
    member_group = w.member_group;
    traces_keyed = w.traces_keyed;
  }

  -- a user table with no user fewer
  pub with_users-WellFormed :
      (t : UserTable)
      → IsUserTable lower t
      → ((u : String) → has s.users u ≡ true → has t.users u ≡ true)
      → WellFormed lower (record s { user_table = t })
  with_users-WellFormed t h more = record {
    users_ok = h;
    groups_ok = w.groups_ok;
    projects_ok = w.projects_ok;
    tokens_ok = w.tokens_ok;
    members_linked = w.members_linked;
    member_user = λ g u e. more u (w.member_user g u e);
    member_group = w.member_group;
    traces_keyed = w.traces_keyed;
  }

  pub with_groups-WellFormed :
      (t : GroupTable)
      → IsGroupTable lower t
      → ((g : String) → has s.groups g ≡ true → has t.groups g ≡ true)
      → WellFormed lower (record s { group_table = t })
  with_groups-WellFormed t h more = record {
    users_ok = w.users_ok;
    groups_ok = h;
    projects_ok = w.projects_ok;
    tokens_ok = w.tokens_ok;
    members_linked = w.members_linked;
    member_user = w.member_user;
    member_group = λ g u e. more g (w.member_group g u e);
    traces_keyed = w.traces_keyed;
  }

  -- `meta` and the sink are in no clause of the invariant
  pub with_rest-WellFormed :
      (meta : Map String) (sink : Option SessionStore)
      → WellFormed lower (record s { meta = meta; session_sink = sink })
  with_rest-WellFormed meta sink = record {
    users_ok = w.users_ok;
    groups_ok = w.groups_ok;
    projects_ok = w.projects_ok;
    tokens_ok = w.tokens_ok;
    members_linked = w.members_linked;
    member_user = w.member_user;
    member_group = w.member_group;
    traces_keyed = w.traces_keyed;
  }
