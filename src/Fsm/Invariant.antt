-- ===== src/Fsm/Invariant.antt =====
-- What holds of the replica between two log entries.
pub mod Rows
pub mod Cascades
pub mod Traces
pub mod Tables
pub mod Handlers
pub mod Commands
use dagger_kubernetes.Prelude.{◌≡◌, true, some, String}
use dagger_kubernetes.Maps.{Map, get, has, IsDistinct}
use dagger_kubernetes.Domain.{TraceMeta}
use dagger_kubernetes.Fsm.State.{FsmState}
use dagger_kubernetes.Fsm.Users.Index.{IsUserTable}
use dagger_kubernetes.Fsm.Groups.Index.{IsGroupTable}
use dagger_kubernetes.Fsm.Projects.Index.{IsProjectTable}
use dagger_kubernetes.Fsm.Tokens.Index.{IsTokenTable}
use dagger_kubernetes.Fsm.Members.Linked.{IsLinked, in_group}

-- Traces stand under their own id, once each.
pub record IsKeyed (traces : Map TraceMeta) : Type 0 where
  pub at_id : (id : String) (m : TraceMeta) → get traces id ≡ some m → m.trace_id ≡ id
  pub distinct : IsDistinct traces

module _ (lower : String → String) where
  -- Every table's indices are exact, the two directions of the memberships agree, they join known
  -- users to known groups, and traces stand under their own id.
  pub record WellFormed (s : FsmState) : Type 0 where
    pub users_ok : IsUserTable lower s.user_table
    pub groups_ok : IsGroupTable lower s.group_table
    pub projects_ok : IsProjectTable lower s.project_table
    pub tokens_ok : IsTokenTable s.token_table
    pub members_linked : IsLinked s.member_table
    pub member_user : (g u : String) → in_group s.member_table g u ≡ true → has s.users u ≡ true
    pub member_group : (g u : String) → in_group s.member_table g u ≡ true → has s.groups g ≡ true
    pub traces_keyed : IsKeyed s.traces
