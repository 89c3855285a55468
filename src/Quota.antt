-- ===== src/Quota.antt =====
-- QuotaService of internal/service/quota_service.go. The group repository is an interface, as in
-- internal/domain/group.go, whose AllMemberships returns, with an error or without; `List` of the
-- session store gives the leases.
pub mod Usage
pub mod Access
use dagger_kubernetes.Prelude.{
  ℕ, ◌+◌, Bool, true, false, ◌||◌, none, some, List, [], ◌∷◌, String, str_eq, ltb, ◌==◌, length,
  keep, if◌then◌else◌,
}
use dagger_kubernetes.Maps.{Map, empty, get, put}
use dagger_kubernetes.Domain.{
  Group, Lease, Result, ok, err, nil_dereference, ◌>>=◌, no_groups, agent_unavailable,
  quota_exhausted, role_admin,
}

-- the two methods of domain.GroupRepository that the service calls
pub record GroupRepository : Type 0 where
  pub groups_for_user : String → Result (List Group)
  pub all_memberships : Result (List (String × List String))

-- `m[k]` of a map[string]int
abbrev pub value_at : Map ℕ → String → ℕ
value_at m k = elim (get m k) [ none ↦ 0 | some n ↦ n ]

-- `m[k] += n`
abbrev pub add_at : Map ℕ → String → ℕ → Map ℕ
add_at m k n = put m k (value_at m k + n)

-- the loop of usageSnapshot over the leases
unfoldable pub count_leases : List Lease → Map ℕ → Map ℕ
count_leases [] per_user = per_user
count_leases (l ∷ ls) per_user =
    count_leases ls (if str_eq l.user_id "" then per_user else add_at per_user l.user_id 1)

-- the inner loop over the users of a group
unfoldable pub add_users : Map ℕ → String → List String → Map ℕ → Map ℕ
add_users per_user gid [] out = out
add_users per_user gid (uid ∷ uids) out =
    add_users per_user gid uids (add_at out gid (value_at per_user uid))

-- the loop over the memberships
unfoldable pub add_groups : Map ℕ → List (String × List String) → Map ℕ → Map ℕ
add_groups per_user [] out = out
add_groups per_user ((gid, uids) ∷ ms) out =
    add_groups per_user ms (add_users per_user gid uids out)

-- usageSnapshot; where the memberships cannot be read, nothing is in use
unfoldable pub usage_snapshot : GroupRepository → List Lease → Map ℕ
usage_snapshot repo leases = elim repo.all_memberships [
  | ok ms ↦ add_groups (count_leases leases empty) ms empty
  | err e ↦ empty
  | nil_dereference ↦ empty
]

-- UsageByGroup
unfoldable pub usage_by_group : GroupRepository → List Lease → Result (Map ℕ)
usage_by_group repo leases = ok (usage_snapshot repo leases)

-- the test of CheckEngineAccess on one group
abbrev pub has_room : Map ℕ → Group → Bool
has_room usage g = g.max_runner_sessions == 0 || ltb (value_at usage g.id) g.max_runner_sessions

-- the last loop of CheckEngineAccess
unfoldable pub admit : Map ℕ → List Group → Result (Unit {0})
admit usage [] = err quota_exhausted
admit usage (g ∷ gs) = let rest = admit usage gs in if has_room usage g then ok tt else rest

-- CheckEngineAccess after the groups are read
unfoldable pub check_groups : GroupRepository → List Lease → List Group → Result (Unit {0})
check_groups repo leases gs =
    if length gs == 0
    then err no_groups
    else (let available = keep (λ g. g.agent_available) gs in
        if length available == 0
        then err agent_unavailable
        else admit (usage_snapshot repo leases) available)

-- CheckEngineAccess, for an identity's role and user id
unfoldable pub check_engine_access :
    String → String → GroupRepository → List Lease → Result (Unit {0})
check_engine_access role user_id repo leases =
    if str_eq role role_admin
    then ok tt
    else (do gs ← repo.groups_for_user user_id; check_groups repo leases gs)
