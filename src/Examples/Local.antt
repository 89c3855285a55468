-- ===== src/Examples/Local.antt =====
-- The theorems on leases, the limiter and the quota at concrete inputs.
use dagger_kubernetes.Mapping.{Regexp, Rules, map_groups}
use dagger_kubernetes.Mapping.Groups.{IsUnique, IsSource, map_groups_exact}
use dagger_kubernetes.Maps.{elem}
use dagger_kubernetes.Prelude.{
  Option, none, some, List, String, str_eq, if◌then◌else◌, true, false, ◌↔◌,
}
use dagger_kubernetes.Prelude.{
  ◌+◌, ◌-◌, ◌≤◌, ◌<◌, true, false, not, ◌≡◌, ◌↔◌, refl, none, some, [], ◌∷◌, String, ltb, arith,
  if◌then◌else◌,
}
use dagger_kubernetes.Maps.{Map, get, size, elem, IsDistinct}
use dagger_kubernetes.Domain.{Group, Lease, ok, err, lease_not_found}
use dagger_kubernetes.Session.Store.{SessionStore, get_lease, reap_orphans}
use dagger_kubernetes.Session.Reaping.{reap_orphans_exact}
use dagger_kubernetes.Quota.{GroupRepository, value_at, usage_snapshot, check_engine_access}
use dagger_kubernetes.Quota.Usage.{usage_snapshot_exact, leases_of_group}
use dagger_kubernetes.Quota.Access.{check_engine_access_exact, Admitting}
use dagger_kubernetes.Limiter.{AttemptInfo, allow, lockout, record_failure, sweep_locked}
use dagger_kubernetes.Limiter.Lockout.{record_failure_locks}
use dagger_kubernetes.Limiter.Capacity.{record_failure_bounded}

abbrev held : Lease
held = record {
  cert_fp = "fp1";
  version = "v0.18.0";
  replica_pod = "engine-0";
  instance_id = "i1";
  last_activity = 100;
  in_flight = 1;
  trace_id = "t1";
  user_id = "u1";
  group_id = "g1";
}

abbrev idle : Lease
idle = record held { cert_fp = "fp2"; last_activity = 10; in_flight = 0; user_id = "u2" }

abbrev lease_store : SessionStore
lease_store = record { leases = ("fp1", held) ∷ ("fp2", idle) ∷ []; ttl = 50 }

held_there : get lease_store.leases "fp1" ≡ some held
unfolding get
held_there = refl

leases-IsDistinct : IsDistinct lease_store.leases
unfolding get
leases-IsDistinct = (refl, (refl, tt))

reap_orphans_exact_example :
    (elem "fp2" (reap_orphans 120 lease_store).1 ≡ (elim (get lease_store.leases "fp2") [
      | none ↦ false
      | some l ↦ ltb 50 (120 - l.last_activity)
    ]))
    × (get_lease 120 (reap_orphans 120 lease_store).0 "fp2" ≡ (elim (get lease_store.leases "fp2") [
      | none ↦ err lease_not_found
      | some l ↦ if ltb 50 (120 - l.last_activity) then err lease_not_found else ok l
    ]))
reap_orphans_exact_example = reap_orphans_exact 120 lease_store "fp2" leases-IsDistinct

-- a client with four failures, the last at 100
abbrev attempts : Map AttemptInfo
attempts = ("10.0.0.1", record { failures = 4; locked_until = 0; last_seen = 100 }) ∷ []

attempts-IsDistinct : IsDistinct attempts
unfolding get
attempts-IsDistinct = (refl, tt)

fifth_locks : 0 < (record_failure 200 "10.0.0.1" attempts).1
unfolding record_failure lockout get sweep_locked
fifth_locks = omega arith

record_failure_locks_example :
    (allow 300 "10.0.0.1" (record_failure 200 "10.0.0.1" attempts).0).1
    ≡ not (ltb 300 (200 + (record_failure 200 "10.0.0.1" attempts).1))
record_failure_locks_example =
    record_failure_locks 200 "10.0.0.1" attempts attempts-IsDistinct fifth_locks 300

attempts_fit : size attempts ≤ 4096
unfolding size
attempts_fit = omega arith

record_failure_bounded_example : size (record_failure 200 "10.0.0.2" attempts).0 ≤ 4096
record_failure_bounded_example = record_failure_bounded 200 "10.0.0.2" attempts attempts_fit

-- a group with a limit of two sessions, whose one member holds a lease
abbrev runners : Group
runners = record {
  id = "g1";
  name = "Runners";
  description = "";
  max_runner_sessions = 2;
  agent_available = true;
  auto_assign_pattern = "";
  created_at = 1;
  updated_at = 1;
}

abbrev repo : GroupRepository
repo = record {
  groups_for_user = λ uid. ok (runners ∷ []);
  all_memberships = ok (("g1", "u1" ∷ []) ∷ []);
}

usage_snapshot_exact_example :
    value_at (usage_snapshot repo (held ∷ idle ∷ [])) "g1"
    ≡ leases_of_group (held ∷ idle ∷ []) (("g1", "u1" ∷ []) ∷ []) "g1"
usage_snapshot_exact_example =
    usage_snapshot_exact (held ∷ idle ∷ []) repo (("g1", "u1" ∷ []) ∷ []) "g1" refl

check_engine_access_exact_example :
    (check_engine_access "user" "u1" repo (held ∷ idle ∷ []) ≡ ok tt)
    ↔ Admitting repo (held ∷ idle ∷ []) (runners ∷ [])
check_engine_access_exact_example =
    check_engine_access_exact repo (held ∷ idle ∷ []) "user" "u1" (runners ∷ []) refl refl

-- patterns that match one name, and templates without a group
abbrev pub literal : Regexp
literal = record {
  Pattern = String;
  compile = λ p. some p;
  matches = λ p name. str_eq p name;
  expand = λ p template name. if str_eq p name then some template else none;
}

abbrev pub rules : Option (Rules literal)
rules = some (("acme:dev", "devs") ∷ ("acme:ops", "") ∷ ("acme:qa", "devs") ∷ [])

abbrev provider_groups : List String
provider_groups = "acme:qa" ∷ "acme:ops" ∷ "acme:dev" ∷ "other" ∷ []

map_groups_exact_example :
    IsUnique (map_groups literal rules provider_groups)
    × ((x : String)
        → (elem x (map_groups literal rules provider_groups) ≡ true)
          ↔ ((str_eq x "" ≡ false) × IsSource literal rules x provider_groups))
map_groups_exact_example = map_groups_exact literal rules provider_groups
