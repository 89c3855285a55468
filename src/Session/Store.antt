-- ===== src/Session/Store.antt =====
-- Store of internal/service/session.go. A method takes the time that `time.Now()` gives it, and
-- returns the new store. `InFlight` is a Go int; the decrement is guarded, so it stays a natural
-- number.
use dagger_kubernetes.Prelude.{
  ℕ, ◌+◌, ◌-◌, Bool, none, some, List, [], ◌∷◌, String, str_eq, ltb, length, if◌then◌else◌, keep,
}
use dagger_kubernetes.Maps.{Map, empty, get, put, remove, values}
use dagger_kubernetes.Domain.{Time, Lease, Result, ok, err, lease_not_found, lease_expired, ◌>>=◌}

pub record SessionStore : Type 0 where
  pub leases : Map Lease
  pub ttl : ℕ

-- NewStore
unfoldable pub new_store : ℕ → SessionStore
new_store ttl = record { leases = empty; ttl = ttl }

-- ApplySessionRegistered
unfoldable pub apply_session_registered : Lease → SessionStore → SessionStore
apply_session_registered lease s = record s { leases = put s.leases lease.cert_fp lease }

-- ApplySessionTouched
unfoldable pub apply_session_touched : String → Time → SessionStore → SessionStore
apply_session_touched cert_fp at s = elim (get s.leases cert_fp) [
  | none ↦ s
  | some l ↦ record s { leases = put s.leases cert_fp (record l { last_activity = at }) }
]

-- Register
unfoldable pub register :
    Time → String → String → String → String → String → String → SessionStore → SessionStore × Lease
register now cert_fp version replica_pod instance_id trace_id user_id s =
    let lease : Lease = record {
      cert_fp = cert_fp;
      version = version;
      replica_pod = replica_pod;
      instance_id = instance_id;
      last_activity = now;
      in_flight = 0;
      trace_id = trace_id;
      user_id = user_id;
      group_id = "";
    } in
    (record s { leases = put s.leases cert_fp lease }, lease)

-- lease, the lookup that the methods share
unfoldable pub lease : SessionStore → String → Result Lease
lease s cert_fp = elim (get s.leases cert_fp) [ none ↦ err lease_not_found | some l ↦ ok l ]

-- `now.Sub(l.LastActivity) > s.ttl`. `Sub` is negative, hence not above, for a later activity.
abbrev pub is_expired : Time → SessionStore → Lease → Bool
is_expired now s l = ltb s.ttl (now - l.last_activity)

-- Get
unfoldable pub get_lease : Time → SessionStore → String → Result Lease
unfolding lease
get_lease now s cert_fp = do
  l ← lease s cert_fp
  if is_expired now s l then err lease_expired else ok l

-- Touch
unfoldable pub touch : Time → String → SessionStore → SessionStore × Result (Unit {0})
touch now cert_fp s = elim (get s.leases cert_fp) [
  | none ↦ (s, err lease_not_found)
  | some l ↦ (record s { leases = put s.leases cert_fp (record l { last_activity = now }) }, ok tt)
]

-- IncInFlight
unfoldable pub inc_in_flight : String → SessionStore → SessionStore × Result (Unit {0})
inc_in_flight cert_fp s = elim (get s.leases cert_fp) [
  | none ↦ (s, err lease_not_found)
  | some l ↦
      (record s { leases = put s.leases cert_fp (record l { in_flight = l.in_flight + 1 }) }, ok tt)
]

-- DecInFlightAndGet; the decrement stops at 0 as the guard `l.InFlight > 0` does
unfoldable pub dec_in_flight_and_get : String → SessionStore → SessionStore × Result ℕ
dec_in_flight_and_get cert_fp s = elim (get s.leases cert_fp) [
  | none ↦ (s, err lease_not_found)
  | some l ↦
      let n = if ltb 0 l.in_flight then l.in_flight - 1 else l.in_flight in
      (record s { leases = put s.leases cert_fp (record l { in_flight = n }) }, ok n)
]

-- DecInFlight
unfoldable pub dec_in_flight : String → SessionStore → SessionStore × Result (Unit {0})
unfolding dec_in_flight_and_get
dec_in_flight cert_fp s = let (s', r) = dec_in_flight_and_get cert_fp s in (s', (do _ ← r; ok tt))

-- Remove
unfoldable pub remove_lease : String → SessionStore → SessionStore
remove_lease cert_fp s = record s { leases = remove s.leases cert_fp }

-- List
unfoldable pub list_leases : SessionStore → List Lease
list_leases s = values s.leases

-- PinnedSessionsOnReplica
unfoldable pub pinned_sessions_on_replica : SessionStore → String → ℕ
pinned_sessions_on_replica s pod_name =
    length (keep (λ l. str_eq l.replica_pod pod_name) (values s.leases))

-- CountByUser
unfoldable pub count_by_user : SessionStore → String → ℕ
count_by_user s user_id = length (keep (λ l. str_eq l.user_id user_id) (values s.leases))

-- SetGroupID
unfoldable pub set_group_id : String → String → SessionStore → SessionStore
set_group_id cert_fp group_id s = elim (get s.leases cert_fp) [
  | none ↦ s
  | some l ↦ record s { leases = put s.leases cert_fp (record l { group_id = group_id }) }
]

-- The loop of ReapOrphans over the entries of the map: what stays, and the keys that go.
unfoldable pub reap_entries : Time → SessionStore → Map Lease → Map Lease × List String
reap_entries now s [] = ([], [])
reap_entries now s ((fp, l) ∷ m) =
    let (kept, expired) = reap_entries now s m in
    if is_expired now s l then (kept, fp ∷ expired) else ((fp, l) ∷ kept, expired)

-- ReapOrphans
unfoldable pub reap_orphans : Time → SessionStore → SessionStore × List String
unfolding reap_entries
reap_orphans now s =
    let (kept, expired) = reap_entries now s s.leases in (record s { leases = kept }, expired)
