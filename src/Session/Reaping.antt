-- ===== src/Session/Reaping.antt =====
-- ReapOrphans of internal/service/session.go.
use dagger_kubernetes.Prelude.{
  ◌-◌, Bool, false, ◌≡◌, refl, Option, none, some, [], ◌∷◌, String, eq_iff, arith, ltb,
  if◌then◌else◌,
}
use dagger_kubernetes.Maps.{Map, get, IsDistinct, elem}
use dagger_kubernetes.Domain.{Time, Lease, ok, err, lease_not_found}
use dagger_kubernetes.Session.Store.{
  SessionStore, lease, get_lease, is_expired, reap_entries, reap_orphans,
}

-- what the sweep leaves of an entry, and whether it reports it
abbrev survivor : Time → SessionStore → Option Lease → Option Lease
survivor now s none = none
survivor now s (some l) = if is_expired now s l then none else some l

abbrev reported : Time → SessionStore → Option Lease → Bool
reported now s none = false
reported now s (some l) = is_expired now s l

get-reap_entries :
    (now : Time) (s : SessionStore) (m : Map Lease) (k : String)
    → IsDistinct m
    → (get (reap_entries now s m).0 k ≡ survivor now s (get m k))
      × (elem k (reap_entries now s m).1 ≡ reported now s (get m k))
unfolding reap_entries get
get-reap_entries now s [] k d = (refl, refl)
get-reap_entries now s ((j, l) ∷ m) k d =
    let (kept, gone) = get-reap_entries now s m k d.1 in
    (ground (arith, eq_iff j k, d.0, kept, gone), ground (arith, eq_iff j k, d.0, kept, gone))

-- Of a store where no key stands twice, the sweep drops and reports exactly the leases that are
-- idle for more than the TTL; a lease that a client could still use is kept as it is, and every
-- lease that is left can be used.
pub reap_orphans_exact :
    (now : Time) (s : SessionStore) (fp : String)
    → IsDistinct s.leases
    → (elem fp (reap_orphans now s).1
        ≡ (elim (get s.leases fp) [ none ↦ false | some l ↦ ltb s.ttl (now - l.last_activity) ]))
      × (get_lease now (reap_orphans now s).0 fp ≡ (elim (get s.leases fp) [
        | none ↦ err lease_not_found
        | some l ↦ if ltb s.ttl (now - l.last_activity) then err lease_not_found else ok l
      ]))
unfolding reap_orphans get_lease lease
reap_orphans_exact now s fp d =
    let (kept, gone) = get-reap_entries now s s.leases fp d in
    (ground (arith, gone), ground (arith, kept, gone))
