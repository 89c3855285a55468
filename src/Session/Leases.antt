-- ===== src/Session/Leases.antt =====
-- The lease of one client: registration, activity, expiry and the in-flight count.
use dagger_kubernetes.Prelude.{
  ◌+◌, ◌-◌, ◌≡◌, ◌≢◌, ◌⊎◌, inl, inr, refl, Option, none, some, String, eq_iff, eq_refl, arith, ltb,
  Option-cases, if◌then◌else◌,
}
use dagger_kubernetes.Maps.{get, put, get-put}
use dagger_kubernetes.Domain.{Time, Lease, Result, ok, err, lease_not_found, lease_expired}
use dagger_kubernetes.Session.Store.{
  SessionStore, register, lease, get_lease, touch, inc_in_flight, dec_in_flight_and_get,
}

-- what a reader at `now` gets for a stored lease, or for none
abbrev pub answer : Time → SessionStore → Option Lease → Result Lease
answer now s none = err lease_not_found
answer now s (some l) = if ltb s.ttl (now - l.last_activity) then err lease_expired else ok l

module _ (s : SessionStore) (fp : String) where
  get_lease-answer : (now : Time) → get_lease now s fp ≡ answer now s (get s.leases fp)
  unfolding get_lease lease
  get_lease-answer now = ground arith

  -- A registered lease is there until more than the TTL has passed since its registration, and
  -- every other client reads as before.
  pub get-register :
      (now later : Time) (version pod inst trace user other : String)
      → let (s', l) = register now fp version pod inst trace user s in
        (get_lease later s' fp ≡ (if ltb s.ttl (later - now) then err lease_expired else ok l))
        × (l.in_flight ≡ 0)
        × (fp ≢ other → get_lease later s' other ≡ get_lease later s other)
  unfolding register get_lease lease
  get-register now later version pod inst trace user other =
      let l = (register now fp version pod inst trace user s).1 in
      (
        ground (arith, get-put s.leases fp fp l, eq_refl fp),
        refl,
        λ ne. ground (arith, get-put s.leases fp other l, eq_iff fp other),
      )

  -- A touch of a known client renews its lease for the TTL and changes nothing else of it; of an
  -- unknown one it is refused and changes nothing.
  pub get-touch :
      (now later : Time)
      → ((get s.leases fp ≡ none) × (touch now fp s ≡ (s, err lease_not_found)))
        ⊎ ((l : Lease) × (get s.leases fp ≡ some l)
            × ((touch now fp s).1 ≡ ok tt)
            × (get_lease later (touch now fp s).0 fp ≡ (
                if ltb s.ttl (later - now)
                then err lease_expired
                else ok (record l { last_activity = now }))))
  unfolding touch get_lease lease
  get-touch now later = elim (Option-cases (get s.leases fp)) [
    | inl missing ↦ inl (missing, rw (missing, touch))
    | inr (l, at) ↦
        let l' : Lease = record l { last_activity = now } in
        inr (
          l,
          at,
          rw (at, touch),
          rw (at, touch) (ground (arith, get-put s.leases fp fp l', eq_refl fp)),
        )
  ]

  -- An increment and a decrement cancel, and a decrement of a count of 0 leaves it at 0.
  pub dec-inc :
      (l : Lease)
      → get s.leases fp ≡ some l
      → ((inc_in_flight fp s).1 ≡ ok tt)
        × ((dec_in_flight_and_get fp (inc_in_flight fp s).0).1 ≡ ok l.in_flight)
        × (get (dec_in_flight_and_get fp (inc_in_flight fp s).0).0.leases fp ≡ some l)
        × (l.in_flight ≡ 0 → (dec_in_flight_and_get fp s).1 ≡ ok 0)
  unfolding inc_in_flight dec_in_flight_and_get
  dec-inc l at =
      let l' : Lease = record l { in_flight = l.in_flight + 1 } in
      (
        rw (at, inc_in_flight),
        rw (at, inc_in_flight) (rw (here l', dec_in_flight_and_get) (ground arith)),
        rw (at, inc_in_flight)
            (rw (here l', dec_in_flight_and_get)
              (ground (
                arith,
                get-put (put s.leases fp l') fp fp (record l {
                  in_flight =
                      if ltb 0 (l.in_flight + 1) then l.in_flight + 1 - 1 else l.in_flight + 1;
                }),
                eq_refl fp,
              ))),
        λ z. rw (at, dec_in_flight_and_get) (ground arith),
      )
    where
      here : (x : Lease) → get (put s.leases fp x) fp ≡ some x
      here x = ground (arith, get-put s.leases fp fp x, eq_refl fp)
