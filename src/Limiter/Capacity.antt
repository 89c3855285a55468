-- ===== src/Limiter/Capacity.antt =====
-- The size of the table under recordFailure, sweepLocked and evictOldestLocked.
use dagger_kubernetes.Prelude.{
  ◌≤◌, ◌<◌, true, false, ◌≡◌, subst, sym, refl, inl, inr, List, [], ◌∷◌, String, ltb, leb, eq_refl,
  arith, Bool-cases, Option-cases, leb-true, leb-false,
}
use dagger_kubernetes.Maps.{
  Map, get, size, elem, keys, elem-keys, size-put, size-put_known, size-remove_known,
}
use dagger_kubernetes.Domain.{Time}
use dagger_kubernetes.Limiter.{
  AttemptInfo, sweep_locked, oldest_entry, evict_oldest_locked, max_limiter_entries, record_failure,
  failed_again, new_info,
}

size-sweep_locked : (now : Time) (m : Map AttemptInfo) → size (sweep_locked now m) ≤ size m
unfolding size sweep_locked
size-sweep_locked now [] = omega arith
size-sweep_locked now ((k, info) ∷ m) = ground (arith, size-sweep_locked now m)

oldest_entry-earlier :
    (key k : String) (seen : Time) (info : AttemptInfo) (m : Map AttemptInfo)
    → ltb info.last_seen seen ≡ true
    → oldest_entry key seen ((k, info) ∷ m) ≡ oldest_entry k info.last_seen m
unfolding oldest_entry
oldest_entry-earlier key k seen info m e = rw e refl

oldest_entry-later :
    (key k : String) (seen : Time) (info : AttemptInfo) (m : Map AttemptInfo)
    → ltb info.last_seen seen ≡ false
    → oldest_entry key seen ((k, info) ∷ m) ≡ oldest_entry key seen m
unfolding oldest_entry
oldest_entry-later key k seen info m e = rw e refl

elem-behind : (x key : String) (ks : List String) → elem x ks ≡ true → elem x (key ∷ ks) ≡ true
elem-behind x key ks h = ground (arith, h)

elem-beside :
    (x key k : String) (ks : List String) → elem x (key ∷ ks) ≡ true → elem x (key ∷ k ∷ ks) ≡ true
elem-beside x key k ks h = ground (arith, h)

-- the key that is evicted is one of the table's
oldest_entry-elem :
    (key : String) (seen : Time) (m : Map AttemptInfo)
    → elem (oldest_entry key seen m) (key ∷ keys m) ≡ true
unfolding keys
oldest_entry-elem key seen [] = unfold oldest_entry keys in simp eq_refl
oldest_entry-elem key seen ((k, info) ∷ m) = elim (Bool-cases (ltb info.last_seen seen)) [
  | inl e ↦
      subst (λ x. elem x (key ∷ keys ((k, info) ∷ m)) ≡ true)
        (sym (oldest_entry-earlier key k seen info m e))
        (elem-behind _ key (k ∷ keys m) (oldest_entry-elem k info.last_seen m))
  | inr e ↦
      subst (λ x. elem x (key ∷ keys ((k, info) ∷ m)) ≡ true)
        (sym (oldest_entry-later key k seen info m e))
        (elem-beside _ key k (keys m) (oldest_entry-elem key seen m))
]

evict_makes_room : (m : Map AttemptInfo) → 0 < size m → size (evict_oldest_locked m) < size m
unfolding evict_oldest_locked size
evict_makes_room [] h = omega arith
evict_makes_room ((k, info) ∷ m) h =
    unfold size in
    size-remove_known ((k, info) ∷ m) (oldest_entry k info.last_seen m)
      (unfold keys in rw (← elem-keys) (oldest_entry-elem k info.last_seen m))

-- A failure of any key keeps a table of at most 4096 entries within 4096 entries.
pub record_failure_bounded :
    (now : Time) (key : String) (m : Map AttemptInfo)
    → size m ≤ max_limiter_entries
    → size (record_failure now key m).0 ≤ max_limiter_entries
unfolding record_failure
record_failure_bounded now key m h = elim (Option-cases (get (sweep_locked now m) key)) [
  | inr (info, at) ↦
      rw (at, record_failure)
        (omega (
          arith,
          size-sweep_locked now m,
          size-put_known (sweep_locked now m) key (failed_again now info) (rw at refl),
        ))
  | inl missing ↦ elim (Bool-cases (leb max_limiter_entries (size (sweep_locked now m)))) [
    | inl full ↦
        rw (missing, full, record_failure)
          (omega (
            arith,
            leb-true _ _ full,
            size-sweep_locked now m,
            evict_makes_room (sweep_locked now m),
            size-put (evict_oldest_locked (sweep_locked now m)) key (failed_again now new_info),
          ))
    | inr room ↦
        rw (missing, room, record_failure)
          (omega (
            arith,
            leb-false _ _ room,
            size-put (sweep_locked now m) key (failed_again now new_info),
          ))
  ]
]
