-- ===== src/Limiter/Lockout.antt =====
-- recordFailure, recordSuccess and allow on one key.
use native.Mathlib.Numerals.{towards_suc}
use native.Mathlib.Nat.{pow-suc}
use dagger_kubernetes.Prelude.{
  subst, ◌⊎◌, ℕ, zero, suc, ◌+◌, ◌-◌, ◌*◌, ◌^◌, ◌≤◌, ◌<◌, Bool, true, false, not, ◌≡◌, refl, inl,
  inr, none, some, [], ◌∷◌, String, ltb, eq_iff, eq_refl, arith, Bool-cases, Option-cases,
  if◌then◌else◌,
}
use dagger_kubernetes.Maps.{
  Map, get, remove, get-put, get-remove, IsDistinct, put-IsDistinct, remove-IsDistinct,
}
use dagger_kubernetes.Domain.{Time}
use dagger_kubernetes.Limiter.{
  AttemptInfo, is_stale, sweep_locked, allowed, allow, lockout, failed_again, record_failure,
  evict_oldest_locked, record_success, max_lockout, base_lockout, second, new_info,
}

pow_pos : (t : ℕ) → 1 ≤ 2 ^ t
pow_pos zero = omega arith
pow_pos (suc t) = rw pow-suc (omega (arith, pow_pos t))

pow-five : (t : ℕ) → 32 ≤ 2 ^ (t + 5)
pow-five t = simp towards_suc (omega (arith, pow_pos t))

pow_big : (s : ℕ) → 5 ≤ s → 32 ≤ 2 ^ s
pow_big s h = subst (λ x. 32 ≤ 2 ^ x) (omega arith) (pow-five (s - 5))

-- from the tenth failure on the lockout is the longest
lockout_capped : (n : ℕ) → 10 ≤ n → lockout n ≡ max_lockout
unfolding lockout
lockout_capped n h = ground (arith, pow_big (n - 5), pow_big 16)

lockout_few : (n : ℕ) → n < 5 → lockout n ≡ 0
unfolding lockout
lockout_few n h = ground arith

lockout_doubles : (n : ℕ) → 5 ≤ n → n < 10 → lockout n ≡ base_lockout * 2 ^ (n - 5)
unfolding lockout
lockout_doubles n h k = elim (five_cases n h k) [
  | inl e ↦ rw e
  | inr (inl e) ↦ rw e
  | inr (inr (inl e)) ↦ rw e
  | inr (inr (inr (inl e))) ↦ rw e
  | inr (inr (inr (inr e))) ↦ rw e
]
  where
    five_cases : (n : ℕ) → 5 ≤ n → n < 10 → (n ≡ 5) ⊎ (n ≡ 6) ⊎ (n ≡ 7) ⊎ (n ≡ 8) ⊎ (n ≡ 9)
    five_cases n h k = omega arith

-- The lockout is none below five failures, then doubles from 30 seconds with every failure, and
-- stays at 15 minutes from the tenth on.
pub lockout_schedule :
    (n : ℕ)
    → lockout n
      ≡ (if ltb n 5 then 0 else if ltb n 10 then 30 * second * 2 ^ (n - 5) else 900 * second)
lockout_schedule n = elim (Bool-cases (ltb n 5)) [
  | inl few ↦ ground (arith, lockout_few n)
  | inr more ↦ ground (arith, lockout_doubles n, lockout_capped n)
]

get-sweep_locked :
    (now : Time) (m : Map AttemptInfo) (k : String)
    → IsDistinct m
    → get (sweep_locked now m) k
      ≡ elim (get m k) [ none ↦ none | some info ↦ if is_stale now info then none else some info ]
unfolding sweep_locked get
get-sweep_locked now [] k d = refl
get-sweep_locked now ((j, info) ∷ m) k d =
    ground (arith, eq_iff j k, d.0, get-sweep_locked now m k d.1)

pub sweep_locked-IsDistinct :
    (now : Time) (m : Map AttemptInfo) → IsDistinct m → IsDistinct (sweep_locked now m)
unfolding sweep_locked
sweep_locked-IsDistinct now [] d = tt
sweep_locked-IsDistinct now ((j, info) ∷ m) d = elim (Bool-cases (is_stale now info)) [
  | inl stale ↦ rw (stale, sweep_locked) (sweep_locked-IsDistinct now m d.1)
  | inr kept ↦
      rw (kept, sweep_locked)
        (ground (arith, get-sweep_locked now m j d.1, d.0), sweep_locked-IsDistinct now m d.1)
]

evict_oldest_locked-IsDistinct :
    (m : Map AttemptInfo) → IsDistinct m → IsDistinct (evict_oldest_locked m)
unfolding evict_oldest_locked
evict_oldest_locked-IsDistinct [] d = tt
evict_oldest_locked-IsDistinct ((k, info) ∷ m) d = remove-IsDistinct ((k, info) ∷ m) _ d

room-IsDistinct :
    (b : Bool) (m : Map AttemptInfo)
    → IsDistinct m
    → IsDistinct (if b then evict_oldest_locked m else m)
room-IsDistinct true m d = evict_oldest_locked-IsDistinct m d
room-IsDistinct false m d = d

-- what a failure leaves for its key
module _ (now : Time) (key : String) (m : Map AttemptInfo) where
  recorded :
      (info : AttemptInfo) × (get (record_failure now key m).0 key ≡ some (failed_again now info))
      × ((record_failure now key m).1 ≡ lockout (info.failures + 1))
  unfolding record_failure
  recorded = elim (Option-cases (get (sweep_locked now m) key)) [
    | inr (info, at) ↦
        (info, rw (at, record_failure) (rw get-put (simp eq_refl)), rw (at, record_failure))
    | inl missing ↦ (
      new_info,
      rw (missing, record_failure) (rw get-put (simp eq_refl)),
      rw (missing, record_failure),
    )
  ]

  pub record_failure-IsDistinct : IsDistinct m → IsDistinct (record_failure now key m).0
  unfolding record_failure
  record_failure-IsDistinct d = elim (Option-cases (get (sweep_locked now m) key)) [
    | inr (info, at) ↦
        rw (at, record_failure) (put-IsDistinct _ key _ (sweep_locked-IsDistinct now m d))
    | inl missing ↦
        rw (missing, record_failure)
          (put-IsDistinct _ key _ (room-IsDistinct _ _ (sweep_locked-IsDistinct now m d)))
  ]

  -- In a table where no key stands twice, after a failure that returns a lockout, the key is
  -- refused until the lockout has passed, and allowed from its end on.
  pub record_failure_locks :
      IsDistinct m
      → 0 < (record_failure now key m).1
      → (t : Time)
      → (allow t key (record_failure now key m).0).1
        ≡ not (ltb t (now + (record_failure now key m).1))
  unfolding allow allowed failed_again
  record_failure_locks d locked t =
      let (info, at, lock) = recorded in
      let swept =
        get-sweep_locked t (record_failure now key m).0 key (record_failure-IsDistinct d) in
      ground (arith, swept, at, lock, lockout_few (info.failures + 1))

-- In a table where no key stands twice, a success forgets the key's failures: it is allowed at
-- any time after.
pub record_success_allows :
    (key : String) (m : Map AttemptInfo) (t : Time)
    → IsDistinct m
    → (allow t key (record_success key m)).1 ≡ true
unfolding allow allowed record_success
record_success_allows key m t d = ground (
  arith,
  get-sweep_locked t (remove m key) key (remove-IsDistinct m key d),
  get-remove m key key,
  eq_refl key,
)
