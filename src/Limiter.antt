-- ===== src/Limiter.antt =====
-- attemptLimiter of internal/handler/ratelimit.go. Times and durations are in nanoseconds, as in
-- Go; a method takes the time that `l.now()` gives it and returns the new table.
pub mod Lockout
pub mod Capacity
use dagger_kubernetes.Prelude.{
  ℕ, zero, suc, ◌+◌, ◌-◌, ◌*◌, ◌^◌, Bool, true, false, not, ◌&&◌, ◌||◌, Option, none, some, List,
  [], ◌∷◌, String, ltb, leb, if◌then◌else◌,
}
use dagger_kubernetes.Maps.{Map, empty, get, put, remove, size}
use dagger_kubernetes.Domain.{Time, zero_time}

abbrev pub second : ℕ
second = 1000000000

abbrev pub max_failed_attempts : ℕ
max_failed_attempts = 5

abbrev pub base_lockout : ℕ
base_lockout = 30 * second

abbrev pub max_lockout : ℕ
max_lockout = 15 * 60 * second

abbrev pub limiter_entry_ttl : ℕ
limiter_entry_ttl = 30 * 60 * second

abbrev pub max_limiter_entries : ℕ
max_limiter_entries = 4096

abbrev pub max_lockout_shift : ℕ
max_lockout_shift = 16

pub record AttemptInfo : Type 0 where
  pub failures : ℕ
  pub locked_until : Time
  pub last_seen : Time

-- newAttemptLimiter
unfoldable pub new_attempt_limiter : Map AttemptInfo
new_attempt_limiter = empty

-- the condition of sweepLocked: idle for long, and no longer locked
abbrev pub is_stale : Time → AttemptInfo → Bool
is_stale now info = ltb limiter_entry_ttl (now - info.last_seen) && not (ltb now info.locked_until)

-- sweepLocked
unfoldable pub sweep_locked : Time → Map AttemptInfo → Map AttemptInfo
sweep_locked now [] = []
sweep_locked now ((k, info) ∷ m) =
    let rest = sweep_locked now m in if is_stale now info then rest else (k, info) ∷ rest

-- allow, after its sweep: not before the end of the lockout, if there is an entry
unfoldable pub allowed : Time → Option AttemptInfo → Bool
allowed now none = true
allowed now (some info) = not (ltb now info.locked_until)

-- allow
unfoldable pub allow : Time → String → Map AttemptInfo → Map AttemptInfo × Bool
allow now key attempts =
    let swept = sweep_locked now attempts in (swept, allowed now (get swept key))

-- the loop of evictOldestLocked over the entries behind the first
unfoldable pub oldest_entry : String → Time → Map AttemptInfo → String
oldest_entry key seen [] = key
oldest_entry key seen ((k, info) ∷ m) =
    let earlier = ltb info.last_seen seen in
    oldest_entry (if earlier then k else key) (if earlier then info.last_seen else seen) m

-- evictOldestLocked
unfoldable pub evict_oldest_locked : Map AttemptInfo → Map AttemptInfo
unfolding oldest_entry
evict_oldest_locked [] = []
evict_oldest_locked ((k, info) ∷ m) = remove ((k, info) ∷ m) (oldest_entry k info.last_seen m)

-- the lockout after so many failures
unfoldable pub lockout : ℕ → ℕ
lockout failures =
    if ltb failures max_failed_attempts
    then 0
    else (let shift =
          if ltb max_lockout_shift (failures - max_failed_attempts)
          then max_lockout_shift
          else failures - max_failed_attempts in
        let lock = base_lockout * 2 ^ shift in if ltb max_lockout lock then max_lockout else lock)

-- the entry after one more failure at `now`; no lockout leaves the old end in place
unfoldable pub failed_again : Time → AttemptInfo → AttemptInfo
unfolding lockout
failed_again now info = record {
  failures = info.failures + 1;
  last_seen = now;
  locked_until =
      if ltb (info.failures + 1) max_failed_attempts
      then info.locked_until
      else now + lockout (info.failures + 1);
}

-- `&attemptInfo{}`
abbrev pub new_info : AttemptInfo
new_info = record { failures = 0; locked_until = zero_time; last_seen = zero_time }

-- recordFailure
unfoldable pub record_failure : Time → String → Map AttemptInfo → Map AttemptInfo × ℕ
record_failure now key attempts =
    let swept = sweep_locked now attempts in
    elim (get swept key) [
      | some info ↦ (put swept key (failed_again now info), lockout (info.failures + 1))
      | none ↦ (
        put (if leb max_limiter_entries (size swept) then evict_oldest_locked swept else swept) key
            (failed_again now new_info),
        lockout 1,
      )
    ]

-- recordSuccess
unfoldable pub record_success : String → Map AttemptInfo → Map AttemptInfo
record_success key attempts = remove attempts key
