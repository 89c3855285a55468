-- ===== src/Quota/Usage.antt =====
-- What usageSnapshot counts.
use dagger_kubernetes.Prelude.{
  ℕ, ◌+◌, Bool, true, false, ◌≡◌, ◌⊎◌, inl, inr, refl, List, [], ◌∷◌, String, str_eq, eq_iff, arith,
  if◌then◌else◌,
}
use dagger_kubernetes.Maps.{Map, empty, get, get-put}
use dagger_kubernetes.Domain.{Lease, Error, ok, err, nil_dereference}
use dagger_kubernetes.Quota.{
  GroupRepository, value_at, add_at, count_leases, add_users, add_groups, usage_snapshot,
}

-- how many leases a user has; a lease with no user counts for nobody
abbrev pub leases_of : List Lease → String → ℕ
leases_of [] uid = 0
leases_of (l ∷ ls) uid =
    (if str_eq l.user_id "" then 0 else if str_eq l.user_id uid then 1 else 0) + leases_of ls uid

-- how many leases the users of a list have together
abbrev pub leases_of_all : List Lease → List String → ℕ
leases_of_all ls [] = 0
leases_of_all ls (uid ∷ uids) = leases_of ls uid + leases_of_all ls uids

-- how many leases the members of a group have together
abbrev pub leases_of_group : List Lease → List (String × List String) → String → ℕ
leases_of_group ls [] gid = 0
leases_of_group ls ((g, uids) ∷ ms) gid =
    (if str_eq g gid then leases_of_all ls uids else 0) + leases_of_group ls ms gid

value_at-add_at :
    (m : Map ℕ) (k j : String) (n : ℕ)
    → value_at (add_at m k n) j ≡ value_at m j + (if str_eq k j then n else 0)
value_at-add_at m k j n = ground (arith, get-put m k j (value_at m k + n), eq_iff k j)

one_more :
    (b : Bool) (m : Map ℕ) (k uid : String)
    → value_at (if b then m else add_at m k 1) uid
      ≡ value_at m uid + (if b then 0 else if str_eq k uid then 1 else 0)
one_more true m k uid = omega arith
one_more false m k uid = value_at-add_at m k uid 1

value_at-count_leases :
    (ls : List Lease) (m : Map ℕ) (uid : String)
    → value_at (count_leases ls m) uid ≡ value_at m uid + leases_of ls uid
unfolding count_leases
value_at-count_leases [] m uid = omega arith
value_at-count_leases (l ∷ ls) m uid = omega (
  arith,
  value_at-count_leases ls (if str_eq l.user_id "" then m else add_at m l.user_id 1) uid,
  one_more (str_eq l.user_id "") m l.user_id uid,
)

value_at-empty : (k : String) → value_at empty k ≡ 0
unfolding empty get
value_at-empty k = refl

module _ (ls : List Lease) where
  per_user : (uid : String) → value_at (count_leases ls empty) uid ≡ leases_of ls uid
  per_user uid = omega (arith, value_at-count_leases ls empty uid, value_at-empty uid)

  value_at-add_users :
      (gid : String) (uids : List String) (out : Map ℕ) (g : String)
      → value_at (add_users (count_leases ls empty) gid uids out) g
        ≡ value_at out g + (if str_eq gid g then leases_of_all ls uids else 0)
  unfolding add_users
  value_at-add_users gid [] out g = ground arith
  value_at-add_users gid (uid ∷ uids) out g =
      let n = value_at (count_leases ls empty) uid in
      ground (
        arith,
        value_at-add_users gid uids (add_at out gid n) g,
        value_at-add_at out gid g n,
        per_user uid,
      )

  value_at-add_groups :
      (ms : List (String × List String)) (out : Map ℕ) (g : String)
      → value_at (add_groups (count_leases ls empty) ms out) g
        ≡ value_at out g + leases_of_group ls ms g
  unfolding add_groups
  value_at-add_groups [] out g = omega arith
  value_at-add_groups ((gid, uids) ∷ ms) out g = omega (
    arith,
    value_at-add_groups ms (add_users (count_leases ls empty) gid uids out) g,
    value_at-add_users gid uids out g,
  )

  -- Where the memberships cannot be read, nothing is in use.
  pub usage_snapshot_unread :
      (repo : GroupRepository) (g : String)
      → ((e : Error) × (repo.all_memberships ≡ err e)) ⊎ (repo.all_memberships ≡ nil_dereference)
      → value_at (usage_snapshot repo ls) g ≡ 0
  unfolding usage_snapshot
  usage_snapshot_unread repo g (inl (x, e)) = rw e (value_at-empty g)
  usage_snapshot_unread repo g (inr e) = rw e (value_at-empty g)

  -- Where the memberships can be read, the usage of a group is the number of leases that its
  -- members have together, and a lease with no user counts for no group.
  pub usage_snapshot_exact :
      (repo : GroupRepository) (ms : List (String × List String)) (g : String)
      → repo.all_memberships ≡ ok ms
      → value_at (usage_snapshot repo ls) g ≡ leases_of_group ls ms g
  unfolding usage_snapshot
  usage_snapshot_exact repo ms g e =
      rw e (omega (arith, value_at-add_groups ms empty g, value_at-empty g))
