-- ===== src/Maps.antt =====
-- Go's `map[string]V`: a missing key reads as nothing, `delete` of a missing key does nothing, and
-- `for k := range m` visits each entry once (here in order of first insertion, while Go leaves the
-- order open). The operations stay shut: clients use their laws.
pub mod Index
use dagger_kubernetes.Prelude.{
  ℕ, ◌+◌, ◌≤◌, ◌<◌, ◌≡◌, refl, Bool, true, false, ◌||◌, Option, none, some, List, [], ◌∷◌, map,
  String, arith, str_eq, eq_iff, ◌==◌, length, is_some, inl, inr, Bool-cases, All, All-imp, Memᴰ,
  eq_refl, if◌then◌else◌,
}
use mathlib.Core.Option

abbrev pub Map {ℓ} : Type ℓ → Type ℓ
Map V = List (String × V)

abbrev pub elem : String → List String → Bool
elem k [] = false
elem k (j ∷ l) = str_eq j k || elem k l

module _ {ℓ} {V : Type ℓ} where
  -- `make(map[string]V)`
  unfoldable pub empty : Map V
  empty = []

  -- `v, ok := m[k]`
  unfoldable pub get : Map V → String → Option V
  get [] k = none
  get ((j, v) ∷ m) k = if str_eq j k then some v else get m k

  -- `m[k] = v`
  unfoldable pub put : Map V → String → V → Map V
  put [] k v = (k, v) ∷ []
  put ((j, w) ∷ m) k v = if str_eq j k then (k, v) ∷ m else (j, w) ∷ put m k v

  -- `delete(m, k)`
  unfoldable pub remove : Map V → String → Map V
  remove [] k = []
  remove ((j, w) ∷ m) k = let rest = remove m k in if str_eq j k then rest else (j, w) ∷ rest

  -- `len(m)`
  unfoldable pub size : Map V → ℕ
  size m = length m

  -- the keys and the values that `range m` visits
  unfoldable pub keys : Map V → List String
  keys m = map (λ e. e.0) m

  unfoldable pub values : Map V → List V
  values m = map (λ e. e.1) m

  abbrev pub has : Map V → String → Bool
  has m k = is_some (get m k)

  pub get-empty : (k : String) → get empty k ≡ none
  unfolding get empty
  get-empty k = refl

  pub get-put :
      (m : Map V) (k j : String) (v : V)
      → get (put m k v) j ≡ (if str_eq k j then some v else get m j)
  unfolding get put
  get-put [] k j v = refl
  get-put ((i, w) ∷ m) k j v = ground (arith, eq_iff k j, eq_iff i k, eq_iff i j, get-put m k j v)

  pub get-remove :
      (m : Map V) (k j : String) → get (remove m k) j ≡ (if str_eq k j then none else get m j)
  unfolding get remove
  get-remove [] k j = ground arith
  get-remove ((i, w) ∷ m) k j = ground (arith, get-remove m k j, eq_iff i k, eq_iff i j, eq_iff k j)

  -- A map of length 0 has no key.
  pub get_of_size-zero : (m : Map V) (k : String) → (size m == 0) ≡ true → get m k ≡ none
  unfolding get size
  get_of_size-zero [] k h = refl
  get_of_size-zero ((i, w) ∷ m) k h = ground arith

  -- `range` visits exactly the keys that are there.
  pub elem-keys : (m : Map V) (k : String) → elem k (keys m) ≡ has m k
  unfolding get keys
  elem-keys [] k = refl
  elem-keys ((j, v) ∷ m) k = ground (arith, elem-keys m k)

module _ {ℓ} {V : Type ℓ} where
  -- `for k, v := range m { m[k] = f(v) }`
  unfoldable pub map_values : (V → V) → Map V → Map V
  map_values f [] = []
  map_values f ((k, v) ∷ m) = (k, f v) ∷ map_values f m

  pub get-map_values :
      (f : V → V) (m : Map V) (k : String) → get (map_values f m) k ≡ Option.map f (get m k)
  unfolding get map_values
  get-map_values f [] k = refl
  get-map_values f ((j, v) ∷ m) k = ground (arith, get-map_values f m k)

-- No key stands twice: `range` visits each entry once.
abbrev pub IsDistinct {ℓ} : {V : Type ℓ} → Map V → Type 0
IsDistinct [] = Unit
IsDistinct ((k, v) ∷ m) = (has m k ≡ false) × IsDistinct m

module _ {ℓ} {V : Type ℓ} where
  pub put-IsDistinct : (m : Map V) (k : String) (v : V) → IsDistinct m → IsDistinct (put m k v)
  unfolding put get
  put-IsDistinct [] k v d = (refl, tt)
  put-IsDistinct ((j, w) ∷ m) k v d = elim (Bool-cases (str_eq j k)) [
    | inl same ↦ rw (same, put) (ground (arith, eq_iff j k), d.1)
    | inr other ↦
        rw (other, put)
          (ground (arith, get-put m k j v, eq_iff j k, eq_iff k j), put-IsDistinct m k v d.1)
  ]

  pub remove-IsDistinct : (m : Map V) (k : String) → IsDistinct m → IsDistinct (remove m k)
  unfolding remove
  remove-IsDistinct [] k d = tt
  remove-IsDistinct ((j, w) ∷ m) k d = elim (Bool-cases (str_eq j k)) [
    | inl same ↦ rw (same, remove) (remove-IsDistinct m k d.1)
    | inr other ↦ rw (other, remove) (ground (arith, get-remove m k j), remove-IsDistinct m k d.1)
  ]

  pub map_values-IsDistinct : (f : V → V) (m : Map V) → IsDistinct m → IsDistinct (map_values f m)
  unfolding map_values
  map_values-IsDistinct f [] d = tt
  map_values-IsDistinct f ((j, w) ∷ m) d =
      (ground (arith, get-map_values f m j), map_values-IsDistinct f m d.1)

-- how the length changes
module _ {ℓ} {V : Type ℓ} where
  pub size-put : (m : Map V) (k : String) (v : V) → size (put m k v) ≤ size m + 1
  unfolding size put
  size-put [] k v = omega arith
  size-put ((j, w) ∷ m) k v = ground (arith, size-put m k v)

  pub size-put_known : (m : Map V) (k : String) (v : V) → has m k ≡ true → size (put m k v) ≡ size m
  unfolding size put get
  size-put_known [] k v h = cc
  size-put_known ((j, w) ∷ m) k v h = ground (arith, size-put_known m k v)

  pub size-remove : (m : Map V) (k : String) → size (remove m k) ≤ size m
  unfolding size remove
  size-remove [] k = omega arith
  size-remove ((j, w) ∷ m) k = ground (arith, size-remove m k)

  pub size-remove_known : (m : Map V) (k : String) → has m k ≡ true → size (remove m k) < size m
  unfolding size remove get
  size-remove_known [] k h = cc
  size-remove_known ((j, w) ∷ m) k h = ground (arith, size-remove m k, size-remove_known m k)

-- the entries behind `range`
module _ {ℓ} {V : Type ℓ} where
  pub All-values :
      (m : Map V) → IsDistinct m → All (λ v. (k : String) × (get m k ≡ some v)) (values m)
  unfolding values get
  All-values [] d = tt
  All-values ((j, w) ∷ m) d = (
    (j, simp eq_refl),
    All-imp _ _ (λ v (k, e). (k, ground (arith, eq_iff j k))) (values m) (All-values m d.1),
  )

  pub Memᴰ-values : (m : Map V) (k : String) (v : V) → get m k ≡ some v → Memᴰ v (values m)
  unfolding values get
  Memᴰ-values [] k v e = cc
  Memᴰ-values ((j, w) ∷ m) k v e = elim (Bool-cases (str_eq j k)) [
    | inl same ↦ Memᴰ.head (ground arith)
    | inr other ↦ Memᴰ.tail (Memᴰ-values m k v (ground arith))
  ]

pub ruleset map_laws = (get-empty, get-put, get-remove)
