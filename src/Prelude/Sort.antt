-- ===== src/Prelude/Sort.antt =====
-- `sort.Slice`: the elements in the order of a comparison. Elements that the comparison does not
-- tell apart may come in any order in Go; here they keep theirs.
use Prim.Native.Nat.{ℕ, zero, suc}
use mathlib.Core.Path.{◌≡◌, refl}
use mathlib.Core.Bool.{Bool, true, false}
use mathlib.Core.List.{List, [], ◌∷◌, Memᴰ}
use mathlib.Core.Logic.{inl, inr}
use dagger_kubernetes.Prelude.Tests.{if◌then◌else◌, Bool-cases}
use dagger_kubernetes.Prelude.Lists.{All, keep, take}

module _ {ℓ} {A : Type ℓ} where
  unfoldable pub insert_by : (A → A → Bool) → A → List A → List A
  insert_by before x [] = x ∷ []
  insert_by before x (y ∷ ys) =
      let rest = insert_by before x ys in if before x y then x ∷ y ∷ ys else y ∷ rest

  unfoldable pub sort_by : (A → A → Bool) → List A → List A
  sort_by before [] = []
  sort_by before (x ∷ xs) = insert_by before x (sort_by before xs)

  -- every element stands in the relation to all after it
  abbrev pub IsSorted {κ} : (A → A → Type κ) → List A → Type κ
  IsSorted R [] = Unit
  IsSorted R (x ∷ xs) = All (R x) xs × IsSorted R xs

  module _ {κ} (P : A → Type κ) where
    pub All-imp : (Q : A → Type κ) → ((x : A) → P x → Q x) → (xs : List A) → All P xs → All Q xs
    All-imp Q f [] h = tt
    All-imp Q f (x ∷ xs) h = (f x h.0, All-imp Q f xs h.1)

    All-insert_by :
        (before : A → A → Bool) (x : A) (xs : List A)
        → P x
        → All P xs
        → All P (insert_by before x xs)
    unfolding insert_by
    All-insert_by before x [] px h = (px, tt)
    All-insert_by before x (y ∷ ys) px h = elim (Bool-cases (before x y)) [
      | inl e ↦ rw e (px, (h.0, h.1))
      | inr e ↦ rw e (h.0, All-insert_by before x ys px h.1)
    ]

    pub All-sort_by : (before : A → A → Bool) (xs : List A) → All P xs → All P (sort_by before xs)
    unfolding sort_by
    All-sort_by before [] h = tt
    All-sort_by before (x ∷ xs) h =
        All-insert_by before x (sort_by before xs) h.0 (All-sort_by before xs h.1)

    pub All-take : (n : ℕ) (xs : List A) → All P xs → All P (take n xs)
    All-take zero xs h = tt
    All-take (suc n) [] h = tt
    All-take (suc n) (x ∷ xs) h = (h.0, All-take n xs h.1)

    pub All-Memᴰ : (a : A) (xs : List A) → All P xs → Memᴰ a xs → P a
    All-Memᴰ a [] h m = elim m [ ]
    All-Memᴰ a (x ∷ xs) h (Memᴰ.head same) = rw same h.0
    All-Memᴰ a (x ∷ xs) h (Memᴰ.tail m) = All-Memᴰ a xs h.1 m

    pub All-keep :
        (p : A → Bool) (xs : List A) → All P xs → All (λ x. P x × (p x ≡ true)) (keep p xs)
    unfolding keep
    All-keep p [] h = tt
    All-keep p (x ∷ xs) h = elim (Bool-cases (p x)) [
      | inl e ↦ rw (e, keep) ((h.0, e), All-keep p xs h.1)
      | inr e ↦ rw (e, keep) (All-keep p xs h.1)
    ]

  module _ (R : A → A → Type 0) (before : A → A → Bool)
      (trans : (x y z : A) → R x y → R y z → R x z) (first : (x y : A) → before x y ≡ true → R x y)
      (second : (x y : A) → before x y ≡ false → R y x) where
    insert_by-IsSorted : (x : A) (xs : List A) → IsSorted R xs → IsSorted R (insert_by before x xs)
    unfolding insert_by
    insert_by-IsSorted x [] h = (tt, tt)
    insert_by-IsSorted x (y ∷ ys) h = elim (Bool-cases (before x y)) [
      | inl e ↦ rw e ((first x y e, All-imp (R y) (R x) (λ z. trans x y z (first x y e)) ys h.0), h)
      | inr e ↦
          rw e (All-insert_by (R y) before x ys (second x y e) h.0, insert_by-IsSorted x ys h.1)
    ]

    pub sort_by-IsSorted : (xs : List A) → IsSorted R (sort_by before xs)
    unfolding sort_by
    sort_by-IsSorted [] = tt
    sort_by-IsSorted (x ∷ xs) = insert_by-IsSorted x (sort_by before xs) (sort_by-IsSorted xs)

  pub take-IsSorted :
      (R : A → A → Type 0) (n : ℕ) (xs : List A) → IsSorted R xs → IsSorted R (take n xs)
  take-IsSorted R zero xs h = tt
  take-IsSorted R (suc n) [] h = tt
  take-IsSorted R (suc n) (x ∷ xs) h = (All-take (R x) n xs h.0, take-IsSorted R n xs h.1)

  Memᴰ-insert_by_self :
      (before : A → A → Bool) (x : A) (xs : List A) → Memᴰ x (insert_by before x xs)
  unfolding insert_by
  Memᴰ-insert_by_self before x [] = Memᴰ.head refl
  Memᴰ-insert_by_self before x (y ∷ ys) = elim (Bool-cases (before x y)) [
    | inl e ↦ rw e (Memᴰ.head refl)
    | inr e ↦ rw e (Memᴰ.tail (Memᴰ-insert_by_self before x ys))
  ]

  Memᴰ-insert_by :
      (before : A → A → Bool) (x a : A) (xs : List A) → Memᴰ a xs → Memᴰ a (insert_by before x xs)
  unfolding insert_by
  Memᴰ-insert_by before x a [] m = elim m [ ]
  Memᴰ-insert_by before x a (y ∷ ys) (Memᴰ.head same) = elim (Bool-cases (before x y)) [
    | inl e ↦ rw e (Memᴰ.tail (Memᴰ.head same))
    | inr e ↦ rw e (Memᴰ.head same)
  ]
  Memᴰ-insert_by before x a (y ∷ ys) (Memᴰ.tail m) = elim (Bool-cases (before x y)) [
    | inl e ↦ rw e (Memᴰ.tail (Memᴰ.tail m))
    | inr e ↦ rw e (Memᴰ.tail (Memᴰ-insert_by before x a ys m))
  ]

  pub Memᴰ-sort_by :
      (before : A → A → Bool) (a : A) (xs : List A) → Memᴰ a xs → Memᴰ a (sort_by before xs)
  unfolding sort_by
  Memᴰ-sort_by before a [] m = elim m [ ]
  Memᴰ-sort_by before a (x ∷ xs) (Memᴰ.head same) =
      rw same (Memᴰ-insert_by_self before x (sort_by before xs))
  Memᴰ-sort_by before a (x ∷ xs) (Memᴰ.tail m) =
      Memᴰ-insert_by before x a (sort_by before xs) (Memᴰ-sort_by before a xs m)

  pub Memᴰ-keep : (p : A → Bool) (a : A) (xs : List A) → Memᴰ a xs → p a ≡ true → Memᴰ a (keep p xs)
  unfolding keep
  Memᴰ-keep p a [] m e = elim m [ ]
  Memᴰ-keep p a (x ∷ xs) (Memᴰ.head same) e = rw (← same) (rw (e, keep) (Memᴰ.head refl))
  Memᴰ-keep p a (x ∷ xs) (Memᴰ.tail m) e = elim (Bool-cases (p x)) [
    | inl q ↦ rw (q, keep) (Memᴰ.tail (Memᴰ-keep p a xs m e))
    | inr q ↦ rw (q, keep) (Memᴰ-keep p a xs m e)
  ]
