-- ===== src/Maps/Index.antt =====
-- Secondary indices. A table keeps rows by id and a reverse index from a key of the row to its id;
-- a row whose key is `none` stands in no index.
use dagger_kubernetes.Prelude.{
  Bool, true, false, ◌≡◌, refl, ◌⊎◌, inl, inr, Option, none, some, String, arith, str_eq, eq_iff,
  Bool-cases, Option-cases, if◌then◌else◌,
}
use dagger_kubernetes.Maps.{Map, empty, get, get-empty, map_values, get-map_values}

abbrev pub matches : Option String → String → Bool
matches none k = false
matches (some j) k = str_eq j k

abbrev pub key_of : {R : Type 0} → (R → Option String) → Option R → Option String
key_of key none = none
key_of key (some r) = key r

-- Every entry of the index leads to a row with that key, and every row with a key is indexed.
pub record IsIndexed {R : Type 0} (key : R → Option String) (rows : Map R) (idx : Map String)
    : Type 0 where
  pub sound :
      (k id : String) → get idx k ≡ some id → (r : R) × (get rows id ≡ some r) × (key r ≡ some k)
  pub complete :
      (id : String) (r : R) (k : String)
      → get rows id ≡ some r
      → key r ≡ some k
      → get idx k ≡ some id

module _ {R : Type 0} (key : R → Option String) where
  pub IsIndexed-empty : IsIndexed key empty empty
  IsIndexed-empty = record {
    sound = λ k id h. ground (arith, get-empty {V = String} k);
    complete = λ id r k h. ground (arith, get-empty {V = R} id);
  }

matches_self : (ko : Option String) (k : String) → ko ≡ some k → matches ko k ≡ true
matches_self ko k e = ground (arith, eq_iff k k)

eq_of_matches : (ko : Option String) (k : String) → matches ko k ≡ true → ko ≡ some k
eq_of_matches none k h = cc
eq_of_matches (some j) k h = ground (arith, eq_iff j k)

row_of_matches :
    {R : Type 0} (key : R → Option String) (row : Option R) (k : String)
    → matches (key_of key row) k ≡ true
    → (x : R) × (row ≡ some x) × (key x ≡ some k)
row_of_matches key none k h = cc
row_of_matches key (some x) k h = (x, refl, eq_of_matches (key x) k h)

-- One row is inserted, replaced or dropped, and the index follows.
module _ {R : Type 0} (key : R → Option String) (rows rows' : Map R) (idx idx' : Map String)
    (id : String) (row : Option R)
    (rows_eq : (j : String) → get rows' j ≡ (if str_eq id j then row else get rows j))
    (idx_eq : (k : String)
      → get idx' k ≡ (
          if matches (key_of key row) k
          then some id
          else if matches (key_of key (get rows id)) k
          then none
          else get idx k))
    (free : (k : String) → key_of key row ≡ some k → (get idx k ≡ none) ⊎ (get idx k ≡ some id))
    (indexed : IsIndexed key rows idx) where
  sound_other :
      (k i : String)
      → matches (key_of key (get rows id)) k ≡ false
      → get idx k ≡ some i
      → (x : R) × (get rows' i ≡ some x) × (key x ≡ some k)
  sound_other k i old g =
      let (x, at, keyed) = indexed.sound k i g in
      (x, ground (arith, rows_eq i, eq_iff id i, matches_self (key x) k), keyed)

  sound_change :
      (k i : String) → get idx' k ≡ some i → (x : R) × (get rows' i ≡ some x) × (key x ≡ some k)
  sound_change k i g = elim (Bool-cases (matches (key_of key row) k)) [
    | inl new ↦
        let (x, at, keyed) = row_of_matches key row k new in
        (x, ground (arith, rows_eq i, idx_eq k, eq_iff id i), keyed)
    | inr other ↦ elim (Bool-cases (matches (key_of key (get rows id)) k)) [
      | inl old ↦ absurd (ground (arith, idx_eq k))
      | inr not_old ↦ sound_other k i not_old (ground (arith, idx_eq k))
    ]
  ]

  -- an entry of another row is left alone
  unmoved : (i k : String) → get idx k ≡ some i → str_eq id i ≡ false → get idx' k ≡ some i
  unmoved i k g other = elim (Bool-cases (matches (key_of key row) k)) [
    | inl new ↦ absurd (ground (arith, free k, eq_of_matches (key_of key row) k, eq_iff id i))
    | inr not_new ↦ elim (Bool-cases (matches (key_of key (get rows id)) k)) [
      | inl old ↦
          let (x, at, keyed) = row_of_matches key (get rows id) k old in
          absurd (ground (arith, indexed.complete id x k at keyed, eq_iff id i))
      | inr not_old ↦ ground (arith, idx_eq k)
    ]
  ]

  complete_change :
      (i : String) (x : R) (k : String)
      → get rows' i ≡ some x
      → key x ≡ some k
      → get idx' k ≡ some i
  complete_change i x k at keyed = elim (Bool-cases (str_eq id i)) [
    | inl same ↦
        let here : row ≡ some x = ground (arith, rows_eq i) in
        let e : key_of key row ≡ some k = rw here keyed in
        ground (arith, idx_eq k, eq_iff id i, matches_self (key_of key row) k)
    | inr other ↦
        let before : get rows i ≡ some x = ground (arith, rows_eq i) in
        let at_k : get idx k ≡ some i = indexed.complete i x k before keyed in
        unmoved i k at_k other
  ]

  pub IsIndexed-change : IsIndexed key rows' idx'
  IsIndexed-change = record { sound = sound_change; complete = complete_change }

-- Rewriting every row in place, by a function that keeps the keys, keeps the index exact.
module _ {R : Type 0} (key : R → Option String) (f : R → R)
    (same : (r : R) → key (f r) ≡ key r) where
  pub IsIndexed-map_values :
      (rows : Map R) (idx : Map String)
      → IsIndexed key rows idx
      → IsIndexed key (map_values f rows) idx
  IsIndexed-map_values rows idx h = record {
    sound = λ k id g.
        let (r, at, keyed) = h.sound k id g in
        (f r, ground (arith, get-map_values f rows id), ground (arith, same r));
    complete = λ id r k at keyed. elim (Option-cases (get rows id)) [
      | inl missing ↦ absurd (ground (arith, get-map_values f rows id))
      | inr (old, e) ↦ h.complete id old k e (ground (arith, get-map_values f rows id, same old))
    ];
  }
