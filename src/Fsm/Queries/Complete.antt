-- ===== src/Fsm/Queries/Complete.antt =====
-- What listTraces leaves out, and why.
use dagger_kubernetes.Prelude.{
  ℕ, zero, suc, ◌≤◌, true, ◌≡◌, ◌⊎◌, inl, inr, refl, ap, some, List, [], ◌∷◌, map, String, ltb,
  arith, Bool-cases, length, take, All, All-imp, All-Memᴰ, IsSorted, Memᴰ, Memᴰ-sort_by, Memᴰ-keep,
}
use dagger_kubernetes.Maps.{get, Memᴰ-values}
use dagger_kubernetes.Domain.{TraceMeta, TraceFilter}
use dagger_kubernetes.Fsm.State.{FsmState}
use dagger_kubernetes.Fsm.Queries.{
  trace_sort_key, clamp_limit, trace_matches, joined, text_matches, matching_traces, list_traces,
}
use dagger_kubernetes.Fsm.Queries.Listed.{matching_sorted}
use dagger_kubernetes.Fsm.Invariant.{WellFormed}

Memᴰ-map : {A B : Type 0} (f : A → B) (a : A) (xs : List A) → Memᴰ a xs → Memᴰ (f a) (map f xs)
Memᴰ-map f a [] m = elim m [ ]
Memᴰ-map f a (x ∷ xs) (Memᴰ.head same) = Memᴰ.head (ap f same)
Memᴰ-map f a (x ∷ xs) (Memᴰ.tail m) = Memᴰ.tail (Memᴰ-map f a xs m)

-- what a prefix of a sorted list leaves out comes after all of the prefix
take-cut :
    {A : Type 0} (R : A → A → Type 0) (n : ℕ) (a : A) (xs : List A)
    → IsSorted R xs
    → Memᴰ a xs
    → Memᴰ a (take n xs) ⊎ ((length (take n xs) ≡ n) × All (λ x. R x a) (take n xs))
take-cut R n a [] h m = elim m [ ]
take-cut R zero a (x ∷ xs) h m = inr (refl, tt)
take-cut R (suc n) a (x ∷ xs) h (Memᴰ.head same) = inl (Memᴰ.head same)
take-cut R (suc n) a (x ∷ xs) h (Memᴰ.tail m) = elim (take-cut R n a xs h.1 m) [
  | inl there ↦ inl (Memᴰ.tail there)
  | inr (full, before) ↦ inr (omega (arith, full), (All-Memᴰ (R x) a xs h.0 m, before))
]

module _ (lower : String → String) (f : TraceFilter) (s : FsmState) (w : WellFormed lower s) where
  matching_complete :
      (id : String) (m : TraceMeta)
      → get s.traces id ≡ some m
      → trace_matches f m ≡ true
      → text_matches lower f (joined lower s m) ≡ true
      → Memᴰ (joined lower s m) (matching_traces lower f s)
  unfolding matching_traces
  matching_complete id m at matches text = Memᴰ-sort_by _ _ _ (
      Memᴰ-keep _ _ _
        (Memᴰ-map (joined lower s) m _ (Memᴰ-keep _ m _ (Memᴰ-values s.traces id m at) matches))
        text)

  joined_key : (m : TraceMeta) → trace_sort_key (joined lower s m).trace ≡ trace_sort_key m
  unfolding trace_sort_key joined
  joined_key m = ground arith

  -- A trace of a well-formed replica that the filters admit is listed, or the listing has as many
  -- rows as the limit allows and none of them is older than the trace.
  pub list_traces_complete :
      (id : String) (m : TraceMeta)
      → get s.traces id ≡ some m
      → trace_matches f m ≡ true
      → text_matches lower f (joined lower s m) ≡ true
      → Memᴰ (joined lower s m) (list_traces lower f s)
        ⊎ ((length (list_traces lower f s) ≡ clamp_limit f.limit)
            × All (λ r. trace_sort_key m ≤ trace_sort_key r.trace) (list_traces lower f s))
  unfolding list_traces
  list_traces_complete id m at matches text =
      let there = matching_complete id m at matches text in
      elim (Bool-cases (ltb (clamp_limit f.limit) (length (matching_traces lower f s)))) [
        | inr whole ↦ rw (whole, list_traces) (inl there)
        | inl cut ↦
            rw (cut, list_traces)
              (elim (take-cut _ (clamp_limit f.limit) _ _ (matching_sorted lower f s w) there) [
                | inl kept ↦ inl kept
                | inr (full, newer) ↦
                    inr (full, All-imp _ _ (λ r h. omega (arith, h, joined_key m)) _ newer)
              ])
      ]
