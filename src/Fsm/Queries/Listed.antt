-- ===== src/Fsm/Queries/Listed.antt =====
-- What listTraces returns.
use dagger_kubernetes.Prelude.{
  ℤ, pos, negsuc, ◌≤◌, true, ◌≡◌, ◌≢◌, ◌⊎◌, inl, inr, refl, some, List, [], ◌∷◌, map, String, arith,
  ltb, Bool-cases, length, All, All-imp, All-sort_by, All-keep, All-take, IsSorted,
  sort_by-IsSorted, take-IsSorted, length-take-le,
}
use dagger_kubernetes.Maps.{get, values}
use dagger_kubernetes.Domain.{TraceMeta, TraceListResult, TraceFilter}
use dagger_kubernetes.Fsm.State.{FsmState}
use dagger_kubernetes.Fsm.Queries.{
  trace_sort_key, clamp_limit, in_groups, trace_matches, joined, text_matches, matching_traces,
  list_traces,
}
use dagger_kubernetes.Fsm.Queries.Traces.{visited}
use dagger_kubernetes.Fsm.Invariant.{WellFormed}

clamp_limit_bounds : (n : ℤ) → (1 ≤ clamp_limit n) × (clamp_limit n ≤ 500)
unfolding clamp_limit
clamp_limit_bounds (pos n) = ground arith
clamp_limit_bounds (negsuc n) = ground arith

All-map :
    {A B : Type 0} (P : B → Type 0) (f : A → B) (xs : List A)
    → All (λ x. P (f x)) xs
    → All P (map f xs)
All-map P f [] h = tt
All-map P f (x ∷ xs) h = (h.0, All-map P f xs h.1)

-- What a filter that restricts to groups lets a caller see: the groups' traces, and its own
-- traces that have no group.
abbrev pub MaySee : TraceFilter → TraceMeta → Type 0
MaySee f m =
    (in_groups f.group_ids m.group_id ≡ true)
    ⊎ ((m.group_id ≡ "") × (m.user_id ≡ f.user_id) × (f.user_id ≢ ""))

module _ (lower : String → String) (f : TraceFilter) (s : FsmState) (w : WellFormed lower s) where
  -- a row of the listing is the joined row of a matching trace of the replica
  abbrev pub IsRowOf : TraceListResult → Type 0
  IsRowOf r =
      (m : TraceMeta) × (get s.traces m.trace_id ≡ some m)
      × (trace_matches f m ≡ true)
      × (text_matches lower f r ≡ true)
      × (r ≡ joined lower s m)

  abbrev IsJoined : TraceListResult → Type 0
  IsJoined r =
      (m : TraceMeta) × (get s.traces m.trace_id ≡ some m)
      × (trace_matches f m ≡ true)
      × (r ≡ joined lower s m)

  matching_rows : All IsRowOf (matching_traces lower f s)
  unfolding matching_traces
  matching_rows = All-sort_by _ _ _ (
      All-imp _ _ (λ r h. (h.0.0, h.0.1, h.0.2, h.1, h.0.3)) _
        (All-keep IsJoined (text_matches lower f) _ (
          All-map IsJoined (joined lower s) _ (
            All-imp _ _ (λ m h. (m, h.0, h.1, refl)) _
              (All-keep _ (trace_matches f) (values s.traces) (visited s.traces w.traces_keyed))))))

  -- newest first
  abbrev pub IsNewestFirst : List TraceListResult → Type 0
  IsNewestFirst = IsSorted (λ a b. trace_sort_key b.trace ≤ trace_sort_key a.trace)

  pub matching_sorted : IsNewestFirst (matching_traces lower f s)
  unfolding matching_traces
  matching_sorted =
      sort_by-IsSorted _ _ (λ a b c h k. omega arith) (λ a b e. ground arith)
        (λ a b e. ground arith) _

  -- The listing of a well-formed replica holds at most the clamped limit of rows, which is between
  -- 1 and 500, newest first, each the joined row of a trace of the replica that the filter admits.
  pub list_traces_exact :
      (length (list_traces lower f s) ≤ clamp_limit f.limit)
      × (1 ≤ clamp_limit f.limit)
      × (clamp_limit f.limit ≤ 500)
      × IsNewestFirst (list_traces lower f s)
      × All IsRowOf (list_traces lower f s)
  unfolding list_traces
  list_traces_exact =
      elim (Bool-cases (ltb (clamp_limit f.limit) (length (matching_traces lower f s)))) [
        | inl cut ↦
            rw (cut, list_traces)
              (
                length-take-le _ _,
                (clamp_limit_bounds f.limit).0,
                (clamp_limit_bounds f.limit).1,
                take-IsSorted _ _ _ matching_sorted,
                All-take IsRowOf _ _ matching_rows,
              )
        | inr whole ↦
            rw (whole, list_traces)
              (
                ground arith,
                (clamp_limit_bounds f.limit).0,
                (clamp_limit_bounds f.limit).1,
                matching_sorted,
                matching_rows,
              )
      ]
