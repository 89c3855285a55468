-- ===== src/Fsm/Queries/Traces.antt =====
-- What the trace listings return.
use dagger_kubernetes.Prelude.{
  ◌≤◌, ◌<◌, Bool, true, false, ◌≡◌, ◌↔◌, some, String, str_eq, arith, All, All-imp, All-sort_by,
  All-keep, IsSorted, sort_by-IsSorted, Memᴰ, Memᴰ-sort_by, Memᴰ-keep,
}
use dagger_kubernetes.Maps.{Map, get, values, All-values, Memᴰ-values}
use dagger_kubernetes.Domain.{Time, TraceMeta}
use dagger_kubernetes.Fsm.State.{FsmState}
use dagger_kubernetes.Fsm.Queries.{
  trace_sort_key, is_running, is_purgeable, list_traces_before, list_running_traces,
}
use dagger_kubernetes.Fsm.Invariant.{WellFormed, IsKeyed}

-- every trace that `range` visits stands under its own id
pub visited :
    (traces : Map TraceMeta)
    → IsKeyed traces
    → All (λ m. get traces m.trace_id ≡ some m) (values traces)
visited traces h =
    All-imp _ _ (λ m (id, at). ground (arith, h.at_id id m at)) (values traces)
      (All-values traces h.distinct)

-- What the purge asks of a trace: a known age, at most the cutoff, and a finished run if running
-- traces are protected.
abbrev pub MayPurge : Time → Bool → TraceMeta → Type 0
MayPurge cutoff protect_running m =
    (0 < trace_sort_key m)
    × (trace_sort_key m ≤ cutoff)
    × (protect_running ≡ true → is_running m ≡ false)

is_purgeable_iff :
    (cutoff : Time) (p : Bool) (m : TraceMeta)
    → (is_purgeable cutoff p m ≡ true) ↔ MayPurge cutoff p m
unfolding is_purgeable
is_purgeable_iff cutoff p m = ground arith

module _ (lower : String → String) (s : FsmState) (w : WellFormed lower s) where
  -- The purge candidates of a well-formed replica are exactly its traces that may be purged, oldest
  -- first.
  pub list_traces_before_exact :
      (cutoff : Time) (p : Bool)
      → All
          (λ m. (get s.traces m.trace_id ≡ some m) × MayPurge cutoff p m)
          (list_traces_before cutoff p s)
        × ((id : String) (m : TraceMeta)
            → get s.traces id ≡ some m
            → MayPurge cutoff p m
            → Memᴰ m (list_traces_before cutoff p s))
        × IsSorted (λ a b. trace_sort_key a ≤ trace_sort_key b) (list_traces_before cutoff p s)
  unfolding list_traces_before
  list_traces_before_exact cutoff p = (
    All-sort_by _ _ _ (
        All-imp _ _ (λ m (at, e). (at, (is_purgeable_iff cutoff p m).0 e)) _
          (All-keep _ (is_purgeable cutoff p) (values s.traces) (visited s.traces w.traces_keyed))),
    λ id m at may.
        Memᴰ-sort_by _ m _
          (Memᴰ-keep _ m _ (Memᴰ-values s.traces id m at) ((is_purgeable_iff cutoff p m).1 may)),
    sort_by-IsSorted _ _ (λ a b c h k. omega arith) (λ a b e. ground arith) (λ a b e. ground arith)
        _,
  )

  -- The running traces of a well-formed replica are exactly those with a version and no final
  -- status, oldest first.
  pub list_running_traces_exact :
      All
        (λ m.
          (get s.traces m.trace_id ≡ some m)
          × (is_running m ≡ true)
          × (str_eq m.version "" ≡ false))
        (list_running_traces s)
      × ((id : String) (m : TraceMeta)
          → get s.traces id ≡ some m
          → is_running m ≡ true
          → str_eq m.version "" ≡ false
          → Memᴰ m (list_running_traces s))
      × IsSorted (λ a b. trace_sort_key a ≤ trace_sort_key b) (list_running_traces s)
  unfolding list_running_traces
  list_running_traces_exact = (
    All-sort_by _ _ _ (
        All-imp _ _ (λ m (at, e). (at, ground arith, ground arith)) _
          (All-keep _ _ (values s.traces) (visited s.traces w.traces_keyed))),
    λ id m at live named.
        Memᴰ-sort_by _ m _ (Memᴰ-keep _ m _ (Memᴰ-values s.traces id m at) (ground arith)),
    sort_by-IsSorted _ _ (λ a b c h k. omega arith) (λ a b e. ground arith) (λ a b e. ground arith)
        _,
  )
