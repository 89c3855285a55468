-- ===== src/Fsm/Behaviour/Status.antt =====
-- How the trace operations move a trace's status.
use dagger_kubernetes.Prelude.{
  true, false, ◌≡◌, ◌≢◌, eq_refl, ◌⊎◌, inl, inr, refl, some, String, str_eq, eq_iff, arith,
  Option-cases, Bool-cases,
}
use dagger_kubernetes.Maps.{Map, get, put, get-put, map_values, get-map_values}
use dagger_kubernetes.Domain.{TraceMeta}
use dagger_kubernetes.Fsm.Traces.{
  TraceProvision, TraceFailure, is_terminal, ingested, ingested_status, ingested_reason,
  upsert_trace_provision, upsert_trace_ingest, mark_trace_failed,
}

-- if the trace is still there, its status is final
abbrev pub IsFinal : String → Map TraceMeta → Type 0
IsFinal id traces = (m : TraceMeta) → get traces id ≡ some m → is_terminal m.status ≡ true

module _ (id : String) (traces : Map TraceMeta) (h : IsFinal id traces) where
  put-IsFinal :
      (k : String) (x : TraceMeta)
      → (str_eq k id ≡ true → is_terminal x.status ≡ true)
      → IsFinal id (put traces k x)
  put-IsFinal k x f m e = ground (arith, get-put traces k id x, f, h m)

  pub map_values-IsFinal :
      (f : TraceMeta → TraceMeta)
      → ((m : TraceMeta) → (f m).status ≡ m.status)
      → IsFinal id (map_values f traces)
  map_values-IsFinal f same m e = elim (Option-cases (get traces id)) [
    | inl missing ↦ absurd (ground (arith, get-map_values f traces id))
    | inr (old, at) ↦ ground (arith, get-map_values f traces id, same old, h old at)
  ]

  pub provision-IsFinal :
      (p : TraceProvision) (m : TraceMeta)
      → get traces id ≡ some m
      → IsFinal id (upsert_trace_provision p traces)
  unfolding upsert_trace_provision
  provision-IsFinal p m here = elim (Option-cases (get traces p.trace_id)) [
    | inl missing ↦
        rw (missing, upsert_trace_provision)
          (put-IsFinal p.trace_id _ (λ e. absurd (ground (arith, eq_iff p.trace_id id))))
    | inr (old, at) ↦
        rw (at, upsert_trace_provision)
          (put-IsFinal p.trace_id _ (λ e. ground (arith, eq_iff p.trace_id id, h old)))
  ]

  pub ingest-IsFinal :
      (x : TraceMeta) (m : TraceMeta)
      → get traces id ≡ some m
      → IsFinal id (upsert_trace_ingest x traces)
  unfolding upsert_trace_ingest
  ingest-IsFinal x m here = elim (Option-cases (get traces x.trace_id)) [
    | inl missing ↦
        rw (missing, upsert_trace_ingest)
          (put-IsFinal x.trace_id _ (λ e. absurd (ground (arith, eq_iff x.trace_id id))))
    | inr (old, at) ↦
        rw (at, upsert_trace_ingest)
          (put-IsFinal x.trace_id _ (λ e. ground (arith, eq_iff x.trace_id id, h old)))
  ]

  pub mark-IsFinal : (p : TraceFailure) → IsFinal id (mark_trace_failed p traces).0
  unfolding mark_trace_failed
  mark-IsFinal p = elim (Option-cases (get traces p.trace_id)) [
    | inl missing ↦ rw (missing, mark_trace_failed) h
    | inr (old, at) ↦ elim (Bool-cases (is_terminal old.status)) [
      | inl final ↦ rw (at, mark_trace_failed) (rw final h)
      | inr live ↦ rw (at, mark_trace_failed) (rw live (put-IsFinal p.trace_id _ (λ e. refl)))
    ]
  ]

-- An ingest whose status is not final leaves a finished trace's status and reason alone.
pub late_ingest_ignored :
    (x m : TraceMeta) (traces : Map TraceMeta)
    → get traces x.trace_id ≡ some m
    → is_terminal m.status ≡ true
    → is_terminal x.status ≡ false
    → (m' : TraceMeta) × (get (upsert_trace_ingest x traces) x.trace_id ≡ some m')
      × (m'.status ≡ m.status)
      × (m'.failure_reason ≡ m.failure_reason)
unfolding upsert_trace_ingest ingested ingested_status ingested_reason
late_ingest_ignored x m traces here final live = (
  ingested x m,
  rw (here, upsert_trace_ingest)
      (ground (arith, get-put traces x.trace_id x.trace_id (ingested x m), eq_refl x.trace_id)),
  ground arith,
  ground arith,
)

-- The disconnect mark returns true exactly when the trace is there and not finished; it is then
-- failed with the given reason, and nothing else of the map changes. Otherwise nothing changes.
pub mark_trace_failed_exact :
    (p : TraceFailure) (traces : Map TraceMeta)
    → (((mark_trace_failed p traces).1 ≡ true)
        × ((m m' : TraceMeta) × (get traces p.trace_id ≡ some m)
            × (is_terminal m.status ≡ false)
            × (get (mark_trace_failed p traces).0 p.trace_id ≡ some m')
            × (m'.status ≡ "failed")
            × (m'.failure_reason ≡ p.reason)
            × ((j : String)
                → p.trace_id ≢ j
                → get (mark_trace_failed p traces).0 j ≡ get traces j)))
      ⊎ ((mark_trace_failed p traces ≡ (traces, false))
          × ((m : TraceMeta) → get traces p.trace_id ≡ some m → is_terminal m.status ≡ true))
unfolding mark_trace_failed
mark_trace_failed_exact p traces = elim (Option-cases (get traces p.trace_id)) [
  | inl missing ↦ inr (rw (missing, mark_trace_failed), λ m e. absurd (cc))
  | inr (m, at) ↦ elim (Bool-cases (is_terminal m.status)) [
    | inl final ↦ inr (rw (at, mark_trace_failed) (rw final), λ x e. cc)
    | inr live ↦
        let x : TraceMeta = record m {
          status = "failed";
          failure_reason = p.reason;
          updated_at = p.updated_at;
        } in
        let e : mark_trace_failed p traces ≡ (put traces p.trace_id x, true) =
          rw (at, mark_trace_failed) (rw live) in
        inl (
          rw e,
          (
            m,
            x,
            at,
            live,
            rw e (ground (arith, get-put traces p.trace_id p.trace_id x, eq_refl p.trace_id)),
            refl,
            refl,
            λ j ne. rw e (ground (arith, get-put traces p.trace_id j x, eq_iff p.trace_id j)),
          ),
        )
  ]
]
