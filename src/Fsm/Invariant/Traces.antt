-- ===== src/Fsm/Invariant/Traces.antt =====
-- The trace operations and the ids that traces stand under.
use dagger_kubernetes.Prelude.{◌≡◌, refl, inl, inr, String, eq_iff, arith, Option-cases, Bool-cases}
use dagger_kubernetes.Maps.{
  put-IsDistinct, remove-IsDistinct, Map, get, put, remove, get-put, get-remove,
}
use dagger_kubernetes.Domain.{TraceMeta}
use dagger_kubernetes.Fsm.Traces.{
  TraceProvision, TraceFailure, is_terminal, upsert_trace_provision, upsert_trace_ingest,
  mark_trace_failed,
}
use dagger_kubernetes.Fsm.Invariant.{IsKeyed}

pub put-IsKeyed :
    (traces : Map TraceMeta) (id : String) (x : TraceMeta)
    → x.trace_id ≡ id
    → IsKeyed traces
    → IsKeyed (put traces id x)
put-IsKeyed traces id x same h = record {
  at_id = λ j m e. ground (arith, get-put traces id j x, eq_iff id j, h.at_id j m);
  distinct = put-IsDistinct traces id x h.distinct;
}

pub remove-IsKeyed :
    (traces : Map TraceMeta) (id : String) → IsKeyed traces → IsKeyed (remove traces id)
remove-IsKeyed traces id h = record {
  at_id = λ j m e. ground (arith, get-remove traces id j, h.at_id j m);
  distinct = remove-IsDistinct traces id h.distinct;
}

module _ (traces : Map TraceMeta) (h : IsKeyed traces) where
  pub provision-IsKeyed : (p : TraceProvision) → IsKeyed (upsert_trace_provision p traces)
  unfolding upsert_trace_provision
  provision-IsKeyed p = elim (Option-cases (get traces p.trace_id)) [
    | inl missing ↦ rw (missing, upsert_trace_provision) (put-IsKeyed traces p.trace_id _ refl h)
    | inr (old, at) ↦
        rw (at, upsert_trace_provision)
          (put-IsKeyed traces p.trace_id _ (h.at_id p.trace_id old at) h)
  ]

  pub ingest-IsKeyed : (m : TraceMeta) → IsKeyed (upsert_trace_ingest m traces)
  unfolding upsert_trace_ingest
  ingest-IsKeyed m = elim (Option-cases (get traces m.trace_id)) [
    | inl missing ↦ rw (missing, upsert_trace_ingest) (put-IsKeyed traces m.trace_id m refl h)
    | inr (old, at) ↦
        rw (at, upsert_trace_ingest) (put-IsKeyed traces m.trace_id _ (h.at_id m.trace_id old at) h)
  ]

  pub mark-IsKeyed : (p : TraceFailure) → IsKeyed (mark_trace_failed p traces).0
  unfolding mark_trace_failed
  mark-IsKeyed p = elim (Option-cases (get traces p.trace_id)) [
    | inl missing ↦ rw (missing, mark_trace_failed) h
    | inr (old, at) ↦ elim (Bool-cases (is_terminal old.status)) [
      | inl final ↦ rw (at, mark_trace_failed) (rw final h)
      | inr open_ ↦
          rw (at, mark_trace_failed)
            (rw open_ (put-IsKeyed traces p.trace_id _ (h.at_id p.trace_id old at) h))
    ]
  ]
