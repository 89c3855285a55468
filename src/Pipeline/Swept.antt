-- ===== src/Pipeline/Swept.antt =====
-- Which traces RunStaleSweep fails.
use dagger_kubernetes.Prelude.{
  ℕ, ◌+◌, ◌-◌, ◌<◌, true, false, ◌≡◌, ◌⊎◌, ◌↔◌, inl, inr, refl, sym, ◌∙◌, subst, some, List, [],
  ◌∷◌, String, str_eq, eq_iff, eq_refl, arith, ◌==◌, Bool-cases, Option-cases, All, All-Memᴰ, Memᴰ,
}
use dagger_kubernetes.Maps.{Map, get, get-put}
use dagger_kubernetes.Domain.{Time, TraceMeta, Lease}
use dagger_kubernetes.Fsm.State.{FsmState}
use dagger_kubernetes.Fsm.Traces.{TraceFailure, is_terminal, mark_trace_failed}
use dagger_kubernetes.Fsm.Queries.{is_running, list_traces_before}
use dagger_kubernetes.Fsm.Queries.Traces.{MayPurge, list_traces_before_exact}
use dagger_kubernetes.Fsm.Invariant.{WellFormed}
use dagger_kubernetes.Pipeline.Repo.{applied, valid_trace_id_key, attribute_failed}
use dagger_kubernetes.Pipeline.Lifecycle.{
  StaleSweepSummary, no_summary, is_active, SweepEnv, sweep_stale, run_stale_sweep,
  mark_pipeline_failed, reason_client_session_expired,
}
use dagger_kubernetes.Pipeline.Marking.{failure, attribute_failed-applied, attribute_failed_cases}

running_live : (m : TraceMeta) → is_running m ≡ true → is_terminal m.status ≡ false
running_live m running = elim (Bool-cases (str_eq m.status "")) [
  | inl empty ↦ subst (λ t. is_terminal t ≡ false) (sym ((eq_iff m.status "").0 empty)) refl
  | inr other ↦ elim (Bool-cases (str_eq m.status "running")) [
    | inl runs ↦ subst (λ t. is_terminal t ≡ false) (sym ((eq_iff m.status "running").0 runs)) refl
    | inr stands ↦ ground arith
  ]
]

-- the trace stands there as failed
abbrev pub IsFailed : String → Map TraceMeta → Type 0
IsFailed id traces = (m : TraceMeta) × (get traces id ≡ some m) × (m.status ≡ "failed")

mark_one :
    (p : TraceFailure) (traces : Map TraceMeta) (id : String)
    → (get (mark_trace_failed p traces).0 id ≡ get traces id)
      ⊎ ((p.trace_id ≡ id) × IsFailed id (mark_trace_failed p traces).0)
unfolding mark_trace_failed
mark_one p traces id = elim (Option-cases (get traces p.trace_id)) [
  | inl missing ↦ inl (rw (missing, mark_trace_failed))
  | inr (m, at) ↦
      let m' : TraceMeta = record m {
        status = "failed";
        failure_reason = p.reason;
        updated_at = p.updated_at;
      } in
      elim (Bool-cases (is_terminal m.status)) [
        | inl final ↦ inl (rw (at, mark_trace_failed) (rw final refl))
        | inr live ↦ elim (Bool-cases (str_eq p.trace_id id)) [
          | inl same ↦ inr (
            (eq_iff p.trace_id id).0 same,
            (m', rw (at, mark_trace_failed) (rw live (rw get-put (rw same refl))), refl),
          )
          | inr other ↦ inl (rw (at, mark_trace_failed) (rw live (rw get-put (rw other refl))))
        ]
      ]
]

module _ (env : SweepEnv) (leases : List Lease) (id : String) where
  -- what markFailed does to one trace
  abbrev mark_at : TraceMeta → Map TraceMeta → Map TraceMeta
  mark_at m traces =
      (mark_pipeline_failed false (env.outcome m.trace_id) (env.clock m.trace_id) m.trace_id
        reason_client_session_expired traces).0

  mark_at_cases :
      (m : TraceMeta) (traces : Map TraceMeta)
      → (get (mark_at m traces) id ≡ get traces id)
        ⊎ ((m.trace_id ≡ id) × IsFailed id (mark_at m traces))
  unfolding mark_pipeline_failed
  mark_at_cases m traces =
      elim (attribute_failed_cases (env.clock m.trace_id) m.trace_id reason_client_session_expired
        traces (env.outcome m.trace_id)) [
          | inl same ↦ inl (rw same refl)
          | inr marked ↦ rw marked (
              mark_one (failure (env.clock m.trace_id) m.trace_id reason_client_session_expired)
                traces id)
        ]

  -- a candidate of the list that the sweep is to fail
  abbrev Target : List TraceMeta → Type 0
  Target ms =
      (m : TraceMeta) × Memᴰ m ms
      × (m.trace_id ≡ id)
      × (is_running m ≡ true)
      × (is_active leases m.trace_id ≡ false)

  later : (m : TraceMeta) (ms : List TraceMeta) → Target ms → Target (m ∷ ms)
  later m ms (x, at, e, running, idle) = (x, Memᴰ.tail at, e, running, idle)

  sweep_cases :
      (ms : List TraceMeta) (traces : Map TraceMeta) (sum : StaleSweepSummary)
      → (get (sweep_stale env leases ms traces sum).0 id ≡ get traces id)
        ⊎ (Target ms × IsFailed id (sweep_stale env leases ms traces sum).0)
  unfolding sweep_stale
  sweep_cases [] traces sum = inl refl
  sweep_cases (m ∷ ms) traces sum =
      let seen : StaleSweepSummary = record sum { scanned = sum.scanned + 1 } in
      let skip = sweep_cases ms traces seen in
      let active =
        sweep_cases ms traces (record seen { skipped_active = sum.skipped_active + 1 }) in
      let marked = sweep_cases ms (mark_at m traces) in
      elim (Bool-cases (env.alive m.trace_id)) [
        | inr dead ↦ inl (rw (dead, sweep_stale) refl)
        | inl alive ↦ elim (Bool-cases (is_running m)) [
          | inr finished ↦ rw (alive, finished, sweep_stale) (widen m ms _ _ skip)
          | inl running ↦ elim (Bool-cases (is_active leases m.trace_id)) [
            | inl busy ↦ rw (alive, running, busy, sweep_stale) (widen m ms _ _ active)
            | inr idle ↦
                rw (alive, running, idle, sweep_stale) (joins m ms traces _ running idle (marked _))
          ]
        ]
      ]
    where
      widen :
          (m : TraceMeta) (ms : List TraceMeta) (traces traces' : Map TraceMeta)
          → (get traces' id ≡ get traces id) ⊎ (Target ms × IsFailed id traces')
          → (get traces' id ≡ get traces id) ⊎ (Target (m ∷ ms) × IsFailed id traces')
      widen m ms traces traces' (inl same) = inl same
      widen m ms traces traces' (inr (t, failed)) = inr (later m ms t, failed)

      joins :
          (m : TraceMeta) (ms : List TraceMeta) (traces traces' : Map TraceMeta)
          → is_running m ≡ true
          → is_active leases m.trace_id ≡ false
          → (get traces' id ≡ get (mark_at m traces) id) ⊎ (Target ms × IsFailed id traces')
          → (get traces' id ≡ get traces id) ⊎ (Target (m ∷ ms) × IsFailed id traces')
      joins m ms traces traces' running idle (inr (t, failed)) = inr (later m ms t, failed)
      joins m ms traces traces' running idle (inl same) = elim (mark_at_cases m traces) [
        | inl untouched ↦ inl (same ∙ untouched)
        | inr (e, (x, at, failed)) ↦
            inr ((m, Memᴰ.head refl, e, running, idle), (x, same ∙ at, failed))
      ]

  kept-IsFailed :
      (ms : List TraceMeta) (traces : Map TraceMeta) (sum : StaleSweepSummary)
      → IsFailed id traces
      → IsFailed id (sweep_stale env leases ms traces sum).0
  kept-IsFailed ms traces sum (x, at, failed) = elim (sweep_cases ms traces sum) [
    | inl same ↦ (x, same ∙ at, failed)
    | inr (t, f) ↦ f
  ]

  -- there is a trace that has not finished
  abbrev IsLive : Map TraceMeta → Type 0
  IsLive traces = (x : TraceMeta) × (get traces id ≡ some x) × (is_terminal x.status ≡ false)

  module _ (alive : (j : String) → env.alive j ≡ true)
      (lossless : (j : String) → env.outcome j ≡ applied)
      (valid : valid_trace_id_key id ≡ true) where
    marked_now :
        (m : TraceMeta) (traces : Map TraceMeta)
        → m.trace_id ≡ id
        → IsLive traces
        → IsFailed id (mark_at m traces)
    unfolding mark_pipeline_failed mark_trace_failed
    marked_now m traces e (x, at, live) =
        let p = failure (env.clock id) id reason_client_session_expired in
        let x' : TraceMeta = record x {
          status = "failed";
          failure_reason = p.reason;
          updated_at = p.updated_at;
        } in
        subst
          (λ j.
            IsFailed id
              (attribute_failed (env.outcome j) (env.clock j) j reason_client_session_expired
                traces).0)
          (sym e)
          (rw (lossless id) (
            rw
              (attribute_failed-applied (env.clock id) id reason_client_session_expired traces
                valid)
              (x', rw (at, mark_trace_failed) (rw live (rw get-put (simp eq_refl))), refl)))

    sweep_marks :
        (ms : List TraceMeta) (m : TraceMeta) (traces : Map TraceMeta) (sum : StaleSweepSummary)
        → Memᴰ m ms
        → m.trace_id ≡ id
        → is_running m ≡ true
        → is_active leases m.trace_id ≡ false
        → IsLive traces
        → IsFailed id (sweep_stale env leases ms traces sum).0
    unfolding sweep_stale
    sweep_marks [] m traces sum at e running idle live = elim at [ ]
    sweep_marks (h ∷ ms) m traces sum (Memᴰ.head same) e running idle live =
        let e' = subst (λ x. x.trace_id ≡ id) same e in
        let running' = subst (λ x. is_running x ≡ true) same running in
        let idle' = subst (λ x. is_active leases x.trace_id ≡ false) same idle in
        rw (alive h.trace_id, running', idle', sweep_stale)
          (kept-IsFailed ms _ _ (marked_now h traces e' live))
    sweep_marks (h ∷ ms) m traces sum (Memᴰ.tail at) e running idle live =
        let seen : StaleSweepSummary = record sum { scanned = sum.scanned + 1 } in
        let skip = sweep_marks ms m traces seen at e running idle live in
        let active =
          sweep_marks ms m traces (record seen { skipped_active = sum.skipped_active + 1 }) at e
            running idle live in
        let marked = λ (sum' : StaleSweepSummary) (now_live : IsLive (mark_at h traces)).
          sweep_marks ms m (mark_at h traces) sum' at e running idle now_live in
        elim (Bool-cases (is_running h)) [
          | inr finished ↦ rw (alive h.trace_id, finished, sweep_stale) skip
          | inl busy ↦ elim (Bool-cases (is_active leases h.trace_id)) [
            | inl in_use ↦ rw (alive h.trace_id, busy, in_use, sweep_stale) active
            | inr free ↦
                rw (alive h.trace_id, busy, free, sweep_stale)
                  (elim (mark_at_cases h traces) [
                    | inl untouched ↦ marked _ (live.0, untouched ∙ live.1, live.2)
                    | inr (same, failed) ↦ kept-IsFailed ms _ _ failed
                  ])
          ]
        ]

-- no lease of the trace has a tunnel in flight
abbrev pub IsIdle : List Lease → String → Type 0
IsIdle leases id = All (λ l. l.trace_id ≡ id → l.in_flight ≡ 0) leases

is_active_iff :
    (leases : List Lease) (id : String) → (is_active leases id ≡ false) ↔ IsIdle leases id
unfolding is_active
is_active_iff [] id = (λ e. tt, λ h. refl)
is_active_iff (l ∷ leases) id =
    let (there, back) = is_active_iff leases id in
    (
      λ e. (λ same. let own = (eq_iff l.trace_id id).1 same in ground arith, there (ground arith)),
      λ h. idle (back h.1) (h.0),
    )
  where
    idle :
        is_active leases id ≡ false
        → (l.trace_id ≡ id → l.in_flight ≡ 0)
        → is_active (l ∷ leases) id ≡ false
    idle rest own = elim (Bool-cases (str_eq l.trace_id id)) [
      | inl same ↦ let none_open = own ((eq_iff l.trace_id id).0 same) in ground arith
      | inr other ↦ ground arith
    ]

module _ (lower : String → String) (s : FsmState) (w : WellFormed lower s) (env : SweepEnv)
    (now : Time) (stale_after : ℕ) (leases : List Lease) (id : String) where
  -- the trace looks abandoned: it runs, its age is known and at least `stale_after`, and no lease of
  -- it has a tunnel in flight
  abbrev pub IsStale : TraceMeta → Type 0
  IsStale m = MayPurge (now - stale_after) false m × (is_running m ≡ true) × IsIdle leases id

  candidate :
      (m : TraceMeta)
      → Memᴰ m (list_traces_before (now - stale_after) false s)
      → m.trace_id ≡ id
      → (get s.traces id ≡ some m) × MayPurge (now - stale_after) false m
  candidate m at e =
      let (here, may) =
        All-Memᴰ _ m _ (list_traces_before_exact lower s w (now - stale_after) false).0 at in
      (subst (λ j. get s.traces j ≡ some m) e here, may)

  -- In a well-formed replica, whatever becomes of the commands, and whenever the context ends, the
  -- stale sweep leaves a trace as it was or fails it, and fails only a trace that runs, whose age is
  -- known and at least `stale_after`, and of which no lease has a tunnel in flight.
  pub run_stale_sweep_safe :
      (get (run_stale_sweep env now stale_after leases s).0.traces id ≡ get s.traces id)
      ⊎ ((m : TraceMeta) × (get s.traces id ≡ some m)
          × IsStale m
          × IsFailed id (run_stale_sweep env now stale_after leases s).0.traces)
  unfolding run_stale_sweep
  run_stale_sweep_safe = elim (Bool-cases (stale_after == 0)) [
    | inl off ↦ inl (rw (off, run_stale_sweep) refl)
    | inr on ↦
        rw (on, run_stale_sweep)
          (elim (sweep_cases env leases id (list_traces_before (now - stale_after) false s) s.traces
            no_summary) [
              | inl same ↦ inl same
              | inr ((m, at, e, running, idle), failed) ↦ inr (
                m,
                (candidate m at e).0,
                (
                  (candidate m at e).1,
                  running,
                  (is_active_iff leases id).0 (subst (λ j. is_active leases j ≡ false) e idle),
                ),
                failed,
              )
            ])
  ]

  -- In a well-formed replica, where the context lives on and every command is applied, the stale
  -- sweep with a positive `stale_after` fails every trace under a valid id that runs, whose age is
  -- known and at least `stale_after`, and of which no lease has a tunnel in flight.
  pub run_stale_sweep_fails :
      (m : TraceMeta)
      → 0 < stale_after
      → ((j : String) → env.alive j ≡ true)
      → ((j : String) → env.outcome j ≡ applied)
      → valid_trace_id_key id ≡ true
      → get s.traces id ≡ some m
      → IsStale m
      → IsFailed id (run_stale_sweep env now stale_after leases s).0.traces
  unfolding run_stale_sweep
  run_stale_sweep_fails m on alive lossless valid at (may, running, idle) =
      let e = w.traces_keyed.at_id id m at in
      let listed = (list_traces_before_exact lower s w (now - stale_after) false).1 id m at may in
      rw (not_zero stale_after on, run_stale_sweep)
        (sweep_marks env leases id alive lossless valid
          (list_traces_before (now - stale_after) false s) m s.traces no_summary listed e running
          (subst (λ j. is_active leases j ≡ false) (sym e) ((is_active_iff leases id).1 idle))
          (m, at, running_live m running))
    where
      not_zero : (n : ℕ) → 0 < n → (n == 0) ≡ false
      not_zero n h = ground arith
