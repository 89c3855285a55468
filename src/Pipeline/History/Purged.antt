-- ===== src/Pipeline/History/Purged.antt =====
-- What RunGC and PurgeAll delete.
use dagger_kubernetes.Prelude.{
  ◌-◌, ◌<◌, Bool, true, false, ◌≡◌, ◌≢◌, ◌⊎◌, inl, inr, refl, sym, ap, ◌∙◌, subst, Option, none,
  some, List, String, str_eq, eq_iff, arith, ◌==◌, Bool-cases, All-Memᴰ, Memᴰ, Memᴰ-keep, keep,
  if◌then◌else◌,
}
use dagger_kubernetes.Maps.{get}
use dagger_kubernetes.Domain.{Time, TraceMeta}
use dagger_kubernetes.Fsm.State.{FsmState}
use dagger_kubernetes.Fsm.Queries.{is_running, list_traces_before}
use dagger_kubernetes.Fsm.Queries.Traces.{MayPurge, list_traces_before_exact}
use dagger_kubernetes.Fsm.Invariant.{WellFormed}
use dagger_kubernetes.Pipeline.Repo.{Outcome, applied, lost, late}
use dagger_kubernetes.Pipeline.History.{HistoryPurgeService, PurgeEnv, purge_all, run_gc}
use dagger_kubernetes.Pipeline.History.Erase.{
  after, before_end, finished, named, erase_each, purge_all_each-erase, run_gc_each-erase,
  get-erase_each, named-Memᴰ, Memᴰ-named, keep-finished-Memᴰ, before_end-Memᴰ, before_end-all,
}

-- a success or a failure
abbrev pub IsFinished : String → Type 0
IsFinished status = (status ≡ "success") ⊎ (status ≡ "failed")

-- a status that no ingest of a span and no failure gives
abbrev pub IsForeign : String → Type 0
IsForeign status = (status ≢ "") × (status ≢ "running") × (status ≢ "success") × (status ≢ "failed")

status-cases : (m : TraceMeta) → is_running m ≡ false → IsFinished m.status ⊎ IsForeign m.status
status-cases m over = elim (Bool-cases (str_eq m.status "success")) [
  | inl good ↦ inl (inl ((eq_iff m.status "success").0 good))
  | inr other ↦ elim (Bool-cases (str_eq m.status "failed")) [
    | inl bad ↦ inl (inr ((eq_iff m.status "failed").0 bad))
    | inr foreign ↦
        inr (
          ne "" (ground arith),
          ne "running" (ground arith),
          ne "success" other,
          ne "failed" foreign,
        )
  ]
]
  where
    ne : (word : String) → str_eq m.status word ≡ false → m.status ≢ word
    ne word e same = let never = (eq_iff m.status word).1 same in ground arith

module _ (lower : String → String) (s : FsmState) (w : WellFormed lower s) (env : PurgeEnv)
    (now : Time) (h : HistoryPurgeService) (id : String) where
  abbrev cutoff : Time
  cutoff = now - h.gc_cfg.max_age

  -- the trace there has a status that is neither empty nor "running", its age is known, and it is at
  -- least `max_age`
  abbrev pub IsExpired : TraceMeta → Type 0
  IsExpired m = (get s.traces id ≡ some m) × MayPurge cutoff true m

  abbrev gc_doomed : List TraceMeta
  gc_doomed = keep finished (before_end env (list_traces_before cutoff false s))

  abbrev all_doomed : List TraceMeta
  all_doomed = before_end env (list_traces_before cutoff true s)

  listed-IsExpired :
      (p : Bool) (m : TraceMeta)
      → Memᴰ m (list_traces_before cutoff p s)
      → m.trace_id ≡ id
      → (is_running m ≡ false) ⊎ (p ≡ true)
      → IsExpired m
  listed-IsExpired p m at e rests =
      let (here, may) = All-Memᴰ _ m _ (list_traces_before_exact lower s w cutoff p).0 at in
      (
        subst (λ j. get s.traces j ≡ some m) e here,
        (may.0, may.1, elim rests [ inl over ↦ λ q. over | inr protected ↦ λ q. may.2 protected ]),
      )

  gc_doomed-IsExpired : (m : TraceMeta) → Memᴰ m gc_doomed → m.trace_id ≡ id → IsExpired m
  gc_doomed-IsExpired m at e =
      let (there, over) = keep-finished-Memᴰ _ m at in
      listed-IsExpired false m (before_end-Memᴰ env _ m there) e (inl over)

  all_doomed-IsExpired : (m : TraceMeta) → Memᴰ m all_doomed → m.trace_id ≡ id → IsExpired m
  all_doomed-IsExpired m at e = listed-IsExpired true m (before_end-Memᴰ env _ m at) e (inr refl)

  -- an expired trace, by what its status may be
  abbrev pub IsDeletable : TraceMeta → Type 0
  IsDeletable m = IsExpired m × (IsFinished m.status ⊎ IsForeign m.status)

  deletable : (m : TraceMeta) → IsExpired m → IsDeletable m
  deletable m expired = (expired, status-cases m (expired.1.2 refl))

  -- a list of doomed traces is erased
  erased_safe :
      (ms : List TraceMeta)
      → ((m : TraceMeta) → Memᴰ m ms → m.trace_id ≡ id → IsExpired m)
      → (get (erase_each env ms s.traces) id ≡ get s.traces id)
        ⊎ ((m : TraceMeta) × IsDeletable m × (get (erase_each env ms s.traces) id ≡ none))
  erased_safe ms expired = elim (Bool-cases (named id ms)) [
    | inr spared ↦ inl (get-erase_each env ms s.traces id ∙ rw spared refl)
    | inl hit ↦
        let (m, at, e) = named-Memᴰ id ms hit in
        elim (after-cases (env.outcome id) (get s.traces id)) [
          | inl same ↦ inl (get-erase_each env ms s.traces id ∙ rw hit same)
          | inr gone ↦
              inr (m, deletable m (expired m at e), get-erase_each env ms s.traces id ∙ rw hit gone)
        ]
  ]
    where
      after-cases :
          (o : Outcome) (row : Option TraceMeta) → (after o row ≡ row) ⊎ (after o row ≡ none)
      after-cases applied row = inr refl
      after-cases (lost e) row = inl refl
      after-cases (late e) row = inr refl

  -- In a well-formed replica, whatever becomes of the commands and the telemetry, and whenever the
  -- context ends, RunGC and PurgeAll leave a trace as it was or delete it. They delete only a trace
  -- whose age is known and at least `max_age`, and which is a success or a failure, or has a status
  -- of none of the four kinds (empty, "running", "success", "failed"), such as "unset".
  pub history_purge_safe :
      ((ended : Time)
        → (get (run_gc env now ended h s).1.traces id ≡ get s.traces id)
          ⊎ ((m : TraceMeta) × IsDeletable m × (get (run_gc env now ended h s).1.traces id ≡ none)))
      × ((get (purge_all env now h s).1.traces id ≡ get s.traces id)
          ⊎ ((m : TraceMeta) × IsDeletable m × (get (purge_all env now h s).1.traces id ≡ none)))
  unfolding run_gc purge_all
  history_purge_safe = (λ ended. gc ended, all)
    where
      gc :
          (ended : Time)
          → (get (run_gc env now ended h s).1.traces id ≡ get s.traces id)
            ⊎ ((m : TraceMeta) × IsDeletable m
                × (get (run_gc env now ended h s).1.traces id ≡ none))
      gc ended = elim (Bool-cases (h.gc_cfg.max_age == 0)) [
        | inl off ↦ inl (rw (off, run_gc) refl)
        | inr on ↦
            rw (on, run_gc)
              (rw (run_gc_each-erase env (list_traces_before cutoff false s) s.traces)
                (erased_safe gc_doomed gc_doomed-IsExpired))
      ]

      all :
          (get (purge_all env now h s).1.traces id ≡ get s.traces id)
          ⊎ ((m : TraceMeta) × IsDeletable m × (get (purge_all env now h s).1.traces id ≡ none))
      all = elim (Bool-cases (h.gc_cfg.max_age == 0)) [
        | inl off ↦ inl (rw (off, purge_all) refl)
        | inr on ↦
            rw (on, purge_all)
              (rw (purge_all_each-erase env (list_traces_before cutoff true s) s.traces)
                (erased_safe all_doomed all_doomed-IsExpired))
      ]

  gc_doomed-named :
      ((j : String) → env.alive j ≡ true)
      → (m : TraceMeta) → IsExpired m
      → named id gc_doomed ≡ true
  gc_doomed-named alive m (at, (known, old, over)) =
      rw (before_end-all env alive (list_traces_before cutoff false s)) (
        Memᴰ-named id _ m
          (Memᴰ-keep finished m _
            ((list_traces_before_exact lower s w cutoff false).1 id m at
              (known, old, λ q. over refl))
            (rw (over refl) refl))
          (w.traces_keyed.at_id id m at))

  all_doomed-named :
      ((j : String) → env.alive j ≡ true)
      → (m : TraceMeta) → IsExpired m
      → named id all_doomed ≡ true
  all_doomed-named alive m (at, may) =
      rw (before_end-all env alive (list_traces_before cutoff true s)) (
        Memᴰ-named id _ m ((list_traces_before_exact lower s w cutoff true).1 id m at may)
          (w.traces_keyed.at_id id m at))

  -- In a well-formed replica, where the context lives on, `max_age` is positive and the command on
  -- this trace is applied, RunGC deletes the trace if its status is neither empty nor "running" and
  -- its age is known and at least `max_age`.
  pub run_gc_purges :
      (ended : Time) (m : TraceMeta)
      → ((j : String) → env.alive j ≡ true)
      → env.outcome id ≡ applied
      → 0 < h.gc_cfg.max_age
      → IsExpired m
      → get (run_gc env now ended h s).1.traces id ≡ none
  unfolding run_gc
  run_gc_purges ended m alive kept on expired =
      let positive : (h.gc_cfg.max_age == 0) ≡ false = ground arith in
      rw (positive, run_gc)
        (rw (run_gc_each-erase env (list_traces_before cutoff false s) s.traces) (
          get-erase_each env gc_doomed s.traces id
          ∙ rw (gc_doomed-named alive m expired) (rw kept refl)))

  named_alike : ((j : String) → env.alive j ≡ true) → named id gc_doomed ≡ named id all_doomed
  named_alike alive = elim (Bool-cases (named id gc_doomed)) [
    | inl hit ↦
        let (m, at, e) = named-Memᴰ id gc_doomed hit in
        hit ∙ sym (all_doomed-named alive m (gc_doomed-IsExpired m at e))
    | inr spared ↦ elim (Bool-cases (named id all_doomed)) [
      | inr too ↦ spared ∙ sym too
      | inl hit ↦
          let (m, at, e) = named-Memᴰ id all_doomed hit in
          gc_doomed-named alive m (all_doomed-IsExpired m at e) ∙ sym hit
    ]
  ]

  -- In a well-formed replica, where the context lives on, PurgeAll and RunGC leave the same row or
  -- none under every id, whatever becomes of the commands and the telemetry: the one asks the
  -- repository to protect running traces, the other skips them itself.
  pub purge_all-run_gc :
      (ended : Time)
      → ((j : String) → env.alive j ≡ true)
      → get (purge_all env now h s).1.traces id ≡ get (run_gc env now ended h s).1.traces id
  unfolding purge_all run_gc
  purge_all-run_gc ended alive = elim (Bool-cases (h.gc_cfg.max_age == 0)) [
    | inl off ↦ rw (off, purge_all, run_gc) refl
    | inr on ↦
        rw (on, purge_all, run_gc)
          (rw (purge_all_each-erase env (list_traces_before cutoff true s) s.traces) (
            rw (run_gc_each-erase env (list_traces_before cutoff false s) s.traces) (
              get-erase_each env all_doomed s.traces id
              ∙ ap (λ b. if b then after (env.outcome id) (get s.traces id) else get s.traces id)
                  (sym (named_alike alive))
              ∙ sym (get-erase_each env gc_doomed s.traces id))))
  ]
