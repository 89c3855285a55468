-- ===== src/Steps/Idempotent.antt =====
-- That Advance emits nothing for a snapshot that it has seen.
pub mod Settled
pub mod Walk
pub mod Mark
use dagger_kubernetes.Prelude.{
  ℕ, ℤ, ◌+◌, ◌≤◌, Bool, true, false, ◌≡◌, ◌⊎◌, inl, inr, refl, sym, ap, ◌∙◌, subst, Option, none,
  some, List, [], ◌∷◌, String, str_eq, eq_iff, arith, ltb, Bool-cases, Option-cases, length, All,
  All-sort_by, if◌then◌else◌,
}
use dagger_kubernetes.Domain.{zero_time}
use dagger_kubernetes.Maps.{Map, get, empty}
use dagger_kubernetes.Steps.{CiEvent, LogChunk, LogEntry, TraceInfo, StepEventBuilder, StepEnv}
use dagger_kubernetes.Steps.Flatten.{FlatNode, flatten_trace, terminal_status}
use dagger_kubernetes.Steps.Logs.{
  max_mark_keys, is_emitted, group_lines, prepare_log_chunks, chunks_of, newest_from,
  advance_watermark,
}
use dagger_kubernetes.Steps.Builder.{
  Run, emit, visit, link_from, emit_tree, emit_terminal, advance_flat, advance,
}
use Settled.{Keeps, keeps-all, AllSettled, AllSettled-keeps}
use Walk.{visit_keeps, visit-AllSettled, visit_again}
use Mark.{Covers, advance_watermark-Covers}

-- lines that are all emitted make no chunk
group_lines-emitted :
    (b : StepEventBuilder) (attribution : Map String) (root_id : String) (es : List LogEntry)
    (by_owner : Map (List LogChunk))
    → All (λ e. is_emitted b e ≡ true) es
    → group_lines b attribution root_id es by_owner ≡ by_owner
unfolding group_lines
group_lines-emitted b attribution root_id [] by_owner h = refl
group_lines-emitted b attribution root_id (e ∷ es) by_owner h =
    rw (h.0, group_lines) (group_lines-emitted b attribution root_id es by_owner h.1)

no_chunks-left :
    (b : StepEventBuilder) (logs : List LogEntry) (attribution : Map String) (root_id : String)
    → All (λ e. is_emitted b e ≡ true) logs
    → (id : String) → chunks_of (prepare_log_chunks b logs attribution root_id) id ≡ []
unfolding prepare_log_chunks get empty
no_chunks-left b logs attribution root_id h id =
    rw (group_lines-emitted b attribution root_id _ empty (All-sort_by _ _ logs h)) refl

module _ (env : StepEnv) (trace : TraceInfo) (logs : List LogEntry) where
  watermark_frame :
      (b : StepEventBuilder)
      → ((advance_watermark env logs b).seen ≡ b.seen)
        × ((advance_watermark env logs b).trace_id ≡ b.trace_id)
        × ((advance_watermark env logs b).max_depth ≡ b.max_depth)
  unfolding advance_watermark
  watermark_frame b = frame logs
    where
      frame :
          (es : List LogEntry)
          → ((advance_watermark env es b).seen ≡ b.seen)
            × ((advance_watermark env es b).trace_id ≡ b.trace_id)
            × ((advance_watermark env es b).max_depth ≡ b.max_depth)
      frame [] = (refl, refl, refl)
      frame (e ∷ es) = elim (Bool-cases (ltb (newest_from zero_time (e ∷ es)) b.log_mark)) [
        | inl stale ↦ rw (stale, advance_watermark) (refl, refl, refl)
        | inr newer ↦ rw (newer, advance_watermark) (refl, refl, refl)
      ]

  terminal_keeps : (run : Run) → Keeps run.0 (emit_terminal env trace run).0
  unfolding emit_terminal emit
  terminal_keeps (b, es) = elim (Option-cases (terminal_status trace)) [
    | inl open_ended ↦ rw (open_ended, emit_terminal) (keeps-all b b refl refl refl refl refl)
    | inr (status, at) ↦ elim (Bool-cases b.pipeline_done) [
      | inl done ↦ simp (at, done, emit_terminal) (keeps-all b b refl refl refl refl refl)
      | inr going ↦ simp (at, going, emit_terminal) (keeps-all b _ refl refl refl refl refl)
    ]
  ]

  -- a pipeline that goes on, or that has ended
  abbrev Over : StepEventBuilder → Type 0
  Over b = (terminal_status trace ≡ none) ⊎ (b.pipeline_done ≡ true)

  Over-stays : (run : Run) → Over run.0 → emit_terminal env trace run ≡ run
  unfolding emit_terminal emit
  Over-stays (b, es) (inl open_ended) = rw (open_ended, emit_terminal) refl
  Over-stays (b, es) (inr done) = elim (Option-cases (terminal_status trace)) [
    | inl open_ended ↦ rw (open_ended, emit_terminal) refl
    | inr (status, at) ↦ simp (at, done, emit_terminal) refl
  ]

  terminal-Over : (run : Run) → Over (emit_terminal env trace run).0
  unfolding emit_terminal emit
  terminal-Over (b, es) = elim (Option-cases (terminal_status trace)) [
    | inl open_ended ↦ inl open_ended
    | inr (status, at) ↦ elim (Bool-cases b.pipeline_done) [
      | inl done ↦ inr (simp (at, done, emit_terminal) refl)
      | inr going ↦ inr (simp (at, going, emit_terminal) refl)
    ]
  ]

  abbrev named_by : String → String
  named_by id = if str_eq id "" then trace.trace_id else id

  named_again : (id : String) → named_by (named_by id) ≡ named_by id
  named_again id = elim (Bool-cases (str_eq id "")) [
    | inr other ↦ rw other (rw other refl)
    | inl blank ↦
        rw blank
          (elim (Bool-cases (str_eq trace.trace_id "")) [ inl e ↦ rw e refl | inr e ↦ rw e refl ])
  ]

  module _ (flat : List FlatNode) (attribution : Map String) (root_id : String)
      (b : StepEventBuilder) (room : length b.mark_keys + length logs ≤ max_mark_keys) where
    abbrev begun : StepEventBuilder → StepEventBuilder
    begun c = record c { trace_id = named_by c.trace_id }

    abbrev edges : List (ℕ × ℕ)
    edges = link_from flat 0 flat [] []

    abbrev walked : StepEventBuilder → Run
    walked c =
        visit env flat edges (prepare_log_chunks c logs attribution root_id) (length flat) 0 (c, [])

    abbrev tree : Run
    tree = walked (begun b)

    abbrev first : StepEventBuilder
    first = (advance_flat env trace logs flat attribution root_id b).0

    ended : Keeps (advance_watermark env logs tree.0) first
    unfolding advance_flat emit_tree
    ended = terminal_keeps (advance_watermark env logs tree.0, tree.1)

    tree_keeps : Keeps (begun b) tree.0
    tree_keeps = visit_keeps env flat edges _ (length flat) 0 (begun b, [])

    first-depth : first.max_depth ≡ b.max_depth
    first-depth = ended.same_depth ∙ (watermark_frame tree.0).2 ∙ tree_keeps.same_depth

    first-Covers : Covers env logs first
    first-Covers =
        advance_watermark-Covers env logs tree.0 first (rw tree_keeps.same_keys room)
          ended.same_mark ended.same_keys

    first-AllSettled : AllSettled env flat edges first.seen (length flat) 0
    first-AllSettled =
        AllSettled-keeps env flat edges (advance_watermark env logs tree.0) first (length flat) 0
          ended
          (subst (λ seen. AllSettled env flat edges seen (length flat) 0)
            (sym (watermark_frame tree.0).0)
            (visit-AllSettled env flat edges _ (length flat) 0 (begun b, [])))

    begun_again : begun first ≡ first
    begun_again =
        let name = λ (t : String). let c : StepEventBuilder = record first { trace_id = t } in c in
        let named : first.trace_id ≡ named_by b.trace_id =
          ended.same_trace ∙ (watermark_frame tree.0).1 ∙ tree_keeps.same_trace in
        ap name (ap named_by named ∙ named_again b.trace_id ∙ sym named)

    first-Over : Over first
    unfolding advance_flat emit_tree
    first-Over = terminal-Over (advance_watermark env logs tree.0, tree.1)

    advance_flat_again : advance_flat env trace logs flat attribution root_id first ≡ (first, [])
    unfolding advance_flat emit_tree
    advance_flat_again =
        let finishing = λ (c : StepEventBuilder).
          emit_terminal env trace (advance_watermark env logs (walked c).0, (walked c).1) in
        let rest = λ (r : Run). emit_terminal env trace (advance_watermark env logs r.0, r.1) in
        let same : walked first ≡ (first, []) =
          visit_again env flat edges _
            (no_chunks-left first logs attribution root_id first-Covers.covered) (length flat) 0
            (first, []) first-AllSettled in
        ap finishing begun_again
        ∙ ap rest same
        ∙ ap (λ c. emit_terminal env trace (c, [])) first-Covers.still
        ∙ Over-stays (first, []) first-Over

  -- Advance on the flat list
  abbrev advanced : StepEventBuilder → List FlatNode → Map String → Option Run
  advanced c flat attribution = elim flat [
    | [] ↦ some (c, [])
    | root ∷ rest ↦ some (advance_flat env trace logs (root ∷ rest) attribution root.node.span_id c)
  ]

  builder_of :
      (b b' : StepEventBuilder) (r : Run) (es : List CiEvent) → some r ≡ some (b', es) → r.0 ≡ b'
  builder_of b b' r es e = ap (λ o. elim o as (λ x. StepEventBuilder) [ none ↦ b | some q ↦ q.0 ]) e

  advanced_again :
      (b b' : StepEventBuilder) (es : List CiEvent) (flat : List FlatNode)
      (attribution : Map String)
      → length b.mark_keys + length logs ≤ max_mark_keys
      → advanced b flat attribution ≡ some (b', es)
      → (b'.max_depth ≡ b.max_depth) × (advanced b' flat attribution ≡ some (b', []))
  advanced_again b b' es [] attribution room e =
      (ap (λ c. c.max_depth) (sym (builder_of b b' (b, []) es e)), refl)
  advanced_again b b' es (root ∷ rest) attribution room e =
      let same =
        builder_of b b' (advance_flat env trace logs (root ∷ rest) attribution root.node.span_id b)
          es e in
      subst
        (λ c. (c.max_depth ≡ b.max_depth) × (advanced c (root ∷ rest) attribution ≡ some (c, [])))
        same
        (
          first-depth (root ∷ rest) attribution root.node.span_id b room,
          ap some (advance_flat_again (root ∷ rest) attribution root.node.span_id b room),
        )

  -- Advance on a snapshot that the builder has just seen emits nothing and changes nothing, where the
  -- keys at the watermark and the log lines of the snapshot are at most 4,096 together.
  pub advance_again :
      (b b' : StepEventBuilder) (es : List CiEvent)
      → length b.mark_keys + length logs ≤ max_mark_keys
      → advance env (some trace) logs b ≡ some (b', es)
      → advance env (some trace) logs b' ≡ some (b', [])
  unfolding advance
  advance_again b b' es room e =
      let flat = λ (d : ℤ). flatten_trace trace.root_span d in
      let (depth, again) =
        advanced_again b b' es (flat b.max_depth).0 (flat b.max_depth).1 room (e' e) in
      ap (λ d. advanced b' (flat d).0 (flat d).1) depth ∙ again
    where
      e' :
          advance env (some trace) logs b ≡ some (b', es)
          → advanced b
              (flatten_trace trace.root_span b.max_depth).0
              (flatten_trace trace.root_span b.max_depth).1
            ≡ some (b', es)
      e' h = h
