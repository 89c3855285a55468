-- ===== src/Steps/Protocol.antt =====
-- What the stream of a builder says of one step, over any sequence of Advance and Finalize.
use dagger_kubernetes.Prelude.{
  ℕ, zero, suc, ◌||◌, Bool, true, false, ◌≡◌, inl, inr, refl, sym, ap, ◌∙◌, subst, Option, none,
  some, List, [], ◌∷◌, ◌++◌, String, str_eq, eq_iff, eq_refl, arith, ltb, Bool-cases, Option-cases,
  if◌then◌else◌,
}
use dagger_kubernetes.Domain.{zero_time}
use dagger_kubernetes.Maps.{Map, get, put, get-put, elem}
use dagger_kubernetes.Steps.{
  StepState, step_running, StepNode, LogChunk, CiEvent, CiEventType, event_node_started,
  event_node_finished, event_log_chunk, event_pipeline_done, TraceInfo, LogEntry, StepEventBuilder,
  StepEnv,
}
use dagger_kubernetes.Steps.Flatten.{
  FlatNode, step_state_for_status, terminal_status, failure_reason,
}
use dagger_kubernetes.Steps.Logs.{chunks_of, newest_from, advance_watermark}
use dagger_kubernetes.Steps.Builder.{
  Run, stamped, emit, started_node, emit_node_started, is_running_step, is_terminal_step,
  finished_node, emit_node_finished, flat_at, children_of, emit_chunks, each, visit, emit_terminal,
  start_event, finish_event, chunk_event, done_event, closed_node, close_event, close_step,
  close_running, emit_final,
}

-- what an event says of a step: that it starts, or that it finishes
pub data Mark : Type 0 where
  start finish : Mark

abbrev names : String → Option StepNode → Bool
names id none = false
names id (some n) = str_eq n.id id

-- the mark that an event makes on the step `id`
abbrev mark_of : String → CiEventType → Option StepNode → List Mark
mark_of id event_node_started n = if names id n then start ∷ [] else []
mark_of id event_node_finished n = if names id n then finish ∷ [] else []
mark_of id event_log_chunk n = []
mark_of id event_pipeline_done n = []

-- the marks that a stream makes on the step `id`
unfoldable pub marks_of : String → List CiEvent → List Mark
marks_of id [] = []
marks_of id (e ∷ es) = mark_of id e.kind e.node ++ marks_of id es

-- the marks that the builder remembers to have made
abbrev pub phase : Option StepNode → List Mark
phase none = []
phase (some n) = if is_running_step n.state then start ∷ [] else start ∷ finish ∷ []

module _ {ℓ} {A : Type ℓ} where
  pub append-nil : (xs : List A) → xs ++ [] ≡ xs
  append-nil [] = refl
  append-nil (x ∷ xs) = ap (λ ys. x ∷ ys) (append-nil xs)

  pub append_assoc : (xs ys zs : List A) → (xs ++ ys) ++ zs ≡ xs ++ (ys ++ zs)
  append_assoc [] ys zs = refl
  append_assoc (x ∷ xs) ys zs = ap (λ ws. x ∷ ws) (append_assoc xs ys zs)

pub marks_of-append :
    (id : String) (xs ys : List CiEvent) → marks_of id (xs ++ ys) ≡ marks_of id xs ++ marks_of id ys
unfolding marks_of
marks_of-append id [] ys = refl
marks_of-append id (e ∷ es) ys =
    ap (λ ms. mark_of id e.kind e.node ++ ms) (marks_of-append id es ys)
    ∙ sym (append_assoc (mark_of id e.kind e.node) (marks_of id es) (marks_of id ys))

-- the node of a step carries its id, and the step stands in the order
abbrev pub Known : String → List String → Option StepNode → Type 0
Known id order none = Unit
Known id order (some n) = (n.id ≡ id) × (elem id order ≡ true)

elem-append : (id : String) (xs ys : List String) → elem id (xs ++ ys) ≡ elem id xs || elem id ys
elem-append id [] ys = refl
elem-append id (x ∷ xs) ys = let rest = elem-append id xs ys in ground arith

Known-grow :
    (id : String) (order order' : List String) (n : Option StepNode)
    → (elem id order ≡ true → elem id order' ≡ true)
    → Known id order n
    → Known id order' n
Known-grow id order order' none grow h = tt
Known-grow id order order' (some n) grow h = (h.0, grow h.1)

-- The invariant on a builder and the stream up to it.
pub record IsTold (past : List CiEvent) (run : Run) : Type 0 where
  pub told : (id : String) → marks_of id (past ++ run.1) ≡ phase (get run.0.seen id)
  pub known : (id : String) → Known id run.0.order (get run.0.seen id)

module _ (env : StepEnv) (past : List CiEvent) where
  marks_of-emitted :
      (id : String) (es : List CiEvent) (e : CiEvent)
      → marks_of id (past ++ (es ++ (e ∷ [])))
        ≡ marks_of id (past ++ es) ++ mark_of id e.kind e.node
  unfolding marks_of
  marks_of-emitted id es e =
      ap (marks_of id) (sym (append_assoc past es (e ∷ [])))
      ∙ marks_of-append id (past ++ es) (e ∷ [])
      ∙ ap (λ ms. marks_of id (past ++ es) ++ ms) (append-nil (mark_of id e.kind e.node))

  -- an event that marks no step
  emit_silent :
      (e : CiEvent) (run : Run)
      → ((id : String) → mark_of id e.kind e.node ≡ [])
      → IsTold past run
      → IsTold past (emit env e run)
  unfolding emit
  emit_silent e (b, es) silent h = record {
    told = λ id.
        marks_of-emitted id es (stamped env b e)
        ∙ ap (λ ms. marks_of id (past ++ es) ++ ms) (silent id)
        ∙ append-nil _
        ∙ h.told id;
    known = h.known;
  }

  -- an event that makes the mark `m` on the step that is put down
  module _ (b b' : StepEventBuilder) (es : List CiEvent) (e : CiEvent) (sid : String)
      (node : StepNode) (m : Mark) (own : node.id ≡ sid)
      (marks : (id : String)
        → mark_of id e.kind e.node ≡ (if str_eq node.id id then m ∷ [] else []))
      (kept : b'.seen ≡ put b.seen sid node)
      (grow : (id : String) → elem id b.order ≡ true → elem id b'.order ≡ true)
      (listed : elem sid b'.order ≡ true)
      (next : phase (get b.seen sid) ++ (m ∷ []) ≡ phase (some node))
      (h : IsTold past (b, es)) where
    put-IsTold : IsTold past (b', es ++ (stamped env b e ∷ []))
    put-IsTold = record { told = told_after; known = known_after }
      where
        told_after :
            (id : String)
            → marks_of id (past ++ (es ++ (stamped env b e ∷ []))) ≡ phase (get b'.seen id)
        told_after id =
            marks_of-emitted id es (stamped env b e)
            ∙ rw (h.told id, marks id, own, kept)
                (rw get-put (elim (Bool-cases (str_eq sid id)) [
                  | inl same ↦
                      let here : sid ≡ id = (eq_iff sid id).0 same in
                      rw same (
                        subst (λ j. phase (get b.seen j) ++ (m ∷ []) ≡ phase (some node)) here next)
                  | inr other ↦ rw other (append-nil _)
                ]))

        known_after : (id : String) → Known id b'.order (get b'.seen id)
        known_after id = rw kept (
            rw get-put (elim (Bool-cases (str_eq sid id)) [
              | inl same ↦
                  let here : sid ≡ id = (eq_iff sid id).0 same in
                  rw same (own ∙ here, subst (λ j. elem j b'.order ≡ true) here listed)
              | inr other ↦ rw other (Known-grow id b.order b'.order _ (grow id) (h.known id))
            ]))

  start-IsTold :
      (fn : FlatNode) (run : Run) → IsTold past run → IsTold past (emit_node_started env fn run)
  unfolding emit_node_started emit
  start-IsTold fn (b, es) h = elim (Option-cases (get b.seen fn.node.span_id)) [
    | inr (n, at) ↦ rw (at, emit_node_started) h
    | inl absent ↦
        rw (absent, emit_node_started)
          (put-IsTold b _ es (start_event env fn) fn.node.span_id (started_node env fn) start refl
            (λ id. refl) refl
            (λ id at. rw (elem-append id b.order (fn.node.span_id ∷ [])) (rw at refl))
            (rw (elem-append fn.node.span_id b.order (fn.node.span_id ∷ []))
              (ends fn.node.span_id _))
            (rw absent refl) h)
  ]
    where
      ends : (id : String) (x : Bool) → x || elem id (id ∷ []) ≡ true
      ends id x = let same = eq_refl id in ground arith

  finishing :
      (prev : StepNode) (state : StepState)
      → is_running_step prev.state ≡ true
      → is_terminal_step state ≡ true
      → phase (some prev) ++ (finish ∷ []) ≡ start ∷ finish ∷ []
  finishing prev state running terminal = rw running refl

  phase-terminal :
      (n : StepNode) → is_terminal_step n.state ≡ true → phase (some n) ≡ start ∷ finish ∷ []
  phase-terminal n terminal = rw (not_running n.state terminal) refl
    where
      not_running : (st : StepState) → is_terminal_step st ≡ true → is_running_step st ≡ false
      not_running StepState.step_pending e = refl
      not_running step_running e = sym e
      not_running StepState.step_succeeded e = refl
      not_running StepState.step_failed e = refl

  finish-IsTold :
      (fn : FlatNode) (run : Run) → IsTold past run → IsTold past (emit_node_finished env fn run)
  unfolding emit_node_finished emit
  finish-IsTold fn (b, es) h = elim (Option-cases (get b.seen fn.node.span_id)) [
    | inl absent ↦ rw (absent, emit_node_finished) h
    | inr (prev, at) ↦ elim (Bool-cases (is_running_step prev.state)) [
      | inr stands ↦ rw (at, stands, emit_node_finished) h
      | inl running ↦ elim (Bool-cases (is_terminal_step (step_state_for_status fn.node.status))) [
        | inr goes_on ↦ rw (at, running, goes_on, emit_node_finished) h
        | inl terminal ↦
            rw (at, running, terminal, emit_node_finished)
              (put-IsTold b _ es (finish_event prev fn) fn.node.span_id (finished_node prev fn)
                finish refl (λ id. refl) refl (λ id e. e)
                ((subst (λ x. Known fn.node.span_id b.order x) at (h.known fn.node.span_id)).1)
                (rw (at, running) (sym (phase-terminal (finished_node prev fn) terminal))) h)
      ]
    ]
  ]

  chunks-IsTold :
      (chunks : List LogChunk) (run : Run)
      → IsTold past run
      → IsTold past (emit_chunks env chunks run)
  unfolding emit_chunks
  chunks-IsTold [] run h = h
  chunks-IsTold (ch ∷ chunks) run h =
      chunks-IsTold chunks _ (emit_silent (chunk_event ch) run (λ id. refl) h)

  each-IsTold :
      (f : ℕ → Run → Run)
      → ((i : ℕ) (run : Run) → IsTold past run → IsTold past (f i run))
      → (is : List ℕ) (run : Run) → IsTold past run
      → IsTold past (each f is run)
  each-IsTold f keeps [] run h = h
  each-IsTold f keeps (i ∷ is) run h = each-IsTold f keeps is (f i run) (keeps i run h)

  pub visit-IsTold :
      (flat : List FlatNode) (edges : List (ℕ × ℕ)) (chunks : Map (List LogChunk)) (fuel idx : ℕ)
      (run : Run)
      → IsTold past run
      → IsTold past (visit env flat edges chunks fuel idx run)
  unfolding visit
  visit-IsTold flat edges chunks zero idx run h = h
  visit-IsTold flat edges chunks (suc fuel) idx run h = elim (Option-cases (flat_at flat idx)) [
    | inl out ↦ rw (out, visit) h
    | inr (fn, at) ↦
        rw (at, visit)
          (finish-IsTold fn _ (
            chunks-IsTold (chunks_of chunks fn.node.span_id) _ (
              each-IsTold (visit env flat edges chunks fuel) (visit-IsTold flat edges chunks fuel)
                (children_of edges idx) _ (start-IsTold fn run h))))
  ]

  pub terminal-IsTold :
      (trace : TraceInfo) (run : Run) → IsTold past run → IsTold past (emit_terminal env trace run)
  unfolding emit_terminal emit
  terminal-IsTold trace (b, es) h = elim (Option-cases (terminal_status trace)) [
    | inl open_ended ↦ rw (open_ended, emit_terminal) h
    | inr (status, at) ↦ elim (Bool-cases b.pipeline_done) [
      | inl done ↦ rw (at, done, emit_terminal) (record { told = h.told; known = h.known })
      | inr going ↦
          let reason = if str_eq status "failed" then failure_reason trace.root_span else "" in
          let told = emit_silent (done_event status reason) (b, es) (λ id. refl) h in
          rw (at, going, emit_terminal) (record { told = told.told; known = told.known })
    ]
  ]

  pub watermark-IsTold :
      (logs : List LogEntry) (b : StepEventBuilder) (es : List CiEvent)
      → IsTold past (b, es)
      → IsTold past (advance_watermark env logs b, es)
  unfolding advance_watermark
  watermark-IsTold [] b es h = h
  watermark-IsTold (e ∷ logs) b es h =
      elim (Bool-cases (ltb (newest_from zero_time (e ∷ logs)) b.log_mark)) [
        | inl stale ↦ rw (stale, advance_watermark) h
        | inr newer ↦ rw (newer, advance_watermark) (record { told = h.told; known = h.known })
      ]

  pub final-IsTold :
      (status err_msg : String) (run : Run)
      → IsTold past run
      → IsTold past (emit_final env status err_msg run)
  unfolding emit_final emit
  final-IsTold status err_msg (b, es) h = elim (Bool-cases b.pipeline_done) [
    | inl done ↦ rw (done, emit_final) (record { told = h.told; known = h.known })
    | inr going ↦
        let told = emit_silent (done_event status err_msg) (b, es) (λ id. refl) h in
        rw (going, emit_final) (record { told = told.told; known = told.known })
  ]

  module _ (terminal : StepState) (ends : is_terminal_step terminal ≡ true) where
    close_step-IsTold :
        (id : String) (run : Run) → IsTold past run → IsTold past (close_step env terminal id run)
    unfolding close_step emit
    close_step-IsTold id (b, es) h = elim (Option-cases (get b.seen id)) [
      | inl absent ↦ rw (absent, close_step) h
      | inr (n, at) ↦
          let (own, listed) = subst (λ x. Known id b.order x) at (h.known id) in
          elim (Bool-cases (is_running_step n.state)) [
            | inr stands ↦ rw (at, stands, close_step) h
            | inl running ↦
                rw (at, running, close_step)
                  (put-IsTold b _ es (close_event n terminal) id (closed_node n terminal) finish own
                    (λ j. refl) refl (λ j e. e) listed
                    (rw (at, running) (sym (phase-terminal (closed_node n terminal) ends))) h)
          ]
    ]

    pub close-IsTold :
        (ids : List String) (run : Run)
        → IsTold past run
        → IsTold past (close_running env terminal ids run)
    unfolding close_running
    close-IsTold [] run h = h
    close-IsTold (id ∷ ids) run h = close_step-IsTold id _ (close-IsTold ids run h)
