-- ===== src/Steps/Adds.antt =====
-- What a part of a call adds to the stream: numbered events, and at most one end of the pipeline.
use dagger_kubernetes.Prelude.{
  ℕ, zero, suc, ◌+◌, Bool, true, false, ◌≡◌, inl, inr, refl, sym, ap, ◌∙◌, subst, List, [], ◌∷◌,
  ◌++◌, String, str_eq, arith, Bool-cases, Option-cases, if◌then◌else◌,
}
use dagger_kubernetes.Maps.{Map, get}
use dagger_kubernetes.Steps.{
  StepState, CiEvent, CiEventType, event_node_started, event_node_finished, event_log_chunk,
  event_pipeline_done, LogChunk, TraceInfo, StepEventBuilder, StepEnv,
}
use dagger_kubernetes.Steps.Flatten.{
  FlatNode, step_state_for_status, terminal_status, failure_reason,
}
use dagger_kubernetes.Steps.Logs.{chunks_of}
use dagger_kubernetes.Steps.Builder.{
  Run, next_seq, stamped, emit, start_event, finish_event, chunk_event, close_event, done_event,
  is_running_step, is_terminal_step, emit_node_started, emit_node_finished, flat_at, children_of,
  emit_chunks, each, visit, emit_terminal, close_step, close_running, emit_final,
}
use dagger_kubernetes.Steps.Protocol.{append-nil, append_assoc}

abbrev pub ends_pipeline : CiEventType → ℕ
ends_pipeline event_node_started = 0
ends_pipeline event_node_finished = 0
ends_pipeline event_log_chunk = 0
ends_pipeline event_pipeline_done = 1

-- how many events of a stream end the pipeline
unfoldable pub dones : List CiEvent → ℕ
dones [] = 0
dones (e ∷ es) = ends_pipeline e.kind + dones es

abbrev pub as_count : Bool → ℕ
as_count true = 1
as_count false = 0

-- each event carries the counter's next value
abbrev pub IsCounted : ℕ → List CiEvent → Type 0
IsCounted seq [] = Unit
IsCounted seq (e ∷ es) = (e.seq ≡ next_seq seq) × IsCounted (next_seq seq) es

-- the number of the last event
unfoldable pub last_seq : ℕ → List CiEvent → ℕ
last_seq seq [] = seq
last_seq seq (e ∷ es) = last_seq (next_seq seq) es

-- What the part of a call from `run` to `run'` adds.
pub record Adds (run run' : Run) : Type 0 where
  pub new : List CiEvent
  pub appended : run'.1 ≡ run.1 ++ new
  pub numbered : IsCounted run.0.seq new
  pub last : run'.0.seq ≡ last_seq run.0.seq new
  pub ended : dones new + as_count run.0.pipeline_done ≡ as_count run'.0.pipeline_done

pub adds-nothing :
    (b b' : StepEventBuilder) (es : List CiEvent)
    → b'.seq ≡ b.seq
    → b'.pipeline_done ≡ b.pipeline_done
    → Adds (b, es) (b', es)
unfolding dones last_seq
adds-nothing b b' es same_seq same_done = record {
  new = [];
  appended = sym (append-nil es);
  numbered = tt;
  last = same_seq;
  ended = rw same_done (omega arith);
}

pub IsCounted-append :
    (seq : ℕ) (xs ys : List CiEvent)
    → IsCounted seq xs
    → IsCounted (last_seq seq xs) ys
    → IsCounted seq (xs ++ ys)
unfolding last_seq
IsCounted-append seq [] ys h k = k
IsCounted-append seq (x ∷ xs) ys h k = (h.0, IsCounted-append (next_seq seq) xs ys h.1 k)

pub last_seq-append :
    (seq : ℕ) (xs ys : List CiEvent) → last_seq seq (xs ++ ys) ≡ last_seq (last_seq seq xs) ys
unfolding last_seq
last_seq-append seq [] ys = refl
last_seq-append seq (x ∷ xs) ys = last_seq-append (next_seq seq) xs ys

pub dones-append : (xs ys : List CiEvent) → dones (xs ++ ys) ≡ dones xs + dones ys
unfolding dones
dones-append [] ys = omega arith
dones-append (x ∷ xs) ys = let rest = dones-append xs ys in omega arith

pub adds_trans : (r r' r'' : Run) → Adds r r' → Adds r' r'' → Adds r r''
adds_trans r r' r'' h k = record {
  new = h.new ++ k.new;
  appended = k.appended ∙ rw h.appended (append_assoc r.1 h.new k.new);
  numbered =
      IsCounted-append r.0.seq h.new k.new h.numbered
        (subst (λ n. IsCounted n k.new) h.last k.numbered);
  last = k.last ∙ ap (λ n. last_seq n k.new) h.last ∙ sym (last_seq-append r.0.seq h.new k.new);
  ended =
      let parts = dones-append h.new k.new in
      let first = h.ended in let second = k.ended in omega arith;
}

module _ (env : StepEnv) where
  -- one event, and what the caller does to the other fields
  pub adds-event :
      (b b' : StepEventBuilder) (es : List CiEvent) (e : CiEvent)
      → b'.seq ≡ next_seq b.seq
      → ends_pipeline e.kind + as_count b.pipeline_done ≡ as_count b'.pipeline_done
      → Adds (b, es) (b', es ++ (stamped env b e ∷ []))
  unfolding dones last_seq
  adds-event b b' es e moved ended = record {
    new = stamped env b e ∷ [];
    appended = refl;
    numbered = (refl, tt);
    last = moved;
    ended = omega arith;
  }

  pub start_adds : (fn : FlatNode) (run : Run) → Adds run (emit_node_started env fn run)
  unfolding emit_node_started emit
  start_adds fn (b, es) = elim (Option-cases (get b.seen fn.node.span_id)) [
    | inr (n, at) ↦ rw (at, emit_node_started) (adds-nothing b b es refl refl)
    | inl absent ↦
        rw (absent, emit_node_started) (adds-event b _ es (start_event env fn) refl (omega arith))
  ]

  pub finish_adds : (fn : FlatNode) (run : Run) → Adds run (emit_node_finished env fn run)
  unfolding emit_node_finished emit
  finish_adds fn (b, es) = elim (Option-cases (get b.seen fn.node.span_id)) [
    | inl absent ↦ rw (absent, emit_node_finished) (adds-nothing b b es refl refl)
    | inr (prev, at) ↦ elim (Bool-cases (is_running_step prev.state)) [
      | inr stands ↦ rw (at, stands, emit_node_finished) (adds-nothing b b es refl refl)
      | inl running ↦ elim (Bool-cases (is_terminal_step (step_state_for_status fn.node.status))) [
        | inr goes_on ↦
            rw (at, running, goes_on, emit_node_finished) (adds-nothing b b es refl refl)
        | inl terminal ↦
            rw (at, running, terminal, emit_node_finished)
              (adds-event b _ es (finish_event prev fn) refl (omega arith))
      ]
    ]
  ]

  pub chunks_adds : (chunks : List LogChunk) (run : Run) → Adds run (emit_chunks env chunks run)
  unfolding emit_chunks emit
  chunks_adds [] (b, es) = adds-nothing b b es refl refl
  chunks_adds (ch ∷ chunks) (b, es) =
      adds_trans (b, es) _ _ (adds-event b _ es (chunk_event ch) refl (omega arith))
        (chunks_adds chunks (emit env (chunk_event ch) (b, es)))

  pub each_adds :
      (f : ℕ → Run → Run)
      → ((i : ℕ) (run : Run) → Adds run (f i run))
      → (is : List ℕ) (run : Run) → Adds run (each f is run)
  each_adds f adds [] (b, es) = adds-nothing b b es refl refl
  each_adds f adds (i ∷ is) run = adds_trans run _ _ (adds i run) (each_adds f adds is (f i run))

  pub visit_adds :
      (flat : List FlatNode) (edges : List (ℕ × ℕ)) (chunks : Map (List LogChunk)) (fuel idx : ℕ)
      (run : Run)
      → Adds run (visit env flat edges chunks fuel idx run)
  unfolding visit
  visit_adds flat edges chunks zero idx (b, es) = adds-nothing b b es refl refl
  visit_adds flat edges chunks (suc fuel) idx run = elim (Option-cases (flat_at flat idx)) [
    | inl out ↦ rw (out, visit) (adds-nothing run.0 run.0 run.1 refl refl)
    | inr (fn, at) ↦
        let started = emit_node_started env fn run in
        let below = each (visit env flat edges chunks fuel) (children_of edges idx) started in
        let logged = emit_chunks env (chunks_of chunks fn.node.span_id) below in
        rw (at, visit)
          (adds_trans run logged _
            (adds_trans run below logged
              (adds_trans run started below (start_adds fn run)
                (each_adds _ (visit_adds flat edges chunks fuel) (children_of edges idx) started))
              (chunks_adds (chunks_of chunks fn.node.span_id) below))
            (finish_adds fn logged))
  ]

  pub terminal_adds : (trace : TraceInfo) (run : Run) → Adds run (emit_terminal env trace run)
  unfolding emit_terminal emit
  terminal_adds trace (b, es) = elim (Option-cases (terminal_status trace)) [
    | inl open_ended ↦ rw (open_ended, emit_terminal) (adds-nothing b b es refl refl)
    | inr (status, at) ↦ elim (Bool-cases b.pipeline_done) [
      | inl done ↦ simp (at, done, emit_terminal) (adds-nothing b b es refl refl)
      | inr going ↦
          let reason = if str_eq status "failed" then failure_reason trace.root_span else "" in
          simp (at, going, emit_terminal)
            (adds-event b _ es (done_event status reason) refl (rw going refl))
    ]
  ]

  pub close_adds :
      (terminal : StepState) (id : String) (run : Run) → Adds run (close_step env terminal id run)
  unfolding close_step emit
  close_adds terminal id (b, es) = elim (Option-cases (get b.seen id)) [
    | inl absent ↦ rw (absent, close_step) (adds-nothing b b es refl refl)
    | inr (n, at) ↦ elim (Bool-cases (is_running_step n.state)) [
      | inr stands ↦ rw (at, stands, close_step) (adds-nothing b b es refl refl)
      | inl running ↦
          rw (at, running, close_step)
            (adds-event b _ es (close_event n terminal) refl (omega arith))
    ]
  ]

  pub close_running_adds :
      (terminal : StepState) (ids : List String) (run : Run)
      → Adds run (close_running env terminal ids run)
  unfolding close_running
  close_running_adds terminal [] (b, es) = adds-nothing b b es refl refl
  close_running_adds terminal (id ∷ ids) run =
      adds_trans run _ _ (close_running_adds terminal ids run) (close_adds terminal id _)

  pub final_adds :
      (status err_msg : String) (run : Run) → Adds run (emit_final env status err_msg run)
  unfolding emit_final emit
  final_adds status err_msg (b, es) = elim (Bool-cases b.pipeline_done) [
    | inl done ↦ simp (done, emit_final) (adds-nothing b b es refl refl)
    | inr going ↦
        simp (going, emit_final)
          (adds-event b _ es (done_event status err_msg) refl (rw going refl))
  ]
