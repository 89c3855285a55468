-- ===== src/Steps/Builder.antt =====
-- StepEventBuilder of internal/service/ci_steps.go: `emit`, `emitTree`, Advance and Finalize. The
-- recursive closure `visit` runs on fuel: a child stands after its parent in the flat list, so
-- that the length of the list is enough. The mutex is left out.
use dagger_kubernetes.Prelude.{
  ℕ, zero, suc, ◌+◌, ◌%◌, ◌^◌, ◌&&◌, ◌||◌, not, Bool, true, false, Option, none, some, List, [],
  ◌∷◌, ◌++◌, String, str_eq, ltb, leb, ◌==◌, length, if◌then◌else◌,
}
use dagger_kubernetes.Maps.{Map, get, put}
use dagger_kubernetes.Domain.{Time, zero_time, is_zero}
use dagger_kubernetes.Steps.{
  StepState, step_pending, step_running, step_succeeded, step_failed, StepNode, LogChunk, CiEvent,
  event_of, event_node_started, event_node_finished, event_log_chunk, event_pipeline_done,
  TraceInfo, LogEntry, StepEventBuilder, StepEnv,
}
use dagger_kubernetes.Steps.Flatten.{
  FlatNode, flatten_trace, step_state_for_status, terminal_status, failure_reason,
  failure_reason_of, normalize_step_name,
}
use dagger_kubernetes.Steps.Logs.{prepare_log_chunks, chunks_of, advance_watermark}

-- a builder, and the events of the call so far
abbrev pub Run : Type 0
Run = StepEventBuilder × List CiEvent

-- `b.seq++` on an int64, carried as its bit pattern
abbrev pub next_seq : ℕ → ℕ
next_seq seq = (seq + 1) % 2 ^ 64

-- what `emit` makes of an event
abbrev pub stamped : StepEnv → StepEventBuilder → CiEvent → CiEvent
stamped env b e = record e {
  seq = next_seq b.seq;
  timestamp = if is_zero e.timestamp then env.clock (next_seq b.seq) else e.timestamp;
  trace_id = if str_eq e.trace_id "" then b.trace_id else e.trace_id;
}

-- the closure `emit` of Advance and of Finalize
unfoldable pub emit : StepEnv → CiEvent → Run → Run
emit env e (b, events) = (record b { seq = next_seq b.seq }, events ++ (stamped env b e ∷ []))

-- `node.StartTime.Add(node.Duration)` where the duration is positive
abbrev pub finish_time : FlatNode → Time
finish_time fn = if ltb 0 fn.node.duration then fn.node.start_time + fn.node.duration else zero_time

-- the node that emitNodeStarted reports
abbrev pub started_node : StepEnv → FlatNode → StepNode
started_node env fn = record {
  id = fn.node.span_id;
  parent_id = fn.parent_id;
  name = normalize_step_name env.fields fn.node.name fn.node.span_id;
  state = step_running;
  depth = fn.depth;
  started_at = fn.node.start_time;
  finished_at = finish_time fn;
}

abbrev pub start_event : StepEnv → FlatNode → CiEvent
start_event env fn = record (event_of event_node_started) { node = some (started_node env fn) }

-- emitNodeStarted
unfoldable pub emit_node_started : StepEnv → FlatNode → Run → Run
unfolding emit
emit_node_started env fn (b, events) = elim (get b.seen fn.node.span_id) [
  | some n ↦ (b, events)
  | none ↦
      let node = started_node env fn in
      let (b', events') = emit env (start_event env fn) (b, events) in
      (
        record b' {
          seen = put b.seen fn.node.span_id node;
          order = b.order ++ (fn.node.span_id ∷ []);
        },
        events',
      )
]

abbrev pub is_running_step : StepState → Bool
is_running_step step_pending = false
is_running_step step_running = true
is_running_step step_succeeded = false
is_running_step step_failed = false

abbrev pub is_terminal_step : StepState → Bool
is_terminal_step step_pending = false
is_terminal_step step_running = false
is_terminal_step step_succeeded = true
is_terminal_step step_failed = true

abbrev failure_of : StepState → FlatNode → String
failure_of step_failed fn = failure_reason_of fn.node
failure_of step_pending fn = ""
failure_of step_running fn = ""
failure_of step_succeeded fn = ""

-- the node that emitNodeFinished reports
abbrev pub finished_node : StepNode → FlatNode → StepNode
finished_node prev fn = record prev {
  id = fn.node.span_id;
  state = step_state_for_status fn.node.status;
  finished_at = finish_time fn;
}

abbrev pub finish_event : StepNode → FlatNode → CiEvent
finish_event prev fn = record (event_of event_node_finished) {
  node = some (finished_node prev fn);
  error = failure_of (step_state_for_status fn.node.status) fn;
}

-- emitNodeFinished
unfoldable pub emit_node_finished : StepEnv → FlatNode → Run → Run
unfolding emit step_state_for_status
emit_node_finished env fn (b, events) =
    let state = step_state_for_status fn.node.status in
    elim (get b.seen fn.node.span_id) [
      | none ↦ (b, events)
      | some prev ↦
          if not (is_running_step prev.state) || not (is_terminal_step state)
          then (b, events)
          else (let node = finished_node prev fn in
              let (b', events') = emit env (finish_event prev fn) (b, events) in
              (record b' { seen = put b.seen fn.node.span_id node }, events'))
    ]

-- `flat[i]`
abbrev pub flat_at : List FlatNode → ℕ → Option FlatNode
flat_at [] i = none
flat_at (fn ∷ fns) zero = some fn
flat_at (fn ∷ fns) (suc i) = flat_at fns i

-- `flat[i].depth`; the stack holds only indices of the list
abbrev depth_at : List FlatNode → ℕ → ℕ
depth_at flat i = elim (flat_at flat i) [ none ↦ 0 | some fn ↦ fn.depth ]

-- the inner loop of emitTree; the stack is written from its top
unfoldable pub pop_stack : List FlatNode → ℕ → List ℕ → List ℕ
pop_stack flat depth [] = []
pop_stack flat depth (i ∷ stack) =
    let rest = pop_stack flat depth stack in if leb depth (depth_at flat i) then rest else i ∷ stack

-- the loop of emitTree that gathers `children`, as the pairs of a parent and a child in the order of
-- the appends
unfoldable pub link_from : List FlatNode → ℕ → List FlatNode → List ℕ → List (ℕ × ℕ) → List (ℕ × ℕ)
unfolding pop_stack
link_from flat idx [] stack edges = edges
link_from flat idx (fn ∷ fns) stack edges =
    let kept = pop_stack flat fn.depth stack in
    link_from flat (idx + 1) fns (idx ∷ kept)
      (elim kept [ [] ↦ edges | parent ∷ below ↦ edges ++ ((parent, idx) ∷ []) ])

-- `children[idx]`
unfoldable pub children_of : List (ℕ × ℕ) → ℕ → List ℕ
children_of [] idx = []
children_of ((parent, c) ∷ edges) idx =
    let rest = children_of edges idx in if parent == idx then c ∷ rest else rest

abbrev pub chunk_event : LogChunk → CiEvent
chunk_event ch = record (event_of event_log_chunk) { log = some ch }

-- the loop over the chunks of a node
unfoldable pub emit_chunks : StepEnv → List LogChunk → Run → Run
unfolding emit
emit_chunks env [] run = run
emit_chunks env (ch ∷ chunks) run = emit_chunks env chunks (emit env (chunk_event ch) run)

abbrev pub each : (ℕ → Run → Run) → List ℕ → Run → Run
each f [] run = run
each f (i ∷ is) run = each f is (f i run)

-- the closure `visit`
unfoldable pub visit :
    StepEnv → List FlatNode → List (ℕ × ℕ) → Map (List LogChunk) → ℕ → ℕ → Run → Run
unfolding emit_node_started emit_node_finished emit_chunks children_of
visit env flat edges chunks zero idx run = run
visit env flat edges chunks (suc fuel) idx run = elim (flat_at flat idx) [
  | none ↦ run
  | some fn ↦ emit_node_finished env fn (
      emit_chunks env (chunks_of chunks fn.node.span_id) (
        each (visit env flat edges chunks fuel) (children_of edges idx)
          (emit_node_started env fn run)))
]

-- emitTree
unfoldable pub emit_tree : StepEnv → List FlatNode → Map (List LogChunk) → Run → Run
unfolding link_from visit
emit_tree env flat chunks run =
    visit env flat (link_from flat 0 flat [] []) chunks (length flat) 0 run

abbrev pub done_event : String → String → CiEvent
done_event status error = record (event_of event_pipeline_done) { status = status; error = error }

-- the part of Advance that ends the pipeline
unfoldable pub emit_terminal : StepEnv → TraceInfo → Run → Run
unfolding emit terminal_status failure_reason
emit_terminal env trace (b, events) = elim (terminal_status trace) [
  | none ↦ (b, events)
  | some status ↦
      let reason = if str_eq status "failed" then failure_reason trace.root_span else "" in
      let (b', events') = emit env (done_event status reason) (b, events) in
      if b.pipeline_done then (b, events) else (record b' { pipeline_done = true }, events')
]

-- Advance of a trace that is not nil, where the flat list has the root `root_id`
unfoldable pub advance_flat :
    StepEnv
    → TraceInfo
    → List LogEntry
    → List FlatNode
    → Map String
    → String
    → StepEventBuilder
    → Run
unfolding prepare_log_chunks emit_tree advance_watermark emit_terminal
advance_flat env trace logs flat attribution root_id b =
    let b0 : StepEventBuilder = record b {
      trace_id = if str_eq b.trace_id "" then trace.trace_id else b.trace_id;
    } in
    let chunks = prepare_log_chunks b0 logs attribution root_id in
    let (b1, events) = emit_tree env flat chunks (b0, []) in
    emit_terminal env trace (advance_watermark env logs b1, events)

-- Advance; `none` is the error of a nil trace
unfoldable pub advance : StepEnv → Option TraceInfo → List LogEntry → StepEventBuilder → Option Run
unfolding flatten_trace advance_flat
advance env none logs b = none
advance env (some trace) logs b =
    let (flat, attribution) = flatten_trace trace.root_span b.max_depth in
    elim flat [
      | [] ↦ some (b, [])
      | root ∷ rest ↦
          some (advance_flat env trace logs (root ∷ rest) attribution root.node.span_id b)
    ]

abbrev pub closed_node : StepNode → StepState → StepNode
closed_node n terminal = record n { state = terminal }

abbrev pub close_event : StepNode → StepState → CiEvent
close_event n terminal = record (event_of event_node_finished) {
  node = some (closed_node n terminal);
}

-- the body of the loop of Finalize
unfoldable pub close_step : StepEnv → StepState → String → Run → Run
unfolding emit
close_step env terminal id (b, events) = elim (get b.seen id) [
  | none ↦ (b, events)
  | some n ↦
      let (b', events') = emit env (close_event n terminal) (b, events) in
      if is_running_step n.state
      then (record b' { seen = put b.seen id (closed_node n terminal) }, events')
      else (b, events)
]

-- the loop of Finalize, over the order from its end
unfoldable pub close_running : StepEnv → StepState → List String → Run → Run
unfolding close_step
close_running env terminal [] run = run
close_running env terminal (id ∷ ids) run =
    close_step env terminal id (close_running env terminal ids run)

-- the status that Finalize keeps
abbrev pub final_status : String → String
final_status status =
    if not (str_eq status "failed") && not (str_eq status "canceled") then "success" else status

-- the end of Finalize
unfoldable pub emit_final : StepEnv → String → String → Run → Run
unfolding emit
emit_final env status err_msg (b, events) =
    let (b', events') =
      emit env (done_event status err_msg) (record b { pipeline_done = true }, events) in
    if b.pipeline_done then (b, events) else (b', events')

-- Finalize
unfoldable pub finalize : StepEnv → String → String → StepEventBuilder → Run
unfolding close_running emit_final
finalize env status err_msg b =
    let final = final_status status in
    let terminal = if str_eq final "success" then step_succeeded else step_failed in
    emit_final env final err_msg (close_running env terminal b.order (b, []))
