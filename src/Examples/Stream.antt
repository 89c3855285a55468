-- ===== src/Examples/Stream.antt =====
-- The theorems on the CI event stream at a concrete trace.
use dagger_kubernetes.Prelude.{
  pos, ◌+◌, ◌≤◌, ◌<◌, true, ◌≡◌, ◌⊎◌, refl, some, none, [], ◌∷◌, List, String, arith, length, All,
  is_some,
}
use dagger_kubernetes.Maps.{get, put, empty, elem}
use dagger_kubernetes.Steps.{
  Span, SpanNode, span_node, no_children, nil_child, child, TraceInfo, LogEntry, StepEventBuilder,
  StepEnv, new_step_event_builder,
}
use dagger_kubernetes.Steps.Flatten.{
  flatten_trace, clamp_depth, walk, visit_of, is_internal_span_name, has_any_prefix, has_prefix,
}
use dagger_kubernetes.Steps.Logs.{max_mark_keys}
use dagger_kubernetes.Steps.Builder.{Run, advance, visit, link_from, emit_tree}
use dagger_kubernetes.Steps.Protocol.{start, finish, marks_of}
use dagger_kubernetes.Steps.Stream.{
  Call, advancing, finalizing, after_call, after_calls, stream, step_life,
}
use dagger_kubernetes.Steps.Closing.{finalize_closes}
use dagger_kubernetes.Steps.Adds.{dones}
use dagger_kubernetes.Steps.Numbered.{IsNumbered, stream-IsNumbered, pipeline_done_once}
use dagger_kubernetes.Steps.Idempotent.{advance_again}
use dagger_kubernetes.Steps.Fuel.{emit_tree_fuel}
use dagger_kubernetes.Steps.Sound.{ids, IsNub}
use dagger_kubernetes.Steps.Flat.{stands_in, can_be_reached, flatten_trace_sound}

abbrev ci : StepEnv
ci = record { fields = λ s. s ∷ []; clock = λ n. 1000 + n; range = λ ks. ks }

abbrev root : Span
root = record {
  span_id = "r";
  name = "build";
  status = "";
  start_time = 100;
  duration = 0;
  attributes = [];
}

-- a running root, a finished child, and an internal span
abbrev tree : SpanNode
tree = span_node root (
    child
      (span_node (record root { span_id = "a"; name = "test"; status = "success"; duration = 7 })
        no_children)
      (nil_child (
        child (span_node (record root { span_id = "b"; name = "GET /" }) no_children) no_children)))

abbrev snapshot : TraceInfo
snapshot = record { trace_id = "t1"; root_span = some tree; status = "" }

abbrev lines : List LogEntry
lines = record { timestamp = 101; line = "compiling"; span_id = "b" } ∷ []

abbrev calls : List Call
calls = advancing (some snapshot) lines ∷ advancing (some snapshot) lines ∷ []

abbrev builder : StepEventBuilder
builder = new_step_event_builder (pos 8)

-- the first Advance
abbrev first_run : Run
first_run = elim (advance ci (some snapshot) lines builder) [ none ↦ (builder, []) | some r ↦ r ]

step_life_example :
    (marks_of "a" (stream ci (pos 8) calls) ≡ [])
    ⊎ (marks_of "a" (stream ci (pos 8) calls) ≡ start ∷ [])
    ⊎ (marks_of "a" (stream ci (pos 8) calls) ≡ start ∷ finish ∷ [])
step_life_example = step_life ci (pos 8) calls "a"

finalize_closes_example :
    (marks_of "r"
        (after_call ci
          (finalizing "failed" "exit 1")
          (after_calls ci calls (new_step_event_builder (pos 8), []))).1
      ≡ [])
    ⊎ (marks_of "r"
          (after_call ci
            (finalizing "failed" "exit 1")
            (after_calls ci calls (new_step_event_builder (pos 8), []))).1
        ≡ start ∷ finish ∷ [])
finalize_closes_example = finalize_closes ci (pos 8) calls "failed" "exit 1" "r"

stream-IsNumbered_example : IsNumbered 0 (stream ci (pos 8) calls)
stream-IsNumbered_example = stream-IsNumbered ci (pos 8) calls

pipeline_done_once_example :
    (dones (stream ci (pos 8) calls) < 2)
    × ((status err_msg : String)
        → dones
            (after_call ci
              (finalizing status err_msg)
              (after_calls ci calls (new_step_event_builder (pos 8), []))).1
          ≡ 1)
pipeline_done_once_example = pipeline_done_once ci (pos 8) calls

room : length builder.mark_keys + length lines ≤ max_mark_keys
unfolding new_step_event_builder
room = omega arith

first_advance : advance ci (some snapshot) lines builder ≡ some (first_run.0, first_run.1)
unfolding new_step_event_builder advance flatten_trace clamp_depth walk visit_of
    is_internal_span_name has_any_prefix has_prefix get put empty
first_advance = refl

advance_again_example : advance ci (some snapshot) lines first_run.0 ≡ some (first_run.0, [])
advance_again_example =
    advance_again ci snapshot lines builder first_run.0 first_run.1 room first_advance

few : length (flatten_trace (some tree) (pos 8)).0 ≤ 9
unfolding flatten_trace clamp_depth walk visit_of is_internal_span_name has_any_prefix has_prefix
    get put empty
few = omega arith

emit_tree_fuel_example :
    visit ci
      (flatten_trace (some tree) (pos 8)).0
      (link_from
        (flatten_trace (some tree) (pos 8)).0
        0
        (flatten_trace (some tree) (pos 8)).0
        []
        [])
      []
      9
      0
      (builder, [])
    ≡ emit_tree ci (flatten_trace (some tree) (pos 8)).0 [] (builder, [])
emit_tree_fuel_example =
    emit_tree_fuel ci (flatten_trace (some tree) (pos 8)).0 [] 9 (builder, []) few

flatten_trace_sound_example :
    IsNub (ids (flatten_trace (some tree) (pos 8)).0)
    × All (λ fn. fn.depth ≤ clamp_depth (pos 8)) (flatten_trace (some tree) (pos 8)).0
    × (clamp_depth (pos 8) ≤ 1024)
    × ((id owner : String)
        → get (flatten_trace (some tree) (pos 8)).1 id ≡ some owner
        → (elem owner (ids (flatten_trace (some tree) (pos 8)).0) ≡ true)
          × (0 < stands_in (some tree) id))
    × ((id : String)
        → elem id (ids (flatten_trace (some tree) (pos 8)).0) ≡ true
        → get (flatten_trace (some tree) (pos 8)).1 id ≡ some id)
    × ((id : String)
        → can_be_reached (some tree) (pos 8) id ≡ true
        → is_some (get (flatten_trace (some tree) (pos 8)).1 id) ≡ true)
flatten_trace_sound_example = flatten_trace_sound (some tree) (pos 8)
