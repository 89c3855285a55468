-- ===== src/Steps.antt =====
-- The stream of CI events that internal/service/ci_steps.go makes of snapshots of a trace, with the
-- types of internal/domain/ci_steps.go and those of internal/domain/telemetry.go that it reads. A
-- duration of 0 stands for one that is not positive, and a `time.Time` of 0 for Go's zero time.
pub mod Flatten
pub mod Logs
pub mod Builder
pub mod Protocol
pub mod Stream
pub mod Closing
pub mod Adds
pub mod Numbered
pub mod Idempotent
pub mod Fuel
pub mod Walked
pub mod Reached
pub mod Sound
pub mod Flat
use dagger_kubernetes.Prelude.{ℕ, ℤ, Bool, false, Option, none, some, List, [], String}
use dagger_kubernetes.Maps.{Map, empty}
use dagger_kubernetes.Domain.{Time, zero_time}

-- StepState
pub data StepState : Type 0 where
  step_pending step_running step_succeeded step_failed : StepState

pub record StepNode : Type 0 where
  pub id : String
  pub parent_id : String
  pub name : String
  pub state : StepState
  pub depth : ℕ
  pub started_at : Time
  pub finished_at : Time

pub record LogChunk : Type 0 where
  pub node_id : String
  pub timestamp : Time
  pub lines : List String

-- CIEventType
pub data CiEventType : Type 0 where
  event_node_started event_node_finished event_log_chunk event_pipeline_done : CiEventType

pub record CiEvent : Type 0 where
  pub seq : ℕ
  pub kind : CiEventType
  pub trace_id : String
  pub timestamp : Time
  pub node : Option StepNode
  pub log : Option LogChunk
  pub status : String
  pub error : String

-- `CIEvent{Type: kind}`
abbrev pub event_of : CiEventType → CiEvent
event_of kind = record {
  seq = 0;
  kind = kind;
  trace_id = "";
  timestamp = zero_time;
  node = none;
  log = none;
  status = "";
  error = "";
}

-- the fields of a SpanNode that the builder reads, without its children
pub record Span : Type 0 where
  pub span_id : String
  pub name : String
  pub status : String
  pub start_time : Time
  pub duration : ℕ
  pub attributes : Map String

-- SpanNode and its `Children []*SpanNode`, whose entries may be nil
mutual
  pub data SpanNode : Type 0 where
    span_node : Span → SpanNodes → SpanNode

  pub data SpanNodes : Type 0 where
    no_children : SpanNodes
    nil_child : SpanNodes → SpanNodes
    child : SpanNode → SpanNodes → SpanNodes

abbrev pub span_of : SpanNode → Span
span_of (span_node n ns) = n

-- the fields of a TraceInfo that the builder reads
pub record TraceInfo : Type 0 where
  pub trace_id : String
  pub root_span : Option SpanNode
  pub status : String

pub record LogEntry : Type 0 where
  pub timestamp : Time
  pub line : String
  pub span_id : String

-- logMarkKey
pub record LogMarkKey : Type 0 where
  pub span_id : String
  pub line : String

-- the fields under `mu`, and the depth clamp; a Go map used as a set is a list of its keys
pub record StepEventBuilder : Type 0 where
  pub max_depth : ℤ
  pub seen : Map StepNode
  pub order : List String
  pub log_mark : Time
  pub mark_keys : List LogMarkKey
  pub trace_id : String
  pub seq : ℕ
  pub pipeline_done : Bool

-- NewStepEventBuilder
unfoldable pub new_step_event_builder : ℤ → StepEventBuilder
new_step_event_builder max_depth = record {
  max_depth = max_depth;
  seen = empty;
  order = [];
  log_mark = zero_time;
  mark_keys = [];
  trace_id = "";
  seq = 0;
  pipeline_done = false;
}

-- What stands outside the repository: `strings.Fields`, `time.Now` at the event with a number, and
-- the order in which `range` visits the keys of a map.
pub record StepEnv : Type 0 where
  pub fields : String → List String
  pub clock : ℕ → Time
  pub range : List LogMarkKey → List LogMarkKey
