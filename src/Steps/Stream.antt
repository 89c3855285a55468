-- ===== src/Steps/Stream.antt =====
-- The stream over any sequence of calls of Advance and Finalize on a new builder.
use dagger_kubernetes.Prelude.{
  ℤ, Bool, true, false, ◌≡◌, ◌⊎◌, inl, inr, refl, ap, ◌∙◌, Option, none, some, List, [], ◌∷◌, ◌++◌,
  String, str_eq, Bool-cases, length, if◌then◌else◌,
}
use dagger_kubernetes.Maps.{Map, get, empty}
use dagger_kubernetes.Steps.{
  step_succeeded, step_failed, StepNode, CiEvent, TraceInfo, LogEntry, StepEventBuilder, StepEnv,
  new_step_event_builder,
}
use dagger_kubernetes.Steps.Flatten.{FlatNode, flatten_trace}
use dagger_kubernetes.Steps.Logs.{prepare_log_chunks}
use dagger_kubernetes.Steps.Builder.{
  Run, emit_tree, link_from, advance_flat, advance, finalize, final_status, is_terminal_step,
  is_running_step,
}
use dagger_kubernetes.Steps.Protocol.{
  start, finish, marks_of, phase, IsTold, append-nil, visit-IsTold, terminal-IsTold,
  watermark-IsTold, final-IsTold, close-IsTold,
}

-- a call of the builder
pub data Call : Type 0 where
  advancing : Option TraceInfo → List LogEntry → Call
  finalizing : String → String → Call

-- the builder after a call, and the stream with the events of the call
unfoldable pub after_call : StepEnv → Call → Run → Run
unfolding advance finalize
after_call env (advancing trace logs) (b, past) = elim (advance env trace logs b) [
  | none ↦ (b, past)
  | some (b', events) ↦ (b', past ++ events)
]
after_call env (finalizing status err_msg) (b, past) =
    let (b', events) = finalize env status err_msg b in (b', past ++ events)

unfoldable pub after_calls : StepEnv → List Call → Run → Run
unfolding after_call
after_calls env [] run = run
after_calls env (c ∷ cs) run = after_calls env cs (after_call env c run)

-- a stream that stands, as the start of the next call
pub shifted :
    {past : List CiEvent} {b : StepEventBuilder} {es : List CiEvent}
    → IsTold past (b, es)
    → IsTold [] (b, past ++ es)
shifted h = record { told = h.told; known = h.known }

pub unshifted :
    {past : List CiEvent} {b : StepEventBuilder} → IsTold [] (b, past) → IsTold past (b, [])
unshifted {past} {b} h = record {
  told = λ id. ap (marks_of id) (append-nil past) ∙ h.told id;
  known = h.known;
}

module _ (env : StepEnv) where
  advance_flat-IsTold :
      (trace : TraceInfo) (logs : List LogEntry) (flat : List FlatNode) (attribution : Map String)
      (root_id : String) (b : StepEventBuilder) (past : List CiEvent)
      → IsTold past (b, [])
      → IsTold past (advance_flat env trace logs flat attribution root_id b)
  unfolding advance_flat emit_tree
  advance_flat-IsTold trace logs flat attribution root_id b past h =
      let b0 : StepEventBuilder = record b {
        trace_id = if str_eq b.trace_id "" then trace.trace_id else b.trace_id;
      } in
      terminal-IsTold env past trace _ (
        watermark-IsTold env past logs _ _ (
          visit-IsTold env past flat (link_from flat 0 flat [] [])
            (prepare_log_chunks b0 logs attribution root_id) (length flat) 0 (b0, [])
            (record { told = h.told; known = h.known })))

  finalize-IsTold :
      (status err_msg : String) (b : StepEventBuilder) (past : List CiEvent)
      → IsTold past (b, [])
      → IsTold past (finalize env status err_msg b)
  unfolding finalize
  finalize-IsTold status err_msg b past h =
      final-IsTold env past (final_status status) err_msg _
        (close-IsTold env past _ (ends (str_eq (final_status status) "success")) b.order (b, []) h)
    where
      ends : (ok : Bool) → is_terminal_step (if ok then step_succeeded else step_failed) ≡ true
      ends true = refl
      ends false = refl

  pub after_call-IsTold : (c : Call) (run : Run) → IsTold [] run → IsTold [] (after_call env c run)
  unfolding after_call advance
  after_call-IsTold (finalizing status err_msg) (b, past) h =
      shifted (finalize-IsTold status err_msg b past (unshifted h))
  after_call-IsTold (advancing none logs) (b, past) h = h
  after_call-IsTold (advancing (some trace) logs) (b, past) h =
      advanced (flatten_trace trace.root_span b.max_depth).0
    where
      advanced :
          (flat : List FlatNode)
          → IsTold []
              (elim (elim flat as (λ x. Option Run) [
                | [] ↦ some (b, [])
                | root ∷ rest ↦ some (
                    advance_flat env trace logs
                      (root ∷ rest)
                      (flatten_trace trace.root_span b.max_depth).1
                      root.node.span_id
                      b)
              ])
                as (λ x. Run) [ none ↦ (b, past) | some r ↦ (r.0, past ++ r.1) ])
      advanced [] = shifted (unshifted h)
      advanced (root ∷ rest) =
          shifted
            (advance_flat-IsTold trace logs (root ∷ rest) _ root.node.span_id b past (unshifted h))

  pub after_calls-IsTold :
      (cs : List Call) (run : Run) → IsTold [] run → IsTold [] (after_calls env cs run)
  unfolding after_calls
  after_calls-IsTold [] run h = h
  after_calls-IsTold (c ∷ cs) run h = after_calls-IsTold cs _ (after_call-IsTold c run h)

  pub new-IsTold : (max_depth : ℤ) → IsTold [] (new_step_event_builder max_depth, [])
  unfolding new_step_event_builder marks_of get empty
  new-IsTold max_depth = record { told = λ id. refl; known = λ id. tt }

  -- the stream of a new builder after some calls
  abbrev pub stream : ℤ → List Call → List CiEvent
  stream max_depth cs = (after_calls env cs (new_step_event_builder max_depth, [])).1

  pub phase-cases :
      (o : Option StepNode)
      → (phase o ≡ []) ⊎ (phase o ≡ start ∷ []) ⊎ (phase o ≡ start ∷ finish ∷ [])
  phase-cases none = inl refl
  phase-cases (some n) = elim (Bool-cases (is_running_step n.state)) [
    | inl running ↦ inr (inl (rw running refl))
    | inr closed ↦ inr (inr (rw closed refl))
  ]

  -- Over any sequence of Advance and Finalize on a new builder, the stream starts each step at most
  -- once, finishes it at most once, and finishes it only after it has started.
  pub step_life :
      (max_depth : ℤ) (cs : List Call) (id : String)
      → (marks_of id (stream max_depth cs) ≡ [])
        ⊎ (marks_of id (stream max_depth cs) ≡ start ∷ [])
        ⊎ (marks_of id (stream max_depth cs) ≡ start ∷ finish ∷ [])
  step_life max_depth cs id =
      let h = after_calls-IsTold cs _ (new-IsTold max_depth) in rw (h.told id) (phase-cases _)
