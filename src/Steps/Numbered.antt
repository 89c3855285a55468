-- ===== src/Steps/Numbered.antt =====
-- The numbers of the events, and the event that ends the pipeline.
use dagger_kubernetes.Prelude.{
  ℕ, ℤ, ◌+◌, ◌%◌, ◌^◌, ◌<◌, Bool, true, false, ◌≡◌, inl, inr, refl, sym, ap, ◌∙◌, subst, Option,
  none, some, List, [], ◌∷◌, ◌++◌, String, str_eq, arith, ltb, Bool-cases, if◌then◌else◌, length,
}
use dagger_kubernetes.Domain.{zero_time}
use dagger_kubernetes.Maps.{Map}
use dagger_kubernetes.Steps.{
  CiEvent, LogEntry, TraceInfo, StepEventBuilder, StepEnv, new_step_event_builder,
}
use dagger_kubernetes.Steps.Flatten.{FlatNode, flatten_trace}
use dagger_kubernetes.Steps.Logs.{newest_from, advance_watermark, prepare_log_chunks}
use dagger_kubernetes.Steps.Builder.{
  Run, emit, visit, link_from, emit_tree, advance_flat, advance, close_running, emit_final,
  finalize, final_status, next_seq,
}
use dagger_kubernetes.Steps.Stream.{Call, advancing, finalizing, after_call, after_calls, stream}
use dagger_kubernetes.Steps.Adds.{
  adds-nothing, adds_trans, visit_adds, terminal_adds, close_running_adds, final_adds, dones,
  as_count, IsCounted, Adds,
}

-- The events after the first `n` carry the numbers n + 1, n + 2 and so on, each as the bit pattern of
-- an int64.
abbrev pub IsNumbered : ℕ → List CiEvent → Type 0
IsNumbered n [] = Unit
IsNumbered n (e ∷ es) = (e.seq ≡ (n + 1) % 2 ^ 64) × IsNumbered (n + 1) es

-- the counter after `n` events goes on to the number of the next one
next_seq-counts : (n : ℕ) → next_seq (n % 2 ^ 64) ≡ (n + 1) % 2 ^ 64
next_seq-counts n = omega arith

IsCounted-IsNumbered : (n : ℕ) (es : List CiEvent) → IsCounted (n % 2 ^ 64) es → IsNumbered n es
IsCounted-IsNumbered n [] h = tt
IsCounted-IsNumbered n (e ∷ es) h = (
  h.0 ∙ next_seq-counts n,
  IsCounted-IsNumbered (n + 1) es (subst (λ k. IsCounted k es) (next_seq-counts n) h.1),
)

module _ (env : StepEnv) where
  watermark_adds :
      (logs : List LogEntry) (b : StepEventBuilder) (es : List CiEvent)
      → Adds (b, es) (advance_watermark env logs b, es)
  unfolding advance_watermark
  watermark_adds [] b es = adds-nothing b b es refl refl
  watermark_adds (e ∷ logs) b es =
      elim (Bool-cases (ltb (newest_from zero_time (e ∷ logs)) b.log_mark)) [
        | inl stale ↦ rw (stale, advance_watermark) (adds-nothing b b es refl refl)
        | inr newer ↦ rw (newer, advance_watermark) (adds-nothing b _ es refl refl)
      ]

  advance_flat_adds :
      (trace : TraceInfo) (logs : List LogEntry) (flat : List FlatNode) (attribution : Map String)
      (root_id : String) (b : StepEventBuilder)
      → Adds (b, []) (advance_flat env trace logs flat attribution root_id b)
  unfolding advance_flat emit_tree
  advance_flat_adds trace logs flat attribution root_id b =
      let b0 : StepEventBuilder = record b {
        trace_id = if str_eq b.trace_id "" then trace.trace_id else b.trace_id;
      } in
      let tree : Run =
        visit env flat (link_from flat 0 flat [] [])
          (prepare_log_chunks b0 logs attribution root_id) (length flat) 0 (b0, []) in
      let marked : Run = (advance_watermark env logs tree.0, tree.1) in
      adds_trans (b, []) marked _
        (adds_trans (b, []) tree marked
          (adds_trans (b, []) (b0, []) tree (adds-nothing b b0 [] refl refl)
            (visit_adds env flat (link_from flat 0 flat [] [])
              (prepare_log_chunks b0 logs attribution root_id) (length flat) 0 (b0, [])))
          (watermark_adds logs tree.0 tree.1))
        (terminal_adds env trace marked)

  finalize_adds :
      (status err_msg : String) (b : StepEventBuilder)
      → Adds (b, []) (finalize env status err_msg b)
  unfolding finalize
  finalize_adds status err_msg b =
      adds_trans (b, []) _ _ (close_running_adds env _ b.order (b, []))
        (final_adds env (final_status status) err_msg _)

  -- the events of a call join the stream
  joined :
      (b b' : StepEventBuilder) (past es : List CiEvent)
      → Adds (b, []) (b', es)
      → Adds (b, past) (b', past ++ es)
  joined b b' past es h = record {
    new = h.new;
    appended = ap (λ xs. past ++ xs) h.appended;
    numbered = h.numbered;
    last = h.last;
    ended = h.ended;
  }

  after_call_adds : (c : Call) (run : Run) → Adds run (after_call env c run)
  unfolding after_call advance
  after_call_adds (finalizing status err_msg) (b, past) =
      joined b _ past _ (finalize_adds status err_msg b)
  after_call_adds (advancing none logs) (b, past) = adds-nothing b b past refl refl
  after_call_adds (advancing (some trace) logs) (b, past) =
      advanced (flatten_trace trace.root_span b.max_depth).0
    where
      advanced :
          (flat : List FlatNode)
          → Adds
              (b, past)
              (elim (elim flat as (λ x. Option Run) [
                | [] ↦ some (b, [])
                | root ∷ rest ↦ some (
                    advance_flat env trace logs
                      (root ∷ rest)
                      (flatten_trace trace.root_span b.max_depth).1
                      root.node.span_id
                      b)
              ])
                as (λ x. Run) [ none ↦ (b, past) | some r ↦ (r.0, past ++ r.1) ])
      advanced [] = joined b b past [] (adds-nothing b b [] refl refl)
      advanced (root ∷ rest) =
          joined b _ past _ (advance_flat_adds trace logs (root ∷ rest) _ root.node.span_id b)

  after_calls_adds : (cs : List Call) (run : Run) → Adds run (after_calls env cs run)
  unfolding after_calls
  after_calls_adds [] (b, past) = adds-nothing b b past refl refl
  after_calls_adds (c ∷ cs) run =
      adds_trans run (after_call env c run) _ (after_call_adds c run) (after_calls_adds cs _)

  -- Over any sequence of Advance and Finalize on a new builder, the events carry the numbers 1, 2, 3
  -- and so on, in the order of the stream and without a gap: the event at position n carries n, as
  -- the bit pattern of an int64.
  pub stream-IsNumbered : (max_depth : ℤ) (cs : List Call) → IsNumbered 0 (stream env max_depth cs)
  unfolding new_step_event_builder
  stream-IsNumbered max_depth cs =
      let h = after_calls_adds cs (new_step_event_builder max_depth, []) in
      subst (IsNumbered 0) (sym h.appended) (IsCounted-IsNumbered 0 h.new h.numbered)

  finalize_done :
      (status err_msg : String) (b : StepEventBuilder)
      → (finalize env status err_msg b).0.pipeline_done ≡ true
  unfolding finalize emit_final emit
  finalize_done status err_msg b = ends (close_running env _ b.order (b, []))
    where
      ends : (run : Run) → (emit_final env (final_status status) err_msg run).0.pipeline_done ≡ true
      ends (b', es) = elim (Bool-cases b'.pipeline_done) [
        | inl done ↦ rw (done, emit_final) refl
        | inr going ↦ rw (going, emit_final) refl
      ]

  as_count-le : (b : Bool) → as_count b < 2
  as_count-le true = omega arith
  as_count-le false = omega arith

  -- Over any sequence of Advance and Finalize on a new builder, the stream has at most one
  -- pipeline_done, and exactly one where the last call is Finalize.
  pub pipeline_done_once :
      (max_depth : ℤ) (cs : List Call)
      → (dones (stream env max_depth cs) < 2)
        × ((status err_msg : String)
            → dones
                (after_call env
                  (finalizing status err_msg)
                  (after_calls env cs (new_step_event_builder max_depth, []))).1
              ≡ 1)
  unfolding new_step_event_builder after_call
  pipeline_done_once max_depth cs = (at_most, exactly)
    where
      start : Run
      start = (new_step_event_builder max_depth, [])

      counted : (run : Run) → Adds start run → dones run.1 ≡ as_count run.0.pipeline_done
      counted run h = rw h.appended (let ended = h.ended in omega arith)

      at_most : dones (stream env max_depth cs) < 2
      at_most =
          let all = counted _ (after_calls_adds cs start) in
          let few = as_count-le (after_calls env cs start).0.pipeline_done in omega arith

      exactly :
          (status err_msg : String)
          → dones (after_call env (finalizing status err_msg) (after_calls env cs start)).1 ≡ 1
      exactly status err_msg =
          let run = after_calls env cs start in
          counted _ (
            adds_trans start run _ (after_calls_adds cs start)
              (after_call_adds (finalizing status err_msg) run))
          ∙ ap as_count (finalize_done status err_msg run.0)
