-- ===== src/Steps/Idempotent/Settled.antt =====
-- What a walk of emitTree leaves, and that it has nothing to emit the second time.
use dagger_kubernetes.Prelude.{
  ℕ, zero, suc, Bool, true, false, not, ◌||◌, ◌≡◌, ◌⊎◌, inl, inr, refl, sym, ◌∙◌, subst, Option,
  none, some, List, [], ◌∷◌, String, str_eq, eq_iff, arith, Bool-cases, Option-cases, is_some, All,
  All-imp,
}
use dagger_kubernetes.Maps.{Map, get, put, get-put}
use dagger_kubernetes.Steps.{
  StepState, step_pending, step_running, step_succeeded, step_failed, StepNode, LogChunk,
  StepEventBuilder, StepEnv,
}
use dagger_kubernetes.Steps.Flatten.{FlatNode, step_state_for_status}
use dagger_kubernetes.Steps.Builder.{
  Run, emit, started_node, finished_node, chunk_event, is_running_step, is_terminal_step,
  emit_node_started, emit_node_finished, flat_at, children_of, emit_chunks, each,
}

-- the step has been started, and it is not to be finished by the span as it stands
abbrev pub settled : FlatNode → Option StepNode → Bool
settled fn none = false
settled fn (some n) =
    not (is_running_step n.state) || not (is_terminal_step (step_state_for_status fn.node.status))

-- What a part of the walk keeps.
pub record Keeps (b b' : StepEventBuilder) : Type 0 where
  pub same_depth : b'.max_depth ≡ b.max_depth
  pub same_trace : b'.trace_id ≡ b.trace_id
  pub same_mark : b'.log_mark ≡ b.log_mark
  pub same_keys : b'.mark_keys ≡ b.mark_keys
  pub started : (id : String) → is_some (get b.seen id) ≡ true → is_some (get b'.seen id) ≡ true
  pub settled_still :
      (fn : FlatNode)
      → settled fn (get b.seen fn.node.span_id) ≡ true
      → settled fn (get b'.seen fn.node.span_id) ≡ true

pub keeps-all :
    (b b' : StepEventBuilder)
    → b'.max_depth ≡ b.max_depth
    → b'.trace_id ≡ b.trace_id
    → b'.log_mark ≡ b.log_mark
    → b'.mark_keys ≡ b.mark_keys
    → b'.seen ≡ b.seen
    → Keeps b b'
keeps-all b b' d t m k s = record {
  same_depth = d;
  same_trace = t;
  same_mark = m;
  same_keys = k;
  started = λ id h. rw s h;
  settled_still = λ fn h. rw s h;
}

pub keeps_trans : (b b' b'' : StepEventBuilder) → Keeps b b' → Keeps b' b'' → Keeps b b''
keeps_trans b b' b'' h k = record {
  same_depth = k.same_depth ∙ h.same_depth;
  same_trace = k.same_trace ∙ h.same_trace;
  same_mark = k.same_mark ∙ h.same_mark;
  same_keys = k.same_keys ∙ h.same_keys;
  started = λ id e. k.started id (h.started id e);
  settled_still = λ fn e. k.settled_still fn (h.settled_still fn e);
}

-- a node that is put down where there is none, or which has ended
keeps-put :
    (b b' : StepEventBuilder) (sid : String) (node : StepNode)
    → b'.max_depth ≡ b.max_depth
    → b'.trace_id ≡ b.trace_id
    → b'.log_mark ≡ b.log_mark
    → b'.mark_keys ≡ b.mark_keys
    → b'.seen ≡ put b.seen sid node
    → (get b.seen sid ≡ none) ⊎ (is_running_step node.state ≡ false)
    → Keeps b b'
keeps-put b b' sid node d t m k s new = record {
  same_depth = d;
  same_trace = t;
  same_mark = m;
  same_keys = k;
  started = λ id h.
      rw s (rw get-put (elim (Bool-cases (str_eq sid id)) [ inl e ↦ rw e refl | inr e ↦ rw e h ]));
  settled_still = λ fn h. rw s (
      rw get-put (elim (Bool-cases (str_eq sid fn.node.span_id)) [
        | inr e ↦ rw e h
        | inl e ↦ rw e (elim new [
          | inr ended ↦ rw ended refl
          | inl absent ↦
              absurd_none fn
                (subst (λ j. get b.seen j ≡ none) ((eq_iff sid fn.node.span_id).0 e) absent) h
        ])
      ]));
}
  where
    absurd_none :
        {n : Bool} (fn : FlatNode)
        → get b.seen fn.node.span_id ≡ none
        → settled fn (get b.seen fn.node.span_id) ≡ true
        → n ≡ true
    absurd_none fn absent h =
        let never : false ≡ true = subst (λ o. settled fn o ≡ true) absent h in ground arith

module _ (env : StepEnv) where
  pub start_keeps : (fn : FlatNode) (run : Run) → Keeps run.0 (emit_node_started env fn run).0
  unfolding emit_node_started emit
  start_keeps fn (b, es) = elim (Option-cases (get b.seen fn.node.span_id)) [
    | inr (n, at) ↦ rw (at, emit_node_started) (keeps-all b b refl refl refl refl refl)
    | inl absent ↦
        rw (absent, emit_node_started)
          (keeps-put b _ fn.node.span_id (started_node env fn) refl refl refl refl refl
            (inl absent))
  ]

  pub start-started :
      (fn : FlatNode) (run : Run)
      → is_some (get (emit_node_started env fn run).0.seen fn.node.span_id) ≡ true
  unfolding emit_node_started emit
  start-started fn (b, es) = elim (Option-cases (get b.seen fn.node.span_id)) [
    | inr (n, at) ↦ rw (at, emit_node_started) (rw at refl)
    | inl absent ↦
        rw (absent, emit_node_started)
          (rw get-put (rw ((eq_iff fn.node.span_id fn.node.span_id).1 refl) refl))
  ]

  terminal_stands :
      (prev : StepNode) (fn : FlatNode)
      → is_terminal_step (step_state_for_status fn.node.status) ≡ true
      → is_running_step (finished_node prev fn).state ≡ false
  terminal_stands prev fn h = stands (step_state_for_status fn.node.status) h
    where
      stands : (st : StepState) → is_terminal_step st ≡ true → is_running_step st ≡ false
      stands step_pending e = refl
      stands step_running e = sym e
      stands step_succeeded e = refl
      stands step_failed e = refl

  pub finish_keeps : (fn : FlatNode) (run : Run) → Keeps run.0 (emit_node_finished env fn run).0
  unfolding emit_node_finished emit
  finish_keeps fn (b, es) = elim (Option-cases (get b.seen fn.node.span_id)) [
    | inl absent ↦ rw (absent, emit_node_finished) (keeps-all b b refl refl refl refl refl)
    | inr (prev, at) ↦ elim (Bool-cases (is_running_step prev.state)) [
      | inr stands ↦ rw (at, stands, emit_node_finished) (keeps-all b b refl refl refl refl refl)
      | inl running ↦ elim (Bool-cases (is_terminal_step (step_state_for_status fn.node.status))) [
        | inr goes_on ↦
            rw (at, running, goes_on, emit_node_finished) (keeps-all b b refl refl refl refl refl)
        | inl terminal ↦
            rw (at, running, terminal, emit_node_finished)
              (keeps-put b _ fn.node.span_id (finished_node prev fn) refl refl refl refl refl
                (inr (terminal_stands prev fn terminal)))
      ]
    ]
  ]

  pub finish-settled :
      (fn : FlatNode) (run : Run)
      → is_some (get run.0.seen fn.node.span_id) ≡ true
      → settled fn (get (emit_node_finished env fn run).0.seen fn.node.span_id) ≡ true
  unfolding emit_node_finished emit
  finish-settled fn (b, es) h = elim (Option-cases (get b.seen fn.node.span_id)) [
    | inl absent ↦ let never : false ≡ true = subst (λ o. is_some o ≡ true) absent h in ground arith
    | inr (prev, at) ↦ elim (Bool-cases (is_running_step prev.state)) [
      | inr stands ↦ rw (at, stands, emit_node_finished) (rw (at, stands) refl)
      | inl running ↦ elim (Bool-cases (is_terminal_step (step_state_for_status fn.node.status))) [
        | inr goes_on ↦
            rw (at, running, goes_on, emit_node_finished) (rw (at, running, goes_on) refl)
        | inl terminal ↦
            rw (at, running, terminal, emit_node_finished)
              (rw get-put (
                rw ((eq_iff fn.node.span_id fn.node.span_id).1 refl)
                  (rw (terminal_stands prev fn terminal) refl)))
      ]
    ]
  ]

  pub chunks_keeps :
      (chunks : List LogChunk) (run : Run) → Keeps run.0 (emit_chunks env chunks run).0
  unfolding emit_chunks emit
  chunks_keeps [] (b, es) = keeps-all b b refl refl refl refl refl
  chunks_keeps (ch ∷ chunks) (b, es) =
      keeps_trans b _ _ (keeps-all b _ refl refl refl refl refl)
        (chunks_keeps chunks (emit env (chunk_event ch) (b, es)))

  pub each_keeps :
      (f : ℕ → Run → Run)
      → ((i : ℕ) (run : Run) → Keeps run.0 (f i run).0)
      → (is : List ℕ) (run : Run) → Keeps run.0 (each f is run).0
  each_keeps f keeps [] (b, es) = keeps-all b b refl refl refl refl refl
  each_keeps f keeps (i ∷ is) run =
      keeps_trans run.0 _ _ (keeps i run) (each_keeps f keeps is (f i run))

  -- a span that has nothing to emit
  pub start-settled :
      (fn : FlatNode) (run : Run)
      → settled fn (get run.0.seen fn.node.span_id) ≡ true
      → emit_node_started env fn run ≡ run
  unfolding emit_node_started
  start-settled fn (b, es) h = elim (Option-cases (get b.seen fn.node.span_id)) [
    | inr (n, at) ↦ rw (at, emit_node_started) refl
    | inl absent ↦
        let never : false ≡ true = subst (λ o. settled fn o ≡ true) absent h in ground arith
  ]

  pub finish-again :
      (fn : FlatNode) (run : Run)
      → settled fn (get run.0.seen fn.node.span_id) ≡ true
      → emit_node_finished env fn run ≡ run
  unfolding emit_node_finished
  finish-again fn (b, es) h = elim (Option-cases (get b.seen fn.node.span_id)) [
    | inl absent ↦ rw (absent, emit_node_finished) refl
    | inr (prev, at) ↦
        let rests : settled fn (some prev) ≡ true = subst (λ o. settled fn o ≡ true) at h in
        rw (at, emit_node_finished) (rw rests refl)
  ]

  module _ (flat : List FlatNode) (edges : List (ℕ × ℕ)) where
    -- every span that the walk visits from `idx` on is settled
    abbrev pub AllSettled : Map StepNode → ℕ → ℕ → Type 0
    AllSettled seen zero idx = Unit
    AllSettled seen (suc fuel) idx =
        ((fn : FlatNode)
          → flat_at flat idx ≡ some fn
          → settled fn (get seen fn.node.span_id) ≡ true)
        × ((fn : FlatNode)
            → flat_at flat idx ≡ some fn
            → All (AllSettled seen fuel) (children_of edges idx))

    pub AllSettled-keeps :
        (b b' : StepEventBuilder) (fuel idx : ℕ)
        → Keeps b b'
        → AllSettled b.seen fuel idx
        → AllSettled b'.seen fuel idx
    AllSettled-keeps b b' zero idx k h = tt
    AllSettled-keeps b b' (suc fuel) idx k h = (
      λ fn at. k.settled_still fn (h.0 fn at),
      λ fn at.
          All-imp _ (AllSettled b'.seen fuel) (λ i. AllSettled-keeps b b' fuel i k) _ (h.1 fn at),
    )
