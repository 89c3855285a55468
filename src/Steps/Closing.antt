-- ===== src/Steps/Closing.antt =====
-- That Finalize leaves no step open.
use dagger_kubernetes.Prelude.{
  ℤ, Bool, true, false, ◌≡◌, ◌⊎◌, inl, inr, refl, subst, Option, none, some, List, [], ◌∷◌, String,
  str_eq, eq_iff, arith, Bool-cases, Option-cases, if◌then◌else◌,
}
use dagger_kubernetes.Maps.{get, get-put, elem}
use dagger_kubernetes.Steps.{
  StepState, step_succeeded, step_failed, StepNode, StepEventBuilder, StepEnv,
  new_step_event_builder,
}
use dagger_kubernetes.Steps.Builder.{
  Run, emit, is_running_step, close_step, close_running, emit_final, finalize, final_status,
}
use dagger_kubernetes.Steps.Protocol.{start, finish, marks_of, phase, Known}
use dagger_kubernetes.Steps.Stream.{
  Call, finalizing, after_call, after_calls, after_call-IsTold, after_calls-IsTold, new-IsTold,
}

-- a step that is not open
abbrev pub IsClosed : Option StepNode → Type 0
IsClosed none = Unit
IsClosed (some n) = is_running_step n.state ≡ false

module _ (env : StepEnv) (terminal : StepState) (ends : is_running_step terminal ≡ false) where
  close_step-kept :
      (sid id : String) (run : Run)
      → IsClosed (get run.0.seen id)
      → IsClosed (get (close_step env terminal sid run).0.seen id)
  unfolding close_step emit
  close_step-kept sid id (b, es) h = elim (Option-cases (get b.seen sid)) [
    | inl absent ↦ rw (absent, close_step) h
    | inr (n, at) ↦ elim (Bool-cases (is_running_step n.state)) [
      | inr stands ↦ rw (at, stands, close_step) h
      | inl running ↦
          rw (at, running, close_step)
            (rw get-put (elim (Bool-cases (str_eq sid id)) [
              | inl same ↦ rw same ends
              | inr other ↦ rw other h
            ]))
    ]
  ]

  close_step-own :
      (id : String) (run : Run) → IsClosed (get (close_step env terminal id run).0.seen id)
  unfolding close_step emit
  close_step-own id (b, es) = elim (Option-cases (get b.seen id)) [
    | inl absent ↦ rw (absent, close_step) (rw absent tt)
    | inr (n, at) ↦ elim (Bool-cases (is_running_step n.state)) [
      | inr stands ↦ rw (at, stands, close_step) (rw at stands)
      | inl running ↦ rw (at, running, close_step) (rw get-put (rw ((eq_iff id id).1 refl) ends))
    ]
  ]

  close_running-IsClosed :
      (ids : List String) (id : String) (run : Run)
      → (elem id ids ≡ true) ⊎ IsClosed (get run.0.seen id)
      → IsClosed (get (close_running env terminal ids run).0.seen id)
  unfolding close_running
  close_running-IsClosed [] id run (inl at) = ground arith
  close_running-IsClosed [] id run (inr h) = h
  close_running-IsClosed (sid ∷ ids) id run (inr h) =
      close_step-kept sid id _ (close_running-IsClosed ids id run (inr h))
  close_running-IsClosed (sid ∷ ids) id run (inl at) = elim (Bool-cases (str_eq sid id)) [
    | inl same ↦
        subst
          (λ j.
            IsClosed
              (get (close_step env terminal sid (close_running env terminal ids run)).0.seen j))
          ((eq_iff sid id).0 same) (close_step-own sid _)
    | inr other ↦ close_step-kept sid id _ (close_running-IsClosed ids id run (inl (ground arith)))
  ]

module _ (env : StepEnv) where
  Known-cases :
      (id : String) (b : StepEventBuilder)
      → Known id b.order (get b.seen id)
      → (elem id b.order ≡ true) ⊎ IsClosed (get b.seen id)
  Known-cases id b h = elim (Option-cases (get b.seen id)) [
    | inl absent ↦ inr (rw absent tt)
    | inr (n, at) ↦ inl (subst (λ x. Known id b.order x) at h).1
  ]

  emit_final-seen :
      (status err_msg : String) (run : Run) (id : String)
      → IsClosed (get run.0.seen id)
      → IsClosed (get (emit_final env status err_msg run).0.seen id)
  unfolding emit_final emit
  emit_final-seen status err_msg (b, es) id h = elim (Bool-cases b.pipeline_done) [
    | inl done ↦ rw (done, emit_final) h
    | inr going ↦ rw (going, emit_final) h
  ]

  finalize-IsClosed :
      (status err_msg : String) (b : StepEventBuilder) (id : String)
      → Known id b.order (get b.seen id)
      → IsClosed (get (finalize env status err_msg b).0.seen id)
  unfolding finalize
  finalize-IsClosed status err_msg b id h = emit_final-seen (final_status status) err_msg _ id (
      close_running-IsClosed env _ (stands (str_eq (final_status status) "success")) b.order id
        (b, []) (Known-cases id b h))
    where
      stands : (ok : Bool) → is_running_step (if ok then step_succeeded else step_failed) ≡ false
      stands true = refl
      stands false = refl

  phase-IsClosed :
      (o : Option StepNode) → IsClosed o → (phase o ≡ []) ⊎ (phase o ≡ start ∷ finish ∷ [])
  phase-IsClosed none h = inl refl
  phase-IsClosed (some n) h = inr (rw h refl)

  -- Where the last of any sequence of calls on a new builder is Finalize, the stream has finished
  -- each step that it has started.
  pub finalize_closes :
      (max_depth : ℤ) (cs : List Call) (status err_msg id : String)
      → (marks_of id
            (after_call env
              (finalizing status err_msg)
              (after_calls env cs (new_step_event_builder max_depth, []))).1
          ≡ [])
        ⊎ (marks_of id
              (after_call env
                (finalizing status err_msg)
                (after_calls env cs (new_step_event_builder max_depth, []))).1
            ≡ start ∷ finish ∷ [])
  unfolding after_call
  finalize_closes max_depth cs status err_msg id =
      let run = after_calls env cs (new_step_event_builder max_depth, []) in
      let h = after_calls-IsTold env cs _ (new-IsTold env max_depth) in
      let h' = after_call-IsTold env (finalizing status err_msg) run h in
      rw (h'.told id) (phase-IsClosed _ (finalize-IsClosed status err_msg run.0 id (h.known id)))
