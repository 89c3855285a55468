-- ===== src/Steps/Idempotent/Walk.antt =====
-- The walk of emitTree, and the same walk again.
use dagger_kubernetes.Prelude.{
  ℕ, zero, suc, true, ◌≡◌, inl, inr, refl, ap, ◌∙◌, some, List, [], ◌∷◌, String, Option-cases, All,
  All-imp,
}
use dagger_kubernetes.Maps.{Map, get}
use dagger_kubernetes.Steps.{LogChunk, StepEnv}
use dagger_kubernetes.Steps.Flatten.{FlatNode}
use dagger_kubernetes.Steps.Logs.{chunks_of}
use dagger_kubernetes.Steps.Builder.{
  Run, emit_node_started, emit_node_finished, flat_at, children_of, emit_chunks, each, visit,
}
use dagger_kubernetes.Steps.Idempotent.Settled.{
  settled, Keeps, keeps-all, keeps_trans, start_keeps, start-started, finish_keeps, finish-settled,
  chunks_keeps, each_keeps, start-settled, finish-again, AllSettled, AllSettled-keeps,
}

module _ (env : StepEnv) (flat : List FlatNode) (edges : List (ℕ × ℕ))
    (chunks : Map (List LogChunk)) where
  pub visit_keeps :
      (fuel idx : ℕ) (run : Run) → Keeps run.0 (visit env flat edges chunks fuel idx run).0
  unfolding visit
  visit_keeps zero idx (b, es) = keeps-all b b refl refl refl refl refl
  visit_keeps (suc fuel) idx run = elim (Option-cases (flat_at flat idx)) [
    | inl out ↦ rw (out, visit) (keeps-all run.0 run.0 refl refl refl refl refl)
    | inr (fn, at) ↦
        let started = emit_node_started env fn run in
        let below = each (visit env flat edges chunks fuel) (children_of edges idx) started in
        let logged = emit_chunks env (chunks_of chunks fn.node.span_id) below in
        rw (at, visit)
          (keeps_trans run.0 started.0 _ (start_keeps env fn run) (
            keeps_trans started.0 below.0 _
              (each_keeps env _ (visit_keeps fuel) (children_of edges idx) started)
              (keeps_trans below.0 logged.0 _
                (chunks_keeps env (chunks_of chunks fn.node.span_id) below)
                (finish_keeps env fn logged))))
  ]

  each-AllSettled :
      (fuel : ℕ) (is : List ℕ) (run : Run)
      → ((i : ℕ) (r : Run)
          → AllSettled env flat edges (visit env flat edges chunks fuel i r).0.seen fuel i)
      → All
          (AllSettled env flat edges (each (visit env flat edges chunks fuel) is run).0.seen fuel)
          is
  each-AllSettled fuel [] run h = tt
  each-AllSettled fuel (i ∷ is) run h = (
    AllSettled-keeps env flat edges (visit env flat edges chunks fuel i run).0 _ fuel i
        (each_keeps env _ (visit_keeps fuel) is (visit env flat edges chunks fuel i run)) (h i run),
    each-AllSettled fuel is _ h,
  )

  -- after the walk, all that it visits is settled
  pub visit-AllSettled :
      (fuel idx : ℕ) (run : Run)
      → AllSettled env flat edges (visit env flat edges chunks fuel idx run).0.seen fuel idx
  unfolding visit
  visit-AllSettled zero idx run = tt
  visit-AllSettled (suc fuel) idx run = (own, below (visit-AllSettled fuel))
    where
      own :
          (fn : FlatNode)
          → flat_at flat idx ≡ some fn
          → settled fn (get (visit env flat edges chunks (suc fuel) idx run).0.seen fn.node.span_id)
            ≡ true
      own fn at =
          let started = emit_node_started env fn run in
          let under = each (visit env flat edges chunks fuel) (children_of edges idx) started in
          let logged = emit_chunks env (chunks_of chunks fn.node.span_id) under in
          let kept =
            keeps_trans started.0 under.0 logged.0
              (each_keeps env _ (visit_keeps fuel) (children_of edges idx) started)
              (chunks_keeps env (chunks_of chunks fn.node.span_id) under) in
          rw (at, visit)
            (finish-settled env fn logged (kept.started fn.node.span_id (start-started env fn run)))

      below :
          ((i : ℕ) (r : Run)
            → AllSettled env flat edges (visit env flat edges chunks fuel i r).0.seen fuel i)
          → (fn : FlatNode) → flat_at flat idx ≡ some fn
          → All
              (AllSettled env flat edges
                (visit env flat edges chunks (suc fuel) idx run).0.seen
                fuel)
              (children_of edges idx)
      below hereafter fn at =
          let started = emit_node_started env fn run in
          let under = each (visit env flat edges chunks fuel) (children_of edges idx) started in
          let logged = emit_chunks env (chunks_of chunks fn.node.span_id) under in
          let kept =
            keeps_trans under.0 logged.0 _
              (chunks_keeps env (chunks_of chunks fn.node.span_id) under)
              (finish_keeps env fn logged) in
          rw (at, visit)
            (All-imp _ _ (λ i. AllSettled-keeps env flat edges under.0 _ fuel i kept) _
              (each-AllSettled fuel (children_of edges idx) started hereafter))

  module _ (none_left : (id : String) → chunks_of chunks id ≡ []) where
    each_again :
        (fuel : ℕ) (is : List ℕ) (run : Run)
        → ((i : ℕ)
            → AllSettled env flat edges run.0.seen fuel i
            → visit env flat edges chunks fuel i run ≡ run)
        → All (AllSettled env flat edges run.0.seen fuel) is
        → each (visit env flat edges chunks fuel) is run ≡ run
    each_again fuel [] run same h = refl
    each_again fuel (i ∷ is) run same h =
        ap (each (visit env flat edges chunks fuel) is) (same i h.0)
        ∙ each_again fuel is run same h.1

    no_chunks :
        (fn : FlatNode) (run : Run) → emit_chunks env (chunks_of chunks fn.node.span_id) run ≡ run
    unfolding emit_chunks
    no_chunks fn run = rw (none_left fn.node.span_id) refl

    -- where all is settled and no log line is new, the walk changes nothing
    pub visit_again :
        (fuel idx : ℕ) (run : Run)
        → AllSettled env flat edges run.0.seen fuel idx
        → visit env flat edges chunks fuel idx run ≡ run
    unfolding visit
    visit_again zero idx run h = refl
    visit_again (suc fuel) idx run h = elim (Option-cases (flat_at flat idx)) [
      | inl out ↦ rw (out, visit) refl
      | inr (fn, at) ↦
          let own = h.0 fn at in
          let under =
            λ (r : Run). each (visit env flat edges chunks fuel) (children_of edges idx) r in
          let logged = λ (r : Run). emit_chunks env (chunks_of chunks fn.node.span_id) r in
          rw (at, visit)
            (ap (λ r. emit_node_finished env fn (logged (under r))) (start-settled env fn run own)
              ∙ ap (λ r. emit_node_finished env fn (logged r))
                  (each_again fuel (children_of edges idx) run (λ i. visit_again fuel i run)
                    (h.1 fn at))
              ∙ ap (emit_node_finished env fn) (no_chunks fn run)
              ∙ finish-again env fn run own)
    ]
