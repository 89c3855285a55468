-- ===== src/Steps/Fuel.antt =====
-- That the fuel of emitTree is enough.
use dagger_kubernetes.Prelude.{
  ℕ, zero, suc, ◌+◌, ◌≤◌, ◌<◌, Bool, true, false, ◌≡◌, inl, inr, refl, sym, ap, ◌∙◌, none, some,
  List, [], ◌∷◌, ◌++◌, arith, leb, ◌==◌, Bool-cases, Option-cases, length, All, All-imp,
  if◌then◌else◌,
}
use dagger_kubernetes.Maps.{Map}
use dagger_kubernetes.Steps.{LogChunk, StepEnv}
use dagger_kubernetes.Steps.Flatten.{FlatNode}
use dagger_kubernetes.Steps.Logs.{chunks_of}
use dagger_kubernetes.Steps.Builder.{
  Run, emit_node_started, emit_node_finished, flat_at, pop_stack, link_from, children_of,
  emit_chunks, each, visit, emit_tree,
}

-- a child stands after its parent
abbrev IsForward : ℕ × ℕ → Type 0
IsForward (parent, c) = parent < c

All-snoc :
    {A : Type 0} (P : A → Type 0) (xs : List A) (x : A) → All P xs → P x → All P (xs ++ (x ∷ []))
All-snoc P [] x h p = (p, tt)
All-snoc P (y ∷ ys) x h p = (h.0, All-snoc P ys x h.1 p)

pop_stack-below :
    (flat : List FlatNode) (depth idx : ℕ) (stack : List ℕ)
    → All (λ i. i < idx) stack
    → All (λ i. i < idx) (pop_stack flat depth stack)
unfolding pop_stack
pop_stack-below flat depth idx [] h = tt
pop_stack-below flat depth idx (i ∷ stack) h =
    either (pop_stack-below flat depth idx stack h.1)
      (leb depth (elim (flat_at flat i) as (λ x. ℕ) [ none ↦ 0 | some fn ↦ fn.depth ]))
  where
    either :
        All (λ j. j < idx) (pop_stack flat depth stack)
        → (b : Bool) → All (λ j. j < idx) (if b then pop_stack flat depth stack else i ∷ stack)
    either rest true = rest
    either rest false = h

link_from-IsForward :
    (flat : List FlatNode) (idx : ℕ) (fns : List FlatNode) (stack : List ℕ) (edges : List (ℕ × ℕ))
    → All (λ i. i < idx) stack
    → All IsForward edges
    → All IsForward (link_from flat idx fns stack edges)
unfolding link_from
link_from-IsForward flat idx [] stack edges below forward = forward
link_from-IsForward flat idx (fn ∷ fns) stack edges below forward =
    let kept = pop_stack-below flat fn.depth idx stack below in
    link_from-IsForward flat (idx + 1) fns (idx ∷ pop_stack flat fn.depth stack) _
      (omega arith, All-imp _ (λ i. i < idx + 1) (λ i h. omega arith) _ kept)
      (linked (pop_stack flat fn.depth stack) kept)
  where
    linked :
        (kept : List ℕ)
        → All (λ i. i < idx) kept
        → All IsForward (elim kept as (λ x. List (ℕ × ℕ)) [
          | [] ↦ edges
          | parent ∷ below ↦ edges ++ ((parent, idx) ∷ [])
        ])
    linked [] h = forward
    linked (parent ∷ rest) h = All-snoc IsForward edges (parent, idx) forward h.0

children_of-after :
    (edges : List (ℕ × ℕ)) (idx : ℕ)
    → All IsForward edges
    → All (λ c. idx < c) (children_of edges idx)
unfolding children_of
children_of-after [] idx h = tt
children_of-after ((parent, c) ∷ edges) idx h = elim (Bool-cases (parent == idx)) [
  | inr other ↦ rw (other, children_of) (children_of-after edges idx h.1)
  | inl same ↦
      let first = h.0 in rw (same, children_of) (ground arith, children_of-after edges idx h.1)
]

flat_at-beyond : (flat : List FlatNode) (i : ℕ) → length flat ≤ i → flat_at flat i ≡ none
flat_at-beyond [] i h = refl
flat_at-beyond (fn ∷ flat) zero h = ground arith
flat_at-beyond (fn ∷ flat) (suc i) h = flat_at-beyond flat i (omega arith)

module _ (env : StepEnv) (flat : List FlatNode) (edges : List (ℕ × ℕ))
    (chunks : Map (List LogChunk)) (forward : All IsForward edges) where
  visit_none :
      (fuel idx : ℕ) (run : Run)
      → length flat ≤ idx
      → visit env flat edges chunks fuel idx run ≡ run
  unfolding visit
  visit_none zero idx run h = refl
  visit_none (suc fuel) idx run h = rw (flat_at-beyond flat idx h, visit) refl

  each_same :
      (f g idx : ℕ) (is : List ℕ) (run : Run)
      → ((i : ℕ) (r : Run)
          → idx < i
          → visit env flat edges chunks f i r ≡ visit env flat edges chunks g i r)
      → All (λ i. idx < i) is
      → each (visit env flat edges chunks f) is run ≡ each (visit env flat edges chunks g) is run
  each_same f g idx [] run same h = refl
  each_same f g idx (i ∷ is) run same h =
      ap (each (visit env flat edges chunks f) is) (same i run h.0)
      ∙ each_same f g idx is (visit env flat edges chunks g i run) same h.1

  visit_same :
      (f g idx : ℕ) (run : Run)
      → length flat ≤ idx + f
      → length flat ≤ idx + g
      → visit env flat edges chunks f idx run ≡ visit env flat edges chunks g idx run
  unfolding visit
  visit_same zero g idx run h k = let over = visit_none g idx run (omega arith) in sym over
  visit_same (suc f) zero idx run h k = visit_none (suc f) idx run (omega arith)
  visit_same (suc f) (suc g) idx run h k = elim (Option-cases (flat_at flat idx)) [
    | inl out ↦ rw (out, visit) refl
    | inr (fn, at) ↦
        let under =
          each_same f g idx (children_of edges idx) (emit_node_started env fn run)
            (λ i r after. visit_same f g i r (omega arith) (omega arith))
            (children_of-after edges idx forward) in
        rw (at, visit)
          (ap
            (λ r. emit_node_finished env fn (emit_chunks env (chunks_of chunks fn.node.span_id) r))
            under)
  ]

-- The recursion of emitTree ends: any fuel of at least the length of the flat list gives what
-- emitTree gives.
pub emit_tree_fuel :
    (env : StepEnv) (flat : List FlatNode) (chunks : Map (List LogChunk)) (fuel : ℕ) (run : Run)
    → length flat ≤ fuel
    → visit env flat (link_from flat 0 flat [] []) chunks fuel 0 run ≡ emit_tree env flat chunks run
unfolding emit_tree
emit_tree_fuel env flat chunks fuel run h =
    visit_same env flat (link_from flat 0 flat [] []) chunks
      (link_from-IsForward flat 0 flat [] [] tt tt) fuel (length flat) 0 run (omega arith)
      (omega arith)
