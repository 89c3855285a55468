-- ===== src/Steps/Reached.antt =====
-- The spans that flattenTrace can reach are seen by its walk.
use dagger_kubernetes.Prelude.{
  ℕ, ◌+◌, ◌≤◌, ◌<◌, Bool, true, false, ◌≡◌, ◌⊎◌, inl, inr, refl, sym, ◌∙◌, subst, String, str_eq,
  eq_iff, arith, leb, Bool-cases,
}
use dagger_kubernetes.Maps.{elem}
use dagger_kubernetes.Steps.{Span, SpanNode, SpanNodes, span_node, no_children, nil_child, child}
use dagger_kubernetes.Steps.Flatten.{
  Walk, through, skipped, too_deep, internal, shown, folded, emitted, walk, walk_each,
}
use dagger_kubernetes.Steps.Walked.{
  occurrences, occurrences_each, depth_below, is_reached, is_reached_each, visit-cases, walk-as,
}

abbrev pub once : Bool → ℕ
once true = 1
once false = 0

-- What is seen stays seen, and nothing is seen but what stands in the part that was walked.
abbrev pub SeenMore : Walk → Walk → (String → ℕ) → Type 0
SeenMore w w' stands =
    (id : String)
    → (elem id w.seen ≡ true → elem id w'.seen ≡ true)
      × (once (elem id w'.seen) ≤ once (elem id w.seen) + stands id)

mutual
  unfolding walk occurrences

  pub walk-SeenMore :
      (max_depth : ℕ) (clamped : 0 < max_depth) (t : SpanNode) (depth : ℕ) (owner : String)
      (w : Walk)
      → SeenMore w (walk max_depth t depth owner w) (λ id. occurrences id t)
  walk-SeenMore max_depth clamped (span_node n ns) depth owner w id =
      let does = walk-as max_depth n ns depth owner w in
      elim (visit-cases max_depth n depth w clamped) [
        | inl (e, blank) ↦
            let h = walk_each-SeenMore max_depth clamped ns depth owner w id in
            rw (does through e) (h.0, ground arith)
        | inr (inl (e, named, again)) ↦ rw (does skipped e) (λ x. x, ground arith)
        | inr (inr (inl (e, new, named, deep))) ↦
            rw (does too_deep e) (λ x. ground arith, ground arith)
        | inr (inr (inr (inl (e, new, named, level)))) ↦
            let h = walk_each-SeenMore max_depth clamped ns depth owner (folded n owner w) id in
            rw (does internal e) (λ x. h.0 (ground arith), ground arith)
        | inr (inr (inr (inr (e, new, fits, named, level)))) ↦
            let h =
              walk_each-SeenMore max_depth clamped ns (depth + 1) n.span_id
                (emitted n depth owner w) id in
            rw (does shown e) (λ x. h.0 (ground arith), ground arith)
      ]

  pub walk_each-SeenMore :
      (max_depth : ℕ) (clamped : 0 < max_depth) (ts : SpanNodes) (depth : ℕ) (owner : String)
      (w : Walk)
      → SeenMore w (walk_each max_depth ts depth owner w) (λ id. occurrences_each id ts)
  walk_each-SeenMore max_depth clamped no_children depth owner w id = (λ x. x, omega arith)
  walk_each-SeenMore max_depth clamped (nil_child ts) depth owner w id =
      walk_each-SeenMore max_depth clamped ts depth owner w id
  walk_each-SeenMore max_depth clamped (child t ts) depth owner w id =
      let h = walk-SeenMore max_depth clamped t depth owner w id in
      let k =
        walk_each-SeenMore max_depth clamped ts depth owner (walk max_depth t depth owner w) id in
      (λ x. k.0 (h.0 x), omega arith)

-- an id that is its span's alone stands at most once in what is seen and in what is still to come
abbrev pub IsAlone : (String → Bool) → Walk → (String → ℕ) → Type 0
IsAlone alone w stands = (id : String) → alone id ≡ true → stands id + once (elem id w.seen) ≤ 1

module _ (alone : String → Bool) (max_depth : ℕ) (clamped : 0 < max_depth) where
  -- why a span, or a span below it, is reached
  reached-cases :
      (n : Span) (ns : SpanNodes) (depth : ℕ) (id : String)
      → str_eq n.span_id "" ≡ false
      → is_reached alone max_depth depth (span_node n ns) id ≡ true
      → (str_eq n.span_id id ≡ true)
        ⊎ ((alone n.span_id ≡ true)
            × (leb depth max_depth ≡ true)
            × (is_reached_each alone max_depth (depth_below n depth) ns id ≡ true))
  unfolding is_reached
  reached-cases n ns depth id named reached = elim (Bool-cases (str_eq n.span_id id)) [
    | inl same ↦ inl same
    | inr other ↦ inr (ground arith, ground arith, ground arith)
  ]

  reached_below_blank :
      (n : Span) (ns : SpanNodes) (depth : ℕ) (id : String)
      → str_eq n.span_id "" ≡ true
      → is_reached alone max_depth depth (span_node n ns) id ≡ true
      → is_reached_each alone max_depth depth ns id ≡ true
  unfolding is_reached
  reached_below_blank n ns depth id blank = rw blank (λ reached. ground arith)

  -- a span whose id is its own alone is not met again
  met_once :
      (n : Span) (ns : SpanNodes) (w : Walk)
      → IsAlone alone w (λ j. occurrences j (span_node n ns))
      → alone n.span_id ≡ true
      → elem n.span_id w.seen ≡ false
  unfolding occurrences
  met_once n ns w one a = elim (Bool-cases (elem n.span_id w.seen)) [
    | inr new ↦ new
    | inl again ↦
        let h = one n.span_id a in
        let own = (eq_iff n.span_id n.span_id).1 refl in absurd (ground arith)
  ]

  elem-same :
      (n : Span) (w : Walk) (id : String)
      → str_eq n.span_id id ≡ true
      → elem n.span_id w.seen ≡ elem id w.seen
  elem-same n w id same = rw ((eq_iff n.span_id id).0 same) refl

  mutual
    unfolding walk occurrences is_reached

    pub reached-seen :
        (t : SpanNode) (depth : ℕ) (owner : String) (w : Walk) (id : String)
        → IsAlone alone w (λ j. occurrences j t)
        → is_reached alone max_depth depth t id ≡ true
        → elem id (walk max_depth t depth owner w).seen ≡ true
    reached-seen (span_node n ns) depth owner w id one reached =
        let does = walk-as max_depth n ns depth owner w in
        elim (visit-cases max_depth n depth w clamped) [
          | inl (e, blank) ↦ rw (does through e) (
              reached_each-seen ns depth owner w id (λ j a. let h = one j a in ground arith)
                (reached_below_blank n ns depth id blank reached))
          | inr (inl (e, named, again)) ↦
              rw (does skipped e) (elim (reached-cases n ns depth id named reached) [
                | inl same ↦ sym (elem-same n w id same) ∙ again
                | inr (a, fits, below) ↦ let fresh = met_once n ns w one a in absurd (cc)
              ])
          | inr (inr (inl (e, new, named, deep))) ↦
              rw (does too_deep e) (elim (reached-cases n ns depth id named reached) [
                | inl same ↦ ground arith
                | inr (a, fits, below) ↦ absurd (cc)
              ])
          | inr (inr (inr (inl (e, new, named, level)))) ↦
              rw (does internal e) (elim (reached-cases n ns depth id named reached) [
                | inl same ↦
                    (walk_each-SeenMore max_depth clamped ns depth owner (folded n owner w) id).0
                      (ground arith)
                | inr (a, fits, below) ↦
                    reached_each-seen ns depth owner (folded n owner w) id
                      (λ j b. let h = one j b in ground arith)
                      (subst (λ d. is_reached_each alone max_depth d ns id ≡ true) level below)
              ])
          | inr (inr (inr (inr (e, new, fits, named, level)))) ↦
              rw (does shown e) (elim (reached-cases n ns depth id named reached) [
                | inl same ↦
                    (walk_each-SeenMore max_depth clamped ns (depth + 1) n.span_id
                        (emitted n depth owner w) id).0
                      (ground arith)
                | inr (a, room, below) ↦
                    reached_each-seen ns (depth + 1) n.span_id (emitted n depth owner w) id
                      (λ j b. let h = one j b in ground arith)
                      (subst (λ d. is_reached_each alone max_depth d ns id ≡ true) level below)
              ])
        ]

    pub reached_each-seen :
        (ts : SpanNodes) (depth : ℕ) (owner : String) (w : Walk) (id : String)
        → IsAlone alone w (λ j. occurrences_each j ts)
        → is_reached_each alone max_depth depth ts id ≡ true
        → elem id (walk_each max_depth ts depth owner w).seen ≡ true
    reached_each-seen no_children depth owner w id one reached = ground arith
    reached_each-seen (nil_child ts) depth owner w id one reached =
        reached_each-seen ts depth owner w id one reached
    reached_each-seen (child t ts) depth owner w id one reached =
        let w' = walk max_depth t depth owner w in
        let first = walk-SeenMore max_depth clamped t depth owner w in
        elim (Bool-cases (is_reached alone max_depth depth t id)) [
          | inl here ↦
              (walk_each-SeenMore max_depth clamped ts depth owner w' id).0
                (reached-seen t depth owner w id (λ j a. let h = one j a in omega arith) here)
          | inr below ↦
              reached_each-seen ts depth owner w' id
                (λ j a. let h = one j a in let k = first j in omega arith) (ground arith)
        ]
