-- ===== src/Steps/Walked.antt =====
-- Which spans the walk of flattenTrace can reach, and what it does with each.
use dagger_kubernetes.Prelude.{
  ℕ, ◌+◌, ◌≤◌, ◌<◌, Bool, true, false, not, ◌&&◌, ◌||◌, ◌≡◌, ◌⊎◌, inl, inr, refl, ap, ◌∙◌, String,
  str_eq, arith, ltb, leb, Bool-cases, if◌then◌else◌,
}
use dagger_kubernetes.Maps.{elem}
use dagger_kubernetes.Steps.{Span, SpanNode, SpanNodes, span_node, no_children, nil_child, child}
use dagger_kubernetes.Steps.Flatten.{
  Walk, Visit, through, skipped, too_deep, internal, shown, folded, emitted, visit_of,
  is_internal_span_name, walk, walk_each,
}

-- how often an id stands in a tree
unfoldable mutual
  pub occurrences : String → SpanNode → ℕ
  occurrences id (span_node n ns) = (if str_eq n.span_id id then 1 else 0) + occurrences_each id ns

  pub occurrences_each : String → SpanNodes → ℕ
  occurrences_each id no_children = 0
  occurrences_each id (nil_child ns) = occurrences_each id ns
  occurrences_each id (child t ns) = occurrences id t + occurrences_each id ns

-- the depth of a span's children: a span with no id, or an internal one, adds nothing
abbrev pub depth_below : Span → ℕ → ℕ
depth_below n depth =
    if str_eq n.span_id "" || (ltb 0 depth && is_internal_span_name n.name)
    then depth
    else depth + 1

-- The id stands in the tree, and on the way down to it there are only spans that have no id, or that
-- are not below the clamp and whose id is theirs alone.
unfoldable mutual
  pub is_reached : (String → Bool) → ℕ → ℕ → SpanNode → String → Bool
  is_reached alone max_depth depth (span_node n ns) id =
      (str_eq n.span_id id && not (str_eq n.span_id ""))
      || ((str_eq n.span_id "" || (alone n.span_id && leb depth max_depth))
          && is_reached_each alone max_depth (depth_below n depth) ns id)

  pub is_reached_each : (String → Bool) → ℕ → ℕ → SpanNodes → String → Bool
  is_reached_each alone max_depth depth no_children id = false
  is_reached_each alone max_depth depth (nil_child ns) id =
      is_reached_each alone max_depth depth ns id
  is_reached_each alone max_depth depth (child t ns) id =
      is_reached alone max_depth depth t id || is_reached_each alone max_depth depth ns id

-- What the walk does with a span, and why.
pub visit-cases :
    (max_depth : ℕ) (n : Span) (depth : ℕ) (w : Walk)
    → 0 < max_depth
    → ((visit_of max_depth n depth w ≡ through) × (str_eq n.span_id "" ≡ true))
      ⊎ ((visit_of max_depth n depth w ≡ skipped)
          × (str_eq n.span_id "" ≡ false)
          × (elem n.span_id w.seen ≡ true))
      ⊎ ((visit_of max_depth n depth w ≡ too_deep)
          × (elem n.span_id w.seen ≡ false)
          × (str_eq n.span_id "" ≡ false)
          × (leb depth max_depth ≡ false))
      ⊎ ((visit_of max_depth n depth w ≡ internal)
          × (elem n.span_id w.seen ≡ false)
          × (str_eq n.span_id "" ≡ false)
          × (depth_below n depth ≡ depth))
      ⊎ ((visit_of max_depth n depth w ≡ shown)
          × (elem n.span_id w.seen ≡ false)
          × (depth ≤ max_depth)
          × (str_eq n.span_id "" ≡ false)
          × (depth_below n depth ≡ depth + 1))
unfolding visit_of
visit-cases max_depth n depth w clamped = elim (Bool-cases (str_eq n.span_id "")) [
  | inl blank ↦ inl (rw (blank, visit_of) refl, blank)
  | inr named ↦ elim (Bool-cases (elem n.span_id w.seen)) [
    | inl again ↦ inr (inl (rw (named, again, visit_of) refl, named, again))
    | inr new ↦ elim (Bool-cases (ltb 0 max_depth && ltb max_depth depth)) [
      | inl deep ↦ inr (inr (inl (rw (named, new, deep, visit_of) refl, new, named, ground arith)))
      | inr fits ↦ elim (Bool-cases (ltb 0 depth && is_internal_span_name n.name)) [
        | inl hidden ↦ inr (
            inr
              (inr (inl (rw (named, new, fits, hidden, visit_of) refl, new, named, ground arith))))
        | inr seen_by_all ↦ inr (
            inr (
              inr (
                inr (
                  rw (named, new, fits, seen_by_all, visit_of) refl,
                  new,
                  ground arith,
                  named,
                  ground arith,
                ))))
      ]
    ]
  ]
]

-- the walk of a span, by what the walk does with it
abbrev pub walk_as : ℕ → Span → SpanNodes → ℕ → String → Walk → Visit → Walk
walk_as max_depth n ns depth owner w through = walk_each max_depth ns depth owner w
walk_as max_depth n ns depth owner w skipped = w
walk_as max_depth n ns depth owner w too_deep = folded n owner w
walk_as max_depth n ns depth owner w internal =
    walk_each max_depth ns depth owner (folded n owner w)
walk_as max_depth n ns depth owner w shown =
    walk_each max_depth ns (depth + 1) n.span_id (emitted n depth owner w)

pub walk-as :
    (max_depth : ℕ) (n : Span) (ns : SpanNodes) (depth : ℕ) (owner : String) (w : Walk) (v : Visit)
    → visit_of max_depth n depth w ≡ v
    → walk max_depth (span_node n ns) depth owner w ≡ walk_as max_depth n ns depth owner w v
unfolding walk
walk-as max_depth n ns depth owner w v e =
    either (visit_of max_depth n depth w) ∙ ap (walk_as max_depth n ns depth owner w) e
  where
    either :
        (u : Visit)
        → elim u as (λ x. Walk) [
          | through ↦ walk_each max_depth ns depth owner w
          | skipped ↦ w
          | too_deep ↦ folded n owner w
          | internal ↦ walk_each max_depth ns depth owner (folded n owner w)
          | shown ↦ walk_each max_depth ns (depth + 1) n.span_id (emitted n depth owner w)
        ]
          ≡ walk_as max_depth n ns depth owner w u
    either through = refl
    either skipped = refl
    either too_deep = refl
    either internal = refl
    either shown = refl
