-- ===== src/Steps/Flat.antt =====
-- What flattenTrace makes of a span tree.
use dagger_kubernetes.Prelude.{
  ℕ, ℤ, pos, negsuc, ◌≤◌, ◌<◌, Bool, true, false, not, ◌&&◌, ◌≡◌, inl, inr, sym, ap, ◌∙◌, Option,
  none, some, String, str_eq, arith, leb, Bool-cases, All, is_some,
}
use dagger_kubernetes.Maps.{get, empty, elem}
use dagger_kubernetes.Steps.{SpanNode, span_of}
use dagger_kubernetes.Steps.Flatten.{
  walk, no_walk, clamp_depth, flatten_trace, ci_max_absolute_depth,
}
use dagger_kubernetes.Steps.Walked.{occurrences, is_reached}
use dagger_kubernetes.Steps.Reached.{walk-SeenMore, reached-seen}
use dagger_kubernetes.Steps.Sound.{ids, IsNub, walk_root}

clamp_depth-bounds : (d : ℤ) → (0 < clamp_depth d) × (clamp_depth d ≤ ci_max_absolute_depth)
unfolding clamp_depth
clamp_depth-bounds (negsuc n) = (omega arith, omega arith)
clamp_depth-bounds (pos n) = (ground arith, ground arith)

-- how often an id stands in the tree
abbrev pub stands_in : Option SpanNode → String → ℕ
stands_in none id = 0
stands_in (some t) id = occurrences id t

-- The tree is there and its root has an id, and the id stands in it below spans that have no id, or
-- that are not below the clamp and whose id is theirs alone in the tree.
abbrev pub can_be_reached : Option SpanNode → ℤ → String → Bool
can_be_reached none max_depth id = false
can_be_reached (some t) max_depth id =
    not (str_eq (span_of t).span_id "")
    && is_reached (λ j. leb (occurrences j t) 1) (clamp_depth max_depth) 0 t id

-- What is seen in the walk of a root: nothing but what stands in the tree, and all that is reached.
root_seen :
    (max_depth : ℕ) (t : SpanNode)
    → 0 < max_depth
    → (id : String)
    → (elem id (walk max_depth t 0 "" no_walk).seen ≡ true → 0 < occurrences id t)
      × (is_reached (λ j. leb (occurrences j t) 1) max_depth 0 t id ≡ true
          → elem id (walk max_depth t 0 "" no_walk).seen ≡ true)
root_seen max_depth t clamped id =
    let more = walk-SeenMore max_depth clamped t 0 "" no_walk id in
    (
      λ e. ground arith,
      λ r.
          reached-seen (λ j. leb (occurrences j t) 1) max_depth clamped t 0 "" no_walk id
            (λ j a. ground arith) r,
    )

-- In the flat list of a span tree no span stands twice, and no depth is above the clamp of at
-- most 1,024. Only spans of the tree are attributed, and only to spans of the list; a span of
-- the list is attributed to itself; and a span with an id is attributed wherever the root has an
-- id and each span above it has no id, or is not below the clamp and has an id that stands
-- nowhere else in the tree.
pub flatten_trace_sound :
    (root : Option SpanNode) (max_depth : ℤ)
    → IsNub (ids (flatten_trace root max_depth).0)
      × All (λ fn. fn.depth ≤ clamp_depth max_depth) (flatten_trace root max_depth).0
      × (clamp_depth max_depth ≤ 1024)
      × ((id owner : String)
          → get (flatten_trace root max_depth).1 id ≡ some owner
          → (elem owner (ids (flatten_trace root max_depth).0) ≡ true) × (0 < stands_in root id))
      × ((id : String)
          → elem id (ids (flatten_trace root max_depth).0) ≡ true
          → get (flatten_trace root max_depth).1 id ≡ some id)
      × ((id : String)
          → can_be_reached root max_depth id ≡ true
          → is_some (get (flatten_trace root max_depth).1 id) ≡ true)
unfolding flatten_trace get empty
flatten_trace_sound none max_depth = (
  tt,
  tt,
  (clamp_depth-bounds max_depth).1,
  λ id owner e. absurd (cc),
  λ id e. absurd (cc),
  λ id e. absurd (cc),
)
flatten_trace_sound (some t) max_depth = elim (Bool-cases (str_eq (span_of t).span_id "")) [
  | inl blank ↦ rw blank (
    tt,
    tt,
    (clamp_depth-bounds max_depth).1,
    λ id owner e. absurd (cc),
    λ id e. absurd (cc),
    λ id e. absurd (cc),
  )
  | inr named ↦
      let h = walk_root (clamp_depth max_depth) t (clamp_depth-bounds max_depth).0 named in
      let met = root_seen (clamp_depth max_depth) t (clamp_depth-bounds max_depth).0 in
      rw named (
        h.distinct,
        h.shallow,
        (clamp_depth-bounds max_depth).1,
        λ id owner e. (h.owned id owner e, (met id).0 (sym (h.attributed id) ∙ ap is_some e)),
        h.itself,
        λ id r. h.attributed id ∙ (met id).1 r,
      )
]
