-- ===== src/Steps/Sound.antt =====
-- What the walk of flattenTrace keeps true of the list and the attribution.
use dagger_kubernetes.Prelude.{
  ℕ, ◌+◌, ◌≤◌, ◌<◌, Bool, true, false, ◌&&◌, ◌||◌, ◌≡◌, inl, inr, refl, sym, ap, ◌∙◌, subst, none,
  some, List, [], ◌∷◌, String, str_eq, eq_iff, arith, ltb, Bool-cases, All, is_some,
}
use dagger_kubernetes.Maps.{get, empty, get-put, elem}
use dagger_kubernetes.Steps.{
  Span, SpanNode, SpanNodes, span_node, no_children, nil_child, child, span_of,
}
use dagger_kubernetes.Steps.Flatten.{
  FlatNode, Walk, through, skipped, too_deep, internal, shown, snoc, folded, emitted, visit_of,
  walk, walk_each, no_walk,
}
use dagger_kubernetes.Steps.Walked.{visit-cases, walk-as}

-- the span ids of a flat list
abbrev pub ids : List FlatNode → List String
ids [] = []
ids (fn ∷ fns) = fn.node.span_id ∷ ids fns

-- no id stands twice
abbrev pub IsNub : List String → Type 0
IsNub [] = Unit
IsNub (id ∷ l) = (elem id l ≡ false) × IsNub l

elem-snoc :
    (j : String) (flat : List FlatNode) (fn : FlatNode)
    → elem j (ids (snoc flat fn)) ≡ elem j (ids flat) || str_eq fn.node.span_id j
elem-snoc j [] fn = ground arith
elem-snoc j (x ∷ flat) fn = let rest = elem-snoc j flat fn in ground arith

IsNub-snoc :
    (flat : List FlatNode) (fn : FlatNode)
    → IsNub (ids flat)
    → elem fn.node.span_id (ids flat) ≡ false
    → IsNub (ids (snoc flat fn))
IsNub-snoc [] fn h new = (refl, tt)
IsNub-snoc (x ∷ flat) fn h new =
    let e = elem-snoc x.node.span_id flat fn in
    let other = differ x.node.span_id fn.node.span_id (ground arith) in
    let first = h.0 in (ground arith, IsNub-snoc flat fn h.1 (ground arith))
  where
    differ : (a b : String) → str_eq a b ≡ false → str_eq b a ≡ false
    differ a b h = ground (arith, eq_iff a b, eq_iff b a)

All-snoc_flat :
    (P : FlatNode → Type 0) (flat : List FlatNode) (fn : FlatNode)
    → All P flat
    → P fn
    → All P (snoc flat fn)
All-snoc_flat P [] fn h p = (p, tt)
All-snoc_flat P (x ∷ flat) fn h p = (h.0, All-snoc_flat P flat fn h.1 p)

-- What holds of the walk at any moment.
pub record IsSound (max_depth : ℕ) (w : Walk) : Type 0 where
  pub distinct : IsNub (ids w.flat)
  pub shallow : All (λ fn. fn.depth ≤ max_depth) w.flat
  pub noted : (id : String) → elem id (ids w.flat) ≡ true → elem id w.seen ≡ true
  pub owned :
      (id owner : String) → get w.attribution id ≡ some owner → elem owner (ids w.flat) ≡ true
  pub attributed : (id : String) → is_some (get w.attribution id) ≡ elem id w.seen
  pub itself : (id : String) → elem id (ids w.flat) ≡ true → get w.attribution id ≡ some id

-- a walk from `w` to `w'`
abbrev Grown : ℕ → Walk → Walk → Type 0
Grown max_depth w w' =
    IsSound max_depth w'
    × ((id : String) → elem id (ids w.flat) ≡ true → elem id (ids w'.flat) ≡ true)

some-injective : (a b : String) → some a ≡ some b → a ≡ b
some-injective a b e = ap (λ o. elim o as (λ x. String) [ none ↦ a | some s ↦ s ]) e

module _ (max_depth : ℕ) where
  folded-IsSound :
      (n : Span) (owner : String) (w : Walk)
      → elem n.span_id w.seen ≡ false
      → elem owner (ids w.flat) ≡ true
      → IsSound max_depth w
      → IsSound max_depth (folded n owner w)
  folded-IsSound n owner w new at h = record {
    distinct = h.distinct;
    shallow = h.shallow;
    noted = λ id e. let there = h.noted id e in ground arith;
    owned = λ id o e. elim (Bool-cases (str_eq n.span_id id)) [
      | inl same ↦
          let e' : some owner ≡ some o =
            sym (get-put w.attribution n.span_id id owner ∙ rw same refl) ∙ e in
          subst (λ x. elem x (ids w.flat) ≡ true) (some-injective owner o e') at
      | inr other ↦
          h.owned id o (sym (get-put w.attribution n.span_id id owner ∙ rw other refl) ∙ e)
    ];
    attributed =
        λ id. let old = h.attributed id in ground (arith, get-put w.attribution n.span_id id owner);
    itself = λ id e. elim (Bool-cases (str_eq n.span_id id)) [
      | inl same ↦
          let there = h.noted id e in
          let absent : elem id w.seen ≡ false =
            subst (λ j. elem j w.seen ≡ false) ((eq_iff n.span_id id).0 same) new in
          absurd (ground arith)
      | inr other ↦ get-put w.attribution n.span_id id owner ∙ rw other (h.itself id e)
    ];
  }

  emitted-IsSound :
      (n : Span) (depth : ℕ) (owner : String) (w : Walk)
      → elem n.span_id w.seen ≡ false
      → depth ≤ max_depth
      → IsSound max_depth w
      → IsSound max_depth (emitted n depth owner w)
        × (elem n.span_id (ids (emitted n depth owner w).flat) ≡ true)
  emitted-IsSound n depth owner w new fits h = (
    record {
      distinct = IsNub-snoc w.flat fn h.distinct (fresh (elem n.span_id (ids w.flat)) refl);
      shallow = All-snoc_flat (λ x. x.depth ≤ max_depth) w.flat fn h.shallow fits;
      noted = λ id e.
          let parts = elem-snoc id w.flat fn in
          elim (Bool-cases (str_eq n.span_id id)) [
            | inl same ↦ ground arith
            | inr other ↦ let there = h.noted id (ground arith) in ground arith
          ];
      owned = λ id o e. elim (Bool-cases (str_eq n.span_id id)) [
        | inl same ↦
            let e' : some n.span_id ≡ some o =
              sym (get-put w.attribution n.span_id id n.span_id ∙ rw same refl) ∙ e in
            subst (λ x. elem x (ids (snoc w.flat fn)) ≡ true) (some-injective n.span_id o e') here
        | inr other ↦
            let there =
              h.owned id o
                (sym (get-put w.attribution n.span_id id n.span_id ∙ rw other refl) ∙ e) in
            let parts = elem-snoc o w.flat fn in ground arith
      ];
      attributed = λ id.
          let old = h.attributed id in ground (arith, get-put w.attribution n.span_id id n.span_id);
      itself = λ id e. elim (Bool-cases (str_eq n.span_id id)) [
        | inl same ↦
            get-put w.attribution n.span_id id n.span_id
            ∙ rw same (ap some ((eq_iff n.span_id id).0 same))
        | inr other ↦
            let parts = elem-snoc id w.flat fn in
            get-put w.attribution n.span_id id n.span_id ∙ rw other (h.itself id (ground arith))
      ];
    },
    here,
  )
    where
      fn : FlatNode
      fn = record { node = n; depth = depth; parent_id = owner }

      fresh : (b : Bool) → elem n.span_id (ids w.flat) ≡ b → b ≡ false
      fresh false e = refl
      fresh true e = let there = h.noted n.span_id e in ground arith

      here : elem n.span_id (ids (snoc w.flat fn)) ≡ true
      here =
          let parts = elem-snoc n.span_id w.flat fn in
          let own = (eq_iff n.span_id n.span_id).1 refl in ground arith

Grown-trans :
    (max_depth : ℕ) (w w' w'' : Walk)
    → ((id : String) → elem id (ids w.flat) ≡ true → elem id (ids w'.flat) ≡ true)
    → Grown max_depth w' w''
    → Grown max_depth w w''
Grown-trans max_depth w w' w'' more h = (h.0, λ id e. h.1 id (more id e))

emitted-more :
    (n : Span) (depth : ℕ) (owner : String) (w : Walk) (id : String)
    → elem id (ids w.flat) ≡ true
    → elem id (ids (emitted n depth owner w).flat) ≡ true
emitted-more n depth owner w id e =
    let parts = elem-snoc id w.flat (record { node = n; depth = depth; parent_id = owner }) in
    ground arith

mutual
  unfolding walk

  walk-Grown :
      (max_depth : ℕ) (clamped : 0 < max_depth) (t : SpanNode) (depth : ℕ) (owner : String)
      (w : Walk)
      → elem owner (ids w.flat) ≡ true
      → IsSound max_depth w
      → Grown max_depth w (walk max_depth t depth owner w)
  walk-Grown max_depth clamped (span_node n ns) depth owner w at h =
      let does = walk-as max_depth n ns depth owner w in
      elim (visit-cases max_depth n depth w clamped) [
        | inl (e, blank) ↦
            rw (does through e) (walk_each-Grown max_depth clamped ns depth owner w at h)
        | inr (inl (e, named, again)) ↦ rw (does skipped e) (h, λ id x. x)
        | inr (inr (inl (e, new, named, deep))) ↦
            rw (does too_deep e) (folded-IsSound max_depth n owner w new at h, λ id x. x)
        | inr (inr (inr (inl (e, new, named, level)))) ↦ rw (does internal e) (
            walk_each-Grown max_depth clamped ns depth owner (folded n owner w) at
              (folded-IsSound max_depth n owner w new at h))
        | inr (inr (inr (inr (e, new, fits, named, level)))) ↦
            let (sound, here) = emitted-IsSound max_depth n depth owner w new fits h in
            rw (does shown e) (
              Grown-trans max_depth w (emitted n depth owner w) _ (emitted-more n depth owner w) (
                walk_each-Grown max_depth clamped ns (depth + 1) n.span_id (emitted n depth owner w)
                  here sound))
      ]

  walk_each-Grown :
      (max_depth : ℕ) (clamped : 0 < max_depth) (ts : SpanNodes) (depth : ℕ) (owner : String)
      (w : Walk)
      → elem owner (ids w.flat) ≡ true
      → IsSound max_depth w
      → Grown max_depth w (walk_each max_depth ts depth owner w)
  walk_each-Grown max_depth clamped no_children depth owner w at h = (h, λ id x. x)
  walk_each-Grown max_depth clamped (nil_child ts) depth owner w at h =
      walk_each-Grown max_depth clamped ts depth owner w at h
  walk_each-Grown max_depth clamped (child t ts) depth owner w at h =
      let (sound, more) = walk-Grown max_depth clamped t depth owner w at h in
      Grown-trans max_depth w (walk max_depth t depth owner w) _ more (
        walk_each-Grown max_depth clamped ts depth owner (walk max_depth t depth owner w)
          (more owner at) sound)

-- The walk of a root with an id emits the root first, and keeps the invariant.
pub walk_root :
    (max_depth : ℕ) (t : SpanNode)
    → 0 < max_depth
    → str_eq (span_of t).span_id "" ≡ false
    → IsSound max_depth (walk max_depth t 0 "" no_walk)
unfolding visit_of get empty
walk_root max_depth (span_node n ns) clamped named =
    let (sound, here) = emitted-IsSound max_depth n 0 "" no_walk refl (omega arith) (record {
      distinct = tt;
      shallow = tt;
      noted = λ id e. e;
      owned = λ id o e. none_owned id o e;
      attributed = λ id. refl;
      itself = λ id e. absurd (cc);
    }) in
    rw (walk-as max_depth n ns 0 "" no_walk shown root_shown)
      (walk_each-Grown max_depth clamped ns (0 + 1) n.span_id (emitted n 0 "" no_walk) here sound).0
  where
    root_shown : visit_of max_depth n 0 no_walk ≡ shown
    root_shown =
        let shallow : (ltb 0 max_depth && ltb max_depth 0) ≡ false = ground arith in
        rw (named, shallow, visit_of) refl

    none_owned :
        (id o : String) → get no_walk.attribution id ≡ some o → elem o (ids no_walk.flat) ≡ true
    none_owned id o e = let never : false ≡ true = ap is_some e in ground arith
