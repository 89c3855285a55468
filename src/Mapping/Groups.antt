-- ===== src/Mapping/Groups.antt =====
-- What GroupMapper.Map returns.
use dagger_kubernetes.Prelude.{
  Bool, true, false, not, ◌&&◌, ◌||◌, ◌≡◌, ◌↔◌, ◌⊎◌, inl, inr, refl, sym, ◌∙◌, ap, subst, Option,
  none, some, List, [], ◌∷◌, String, str_eq, eq_iff, arith, Bool-cases, Option-cases, Memᴰ,
}
use dagger_kubernetes.Maps.{elem}
use dagger_kubernetes.Mapping.{
  Regexp, Rules, map_by_rules, map_group, Mapped, append_name, add_mapped, map_each, map_groups,
}

-- no name stands twice
abbrev pub IsUnique : List String → Type 0
IsUnique [] = Unit
IsUnique (x ∷ xs) = (elem x xs ≡ false) × IsUnique xs

module _ (re : Regexp) (m : Option (Rules re)) where
  elem-append_name :
      (x : String) (xs : List String) (y : String)
      → elem x (append_name re xs y) ≡ elem x xs || str_eq y x
  elem-append_name x [] y = ground arith
  elem-append_name x (z ∷ zs) y = let rest = elem-append_name x zs y in ground arith

  append_name-IsUnique :
      (xs : List String) (y : String)
      → IsUnique xs
      → elem y xs ≡ false
      → IsUnique (append_name re xs y)
  append_name-IsUnique [] y h new = (refl, tt)
  append_name-IsUnique (x ∷ xs) y h new =
      let other = differ x y (ground arith) in
      let parts = elem-append_name x xs y in
      let first = h.0 in (ground arith, append_name-IsUnique xs y h.1 (ground arith))
    where
      differ : (a b : String) → str_eq a b ≡ false → str_eq b a ≡ false
      differ a b h = ground (arith, eq_iff a b, eq_iff b a)

  -- what the loop of Map holds at any moment
  pub record IsGathered (acc : Mapped re) : Type 0 where
    pub same : (x : String) → elem x acc.0 ≡ elem x acc.1
    pub unique : IsUnique acc.1

  add_mapped-IsGathered :
      (o : Option String) (acc : Mapped re) → IsGathered acc → IsGathered (add_mapped re o acc)
  unfolding add_mapped
  add_mapped-IsGathered none acc h = h
  add_mapped-IsGathered (some y) (seen, out) h = elim (Bool-cases (str_eq y "")) [
    | inl blank ↦ rw (blank, add_mapped) (record { same = h.same; unique = h.unique })
    | inr named ↦ elim (Bool-cases (elem y seen)) [
      | inl again ↦ rw (named, again, add_mapped) (record { same = h.same; unique = h.unique })
      | inr new ↦
          rw (named, new, add_mapped)
            (record {
              same = λ x. let e = h.same x in let parts = elem-append_name x out y in ground arith;
              unique = append_name-IsUnique out y h.unique (sym (h.same y) ∙ new);
            })
    ]
  ]

  map_each-IsGathered :
      (gs : List String) (acc : Mapped re) → IsGathered acc → IsGathered (map_each re m gs acc)
  unfolding map_each
  map_each-IsGathered [] acc h = h
  map_each-IsGathered (g ∷ gs) acc h =
      map_each-IsGathered gs (add_mapped re (map_group re m g) acc)
        (add_mapped-IsGathered (map_group re m g) acc h)

  -- the mapped name is this one, and it is not empty
  abbrev maps_to : String → Option String → Bool
  maps_to x none = false
  maps_to x (some y) = str_eq y x && not (str_eq y "")

  abbrev some_maps_to : String → List String → Bool
  some_maps_to x [] = false
  some_maps_to x (g ∷ gs) = maps_to x (map_group re m g) || some_maps_to x gs

  elem-add_mapped :
      (x : String) (o : Option String) (acc : Mapped re)
      → IsGathered acc
      → elem x (add_mapped re o acc).1 ≡ elem x acc.1 || maps_to x o
  unfolding add_mapped
  elem-add_mapped x none acc h = ground arith
  elem-add_mapped x (some y) (seen, out) h = elim (Bool-cases (str_eq y "")) [
    | inl blank ↦ rw (blank, add_mapped) (ground arith)
    | inr named ↦ elim (Bool-cases (elem y seen)) [
      | inr new ↦ rw (named, new, add_mapped) (let parts = elem-append_name x out y in ground arith)
      | inl again ↦
          rw (named, again, add_mapped)
            (elim (Bool-cases (str_eq y x)) [
              | inr other ↦ ground arith
              | inl here ↦
                  let there : elem x out ≡ true =
                    subst (λ z. elem z out ≡ true) ((eq_iff y x).0 here) (sym (h.same y) ∙ again) in
                  ground arith
            ])
    ]
  ]

  elem-map_each :
      (x : String) (gs : List String) (acc : Mapped re)
      → IsGathered acc
      → elem x (map_each re m gs acc).1 ≡ elem x acc.1 || some_maps_to x gs
  unfolding map_each
  elem-map_each x [] acc h = ground arith
  elem-map_each x (g ∷ gs) acc h =
      let one = elem-add_mapped x (map_group re m g) acc h in
      let rest =
        elem-map_each x gs (add_mapped re (map_group re m g) acc)
          (add_mapped-IsGathered (map_group re m g) acc h) in
      rest ∙ rw one (assoc (elem x acc.1) (maps_to x (map_group re m g)) (some_maps_to x gs))
    where
      assoc : (a b c : Bool) → (a || b) || c ≡ a || (b || c)
      assoc true b c = refl
      assoc false b c = refl

  -- the template of the first rule whose pattern matches the group expands to the name
  abbrev pub IsFirstMatch : Rules re → String → String → Type 0
  IsFirstMatch [] g x = ⊥
  IsFirstMatch ((p, template) ∷ rs) g x =
      (re.expand p template g ≡ some x) ⊎ ((re.expand p template g ≡ none) × IsFirstMatch rs g x)

  -- What a provider group is mapped to: itself without rules, or else what its first match gives.
  abbrev pub IsMapped : Option (Rules re) → String → String → Type 0
  IsMapped none g x = g ≡ x
  IsMapped (some []) g x = g ≡ x
  IsMapped (some (r ∷ rs)) g x = IsFirstMatch (r ∷ rs) g x

  map_by_rules-IsFirstMatch :
      (rs : Rules re) (g x : String) → (map_by_rules re rs g ≡ some x) ↔ IsFirstMatch rs g x
  unfolding map_by_rules
  map_by_rules-IsFirstMatch [] g x = (λ e. absurd (cc), λ h. elim h [ ])
  map_by_rules-IsFirstMatch ((p, template) ∷ rs) g x =
      let (sound, complete) = map_by_rules-IsFirstMatch rs g x in
      elim (Option-cases (re.expand p template g)) [
        | inl missing ↦
            rw (missing, map_by_rules)
              (
                λ e. inr (refl, sound e),
                λ h. elim h [ inl never ↦ absurd (cc) | inr (same, later) ↦ complete later ],
              )
        | inr (y, at) ↦
            rw (at, map_by_rules)
              (λ e. inl e, λ h. elim h [ inl e ↦ e | inr (never, later) ↦ absurd (cc) ])
      ]

  map_group-IsMapped :
      (o : Option (Rules re)) (g x : String) → (map_group re o g ≡ some x) ↔ IsMapped o g x
  unfolding map_group
  map_group-IsMapped none g x = (λ e. cc, λ e. cc)
  map_group-IsMapped (some []) g x = (λ e. cc, λ e. cc)
  map_group-IsMapped (some (r ∷ rs)) g x = map_by_rules-IsFirstMatch (r ∷ rs) g x

  -- some provider group is mapped to the name
  abbrev pub IsSource : String → List String → Type 0
  IsSource x gs = (g : String) × Memᴰ g gs × IsMapped m g x

  some_maps_to-IsSource :
      (x : String) (gs : List String)
      → some_maps_to x gs ≡ true
      → (str_eq x "" ≡ false) × IsSource x gs
  some_maps_to-IsSource x [] e = ground arith
  some_maps_to-IsSource x (g ∷ gs) e = elim (Bool-cases (maps_to x (map_group re m g))) [
    | inr other ↦
        let (named, (h, at, maps)) = some_maps_to-IsSource x gs (ground arith) in
        (named, (h, Memᴰ.tail at, maps))
    | inl here ↦ elim (Option-cases (map_group re m g)) [
      | inl missing ↦
          let never : false ≡ true = subst (λ o. maps_to x o ≡ true) missing here in ground arith
      | inr (y, at) ↦
          let both : maps_to x (some y) ≡ true = subst (λ o. maps_to x o ≡ true) at here in
          let same : y ≡ x = (eq_iff y x).0 (ground arith) in
          (
            subst (λ z. str_eq z "" ≡ false) same (ground arith),
            (g, Memᴰ.head refl, (map_group-IsMapped m g x).0 (at ∙ ap some same)),
          )
    ]
  ]

  IsSource-some_maps_to :
      (x : String) (gs : List String)
      → str_eq x "" ≡ false
      → IsSource x gs
      → some_maps_to x gs ≡ true
  IsSource-some_maps_to x [] named (g, at, maps) = elim at [ ]
  IsSource-some_maps_to x (h ∷ gs) named (g, Memᴰ.head same, maps) =
      let here : map_group re m h ≡ some x =
        subst (λ z. map_group re m z ≡ some x) same ((map_group-IsMapped m g x).1 maps) in
      rw here (rw ((eq_iff x x).1 refl, named) refl)
  IsSource-some_maps_to x (h ∷ gs) named (g, Memᴰ.tail at, maps) =
      let there = IsSource-some_maps_to x gs named (g, at, maps) in ground arith

  -- Whatever the patterns match, the mapped groups of a user have no name twice, and a name is among
  -- them exactly when it is not empty and some provider group is mapped to it: with rules, by the
  -- first rule that matches the group; without rules, each group to itself, so that here too empty
  -- names and repetitions are dropped.
  pub map_groups_exact :
      (gs : List String)
      → IsUnique (map_groups re m gs)
        × ((x : String)
            → (elem x (map_groups re m gs) ≡ true) ↔ ((str_eq x "" ≡ false) × IsSource x gs))
  unfolding map_groups
  map_groups_exact gs =
      let none_yet : IsGathered ([], []) = record { same = λ x. refl; unique = tt } in
      (
        (map_each-IsGathered gs ([], []) none_yet).unique,
        λ x.
            let all = elem-map_each x gs ([], []) none_yet in
            (
              λ e. some_maps_to-IsSource x gs (sym all ∙ e),
              λ h. all ∙ IsSource-some_maps_to x gs h.0 h.1,
            ),
      )
