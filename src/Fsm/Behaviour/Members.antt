-- ===== src/Fsm/Behaviour/Members.antt =====
-- What setMembers does to the replica.
use dagger_kubernetes.Prelude.{
  true, false, ◌≡◌, ◌⊎◌, inl, inr, refl, List, [], ◌∷◌, String, str_eq, eq_refl, arith, Bool-cases,
  if◌then◌else◌,
}
use dagger_kubernetes.Maps.{Map, has, elem}
use dagger_kubernetes.Domain.{User, ok, err, not_found}
use dagger_kubernetes.Fsm.State.{FsmState}
use dagger_kubernetes.Fsm.Members.Linked.{
  in_group, in_user, in_group-replace_members, in_user-replace_members,
}
use dagger_kubernetes.Fsm.Cascade.{all_known, set_members}
use dagger_kubernetes.Fsm.Invariant.{WellFormed}

all_known_exact :
    (users : Map User) (ids : List String)
    → (all_known users ids ≡ true)
      ⊎ ((all_known users ids ≡ false)
          × ((u : String) × (elem u ids ≡ true) × (has users u ≡ false)))
unfolding all_known
all_known_exact users [] = inl refl
all_known_exact users (i ∷ ids) = elim (all_known_exact users ids) [
  | inl e ↦ elim (Bool-cases (has users i)) [
    | inl there ↦ inl (ground arith)
    | inr missing ↦ inr (ground arith, (i, ground (arith, eq_refl i), missing))
  ]
  | inr (e, (u, in_rest, missing)) ↦ inr (ground arith, (u, ground arith, missing))
]

module _ (lower : String → String) (s : FsmState) (w : WellFormed lower s) (id : String)
    (ids : List String) where
  -- In a well-formed replica, where the group and all the users are known, the group's members are
  -- exactly the users that are listed, in both directions, and no other group's change. Otherwise
  -- it is refused for an unknown group or for some unknown user of the list.
  pub set_members_exact :
      (((set_members id ids s).1 ≡ ok tt)
        × ((g u : String)
            → (in_group (set_members id ids s).0.member_table g u
                ≡ (if str_eq id g then elem u ids else in_group s.member_table g u))
              × (in_user (set_members id ids s).0.member_table g u
                  ≡ (if str_eq id g then elem u ids else in_user s.member_table g u))))
      ⊎ ((set_members id ids s ≡ (s, err not_found))
          × ((has s.groups id ≡ false)
              ⊎ ((u : String) × (elem u ids ≡ true) × (has s.users u ≡ false))))
  unfolding set_members
  set_members_exact = elim (Bool-cases (has s.groups id)) [
    | inr unknown ↦ inr (rw (unknown, set_members), inl unknown)
    | inl known ↦ elim (all_known_exact s.users ids) [
      | inr (e, u) ↦ inr (rw (known, e, set_members), inr u)
      | inl e ↦ inl (
        rw (known, e, set_members),
        λ g u. (
          rw (known, e, set_members)
              (in_group-replace_members s.member_table w.members_linked id ids g u),
          rw (known, e, set_members)
              (in_user-replace_members s.member_table w.members_linked id ids g u),
        ),
      )
    ]
  ]
