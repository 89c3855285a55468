-- ===== src/Fsm/Members/Linked.antt =====
-- The two directions of the membership edges, and the operations that change both.
use dagger_kubernetes.Prelude.{
  Bool, true, false, not, ◌&&◌, ◌||◌, ◌≡◌, List, [], ◌∷◌, String, str_eq, eq_iff, arith, ◌==◌,
  if◌then◌else◌,
}
use dagger_kubernetes.Maps.{
  Map, empty, put, size, keys, elem, get-empty, elem-keys, get_of_size-zero,
}
use dagger_kubernetes.Fsm.State.{StringSet, MemberTable}
use dagger_kubernetes.Fsm.Members.{
  set_at, has_edge, drop_edges, to_set, add_membership, add_memberships, replace_members,
  forget_user, forget_group,
}
use dagger_kubernetes.Fsm.Members.Edges.{
  has_edge-put, has_edge-remove, has_edge-add_edge, has_edge-drop_edges, has-to_set,
  elem-keys-set_at,
}

-- is the user in the group, by the group's set and by the user's set?
abbrev pub in_group : MemberTable → String → String → Bool
in_group t g u = has_edge t.memberships g u

abbrev pub in_user : MemberTable → String → String → Bool
in_user t g u = has_edge t.memberships_by_user u g

pub record IsLinked (t : MemberTable) : Type 0 where
  pub linked : (g u : String) → in_group t g u ≡ in_user t g u

pub IsLinked-empty : IsLinked (record { memberships = empty; memberships_by_user = empty })
unfolding has_edge set_at
IsLinked-empty = record {
  linked = λ g u. ground (
    arith,
    get-empty {V = StringSet} g,
    get-empty {V = StringSet} u,
    get-empty {V = Unit {0}} g,
    get-empty {V = Unit {0}} u,
  );
}

in_group-add_memberships :
    (g : String) (uids : List String) (t : MemberTable) (h u : String)
    → in_group (add_memberships g uids t) h u ≡ ((str_eq g h && elem u uids) || in_group t h u)
unfolding add_memberships add_membership
in_group-add_memberships g [] t h u = ground arith
in_group-add_memberships g (i ∷ uids) t h u = ground (
  arith,
  in_group-add_memberships g uids (add_membership g i t) h u,
  has_edge-add_edge t.memberships g i h u,
)

in_user-add_memberships :
    (g : String) (uids : List String) (t : MemberTable) (h u : String)
    → in_user (add_memberships g uids t) h u ≡ ((str_eq g h && elem u uids) || in_user t h u)
unfolding add_memberships add_membership
in_user-add_memberships g [] t h u = ground arith
in_user-add_memberships g (i ∷ uids) t h u = ground (
  arith,
  in_user-add_memberships g uids (add_membership g i t) h u,
  has_edge-add_edge t.memberships_by_user i g u h,
)

module _ (t : MemberTable) (l : IsLinked t) where
  module _ (id g u : String) where
    pub in_group-forget_user :
        in_group (forget_user id t) g u ≡ (not (str_eq id u) && in_group t g u)
    unfolding forget_user
    in_group-forget_user = ground (
      arith,
      has_edge-drop_edges (keys (set_at t.memberships_by_user id)) id t.memberships g u,
      elem-keys-set_at t.memberships_by_user id g,
      l.linked g u,
      eq_iff id u,
    )

    pub in_user-forget_user : in_user (forget_user id t) g u ≡ (not (str_eq id u) && in_user t g u)
    unfolding forget_user
    in_user-forget_user = has_edge-remove t.memberships_by_user id u g

    pub in_group-forget_group :
        in_group (forget_group id t) g u ≡ (not (str_eq id g) && in_group t g u)
    unfolding forget_group
    in_group-forget_group = has_edge-remove t.memberships id g u

    pub in_user-forget_group :
        in_user (forget_group id t) g u ≡ (not (str_eq id g) && in_user t g u)
    unfolding forget_group
    in_user-forget_group = ground (
      arith,
      has_edge-drop_edges (keys (set_at t.memberships id)) id t.memberships_by_user u g,
      elem-keys-set_at t.memberships id u,
      l.linked g u,
      eq_iff id g,
    )

  pub forget_user-IsLinked : (id : String) → IsLinked (forget_user id t)
  forget_user-IsLinked id = record {
    linked = λ g u. cc (in_group-forget_user id g u, in_user-forget_user id g u, l.linked g u);
  }

  pub forget_group-IsLinked : (id : String) → IsLinked (forget_group id t)
  forget_group-IsLinked id = record {
    linked = λ g u. cc (in_group-forget_group id g u, in_user-forget_group id g u, l.linked g u);
  }

  module _ (id : String) (ids : List String) (g u : String) where
    elem-to_set : elem u (keys (to_set ids empty)) ≡ elem u ids
    elem-to_set =
        ground (
          arith,
          elem-keys (to_set ids empty) u,
          has-to_set ids empty u,
          get-empty {V = Unit {0}} u,
        )

    abbrev new_set : StringSet
    new_set = to_set ids empty

    abbrev by_user_left : Map StringSet
    by_user_left = drop_edges (keys (set_at t.memberships id)) id t.memberships_by_user

    -- the table that the loop of `addMembership` starts from
    abbrev before_adds : MemberTable
    before_adds = record {
      memberships = put t.memberships id new_set;
      memberships_by_user = by_user_left;
    }

    new_set_empty : (size new_set == 0) ≡ true → elem u ids ≡ false
    new_set_empty none_left =
        ground
          (arith, get_of_size-zero new_set u, has-to_set ids empty u, get-empty {V = Unit {0}} u)

    in_user-left : has_edge by_user_left u g ≡ (not (str_eq id g) && in_user t g u)
    in_user-left = ground (
      arith,
      has_edge-drop_edges (keys (set_at t.memberships id)) id t.memberships_by_user u g,
      elem-keys-set_at t.memberships id u,
      l.linked g u,
      eq_iff id g,
    )

    -- The members of the group are exactly the given users; other groups keep theirs.
    pub in_group-replace_members :
        in_group (replace_members id ids t) g u
        ≡ (if str_eq id g then elem u ids else in_group t g u)
    unfolding replace_members
    in_group-replace_members = ground (
      arith,
      new_set_empty,
      has_edge-remove t.memberships id g u,
      in_group-add_memberships id (keys new_set) before_adds g u,
      has_edge-put t.memberships id g u new_set,
      has-to_set ids empty u,
      get-empty {V = Unit {0}} u,
      elem-to_set,
    )

    pub in_user-replace_members :
        in_user (replace_members id ids t) g u ≡ (if str_eq id g then elem u ids else in_user t g u)
    unfolding replace_members
    in_user-replace_members = ground (
      arith,
      new_set_empty,
      in_user-left,
      in_user-add_memberships id (keys new_set) before_adds g u,
      elem-to_set,
    )

  pub replace_members-IsLinked :
      (id : String) (ids : List String) → IsLinked (replace_members id ids t)
  replace_members-IsLinked id ids = record {
    linked = λ g u. ground (
      arith,
      in_group-replace_members id ids g u,
      in_user-replace_members id ids g u,
      l.linked g u,
    );
  }
