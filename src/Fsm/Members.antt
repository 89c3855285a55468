-- ===== src/Fsm/Members.antt =====
-- The membership edges of fsm.go, kept in both directions, and the loops that drop and add them.
pub mod Edges
pub mod Linked
use dagger_kubernetes.Prelude.{Bool, none, some, List, [], ◌∷◌, String, ◌==◌, if◌then◌else◌}
use dagger_kubernetes.Maps.{Map, empty, get, put, remove, size, keys, has}
use dagger_kubernetes.Fsm.State.{MemberTable, StringSet}

-- `m[k]`, where a missing set reads as nil, which is empty
unfoldable pub set_at : Map StringSet → String → StringSet
set_at m k = elim (get m k) [ none ↦ empty | some set ↦ set ]

-- is the edge (k, x) there?
unfoldable pub has_edge : Map StringSet → String → String → Bool
unfolding set_at
has_edge m k x = has (set_at m k) x

-- `delete(m[k], x); if len(m[k]) == 0 { delete(m, k) }`
unfoldable pub drop_edge : Map StringSet → String → String → Map StringSet
unfolding set_at
drop_edge m k x =
    let rest = remove (set_at m k) x in if size rest == 0 then remove m k else put m k rest

-- `for k := range ks { ... }` around it
unfoldable pub drop_edges : List String → String → Map StringSet → Map StringSet
drop_edges [] x m = m
drop_edges (k ∷ ks) x m = drop_edges ks x (drop_edge m k x)

-- `if m[k] == nil { m[k] = make(...) }; m[k][x] = struct{}{}`
unfoldable pub add_edge : Map StringSet → String → String → Map StringSet
unfolding set_at
add_edge m k x = put m k (put (set_at m k) x tt)

-- addMembership
unfoldable pub add_membership : String → String → MemberTable → MemberTable
add_membership group_id user_id t = record {
  memberships = add_edge t.memberships group_id user_id;
  memberships_by_user = add_edge t.memberships_by_user user_id group_id;
}

-- the loop `for uid := range set { s.addMembership(groupID, uid) }`
unfoldable pub add_memberships : String → List String → MemberTable → MemberTable
add_memberships group_id [] t = t
add_memberships group_id (uid ∷ uids) t =
    add_memberships group_id uids (add_membership group_id uid t)

-- `set := make(...); for _, uid := range userIDs { set[uid] = struct{}{} }`
unfoldable pub to_set : List String → StringSet → StringSet
to_set [] set = set
to_set (uid ∷ uids) set = to_set uids (put set uid tt)

-- setMembers once its checks have passed
unfoldable pub replace_members : String → List String → MemberTable → MemberTable
replace_members group_id user_ids t =
    let by_user =
      drop_edges (keys (set_at t.memberships group_id)) group_id t.memberships_by_user in
    let set = to_set user_ids empty in
    if size set == 0
    then record { memberships = remove t.memberships group_id; memberships_by_user = by_user }
    else add_memberships group_id (keys set)
        (record { memberships = put t.memberships group_id set; memberships_by_user = by_user })

-- the cascade of deleteUser
unfoldable pub forget_user : String → MemberTable → MemberTable
forget_user id t = record {
  memberships = drop_edges (keys (set_at t.memberships_by_user id)) id t.memberships;
  memberships_by_user = remove t.memberships_by_user id;
}

-- the cascade of deleteGroup
unfoldable pub forget_group : String → MemberTable → MemberTable
forget_group id t = record {
  memberships = remove t.memberships id;
  memberships_by_user = drop_edges (keys (set_at t.memberships id)) id t.memberships_by_user;
}
