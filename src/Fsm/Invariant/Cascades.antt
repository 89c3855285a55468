-- ===== src/Fsm/Invariant/Cascades.antt =====
-- deleteUser, deleteGroup and setMembers, and the invariant of the replica.
use dagger_kubernetes.Prelude.{
  true, ◌≡◌, inl, inr, List, [], ◌∷◌, String, eq_iff, arith, Option-cases, Bool-cases,
}
use dagger_kubernetes.Maps.{
  Map, get, has, elem, get-remove, map_values, get-map_values, map_values-IsDistinct,
}
use dagger_kubernetes.Domain.{User, TraceMeta}
use dagger_kubernetes.Fsm.State.{FsmState}
use dagger_kubernetes.Fsm.Tokens.Index.{delete_token-IsTokenTable}
use dagger_kubernetes.Fsm.Members.Linked.{
  in_group-forget_user, in_group-forget_group, in_group-replace_members, forget_user-IsLinked,
  forget_group-IsLinked, replace_members-IsLinked,
}
use dagger_kubernetes.Fsm.Cascade.{
  clear_trace_user, clear_trace_group, all_known, remove_user_row, remove_group_row, delete_user,
  delete_group, set_members,
}
use dagger_kubernetes.Fsm.Invariant.{WellFormed, IsKeyed}
use dagger_kubernetes.Fsm.Invariant.Rows.{
  remove_user_row-IsUserTable, remove_group_row-IsGroupTable, clear_projects-IsProjectTable,
}

-- rewriting traces in place keeps their ids
IsKeyed-map_values :
    (f : TraceMeta → TraceMeta)
    → ((m : TraceMeta) → (f m).trace_id ≡ m.trace_id)
    → (traces : Map TraceMeta) → IsKeyed traces
    → IsKeyed (map_values f traces)
IsKeyed-map_values f same traces h = record {
  at_id = λ id m e. elim (Option-cases (get traces id)) [
    | inl missing ↦ absurd (ground (arith, get-map_values f traces id))
    | inr (old, at) ↦ ground (arith, get-map_values f traces id, h.at_id id old at, same old)
  ];
  distinct = map_values-IsDistinct f traces h.distinct;
}

clear_trace_user-id : (id : String) (m : TraceMeta) → (clear_trace_user id m).trace_id ≡ m.trace_id
unfolding clear_trace_user
clear_trace_user-id id m = ground arith

clear_trace_group-id :
    (id : String) (m : TraceMeta) → (clear_trace_group id m).trace_id ≡ m.trace_id
unfolding clear_trace_group
clear_trace_group-id id m = ground arith

pub all_known-elem :
    (users : Map User) (ids : List String) (u : String)
    → all_known users ids ≡ true
    → elem u ids ≡ true
    → has users u ≡ true
unfolding all_known
all_known-elem users [] u h e = absurd (ground arith)
all_known-elem users (i ∷ ids) u h e = ground (arith, all_known-elem users ids u, eq_iff i u)

module _ (lower : String → String) (s : FsmState) (w : WellFormed lower s) where
  pub delete_user-WellFormed : (id : String) → WellFormed lower (delete_user lower id s).0
  unfolding delete_user remove_user_row
  delete_user-WellFormed id = elim (Option-cases (get s.users id)) [
    | inl missing ↦ rw (missing, delete_user) w
    | inr (u, at) ↦
        rw (at, delete_user)
          (record {
            users_ok = remove_user_row-IsUserTable lower id u s.user_table at w.users_ok;
            groups_ok = w.groups_ok;
            projects_ok = w.projects_ok;
            tokens_ok = delete_token-IsTokenTable s.token_table w.tokens_ok id;
            members_linked = forget_user-IsLinked s.member_table w.members_linked id;
            member_user = λ g x e. ground (
              arith,
              in_group-forget_user s.member_table w.members_linked id g x,
              get-remove s.users id x,
              w.member_user g x,
            );
            member_group = λ g x e. ground (
              arith,
              in_group-forget_user s.member_table w.members_linked id g x,
              w.member_group g x,
            );
            traces_keyed =
                IsKeyed-map_values (clear_trace_user id) (clear_trace_user-id id) s.traces
                  w.traces_keyed;
          })
  ]

  pub delete_group-WellFormed : (id : String) → WellFormed lower (delete_group lower id s).0
  unfolding delete_group remove_group_row
  delete_group-WellFormed id = elim (Option-cases (get s.groups id)) [
    | inl missing ↦ rw (missing, delete_group) w
    | inr (g, at) ↦
        rw (at, delete_group)
          (record {
            users_ok = w.users_ok;
            groups_ok = remove_group_row-IsGroupTable lower id g s.group_table at w.groups_ok;
            projects_ok = clear_projects-IsProjectTable lower id s.project_table w.projects_ok;
            tokens_ok = w.tokens_ok;
            members_linked = forget_group-IsLinked s.member_table w.members_linked id;
            member_user = λ h x e. ground (
              arith,
              in_group-forget_group s.member_table w.members_linked id h x,
              w.member_user h x,
            );
            member_group = λ h x e. ground (
              arith,
              in_group-forget_group s.member_table w.members_linked id h x,
              get-remove s.groups id h,
              w.member_group h x,
            );
            traces_keyed =
                IsKeyed-map_values (clear_trace_group id) (clear_trace_group-id id) s.traces
                  w.traces_keyed;
          })
  ]

  pub set_members-WellFormed :
      (id : String) (ids : List String) → WellFormed lower (set_members id ids s).0
  unfolding set_members
  set_members-WellFormed id ids = elim (Bool-cases (has s.groups id)) [
    | inr unknown ↦ rw (unknown, set_members) w
    | inl known ↦ elim (Bool-cases (all_known s.users ids)) [
      | inr missing ↦ rw (known, missing, set_members) w
      | inl users_known ↦
          rw (known, users_known, set_members)
            (record {
              users_ok = w.users_ok;
              groups_ok = w.groups_ok;
              projects_ok = w.projects_ok;
              tokens_ok = w.tokens_ok;
              members_linked = replace_members-IsLinked s.member_table w.members_linked id ids;
              member_user = λ g x e. ground (
                arith,
                in_group-replace_members s.member_table w.members_linked id ids g x,
                all_known-elem s.users ids x users_known,
                w.member_user g x,
              );
              member_group = λ g x e. ground (
                arith,
                in_group-replace_members s.member_table w.members_linked id ids g x,
                eq_iff id g,
                w.member_group g x,
              );
              traces_keyed = w.traces_keyed;
            })
    ]
  ]
