-- ===== src/Fsm/Behaviour/Deletes.antt =====
-- What deleting a user or a group leaves behind.
use dagger_kubernetes.Prelude.{
  ap, true, false, ◌≡◌, ◌≢◌, inl, inr, Option, none, some, String, str_eq, eq_iff, eq_refl, arith,
  Option-cases,
}
use dagger_kubernetes.Maps.{get, has, get-remove, get-map_values}
use dagger_kubernetes.Domain.{User, Group, Project, TraceMeta, ApiToken, ok, err, not_found}
use dagger_kubernetes.Fsm.State.{FsmState, TokenTable}
use dagger_kubernetes.Fsm.Tokens.{remove_token, delete_token}
use dagger_kubernetes.Fsm.Tokens.Index.{IsTokenTable, delete_token-IsTokenTable}
use dagger_kubernetes.Fsm.Members.Linked.{
  in_group, in_user, in_group-forget_user, in_user-forget_user, in_group-forget_group,
  in_user-forget_group,
}
use dagger_kubernetes.Fsm.Cascade.{
  clear_trace_user, clear_trace_group, clear_project_group, remove_user_row, remove_group_row,
  delete_user, delete_group,
}
use dagger_kubernetes.Fsm.Reads.{read_row, read_user_by_id, read_group_by_id, read_token_by_user}
use dagger_kubernetes.Fsm.Invariant.{WellFormed}

-- the owner's token is gone from the index, and no row has that owner
module _ (user_id : String) (t : TokenTable) (h : IsTokenTable t) where
  owner_gone : get (delete_token user_id t).tokens_by_user user_id ≡ none
  unfolding delete_token remove_token
  owner_gone = elim (Option-cases (get t.tokens_by_user user_id)) [
    | inl missing ↦ rw (missing, delete_token) missing
    | inr (id, owner) ↦
        let (k, at, same) = h.by_user.sound user_id id owner in
        rw (owner, delete_token)
          (rw (at, remove_token)
            (ground
              (arith, get-remove t.tokens_by_user k.user_id user_id, eq_iff k.user_id user_id)))
  ]

  pub tokens-delete_token :
      (id : String) (k : ApiToken)
      → get (delete_token user_id t).tokens id ≡ some k
      → k.user_id ≢ user_id
  tokens-delete_token id k at same = cc (
    owner_gone,
    (delete_token-IsTokenTable t h user_id).by_user.complete id k user_id at
        (ap {B = Option String} some same),
  )

cleared_user :
    (id : String) (m : TraceMeta) → str_eq id "" ≡ false → (clear_trace_user id m).user_id ≢ id
unfolding clear_trace_user
cleared_user id m real e = ground (arith, eq_iff m.user_id id, eq_iff id "")

-- What is known once the user `id` is deleted.
pub record IsUserGone (id : String) (s s' : FsmState) : Type 0 where
  pub user_gone : read_user_by_id s' id ≡ err not_found
  pub others_stay : (j : String) → id ≢ j → read_user_by_id s' j ≡ read_user_by_id s j
  pub no_member : (g : String) → in_group s'.member_table g id ≡ false
  pub no_membership : (g : String) → in_user s'.member_table g id ≡ false
  pub edges_stay :
      (g u : String) → id ≢ u → in_group s'.member_table g u ≡ in_group s.member_table g u
  pub no_token : read_token_by_user s' id ≡ err not_found
  pub no_owned : (j : String) (k : ApiToken) → get s'.tokens j ≡ some k → k.user_id ≢ id
  pub no_trace : (j : String) (m : TraceMeta) → get s'.traces j ≡ some m → m.user_id ≢ id

module _ (lower : String → String) (s : FsmState) (w : WellFormed lower s) (id : String)
    (real : str_eq id "" ≡ false) where
  gone : (u : User) → get s.users id ≡ some u → IsUserGone id s (delete_user lower id s).0
  unfolding delete_user remove_user_row read_user_by_id read_row read_token_by_user
  gone u at =
      rw (at, delete_user)
        (record {
          user_gone = ground (arith, get-remove s.users id id, eq_refl id);
          others_stay = λ j ne. ground (arith, get-remove s.users id j, eq_iff id j);
          no_member = λ g.
              ground
                (arith, in_group-forget_user s.member_table w.members_linked id g id, eq_refl id);
          no_membership = λ g.
              ground
                (arith, in_user-forget_user s.member_table w.members_linked id g id, eq_refl id);
          edges_stay = λ g u ne.
              ground
                (arith, in_group-forget_user s.member_table w.members_linked id g u, eq_iff id u);
          no_token = ground (arith, owner_gone id s.token_table w.tokens_ok);
          no_owned = tokens-delete_token id s.token_table w.tokens_ok;
          no_trace = λ j m e. elim (Option-cases (get s.traces j)) [
            | inl missing ↦ absurd (ground (arith, get-map_values (clear_trace_user id) s.traces j))
            | inr (old, was) ↦ λ same.
                cleared_user id old real
                  (cc (get-map_values (clear_trace_user id) s.traces j, same))
          ];
        })

  -- In a well-formed replica, deleting a user that exists under an id that is not empty succeeds,
  -- and afterwards neither the row, its token, its memberships nor a trace that names it is left;
  -- other users and edges stay.
  pub delete_user_complete :
      has s.users id ≡ true
      → ((delete_user lower id s).1 ≡ ok tt) × IsUserGone id s (delete_user lower id s).0
  unfolding delete_user
  delete_user_complete there = elim (Option-cases (get s.users id)) [
    | inl missing ↦ absurd (ground arith)
    | inr (u, at) ↦ (rw (at, delete_user), gone u at)
  ]

cleared_group :
    (id : String) (m : TraceMeta) → str_eq id "" ≡ false → (clear_trace_group id m).group_id ≢ id
unfolding clear_trace_group
cleared_group id m real e = ground (arith, eq_iff m.group_id id, eq_iff id "")

cleared_project :
    (id : String) (p : Project) → str_eq id "" ≡ false → (clear_project_group id p).group_id ≢ id
unfolding clear_project_group
cleared_project id p real e = ground (arith, eq_iff p.group_id id, eq_iff id "")

-- What is known once the group `id` is deleted.
pub record IsGroupGone (id : String) (s s' : FsmState) : Type 0 where
  pub group_gone : read_group_by_id s' id ≡ err not_found
  pub others_stay : (j : String) → id ≢ j → read_group_by_id s' j ≡ read_group_by_id s j
  pub no_member : (u : String) → in_group s'.member_table id u ≡ false
  pub no_membership : (u : String) → in_user s'.member_table id u ≡ false
  pub edges_stay :
      (g u : String) → id ≢ g → in_group s'.member_table g u ≡ in_group s.member_table g u
  pub no_project : (j : String) (p : Project) → get s'.projects j ≡ some p → p.group_id ≢ id
  pub no_trace : (j : String) (m : TraceMeta) → get s'.traces j ≡ some m → m.group_id ≢ id

module _ (lower : String → String) (s : FsmState) (w : WellFormed lower s) (id : String)
    (real : str_eq id "" ≡ false) where
  group_gone : (g : Group) → get s.groups id ≡ some g → IsGroupGone id s (delete_group lower id s).0
  unfolding delete_group remove_group_row read_group_by_id read_row
  group_gone g at =
      rw (at, delete_group)
        (record {
          group_gone = ground (arith, get-remove s.groups id id, eq_refl id);
          others_stay = λ j ne. ground (arith, get-remove s.groups id j, eq_iff id j);
          no_member = λ u.
              ground
                (arith, in_group-forget_group s.member_table w.members_linked id id u, eq_refl id);
          no_membership = λ u.
              ground
                (arith, in_user-forget_group s.member_table w.members_linked id id u, eq_refl id);
          edges_stay = λ h u ne.
              ground
                (arith, in_group-forget_group s.member_table w.members_linked id h u, eq_iff id h);
          no_project = λ j p e. elim (Option-cases (get s.projects j)) [
            | inl missing ↦
                absurd (ground (arith, get-map_values (clear_project_group id) s.projects j))
            | inr (old, was) ↦ λ same.
                cleared_project id old real
                  (cc (get-map_values (clear_project_group id) s.projects j, same))
          ];
          no_trace = λ j m e. elim (Option-cases (get s.traces j)) [
            | inl missing ↦
                absurd (ground (arith, get-map_values (clear_trace_group id) s.traces j))
            | inr (old, was) ↦ λ same.
                cleared_group id old real
                  (cc (get-map_values (clear_trace_group id) s.traces j, same))
          ];
        })

  -- In a well-formed replica, deleting a group that exists under an id that is not empty succeeds,
  -- and afterwards neither the row, its memberships nor a project or trace that names it is left;
  -- other groups and edges stay.
  pub delete_group_complete :
      has s.groups id ≡ true
      → ((delete_group lower id s).1 ≡ ok tt) × IsGroupGone id s (delete_group lower id s).0
  unfolding delete_group
  delete_group_complete there = elim (Option-cases (get s.groups id)) [
    | inl missing ↦ absurd (ground arith)
    | inr (g, at) ↦ (rw (at, delete_group), group_gone g at)
  ]
