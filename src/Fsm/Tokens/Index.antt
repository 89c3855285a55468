-- ===== src/Fsm/Tokens/Index.antt =====
-- The token table's invariant and the token operations.
use mathlib.Core.Option.{some_inj}
use dagger_kubernetes.Prelude.{
  ◌≡◌, ◌⊎◌, inl, inr, Option, none, some, String, eq_iff, arith, Option-cases,
}
use dagger_kubernetes.Maps.{get, get-put, get-remove}
use dagger_kubernetes.Maps.Index.{IsIndexed, IsIndexed-change}
use dagger_kubernetes.Domain.{Time, ApiToken, ok, err, conflict}
use dagger_kubernetes.Fsm.State.{TokenTable}
use dagger_kubernetes.Fsm.Users.Index.{free_of_not_taken}
use dagger_kubernetes.Fsm.Tokens.{
  store_token, remove_token, replace_token, upsert_token, delete_token, touch_token,
}

abbrev pub hash_key : ApiToken → Option String
hash_key k = some k.token_hash

abbrev pub owner_key : ApiToken → Option String
owner_key k = some k.user_id

-- Rows stand under their own id, and the indices by hash and by owner are exact: in particular a
-- user has at most one token, and no two tokens share a hash.
pub record IsTokenTable (t : TokenTable) : Type 0 where
  pub keyed : (id : String) (k : ApiToken) → get t.tokens id ≡ some k → k.id ≡ id
  pub by_hash : IsIndexed hash_key t.tokens t.tokens_by_hash
  pub by_user : IsIndexed owner_key t.tokens t.tokens_by_user

-- The id of a new token is not the id of another user's token.
abbrev pub IsFreshToken : ApiToken → TokenTable → Type 0
IsFreshToken k t = (old : ApiToken) → get t.tokens k.id ≡ some old → old.user_id ≡ k.user_id

module _ (t : TokenTable) (h : IsTokenTable t) where
  pub remove_token-IsTokenTable : (id : String) → IsTokenTable (remove_token id t)
  unfolding remove_token
  remove_token-IsTokenTable id = elim (Option-cases (get t.tokens id)) [
    | inl missing ↦ rw (missing, remove_token) h
    | inr (k, at) ↦
        rw (at, remove_token)
          (record {
            keyed = λ i x e. ground (arith, get-remove t.tokens id i, h.keyed i x);
            by_hash =
                IsIndexed-change hash_key t.tokens _ t.tokens_by_hash _ id none
                  (λ j. get-remove t.tokens id j)
                  (λ x. rw at (get-remove t.tokens_by_hash k.token_hash x)) (λ x e. ground arith)
                  h.by_hash;
            by_user =
                IsIndexed-change owner_key t.tokens _ t.tokens_by_user _ id none
                  (λ j. get-remove t.tokens id j)
                  (λ x. rw at (get-remove t.tokens_by_user k.user_id x)) (λ x e. ground arith)
                  h.by_user;
          })
  ]

  pub store_token-IsTokenTable :
      (k : ApiToken)
      → get t.tokens k.id ≡ none
      → get t.tokens_by_hash k.token_hash ≡ none
      → get t.tokens_by_user k.user_id ≡ none
      → IsTokenTable (store_token k t)
  unfolding store_token
  store_token-IsTokenTable k fresh no_hash no_user = record {
    keyed = λ i x e. ground (arith, get-put t.tokens k.id i k, eq_iff k.id i, h.keyed i x);
    by_hash =
        IsIndexed-change hash_key t.tokens _ t.tokens_by_hash _ k.id (some k)
          (λ j. get-put t.tokens k.id j k)
          (λ x. rw fresh (get-put t.tokens_by_hash k.token_hash x k.id)) (λ x e. ground arith)
          h.by_hash;
    by_user =
        IsIndexed-change owner_key t.tokens _ t.tokens_by_user _ k.id (some k)
          (λ j. get-put t.tokens k.id j k)
          (λ x. rw fresh (get-put t.tokens_by_user k.user_id x k.id)) (λ x e. ground arith)
          h.by_user;
  }

  -- once the owner's old token is gone, the new one's id, hash and owner are free
  id_freed :
      (k old : ApiToken) (existing : String)
      → get t.tokens_by_user k.user_id ≡ some existing
      → get t.tokens existing ≡ some old
      → IsFreshToken k t
      → get (remove_token existing t).tokens k.id ≡ none
  unfolding remove_token
  id_freed k old existing owner at fresh = elim (Option-cases (get t.tokens k.id)) [
    | inl e ↦ rw (at, remove_token) (ground (arith, get-remove t.tokens existing k.id))
    | inr (other, e) ↦
        rw (at, remove_token)
          (ground (
            arith,
            get-remove t.tokens existing k.id,
            eq_iff existing k.id,
            fresh other e,
            h.by_user.complete k.id other k.user_id e,
          ))
  ]

  hash_freed :
      (k old : ApiToken) (existing : String)
      → get t.tokens existing ≡ some old
      → (get t.tokens_by_hash k.token_hash ≡ none)
        ⊎ (get t.tokens_by_hash k.token_hash ≡ some existing)
      → get (remove_token existing t).tokens_by_hash k.token_hash ≡ none
  unfolding remove_token
  hash_freed k old existing at (inl e) =
      rw (at, remove_token)
        (ground (arith, get-remove t.tokens_by_hash old.token_hash k.token_hash))
  hash_freed k old existing at (inr e) =
      let (row, here, keyed) = h.by_hash.sound k.token_hash existing e in
      rw (at, remove_token)
        (ground (
          arith,
          get-remove t.tokens_by_hash old.token_hash k.token_hash,
          eq_iff old.token_hash k.token_hash,
        ))

  user_freed :
      (k old : ApiToken) (existing : String)
      → get t.tokens existing ≡ some old
      → old.user_id ≡ k.user_id
      → get (remove_token existing t).tokens_by_user k.user_id ≡ none
  unfolding remove_token
  user_freed k old existing at same =
      rw (at, remove_token)
        (ground
          (arith, get-remove t.tokens_by_user old.user_id k.user_id, eq_iff old.user_id k.user_id))

  replace_cases :
      (k old : ApiToken) (existing : String)
      → get t.tokens existing ≡ some old
      → (replace_token k existing t ≡ (t, err conflict))
        ⊎ ((replace_token k existing t ≡ (store_token k (remove_token existing t), ok tt))
            × ((get t.tokens_by_hash k.token_hash ≡ none)
                ⊎ (get t.tokens_by_hash k.token_hash ≡ some existing)))
  unfolding replace_token
  replace_cases k old existing at = ground (
    arith,
    eq_iff k.token_hash old.token_hash,
    free_of_not_taken t.tokens_by_hash k.token_hash existing,
    h.by_hash.complete existing old old.token_hash at,
  )

module _ (t : TokenTable) (h : IsTokenTable t) where
  replace_token-IsTokenTable :
      (k : ApiToken) (existing : String)
      → get t.tokens_by_user k.user_id ≡ some existing
      → IsFreshToken k t
      → IsTokenTable (replace_token k existing t).0
  replace_token-IsTokenTable k existing owner fresh =
      let (old, at, same) = h.by_user.sound k.user_id existing owner in
      elim (replace_cases t h k old existing at) [
        | inl refused ↦ rw refused h
        | inr (stored, hash) ↦ rw stored (
            store_token-IsTokenTable (remove_token existing t)
              (remove_token-IsTokenTable t h existing) k
              (id_freed t h k old existing owner at fresh) (hash_freed t h k old existing at hash)
              (user_freed t h k old existing at (some_inj.0 same)))
      ]

  pub upsert_token-IsTokenTable :
      (k : ApiToken) → IsFreshToken k t → IsTokenTable (upsert_token k t).0
  unfolding upsert_token
  upsert_token-IsTokenTable k fresh = elim (Option-cases (get t.tokens_by_user k.user_id)) [
    | inr (existing, owner) ↦
        rw (owner, upsert_token) (replace_token-IsTokenTable k existing owner fresh)
    | inl no_user ↦ elim (Option-cases (get t.tokens_by_hash k.token_hash)) [
      | inr (other, e) ↦ rw (no_user, upsert_token) (rw e h)
      | inl no_hash ↦
          rw (no_user, upsert_token)
            (rw no_hash (store_token-IsTokenTable t h k (unused k fresh no_user) no_hash no_user))
    ]
  ]
    where
      unused :
          (k : ApiToken)
          → IsFreshToken k t
          → get t.tokens_by_user k.user_id ≡ none
          → get t.tokens k.id ≡ none
      unused k fresh none_owned = elim (Option-cases (get t.tokens k.id)) [
        | inl e ↦ e
        | inr (old, e) ↦ ground (arith, h.by_user.complete k.id old k.user_id e, fresh old e)
      ]

  pub delete_token-IsTokenTable : (user_id : String) → IsTokenTable (delete_token user_id t)
  unfolding delete_token
  delete_token-IsTokenTable user_id = elim (Option-cases (get t.tokens_by_user user_id)) [
    | inl missing ↦ rw (missing, delete_token) h
    | inr (id, owner) ↦ rw (owner, delete_token) (remove_token-IsTokenTable t h id)
  ]

  pub touch_token-IsTokenTable : (id : String) (now : Time) → IsTokenTable (touch_token id now t)
  unfolding touch_token
  touch_token-IsTokenTable id now = elim (Option-cases (get t.tokens id)) [
    | inl missing ↦ rw (missing, touch_token) h
    | inr (k, at) ↦
        rw (at, touch_token)
          (let k' : ApiToken = record k { last_used_at = some now } in
            record {
              keyed = λ i x e.
                  ground
                    (arith, get-put t.tokens id i k', eq_iff id i, h.keyed id k at, h.keyed i x);
              by_hash =
                  IsIndexed-change hash_key t.tokens _ t.tokens_by_hash _ id (some k')
                    (λ j. get-put t.tokens id j k')
                    (λ x.
                      rw at (ground (arith, eq_iff k.token_hash x, h.by_hash.complete id k x at)))
                    (λ x e. inr (h.by_hash.complete id k x at e)) h.by_hash;
              by_user =
                  IsIndexed-change owner_key t.tokens _ t.tokens_by_user _ id (some k')
                    (λ j. get-put t.tokens id j k')
                    (λ x. rw at (ground (arith, eq_iff k.user_id x, h.by_user.complete id k x at)))
                    (λ x e. inr (h.by_user.complete id k x at e)) h.by_user;
            })
  ]

  -- An upsert stores the token or reports a conflict; it never meets a missing row.
  pub upsert_token_cases :
      (k : ApiToken) → (upsert_token k t ≡ (t, err conflict)) ⊎ ((upsert_token k t).1 ≡ ok tt)
  unfolding upsert_token
  upsert_token_cases k = elim (Option-cases (get t.tokens_by_user k.user_id)) [
    | inl no_user ↦ rw (no_user, upsert_token) (ground arith)
    | inr (existing, owner) ↦
        let (old, at, same) = h.by_user.sound k.user_id existing owner in
        rw (owner, upsert_token) (ground (arith, replace_cases t h k old existing at))
  ]
