-- ===== src/Fsm/Behaviour/Tokens.antt =====
-- upsertToken, seen through the token table.
use dagger_kubernetes.Prelude.{
  ◌≡◌, ◌⊎◌, inl, inr, Option, some, String, eq_refl, arith, Option-cases, ap, refl,
}
use dagger_kubernetes.Maps.{get, get-put}
use dagger_kubernetes.Domain.{ApiToken, ok}
use dagger_kubernetes.Fsm.State.{TokenTable}
use dagger_kubernetes.Fsm.Tokens.{store_token, remove_token, replace_token, upsert_token}
use dagger_kubernetes.Fsm.Tokens.Index.{IsTokenTable, IsFreshToken, upsert_token-IsTokenTable}

-- a successful upsert ends with `store_token`
stored_over :
    (k : ApiToken) (t : TokenTable)
    → (upsert_token k t).1 ≡ ok tt
    → (base : TokenTable) × ((upsert_token k t).0 ≡ store_token k base)
unfolding upsert_token replace_token
stored_over k t e = elim (Option-cases (get t.tokens_by_user k.user_id)) [
  | inl no_user ↦ (t, rw (no_user, upsert_token) (ground arith))
  | inr (existing, owner) ↦ (remove_token existing t, rw (owner, upsert_token) (ground arith))
]

module _ (k : ApiToken) (t : TokenTable) (h : IsTokenTable t) (fresh : IsFreshToken k t)
    (e : (upsert_token k t).1 ≡ ok tt) where
  stored_row : get (upsert_token k t).0.tokens k.id ≡ some k
  unfolding store_token
  stored_row =
      let (base, same) = stored_over k t e in
      rw same (ground (arith, get-put base.tokens k.id k.id k, eq_refl k.id))

  -- In a sound token table, after an upsert that succeeds, of a token whose id is not that of
  -- another user's token, it is the one token of its owner and the one with its hash: an earlier
  -- token of the owner is gone.
  pub upsert_token_replaces :
      (get (upsert_token k t).0.tokens k.id ≡ some k)
      × ((id : String) (x : ApiToken)
          → get (upsert_token k t).0.tokens id ≡ some x
          → (x.user_id ≡ k.user_id) ⊎ (x.token_hash ≡ k.token_hash)
          → x ≡ k)
  upsert_token_replaces = (stored_row, only)
    where
      sound : IsTokenTable (upsert_token k t).0
      sound = upsert_token-IsTokenTable t h k fresh

      only :
          (id : String) (x : ApiToken)
          → get (upsert_token k t).0.tokens id ≡ some x
          → (x.user_id ≡ k.user_id) ⊎ (x.token_hash ≡ k.token_hash)
          → x ≡ k
      only id x at (inl same) = ground (
        arith,
        stored_row,
        sound.by_user.complete id x k.user_id at (ap {B = Option String} some same),
        sound.by_user.complete k.id k k.user_id stored_row refl,
      )
      only id x at (inr same) = ground (
        arith,
        stored_row,
        sound.by_hash.complete id x k.token_hash at (ap {B = Option String} some same),
        sound.by_hash.complete k.id k k.token_hash stored_row refl,
      )
