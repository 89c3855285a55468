-- ===== src/Fsm/Users/Index.antt =====
-- The user table's invariant and upsertUser.
use dagger_kubernetes.Prelude.{
  Bool, false, ◌≡◌, ◌⊎◌, inl, inr, Option, none, some, String, str_eq, eq_iff, arith, Option-cases,
  if◌then◌else◌,
}
use dagger_kubernetes.Maps.{Map, get, remove, get-put, get-remove}
use dagger_kubernetes.Maps.Index.{IsIndexed, IsIndexed-change}
use dagger_kubernetes.Domain.{User}
use dagger_kubernetes.Fsm.State.{UserTable, oauth_key}
use dagger_kubernetes.Fsm.Users.{
  store_user, drop_user_keys, updated_user, created_user, update_user, create_user, upsert_user,
  taken_by_other,
}

-- the key of a user in the OAuth index; a local account has none
abbrev pub oauth_index_key : User → Option String
oauth_index_key u =
    if str_eq u.oauth_id "" then none else some (oauth_key u.oauth_provider u.oauth_id)

pub free_of_not_taken :
    (idx : Map String) (k id : String)
    → taken_by_other idx k id ≡ false
    → (get idx k ≡ none) ⊎ (get idx k ≡ some id)
free_of_not_taken idx k id h = elim (Option-cases (get idx k)) [
  | inl e ↦ inl e
  | inr (other, e) ↦ inr (ground (arith, eq_iff other id))
]

module _ (lower : String → String) where
  -- Rows stand under their own id, have a name, and both reverse indices are exact.
  pub record IsUserTable (t : UserTable) : Type 0 where
    pub keyed : (id : String) (u : User) → get t.users id ≡ some u → u.id ≡ id
    pub named : (id : String) (u : User) → get t.users id ≡ some u → str_eq u.username "" ≡ false
    pub by_name : IsIndexed (λ u. some (lower u.username)) t.users t.users_by_name
    pub by_oauth : IsIndexed oauth_index_key t.users t.users_by_oauth

  module _ (u : User) (t : UserTable) (name : str_eq u.username "" ≡ false)
      (h : IsUserTable t) where
    create_keeps :
        get t.users u.id ≡ none
        → get t.users_by_name (lower u.username) ≡ none
        → (str_eq u.oauth_id "" ≡ false
            → get t.users_by_oauth (oauth_key u.oauth_provider u.oauth_id) ≡ none)
        → IsUserTable (store_user lower u t)
    unfolding store_user
    create_keeps fresh free free_oauth = record {
      keyed = λ id x e. ground (arith, get-put t.users u.id id u, eq_iff u.id id, h.keyed id x);
      named = λ id x e. ground (arith, get-put t.users u.id id u, h.named id x);
      by_name =
          IsIndexed-change _ t.users _ t.users_by_name _ u.id (some u)
            (λ j. get-put t.users u.id j u)
            (λ k. rw fresh (get-put t.users_by_name (lower u.username) k u.id))
            (λ k e. ground arith) h.by_name;
      by_oauth =
          IsIndexed-change oauth_index_key t.users _ t.users_by_oauth _ u.id (some u)
            (λ j. get-put t.users u.id j u)
            (λ k.
              ground
                (arith, get-put t.users_by_oauth (oauth_key u.oauth_provider u.oauth_id) k u.id))
            (λ k e. ground arith) h.by_oauth;
    }

    update_keeps :
        (old : User)
        → get t.users u.id ≡ some old
        → taken_by_other t.users_by_name (lower u.username) u.id ≡ false
        → (str_eq u.oauth_id "" ≡ false
            → taken_by_other t.users_by_oauth (oauth_key u.oauth_provider u.oauth_id) u.id ≡ false)
        → IsUserTable (store_user lower u (drop_user_keys lower old t))
    unfolding store_user drop_user_keys
    update_keeps old at free free_oauth =
        let was_named = h.named u.id old at in
        let new_key = oauth_key u.oauth_provider u.oauth_id in
        let old_key = oauth_key old.oauth_provider old.oauth_id in
        record {
          keyed = λ id x e. ground (arith, get-put t.users u.id id u, eq_iff u.id id, h.keyed id x);
          named = λ id x e. ground (arith, get-put t.users u.id id u, h.named id x);
          by_name =
              IsIndexed-change _ t.users _ t.users_by_name _ u.id (some u)
                (λ j. get-put t.users u.id j u)
                (λ k. rw (was_named, at) (simp (get-put, get-remove)))
                (λ k e.
                  ground
                    (arith, eq_iff (lower u.username) k, free_of_not_taken t.users_by_name k u.id))
                h.by_name;
          by_oauth =
              IsIndexed-change oauth_index_key t.users _ t.users_by_oauth _ u.id (some u)
                (λ j. get-put t.users u.id j u)
                (λ k. rw at (
                  ground (
                    arith,
                    get-put (remove t.users_by_oauth old_key) new_key k u.id,
                    get-put t.users_by_oauth new_key k u.id,
                    get-remove t.users_by_oauth old_key k,
                  )))
                (λ k e. ground (arith, free_of_not_taken t.users_by_oauth k u.id)) h.by_oauth;
        }

  module _ (u : User) (create : Bool) (t : UserTable) where
    -- a create leaves the table alone, or found both keys free
    create_cases :
        ((create_user lower u create t).0 ≡ t)
        ⊎ (((create_user lower u create t).0 ≡ store_user lower (created_user lower u) t)
            × (get t.users_by_name (lower u.username) ≡ none)
            × (str_eq u.oauth_id "" ≡ false
                → get t.users_by_oauth (oauth_key u.oauth_provider u.oauth_id) ≡ none))
    unfolding create_user
    create_cases = ground arith

    update_cases :
        (old : User)
        → ((update_user lower u create old t).0 ≡ t)
          ⊎ (((update_user lower u create old t).0
                ≡ store_user lower (updated_user lower u old) (drop_user_keys lower old t))
              × (taken_by_other t.users_by_name (lower u.username) u.id ≡ false)
              × (str_eq u.oauth_id "" ≡ false
                  → taken_by_other t.users_by_oauth (oauth_key u.oauth_provider u.oauth_id) u.id
                    ≡ false))
    unfolding update_user
    update_cases old = ground arith

    -- An upsert of a named user keeps the table's invariant, whatever it returns.
    pub upsert_user-IsUserTable :
        str_eq u.username "" ≡ false → IsUserTable t → IsUserTable (upsert_user lower u create t).0
    unfolding upsert_user
    upsert_user-IsUserTable name h = elim (Option-cases (get t.users u.id)) [
      | inl fresh ↦ elim create_cases [
        | inl same ↦ rw (fresh, upsert_user) (rw same h)
        | inr (e, free, free_oauth) ↦
            rw (fresh, upsert_user)
              (rw e (create_keeps (created_user lower u) t name h fresh free free_oauth))
      ]
      | inr (old, at) ↦ elim (update_cases old) [
        | inl same ↦ rw (at, upsert_user) (rw same h)
        | inr (e, free, free_oauth) ↦
            rw (at, upsert_user)
              (rw e (update_keeps (updated_user lower u old) t name h old at free free_oauth))
      ]
    ]
