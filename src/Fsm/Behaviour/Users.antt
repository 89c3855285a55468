-- ===== src/Fsm/Behaviour/Users.antt =====
-- What an upsert of a user does on each of its branches, seen through the reads.
use dagger_kubernetes.Prelude.{
  ap, ◌∙◌, refl, Bool, false, ◌≡◌, ◌≢◌, inl, inr, none, some, String, str_eq, eq_iff, eq_refl,
  arith, Option-cases, if◌then◌else◌,
}
use dagger_kubernetes.Maps.{Map, get, get-put}
use dagger_kubernetes.Domain.{User, ok, err, conflict, not_found, is_zero}
use dagger_kubernetes.Fsm.State.{UserTable, oauth_key}
use dagger_kubernetes.Fsm.Users.{
  taken_by_other, store_user, drop_user_keys, updated_user, created_user, update_user, create_user,
  upsert_user,
}
use dagger_kubernetes.Fsm.Reads.{read_indexed, read_row}

module _ (lower : String → String) (u : User) (t : UserTable) where
  -- is the name, or the OAuth identity if there is one, another user's?
  abbrev pub name_clash : Bool
  name_clash = taken_by_other t.users_by_name (lower u.username) u.id

  abbrev pub oauth_clash : Bool
  oauth_clash =
      if str_eq u.oauth_id ""
      then false
      else taken_by_other t.users_by_oauth (oauth_key u.oauth_provider u.oauth_id) u.id

  -- An update fails with "not found" where there is no such row and with a conflict where the name
  -- or the OAuth identity is another user's, and otherwise succeeds.
  pub update_result : (upsert_user lower u false t).1 ≡ elim (get t.users u.id) [
    | none ↦ err not_found
    | some old ↦ if name_clash then err conflict else if oauth_clash then err conflict else ok tt
  ]
  unfolding upsert_user update_user create_user
  update_result = ground arith

  -- what a successful upsert has done
  stored_new :
      (create : Bool)
      → get t.users u.id ≡ none
      → (upsert_user lower u create t).1 ≡ ok tt
      → (upsert_user lower u create t).0 ≡ store_user lower (created_user lower u) t
  unfolding upsert_user create_user
  stored_new create fresh = rw (fresh, upsert_user) (λ h. ground arith)

  stored_old :
      (create : Bool) (old : User)
      → get t.users u.id ≡ some old
      → (upsert_user lower u create t).1 ≡ ok tt
      → (upsert_user lower u create t).0
        ≡ store_user lower (updated_user lower u old) (drop_user_keys lower old t)
  unfolding upsert_user update_user
  stored_old create old at = rw (at, upsert_user) (λ h. ground arith)

module _ (lower : String → String) (x : User) (t : UserTable) where
  read_id-store_user : read_row (store_user lower x t).users x.id ≡ ok x
  unfolding store_user read_row
  read_id-store_user = ground (arith, get-put t.users x.id x.id x, eq_refl x.id)

  read_name-store_user :
      read_indexed
        (store_user lower x t).users
        (store_user lower x t).users_by_name
        (lower x.username)
      ≡ ok x
  unfolding store_user read_indexed
  read_name-store_user = ground (
    arith,
    get-put t.users_by_name (lower x.username) (lower x.username) x.id,
    get-put t.users x.id x.id x,
    eq_refl x.id,
    eq_refl (lower x.username),
  )

  read_other-store_user :
      (j : String) → x.id ≢ j → read_row (store_user lower x t).users j ≡ read_row t.users j
  unfolding store_user read_row
  read_other-store_user j ne = ground (arith, get-put t.users x.id j x, eq_iff x.id j)

users-drop_user_keys :
    (lower : String → String) (old : User) (t : UserTable)
    → (drop_user_keys lower old t).users ≡ t.users
unfolding drop_user_keys
users-drop_user_keys lower old t = refl

module _ (lower : String → String) (u : User) (t : UserTable) where
  -- After an upsert that succeeds, the reads by id and by name return the row that was given in every
  -- field but two times: the creation time is that of the row it replaces, if there is one, and an
  -- update time that is not given is that of the row it replaces or, for a new row, the creation
  -- time. Every other id reads as before.
  pub upsert_user_reads :
      (create : Bool)
      → (upsert_user lower u create t).1 ≡ ok tt
      → let t' = (upsert_user lower u create t).0 in
        (x : User) × (read_row t'.users u.id ≡ ok x)
        × (read_indexed t'.users t'.users_by_name (lower u.username) ≡ ok x)
        × (x ≡ record u { created_at = x.created_at; updated_at = x.updated_at })
        × (x.created_at
            ≡ elim (get t.users u.id) [ none ↦ u.created_at | some old ↦ old.created_at ])
        × (x.updated_at ≡ (
            if is_zero u.updated_at
            then elim (get t.users u.id) [ none ↦ u.created_at | some old ↦ old.updated_at ]
            else u.updated_at))
        × ((j : String) → u.id ≢ j → read_row t'.users j ≡ read_row t.users j)
  upsert_user_reads create h = elim (Option-cases (get t.users u.id)) [
    | inl fresh ↦
        let x = created_user lower u in
        rw (stored_new lower u t create fresh h) (
          x,
          read_id-store_user lower x t,
          read_name-store_user lower x t,
          refl,
          rw fresh refl,
          rw fresh refl,
          read_other-store_user lower x t,
        )
    | inr (was, at) ↦
        let x = updated_user lower u was in
        let kept = drop_user_keys lower was t in
        rw (stored_old lower u t create was at h) (
          x,
          read_id-store_user lower x kept,
          read_name-store_user lower x kept,
          refl,
          rw at refl,
          rw at refl,
          λ j ne.
              read_other-store_user lower x kept j ne
              ∙ ap (λ (m : Map User). read_row m j) (users-drop_user_keys lower was t),
        )
  ]
