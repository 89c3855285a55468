-- ===== src/Fsm/Users.antt =====
-- The user table of fsm.go: upsertUser and storeUser. `lower` stands for `strings.ToLower`.
pub mod Index
use dagger_kubernetes.Prelude.{
  Bool, true, false, not, ◌&&◌, Option, none, some, String, str_eq, if◌then◌else◌,
}
use dagger_kubernetes.Maps.{Map, get, put, remove}
use dagger_kubernetes.Domain.{User, Result, ok, err, not_found, conflict, is_zero}
use dagger_kubernetes.Fsm.State.{UserTable, oauth_key}

-- `other, ok := idx[k]; ok && other != id`
abbrev pub taken_by_other : Map String → String → String → Bool
taken_by_other idx k id = elim (get idx k) [ none ↦ false | some other ↦ not (str_eq other id) ]

module _ (lower : String → String) where
  -- storeUser
  unfoldable pub store_user : User → UserTable → UserTable
  store_user u t = record {
    users = put t.users u.id u;
    users_by_name = put t.users_by_name (lower u.username) u.id;
    users_by_oauth =
        if str_eq u.oauth_id ""
        then t.users_by_oauth
        else put t.users_by_oauth (oauth_key u.oauth_provider u.oauth_id) u.id;
  }

  -- the two `delete`s of the update path, by the stored row
  unfoldable pub drop_user_keys : User → UserTable → UserTable
  drop_user_keys existing t = record t {
    users_by_name =
        if str_eq existing.username ""
        then t.users_by_name
        else remove t.users_by_name (lower existing.username);
    users_by_oauth =
        if str_eq existing.oauth_id ""
        then t.users_by_oauth
        else remove t.users_by_oauth (oauth_key existing.oauth_provider existing.oauth_id);
  }

  -- what the update path stores: the creation time is kept, a missing update time too
  abbrev pub updated_user : User → User → User
  updated_user u existing = record u {
    created_at = existing.created_at;
    updated_at = if is_zero u.updated_at then existing.updated_at else u.updated_at;
  }

  abbrev pub created_user : User → User
  created_user u = record u {
    updated_at = if is_zero u.updated_at then u.created_at else u.updated_at;
  }

  -- upsertUser, the row exists
  unfoldable pub update_user : User → Bool → User → UserTable → UserTable × Result (Unit {0})
  update_user u create existing t =
      if create
      then (t, err conflict)
      else if taken_by_other t.users_by_name (lower u.username) u.id
      then (t, err conflict)
      else if not (str_eq u.oauth_id "")
          && taken_by_other t.users_by_oauth (oauth_key u.oauth_provider u.oauth_id) u.id
      then (t, err conflict)
      else (store_user (updated_user u existing) (drop_user_keys existing t), ok tt)

  -- upsertUser, there is no such row
  unfoldable pub create_user : User → Bool → UserTable → UserTable × Result (Unit {0})
  create_user u create t =
      if not create then (t, err not_found) else elim (get t.users_by_name (lower u.username)) [
        | some other ↦ (t, err conflict)
        | none ↦
            elim (if str_eq u.oauth_id ""
              then none
              else get t.users_by_oauth (oauth_key u.oauth_provider u.oauth_id)) [
                | some other ↦ (t, err conflict)
                | none ↦ (store_user (created_user u) t, ok tt)
              ]
      ]

  -- upsertUser
  unfoldable pub upsert_user : User → Bool → UserTable → UserTable × Result (Unit {0})
  upsert_user u create t = elim (get t.users u.id) [
    | some existing ↦ update_user u create existing t
    | none ↦ create_user u create t
  ]
