-- ===== src/Fsm/Tokens.antt =====
-- The token table of fsm.go: one API token per user, found by its hash or by its owner.
pub mod Index
use dagger_kubernetes.Prelude.{not, ◌&&◌, none, some, String, str_eq, if◌then◌else◌}
use dagger_kubernetes.Maps.{get, put, remove}
use dagger_kubernetes.Domain.{Time, ApiToken, Result, ok, err, nil_dereference, conflict}
use dagger_kubernetes.Fsm.State.{TokenTable}
use dagger_kubernetes.Fsm.Users.{taken_by_other}

-- storeToken
unfoldable pub store_token : ApiToken → TokenTable → TokenTable
store_token k t = record {
  tokens = put t.tokens k.id k;
  tokens_by_hash = put t.tokens_by_hash k.token_hash k.id;
  tokens_by_user = put t.tokens_by_user k.user_id k.id;
}

-- removeToken
unfoldable pub remove_token : String → TokenTable → TokenTable
remove_token id t = elim (get t.tokens id) [
  | none ↦ t
  | some k ↦ record {
    tokens = remove t.tokens id;
    tokens_by_hash = remove t.tokens_by_hash k.token_hash;
    tokens_by_user = remove t.tokens_by_user k.user_id;
  }
]

-- upsertToken, the user has the token `existing_id`; `old.TokenHash` of a missing row panics
unfoldable pub replace_token : ApiToken → String → TokenTable → TokenTable × Result (Unit {0})
replace_token k existing_id t = elim (get t.tokens existing_id) [
  | none ↦ (t, nil_dereference)
  | some old ↦
      if not (str_eq k.token_hash old.token_hash)
        && taken_by_other t.tokens_by_hash k.token_hash existing_id
      then (t, err conflict)
      else (store_token k (remove_token existing_id t), ok tt)
]

-- upsertToken
unfoldable pub upsert_token : ApiToken → TokenTable → TokenTable × Result (Unit {0})
upsert_token k t = elim (get t.tokens_by_user k.user_id) [
  | some existing_id ↦ replace_token k existing_id t
  | none ↦ elim (get t.tokens_by_hash k.token_hash) [
    | some other ↦ (t, err conflict)
    | none ↦ (store_token k t, ok tt)
  ]
]

-- deleteToken
unfoldable pub delete_token : String → TokenTable → TokenTable
delete_token user_id t = elim (get t.tokens_by_user user_id) [
  | none ↦ t
  | some id ↦ remove_token id t
]

-- touchToken
unfoldable pub touch_token : String → Time → TokenTable → TokenTable
touch_token id at t = elim (get t.tokens id) [
  | none ↦ t
  | some k ↦ record t { tokens = put t.tokens id (record k { last_used_at = some at }) }
]
