-- ===== src/Fsm/Reads.antt =====
-- The single-row reads of fsm.go. A read through a reverse index dereferences the row that the
-- index names; where that row is missing, the Go code panics. `lower` stands for `strings.ToLower`.
pub mod Found
use dagger_kubernetes.Prelude.{ℕ, Option, none, some, String}
use dagger_kubernetes.Maps.{Map, get, size}
use dagger_kubernetes.Domain.{
  User, Group, Project, ApiToken, TraceMeta, Result, ok, err, nil_dereference, not_found,
}
use dagger_kubernetes.Fsm.State.{FsmState, oauth_key}

-- `v, ok := m[k]; if !ok { return ErrNotFound }; cp := *v`
unfoldable pub read_row {ℓ} : {R : Type ℓ} → Map R → String → Result R
read_row rows id = elim (get rows id) [ none ↦ err not_found | some r ↦ ok r ]

-- `v := m[k]; cp := *v`
unfoldable pub dereference {ℓ} : {R : Type ℓ} → Option R → Result R
dereference none = nil_dereference
dereference (some r) = ok r

-- the id by the index, then the row
unfoldable pub read_indexed {ℓ} : {R : Type ℓ} → Map R → Map String → String → Result R
unfolding dereference
read_indexed rows idx k = elim (get idx k) [
  | none ↦ err not_found
  | some id ↦ dereference (get rows id)
]

-- readUserByID, readGroupByID, readProjectByID, readTrace, readMeta
unfoldable pub read_user_by_id : FsmState → String → Result User
unfolding read_row
read_user_by_id s id = read_row s.users id

unfoldable pub read_group_by_id : FsmState → String → Result Group
unfolding read_row
read_group_by_id s id = read_row s.groups id

unfoldable pub read_project_by_id : FsmState → String → Result Project
unfolding read_row
read_project_by_id s id = read_row s.projects id

unfoldable pub read_trace : FsmState → String → Result TraceMeta
unfolding read_row
read_trace s id = read_row s.traces id

unfoldable pub read_meta : FsmState → String → Result String
unfolding read_row
read_meta s key = read_row s.meta key

-- countUsers
unfoldable pub count_users : FsmState → ℕ
count_users s = size s.users

module _ (lower : String → String) where
  -- readUserByUsername, readGroupByName, readProjectByName
  unfoldable pub read_user_by_username : FsmState → String → Result User
  unfolding read_indexed
  read_user_by_username s username = read_indexed s.users s.users_by_name (lower username)

  unfoldable pub read_group_by_name : FsmState → String → Result Group
  unfolding read_indexed
  read_group_by_name s name = read_indexed s.groups s.groups_by_name (lower name)

  unfoldable pub read_project_by_name : FsmState → String → Result Project
  unfolding read_indexed
  read_project_by_name s name = read_indexed s.projects s.projects_by_name (lower name)

-- readUserByOAuth
unfoldable pub read_user_by_oauth : FsmState → String → String → Result User
unfolding read_indexed
read_user_by_oauth s provider oauth_id =
    read_indexed s.users s.users_by_oauth (oauth_key provider oauth_id)

-- readTokenByHash and readTokenByUser; copyToken of a missing row is nil, which these return with
-- no error
unfoldable pub read_token_by_hash : FsmState → String → Result (Option ApiToken)
read_token_by_hash s hash = elim (get s.tokens_by_hash hash) [
  | none ↦ err not_found
  | some id ↦ ok (get s.tokens id)
]

unfoldable pub read_token_by_user : FsmState → String → Result (Option ApiToken)
read_token_by_user s user_id = elim (get s.tokens_by_user user_id) [
  | none ↦ err not_found
  | some id ↦ ok (get s.tokens id)
]
