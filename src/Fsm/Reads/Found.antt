-- ===== src/Fsm/Reads/Found.antt =====
-- The reads of fsm.go through an index.
use mathlib.Core.Option.{some_inj}
use dagger_kubernetes.Prelude.{
  ap, ◌≡◌, ◌≢◌, ◌⊎◌, inl, inr, Option, some, String, arith, Option-cases,
}
use dagger_kubernetes.Maps.{Map, get}
use dagger_kubernetes.Maps.Index.{IsIndexed}
use dagger_kubernetes.Domain.{ApiToken, Result, ok, err, nil_dereference, not_found}
use dagger_kubernetes.Fsm.State.{FsmState, oauth_key}
use dagger_kubernetes.Fsm.Users.Index.{oauth_index_key}
use dagger_kubernetes.Fsm.Groups.Index.{group_key}
use dagger_kubernetes.Fsm.Projects.Index.{project_key}
use dagger_kubernetes.Fsm.Reads.{
  read_indexed, read_user_by_username, read_user_by_oauth, read_group_by_name, read_project_by_name,
  read_token_by_hash, read_token_by_user,
}
use dagger_kubernetes.Fsm.Invariant.{WellFormed}

-- A read by key answers for the table: the row found is the one row with the key, and "not found"
-- means that no row has it. A missing row is never dereferenced.
pub record Answers {R : Type 0} (key : R → Option String) (rows : Map R) (k : String) (r : Result R)
    : Type 0 where
  pub no_panic : r ≢ nil_dereference
  pub found : (x : R) → r ≡ ok x → (id : String) × (get rows id ≡ some x) × (key x ≡ some k)
  pub complete : (id : String) (x : R) → get rows id ≡ some x → key x ≡ some k → r ≡ ok x
  pub absent : r ≡ err not_found → (id : String) (x : R) → get rows id ≡ some x → key x ≢ some k

module _ {R : Type 0} {key : R → Option String} {rows : Map R} {idx : Map String}
    (h : IsIndexed key rows idx) where
  read_indexed-Answers : (k : String) → Answers key rows k (read_indexed rows idx k)
  unfolding read_indexed
  read_indexed-Answers k = elim (Option-cases (get idx k)) [
    | inl missing ↦
        rw (missing, read_indexed)
          (record {
            no_panic = λ e. cc;
            found = λ x e. cc;
            complete = λ id x at keyed. cc (h.complete id x k at keyed);
            absent = λ e id x at keyed. cc (h.complete id x k at keyed);
          })
    | inr (i, here) ↦
        let (r, at, keyed) = h.sound k i here in
        rw (here, read_indexed)
          (rw at (record {
            no_panic = λ e. cc;
            found = λ x e. (i, cc, ground arith);
            complete = λ id x at' keyed'. cc (h.complete id x k at' keyed');
            absent = λ e. cc;
          }))
  ]

module _ (lower : String → String) (s : FsmState) (w : WellFormed lower s) where
  -- In a well-formed replica, a user read by name: the one user with that name up to case, or there
  -- is none, and never a panic.
  pub read_user_by_username-Answers :
      (name : String)
      → Answers
          (λ u. some (lower u.username))
          s.users
          (lower name)
          (read_user_by_username lower s name)
  unfolding read_user_by_username
  read_user_by_username-Answers name = read_indexed-Answers w.users_ok.by_name (lower name)

  -- In a well-formed replica, a user read by OAuth identity: the one user with an OAuth id whose
  -- provider and id join to that key, or there is none, and never a panic.
  pub read_user_by_oauth-Answers :
      (provider oauth_id : String)
      → Answers oauth_index_key s.users
          (oauth_key provider oauth_id)
          (read_user_by_oauth s provider oauth_id)
  unfolding read_user_by_oauth
  read_user_by_oauth-Answers provider oauth_id =
      read_indexed-Answers w.users_ok.by_oauth (oauth_key provider oauth_id)

  -- In a well-formed replica, a group read by name: the one group with that name up to case, or
  -- there is none, and never a panic.
  pub read_group_by_name-Answers :
      (name : String)
      → Answers (group_key lower) s.groups (lower name) (read_group_by_name lower s name)
  unfolding read_group_by_name
  read_group_by_name-Answers name = read_indexed-Answers w.groups_ok.by_name (lower name)

  -- In a well-formed replica, a project read by name: the one project with that name up to case, or
  -- there is none, and never a panic.
  pub read_project_by_name-Answers :
      (name : String)
      → Answers (project_key lower) s.projects (lower name) (read_project_by_name lower s name)
  unfolding read_project_by_name
  read_project_by_name-Answers name = read_indexed-Answers w.projects_ok.by_name (lower name)

  -- In a well-formed replica, a token read by its owner: the owner's token, or there is none.
  pub read_token_by_user_exact :
      (user_id : String)
      → ((read_token_by_user s user_id ≡ err not_found)
          × ((id : String) (k : ApiToken) → get s.tokens id ≡ some k → k.user_id ≢ user_id))
        ⊎ ((k : ApiToken) × (read_token_by_user s user_id ≡ ok (some k))
            × (get s.tokens k.id ≡ some k)
            × (k.user_id ≡ user_id))
  unfolding read_token_by_user
  read_token_by_user_exact user_id = elim (Option-cases (get s.tokens_by_user user_id)) [
    | inl missing ↦ inl (
      ground arith,
      λ id k at e.
          cc (w.tokens_ok.by_user.complete id k user_id at (ap {B = Option String} some e)),
    )
    | inr (id, here) ↦
        let (k, at, owner) = w.tokens_ok.by_user.sound user_id id here in
        inr (k, ground arith, ground (arith, w.tokens_ok.keyed id k at), some_inj.0 owner)
  ]

  -- In a well-formed replica, a token read by its hash: the one token with that hash, or there is
  -- none.
  pub read_token_by_hash_exact :
      (hash : String)
      → ((read_token_by_hash s hash ≡ err not_found)
          × ((id : String) (k : ApiToken) → get s.tokens id ≡ some k → k.token_hash ≢ hash))
        ⊎ ((k : ApiToken) × (read_token_by_hash s hash ≡ ok (some k))
            × (get s.tokens k.id ≡ some k)
            × (k.token_hash ≡ hash))
  unfolding read_token_by_hash
  read_token_by_hash_exact hash = elim (Option-cases (get s.tokens_by_hash hash)) [
    | inl missing ↦ inl (
      ground arith,
      λ id k at e. cc (w.tokens_ok.by_hash.complete id k hash at (ap {B = Option String} some e)),
    )
    | inr (id, here) ↦
        let (k, at, same) = w.tokens_ok.by_hash.sound hash id here in
        inr (k, ground arith, ground (arith, w.tokens_ok.keyed id k at), some_inj.0 same)
  ]

  -- In a well-formed replica, a read by a user name, an OAuth identity, a group name or a project
  -- name finds the one row under that key, names taken up to case, or says that there is none, and
  -- never panics.
  pub indexed_reads_exact :
      ((name : String)
        → Answers
            (λ u. some (lower u.username))
            s.users
            (lower name)
            (read_user_by_username lower s name))
      × ((provider oauth_id : String)
          → Answers oauth_index_key s.users
              (oauth_key provider oauth_id)
              (read_user_by_oauth s provider oauth_id))
      × ((name : String)
          → Answers (group_key lower) s.groups (lower name) (read_group_by_name lower s name))
      × ((name : String)
          → Answers (project_key lower) s.projects (lower name) (read_project_by_name lower s name))
  indexed_reads_exact = (
    read_user_by_username-Answers, read_user_by_oauth-Answers, read_group_by_name-Answers,
    read_project_by_name-Answers,
  )

  -- In a well-formed replica, a token read by its owner or by its hash is the one token of that owner
  -- or with that hash, or there is none.
  pub token_reads_exact :
      ((user_id : String)
        → ((read_token_by_user s user_id ≡ err not_found)
            × ((id : String) (k : ApiToken) → get s.tokens id ≡ some k → k.user_id ≢ user_id))
          ⊎ ((k : ApiToken) × (read_token_by_user s user_id ≡ ok (some k))
              × (get s.tokens k.id ≡ some k)
              × (k.user_id ≡ user_id)))
      × ((hash : String)
          → ((read_token_by_hash s hash ≡ err not_found)
              × ((id : String) (k : ApiToken) → get s.tokens id ≡ some k → k.token_hash ≢ hash))
            ⊎ ((k : ApiToken) × (read_token_by_hash s hash ≡ ok (some k))
                × (get s.tokens k.id ≡ some k)
                × (k.token_hash ≡ hash)))
  token_reads_exact = (read_token_by_user_exact, read_token_by_hash_exact)
