-- ===== src/Fsm/Snapshot/RoundTrip.antt =====
-- The loops of Restore, run on what Snapshot wrote.
use dagger_kubernetes.Prelude.{
  true, ◌≡◌, refl, ap, ◌∙◌, Option, none, some, List, [], ◌∷◌, map, String, str_eq, eq_iff, eq_refl,
  arith, Bool-cases, inl, inr, if◌then◌else◌,
}
use dagger_kubernetes.Maps.{Map, get, put, empty, values, IsDistinct, get-put}
use dagger_kubernetes.Domain.{ok}
use dagger_kubernetes.Fsm.State.{FsmState, new_state}
use dagger_kubernetes.Fsm.Users.{store_user}
use dagger_kubernetes.Fsm.Groups.{store_group}
use dagger_kubernetes.Fsm.Projects.{store_project}
use dagger_kubernetes.Fsm.Tokens.{store_token}
use dagger_kubernetes.Fsm.Command.{user_of, cmd_user_from, token_of, cmd_token_from}
use dagger_kubernetes.Fsm.Snapshot.{
  MembershipEdge, snapshot, load, load_meta, load_edges, store_trace, adopt, restored, restore,
}
use dagger_kubernetes.Fsm.Invariant.{WellFormed}

abbrev or_else : {R : Type 0} → Option R → Option R → Option R
or_else none y = y
or_else (some x) y = some x

-- A loop that stores each row of a map under its key finds the map's rows, and the earlier ones
-- where it has none.
module _ {R C T : Type 0} (rows : T → Map R) (key : R → String) (enc : R → C) (f : C → T → T)
    (stored : (x : R) (t : T) (k : String)
      → get (rows (f (enc x) t)) k ≡ (if str_eq (key x) k then some x else get (rows t) k)) where
  get-load :
      (m : Map R) (t : T) (k : String)
      → IsDistinct m
      → ((j : String) (x : R) → get m j ≡ some x → key x ≡ j)
      → get (rows (load f (map (λ x. some (enc x)) (values m)) t)) k
        ≡ or_else (get m k) (get (rows t) k)
  unfolding load values get
  get-load [] t k d keyed = refl
  get-load ((j, x) ∷ m) t k d keyed =
      let rest =
        get-load m (f (enc x) t) k d.1 (λ i y at. ground (arith, keyed i y, eq_iff j i, d.0, at)) in
      rest
      ∙ behind (get m k) (get (rows (f (enc x) t)) k) (get (rows t) k)
          (rw (← keyed j x (simp eq_refl)) (stored x t k)) (λ e. ground (arith, eq_iff j k, d.0))
    where
      behind :
          (found here before : Option R)
          → here ≡ (if str_eq j k then some x else before)
          → (str_eq j k ≡ true → found ≡ none)
          → or_else found here ≡ or_else (if str_eq j k then some x else found) before
      behind found here before e absent = elim (Bool-cases (str_eq j k)) [
        | inl same ↦ rw (e, same, absent same) refl
        | inr other ↦ rw (e, other) refl
      ]

get-load_meta :
    (m t : Map String) (k : String)
    → IsDistinct m
    → get (load_meta m t) k ≡ or_else (get m k) (get t k)
unfolding load_meta get
get-load_meta [] t k d = refl
get-load_meta ((j, v) ∷ m) t k d =
    ground (arith, get-load_meta m (put t j v) k d.1, get-put t j k v, eq_iff j k, d.0)

-- all but the memberships and the session sink
record Unchanged (s s' : FsmState) : Type 0 where
  user_same : s'.user_table ≡ s.user_table
  group_same : s'.group_table ≡ s.group_table
  token_same : s'.token_table ≡ s.token_table
  project_same : s'.project_table ≡ s.project_table
  trace_same : s'.traces ≡ s.traces
  meta_same : s'.meta ≡ s.meta

load_edges-Unchanged : (es : List MembershipEdge) (s : FsmState) → Unchanged s (load_edges es s)
unfolding load_edges
load_edges-Unchanged [] s = record {
  user_same = refl;
  group_same = refl;
  token_same = refl;
  project_same = refl;
  trace_same = refl;
  meta_same = refl;
}
load_edges-Unchanged (e ∷ es) s =
    let h = load_edges-Unchanged es _ in
    record {
      user_same = h.user_same;
      group_same = h.group_same;
      token_same = h.token_same;
      project_same = h.project_same;
      trace_same = h.trace_same;
      meta_same = h.meta_same;
    }

-- As in a Go map, no key of these maps stands twice.
pub record HasDistinctKeys (s : FsmState) : Type 0 where
  pub users_distinct : IsDistinct s.users
  pub groups_distinct : IsDistinct s.groups
  pub tokens_distinct : IsDistinct s.tokens
  pub projects_distinct : IsDistinct s.projects
  pub meta_distinct : IsDistinct s.meta

-- Every row of the one is the row of the other under the same id.
pub record HasSameRows (s s' : FsmState) : Type 0 where
  pub same_user : (id : String) → get s'.users id ≡ get s.users id
  pub same_group : (id : String) → get s'.groups id ≡ get s.groups id
  pub same_token : (id : String) → get s'.tokens id ≡ get s.tokens id
  pub same_project : (id : String) → get s'.projects id ≡ get s.projects id
  pub same_trace : (id : String) → get s'.traces id ≡ get s.traces id
  pub same_meta : (key : String) → get s'.meta key ≡ get s.meta key

or_else-none : {R : Type 0} (o : Option R) → or_else o none ≡ o
or_else-none none = refl
or_else-none (some x) = refl

module _ (lower : String → String) (s old : FsmState) (w : WellFormed lower s)
    (d : HasDistinctKeys s) where
  user_back :
      (id : String)
      → get
          (load (λ c. store_user lower (user_of c)) (snapshot s).users new_state.user_table).users
          id
        ≡ get s.users id
  unfolding snapshot user_of cmd_user_from store_user empty get
  user_back id =
      get-load (λ t. t.users) (λ u. u.id) cmd_user_from (λ c. store_user lower (user_of c))
        (λ x t k. get-put t.users x.id k x) s.users new_state.user_table id d.users_distinct
        w.users_ok.keyed
      ∙ or_else-none (get s.users id)

  group_back :
      (id : String)
      → get (load (store_group lower) (snapshot s).groups new_state.group_table).groups id
        ≡ get s.groups id
  unfolding snapshot store_group empty get
  group_back id =
      get-load (λ t. t.groups) (λ x. x.id) (λ x. x) (store_group lower)
        (λ x t k. get-put t.groups x.id k x) s.groups new_state.group_table id d.groups_distinct
        w.groups_ok.keyed
      ∙ or_else-none (get s.groups id)

  token_back :
      (id : String)
      → get
          (load (λ c. store_token (token_of c)) (snapshot s).tokens new_state.token_table).tokens
          id
        ≡ get s.tokens id
  unfolding snapshot token_of cmd_token_from store_token empty get
  token_back id =
      get-load (λ t. t.tokens) (λ x. x.id) cmd_token_from (λ c. store_token (token_of c))
        (λ x t k. get-put t.tokens x.id k x) s.tokens new_state.token_table id d.tokens_distinct
        w.tokens_ok.keyed
      ∙ or_else-none (get s.tokens id)

  project_back :
      (id : String)
      → get (load (store_project lower) (snapshot s).projects new_state.project_table).projects id
        ≡ get s.projects id
  unfolding snapshot store_project empty get
  project_back id =
      get-load (λ t. t.projects) (λ x. x.id) (λ x. x) (store_project lower)
        (λ x t k. get-put t.projects x.id k x) s.projects new_state.project_table id
        d.projects_distinct w.projects_ok.keyed
      ∙ or_else-none (get s.projects id)

  trace_back :
      (id : String)
      → get (load store_trace (snapshot s).traces new_state.traces) id ≡ get s.traces id
  unfolding snapshot empty get
  trace_back id =
      get-load (λ t. t) (λ x. x.trace_id) (λ x. x) store_trace (λ x t k. get-put t x.trace_id k x)
        s.traces new_state.traces id w.traces_keyed.distinct w.traces_keyed.at_id
      ∙ or_else-none (get s.traces id)

  meta_back : (key : String) → get (load_meta (snapshot s).meta new_state.meta) key ≡ get s.meta key
  unfolding snapshot empty get
  meta_back key =
      get-load_meta s.meta new_state.meta key d.meta_distinct ∙ or_else-none (get s.meta key)

  -- Where no key of a map stands twice, restoring the snapshot of a well-formed replica, over
  -- whatever the replica held, succeeds and gives back every user, group, token, project and trace
  -- under its id, and the metadata.
  pub restore-snapshot :
      ((restore lower (some (snapshot s)) old).1 ≡ ok tt)
      × HasSameRows s (restore lower (some (snapshot s)) old).0
  unfolding restore adopt restored
  restore-snapshot =
      let h = load_edges-Unchanged (snapshot s).memberships _ in
      (
        refl,
        record {
          same_user = λ id. ap (λ t. get t.users id) h.user_same ∙ user_back id;
          same_group = λ id. ap (λ t. get t.groups id) h.group_same ∙ group_back id;
          same_token = λ id. ap (λ t. get t.tokens id) h.token_same ∙ token_back id;
          same_project = λ id. ap (λ t. get t.projects id) h.project_same ∙ project_back id;
          same_trace = λ id. ap (λ t. get t id) h.trace_same ∙ trace_back id;
          same_meta = λ key. ap (λ t. get t key) h.meta_same ∙ meta_back key;
        },
      )
