-- ===== src/Fsm/Queries/Members.antt =====
-- What traceStats, members and groupsForUser return.
use dagger_kubernetes.Prelude.{
  ◌≤◌, ◌<◌, true, ◌≡◌, ◌⊎◌, inl, inr, refl, some, List, [], ◌∷◌, String, str_eq, eq_iff, arith,
  Bool-cases, Option-cases, All, All-imp, All-sort_by, ◌∙◌, sym, ◌↔◌, eq_refl, All-Memᴰ, Memᴰ,
  Memᴰ-sort_by,
}
use dagger_kubernetes.Maps.{Map, get, values, elem, Memᴰ-values}
use dagger_kubernetes.Domain.{Time, User, Group, TraceMeta}
use dagger_kubernetes.Fsm.State.{FsmState}
use dagger_kubernetes.Fsm.Members.Edges.{elem-keys-set_at}
use dagger_kubernetes.Fsm.Members.Linked.{in_group, in_user}
use dagger_kubernetes.Fsm.Queries.{
  trace_sort_key, oldest_of, oldest_from, trace_stats, rows_of, members, groups_for_user,
}
use dagger_kubernetes.Fsm.Queries.Traces.{visited}
use dagger_kubernetes.Fsm.Invariant.{WellFormed}

oldest_of_lem :
    (o k : Time)
    → (0 < k → (0 < oldest_of o k) × (oldest_of o k ≤ k))
      × (0 < o → (0 < oldest_of o k) × (oldest_of o k ≤ o))
      × ((oldest_of o k ≡ o) ⊎ (oldest_of o k ≡ k))
unfolding oldest_of
oldest_of_lem o k = ground arith

-- the running minimum stays at or below where it starts
oldest_from-le :
    (o : Time) (ms : List TraceMeta) → 0 < o → (0 < oldest_from o ms) × (oldest_from o ms ≤ o)
unfolding oldest_from
oldest_from-le o [] h = omega arith
oldest_from-le o (m ∷ ms) h =
    let (low, bound) = (oldest_of_lem o (trace_sort_key m)).1 h in
    omega (arith, oldest_from-le (oldest_of o (trace_sort_key m)) ms low)

oldest_from_least :
    (o : Time) (m : TraceMeta) (ms : List TraceMeta)
    → Memᴰ m ms
    → 0 < trace_sort_key m
    → (0 < oldest_from o ms) × (oldest_from o ms ≤ trace_sort_key m)
unfolding oldest_from
oldest_from_least o m [] here h = elim here [ ]
oldest_from_least o m (x ∷ ms) (Memᴰ.head same) h =
    let known : 0 < trace_sort_key x = rw (← same) h in
    let (low, bound) = (oldest_of_lem o (trace_sort_key x)).0 known in
    rw same (omega (arith, oldest_from-le (oldest_of o (trace_sort_key x)) ms low))
oldest_from_least o m (x ∷ ms) (Memᴰ.tail here) h =
    oldest_from_least (oldest_of o (trace_sort_key x)) m ms here h

oldest_from_attained :
    (o : Time) (ms : List TraceMeta)
    → (oldest_from o ms ≡ o) ⊎ ((m : TraceMeta) × Memᴰ m ms × (oldest_from o ms ≡ trace_sort_key m))
unfolding oldest_from
oldest_from_attained o [] = inl refl
oldest_from_attained o (x ∷ ms) = elim (oldest_from_attained (oldest_of o (trace_sort_key x)) ms) [
  | inr (m, here, e) ↦ inr (m, Memᴰ.tail here, e)
  | inl e ↦ elim (oldest_of_lem o (trace_sort_key x)).2 [
    | inl same ↦ inl (e ∙ same)
    | inr new ↦ inr (x, Memᴰ.head refl, e ∙ new)
  ]
]

module _ (lower : String → String) (s : FsmState) (w : WellFormed lower s) where
  -- In a well-formed replica the reported time is the least known age: at most that of every trace
  -- whose age is known, and 0 or the age of some trace.
  pub trace_stats_oldest :
      ((id : String) (m : TraceMeta)
        → get s.traces id ≡ some m
        → 0 < trace_sort_key m
        → (0 < (trace_stats s).1) × ((trace_stats s).1 ≤ trace_sort_key m))
      × (((trace_stats s).1 ≡ 0)
          ⊎ ((m : TraceMeta) × (get s.traces m.trace_id ≡ some m)
              × ((trace_stats s).1 ≡ trace_sort_key m)))
  unfolding trace_stats
  trace_stats_oldest = (
    λ id m at known. oldest_from_least 0 m (values s.traces) (Memᴰ-values s.traces id m at) known,
    elim (oldest_from_attained 0 (values s.traces)) [
      | inl e ↦ inl e
      | inr (m, here, e) ↦
          inr (m, All-Memᴰ _ m (values s.traces) (visited s.traces w.traces_keyed) here, e)
    ],
  )

-- the rows of the listed keys
rows_of_sound :
    {R : Type 0} (rows : Map R) (ks : List String)
    → All (λ r. (k : String) × (elem k ks ≡ true) × (get rows k ≡ some r)) (rows_of rows ks)
unfolding rows_of
rows_of_sound rows [] = tt
rows_of_sound {R} rows (k ∷ ks) =
    let rest : All (λ (r : R). (j : String) × (elem j (k ∷ ks) ≡ true) × (get rows j ≡ some r))
        (rows_of rows ks) =
      All-imp _ _ (λ r (j, e, at). (j, ground arith, at)) _ (rows_of_sound rows ks) in
    elim (Option-cases (get rows k)) [
      | inl missing ↦ rw (missing, rows_of) rest
      | inr (r, at) ↦ rw (at, rows_of) ((k, ground (arith, eq_refl k), at), rest)
    ]

rows_of-complete :
    {R : Type 0} (rows : Map R) (ks : List String) (k : String) (r : R)
    → elem k ks ≡ true
    → get rows k ≡ some r
    → Memᴰ r (rows_of rows ks)
unfolding rows_of
rows_of-complete rows [] k r e at = cc
rows_of-complete rows (j ∷ ks) k r e at = elim (Bool-cases (str_eq j k)) [
  | inl same ↦ rw ((eq_iff j k).0 same) (rw (at, rows_of) (Memᴰ.head refl))
  | inr other ↦
      let later = rows_of-complete rows ks k r (ground arith) at in
      elim (Option-cases (get rows j)) [
        | inl missing ↦ rw (missing, rows_of) later
        | inr (x, there) ↦ rw (there, rows_of) (Memᴰ.tail later)
      ]
]

module _ (lower : String → String) (s : FsmState) (w : WellFormed lower s) where
  members-edge :
      (g u : String) (user : User)
      → get s.users u ≡ some user
      → Memᴰ user (members g s)
      → in_group s.member_table g u ≡ true
  unfolding members
  members-edge g u user at here =
      let (k, edge, at_k) = All-Memᴰ _ user _ (All-sort_by _ _ _ (rows_of_sound s.users _)) here in
      ground (
        arith,
        elem-keys-set_at s.memberships g k,
        w.users_ok.keyed k user at_k,
        w.users_ok.keyed u user at,
      )

  groups-edge :
      (g u : String) (group : Group)
      → get s.groups g ≡ some group
      → Memᴰ group (groups_for_user u s)
      → in_user s.member_table g u ≡ true
  unfolding groups_for_user
  groups-edge g u group at here =
      let (k, edge, at_k) =
        All-Memᴰ _ group _ (All-sort_by _ _ _ (rows_of_sound s.groups _)) here in
      ground (
        arith,
        elem-keys-set_at s.memberships_by_user u k,
        w.groups_ok.keyed k group at_k,
        w.groups_ok.keyed g group at,
      )

  -- In a well-formed replica the two views of the memberships agree, for a known group and a known
  -- user: a user is listed among the members of a group exactly
  -- when the group is listed among the user's groups, which is when the edge is there.
  pub membership_views_agree :
      (g u : String) (group : Group) (user : User)
      → get s.groups g ≡ some group
      → get s.users u ≡ some user
      → (Memᴰ user (members g s) ↔ (in_group s.member_table g u ≡ true))
        × (Memᴰ group (groups_for_user u s) ↔ (in_group s.member_table g u ≡ true))
  unfolding members groups_for_user
  membership_views_agree g u group user at_g at_u = (
    (
      members-edge g u user at_u,
      λ edge.
          Memᴰ-sort_by _ user _
            (rows_of-complete s.users _ u user (elem-keys-set_at s.memberships g u ∙ edge) at_u),
    ),
    (
      λ here. w.members_linked.linked g u ∙ groups-edge g u group at_g here,
      λ edge. Memᴰ-sort_by _ group _ (
          rows_of-complete s.groups _ g group
            (elem-keys-set_at s.memberships_by_user u g ∙ sym (w.members_linked.linked g u) ∙ edge)
            at_g),
    ),
  )
