-- ===== src/Quota/Access.antt =====
-- Who is admitted.
use dagger_kubernetes.Prelude.{
  ℕ, ◌<◌, true, false, ◌≡◌, subst, sym, ◌==◌, ◌⊎◌, ◌↔◌, refl, inl, inr, List, [], ◌∷◌, String,
  str_eq, arith, length, keep, Memᴰ, All, All-keep, All-imp, All-Memᴰ, Memᴰ-keep, Bool-cases,
}
use dagger_kubernetes.Maps.{Map}
use dagger_kubernetes.Domain.{
  Group, Lease, Result, ok, err, nil_dereference, role_admin, quota_exhausted,
}
use dagger_kubernetes.Quota.{
  GroupRepository, value_at, has_room, admit, check_groups, check_engine_access, usage_snapshot,
}
use dagger_kubernetes.Quota.Usage.{leases_of_group, usage_snapshot_exact, usage_snapshot_unread}

-- some group of the list has room
abbrev SomeRoom : Map ℕ → List Group → Type 0
SomeRoom usage gs = (g : Group) × Memᴰ g gs × (has_room usage g ≡ true)

no_room :
    (usage : Map ℕ) (g : Group) (gs : List Group)
    → has_room usage g ≡ false
    → ((x : Group) → Memᴰ x gs → has_room usage x ≡ false)
    → (x : Group) → Memᴰ x (g ∷ gs)
    → has_room usage x ≡ false
no_room usage g gs full h x (Memᴰ.head same) = subst (λ y. has_room usage y ≡ false) (sym same) full
no_room usage g gs full h x (Memᴰ.tail m) = h x m

admit_exact :
    (usage : Map ℕ) (gs : List Group)
    → ((admit usage gs ≡ ok tt) × SomeRoom usage gs)
      ⊎ ((admit usage gs ≡ err quota_exhausted)
          × ((g : Group) → Memᴰ g gs → has_room usage g ≡ false))
unfolding admit
admit_exact usage [] = inr (refl, λ g m. elim m [ ])
admit_exact usage (g ∷ gs) =
    let rest = admit_exact usage gs in
    elim (Bool-cases (has_room usage g)) [
      | inl room ↦ inl (rw (room, admit) refl, (g, Memᴰ.head refl, room))
      | inr full ↦ elim rest [
        | inl (e, (x, m, r)) ↦ inl (rw (full, admit) e, (x, Memᴰ.tail m, r))
        | inr (e, h) ↦ inr (rw (full, admit) e, no_room usage g gs full h)
      ]
    ]

some_member : (gs : List Group) (g : Group) → Memᴰ g gs → (length gs == 0) ≡ false
some_member [] g m = elim m [ ]
some_member (x ∷ gs) g m = ground arith

All-members : (gs : List Group) → All (λ g. Memᴰ g gs) gs
All-members [] = tt
All-members (x ∷ gs) = (Memᴰ.head refl, All-imp _ _ (λ g m. Memᴰ.tail m) gs (All-members gs))

-- The leases that count for a group: those of its members, and none where the memberships cannot be
-- read, since usageSnapshot then gives an empty map.
abbrev pub leases_counted : List Lease → Result (List (String × List String)) → String → ℕ
leases_counted leases (ok ms) gid = leases_of_group leases ms gid
leases_counted leases (err e) gid = 0
leases_counted leases nil_dereference gid = 0

module _ (repo : GroupRepository) (leases : List Lease) where
  abbrev in_use : String → ℕ
  in_use gid = leases_counted leases repo.all_memberships gid

  -- a group of the list that is available and has room
  abbrev pub Admitting : List Group → Type 0
  Admitting gs =
      (g : Group) × Memᴰ g gs
      × (g.agent_available ≡ true)
      × ((g.max_runner_sessions ≡ 0) ⊎ (in_use g.id < g.max_runner_sessions))

  snapshot-in_use : (gid : String) → value_at (usage_snapshot repo leases) gid ≡ in_use gid
  snapshot-in_use gid = counted repo.all_memberships refl
    where
      counted :
          (r : Result (List (String × List String)))
          → repo.all_memberships ≡ r
          → value_at (usage_snapshot repo leases) gid ≡ leases_counted leases r gid
      counted (ok ms) e = usage_snapshot_exact leases repo ms gid e
      counted (err x) e = usage_snapshot_unread leases repo gid (inl (x, e))
      counted nil_dereference e = usage_snapshot_unread leases repo gid (inr e)

  room_iff :
      (g : Group)
      → (has_room (usage_snapshot repo leases) g ≡ true)
        ↔ ((g.max_runner_sessions ≡ 0) ⊎ (in_use g.id < g.max_runner_sessions))
  room_iff g = let used = snapshot-in_use g.id in (λ e. ground arith, λ h. ground arith)

  admitted_by : (gs : List Group) → check_groups repo leases gs ≡ ok tt → Admitting gs
  unfolding check_groups
  admitted_by gs e =
      elim (admit_exact (usage_snapshot repo leases) (keep (λ g. g.agent_available) gs)) [
        | inl (same, (g, m, r)) ↦
            let (there, free) =
              All-Memᴰ _ g _ (All-keep _ (λ g. g.agent_available) gs (All-members gs)) m in
            (g, there, free, (room_iff g).0 r)
        | inr (refused, h) ↦ absurd (ground (arith, e, refused))
      ]

  admits : (gs : List Group) → Admitting gs → check_groups repo leases gs ≡ ok tt
  unfolding check_groups
  admits gs (g, m, free, room) =
      let m' = Memᴰ-keep (λ g. g.agent_available) g gs m free in
      elim (admit_exact (usage_snapshot repo leases) (keep (λ g. g.agent_available) gs)) [
        | inl (same, found) ↦ ground (arith, some_member gs g m, some_member _ g m', same)
        | inr (refused, h) ↦ absurd (ground (arith, h g m', (room_iff g).1 room))
      ]

  -- A user who is no admin, and whose groups can be read, is admitted exactly when some group of
  -- the user is available and has no limit, or its members have together fewer leases than its
  -- limit; where the memberships cannot be read, they count as having none.
  pub check_engine_access_exact :
      (role user_id : String) (gs : List Group)
      → str_eq role role_admin ≡ false
      → repo.groups_for_user user_id ≡ ok gs
      → (check_engine_access role user_id repo leases ≡ ok tt) ↔ Admitting gs
  unfolding check_engine_access
  check_engine_access_exact role user_id gs plain e = rw (plain, e) (admitted_by gs, admits gs)
