-- ===== src/Fsm/Behaviour/Kinds.antt =====
-- Which command numbers are handled, reserved or refused.
use dagger_kubernetes.Prelude.{ℕ, ◌≤◌, ◌<◌, Bool, true, false, ◌≡◌, ◌⊎◌, refl, String, arith}
use dagger_kubernetes.Domain.{ok, err, unknown_command}
use dagger_kubernetes.Fsm.State.{FsmState}
use dagger_kubernetes.Fsm.Command.{
  CommandKind, upsert_manifest_route_kind, delete_manifest_route_kind, upsert_blob_route_kind,
  record_upload_kind, delete_upload_kind, reap_uploads_kind, touch_manifest_route_kind, other,
  kind_of, Codec,
}
use dagger_kubernetes.Fsm.Apply.{
  Step, nil_response, first_handled, apply_entity_command, apply_trace_cache_command,
  apply_session_command, apply_command,
}

-- the kinds whose state was removed
abbrev pub IsReserved : ℕ → Type 0
IsReserved n = ((15 ≤ n) × (n ≤ 16)) ⊎ ((18 ≤ n) × (n ≤ 21)) ⊎ (n ≡ 25)

-- the numbers that name no command
abbrev pub IsUnknown : ℕ → Type 0
IsUnknown n = (n ≡ 0) ⊎ (n ≡ 17) ⊎ (25 < n)

abbrev is_route : CommandKind → Bool
is_route upsert_manifest_route_kind = true
is_route delete_manifest_route_kind = true
is_route upsert_blob_route_kind = true
is_route record_upload_kind = true
is_route delete_upload_kind = true
is_route reap_uploads_kind = true
is_route touch_manifest_route_kind = true
is_route _ = false

kind_of_unknown : (n : ℕ) → IsUnknown n → kind_of n ≡ other n
unfolding kind_of
kind_of_unknown n h = ground arith

kind_of_reserved : (n : ℕ) → IsReserved n → is_route (kind_of n) ≡ true
unfolding kind_of
kind_of_reserved n h = ground arith

module _ (lower : String → String) (codec : Codec) (s : FsmState) where
  open codec use {Raw}

  route_step :
      (k : CommandKind) (raw : Raw) (rest : Step)
      → is_route k ≡ true
      → first_handled
          (apply_entity_command lower codec k raw s)
          (apply_trace_cache_command lower codec k raw s)
          (apply_session_command lower codec k raw s)
          rest
        ≡ (s, ok nil_response)
  unfolding first_handled apply_entity_command apply_trace_cache_command apply_session_command
  route_step upsert_manifest_route_kind raw rest h = refl
  route_step delete_manifest_route_kind raw rest h = refl
  route_step upsert_blob_route_kind raw rest h = refl
  route_step record_upload_kind raw rest h = refl
  route_step delete_upload_kind raw rest h = refl
  route_step reap_uploads_kind raw rest h = refl
  route_step touch_manifest_route_kind raw rest h = refl
  route_step _ raw rest h = cc

  -- A reserved kind is a no-op whatever its payload, a number outside the table is refused by name,
  -- and neither changes the replica.
  pub unserved_kinds :
      (n : ℕ) (raw : Raw)
      → (IsReserved n → apply_command lower codec n raw s ≡ (s, ok nil_response))
        × (IsUnknown n → apply_command lower codec n raw s ≡ (s, err (unknown_command n)))
  unfolding apply_command apply_entity_command apply_trace_cache_command apply_session_command
  unserved_kinds n raw =
      (λ h. route_step (kind_of n) raw _ (kind_of_reserved n h), λ h. rw (kind_of_unknown n h))
