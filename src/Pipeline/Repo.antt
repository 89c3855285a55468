-- ===== src/Pipeline/Repo.antt =====
-- TraceMetaRepo of internal/repository/tracemeta_repo.go over the traces of the replica, and the
-- two best-effort calls of attribution_service.go. A Go string is a sequence of bytes, and stands
-- as a text with one character for each byte.
use Prim.Native.Char.{code}
use Prim.Native.String.{String}
use dagger_kubernetes.Prelude.{
  ℕ, zero, suc, Bool, true, false, not, ◌&&◌, ◌||◌, List, str_eq, ltb, leb, ◌==◌, if◌then◌else◌,
}
use dagger_kubernetes.Maps.{Map, remove}
use dagger_kubernetes.Domain.{
  Time, is_zero, TraceMeta, TraceFilter, TraceListResult, Error, Result, ok, err, nil_dereference,
  validation,
}
use dagger_kubernetes.Fsm.State.{FsmState}
use dagger_kubernetes.Fsm.Traces.{upsert_trace_provision, upsert_trace_ingest, mark_trace_failed}
use dagger_kubernetes.Fsm.Reads.{read_trace}
use dagger_kubernetes.Fsm.Queries.{
  list_traces, list_traces_before, list_running_traces, trace_stats,
}

-- `len` of a string, and `s[:n]` where the string is longer
abbrev pub text_length : String → ℕ
text_length String.[] = 0
text_length (String.◌∷◌ c s) = suc (text_length s)

abbrev pub text_take : ℕ → String → String
text_take zero s = String.[]
text_take (suc n) String.[] = String.[]
text_take (suc n) (String.◌∷◌ c s) = String.◌∷◌ c (text_take n s)

-- `if len(s) > n { s = s[:n] }`
abbrev pub clip : ℕ → String → String
clip n s = if ltb n (text_length s) then text_take n s else s

abbrev is_between : ℕ → ℕ → ℕ → Bool
is_between lo hi c = leb lo c && leb c hi

-- `[A-Za-z0-9]`
abbrev is_alphanumeric : ℕ → Bool
is_alphanumeric c = is_between b'A' b'Z' c || is_between b'a' b'z' c || is_between b'0' b'9' c

-- `[A-Za-z0-9._-]`
abbrev is_key_byte : ℕ → Bool
is_key_byte c = is_alphanumeric c || c == b'.' || c == b'_' || c == b'-'

-- `[a-fA-F0-9]`
abbrev is_hex : ℕ → Bool
is_hex c = is_between b'a' b'f' c || is_between b'A' b'F' c || is_between b'0' b'9' c

abbrev all_bytes : (ℕ → Bool) → String → Bool
all_bytes p String.[] = true
all_bytes p (String.◌∷◌ c s) = p (code c) && all_bytes p s

-- ValidTraceIDKey: `^[A-Za-z0-9][A-Za-z0-9._-]{0,127}$`
unfoldable pub valid_trace_id_key : String → Bool
valid_trace_id_key String.[] = false
valid_trace_id_key (String.◌∷◌ c s) =
    is_alphanumeric (code c) && all_bytes is_key_byte s && leb (text_length s) 127

-- ValidTraceID: `^[a-fA-F0-9]{16,128}$`
unfoldable pub valid_trace_id : String → Bool
valid_trace_id s = all_bytes is_hex s && leb 16 (text_length s) && leb (text_length s) 128

-- What becomes of a command that is proposed: it is applied; it is lost with an error; or its error
-- comes first (a timeout) and it is applied all the same.
pub data Outcome : Type 0 where
  applied : Outcome
  lost late : Error → Outcome

-- applyCtxResponse, for a command that has the effect `r` and cannot fail on the replica
abbrev pub propose {ℓ κ} : {S : Type ℓ} {A : Type κ} → Outcome → S × A → S → S × Result A
propose applied r s = (r.0, ok r.1)
propose (lost e) r s = (s, err e)
propose (late e) r s = (r.0, err e)

-- UpsertProvision
unfoldable pub upsert_provision :
    Outcome → Time → String → String → String → Map TraceMeta → Map TraceMeta × Result (Unit {0})
unfolding valid_trace_id_key upsert_trace_provision
upsert_provision o now trace_id user_id version traces =
    if not (valid_trace_id_key trace_id)
    then (traces, err validation)
    else propose o
        (
          upsert_trace_provision
              (record {
                trace_id = trace_id;
                user_id = user_id;
                version = version;
                updated_at = now;
              })
              traces,
          tt,
        )
        traces

-- UpsertIngest
unfoldable pub upsert_ingest :
    Outcome → Time → TraceMeta → Map TraceMeta → Map TraceMeta × Result (Unit {0})
unfolding valid_trace_id_key upsert_trace_ingest
upsert_ingest o now m traces =
    if not (valid_trace_id_key m.trace_id)
    then (traces, err validation)
    else propose o
        (
          upsert_trace_ingest
              (record m { updated_at = if is_zero m.updated_at then now else m.updated_at }) traces,
          tt,
        )
        traces

abbrev pub max_reason_len : ℕ
max_reason_len = 256

-- MarkFailed
unfoldable pub mark_failed :
    Outcome → Time → String → String → Map TraceMeta → Map TraceMeta × Result Bool
unfolding valid_trace_id_key mark_trace_failed
mark_failed o now trace_id reason traces =
    if not (valid_trace_id_key trace_id)
    then (traces, err validation)
    else propose o
        (mark_trace_failed
          (record { trace_id = trace_id; reason = clip max_reason_len reason; updated_at = now })
          traces)
        traces

-- Delete
unfoldable pub delete_trace : Outcome → String → Map TraceMeta → Map TraceMeta × Result (Unit {0})
delete_trace o trace_id traces = propose o (remove traces trace_id, tt) traces

-- Get, List, ListBefore, ListRunning, Stats
abbrev pub get_trace : String → FsmState → Result TraceMeta
get_trace trace_id s = read_trace s trace_id

abbrev pub list : (String → String) → TraceFilter → FsmState → Result (List TraceListResult)
list lower f s = ok (list_traces lower f s)

abbrev pub list_before : Time → Bool → FsmState → Result (List TraceMeta)
list_before cutoff protect_running s = ok (list_traces_before cutoff protect_running s)

abbrev pub list_running : FsmState → Result (List TraceMeta)
list_running s = ok (list_running_traces s)

abbrev pub stats : FsmState → Result (ℕ × Time)
stats s = ok (trace_stats s)

abbrev pub max_ingest_field_len : ℕ
max_ingest_field_len = 256

-- Provision of AttributionService: an error is logged and dropped
unfoldable pub provision : Outcome → Time → String → String → String → Map TraceMeta → Map TraceMeta
unfolding upsert_provision
provision o now trace_id user_id version traces =
    if str_eq trace_id ""
    then traces
    else (upsert_provision o now trace_id user_id version traces).0

-- MarkFailed of AttributionService
unfoldable pub attribute_failed :
    Outcome → Time → String → String → Map TraceMeta → Map TraceMeta × Bool
unfolding mark_failed
attribute_failed o now trace_id reason traces =
    if str_eq trace_id "" || ltb max_ingest_field_len (text_length trace_id)
    then (traces, false)
    else (let r = mark_failed o now trace_id (clip max_ingest_field_len reason) traces in
        (r.0, elim r.1 [ ok b ↦ b | err e ↦ false | nil_dereference ↦ false ]))
