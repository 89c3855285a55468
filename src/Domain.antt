-- ===== src/Domain.antt =====
-- The entities of internal/domain: user.go, group.go, project.go, apitoken.go, tracemeta.go,
-- session.go. A `time.Time` is the number of nanoseconds since Go's zero time, so that `IsZero` is
-- the test with 0, `*time.Time` is an `Option`, `Role` and the other string types are texts, and an
-- `int64` that is only copied and tested for 0 is carried as its bit pattern.
use dagger_kubernetes.Prelude.{
  ℕ, ℤ, Bool, true, false, Option, none, some, List, String, ◌==◌, str_eq, ◌||◌, if◌then◌else◌,
}

abbrev pub Time : Type 0
Time = ℕ

abbrev pub zero_time : Time
zero_time = 0

abbrev pub is_zero : Time → Bool
is_zero t = t == 0

-- Errors are told apart by the sentinel that they wrap; the message around it is left out.
pub data Error : Type 0 where
  not_found conflict validation : Error
  no_groups agent_unavailable quota_exhausted invalid_role : Error
  lease_not_found lease_expired : Error
  unknown_command : ℕ → Error
  decode_error : String → Error
  store_error : String → Error

-- What a call returns: a value, an error, or a panic of the Go runtime (a nil dereference).
pub data Result {ℓ} (A : Type ℓ) : Type ℓ where
  ok : A → Result A
  err : Error → Result A
  nil_dereference : Result A

infixl 5 ◌>>=◌
abbrev pub ◌>>=◌ {ℓ κ} : {A : Type ℓ} {B : Type κ} → Result A → (A → Result B) → Result B
ok a >>= f = f a
err e >>= f = err e
nil_dereference >>= f = nil_dereference

abbrev pub role_admin : String
role_admin = "admin"

abbrev pub role_user : String
role_user = "user"

-- ParseRole
unfoldable pub parse_role : String → Result String
parse_role s = if str_eq s role_admin || str_eq s role_user then ok s else err invalid_role

pub record User : Type 0 where
  pub id : String
  pub username : String
  pub role : String
  pub password_hash : String
  pub oauth_provider : String
  pub oauth_id : String
  pub oauth_token_ciphertext : String
  pub oauth_group_ids : List String
  pub oauth_groups : List String
  pub oauth_admin : Bool
  pub deactivated_at : Option Time
  pub token_version : ℕ
  pub created_at : Time
  pub updated_at : Time

-- Deactivated, whose receiver may be nil
unfoldable pub deactivated : Option User → Bool
deactivated none = false
deactivated (some u) = elim u.deactivated_at [ none ↦ false | some t ↦ true ]

pub record Group : Type 0 where
  pub id : String
  pub name : String
  pub description : String
  pub max_runner_sessions : ℕ
  pub agent_available : Bool
  pub auto_assign_pattern : String
  pub created_at : Time
  pub updated_at : Time

pub record Project : Type 0 where
  pub id : String
  pub name : String
  pub group_id : String
  pub created_at : Time
  pub updated_at : Time

pub record ApiToken : Type 0 where
  pub id : String
  pub user_id : String
  pub token_hash : String
  pub token_ciphertext : String
  pub prefix : String
  pub created_at : Time
  pub last_used_at : Option Time

pub record TraceMeta : Type 0 where
  pub trace_id : String
  pub user_id : String
  pub group_id : String
  pub project_name : String
  pub status : String
  pub failure_reason : String
  pub version : String
  pub ci_provider : String
  pub ci_repo : String
  pub duration_ms : ℕ
  pub started_at : Time
  pub updated_at : Time

pub record Lease : Type 0 where
  pub cert_fp : String
  pub version : String
  pub replica_pod : String
  pub instance_id : String
  pub last_activity : Time
  pub in_flight : ℕ
  pub trace_id : String
  pub user_id : String
  pub group_id : String

-- TraceListResult: a trace with the names that the listing joins
pub record TraceListResult : Type 0 where
  pub trace : TraceMeta
  pub group_name : String
  pub username : String

pub record TraceFilter : Type 0 where
  pub group_ids : List String
  pub include_unassigned : Bool
  pub unassigned_only : Bool
  pub user_id : String
  pub ci_repo : String
  pub username : String
  pub limit : ℤ

abbrev pub default_trace_limit : ℕ
default_trace_limit = 100

abbrev pub max_trace_limit : ℕ
max_trace_limit = 500
