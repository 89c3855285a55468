-- ===== src/Fsm/Traces.antt =====
-- The trace metadata of fsm.go: provision, ingest and the disconnect mark.
use dagger_kubernetes.Prelude.{
  Bool, true, false, not, ◌&&◌, ◌||◌, none, some, String, ◌==◌, str_eq, if◌then◌else◌,
}
use dagger_kubernetes.Maps.{Map, get, put}
use dagger_kubernetes.Domain.{Time, zero_time, is_zero, TraceMeta}

-- cmdUpsertTraceProvision and cmdMarkTraceFailed
pub record TraceProvision : Type 0 where
  pub trace_id : String
  pub user_id : String
  pub version : String
  pub updated_at : Time

pub record TraceFailure : Type 0 where
  pub trace_id : String
  pub reason : String
  pub updated_at : Time

-- `m.Status == "success" || m.Status == "failed"`
abbrev pub is_terminal : String → Bool
is_terminal status = str_eq status "success" || str_eq status "failed"

-- the new text if there is one
abbrev pub or_old : String → String → String
or_old new old = if str_eq new "" then old else new

unfoldable pub provisioned : TraceProvision → TraceMeta
provisioned p = record {
  trace_id = p.trace_id;
  user_id = p.user_id;
  group_id = "";
  project_name = "";
  status = "";
  failure_reason = "";
  version = p.version;
  ci_provider = "";
  ci_repo = "";
  duration_ms = 0;
  started_at = zero_time;
  updated_at = p.updated_at;
}

-- upsertTraceProvision
unfoldable pub upsert_trace_provision : TraceProvision → Map TraceMeta → Map TraceMeta
unfolding provisioned
upsert_trace_provision p traces = elim (get traces p.trace_id) [
  | none ↦ put traces p.trace_id (provisioned p)
  | some existing ↦ put traces p.trace_id (record existing {
    user_id = if str_eq existing.user_id "" then p.user_id else existing.user_id;
    version = or_old p.version existing.version;
    updated_at = p.updated_at;
  })
]

-- the status and the failure reason that an ingest of `m` leaves
unfoldable pub ingested_status : TraceMeta → TraceMeta → String
ingested_status m existing =
    if is_terminal m.status
    then m.status
    else if not (str_eq m.status "")
        && not (str_eq existing.status "success")
        && not (str_eq existing.status "failed")
    then m.status
    else existing.status

unfoldable pub ingested_reason : TraceMeta → TraceMeta → String
ingested_reason m existing = if is_terminal m.status then "" else existing.failure_reason

-- what an ingest of `m` makes of the row
unfoldable pub ingested : TraceMeta → TraceMeta → TraceMeta
unfolding ingested_status ingested_reason
ingested m existing = record existing {
  group_id = if str_eq existing.group_id "" then m.group_id else existing.group_id;
  project_name = or_old m.project_name existing.project_name;
  status = ingested_status m existing;
  failure_reason = ingested_reason m existing;
  version = or_old m.version existing.version;
  ci_provider = or_old m.ci_provider existing.ci_provider;
  ci_repo = or_old m.ci_repo existing.ci_repo;
  duration_ms = if m.duration_ms == 0 then existing.duration_ms else m.duration_ms;
  started_at = if is_zero m.started_at then existing.started_at else m.started_at;
  updated_at = m.updated_at;
}

-- upsertTraceIngest
unfoldable pub upsert_trace_ingest : TraceMeta → Map TraceMeta → Map TraceMeta
unfolding ingested
upsert_trace_ingest m traces = elim (get traces m.trace_id) [
  | none ↦ put traces m.trace_id m
  | some existing ↦ put traces m.trace_id (ingested m existing)
]

-- markTraceFailed
unfoldable pub mark_trace_failed : TraceFailure → Map TraceMeta → Map TraceMeta × Bool
mark_trace_failed p traces = elim (get traces p.trace_id) [
  | none ↦ (traces, false)
  | some m ↦ if is_terminal m.status then (traces, false) else (
    put traces p.trace_id
        (record m { status = "failed"; failure_reason = p.reason; updated_at = p.updated_at }),
    true,
  )
]
