-- ===== src/Pipeline/History.antt =====
-- HistoryPurgeService of internal/service/history_purge.go, over the traces of the replica. The
-- telemetry stores are not in the repository: the environment says whether one is configured and
-- which of its deletions succeed. Times that the source prints as RFC 3339 are carried as times,
-- a duration of 0 stands for one that is not positive, and the Prometheus counters, the log lines
-- and the goroutine of the ticker are left out.
pub mod Erase
pub mod Purged
use dagger_kubernetes.Prelude.{
  ℕ, ◌+◌, ◌-◌, ◌*◌, ◌^◌, Bool, true, false, not, ◌&&◌, Option, none, some, List, [], ◌∷◌, ◌++◌,
  String, ltb, ◌==◌, if◌then◌else◌,
}
use dagger_kubernetes.Maps.{Map}
use dagger_kubernetes.Domain.{
  Time, zero_time, is_zero, TraceMeta, Error, Result, ok, err, nil_dereference, validation,
  not_found,
}
use dagger_kubernetes.Fsm.State.{FsmState}
use dagger_kubernetes.Fsm.Queries.{is_running, list_traces_before, trace_stats}
use dagger_kubernetes.Fsm.Reads.{read_trace}
use dagger_kubernetes.Pipeline.Repo.{Outcome, valid_trace_id, delete_trace}

pub record HistoryGcConfig : Type 0 where
  pub enabled : Bool
  pub max_age : ℕ
  pub schedule : ℕ

pub record HistoryGcRunSummary : Type 0 where
  pub started_at : Time
  pub finished_at : Time
  pub purged_traces : ℕ
  pub skipped_running : ℕ
  pub logs_deleted : ℕ
  pub metrics_deleted : ℕ
  pub telemetry_errors : ℕ
  pub errors : ℕ
  pub message : String

pub record HistoryGcRules : Type 0 where
  pub enabled : Bool
  pub max_age : ℕ
  pub schedule : ℕ
  pub last_run_at : Option Time
  pub last_run_summary : Option HistoryGcRunSummary
  pub next_run_at : Option Time

pub record HistoryStats : Type 0 where
  pub trace_count : ℕ
  pub oldest_updated_at : Option Time
  pub collected_at : Time
  pub gc : HistoryGcRules

pub record HistoryPurgeResult : Type 0 where
  pub purged_traces : ℕ
  pub logs_deleted : ℕ
  pub metrics_deleted : ℕ
  pub trace_ids : List String
  pub already_purged : ℕ
  pub message : String

abbrev pub no_result : HistoryPurgeResult
no_result = record {
  purged_traces = 0;
  logs_deleted = 0;
  metrics_deleted = 0;
  trace_ids = [];
  already_purged = 0;
  message = "";
}

-- the fields that the calls read or change
pub record HistoryPurgeService : Type 0 where
  pub gc_cfg : HistoryGcConfig
  pub cached : Option HistoryStats
  pub cached_at : Time
  pub last_gc : Option HistoryGcRunSummary
  pub last_gc_at : Time
  pub next_gc_at : Time

-- What happens round a purge: whether the context still lives before the next candidate, what
-- becomes of the commands, and the telemetry stores.
pub record PurgeEnv : Type 0 where
  pub alive : String → Bool
  pub outcome : String → Outcome
  pub logs : Option (String → Bool)
  pub metrics : Option (String → Bool)

pub record TelemetryDeleteCounts : Type 0 where
  pub logs_deleted : ℕ
  pub metrics_deleted : ℕ
  pub errors : ℕ

-- one store's deletion: how many succeed and how many fail
abbrev delete_from : Option (String → Bool) → String → ℕ × ℕ
delete_from none trace_id = (0, 0)
delete_from (some deletes) trace_id = if deletes trace_id then (1, 0) else (0, 1)

-- deleteTraceTelemetry
unfoldable pub delete_trace_telemetry : PurgeEnv → String → TelemetryDeleteCounts
delete_trace_telemetry env trace_id = record {
  logs_deleted = (delete_from env.logs trace_id).0;
  metrics_deleted = (delete_from env.metrics trace_id).0;
  errors = (delete_from env.logs trace_id).1 + (delete_from env.metrics trace_id).1;
}

-- purgeTrace; the flag says that the row was deleted without an error
unfoldable pub purge_trace :
    PurgeEnv → String → Map TraceMeta → Map TraceMeta × TelemetryDeleteCounts × Bool
unfolding delete_trace_telemetry delete_trace
purge_trace env trace_id traces =
    let r = delete_trace (env.outcome trace_id) trace_id traces in
    (
      r.0,
      delete_trace_telemetry env trace_id,
      elim r.1 [ ok u ↦ true | err e ↦ false | nil_dereference ↦ false ],
    )

-- GCRules
unfoldable pub gc_rules : HistoryPurgeService → HistoryGcRules
gc_rules h = record {
  enabled = h.gc_cfg.enabled;
  max_age = h.gc_cfg.max_age;
  schedule = h.gc_cfg.schedule;
  last_run_at = if is_zero h.last_gc_at then none else some h.last_gc_at;
  last_run_summary = if is_zero h.last_gc_at then none else h.last_gc;
  next_run_at = if h.gc_cfg.enabled && not (is_zero h.next_gc_at) then some h.next_gc_at else none;
}

-- 15 seconds
abbrev pub history_stats_ttl : ℕ
history_stats_ttl = 15 * 10 ^ 9

-- the statistics that Stats collects anew
unfoldable pub collect_stats : Time → HistoryPurgeService → FsmState → HistoryStats
unfolding gc_rules
collect_stats now h s = record {
  trace_count = (trace_stats s).0;
  oldest_updated_at = if is_zero (trace_stats s).1 then none else some (trace_stats s).1;
  collected_at = now;
  gc = gc_rules h;
}

-- Stats
unfoldable pub history_stats :
    Time → HistoryPurgeService → FsmState → HistoryPurgeService × HistoryStats
unfolding collect_stats
history_stats now h s =
    let fresh = collect_stats now h s in
    let refreshed : HistoryPurgeService = record h { cached = some fresh; cached_at = now } in
    elim h.cached [
      | none ↦ (refreshed, fresh)
      | some st ↦ if ltb (now - h.cached_at) history_stats_ttl then (h, st) else (refreshed, fresh)
    ]

-- invalidateCache
unfoldable pub invalidate_cache : HistoryPurgeService → HistoryPurgeService
invalidate_cache h = record h { cached = none; cached_at = zero_time }

-- recordGC
unfoldable pub record_gc : Time → HistoryGcRunSummary → HistoryPurgeService → HistoryPurgeService
record_gc now summary h = record h {
  last_gc = some summary;
  last_gc_at = now;
  next_gc_at = now + h.gc_cfg.schedule;
}

-- Purge
unfoldable pub purge :
    PurgeEnv
    → String
    → HistoryPurgeService
    → FsmState
    → HistoryPurgeService × FsmState × Result HistoryPurgeResult
unfolding valid_trace_id delete_trace_telemetry delete_trace invalidate_cache
purge env trace_id h s =
    let tc = delete_trace_telemetry env trace_id in
    let result : HistoryPurgeResult = record no_result {
      trace_ids = trace_id ∷ [];
      logs_deleted = tc.logs_deleted;
      metrics_deleted = tc.metrics_deleted;
    } in
    let r = delete_trace (env.outcome trace_id) trace_id s.traces in
    if not (valid_trace_id trace_id) then (h, s, err validation) else elim (read_trace s trace_id) [
      | ok m ↦ elim r.1 [
        | ok u ↦ (
          invalidate_cache h,
          record s { traces = r.0 },
          ok (record result { purged_traces = 1 }),
        )
        | err e ↦ (h, record s { traces = r.0 }, err e)
        | nil_dereference ↦ (h, record s { traces = r.0 }, nil_dereference)
      ]
      | err not_found ↦ (invalidate_cache h, s, ok (record result { already_purged = 1 }))
      | err e ↦ (h, s, err e)
      | nil_dereference ↦ (h, s, nil_dereference)
    ]

abbrev pub disabled_message : String
disabled_message = "max_age must be positive; history purge is disabled"

-- the body of the loop of PurgeAll, where the context lives
unfoldable pub purge_all_one :
    PurgeEnv → TraceMeta → Map TraceMeta → HistoryPurgeResult → Map TraceMeta × HistoryPurgeResult
unfolding purge_trace
purge_all_one env m traces result =
    let (traces', tc, deleted) = purge_trace env m.trace_id traces in
    let counted : HistoryPurgeResult = record result {
      logs_deleted = result.logs_deleted + tc.logs_deleted;
      metrics_deleted = result.metrics_deleted + tc.metrics_deleted;
    } in
    (
      traces',
      if not deleted then counted else (record counted {
        purged_traces = result.purged_traces + 1;
        trace_ids = result.trace_ids ++ (m.trace_id ∷ []);
      }),
    )

-- the loop of PurgeAll over the candidates
unfoldable pub purge_all_each :
    PurgeEnv
    → List TraceMeta
    → Map TraceMeta
    → HistoryPurgeResult
    → Map TraceMeta × HistoryPurgeResult
unfolding purge_all_one
purge_all_each env [] traces result = (traces, result)
purge_all_each env (m ∷ ms) traces result =
    let one = purge_all_one env m traces result in
    let rest = purge_all_each env ms one.0 one.1 in
    if not (env.alive m.trace_id) then (traces, record result { message = "cancelled" }) else rest

-- PurgeAll
unfoldable pub purge_all :
    PurgeEnv
    → Time
    → HistoryPurgeService
    → FsmState
    → HistoryPurgeService × FsmState × HistoryPurgeResult
unfolding purge_all_each invalidate_cache
purge_all env now h s =
    if h.gc_cfg.max_age == 0
    then (h, s, record no_result { message = disabled_message })
    else (let r =
          purge_all_each env (list_traces_before (now - h.gc_cfg.max_age) true s) s.traces
            no_result in
        (invalidate_cache h, record s { traces = r.0 }, r.1))

-- the body of the loop of RunGC, where the context lives
unfoldable pub run_gc_one :
    PurgeEnv → TraceMeta → Map TraceMeta → HistoryGcRunSummary → Map TraceMeta × HistoryGcRunSummary
unfolding purge_trace
run_gc_one env m traces sum =
    let (traces', tc, deleted) = purge_trace env m.trace_id traces in
    let counted : HistoryGcRunSummary = record sum {
      logs_deleted = sum.logs_deleted + tc.logs_deleted;
      metrics_deleted = sum.metrics_deleted + tc.metrics_deleted;
      telemetry_errors = sum.telemetry_errors + tc.errors;
    } in
    if is_running m
    then (traces, record sum { skipped_running = sum.skipped_running + 1 })
    else if not deleted
    then (traces', record counted { errors = sum.errors + 1 })
    else (traces', record counted { purged_traces = sum.purged_traces + 1 })

-- the loop of RunGC over the candidates; the flag says that it was cancelled
unfoldable pub run_gc_each :
    PurgeEnv
    → List TraceMeta
    → Map TraceMeta
    → HistoryGcRunSummary
    → Map TraceMeta × HistoryGcRunSummary × Bool
unfolding run_gc_one
run_gc_each env [] traces sum = (traces, sum, false)
run_gc_each env (m ∷ ms) traces sum =
    let one = run_gc_one env m traces sum in
    let rest = run_gc_each env ms one.0 one.1 in
    if not (env.alive m.trace_id) then (traces, sum, true) else rest

abbrev pub gc_message : Bool → List TraceMeta → String
gc_message true ms = "cancelled"
gc_message false [] = "no traces older than max_age"
gc_message false (m ∷ ms) = ""

-- RunGC, from its start to its end; the listing cannot fail on the replica
unfoldable pub run_gc :
    PurgeEnv
    → Time
    → Time
    → HistoryPurgeService
    → FsmState
    → HistoryPurgeService × FsmState × HistoryGcRunSummary
unfolding run_gc_each invalidate_cache record_gc
run_gc env now ended h s =
    let start : HistoryGcRunSummary = record {
      started_at = now;
      finished_at = ended;
      purged_traces = 0;
      skipped_running = 0;
      logs_deleted = 0;
      metrics_deleted = 0;
      telemetry_errors = 0;
      errors = 0;
      message = disabled_message;
    } in
    let candidates = list_traces_before (now - h.gc_cfg.max_age) false s in
    if h.gc_cfg.max_age == 0
    then (record_gc ended start h, s, start)
    else (let (traces, sum, cancelled) = run_gc_each env candidates s.traces start in
        let sum' : HistoryGcRunSummary = record sum { message = gc_message cancelled candidates } in
        (record_gc ended sum' (invalidate_cache h), record s { traces = traces }, sum'))
