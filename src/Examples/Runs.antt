-- ===== src/Examples/Runs.antt =====
-- The theorems on the life of a run at concrete inputs.
use dagger_kubernetes.Pipeline.Attribution.{IngestEnv, ingest}
use dagger_kubernetes.Pipeline.Attribution.Kept.{ingest_keeps_group}
use dagger_kubernetes.Examples.Local.{literal, rules}
use dagger_kubernetes.Examples.{web}
use dagger_kubernetes.Prelude.{ℕ, true, not, ◌≡◌, ◌⊎◌, refl, sym, some, none, [], ◌∷◌, List, arith}
use dagger_kubernetes.Maps.{get}
use dagger_kubernetes.Domain.{TraceMeta, Lease}
use dagger_kubernetes.Fsm.Queries.{trace_sort_key}
use dagger_kubernetes.Pipeline.Repo.{applied, valid_trace_id_key}
use dagger_kubernetes.Pipeline.Lifecycle.{
  fire_grace, SweepEnv, run_stale_sweep, is_active, reason_client_connection_lost,
}
use dagger_kubernetes.Pipeline.Timers.{is_disarmed, armed_gen, fire_grace_exact}
use dagger_kubernetes.Pipeline.Schedule.{Supervisor, Event, opened, closed, marked, step, run}
use dagger_kubernetes.Pipeline.Marking.{after_fire, grace_timer_fails}
use dagger_kubernetes.Pipeline.Swept.{
  IsFailed, IsStale, run_stale_sweep_safe, run_stale_sweep_fails,
}
use dagger_kubernetes.Pipeline.History.{HistoryPurgeService, PurgeEnv, run_gc, purge_all}
use dagger_kubernetes.Pipeline.History.Purged.{
  IsExpired, IsDeletable, history_purge_safe, run_gc_purges, purge_all-run_gc,
}
use dagger_kubernetes.Examples.{
  lower_case, build, finished_build, replica, replica-WellFormed, replica_facts,
}

-- a supervisor with a grace period of 30, and one running trace
abbrev supervisor : Supervisor
supervisor = record {
  lifecycle = record { grace = 30; pending = []; gen = 7 };
  due = [];
  traces = ("t1", build) ∷ [];
}

-- a tunnel of another trace opens and closes meanwhile
abbrev meanwhile : List Event
meanwhile = opened "t2" ∷ closed "t2" 0 ∷ []

fire_grace_exact_example :
    (fire_grace "t1"
      (armed_gen supervisor)
      (run meanwhile (step (closed "t1" 0) supervisor)).lifecycle).1
    ≡ not (is_disarmed "t1" (armed_gen supervisor) meanwhile)
fire_grace_exact_example =
    fire_grace_exact "t1" refl supervisor (omega arith) meanwhile (omega arith)

supervisor_valid : valid_trace_id_key "t1" ≡ true
unfolding valid_trace_id_key
supervisor_valid = refl

still_there : get (after_fire "t1" supervisor meanwhile (opened "t1" ∷ [])).traces "t1" ≡ some build
unfolding run step get
still_there = refl

grace_timer_fails_example :
    (m' : TraceMeta) × (get
        (step
          (marked "t1" applied 99)
          (after_fire "t1" supervisor meanwhile (opened "t1" ∷ []))).traces
        "t1"
      ≡ some m')
    × (m'.status ≡ "failed")
    × (m'.failure_reason ≡ reason_client_connection_lost)
grace_timer_fails_example =
    grace_timer_fails "t1" supervisor_valid supervisor (omega arith) meanwhile (opened "t1" ∷ []) 99
      build (omega arith) refl refl still_there refl

abbrev sweeping : SweepEnv
sweeping = record { alive = λ j. true; outcome = λ j. applied; clock = λ j. 99 }

-- the trace has a lease, whose tunnels are closed
abbrev quiet_leases : List Lease
quiet_leases =
    record {
      cert_fp = "fp";
      version = "v0.18.0";
      replica_pod = "pod";
      instance_id = "i1";
      last_activity = 20;
      in_flight = 0;
      trace_id = "t1";
      user_id = "u1";
      group_id = "g1";
    }
    ∷ []

build-IsStale : IsStale lower_case replica replica-WellFormed sweeping 50 20 quiet_leases "t1" build
unfolding trace_sort_key is_active
build-IsStale = ((omega arith, omega arith, λ e. sym e), refl, (λ e. refl, tt))

run_stale_sweep_safe_example :
    (get (run_stale_sweep sweeping 50 20 quiet_leases replica).0.traces "t1"
      ≡ get replica.traces "t1")
    ⊎ ((m : TraceMeta) × (get replica.traces "t1" ≡ some m)
        × IsStale lower_case replica replica-WellFormed sweeping 50 20 quiet_leases "t1" m
        × IsFailed "t1" (run_stale_sweep sweeping 50 20 quiet_leases replica).0.traces)
run_stale_sweep_safe_example =
    run_stale_sweep_safe lower_case replica replica-WellFormed sweeping 50 20 quiet_leases "t1"

run_stale_sweep_fails_example :
    IsFailed "t1" (run_stale_sweep sweeping 50 20 quiet_leases replica).0.traces
run_stale_sweep_fails_example =
    run_stale_sweep_fails lower_case replica replica-WellFormed sweeping 50 20 quiet_leases "t1"
      build (omega arith) (λ j. refl) (λ j. refl) supervisor_valid replica_facts.build_row
      build-IsStale

abbrev purging : PurgeEnv
purging = record {
  alive = λ j. true;
  outcome = λ j. applied;
  logs = some (λ j. true);
  metrics = none;
}

abbrev history : HistoryPurgeService
history = record {
  gc_cfg = record { enabled = true; max_age = 20; schedule = 10 };
  cached = none;
  cached_at = 0;
  last_gc = none;
  last_gc_at = 0;
  next_gc_at = 0;
}

finished_build-IsExpired :
    IsExpired lower_case replica replica-WellFormed purging 50 history "t2" finished_build
unfolding trace_sort_key
finished_build-IsExpired = (replica_facts.finished_row, (omega arith, omega arith, λ e. refl))

history_purge_safe_example :
    ((ended : ℕ)
      → (get (run_gc purging 50 ended history replica).1.traces "t1" ≡ get replica.traces "t1")
        ⊎ ((m : TraceMeta) × IsDeletable lower_case replica replica-WellFormed purging 50 history
              "t1" m
            × (get (run_gc purging 50 ended history replica).1.traces "t1" ≡ none)))
    × ((get (purge_all purging 50 history replica).1.traces "t1" ≡ get replica.traces "t1")
        ⊎ ((m : TraceMeta) × IsDeletable lower_case replica replica-WellFormed purging 50 history
              "t1" m
            × (get (purge_all purging 50 history replica).1.traces "t1" ≡ none)))
history_purge_safe_example =
    history_purge_safe lower_case replica replica-WellFormed purging 50 history "t1"

run_gc_purges_example : get (run_gc purging 50 60 history replica).1.traces "t2" ≡ none
run_gc_purges_example =
    run_gc_purges lower_case replica replica-WellFormed purging 50 history "t2" 60 finished_build
      (λ j. refl) refl (omega arith) finished_build-IsExpired

purge_all-run_gc_example :
    get (purge_all purging 50 history replica).1.traces "t2"
    ≡ get (run_gc purging 50 60 history replica).1.traces "t2"
purge_all-run_gc_example =
    purge_all-run_gc lower_case replica replica-WellFormed purging 50 history "t2" 60 (λ j. refl)

abbrev ingesting : IngestEnv
ingesting = record {
  created = applied;
  assigned = applied;
  ingested = applied;
  new_id = "p2";
  now = 60;
}

ingest_keeps_group_example :
    get (ingest lower_case literal ingesting rules build "" replica).projects "p1" ≡ some web
ingest_keeps_group_example =
    ingest_keeps_group lower_case literal ingesting replica replica-WellFormed "p1" web rules build
      "" replica_facts.project_row refl
