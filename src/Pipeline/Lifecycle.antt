-- ===== src/Pipeline/Lifecycle.antt =====
-- PipelineLifecycle of internal/service/pipeline_lifecycle.go. A timer is known by the trace that
-- it is for and the generation that its callback captures; `time.AfterFunc` and `Stop` themselves
-- are the runtime's, and a callback may run even after its timer is stopped. A grace period of 0
-- stands for one that is not positive.
use dagger_kubernetes.Prelude.{
  ℕ, ◌+◌, ◌-◌, ◌%◌, ◌^◌, Bool, true, false, ◌||◌, none, some, List, [], ◌∷◌, String, str_eq, ltb,
  ◌==◌, if◌then◌else◌, not, ◌&&◌,
}
use dagger_kubernetes.Maps.{Map, empty, get, put, remove}
use dagger_kubernetes.Domain.{Time, TraceMeta, Lease}
use dagger_kubernetes.Fsm.State.{FsmState}
use dagger_kubernetes.Fsm.Queries.{list_traces_before, is_running}
use dagger_kubernetes.Pipeline.Repo.{Outcome, attribute_failed}

abbrev pub reason_client_connection_lost : String
reason_client_connection_lost = "client connection lost"

abbrev pub reason_client_session_expired : String
reason_client_session_expired = "client session expired"

-- the fields under `mu`, and the grace period
pub record Lifecycle : Type 0 where
  pub grace : ℕ
  pub pending : Map ℕ
  pub gen : ℕ

-- NewPipelineLifecycle
unfoldable pub new_lifecycle : ℕ → Lifecycle
new_lifecycle grace = record { grace = grace; pending = empty; gen = 0 }

-- OnTunnelOpen
unfoldable pub on_tunnel_open : String → Lifecycle → Lifecycle
on_tunnel_open trace_id p =
    if p.grace == 0 then p else record p { pending = remove p.pending trace_id }

-- `p.gen++` on a uint64
abbrev pub next_gen : ℕ → ℕ
next_gen gen = (gen + 1) % 2 ^ 64

-- OnTunnelClosed; the flag says that markFailed is to be called at once
unfoldable pub on_tunnel_closed : String → ℕ → Lifecycle → Lifecycle × Bool
on_tunnel_closed trace_id remaining_in_flight p =
    if str_eq trace_id "" || ltb 0 remaining_in_flight
    then (p, false)
    else if p.grace == 0
    then (p, true)
    else (
      record p { gen = next_gen p.gen; pending = put p.pending trace_id (next_gen p.gen) },
      false,
    )

-- the part of fireGrace under the lock; the flag says that markFailed follows
unfoldable pub fire_grace : String → ℕ → Lifecycle → Lifecycle × Bool
fire_grace trace_id gen p = elim (get p.pending trace_id) [
  | none ↦ (p, false)
  | some g ↦
      if not (g == gen)
      then (p, false)
      else (record p { pending = remove p.pending trace_id }, true)
]

-- Stop
unfoldable pub stop : Lifecycle → Lifecycle
stop p = record p { pending = empty }

abbrev pub pipelines_topic : String
pipelines_topic = "__pipelines__"

-- markFailed: the traces, the answer, and what is broadcast where a broadcaster is wired
unfoldable pub mark_pipeline_failed :
    Bool
    → Outcome
    → Time
    → String
    → String
    → Map TraceMeta
    → Map TraceMeta × Bool × List (String × String)
unfolding attribute_failed
mark_pipeline_failed wired o now trace_id reason traces =
    let r = attribute_failed o now trace_id reason traces in
    (
      r.0,
      r.1,
      if r.1 && wired
          then (trace_id, "trace_update") ∷ (pipelines_topic, "pipelines_update") ∷ []
          else [],
    )

pub record StaleSweepSummary : Type 0 where
  pub scanned : ℕ
  pub marked : ℕ
  pub skipped_active : ℕ

abbrev pub no_summary : StaleSweepSummary
no_summary = record { scanned = 0; marked = 0; skipped_active = 0 }

-- `active[m.TraceID]`: some lease of the trace has a tunnel in flight
unfoldable pub is_active : List Lease → String → Bool
is_active [] trace_id = false
is_active (l ∷ ls) trace_id =
    (ltb 0 l.in_flight && str_eq l.trace_id trace_id) || is_active ls trace_id

-- What happens round the sweep: whether the context still lives before the next candidate, and what
-- becomes of the commands.
pub record SweepEnv : Type 0 where
  pub alive : String → Bool
  pub outcome : String → Outcome
  pub clock : String → Time

-- the loop of RunStaleSweep over the candidates; what markFailed broadcasts is left out
unfoldable pub sweep_stale :
    SweepEnv
    → List Lease
    → List TraceMeta
    → Map TraceMeta
    → StaleSweepSummary
    → Map TraceMeta × StaleSweepSummary
unfolding is_active mark_pipeline_failed
sweep_stale env leases [] traces sum = (traces, sum)
sweep_stale env leases (m ∷ ms) traces sum =
    let seen : StaleSweepSummary = record sum { scanned = sum.scanned + 1 } in
    let r =
      mark_pipeline_failed false (env.outcome m.trace_id) (env.clock m.trace_id) m.trace_id
        reason_client_session_expired traces in
    let skip = sweep_stale env leases ms traces seen in
    let active =
      sweep_stale env leases ms traces (record seen { skipped_active = sum.skipped_active + 1 }) in
    let marked =
      sweep_stale env leases ms r.0
        (record seen { marked = if r.1 then sum.marked + 1 else sum.marked }) in
    if not (env.alive m.trace_id)
    then (traces, sum)
    else if not (is_running m)
    then skip
    else if is_active leases m.trace_id
    then active
    else marked

-- RunStaleSweep
unfoldable pub run_stale_sweep :
    SweepEnv → Time → ℕ → List Lease → FsmState → FsmState × StaleSweepSummary
unfolding sweep_stale
run_stale_sweep env now stale_after leases s =
    if stale_after == 0
    then (s, no_summary)
    else (let r =
          sweep_stale env leases (list_traces_before (now - stale_after) false s) s.traces
            no_summary in
        (record s { traces = r.0 }, r.1))
