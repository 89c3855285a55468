-- ===== src/Pipeline/Schedule.antt =====
-- The supervisor's goroutines round PipelineLifecycle, as a sequence of events: each event is a
-- critical section or a call of markFailed that an earlier section left due.
use dagger_kubernetes.Prelude.{ℕ, Bool, true, List, [], ◌∷◌, String, str_eq, if◌then◌else◌}
use dagger_kubernetes.Maps.{Map, elem}
use dagger_kubernetes.Domain.{Time, TraceMeta}
use dagger_kubernetes.Pipeline.Repo.{Outcome}
use dagger_kubernetes.Pipeline.Lifecycle.{
  Lifecycle, on_tunnel_open, on_tunnel_closed, fire_grace, stop, mark_pipeline_failed,
  reason_client_connection_lost,
}

pub data Event : Type 0 where
  -- OnTunnelOpen, OnTunnelClosed with the tunnels still in flight, and a timer's callback
  opened : String → Event
  closed : String → ℕ → Event
  fired : String → ℕ → Event
  -- the call of markFailed after the lock is released
  marked : String → Outcome → Time → Event
  stopped : Event

pub record Supervisor : Type 0 where
  pub lifecycle : Lifecycle
  -- the traces for which markFailed is still to be called
  pub due : List String
  pub traces : Map TraceMeta

-- one call that was due is made
abbrev pub drop_due : String → List String → List String
drop_due id [] = []
drop_due id (j ∷ js) = let rest = drop_due id js in if str_eq j id then js else j ∷ rest

-- the lock is released, and markFailed is due if the flag says so
abbrev pub release : String → Supervisor → Lifecycle × Bool → Supervisor
release id s r = record s { lifecycle = r.0; due = if r.1 then id ∷ s.due else s.due }

unfoldable pub step : Event → Supervisor → Supervisor
unfolding on_tunnel_open on_tunnel_closed fire_grace stop mark_pipeline_failed
step (opened id) s = record s { lifecycle = on_tunnel_open id s.lifecycle }
step (closed id n) s = release id s (on_tunnel_closed id n s.lifecycle)
step (fired id gen) s = release id s (fire_grace id gen s.lifecycle)
step (marked id o now) s =
    if elem id s.due
    then record s {
      due = drop_due id s.due;
      traces = (mark_pipeline_failed true o now id reason_client_connection_lost s.traces).0;
    }
    else s
step stopped s = record s { lifecycle = stop s.lifecycle }

unfoldable pub run : List Event → Supervisor → Supervisor
run [] s = s
run (e ∷ es) s = run es (step e s)
