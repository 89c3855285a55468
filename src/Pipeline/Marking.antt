-- ===== src/Pipeline/Marking.antt =====
-- What markFailed does to the traces of the replica, and the timer that leads to it.
use Prim.Native.Char.{Char}
use dagger_kubernetes.Prelude.{
  ◌+◌, ◌^◌, ◌<◌, Bool, true, false, ◌||◌, ◌≡◌, ◌⊎◌, inl, inr, refl, ap, some, List, String, str_eq,
  eq_iff, eq_refl, arith, length, ltb, Bool-cases,
}
use dagger_kubernetes.Maps.{Map, get, elem, get-put}
use dagger_kubernetes.Domain.{Time, TraceMeta}
use dagger_kubernetes.Fsm.Traces.{TraceFailure, is_terminal, mark_trace_failed}
use dagger_kubernetes.Pipeline.Repo.{
  Outcome, applied, lost, late, text_length, clip, valid_trace_id_key, mark_failed, propose,
  attribute_failed,
}
use dagger_kubernetes.Pipeline.Lifecycle.{mark_pipeline_failed, reason_client_connection_lost}
use dagger_kubernetes.Pipeline.Schedule.{Event, closed, fired, marked, Supervisor, step, run}
use dagger_kubernetes.Pipeline.Timers.{is_disarmed, is_marked, armed_gen, fire_grace_exact, due_run}

cons_not_empty : (c : Char) (s : String) → str_eq (String.◌∷◌ c s) "" ≡ false
cons_not_empty c s = elim (Bool-cases (str_eq (String.◌∷◌ c s) "")) [
  | inr differ ↦ differ
  | inl same ↦ absurd (omega (arith, ap text_length ((eq_iff (String.◌∷◌ c s) "").0 same)))
]

-- an id that the repository accepts is not empty and short
pub accepted :
    (id : String)
    → valid_trace_id_key id ≡ true
    → (str_eq id "" || ltb 256 (text_length id)) ≡ false
unfolding valid_trace_id_key
accepted String.[] v = cc
accepted (String.◌∷◌ c s) v = ground (arith, cons_not_empty c s)

-- the command that markFailed proposes
abbrev pub failure : Time → String → String → TraceFailure
failure now id reason = record {
  trace_id = id;
  reason = clip 256 (clip 256 reason);
  updated_at = now;
}

propose_cases :
    (o : Outcome) (r : Map TraceMeta × Bool) (traces : Map TraceMeta)
    → ((propose o r traces).0 ≡ traces) ⊎ ((propose o r traces).0 ≡ r.0)
propose_cases applied r traces = inr refl
propose_cases (lost e) r traces = inl refl
propose_cases (late e) r traces = inr refl

module _ (now : Time) (id reason : String) (traces : Map TraceMeta) where
  pub attribute_failed-applied :
      valid_trace_id_key id ≡ true
      → attribute_failed applied now id reason traces ≡ (
        (mark_trace_failed (failure now id reason) traces).0,
        (mark_trace_failed (failure now id reason) traces).1,
      )
  unfolding attribute_failed mark_failed
  attribute_failed-applied v = rw (accepted id v, v) refl

  -- whatever becomes of the command, the traces are left alone or marked
  pub attribute_failed_cases :
      (o : Outcome)
      → ((attribute_failed o now id reason traces).0 ≡ traces)
        ⊎ ((attribute_failed o now id reason traces).0
            ≡ (mark_trace_failed (failure now id reason) traces).0)
  unfolding attribute_failed mark_failed
  attribute_failed_cases o = elim (Bool-cases (str_eq id "" || ltb 256 (text_length id))) [
    | inl refused ↦ inl (rw (refused, attribute_failed))
    | inr fits ↦ elim (Bool-cases (valid_trace_id_key id)) [
      | inr bad ↦ inl (rw (fits, bad) refl)
      | inl good ↦ rw (fits, good) (propose_cases o _ traces)
    ]
  ]

-- what a mark leaves of a trace that it fails
module _ (id : String) (real : valid_trace_id_key id ≡ true) (now : Time)
    (traces : Map TraceMeta) where
  marked_failed :
      (m : TraceMeta)
      → get traces id ≡ some m
      → is_terminal m.status ≡ false
      → (m' : TraceMeta) × (get
            (mark_pipeline_failed true applied now id reason_client_connection_lost traces).0
            id
          ≡ some m')
        × (m'.status ≡ "failed")
        × (m'.failure_reason ≡ reason_client_connection_lost)
  unfolding mark_pipeline_failed mark_trace_failed
  marked_failed m at live =
      let m' : TraceMeta = record m {
        status = "failed";
        failure_reason = reason_client_connection_lost;
        updated_at = now;
      } in
      (
        m',
        rw (attribute_failed-applied now id reason_client_connection_lost traces real) (
            rw (at, mark_trace_failed)
              (rw live (ground (arith, get-put traces id id m', eq_refl id)))),
        refl,
        refl,
      )

-- the last tunnel of the trace closes, and `es` happen before the timer's callback runs
abbrev pub after_close : String → Supervisor → List Event → Supervisor
after_close id s es = run es (step (closed id 0) s)

-- the callback runs, and `fs` happen before it calls markFailed
abbrev pub after_fire : String → Supervisor → List Event → List Event → Supervisor
after_fire id s es fs = run fs (step (fired id (armed_gen s)) (after_close id s es))

module _ (id : String) (real : valid_trace_id_key id ≡ true) (s : Supervisor)
    (graced : 0 < s.lifecycle.grace) where
  not_empty : str_eq id "" ≡ false
  not_empty = ground (arith, accepted id real)

  due_after :
      (es fs : List Event)
      → armed_gen s + length es < 2 ^ 64
      → is_disarmed id (armed_gen s) es ≡ false
      → is_marked id fs ≡ false
      → elem id (after_fire id s es fs).due ≡ true
  unfolding step
  due_after es fs room armed quiet =
      due_run id fs _ quiet
        (ground (arith, fire_grace_exact id not_empty s graced es room, eq_refl id))

  -- With a grace period, where the last tunnel of a trace closes and nothing disarms the timer
  -- before its callback runs, the trace is failed once the callback's call of markFailed is applied,
  -- unless the trace has finished by then. An event between the callback and its call changes
  -- nothing of this, be it that a tunnel of the trace opens.
  pub grace_timer_fails :
      (es fs : List Event) (now : Time) (m : TraceMeta)
      → armed_gen s + length es < 2 ^ 64
      → is_disarmed id (armed_gen s) es ≡ false
      → is_marked id fs ≡ false
      → get (after_fire id s es fs).traces id ≡ some m
      → is_terminal m.status ≡ false
      → (m' : TraceMeta) × (get (step (marked id applied now) (after_fire id s es fs)).traces id
          ≡ some m')
        × (m'.status ≡ "failed")
        × (m'.failure_reason ≡ reason_client_connection_lost)
  unfolding step
  grace_timer_fails es fs now m room armed quiet at live =
      rw (due_after es fs room armed quiet) (marked_failed id real now _ m at live)
