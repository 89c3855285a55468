-- ===== src/Pipeline/Timers.antt =====
-- When a grace timer fails its trace.
use dagger_kubernetes.Prelude.{
  ℕ, suc, ◌+◌, ◌^◌, ◌≤◌, ◌<◌, Bool, true, false, not, ◌&&◌, ◌||◌, ◌≡◌, none, some, List, [], ◌∷◌,
  String, str_eq, eq_iff, eq_refl, ◌==◌, arith, length,
}
use dagger_kubernetes.Maps.{empty, get, elem, get-put, get-remove}
use dagger_kubernetes.Pipeline.Lifecycle.{
  Lifecycle, on_tunnel_open, on_tunnel_closed, fire_grace, stop, next_gen,
}
use dagger_kubernetes.Pipeline.Schedule.{
  Event, opened, closed, fired, marked, stopped, Supervisor, step, run, drop_due,
}

-- does the event disarm the timer of `id` with the generation `g`: a tunnel of the trace opens,
-- its last tunnel closes again, the timer fires, or the supervisor stops
abbrev pub disarms : String → ℕ → Event → Bool
disarms id g (opened j) = str_eq j id
disarms id g (closed j n) = str_eq j id && n == 0
disarms id g (fired j h) = str_eq j id && h == g
disarms id g (marked j o now) = false
disarms id g stopped = true

abbrev pub is_disarmed : String → ℕ → List Event → Bool
is_disarmed id g [] = false
is_disarmed id g (e ∷ es) = disarms id g e || is_disarmed id g es

-- is `g` the generation that is pending for `id`?
abbrev is_armed : String → ℕ → Lifecycle → Bool
is_armed id g p = elim (get p.pending id) [ none ↦ false | some h ↦ h == g ]

fire_grace-armed : (id : String) (g : ℕ) (p : Lifecycle) → (fire_grace id g p).1 ≡ is_armed id g p
unfolding fire_grace
fire_grace-armed id g p = ground arith

module _ (id : String) (g : ℕ) where
  -- what holds of a lifecycle that has handed `g` out, with `k` generations to go before a wrap
  record Handed (k : ℕ) (p : Lifecycle) : Type 0 where
    graced : 0 < p.grace
    old : g ≤ p.gen
    room : p.gen + k < 2 ^ 64

  open_step :
      (k : ℕ) (j : String) (p : Lifecycle)
      → str_eq id "" ≡ false
      → Handed (suc k) p
      → Handed k (on_tunnel_open j p)
        × (is_armed id g (on_tunnel_open j p) ≡ is_armed id g p && not (str_eq j id))
  unfolding on_tunnel_open
  open_step k j p real h = (ground arith, ground (arith, get-remove p.pending j id))

  close_step :
      (k : ℕ) (j : String) (n : ℕ) (p : Lifecycle)
      → str_eq id "" ≡ false
      → Handed (suc k) p
      → Handed k (on_tunnel_closed j n p).0
        × (is_armed id g (on_tunnel_closed j n p).0
            ≡ is_armed id g p && not (str_eq j id && n == 0))
  unfolding on_tunnel_closed
  close_step k j n p real h = (
    ground arith,
    ground (arith, get-put p.pending j id (next_gen p.gen), eq_iff j id, eq_iff j "", eq_iff id ""),
  )

  fire_step :
      (k : ℕ) (j : String) (h : ℕ) (p : Lifecycle)
      → Handed (suc k) p
      → Handed k (fire_grace j h p).0
        × (is_armed id g (fire_grace j h p).0 ≡ is_armed id g p && not (str_eq j id && h == g))
  unfolding fire_grace
  fire_step k j h p hd = (ground arith, ground (arith, get-remove p.pending j id, eq_iff j id))

  -- one event, seen by the timer
  timer_step :
      (k : ℕ) (e : Event) (s : Supervisor)
      → str_eq id "" ≡ false
      → Handed (suc k) s.lifecycle
      → Handed k (step e s).lifecycle
        × (is_armed id g (step e s).lifecycle ≡ is_armed id g s.lifecycle && not (disarms id g e))
  unfolding step stop empty get
  timer_step k (opened j) s real h = open_step k j s.lifecycle real h
  timer_step k (closed j n) s real h = close_step k j n s.lifecycle real h
  timer_step k (fired j i) s real h = fire_step k j i s.lifecycle h
  timer_step k (marked j o now) s real h = ground arith
  timer_step k stopped s real h = ground arith

  timer_run :
      (es : List Event) (s : Supervisor)
      → str_eq id "" ≡ false
      → Handed (length es) s.lifecycle
      → is_armed id g (run es s).lifecycle ≡ is_armed id g s.lifecycle && not (is_disarmed id g es)
  unfolding run
  timer_run [] s real h = ground arith
  timer_run (e ∷ es) s real h =
      let (h', one) = timer_step (length es) e s real h in
      ground (arith, one, timer_run es (step e s) real h')

-- the generation that the close of a last tunnel hands out
abbrev pub armed_gen : Supervisor → ℕ
armed_gen s = next_gen s.lifecycle.gen

module _ (id : String) (real : str_eq id "" ≡ false) (s : Supervisor)
    (graced : 0 < s.lifecycle.grace) where
  armed_now :
      (k : ℕ)
      → armed_gen s + k < 2 ^ 64
      → Handed id (armed_gen s) k (step (closed id 0) s).lifecycle
        × (is_armed id (armed_gen s) (step (closed id 0) s).lifecycle ≡ true)
  unfolding step on_tunnel_closed
  armed_now k room =
      (ground arith, ground (arith, get-put s.lifecycle.pending id id (armed_gen s), eq_refl id))

  -- With a grace period, after the last tunnel of a trace closes and any events follow, fewer than
  -- the generations left before the counter wraps, the callback of the timer that the close armed
  -- fails the trace exactly when no tunnel of the trace was opened since, its last tunnel did not
  -- close again, the callback did not run before, and the supervisor was not stopped.
  pub fire_grace_exact :
      (es : List Event)
      → armed_gen s + length es < 2 ^ 64
      → (fire_grace id (armed_gen s) (run es (step (closed id 0) s)).lifecycle).1
        ≡ not (is_disarmed id (armed_gen s) es)
  fire_grace_exact es room =
      let (h, armed) = armed_now (length es) room in
      ground (
        arith,
        fire_grace-armed id (armed_gen s) (run es (step (closed id 0) s)).lifecycle,
        timer_run id (armed_gen s) es (step (closed id 0) s) real h,
        armed,
      )

-- does the event make the call of markFailed that is due for `id`?
abbrev pub marks : String → Event → Bool
marks id (marked j o now) = str_eq j id
marks id (opened j) = false
marks id (closed j n) = false
marks id (fired j h) = false
marks id stopped = false

abbrev pub is_marked : String → List Event → Bool
is_marked id [] = false
is_marked id (e ∷ es) = marks id e || is_marked id es

elem-drop_due :
    (id j : String) (js : List String)
    → str_eq j id ≡ false
    → elem id js ≡ true
    → elem id (drop_due j js) ≡ true
elem-drop_due id j [] ne h = cc
elem-drop_due id j (i ∷ js) ne h =
    ground (arith, eq_iff i j, eq_iff i id, eq_iff j id, elem-drop_due id j js ne)

due_step :
    (id : String) (e : Event) (s : Supervisor)
    → marks id e ≡ false
    → elem id s.due ≡ true
    → elem id (step e s).due ≡ true
unfolding step
due_step id (opened j) s ne h = h
due_step id (closed j n) s ne h = ground arith
due_step id (fired j g) s ne h = ground arith
due_step id (marked j o now) s ne h = ground (arith, elem-drop_due id j s.due ne h)
due_step id stopped s ne h = h

pub due_run :
    (id : String) (es : List Event) (s : Supervisor)
    → is_marked id es ≡ false
    → elem id s.due ≡ true
    → elem id (run es s).due ≡ true
unfolding run
due_run id [] s ne h = h
due_run id (e ∷ es) s ne h =
    due_run id es (step e s) (ground arith) (due_step id e s (ground arith) h)
