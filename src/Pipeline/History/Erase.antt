-- ===== src/Pipeline/History/Erase.antt =====
-- The loops of RunGC and PurgeAll as plain deletions, one after the other.
use dagger_kubernetes.Prelude.{
  Bool, true, false, not, ◌||◌, ◌≡◌, inl, inr, refl, sym, ap, ◌∙◌, subst, Option, none, List, [],
  ◌∷◌, String, str_eq, eq_iff, eq_refl, arith, Bool-cases, Memᴰ, keep, if◌then◌else◌,
}
use dagger_kubernetes.Maps.{Map, get, get-remove}
use dagger_kubernetes.Domain.{TraceMeta}
use dagger_kubernetes.Fsm.Queries.{is_running}
use dagger_kubernetes.Pipeline.Repo.{Outcome, applied, lost, late, delete_trace}
use dagger_kubernetes.Pipeline.History.{
  HistoryPurgeResult, HistoryGcRunSummary, PurgeEnv, purge_trace, purge_all_one, purge_all_each,
  run_gc_one, run_gc_each,
}

-- the row that a deletion leaves
abbrev pub after : Outcome → Option TraceMeta → Option TraceMeta
after applied row = none
after (lost e) row = row
after (late e) row = none

-- the candidates that come before the context ends
unfoldable pub before_end : PurgeEnv → List TraceMeta → List TraceMeta
before_end env [] = []
before_end env (m ∷ ms) =
    let rest = before_end env ms in if env.alive m.trace_id then m ∷ rest else []

abbrev pub finished : TraceMeta → Bool
finished m = not (is_running m)

-- some trace of the list has the id
abbrev pub named : String → List TraceMeta → Bool
named id [] = false
named id (m ∷ ms) = str_eq m.trace_id id || named id ms

module _ (env : PurgeEnv) where
  abbrev erase : TraceMeta → Map TraceMeta → Map TraceMeta
  erase m traces = (delete_trace (env.outcome m.trace_id) m.trace_id traces).0

  pub erase_each : List TraceMeta → Map TraceMeta → Map TraceMeta
  erase_each [] traces = traces
  erase_each (m ∷ ms) traces = erase_each ms (erase m traces)

  purge_all_one-erase :
      (m : TraceMeta) (traces : Map TraceMeta) (r : HistoryPurgeResult)
      → (purge_all_one env m traces r).0 ≡ erase m traces
  unfolding purge_all_one purge_trace
  purge_all_one-erase m traces r = refl

  run_gc_one-erase :
      (m : TraceMeta) (traces : Map TraceMeta) (sum : HistoryGcRunSummary)
      → (run_gc_one env m traces sum).0 ≡ (if is_running m then traces else erase m traces)
  unfolding run_gc_one purge_trace
  run_gc_one-erase m traces sum = ground arith

  pub purge_all_each-erase :
      (ms : List TraceMeta) (traces : Map TraceMeta) (r : HistoryPurgeResult)
      → (purge_all_each env ms traces r).0 ≡ erase_each (before_end env ms) traces
  unfolding purge_all_each before_end erase_each
  purge_all_each-erase [] traces r = refl
  purge_all_each-erase (m ∷ ms) traces r = elim (Bool-cases (env.alive m.trace_id)) [
    | inr dead ↦ rw (dead, purge_all_each, before_end, erase_each) refl
    | inl alive ↦
        rw (alive, purge_all_each, before_end, erase_each)
          (purge_all_each-erase ms _ _
            ∙ ap (erase_each (before_end env ms)) (purge_all_one-erase m traces r))
  ]

  skip_or_erase :
      (m : TraceMeta) (ms : List TraceMeta) (traces : Map TraceMeta) (b : Bool)
      → erase_each ms (if b then traces else erase m traces)
        ≡ erase_each (elim (not b) [ true ↦ m ∷ ms | false ↦ ms ]) traces
  unfolding erase_each
  skip_or_erase m ms traces true = refl
  skip_or_erase m ms traces false = refl

  pub run_gc_each-erase :
      (ms : List TraceMeta) (traces : Map TraceMeta) (sum : HistoryGcRunSummary)
      → (run_gc_each env ms traces sum).0 ≡ erase_each (keep finished (before_end env ms)) traces
  unfolding run_gc_each before_end erase_each keep
  run_gc_each-erase [] traces sum = refl
  run_gc_each-erase (m ∷ ms) traces sum = elim (Bool-cases (env.alive m.trace_id)) [
    | inr dead ↦ rw (dead, run_gc_each, before_end) refl
    | inl alive ↦
        rw (alive, run_gc_each, before_end)
          (run_gc_each-erase ms _ _
            ∙ ap (erase_each (keep finished (before_end env ms))) (run_gc_one-erase m traces sum)
            ∙ skip_or_erase m (keep finished (before_end env ms)) traces (is_running m))
  ]

  get-erase :
      (m : TraceMeta) (traces : Map TraceMeta) (id : String)
      → get (erase m traces) id
        ≡ (if str_eq m.trace_id id then after (env.outcome id) (get traces id) else get traces id)
  unfolding delete_trace
  get-erase m traces id = elim (Bool-cases (str_eq m.trace_id id)) [
    | inl same ↦ rw same (
        subst
          (λ j.
            get (delete_trace (env.outcome j) j traces).0 id
            ≡ after (env.outcome id) (get traces id))
          (sym ((eq_iff m.trace_id id).0 same)) (own (env.outcome id)))
    | inr other ↦ rw other (others (env.outcome m.trace_id) other)
  ]
    where
      own : (o : Outcome) → get (delete_trace o id traces).0 id ≡ after o (get traces id)
      own applied = rw get-remove (simp eq_refl)
      own (lost e) = refl
      own (late e) = rw get-remove (simp eq_refl)

      others :
          (o : Outcome)
          → str_eq m.trace_id id ≡ false
          → get (delete_trace o m.trace_id traces).0 id ≡ get traces id
      others applied h = rw get-remove (rw h refl)
      others (lost e) h = refl
      others (late e) h = rw get-remove (rw h refl)

  pub get-erase_each :
      (ms : List TraceMeta) (traces : Map TraceMeta) (id : String)
      → get (erase_each ms traces) id
        ≡ (if named id ms then after (env.outcome id) (get traces id) else get traces id)
  unfolding erase_each
  get-erase_each [] traces id = refl
  get-erase_each (m ∷ ms) traces id =
      get-erase_each ms (erase m traces) id
      ∙ rw (get-erase m traces id) (twice (env.outcome id) (str_eq m.trace_id id) (named id ms))
    where
      twice :
          (o : Outcome) (b c : Bool)
          → (if c
              then after o (if b then after o (get traces id) else get traces id)
              else (if b then after o (get traces id) else get traces id))
            ≡ (if b || c then after o (get traces id) else get traces id)
      twice o true false = refl
      twice o false false = refl
      twice o false true = refl
      twice applied true true = refl
      twice (lost e) true true = refl
      twice (late e) true true = refl

pub named-Memᴰ :
    (id : String) (ms : List TraceMeta)
    → named id ms ≡ true
    → (m : TraceMeta) × Memᴰ m ms × (m.trace_id ≡ id)
named-Memᴰ id [] e = ground arith
named-Memᴰ id (m ∷ ms) e = elim (Bool-cases (str_eq m.trace_id id)) [
  | inl same ↦ (m, Memᴰ.head refl, (eq_iff m.trace_id id).0 same)
  | inr other ↦
      let (x, at, named_so) = named-Memᴰ id ms (ground arith) in (x, Memᴰ.tail at, named_so)
]

pub Memᴰ-named :
    (id : String) (ms : List TraceMeta) (m : TraceMeta)
    → Memᴰ m ms
    → m.trace_id ≡ id
    → named id ms ≡ true
Memᴰ-named id [] m at e = elim at [ ]
Memᴰ-named id (h ∷ ms) m (Memᴰ.head same) e =
    let here : str_eq h.trace_id id ≡ true =
      (eq_iff h.trace_id id).1 (subst (λ x. x.trace_id ≡ id) same e) in
    ground arith
Memᴰ-named id (h ∷ ms) m (Memᴰ.tail at) e = let there = Memᴰ-named id ms m at e in ground arith

pub keep-finished-Memᴰ :
    (ms : List TraceMeta) (m : TraceMeta)
    → Memᴰ m (keep finished ms)
    → Memᴰ m ms × (is_running m ≡ false)
unfolding keep
keep-finished-Memᴰ [] m at = elim at [ ]
keep-finished-Memᴰ (h ∷ ms) m at = first (finished h) refl at (keep-finished-Memᴰ ms m)
  where
    first :
        (b : Bool) {rest : List TraceMeta}
        → finished h ≡ b
        → Memᴰ m (elim b as (λ x. List TraceMeta) [ true ↦ h ∷ rest | false ↦ rest ])
        → (Memᴰ m rest → Memᴰ m ms × (is_running m ≡ false))
        → Memᴰ m (h ∷ ms) × (is_running m ≡ false)
    first true e (Memᴰ.head same) later =
        (Memᴰ.head same, subst (λ x. is_running x ≡ false) (sym same) (ground arith))
    first true e (Memᴰ.tail there) later = (Memᴰ.tail (later there).0, (later there).1)
    first false e there later = (Memᴰ.tail (later there).0, (later there).1)

module _ (env : PurgeEnv) where
  pub before_end-Memᴰ :
      (ms : List TraceMeta) (m : TraceMeta) → Memᴰ m (before_end env ms) → Memᴰ m ms
  unfolding before_end
  before_end-Memᴰ [] m at = at
  before_end-Memᴰ (h ∷ ms) m at = first (env.alive h.trace_id) at (before_end-Memᴰ ms m)
    where
      first :
          (b : Bool) {rest : List TraceMeta}
          → Memᴰ m (if b then h ∷ rest else [])
          → (Memᴰ m rest → Memᴰ m ms)
          → Memᴰ m (h ∷ ms)
      first true (Memᴰ.head same) later = Memᴰ.head same
      first true (Memᴰ.tail there) later = Memᴰ.tail (later there)
      first false there later = elim there [ ]

  pub before_end-all :
      ((j : String) → env.alive j ≡ true) → (ms : List TraceMeta) → before_end env ms ≡ ms
  unfolding before_end
  before_end-all alive [] = refl
  before_end-all alive (m ∷ ms) =
      rw (alive m.trace_id) (ap (λ xs. m ∷ xs) (before_end-all alive ms))
