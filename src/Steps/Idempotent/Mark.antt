-- ===== src/Steps/Idempotent/Mark.antt =====
-- The watermark after a snapshot: no line of that snapshot is new.
use dagger_kubernetes.Prelude.{
  ℕ, ◌+◌, ◌≤◌, Bool, true, false, ◌≡◌, inl, inr, refl, sym, ap, ◌∙◌, subst, List, [], ◌∷◌, eq_iff,
  arith, ltb, leb, ◌==◌, Bool-cases, length, All, All-imp, if◌then◌else◌,
}
use dagger_kubernetes.Domain.{Time, zero_time}
use dagger_kubernetes.Steps.{LogEntry, LogMarkKey, StepEventBuilder, StepEnv}
use dagger_kubernetes.Steps.Logs.{
  max_mark_keys, key_of, has_key, is_emitted, newest_from, add_key, keys_at, trim_mark_keys,
  advance_watermark,
}

newest_from-le : (t : Time) (es : List LogEntry) → t ≤ newest_from t es
unfolding newest_from
newest_from-le t [] = omega arith
newest_from-le t (e ∷ es) =
    let rest = newest_from-le (if ltb t e.timestamp then e.timestamp else t) es in ground arith

newest_from-newest : (t : Time) (es : List LogEntry) → All (λ e. e.timestamp ≤ newest_from t es) es
unfolding newest_from
newest_from-newest t [] = tt
newest_from-newest t (e ∷ es) = (
  (let rest = newest_from-le (if ltb t e.timestamp then e.timestamp else t) es in ground arith),
  newest_from-newest (if ltb t e.timestamp then e.timestamp else t) es,
)

has_key-add :
    (k j : LogMarkKey) (keys : List LogMarkKey)
    → has_key k keys ≡ true
    → has_key k (add_key j keys) ≡ true
unfolding has_key
has_key-add k j keys h = elim (Bool-cases (has_key j keys)) [
  | inl e ↦ rw e h
  | inr e ↦ rw e (ground arith)
]

has_key-own : (k : LogMarkKey) (keys : List LogMarkKey) → has_key k (add_key k keys) ≡ true
unfolding has_key
has_key-own k keys = elim (Bool-cases (has_key k keys)) [
  | inl e ↦ rw e e
  | inr e ↦ rw e (rw ((eq_iff k.span_id k.span_id).1 refl, (eq_iff k.line k.line).1 refl) refl)
]

has_key-keys_at :
    (t : Time) (k : LogMarkKey) (es : List LogEntry) (keys : List LogMarkKey)
    → has_key k keys ≡ true
    → has_key k (keys_at t es keys) ≡ true
unfolding keys_at
has_key-keys_at t k [] keys h = h
has_key-keys_at t k (e ∷ es) keys h = has_key-keys_at t k es _ (kept (e.timestamp == t))
  where
    kept : (b : Bool) → has_key k (if b then add_key (key_of e) keys else keys) ≡ true
    kept true = has_key-add k (key_of e) keys h
    kept false = h

-- every line at the time is among the keys
keys_at-All :
    (t : Time) (es : List LogEntry) (keys : List LogMarkKey)
    → All (λ e. e.timestamp ≡ t → has_key (key_of e) (keys_at t es keys) ≡ true) es
unfolding keys_at
keys_at-All t [] keys = tt
keys_at-All t (e ∷ es) keys = (first, keys_at-All t es _)
  where
    first : e.timestamp ≡ t → has_key (key_of e) (keys_at t (e ∷ es) keys) ≡ true
    first same =
        let here : (e.timestamp == t) ≡ true = ground arith in
        rw (here, keys_at) (has_key-keys_at t (key_of e) es _ (has_key-own (key_of e) keys))

-- where all of them are there already, nothing is added
keys_at-same :
    (t : Time) (es : List LogEntry) (keys : List LogMarkKey)
    → All (λ e. e.timestamp ≡ t → has_key (key_of e) keys ≡ true) es
    → keys_at t es keys ≡ keys
unfolding keys_at
keys_at-same t [] keys h = refl
keys_at-same t (e ∷ es) keys h = elim (Bool-cases (e.timestamp == t)) [
  | inr other ↦ rw (other, keys_at) (keys_at-same t es keys h.1)
  | inl same ↦
      let there = h.0 (ground arith) in rw (same, keys_at) (rw there (keys_at-same t es keys h.1))
]

length-keys_at :
    (t : Time) (es : List LogEntry) (keys : List LogMarkKey)
    → length (keys_at t es keys) ≤ length keys + length es
unfolding keys_at
length-keys_at t [] keys = omega arith
length-keys_at t (e ∷ es) keys =
    let rest = length-keys_at t es (if e.timestamp == t then add_key (key_of e) keys else keys) in
    let added : length (if e.timestamp == t then add_key (key_of e) keys else keys)
        ≤ length keys + 1 =
      grown (e.timestamp == t) (has_key (key_of e) keys) in
    omega arith
  where
    grown :
        (b c : Bool)
        → length (if b then (if c then keys else key_of e ∷ keys) else keys) ≤ length keys + 1
    grown true true = omega arith
    grown true false = omega arith
    grown false c = omega arith

trimmed :
    (env : StepEnv) (keys : List LogMarkKey)
    → length keys ≤ max_mark_keys
    → trim_mark_keys env keys ≡ keys
unfolding trim_mark_keys
trimmed env keys h =
    let fits : leb (length keys) max_mark_keys ≡ true = ground arith in rw fits refl

-- What the watermark of `b` says of the lines that it was advanced over.
pub record Covers (env : StepEnv) (logs : List LogEntry) (b : StepEventBuilder) : Type 0 where
  pub covered : All (λ e. is_emitted b e ≡ true) logs
  pub still : advance_watermark env logs b ≡ b

covered_at :
    (b : StepEventBuilder) (logs : List LogEntry)
    → All (λ e. e.timestamp ≤ b.log_mark) logs
    → All (λ e. e.timestamp ≡ b.log_mark → has_key (key_of e) b.mark_keys ≡ true) logs
    → All (λ e. is_emitted b e ≡ true) logs
unfolding is_emitted
covered_at b [] h k = tt
covered_at b (e ∷ es) h k = (first (h.0) (k.0), covered_at b es h.1 k.1)
  where
    first :
        e.timestamp ≤ b.log_mark
        → (e.timestamp ≡ b.log_mark → has_key (key_of e) b.mark_keys ≡ true)
        → is_emitted b e ≡ true
    first below keyed = elim (Bool-cases (ltb e.timestamp b.log_mark)) [
      | inl before ↦ rw (before, is_emitted) refl
      | inr at_mark ↦
          let same : e.timestamp ≡ b.log_mark = ground arith in
          let here : (e.timestamp == b.log_mark) ≡ true = ground arith in
          rw (at_mark, here, keyed same, is_emitted) refl
    ]

same_marks :
    (c : StepEventBuilder) (t : Time) (ks : List LogMarkKey)
    → t ≡ c.log_mark
    → ks ≡ c.mark_keys
    → (record c { log_mark = t; mark_keys = ks }) ≡ c
same_marks c t ks same_time same_keys =
    let with_time =
      λ (u : Time). let d : StepEventBuilder = record c { log_mark = u; mark_keys = ks } in d in
    let with_keys =
      λ (us : List LogMarkKey). let d : StepEventBuilder = record c { mark_keys = us } in d in
    ap with_time same_time ∙ ap with_keys same_keys

-- any builder that has the watermark of the advanced one
pub advance_watermark-Covers :
    (env : StepEnv) (logs : List LogEntry) (b c : StepEventBuilder)
    → length b.mark_keys + length logs ≤ max_mark_keys
    → c.log_mark ≡ (advance_watermark env logs b).log_mark
    → c.mark_keys ≡ (advance_watermark env logs b).mark_keys
    → Covers env logs c
unfolding advance_watermark is_emitted
advance_watermark-Covers env [] b c room m k = record { covered = tt; still = refl }
advance_watermark-Covers env (e ∷ es) b c room m k =
    elim (Bool-cases (ltb (newest_from zero_time (e ∷ es)) b.log_mark)) [
      | inl stale ↦ old stale
      | inr newer ↦ fresh newer
    ]
  where
    newest : Time
    newest = newest_from zero_time (e ∷ es)

    keys : List LogMarkKey
    keys = keys_at newest (e ∷ es) b.mark_keys

    not_less : (n : ℕ) → ltb n n ≡ false
    not_less n = ground arith

    earlier :
        (x : LogEntry)
        → x.timestamp ≤ newest
        → ltb newest c.log_mark ≡ true
        → ltb x.timestamp c.log_mark ≡ true
    earlier x h stale = ground arith

    old : ltb newest b.log_mark ≡ true → Covers env (e ∷ es) c
    old stale =
        let same_mark : c.log_mark ≡ b.log_mark = m ∙ rw (stale, advance_watermark) refl in
        let stale' : ltb newest c.log_mark ≡ true = rw same_mark stale in
        record {
          covered =
              All-imp _ (λ x. is_emitted c x ≡ true)
                (λ x h. rw (earlier x h stale', is_emitted) refl) (e ∷ es)
                (newest_from-newest zero_time (e ∷ es));
          still = rw (stale', advance_watermark) refl;
        }

    fresh : ltb newest b.log_mark ≡ false → Covers env (e ∷ es) c
    fresh newer =
        let few : length keys ≤ max_mark_keys =
          (let h = length-keys_at newest (e ∷ es) b.mark_keys in omega arith) in
        let at_newest : c.log_mark ≡ newest = m ∙ rw (newer, advance_watermark) refl in
        let have : c.mark_keys ≡ keys = k ∙ rw (newer, advance_watermark) (trimmed env keys few) in
        let keyed_newest : All (λ x. x.timestamp ≡ newest → has_key (key_of x) c.mark_keys ≡ true)
            (e ∷ es) =
          subst (λ ks. All (λ x. x.timestamp ≡ newest → has_key (key_of x) ks ≡ true) (e ∷ es))
            (sym have) (keys_at-All newest (e ∷ es) b.mark_keys) in
        let keyed : All (λ x. x.timestamp ≡ c.log_mark → has_key (key_of x) c.mark_keys ≡ true)
            (e ∷ es) =
          subst (λ t. All (λ x. x.timestamp ≡ t → has_key (key_of x) c.mark_keys ≡ true) (e ∷ es))
            (sym at_newest) keyed_newest in
        let level : ltb newest c.log_mark ≡ false = rw at_newest (not_less newest) in
        record {
          covered =
              covered_at c (e ∷ es)
                (subst (λ t. All (λ x. x.timestamp ≤ t) (e ∷ es)) (sym at_newest)
                  (newest_from-newest zero_time (e ∷ es)))
                keyed;
          still =
              rw (level, advance_watermark)
                (same_marks c newest (trim_mark_keys env (keys_at newest (e ∷ es) c.mark_keys))
                  (sym at_newest)
                  (ap (trim_mark_keys env) (keys_at-same newest (e ∷ es) c.mark_keys keyed_newest)
                    ∙ trimmed env c.mark_keys (rw have few)));
        }
