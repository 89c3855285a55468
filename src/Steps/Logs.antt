-- ===== src/Steps/Logs.antt =====
-- The log chunks and the watermark of internal/service/ci_steps.go.
use dagger_kubernetes.Prelude.{
  ℕ, ◌+◌, ◌-◌, ◌&&◌, ◌||◌, Bool, false, none, some, List, [], ◌∷◌, ◌++◌, String, str_eq, ltb, leb,
  ◌==◌, length, sort_by, if◌then◌else◌, zero, suc,
}
use dagger_kubernetes.Maps.{Map, empty, get, put}
use dagger_kubernetes.Domain.{Time, zero_time}
use dagger_kubernetes.Pipeline.Repo.{text_length}
use dagger_kubernetes.Steps.{LogChunk, LogEntry, LogMarkKey, StepEventBuilder, StepEnv}

abbrev pub ci_log_chunk_lines : ℕ
ci_log_chunk_lines = 100

abbrev pub ci_log_chunk_bytes : ℕ
ci_log_chunk_bytes = 8192

abbrev pub max_mark_keys : ℕ
max_mark_keys = 4096

-- chunkBytes
unfoldable pub chunk_bytes : List String → ℕ
chunk_bytes [] = 0
chunk_bytes (l ∷ ls) = text_length l + chunk_bytes ls

-- shouldSplitChunk
unfoldable pub should_split_chunk : LogChunk → String → Bool
unfolding chunk_bytes
should_split_chunk cur line =
    leb ci_log_chunk_lines (length cur.lines)
    || (ltb 0 (length cur.lines)
        && ltb ci_log_chunk_bytes (chunk_bytes cur.lines + text_length line))

-- resolveLogOwner
unfoldable pub resolve_log_owner : String → Map String → String → String
resolve_log_owner span_id attribution root_id =
    let found = elim (get attribution span_id) as (λ x. String) [
      | none ↦ root_id
      | some owner ↦ owner
    ] in
    if str_eq span_id "" then root_id else found

abbrev pub key_of : LogEntry → LogMarkKey
key_of e = record { span_id = e.span_id; line = e.line }

abbrev pub same_key : LogMarkKey → LogMarkKey → Bool
same_key a b = str_eq a.span_id b.span_id && str_eq a.line b.line

-- `_, ok := keys[k]`
unfoldable pub has_key : LogMarkKey → List LogMarkKey → Bool
has_key k [] = false
has_key k (j ∷ js) = same_key k j || has_key k js

-- the two `continue`s of prepareLogChunks
unfoldable pub is_emitted : StepEventBuilder → LogEntry → Bool
unfolding has_key
is_emitted b e =
    ltb e.timestamp b.log_mark || (e.timestamp == b.log_mark && has_key (key_of e) b.mark_keys)

abbrev chunk_with : String → LogEntry → List String → LogChunk
chunk_with owner e before = record {
  node_id = owner;
  timestamp = e.timestamp;
  lines = before ++ (e.line ∷ []);
}

-- an entry joins the last chunk of its owner, or opens the next
unfoldable pub add_line : String → LogEntry → List LogChunk → List LogChunk
unfolding should_split_chunk
add_line owner e [] = chunk_with owner e [] ∷ []
add_line owner e (c ∷ []) =
    if should_split_chunk c e.line
    then c ∷ chunk_with owner e [] ∷ []
    else (record c { timestamp = e.timestamp; lines = c.lines ++ (e.line ∷ []) }) ∷ []
add_line owner e (c ∷ d ∷ cs) = c ∷ add_line owner e (d ∷ cs)

-- `byOwner[owner]`
abbrev pub chunks_of : Map (List LogChunk) → String → List LogChunk
chunks_of by_owner owner = elim (get by_owner owner) [ none ↦ [] | some cs ↦ cs ]

-- the loop of prepareLogChunks over the sorted entries
unfoldable pub group_lines :
    StepEventBuilder
    → Map String
    → String
    → List LogEntry
    → Map (List LogChunk)
    → Map (List LogChunk)
unfolding is_emitted resolve_log_owner add_line
group_lines b attribution root_id [] by_owner = by_owner
group_lines b attribution root_id (e ∷ es) by_owner =
    let owner = resolve_log_owner e.span_id attribution root_id in
    group_lines b attribution root_id es (
      if is_emitted b e
      then by_owner
      else put by_owner owner (add_line owner e (chunks_of by_owner owner)))

-- prepareLogChunks
unfoldable pub prepare_log_chunks :
    StepEventBuilder → List LogEntry → Map String → String → Map (List LogChunk)
unfolding group_lines
prepare_log_chunks b logs attribution root_id =
    group_lines b attribution root_id (sort_by (λ d e. leb d.timestamp e.timestamp) logs) empty

-- the loop for `maxTS`
unfoldable pub newest_from : Time → List LogEntry → Time
newest_from t [] = t
newest_from t (e ∷ es) = newest_from (if ltb t e.timestamp then e.timestamp else t) es

-- `keys[k] = struct{}{}`
abbrev pub add_key : LogMarkKey → List LogMarkKey → List LogMarkKey
add_key k keys = if has_key k keys then keys else k ∷ keys

-- the second loop of advanceWatermark
unfoldable pub keys_at : Time → List LogEntry → List LogMarkKey → List LogMarkKey
unfolding has_key
keys_at t [] keys = keys
keys_at t (e ∷ es) keys = keys_at t es (if e.timestamp == t then add_key (key_of e) keys else keys)

abbrev drop : ℕ → List LogMarkKey → List LogMarkKey
drop zero ks = ks
drop (suc n) [] = []
drop (suc n) (k ∷ ks) = drop n ks

-- trimMarkKeys: it deletes keys in the order of `range` until the rest fits
unfoldable pub trim_mark_keys : StepEnv → List LogMarkKey → List LogMarkKey
trim_mark_keys env keys =
    if leb (length keys) max_mark_keys
    then keys
    else drop (length keys - max_mark_keys) (env.range keys)

-- advanceWatermark, with the assignment that Advance makes of what it returns
unfoldable pub advance_watermark : StepEnv → List LogEntry → StepEventBuilder → StepEventBuilder
unfolding newest_from keys_at trim_mark_keys
advance_watermark env [] b = b
advance_watermark env (e ∷ es) b =
    let newest = newest_from zero_time (e ∷ es) in
    if ltb newest b.log_mark then b else (record b {
      log_mark = newest;
      mark_keys = trim_mark_keys env (keys_at newest (e ∷ es) b.mark_keys);
    })
