-- ===== src/Steps/Flatten.antt =====
-- flattenTrace of internal/service/ci_steps.go, and the functions on one span.
use Prim.Native.Char.{code}
use Prim.Native.String.{String, ◌++◌}
use dagger_kubernetes.Prelude.{
  ℕ, ℤ, pos, negsuc, ◌+◌, ◌&&◌, ◌||◌, Bool, true, false, Option, none, some, List, [], ◌∷◌, str_eq,
  ltb, leb, ◌==◌, if◌then◌else◌,
}
use dagger_kubernetes.Maps.{Map, empty, get, put, elem}
use dagger_kubernetes.Pipeline.Repo.{text_length, text_take}
use dagger_kubernetes.Steps.{
  StepState, step_running, step_succeeded, step_failed, Span, SpanNode, SpanNodes, span_node,
  no_children, nil_child, child, span_of, TraceInfo,
}

abbrev pub ci_max_absolute_depth : ℕ
ci_max_absolute_depth = 1024

-- flatNode
pub record FlatNode : Type 0 where
  pub node : Span
  pub depth : ℕ
  pub parent_id : String

-- strings.HasPrefix
unfoldable pub has_prefix : String → String → Bool
has_prefix s String.[] = true
has_prefix String.[] (String.◌∷◌ d p) = false
has_prefix (String.◌∷◌ c s) (String.◌∷◌ d p) = code c == code d && has_prefix s p

abbrev pub internal_span_prefixes : List String
internal_span_prefixes =
    "GET " ∷ "POST " ∷ "PUT " ∷ "DELETE " ∷ "PATCH " ∷ "HEAD " ∷ "OPTIONS " ∷ "Read " ∷ "Write "
    ∷ "Query." ∷ "Address." ∷ "parsing " ∷ []

unfoldable pub has_any_prefix : String → List String → Bool
unfolding has_prefix
has_any_prefix name [] = false
has_any_prefix name (p ∷ ps) = has_prefix name p || has_any_prefix name ps

-- isInternalSpanName
unfoldable pub is_internal_span_name : String → Bool
unfolding has_any_prefix
is_internal_span_name name =
    if has_any_prefix name internal_span_prefixes then true else str_eq name "connect"

-- the clamp at the head of flattenTrace
unfoldable pub clamp_depth : ℤ → ℕ
clamp_depth (negsuc n) = ci_max_absolute_depth
clamp_depth (pos n) = if n == 0 || ltb ci_max_absolute_depth n then ci_max_absolute_depth else n

-- what the walk has gathered
pub record Walk : Type 0 where
  pub flat : List FlatNode
  pub seen : List String
  pub attribution : Map String

abbrev pub snoc {ℓ} : {A : Type ℓ} → List A → A → List A
snoc [] x = x ∷ []
snoc (y ∷ ys) x = y ∷ snoc ys x

-- a span that is folded into its owner
abbrev pub folded : Span → String → Walk → Walk
folded n owner w = record w {
  seen = n.span_id ∷ w.seen;
  attribution = put w.attribution n.span_id owner;
}

-- a span that is emitted
abbrev pub emitted : Span → ℕ → String → Walk → Walk
emitted n depth owner w = record w {
  flat = snoc w.flat (record { node = n; depth = depth; parent_id = owner });
  seen = n.span_id ∷ w.seen;
  attribution = put w.attribution n.span_id n.span_id;
}

-- what the walk does with a span before its children
pub data Visit : Type 0 where
  through skipped too_deep internal shown : Visit

unfoldable pub visit_of : ℕ → Span → ℕ → Walk → Visit
unfolding is_internal_span_name
visit_of max_depth n depth w =
    if str_eq n.span_id ""
    then through
    else if elem n.span_id w.seen
    then skipped
    else if ltb 0 max_depth && ltb max_depth depth
    then too_deep
    else if ltb 0 depth && is_internal_span_name n.name
    then internal
    else shown

-- the closure `walk`, and its loop over the children
unfoldable mutual
  unfolding visit_of

  pub walk : ℕ → SpanNode → ℕ → String → Walk → Walk
  walk max_depth (span_node n ns) depth owner w = elim (visit_of max_depth n depth w) [
    | through ↦ walk_each max_depth ns depth owner w
    | skipped ↦ w
    | too_deep ↦ folded n owner w
    | internal ↦ walk_each max_depth ns depth owner (folded n owner w)
    | shown ↦ walk_each max_depth ns (depth + 1) n.span_id (emitted n depth owner w)
  ]

  pub walk_each : ℕ → SpanNodes → ℕ → String → Walk → Walk
  walk_each max_depth no_children depth owner w = w
  walk_each max_depth (nil_child ns) depth owner w = walk_each max_depth ns depth owner w
  walk_each max_depth (child n ns) depth owner w =
      walk_each max_depth ns depth owner (walk max_depth n depth owner w)

abbrev pub no_walk : Walk
no_walk = record { flat = []; seen = []; attribution = empty }

-- flattenTrace
unfoldable pub flatten_trace : Option SpanNode → ℤ → List FlatNode × Map String
unfolding clamp_depth walk
flatten_trace none max_depth = ([], empty)
flatten_trace (some root) max_depth =
    let w = walk (clamp_depth max_depth) root 0 "" no_walk in
    if str_eq (span_of root).span_id "" then ([], empty) else (w.flat, w.attribution)

-- stepStateForStatus
unfoldable pub step_state_for_status : String → StepState
step_state_for_status status =
    if str_eq status "success"
    then step_succeeded
    else if str_eq status "failed"
    then step_failed
    else step_running

-- terminalStatus, `none` where the trace has not ended
unfoldable pub terminal_status : TraceInfo → Option String
terminal_status trace =
    let root_status : String = elim trace.root_span [
      | none ↦ ""
      | some root ↦ (span_of root).status
    ] in
    if str_eq root_status "success"
    then some "success"
    else if str_eq root_status "failed"
    then some "failed"
    else if str_eq trace.status "success" || str_eq trace.status "failed"
    then some trace.status
    else if str_eq trace.status "canceled"
    then some "canceled"
    else none

-- `n.Attributes[k]`
abbrev attribute : Span → String → String
attribute n k = elim (get n.attributes k) [ none ↦ "" | some v ↦ v ]

-- failureReason of a span
unfoldable pub failure_reason_of : Span → String
failure_reason_of n =
    if not_empty (attribute n "error")
    then attribute n "error"
    else if not_empty (attribute n "error.message")
    then attribute n "error.message"
    else if not_empty (attribute n "status.message")
    then attribute n "status.message"
    else attribute n "failure_reason"
  where
    not_empty : String → Bool
    not_empty s = ltb 0 (text_length s)

-- failureReason
unfoldable pub failure_reason : Option SpanNode → String
unfolding failure_reason_of
failure_reason none = ""
failure_reason (some (span_node n ns)) = failure_reason_of n

-- strings.Join with a single space
unfoldable pub join_spaces : List String → String
join_spaces [] = ""
join_spaces (x ∷ []) = x
join_spaces (x ∷ y ∷ xs) = x ++ " " ++ join_spaces (y ∷ xs)

-- normalizeStepName
unfoldable pub normalize_step_name : (String → List String) → String → String → String
unfolding join_spaces
normalize_step_name fields name id =
    let joined = join_spaces (fields name) in
    if ltb 0 (text_length joined)
    then joined
    else if str_eq id ""
    then "step"
    else "step-" ++ (if leb 8 (text_length id) then text_take 8 id else id)
