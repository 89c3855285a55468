-- ===== src/Lib.antt =====
-- The supervisor of dagger-kubernetes: the replicated state machine behind its repositories, the
-- pod-local session leases, the admission quota, the limiter of failed logins, the services that fail
-- abandoned runs and purge old ones, and the stream of CI events that the wrapper makes of a trace.
--
-- Parts and files. The supervisor's pods share one state through Raft. A service proposes a command;
-- `FSM.Apply` (internal/repository/fsm.go) decodes each committed entry and changes the replica, and
-- the repositories read the replica.
-- - Domain models internal/domain: users, groups, projects, tokens, traces, leases and the sentinel
--   errors.
-- - Fsm models fsm.go. Fsm/State is fsmState; Fsm/Users, Groups, Projects, Tokens, Members and Traces
--   have one function for each method on their maps (upsertUser is upsert_user, and so on);
--   Fsm/Cascade has those that change several maps (deleteUser, deleteGroup, setMembers); Fsm/Command
--   has the kinds and payloads; Fsm/Apply the three handlers, applyCommand, Apply and the replay of a
--   log. Fsm/Reads and Fsm/Queries have the reads and the listings. The Index modules, Members/Edges,
--   Members/Linked and Fsm/Invariant are about the invariant of the replica, Fsm/Behaviour about what
--   the commands do.
-- - Fsm/Snapshot models internal/repository/fsm_snapshot.go.
-- - Session models internal/service/session.go. The replica drives it through its session sink
--   (upsert_session and touch_session).
-- - Quota models internal/service/quota_service.go, over the group repository and the leases of the
--   session store; the identity that it is given is not nil, and a group's limit is not negative
--   (the group service refuses one).
-- - Limiter models the attemptLimiter of internal/handler/ratelimit.go.
-- - Pipeline is the life of a run. Pipeline/Repo models internal/repository/tracemeta_repo.go and the
--   Provision and MarkFailed of internal/service/attribution_service.go, and Pipeline/Attribution its
--   Ingest, with what it calls of internal/service/project_service.go; Pipeline/Lifecycle models
--   internal/service/pipeline_lifecycle.go; Pipeline/Schedule runs its critical sections, timer
--   callbacks and delayed calls as events in any order, and Pipeline/Timers, Marking and Swept are
--   about them; Pipeline/History models internal/service/history_purge.go. They drive the replica
--   through the repository, and the sweep reads the leases of the session store.
-- - Steps models internal/service/ci_steps.go: Steps/Flatten the flat list of a span tree, Steps/Logs
--   the log chunks and the watermark, Steps/Builder the events, Advance and Finalize. Steps/Protocol,
--   Stream, Closing, Adds and Numbered are about the stream over any sequence of calls, Steps/Idempotent
--   about a snapshot that comes again, Steps/Fuel about the recursion of emitTree, Steps/Walked,
--   Reached, Sound and Flat about the walk of flattenTrace.
-- - Mapping models internal/service/group_mapper.go and internal/service/project_mapper.go.
-- - Prelude and Maps are shared: Boolean tests, lists, sorting, and Go's maps. Examples applies the
--   theorems to a small replica.
--
-- Conventions. A Go map is an association list, and a `range` visits it in the list's order, which the
-- sorts of the listings then fix; a set is a map into the unit type. A time or a duration is a natural
-- number of nanoseconds, 0 being Go's zero time, and an operation that reads the clock takes the time
-- as an argument. `now.Sub(t) > d` is a subtraction that stops at 0, which gives the same answer as the
-- signed one since the bound is not negative. A lock is held for the whole of an operation, so that the
-- operation is one step on the state; PipelineLifecycle, which lets its lock go before it calls
-- markFailed, is taken apart into events. A nil dereference is a result of its own. Counters are natural
-- numbers without a bound: a count of failed logins or of tunnels does not come near 2^63, and the
-- lockout's shift is cut at 16. A Go string of the pipeline and of the steps is a sequence of bytes,
-- one character for each. A proposed command is applied, lost, or applied after its caller has given
-- up. All recursion is structural, but for the recursive closure of emitTree, which runs on fuel: the
-- length of the flat list, which is enough since a child stands after its parent.
--
-- Parameters. `StepEnv` holds `strings.Fields`, the clock and the order of `range` over a map;
-- `SweepEnv`, `PurgeEnv` and `IngestEnv` say when a context ends, what becomes of each command, and which deletions
-- in the telemetry stores succeed; `Regexp` is the package regexp; `lower` is `strings.ToLower`;
-- `Codec` is `json.Unmarshal` into each payload type, where `none` is a decode error. Nothing is
-- assumed of them unless a theorem says so. A log is admissible when every user that a command upserts
-- has a name and a new token's id is not the id of another user's token, which the services that
-- propose the commands see to.
--
-- Not modelled: consensus itself and its transport (hashicorp/raft); the JSON text of commands and
-- snapshots, and the text of error messages; the other services (authentication, the checks before a
-- command is proposed, the cache purge, the renderers, versions,
-- the fleet); the HTTP handlers, Kubernetes, the object and telemetry stores and the certificates,
-- which are input and output around these parts.
pub mod Prelude
pub mod Maps
pub mod Domain
pub mod Session
pub mod Fsm
pub mod Limiter
pub mod Quota
pub mod Pipeline
pub mod Steps
pub mod Mapping
mod Examples
