-- ===== src/Fsm.antt =====
-- The replicated state machine, internal/repository/fsm.go. Its operations and proofs are in the
-- modules below.
pub mod State
pub mod Users
pub mod Groups
pub mod Projects
pub mod Tokens
pub mod Members
pub mod Traces
pub mod Cascade
pub mod Command
pub mod Apply
pub mod Invariant
pub mod Reads
pub mod Snapshot
pub mod Queries
pub mod Behaviour
