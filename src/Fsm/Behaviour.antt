-- ===== src/Fsm/Behaviour.antt =====
-- What the commands of the replica do, seen through its reads.
pub mod Atomic
pub mod Deletes
pub mod Tokens
pub mod Members
pub mod Users
pub mod Kinds
pub mod Panics
pub mod Status
pub mod Finished
