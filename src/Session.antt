-- ===== src/Session.antt =====
-- The pod-local session leases, internal/service/session.go.
pub mod Store
pub mod Leases
pub mod Reaping
