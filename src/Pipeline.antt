-- ===== src/Pipeline.antt =====
-- The life of a pipeline run as the supervisor sees it: TraceMetaRepo of
-- internal/repository/tracemeta_repo.go, and the services that drive it, attribution_service.go,
-- pipeline_lifecycle.go and history_purge.go of internal/service.
pub mod Repo
pub mod Lifecycle
pub mod Timers
pub mod Schedule
pub mod Marking
pub mod Swept
pub mod History
pub mod Attribution
