-- ===== src/ModelTracker.antt =====
-- internal/modeltracker/tracker.go: which models are loaded on which llama-server pod.
pub mod Types
pub mod State
pub mod Query
pub mod Dedup
pub mod Poll
pub mod History
mod Tests
