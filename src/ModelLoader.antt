-- ===== src/ModelLoader.antt =====
-- internal/plugins/modelloader/loader.go: loading a model on the pod that a request is sent to.
pub mod Types
pub mod Query
pub mod Request
pub mod Steps
pub mod Flight
pub mod Retract
mod Tests
