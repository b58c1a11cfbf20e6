-- ===== src/Router.antt =====
-- internal/router/router.go: routing of requests to the node with the most free video memory, for each
-- replica of the processor.
pub mod Types
pub mod Discovery
pub mod Load
pub mod Lease
pub mod Steps
pub mod System
pub mod Mutex
pub mod Wait
mod Tests
