-- ===== src/Vram.antt =====
-- internal/vram: the video memory of the nodes, and internal/plugins/scorer: the scores from it.
pub mod Types
pub mod Scraper
pub mod Discovery
pub mod Tracker
pub mod Instrumentation
pub mod Service
pub mod Scorer
mod Tests
