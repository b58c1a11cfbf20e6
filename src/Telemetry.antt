-- ===== src/Telemetry.antt =====
-- internal/telemetry/genai.go: the metrics and spans of requests.
pub mod Instruments
pub mod Attributes
pub mod Recorder
pub mod History
pub mod Provider
mod Tests
