-- ===== src/Engine.antt =====
-- The engine's server: crates/panops-engine/src/server.
pub mod Paths
pub mod Meetings
pub mod Recording
pub mod Jobs
pub mod Transcribing
pub mod Pipeline
