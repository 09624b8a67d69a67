-- ===== src/Notes.antt =====
-- The notes pipeline of crates/panops-core/src/notes, stage by stage.
pub mod Topics
pub mod Anchoring
pub mod Chunking
pub mod Verifier
pub mod Budget
pub mod Sections
pub mod RawTranscript
pub mod Summaries
