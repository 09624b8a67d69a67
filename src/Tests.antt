-- ===== src/Tests.antt =====
-- The theorems at concrete inputs, and small runs of the definitions.
mod Samples
mod Stores
mod Contents
mod Sections
mod Diarized
mod Texts
mod Times
mod Words
mod RawLines
pub mod Serving
mod Jobs
mod Exported
mod Downloads
