-- ===== src/Transcript.antt =====
-- The data that the components exchange: crates/panops-core/src/segment.rs and diar.rs.
-- An `f32` is its bit pattern; a text is its bytes.
pub mod Float
use panops.Base.{Bool, List, Option, Text, ℕ}

pub record Segment : Type 0 where
  pub start_ms : ℕ
  pub end_ms : ℕ
  pub text : Text
  pub language_detected : Option Text
  pub confidence : ℕ
  pub speaker_id : Option ℕ

pub record Transcript : Type 0 where
  pub schema_version : ℕ
  pub model : Text
  pub audio_path : Text
  pub audio_duration_ms : ℕ
  pub diarized : Bool
  pub segments : List Segment

abbrev pub schema_version : ℕ
schema_version = 2

pub record SpeakerTurn : Type 0 where
  pub start_ms : ℕ
  pub end_ms : ℕ
  pub speaker_id : ℕ
