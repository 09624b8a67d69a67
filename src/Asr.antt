-- ===== src/Asr.antt =====
-- The ASR port of crates/panops-core/src/asr.rs and the recursion on top of it.
pub mod Recursive
pub mod Regions
use panops.Base.{Bool, List, Option, Result, Text, ℕ}
use panops.Transcript.{Transcript}

pub data AsrError : Type 0 where
  invalid_audio model transcription io audio_not_found : Text → AsrError

-- `AsrProvider`: an adapter's answer to samples, a sample rate and a language hint.
pub record AsrProvider : Type 0 where
  pub transcribe : List ℕ → ℕ → Option Text → Result AsrError Transcript
  pub is_fake : Bool
