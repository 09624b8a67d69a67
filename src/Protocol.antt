-- ===== src/Protocol.antt =====
-- The wire protocol's errors: crates/panops-protocol/src/error.rs, and the errors of the ports that
-- they are made from. An `io::Error` is the text it shows.
pub mod Hiding
use panops.Asr.{AsrError}
use panops.Base.{Text, all, codes, decimal, ℕ, ◌++◌}
use panops.Storage.{Kind, StorageError, meeting, note, project, space, tag}
use panops.MeetingStore.{MeetingStoreError}
use panops.Notes.Sections.{LlmError}

pub data IpcError : Type 0 where
  input_not_found : Text → IpcError
  invalid_input : Text → IpcError
  provider_unavailable : Text → IpcError
  internal : Text → IpcError
  cancelled : IpcError
  unknown : IpcError

pub data DiarError : Type 0 where
  audio_not_found invalid_audio model diarization io : Text → DiarError

pub data NotesError : Type 0 where
  empty_transcript : NotesError
  llm : LlmError → NotesError
  llm_unavailable : ℕ → ℕ → Text → NotesError
  schema_mismatch : Text → Text → NotesError
  invalid_input : Text → NotesError

pub data ExportError : Type 0 where
  io invalid_dest render : Text → ExportError

pub data VadError : Type 0 where
  model invalid_audio io : Text → VadError

pub data CaptureError : Type 0 where
  permission_denied capture io sidecar session_not_found invalid_config : Text → CaptureError

unfoldable pub from_asr : AsrError → IpcError
from_asr (AsrError.audio_not_found p) = IpcError.input_not_found p
from_asr (AsrError.invalid_audio m) = IpcError.invalid_input m
from_asr (AsrError.model m) = IpcError.internal m
from_asr (AsrError.transcription m) = IpcError.internal m
from_asr (AsrError.io e) = IpcError.internal e

unfoldable pub from_diar : DiarError → IpcError
from_diar (DiarError.audio_not_found p) = IpcError.input_not_found p
from_diar (DiarError.invalid_audio m) = IpcError.invalid_input m
from_diar (DiarError.model m) = IpcError.internal m
from_diar (DiarError.diarization m) = IpcError.internal m
from_diar (DiarError.io e) = IpcError.internal e

unfoldable pub from_llm : LlmError → IpcError
from_llm (LlmError.network m) = IpcError.provider_unavailable m
from_llm (LlmError.provider m) = IpcError.provider_unavailable m
from_llm (LlmError.invalid_schema expected got) =
    IpcError.internal (codes "schema mismatch: expected " ++ expected ++ codes ", got " ++ got)
from_llm LlmError.empty_response = IpcError.provider_unavailable (codes "empty LLM response")
from_llm LlmError.cancelled = IpcError.cancelled

unfoldable pub from_notes : NotesError → IpcError
unfolding from_llm
from_notes NotesError.empty_transcript = IpcError.invalid_input (codes "empty transcript")
from_notes (NotesError.llm e) = from_llm e
from_notes (NotesError.llm_unavailable failed total last_error) = IpcError.provider_unavailable (
    codes "notes LLM unavailable: all "
    ++ decimal failed
    ++ codes " of "
    ++ decimal total
    ++ codes " section generation calls failed ("
    ++ last_error
    ++ codes ")")
from_notes (NotesError.schema_mismatch stage detail) =
    IpcError.internal (codes "schema mismatch in stage " ++ stage ++ codes ": " ++ detail)
from_notes (NotesError.invalid_input m) = IpcError.invalid_input m

unfoldable pub from_export : ExportError → IpcError
from_export (ExportError.invalid_dest d) =
    IpcError.invalid_input (codes "invalid export destination")
from_export (ExportError.io e) = IpcError.internal (codes "export failed")
from_export (ExportError.render m) = IpcError.internal (codes "export failed")

abbrev pub kind_name : Kind → Text
kind_name meeting = codes "meeting"
kind_name note = codes "note"
kind_name space = codes "space"
kind_name project = codes "project"
kind_name tag = codes "tag"

unfoldable pub from_storage : StorageError → IpcError
from_storage (StorageError.not_found id kind) =
    IpcError.input_not_found (kind_name kind ++ codes "/" ++ id)
from_storage (StorageError.already_exists id kind) =
    IpcError.invalid_input (kind_name kind ++ codes " already exists")
from_storage (StorageError.unique_conflict kind field value) =
    IpcError.invalid_input (kind_name kind ++ codes "." ++ field ++ codes " already in use")
from_storage (StorageError.schema_mismatch found expected) =
    IpcError.internal (codes "storage schema mismatch")
from_storage (StorageError.io e) = IpcError.internal (codes "storage io error")
from_storage (StorageError.sql e) = IpcError.internal (codes "storage error")

unfoldable pub from_vad : VadError → IpcError
from_vad (VadError.invalid_audio m) = IpcError.invalid_input m
from_vad (VadError.model m) = IpcError.internal (codes "vad model error")
from_vad (VadError.io e) = IpcError.internal (codes "vad io error")

unfoldable pub from_capture : CaptureError → IpcError
from_capture (CaptureError.permission_denied m) =
    IpcError.invalid_input (codes "permission denied: " ++ m)
from_capture (CaptureError.capture m) = IpcError.internal m
from_capture (CaptureError.io e) = IpcError.internal (codes "capture io error")
from_capture (CaptureError.sidecar m) = IpcError.internal m
from_capture (CaptureError.session_not_found id) = IpcError.input_not_found (codes "session/" ++ id)
from_capture (CaptureError.invalid_config m) = IpcError.invalid_input m

unfoldable pub from_meeting_store : MeetingStoreError → IpcError
from_meeting_store (MeetingStoreError.meeting_not_found meeting_id) =
    IpcError.input_not_found (codes "meeting/" ++ meeting_id)
from_meeting_store (MeetingStoreError.segment_not_found id) =
    IpcError.input_not_found (codes "segment/" ++ decimal id)
from_meeting_store (MeetingStoreError.screenshot_not_found id) =
    IpcError.input_not_found (codes "screenshot/" ++ decimal id)
from_meeting_store (MeetingStoreError.speaker_not_found id) =
    IpcError.input_not_found (codes "speaker/" ++ decimal id)
from_meeting_store (MeetingStoreError.io e) = IpcError.internal (codes "meeting store io error")
from_meeting_store (MeetingStoreError.sql e) = IpcError.internal (codes "meeting store error")
