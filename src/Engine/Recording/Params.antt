-- ===== src/Engine/Recording/Params.antt =====
-- The parameters, results and messages of a recording, and when notes can be made of it:
-- crates/panops-protocol/src/methods.rs and crates/panops-engine/src/server/handlers.rs.
use panops.Base.{
  Bool, List, Option, Result, Text, [], codes, decimal, err, if◌then◌else◌, none, ok, some, text_eq,
  trim, ℕ, ◌++◌, ◌||◌,
}
use panops.Storage.{Meeting, StorageError}
use panops.Protocol.{IpcError, kind_name}
use panops.Capture.{AudioSources, CaptureConfig, CaptureTarget}
use panops.Engine.Paths.{Disk}

pub record RecordingStartParams : Type 0 where
  pub meeting_id : Text
  pub audio_sources : AudioSources
  pub record_video : Bool
  pub auto_generate_notes : Bool
  pub screenshot_interval_ms : ℕ
  pub screenshot_threshold : ℕ
  pub capture_target : CaptureTarget
  pub width : Option ℕ
  pub height : Option ℕ

-- `CaptureConfig::from`; the types of the wire are those of the domain.
unfoldable pub config_of : RecordingStartParams → CaptureConfig
config_of params = record {
  audio_sources = params.audio_sources;
  record_video = params.record_video;
  screenshot_interval_ms = params.screenshot_interval_ms;
  screenshot_threshold = params.screenshot_threshold;
  capture_target = params.capture_target;
  width = params.width;
  height = params.height;
}

pub record RecordingStopped : Type 0 where
  pub system_audio_path : Option Text
  pub mic_audio_path : Option Text
  pub screenshot_paths : List Text
  pub duration_ms : ℕ
  pub notes_job_id : Option Text

pub data NotesDialect : Type 0 where
  notion_enhanced basic : NotesDialect

pub record NotesGenerateParams : Type 0 where
  pub audio : Text
  pub dialect : Option NotesDialect
  pub llm_provider : Option Text
  pub llm_model : Option Text
  pub no_diarize : Option Bool
  pub language : Option Text
  pub meeting_id : Option Text

-- What the lock of the heavy adapters holds.
pub data Heavy : Type 0 where
  warming_up ready : Heavy
  init_failed : Text → Heavy

pub record ExtractPlan : Type 0 where
  pub sidecar_binary : Text
  pub mov_path : Text
  pub screenshots_dir : Text
  pub interval_ms : ℕ
  pub threshold : ℕ

-- Around the methods: the disk, the data directory, the adapters' readiness, the provider's name,
-- the sidecar and what it extracts, and a new id for a job.
pub record Surroundings : Type 0 where
  pub disk : Disk
  pub data_dir : Text
  pub heavy : Heavy
  pub provider : Text
  pub sidecar_binary : Option Text
  pub extract : ExtractPlan → Result Text (List Text)
  pub job_id : Text

-- `e.to_string()` of a storage error.
abbrev pub storage_message : StorageError → Text
storage_message (StorageError.not_found id kind) = kind_name kind ++ (codes " not found: " ++ id)
storage_message (StorageError.already_exists id kind) =
    kind_name kind ++ (codes " already exists: " ++ id)
storage_message (StorageError.unique_conflict kind field value) =
    kind_name kind ++ (codes "." ++ (field ++ (codes " already in use: " ++ value)))
storage_message (StorageError.schema_mismatch actual expected) =
    codes "storage schema mismatch: actual "
    ++ (decimal actual ++ (codes ", expected " ++ decimal expected))
storage_message (StorageError.io e) = codes "io: " ++ e
storage_message (StorageError.sql m) = codes "sql: " ++ m

-- `e.to_string()` of an error on the wire.
abbrev pub ipc_message : IpcError → Text
ipc_message (IpcError.input_not_found path) = codes "input not found: " ++ path
ipc_message (IpcError.invalid_input m) = codes "invalid input: " ++ m
ipc_message (IpcError.provider_unavailable m) = codes "provider unavailable: " ++ m
ipc_message (IpcError.internal m) = codes "internal: " ++ m
ipc_message IpcError.cancelled = codes "cancelled"
ipc_message IpcError.unknown = codes "unknown error kind (forward-compat fallback)"

unfoldable pub auto_notes_compute_available : Surroundings → Result Text (Unit {0})
auto_notes_compute_available around =
    if text_eq (trim around.provider) []
    then err (codes "resolved LLM provider is empty")
    else elim around.heavy [
      | ready ↦ ok tt
      | init_failed m ↦ err (codes "heavy adapter init failed: " ++ m)
      | warming_up ↦ err (codes "engine AI adapters are still warming up")
    ]

-- The language of the meeting as a hint, none where it is left open or cannot be read.
unfoldable pub language_hint : Result StorageError Meeting → Option Text
language_hint (err e) = none
language_hint (ok m) =
    if text_eq (trim m.language) [] || text_eq m.language (codes "auto")
    then none
    else some m.language

abbrev pub or_else {ℓ} : {A : Type ℓ} → Option A → Option A → Option A
or_else none b = b
or_else (some a) b = some a

abbrev pub auto_params : Text → Text → Result StorageError Meeting → NotesGenerateParams
auto_params meeting_id audio row = record {
  audio = audio;
  dialect = none;
  llm_provider = none;
  llm_model = none;
  no_diarize = none;
  language = language_hint row;
  meeting_id = some meeting_id;
}
