-- ===== src/Engine/Recording.antt =====
-- `recording.start` and `recording.stop` of crates/panops-engine/src/server/handlers.rs, over any
-- storage and any capture adapter, on macOS. A method runs alone: no other changes the tables
-- between its locks. A look at the storage leaves it as it is, and what it leaves is not passed on.
pub mod Params
pub mod Refines
pub mod AutoNotes
use panops.Base.{
  Bool, Dict, List, Option, Result, Text, [], codes, decimal, err, false, if◌then◌else◌, insert,
  lookup, none, not, ok, remove, some, text_eq, trim, ℕ, ◌++◌, ◌>>=◌, ◌||◌, ◌∷◌,
}
use panops.Storage.{Meeting, StorageError}
use panops.Storage.Port.{StoragePort}
use panops.Protocol.{IpcError, from_storage, from_capture, kind_name, sidecar}
use panops.Capture.{AudioSources, CaptureConfig, CaptureResult, CaptureSession, CaptureTarget}
use panops.Capture.Port.{CapturePort}
use panops.Engine.Paths.{Disk, join, validate_meeting_dir}
use panops.Engine.Recording.Params.{
  ExtractPlan, Heavy, NotesDialect, NotesGenerateParams, RecordingStartParams, RecordingStopped,
  Surroundings, auto_notes_compute_available, auto_params, basic, config_of, init_failed,
  ipc_message, language_hint, notion_enhanced, or_else, ready, storage_message, warming_up,
}

module _ (P : StoragePort) (C : CapturePort) where
  -- The engine's state that recordings use, with the adapters' own. `jobs` are the notes jobs that
  -- were enqueued, the latest first.
  pub record Engine : Type 0 where
    pub storage : P.State
    pub capture : C.State
    pub sessions : Dict CaptureSession
    pub auto_notes : Dict Bool
    pub jobs : List (Text × NotesGenerateParams)

  unfoldable pub resolve_extract_plan :
      Surroundings → Text → CaptureSession → P.State → Result Text ExtractPlan
  resolve_extract_plan around meeting_id session storage =
      elim (P.get_meeting meeting_id storage).0 [
        | err e ↦ err (codes "storage lookup failed: " ++ storage_message e)
        | ok m ↦ elim (validate_meeting_dir around.disk around.data_dir m.dir_path) [
          | err e ↦ err (codes "meeting dir validation failed: " ++ ipc_message e)
          | ok meeting_dir ↦
              let mov_path = join meeting_dir (codes "recording.mov") in
              if not (around.disk.exists mov_path)
              then err (
                  codes "recording.mov missing at "
                  ++ (mov_path
                      ++ (b' '
                          ∷ 0xE2
                          ∷ 0x80
                          ∷ 0x94
                          ∷ codes " video writer did not produce output")))
              else elim around.sidecar_binary [
                | none ↦ err (
                    codes
                      "panops-capture-mac sidecar binary not resolvable (PANOPS_CAPTURE_SIDECAR_BIN unset"
                    ++ codes " and no packaged sibling)")
                | some sidecar_binary ↦ ok (record {
                  sidecar_binary = sidecar_binary;
                  mov_path = mov_path;
                  screenshots_dir = join meeting_dir (codes "screenshots");
                  interval_ms = session.screenshot_interval_ms;
                  threshold = session.screenshot_threshold;
                })
              ]
        ]
      ]

  unfoldable pub extract_screenshots_post_recording :
      Surroundings → Text → CaptureSession → P.State → Result Text (List Text)
  extract_screenshots_post_recording around meeting_id session storage =
      resolve_extract_plan around meeting_id session storage >>= λ plan. around.extract plan

  -- A failed extraction leaves no screenshots.
  unfoldable pub screenshots_of :
      Surroundings → Text → CaptureSession → CaptureResult → P.State → List Text
  screenshots_of around recording_id session result storage =
      if session.record_video
      then elim (extract_screenshots_post_recording around recording_id session storage) [
        | ok paths ↦ paths
        | err m ↦ []
      ]
      else result.screenshot_paths

  -- The two tables once the adapter has its session.
  abbrev pub recording : RecordingStartParams → CaptureSession → C.State → Engine → Engine
  recording params session capture e = record e {
    capture = capture;
    sessions = insert params.meeting_id session e.sessions;
    auto_notes = insert params.meeting_id params.auto_generate_notes e.auto_notes;
  }

  unfoldable pub recording_start :
      Surroundings → RecordingStartParams → Engine → Result IpcError Text × Engine
  recording_start around params e = elim (P.get_meeting params.meeting_id e.storage).0 [
    | err bad ↦ (err (from_storage bad), e)
    | ok m ↦ elim (validate_meeting_dir around.disk around.data_dir m.dir_path) [
      | err bad ↦ (err bad, e)
      | ok meeting_dir ↦
          let r = C.start_capture params.meeting_id meeting_dir (config_of params) e.capture in
          elim r.0 [
            | err bad ↦ (err (from_capture bad), record e { capture = r.1 })
            | ok session ↦ (ok params.meeting_id, recording params session r.1 e)
          ]
    ]
  ]

  unfoldable pub enqueue_notes_job : Surroundings → NotesGenerateParams → Engine → Text × Engine
  enqueue_notes_job around params e =
      (around.job_id, record e { jobs = (around.job_id, params) ∷ e.jobs })

  unfoldable pub maybe_enqueue_auto_notes :
      Surroundings → Text → RecordingStopped → Engine → Option Text × Engine
  maybe_enqueue_auto_notes around meeting_id stopped e =
      elim (auto_notes_compute_available around) [
        | err reason ↦ (none, e)
        | ok u ↦ elim (or_else stopped.system_audio_path stopped.mic_audio_path) [
          | none ↦ (none, e)
          | some audio ↦
              let params = auto_params meeting_id audio (P.get_meeting meeting_id e.storage).0 in
              let r = enqueue_notes_job around params e in (some r.0, r.1)
        ]
      ]

  abbrev pub stopped_of :
      Surroundings → Text → CaptureSession → CaptureResult → P.State → RecordingStopped
  stopped_of around recording_id session result storage = record {
    system_audio_path = result.system_audio_path;
    mic_audio_path = result.mic_audio_path;
    screenshot_paths = screenshots_of around recording_id session result storage;
    duration_ms = result.duration_ms;
    notes_job_id = none;
  }

  -- The step after the blocking part: `remove(..).unwrap_or(false)` was the flag.
  unfoldable pub after_stop :
      Surroundings
      → Text
      → Bool
      → RecordingStopped
      → Engine
      → Result IpcError RecordingStopped × Engine
  after_stop around recording_id auto_generate_notes stopped e =
      let r = maybe_enqueue_auto_notes around recording_id stopped e in
      if auto_generate_notes
      then (ok (record stopped { notes_job_id = r.0 }), r.1)
      else (ok stopped, e)

  abbrev pub flag : Option Bool → Bool
  flag none = false
  flag (some b) = b

  unfoldable pub recording_stop :
      Surroundings → Text → Engine → Result IpcError RecordingStopped × Engine
  recording_stop around recording_id e =
      let auto_generate_notes = flag (lookup recording_id e.auto_notes) in
      let e1 = record e {
        sessions = remove recording_id e.sessions;
        auto_notes = remove recording_id e.auto_notes;
      } in
      elim (lookup recording_id e.sessions) [
        | none ↦ (err (IpcError.input_not_found (codes "session/" ++ recording_id)), e1)
        | some session ↦
            let r = C.stop_capture session e.capture in
            let e2 = record e1 { capture = r.1 } in
            elim r.0 [
              | err bad ↦ (err (from_capture bad), e2)
              | ok result ↦
                  let stopped = stopped_of around recording_id session result e.storage in
                  after_stop around recording_id auto_generate_notes stopped e2
            ]
      ]
