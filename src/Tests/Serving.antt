-- ===== src/Tests/Serving.antt =====
-- The theorems on the engine at concrete inputs.
use panops.Base.{
  List, Text, [], codes, err, false, none, ok, refl, some, text_eq, true, ◌∷◌, ◌≡◌, ◌⊎◌, insert,
  lookup, remove, ◌≤◌,
}
use panops.Storage.{MeetingDraft, StorageError}
use panops.Storage.Memory.{Inner, new}
use panops.Storage.Memory.Meetings.{create_meeting}
use panops.Storage.Port.Kept.{in_memory, in_memory-IsLawful}
use panops.Protocol.{IpcError}
use panops.Protocol.Hiding.{storage_error, to_ipc, to_ipc-hides}
use panops.Capture.{display, system_and_mic}
use panops.Capture.Fake.{
  Studio, finish, start_capture, stop_capture, track, write_screenshots, write_sine_wav,
}
use panops.Capture.Port.{fake_capture}
use panops.Base.{contains_key, values, trim, decimal, lookup, remove, insert}
use panops.Storage.Memory.Meetings.{get_meeting}
use panops.Capture.{target_eq}
use panops.Notes.RawTranscript.{padded}
use panops.Engine.Jobs.{
  accept, acquire, from_outside, is_new, Inside, Pool, from_outside, is_new,
  max_concurrent_notes_jobs, new_pool, running, waiting,
}
use panops.Engine.Jobs.Counting.{accepted_as, ended_as, in_progress, work}
use panops.Engine.Jobs.Settling.{further, still, IsSettled, further, jobs-settle, still}
use panops.Engine.Paths.{validate_meeting_dir, validate_resolved}
use panops.Engine.Paths.{
  Answer, Disk, allowed_root, canonical_root, component, is_absolute, join, starts_with,
}
use panops.Engine.Meetings.{Server, meeting_delete, meeting_start}
use panops.Engine.Meetings.Deleting.{Deleted, meeting_delete-StaysInRoot}
use panops.Engine.Meetings.Starting.{NotStarted, Started, meeting_start-Cleans}
use panops.Engine.Recording.{
  Engine, recording_start, recording_stop, after_stop, enqueue_notes_job, maybe_enqueue_auto_notes,
  screenshots_of,
}
use panops.Engine.Recording.Params.{
  RecordingStartParams, RecordingStopped, Surroundings, ready, auto_notes_compute_available,
  config_of,
}
use panops.Engine.Recording.AutoNotes.{NotQueued, Queued, recording_stop-Queued}
use panops.Engine.Recording.Refines.{
  Follows, Request, new_engine, replies, replies-Follows, request_start, request_stop,
}

-- A query is not seen.
to_ipc-hides_example :
    to_ipc (storage_error (StorageError.sql (codes "near SELECT")))
    ≡ to_ipc (storage_error (StorageError.sql (codes "no such table")))
to_ipc-hides_example = to_ipc-hides _ _ refl

abbrev pub data_dir : Text
data_dir = codes "/data"

-- Everything exists and is where it seems to be.
abbrev pub plain_disk : Disk
plain_disk = record {
  exists = λ p. true;
  canonicalize = λ p. some p;
  create_dir_all = λ p. true;
  remove_dir_all = λ p. true;
  write = λ p. true;
  rename = λ p q. true;
  metadata = λ p. Answer.found 7;
  remove_file = λ p. Answer.found 7;
}

abbrev pub kickoff : MeetingDraft
kickoff = record {
  id = codes "m7";
  title = codes "Kickoff";
  started_at = codes "2026-06-07T10:00:00+00:00";
  language = codes "es";
  dir_path = codes "/data/meetings/m7";
}

abbrev pub stored : Inner
stored = (create_meeting kickoff new).1

abbrev pub server : Server in_memory
server = record { storage = stored; effects = [] }

meeting_delete-StaysInRoot_example :
    let r = meeting_delete in_memory plain_disk data_dir (codes "m7") server in
    ((r.0 ≡ ok tt)
      × Deleted in_memory in_memory-IsLawful plain_disk data_dir (codes "m7") server r.1)
    ⊎ ((e : IpcError) × (r.0 ≡ err e) × (r.1 ≡ server))
meeting_delete-StaysInRoot_example =
    meeting_delete-StaysInRoot in_memory in_memory-IsLawful plain_disk data_dir (codes "m7") server

meeting_start-Cleans_example :
    let r =
      meeting_start in_memory plain_disk data_dir (codes "m8") (codes "now") none none server in
    ((r.0 ≡ ok (codes "m8"))
      × Started in_memory in_memory-IsLawful plain_disk data_dir plain_disk (codes "m8") server r.1)
    ⊎ ((e : IpcError) × (r.0 ≡ err e)
        × NotStarted in_memory in_memory-IsLawful plain_disk data_dir (codes "m8") server r.1)
unfolding join starts_with is_absolute allowed_root canonical_root component text_eq
meeting_start-Cleans_example =
    meeting_start-Cleans in_memory in_memory-IsLawful plain_disk data_dir plain_disk (codes "m8")
      (codes "now") none none server refl (λ there. (codes "/data/meetings/m8", refl, refl))

abbrev studio : Studio
studio = record {
  now_ms = ok 5000;
  write_wav = λ path ms. none;
  create_dir_all = λ path. none;
  write = λ path. none;
  debug = λ t. codes "Display";
}

abbrev around : Surroundings
around = record {
  disk = plain_disk;
  data_dir = data_dir;
  heavy = ready;
  provider = codes "ollama";
  sidecar_binary = none;
  extract = λ plan. ok [];
  job_id = codes "j1";
}

abbrev params : RecordingStartParams
params = record {
  meeting_id = codes "m7";
  audio_sources = system_and_mic;
  record_video = false;
  auto_generate_notes = true;
  screenshot_interval_ms = 500;
  screenshot_threshold = 0;
  capture_target = display 0;
  width = none;
  height = none;
}

abbrev requests : List Request
requests =
    request_start around params
    ∷ request_stop around (codes "m7")
    ∷ request_stop around (codes "m7")
    ∷ []

replies-Follows_example :
    Follows
      (λ id. false)
      requests
      (replies in_memory
        (fake_capture studio)
        requests
        (new_engine in_memory (fake_capture studio) stored []))
replies-Follows_example = replies-Follows in_memory (fake_capture studio) stored [] requests

abbrev idle_engine : Engine in_memory (fake_capture studio)
idle_engine = new_engine in_memory (fake_capture studio) stored []

abbrev recorded : RecordingStopped
recorded = record {
  system_audio_path = some (codes "/data/meetings/m7/system.wav");
  mic_audio_path = some (codes "/data/meetings/m7/mic.wav");
  screenshot_paths =
      codes "/data/meetings/m7/screenshots/001.jpg"
      ∷ codes "/data/meetings/m7/screenshots/002.jpg"
      ∷ codes "/data/meetings/m7/screenshots/003.jpg"
      ∷ [];
  duration_ms = 1000;
  notes_job_id = some (codes "j1");
}

recording_stop-Queued_example :
    let e' = (recording_start in_memory (fake_capture studio) around params idle_engine).1 in
    let stop = recording_stop in_memory (fake_capture studio) around (codes "m7") e' in
    NotQueued in_memory (fake_capture studio) around true [] recorded stop.1.jobs
    ⊎ Queued in_memory (fake_capture studio) around (codes "m7") true stored [] recorded stop.1.jobs
unfolding recording_start recording_stop validate_meeting_dir validate_resolved join starts_with
    is_absolute allowed_root canonical_root component text_eq start_capture stop_capture finish
    track write_screenshots write_sine_wav after_stop maybe_enqueue_auto_notes enqueue_notes_job
    auto_notes_compute_available screenshots_of lookup remove insert get_meeting create_meeting
    contains_key values target_eq config_of padded trim decimal
recording_stop-Queued_example =
    recording_stop-Queued in_memory (fake_capture studio) around around params idle_engine
      (codes "m7") recorded refl refl

abbrev one_job : Pool Text
one_job = record { jobs = (codes "j1", waiting) ∷ []; free = 2; closed = false; events = [] }

abbrev one_running : Pool Text
one_running = record { jobs = (codes "j1", running) ∷ []; free = 1; closed = false; events = [] }

jobs-settle_example :
    (1 ≤ work one_job.jobs)
    × (in_progress one_running.jobs ≤ max_concurrent_notes_jobs)
    × ((id : Text) → ended_as Text id one_running.events ≤ accepted_as id one_running.jobs)
    × (IsSettled Text one_running ⊎ ((r : Pool Text) × Inside Text one_running r))
jobs-settle_example =
    jobs-settle Text {p = one_job} {q = one_running} {n = 1}
      (from_outside is_new (accept (new_pool Text) (codes "j1")))
      (further still (acquire one_job [] [] (codes "j1") 1 refl refl refl))
