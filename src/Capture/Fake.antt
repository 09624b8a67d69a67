-- ===== src/Capture/Fake.antt =====
-- `FakeCapture` of crates/panops-core/src/conformance/fakes.rs: its sessions behind the lock, and
-- what the two methods do to them. The clock and the disk are arguments.
use panops.Base.{
  Bool, Dict, List, Option, Result, Text, [], codes, err, false, if◌then◌else◌, insert, lookup, max,
  none, not, ok, remove, some, true, ℕ, ◌++◌, ◌-◌, ◌>>=◌, ◌∷◌,
}
use panops.Protocol.{CaptureError}
use panops.Capture.{
  AudioSources, CaptureConfig, CaptureResult, CaptureSession, CaptureTarget, mic_only, system_only,
  target_eq,
}
use panops.Engine.Paths.{join}
use panops.Notes.RawTranscript.{padded}

pub record FakeCaptureSession : Type 0 where
  pub meeting_dir : Text
  pub started_at_ms : ℕ
  pub audio_sources : AudioSources
  pub record_video : Bool
  pub capture_target : CaptureTarget

-- The milliseconds since the epoch, or why there are none; what writing gives, an error or nothing;
-- and `{:?}` of a target.
pub record Studio : Type 0 where
  pub now_ms : Result Text ℕ
  pub write_wav : Text → ℕ → Option Text
  pub create_dir_all : Text → Option Text
  pub write : Text → Option Text
  pub debug : CaptureTarget → Text

abbrev pub Sessions : Type 0
Sessions = Dict FakeCaptureSession

abbrev pub clock : Studio → Result CaptureError ℕ
clock studio = elim studio.now_ms [ err e ↦ err (CaptureError.capture e) | ok ms ↦ ok ms ]

abbrev pub new_session : Text → ℕ → CaptureConfig → CaptureSession
new_session meeting_id started_at_ms config = record {
  meeting_id = meeting_id;
  started_at_ms = started_at_ms;
  capture_target = config.capture_target;
  record_video = config.record_video;
  screenshot_interval_ms = config.screenshot_interval_ms;
  screenshot_threshold = config.screenshot_threshold;
}

abbrev pub new_fake : Text → ℕ → CaptureConfig → FakeCaptureSession
new_fake meeting_dir started_at_ms config = record {
  meeting_dir = meeting_dir;
  started_at_ms = started_at_ms;
  audio_sources = config.audio_sources;
  record_video = config.record_video;
  capture_target = config.capture_target;
}

unfoldable pub start_capture :
    Studio → Text → Text → CaptureConfig → Sessions → Result CaptureError CaptureSession × Sessions
start_capture studio meeting_id meeting_dir config sessions = elim (clock studio) [
  | err e ↦ (err e, sessions)
  | ok started_at_ms ↦ (
    ok (new_session meeting_id started_at_ms config),
    insert meeting_id (new_fake meeting_dir started_at_ms config) sessions,
  )
]

unfoldable pub write_sine_wav : Studio → Text → ℕ → Result CaptureError Text
write_sine_wav studio path duration_ms = elim (studio.write_wav path duration_ms) [
  | none ↦ ok path
  | some e ↦ err (CaptureError.capture e)
]

-- A track that was asked for.
unfoldable pub track : Studio → Bool → Text → ℕ → Result CaptureError (Option Text)
unfolding write_sine_wav
track studio wanted path duration_ms =
    if wanted then write_sine_wav studio path duration_ms >>= (λ p. ok (some p)) else ok none

-- The placeholders for the numbers that are left.
unfoldable pub write_screenshots : Studio → Text → List ℕ → Result CaptureError (List Text)
write_screenshots studio screenshots_dir [] = ok []
write_screenshots studio screenshots_dir (i ∷ rest) =
    let dest_path = join screenshots_dir (padded 3 i ++ codes ".jpg") in
    let later = write_screenshots studio screenshots_dir rest in
    elim (studio.write dest_path) [
      | some e ↦ err (CaptureError.io e)
      | none ↦ later >>= (λ paths. ok (dest_path ∷ paths))
    ]

abbrev pub wants_system : AudioSources → Bool
wants_system mic_only = false
wants_system _ = true

abbrev pub wants_mic : AudioSources → Bool
wants_mic system_only = false
wants_mic _ = true

abbrev pub io_result : Option Text → Result CaptureError (Unit {0})
io_result none = ok tt
io_result (some e) = err (CaptureError.io e)

-- The artifacts of a session, after the clock.
unfoldable pub finish : Studio → FakeCaptureSession → ℕ → Result CaptureError CaptureResult
unfolding track write_screenshots
finish studio fake ended_at_ms =
    let duration_ms = max (ended_at_ms - fake.started_at_ms) 1000 in
    let screenshots_dir = join fake.meeting_dir (codes "screenshots") in
    track studio (wants_system fake.audio_sources) (join fake.meeting_dir (codes "system.wav"))
      duration_ms
    >>= λ system_audio_path.
        track studio (wants_mic fake.audio_sources) (join fake.meeting_dir (codes "mic.wav"))
          duration_ms
        >>= λ mic_audio_path. io_result (studio.create_dir_all screenshots_dir) >>= λ made.
            (if fake.record_video
              then ok []
              else write_screenshots studio screenshots_dir (1 ∷ 2 ∷ 3 ∷ []))
            >>= λ screenshot_paths.
                (if fake.record_video
                  then io_result (studio.write (join fake.meeting_dir (codes "recording.mov")))
                  else ok tt)
                >>= λ written. ok (record {
                  system_audio_path = system_audio_path;
                  mic_audio_path = mic_audio_path;
                  screenshot_paths = screenshot_paths;
                  duration_ms = duration_ms;
                })

abbrev pub mismatch : Studio → CaptureSession → FakeCaptureSession → CaptureError
mismatch studio session fake = CaptureError.invalid_config (
    codes "session capture target "
    ++ (studio.debug session.capture_target
        ++ (codes " did not match started target " ++ studio.debug fake.capture_target)))

unfoldable pub stop_capture :
    Studio → CaptureSession → Sessions → Result CaptureError CaptureResult × Sessions
unfolding finish
stop_capture studio session sessions = elim (lookup session.meeting_id sessions) [
  | none ↦ (err (CaptureError.session_not_found session.meeting_id), sessions)
  | some fake ↦ (
    (if not (target_eq session.capture_target fake.capture_target)
        then err (mismatch studio session fake)
        else clock studio >>= λ ended_at_ms. finish studio fake ended_at_ms),
    remove session.meeting_id sessions,
  )
]
