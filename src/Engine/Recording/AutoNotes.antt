-- ===== src/Engine/Recording/AutoNotes.antt =====
-- When the end of a recording enqueues a notes job.
pub mod Conditions
use panops.Storage.{Meeting, StorageError}
use panops.Base.{
  Bool, List, Option, Option-cases, Result-cases, Text, err, false, inl, inr, none, ok, refl, some,
  true, ◌∷◌, ◌≡◌, ◌⊎◌, lookup, lookup-insert, ok_inj, remove, text_eq_refl, ◌∙◌, Bool-cases, [],
  codes, text_eq, trim, Result, ◌++◌,
}
use panops.Storage.Port.{StoragePort}
use panops.Capture.{CaptureSession}
use panops.Capture.Port.{CapturePort}
use panops.Engine.Paths.{validate_meeting_dir}
use panops.Engine.Recording.{
  Engine, after_stop, enqueue_notes_job, maybe_enqueue_auto_notes, recording, recording_start,
  recording_stop, flag, stopped_of,
}
use panops.Engine.Recording.Params.{
  NotesGenerateParams, RecordingStartParams, RecordingStopped, Surroundings,
  auto_notes_compute_available, auto_params, or_else, config_of, Heavy, ready, warming_up,
  init_failed, language_hint,
}
use panops.Engine.Recording.AutoNotes.Conditions.{
  CanCompute, CannotCompute, Hints, IsJobFor, IsNamed, IsOpen, IsTrack, compute_cases,
  language_hint-Hints, or_else-IsTrack,
}

module _ (P : StoragePort) (C : CapturePort) where
  -- Exactly one job, for the meeting's first track and in its language.
  abbrev pub Queued :
      Surroundings
      → Text
      → Bool
      → P.State
      → List (Text × NotesGenerateParams)
      → RecordingStopped
      → List (Text × NotesGenerateParams)
      → Type 0
  Queued around id auto storage before r jobs =
      (auto ≡ true)
      × CanCompute around
      × (audio : Text) × IsTrack r audio
      × (r.notes_job_id ≡ some around.job_id)
      × (params : NotesGenerateParams) × IsJobFor id audio (P.get_meeting id storage).0 params
      × (jobs ≡ (around.job_id, params) ∷ before)

  -- No job, for one of three reasons.
  abbrev pub NotQueued :
      Surroundings
      → Bool
      → List (Text × NotesGenerateParams)
      → RecordingStopped
      → List (Text × NotesGenerateParams)
      → Type 0
  NotQueued around auto before r jobs =
      (r.notes_job_id ≡ none)
      × (jobs ≡ before)
      × ((auto ≡ false)
          ⊎ (CannotCompute around ⊎ ((r.system_audio_path ≡ none) × (r.mic_audio_path ≡ none))))

  abbrev Ended : Surroundings → Text → Bool → RecordingStopped → Engine P C → Type 0
  Ended around id auto r e =
      (r' : RecordingStopped) × (jobs : List (Text × NotesGenerateParams)) × (after_stop P C around
          id auto r e
        ≡ (ok r', record e { jobs = jobs }))
      × (NotQueued around auto e.jobs r' jobs ⊎ Queued around id auto e.storage e.jobs r' jobs)

  after_stop_lem :
      (around : Surroundings) (id : Text) (auto : Bool) (r : RecordingStopped) (e : Engine P C)
      → r.notes_job_id ≡ none
      → Ended around id auto r e
  unfolding after_stop maybe_enqueue_auto_notes enqueue_notes_job
  after_stop_lem around id false r e new = (r, e.jobs, refl, inl (new, refl, inl refl))
  after_stop_lem around id true r e new = elim (compute_cases around) [
    | inr (reason, busy, cannot) ↦ (
      record r { notes_job_id = none },
      e.jobs,
      rw (busy, maybe_enqueue_auto_notes, after_stop) refl,
      inl (refl, refl, inr (inl cannot)),
    )
    | inl (available, can) ↦ elim (or_else-IsTrack r) [
      | inl (silent, no_track) ↦ (
        record r { notes_job_id = none },
        e.jobs,
        rw (available, maybe_enqueue_auto_notes, after_stop) (rw silent refl),
        inl (refl, refl, inr (inr no_track)),
      )
      | inr (audio, given, track) ↦ (
        record r { notes_job_id = some around.job_id },
        (around.job_id, auto_params id audio (P.get_meeting id e.storage).0) ∷ e.jobs,
        rw (available, maybe_enqueue_auto_notes, after_stop) (rw given refl),
        inr (
          refl,
          can,
          audio,
          track,
          refl,
          auto_params id audio (P.get_meeting id e.storage).0,
          (
            (refl, refl, language_hint-Hints (P.get_meeting id e.storage).0),
            (refl, refl),
            (refl, refl),
          ),
          refl,
        ),
      )
    ]
  ]

  started_lem :
      (around : Surroundings) (params : RecordingStartParams) (e : Engine P C) (id : Text)
      → (recording_start P C around params e).0 ≡ ok id
      → (session : CaptureSession) × (capture : C.State) × ((recording_start P C around params e).1
          ≡ recording P C params session capture e)
  unfolding recording_start
  started_lem around params e id h =
      elim (Result-cases (P.get_meeting params.meeting_id e.storage).0) [
        | inr (bad, lost) ↦ cc (rw (lost, recording_start) at h)
        | inl (m, there) ↦
            elim (Result-cases (validate_meeting_dir around.disk around.data_dir m.dir_path)) [
              | inr (bad, outside) ↦ cc (rw (there, recording_start) at h, outside)
              | inl (dir, valid) ↦
                  let r = C.start_capture params.meeting_id dir (config_of params) e.capture in
                  elim (Result-cases r.0) [
                    | inr (bad, failure) ↦ cc (rw (there, recording_start) at h, valid, failure)
                    | inl (session, running) ↦
                        (session, r.1, rw (there, recording_start) (rw valid (rw running refl)))
                  ]
            ]
      ]

  -- What a stop answers where there is a session.
  stop_lem :
      (around : Surroundings) (id : Text) (e : Engine P C) (session : CaptureSession)
      (r : RecordingStopped)
      → lookup id e.sessions ≡ some session
      → let stop = recording_stop P C around id e in
        let auto = flag P C (lookup id e.auto_notes) in
        stop.0 ≡ ok r
        → NotQueued around auto e.jobs r stop.1.jobs
          ⊎ Queued around id auto e.storage e.jobs r stop.1.jobs
  unfolding recording_stop
  stop_lem around id e session r there stop =
      elim (Result-cases (C.stop_capture session e.capture).0) [
        | inr (bad, failure) ↦ cc (rw (there, recording_stop) at stop, failure)
        | inl (result, fine) ↦
            let e' : Engine P C = record e {
              sessions = remove id e.sessions;
              auto_notes = remove id e.auto_notes;
              capture = (C.stop_capture session e.capture).1;
            } in
            let auto = flag P C (lookup id e.auto_notes) in
            let (r', jobs, last, cases) =
              after_stop_lem around id auto (stopped_of P C around id session result e.storage) e'
                refl in
            let whole : recording_stop P C around id e ≡ (ok r', record e' { jobs = jobs }) =
              rw (there, recording_stop) (rw fine last) in
            let same : r' ≡ r = ok_inj (rw whole at stop) in rw whole (rw (← same) cases)
      ]

  -- After a recording.start that was accepted, a recording.stop of that meeting that succeeds does one
  -- of two things. It enqueues one notes job and returns its id: then the notes were asked for at the
  -- start, the provider has a name and the adapters are ready; the job is for the system track, or for
  -- the microphone's where there is no system track, and its language is that of the meeting's row, or
  -- none where the row cannot be read or its language is blank or `auto`. Or it enqueues none and
  -- returns no id: then the notes were not asked for, or the provider has no name, or the adapters are
  -- warming up or failed to load, or there is neither track.
  pub recording_stop-Queued :
      (around around' : Surroundings) (params : RecordingStartParams) (e : Engine P C) (id : Text)
      (r : RecordingStopped)
      → (recording_start P C around params e).0 ≡ ok id
      → let e' = (recording_start P C around params e).1 in
        let stop = recording_stop P C around' params.meeting_id e' in
        stop.0 ≡ ok r
        → NotQueued around' params.auto_generate_notes e.jobs r stop.1.jobs
          ⊎ Queued around' params.meeting_id params.auto_generate_notes e.storage e.jobs r
              stop.1.jobs
  recording_stop-Queued around around' params e id r start stop =
      let (session, after, same) = started_lem around params e id start in
      let id' = params.meeting_id in
      let e' = recording P C params session after e in
      let there : lookup id' e'.sessions ≡ some session =
        lookup-insert id' id' session e.sessions ∙ rw (text_eq_refl id') refl in
      let set : flag P C (lookup id' e'.auto_notes) ≡ params.auto_generate_notes =
        rw (lookup-insert id' id' params.auto_generate_notes e.auto_notes)
          (rw (text_eq_refl id') refl) in
      let cases = stop_lem around' id' e' session r there (rw same at stop) in
      rw same (rw set at cases)
