-- ===== src/Engine/Recording/Refines.antt =====
-- The engine's recordings refine a set of meetings that are being recorded.
use panops.Base.{
  Bool, List, Result, Text, [], codes, contains_key, err, false, if◌then◌else◌, ok, text_eq, true,
  ◌++◌, ◌∷◌, ◌≡◌, Option-cases, Result-cases, inl, inr, lookup, refl, contains_key-insert,
  contains_key-remove, subst, sym, remove, Has-of_lookup, contains_key-of_none,
  contains_key-remove-none,
}
use panops.Storage.Port.{StoragePort}
use panops.Protocol.{CaptureError, IpcError, from_capture, from_storage}
use panops.Capture.Port.{CapturePort}
use panops.Engine.Paths.{validate_meeting_dir}
use panops.Engine.Recording.{
  Engine, recording_start, recording_stop, after_stop, enqueue_notes_job, maybe_enqueue_auto_notes,
  flag, recording, stopped_of,
}
use panops.Engine.Recording.Params.{
  RecordingStartParams, RecordingStopped, Surroundings, NotesGenerateParams,
  auto_notes_compute_available, or_else, config_of, auto_params,
}

pub data Request : Type 0 where
  request_start : Surroundings → RecordingStartParams → Request
  request_stop : Surroundings → Text → Request

pub data Reply : Type 0 where
  started : Text → Reply
  stopped : RecordingStopped → Reply
  refused : IpcError → Reply

abbrev start_reply : Result IpcError Text → Reply
start_reply (ok id) = started id
start_reply (err e) = refused e

abbrev stop_reply : Result IpcError RecordingStopped → Reply
stop_reply (ok r) = stopped r
stop_reply (err e) = refused e

-- The meetings that are being recorded.
abbrev pub Recorded : Type 0
Recorded = Text → Bool

-- What a client may count on, in terms of that set alone.
pub data Spec : Recorded → Request → Reply → Recorded → Type 0 where
  begins :
      {a b : Recorded} (around : Surroundings) (params : RecordingStartParams)
      → ((j : Text) → b j ≡ (if text_eq params.meeting_id j then true else a j))
      → Spec a (request_start around params) (started params.meeting_id) b
  is_refused :
      {a b : Recorded} (around : Surroundings) (params : RecordingStartParams) (e : IpcError)
      → ((j : Text) → b j ≡ a j)
      → Spec a (request_start around params) (refused e) b
  ends :
      {a b : Recorded} (around : Surroundings) (id : Text) (r : RecordingStopped)
      → a id ≡ true
      → ((j : Text) → b j ≡ (if text_eq id j then false else a j))
      → Spec a (request_stop around id) (stopped r) b
  -- The recording is over for the engine all the same, and the error is the adapter's.
  breaks :
      {a b : Recorded} (around : Surroundings) (id : Text) (e : CaptureError)
      → a id ≡ true
      → ((j : Text) → b j ≡ (if text_eq id j then false else a j))
      → Spec a (request_stop around id) (refused (from_capture e)) b
  is_idle :
      {a b : Recorded} (around : Surroundings) (id : Text)
      → a id ≡ false
      → ((j : Text) → b j ≡ a j)
      → Spec a
          (request_stop around id)
          (refused (IpcError.input_not_found (codes "session/" ++ id)))
          b

pub data Follows : Recorded → List Request → List Reply → Type 0 where
  done : {a : Recorded} → Follows a [] []
  next :
      {a b : Recorded} {q : Request} {r : Reply} {qs : List Request} {rs : List Reply}
      → Spec a q r b
      → Follows b qs rs
      → Follows a (q ∷ qs) (r ∷ rs)

module _ (P : StoragePort) (C : CapturePort) where
  unfoldable pub perform : Request → Engine P C → Reply × Engine P C
  perform (request_start around params) e =
      let r = recording_start P C around params e in (start_reply r.0, r.1)
  perform (request_stop around id) e =
      let r = recording_stop P C around id e in (stop_reply r.0, r.1)

  unfoldable pub replies : List Request → Engine P C → List Reply
  unfolding perform
  replies [] e = []
  replies (q ∷ qs) e = let r = perform q e in r.0 ∷ replies qs r.1

module _ (P : StoragePort) (C : CapturePort) where
  abbrev pub recorded : Engine P C → Recorded
  recorded e id = contains_key id e.sessions

  abbrev Good : Engine P C → Request → Reply → Engine P C → Type 0
  Good e q r e' = Spec (recorded e) q r (recorded e')

  -- What the method computes to may be read off an equation.
  starts :
      (around : Surroundings) (params : RecordingStartParams) (e : Engine P C)
      (r : Result IpcError Text × Engine P C)
      → recording_start P C around params e ≡ r
      → Good e (request_start around params) (start_reply r.0) r.1
      → let r' = recording_start P C around params e in
        Good e (request_start around params) (start_reply r'.0) r'.1
  starts around params e r same g =
      subst (λ q. Good e (request_start around params) (start_reply q.0) q.1) (sym same) g

  stops :
      (around : Surroundings) (id : Text) (e : Engine P C)
      (r : Result IpcError RecordingStopped × Engine P C)
      → recording_stop P C around id e ≡ r
      → Good e (request_stop around id) (stop_reply r.0) r.1
      → let r' = recording_stop P C around id e in
        Good e (request_stop around id) (stop_reply r'.0) r'.1
  stops around id e r same g =
      subst (λ q. Good e (request_stop around id) (stop_reply q.0) q.1) (sym same) g

  start-Good :
      (around : Surroundings) (params : RecordingStartParams) (e : Engine P C)
      → let r = recording_start P C around params e in
        Good e (request_start around params) (start_reply r.0) r.1
  unfolding recording_start
  start-Good around params e = elim (Result-cases (P.get_meeting params.meeting_id e.storage).0) [
    | inr (bad, lost) ↦
        starts around params e (err (from_storage bad), e) (rw (lost, recording_start) refl)
          (is_refused around params (from_storage bad) (λ j. refl))
    | inl (m, there) ↦
        elim (Result-cases (validate_meeting_dir around.disk around.data_dir m.dir_path)) [
          | inr (bad, outside) ↦
              starts around params e (err bad, e) (rw (there, recording_start) (rw outside refl))
                (is_refused around params bad (λ j. refl))
          | inl (dir, valid) ↦
              let id = params.meeting_id in
              let r = C.start_capture id dir (config_of params) e.capture in
              elim (Result-cases r.0) [
                | inr (bad, failure) ↦
                    starts around params e (err (from_capture bad), record e { capture = r.1 })
                      (rw (there, recording_start) (rw valid (rw failure refl)))
                      (is_refused around params (from_capture bad) (λ j. refl))
                | inl (session, running) ↦
                    starts around params e (ok id, recording P C params session r.1 e)
                      (rw (there, recording_start) (rw valid (rw running refl)))
                      (begins around params (λ j. contains_key-insert id j session e.sessions))
              ]
        ]
  ]

  -- Notes jobs are all that the end of a stop adds.
  enqueued :
      (around : Surroundings) (id : Text) (r : RecordingStopped) (e : Engine P C)
      → (jobs : List (Text × NotesGenerateParams)) × ((maybe_enqueue_auto_notes P C around id r e).1
          ≡ record e { jobs = jobs })
  unfolding maybe_enqueue_auto_notes enqueue_notes_job
  enqueued around id r e = elim (Result-cases (auto_notes_compute_available around)) [
    | inr (reason, busy) ↦ (e.jobs, rw (busy, maybe_enqueue_auto_notes) refl)
    | inl (u, available) ↦ elim (Option-cases (or_else r.system_audio_path r.mic_audio_path)) [
      | inl silent ↦ (e.jobs, rw (available, maybe_enqueue_auto_notes) (rw silent refl))
      | inr (audio, given) ↦ (
        (around.job_id, auto_params id audio (P.get_meeting id e.storage).0) ∷ e.jobs,
        rw (available, maybe_enqueue_auto_notes) (rw given refl),
      )
    ]
  ]

  after_stop_lem :
      (around : Surroundings) (id : Text) (auto : Bool) (r : RecordingStopped) (e : Engine P C)
      → (r' : RecordingStopped) × (jobs : List (Text × NotesGenerateParams)) × (after_stop P C
            around id auto r e
          ≡ (ok r', record e { jobs = jobs }))
  unfolding after_stop
  after_stop_lem around id false r e = (r, e.jobs, refl)
  after_stop_lem around id true r e =
      let (jobs, same) = enqueued around id r e in
      let job = (maybe_enqueue_auto_notes P C around id r e).0 in
      (record r { notes_job_id = job }, jobs, rw same refl)

  stop-Good :
      (around : Surroundings) (id : Text) (e : Engine P C)
      → let r = recording_stop P C around id e in
        Good e (request_stop around id) (stop_reply r.0) r.1
  unfolding recording_stop
  stop-Good around id e = elim (Option-cases (lookup id e.sessions)) [
    | inl idle ↦
        stops around id e
          (
            err (IpcError.input_not_found (codes "session/" ++ id)),
            record e { sessions = remove id e.sessions; auto_notes = remove id e.auto_notes },
          )
          (rw (idle, recording_stop) refl)
          (is_idle around id (contains_key-of_none id e.sessions idle)
            (λ j. contains_key-remove-none id j e.sessions idle))
    | inr (session, there) ↦
        let e' : Engine P C = record e {
          sessions = remove id e.sessions;
          auto_notes = remove id e.auto_notes;
          capture = (C.stop_capture session e.capture).1;
        } in
        let there_already = Has-of_lookup id e.sessions there in
        let over = λ (j : Text). contains_key-remove id j e.sessions in
        elim (Result-cases (C.stop_capture session e.capture).0) [
          | inr (bad, failure) ↦
              stops around id e (err (from_capture bad), e')
                (rw (there, recording_stop) (rw failure refl))
                (breaks around id bad there_already over)
          | inl (result, fine) ↦
              let auto = flag P C (lookup id e.auto_notes) in
              let stopped_now = stopped_of P C around id session result e.storage in
              let (r', jobs, last) = after_stop_lem around id auto stopped_now e' in
              stops around id e (ok r', record e' { jobs = jobs })
                (rw (there, recording_stop) (rw fine last)) (ends around id r' there_already over)
        ]
  ]

  Good-perform : (q : Request) (e : Engine P C) → let r = perform P C q e in Good e q r.0 r.1
  unfolding perform
  Good-perform (request_start around params) e = start-Good around params e
  Good-perform (request_stop around id) e = stop-Good around id e

  follows : (qs : List Request) (e : Engine P C) → Follows (recorded e) qs (replies P C qs e)
  unfolding replies
  follows [] e = done
  follows (q ∷ qs) e = next (Good-perform q e) (follows qs (perform P C q e).1)

  -- An engine as it comes up, before any recording.
  abbrev pub new_engine : P.State → C.State → Engine P C
  new_engine storage capture = record {
    storage = storage;
    capture = capture;
    sessions = [];
    auto_notes = [];
    jobs = [];
  }

  -- Over any storage and any capture adapter, from an engine that has no recordings: whatever sequence
  -- of starts and stops it receives, its replies are those of a set of meetings that are being
  -- recorded. An accepted start puts the meeting in, a refused one changes nothing; a stop of a meeting
  -- in the set takes it out, with its artifacts or with an error of the adapter; a stop of any other is
  -- answered `input_not_found` of its session and changes nothing.
  pub replies-Follows :
      (storage : P.State) (capture : C.State) (qs : List Request)
      → Follows (λ id. false) qs (replies P C qs (new_engine storage capture))
  unfolding contains_key
  replies-Follows storage capture qs = follows qs (new_engine storage capture)
