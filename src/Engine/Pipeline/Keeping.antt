-- ===== src/Engine/Pipeline/Keeping.antt =====
-- What a notes job keeps of its work when a later part of it fails.
use panops.Base.{
  Bool-cases, List, Result, Result-cases, Text, [], codes, err, inl, inr, ok, refl, some, true, ◌∷◌,
  ◌≡◌, ◌⊎◌,
}
use panops.Storage.Port.{StoragePort}
use panops.Transcript.{Transcript}
use panops.Protocol.{IpcError, NotesError, ExportError, from_notes, from_export}
use panops.Engine.Paths.{join, Disk}
use panops.Engine.Meetings.{Effect, Server, Step, logged, made_dir, wrote_file}
use panops.Engine.Recording.Params.{NotesGenerateParams}
use panops.Engine.Pipeline.{
  Workshop, admitted, after_transcript, generated, input_of, publish, resolve_meeting,
  run_notes_pipeline, transcribe, write_structured_notes_json, write_transcripts,
}
use panops.Engine.Pipeline.Input.{ExportArtifact, NotesGenerateResult, dialect_of}

-- The server did this.
abbrev pub Did : Effect → List Effect → Type 0
Did e [] = ⊥
Did e (x ∷ es) = (e ≡ x) ⊎ Did e es

module _ (N : Type 0) (P : StoragePort) where
  -- How the job ends once there is a transcript: with the exporter's files, whatever the storage says
  -- to the note, or with the error of the generator or of the exporter.
  abbrev pub Ends :
      Workshop N P
      → NotesGenerateParams
      → Text
      → Text
      → Transcript
      → Result IpcError NotesGenerateResult
      → Type 0
  Ends w params id out_dir transcript r =
      let generated =
        w.generate (dialect_of params.dialect) (input_of N P w params transcript out_dir) in
      ((notes : N) × (artifact : ExportArtifact) × (result : NotesGenerateResult) × (generated
          ≡ ok notes)
        × (w.export notes out_dir ≡ ok artifact)
        × (r ≡ ok result)
        × (result.primary_file ≡ artifact.primary_file)
        × (result.assets ≡ artifact.assets)
        × (result.meeting_id ≡ id))
      ⊎ (((e : NotesError) × (generated ≡ err e) × (r ≡ err (from_notes e)))
          ⊎ ((notes : N) × (e : ExportError) × (generated ≡ ok notes)
              × (w.export notes out_dir ≡ err e)
              × (r ≡ err (from_export e))))

  Did-json :
      (w : Workshop N P) (e : Effect) (out_dir : Text) (s : Server P)
      → Did e s.effects
      → Did e (write_structured_notes_json N P w out_dir s).effects
  unfolding write_structured_notes_json
  Did-json w e out_dir s h =
      elim (Bool-cases (w.disk.write (join out_dir (codes "notes.json.partial")))) [
        | inr full ↦ rw (full, write_structured_notes_json) h
        | inl written ↦
            elim (Bool-cases (
              w.disk.rename (join out_dir (codes "notes.json.partial"))
                (join out_dir (codes "notes.json")))) [
                  | inr stuck ↦ rw (written, write_structured_notes_json) (rw stuck (inr h))
                  | inl moved ↦ rw (written, write_structured_notes_json) (rw moved (inr (inr h)))
                ]
      ]

  Did-transcripts :
      (w : Workshop N P) (out_dir : Text) (s : Server P)
      → w.disk.write (join out_dir (codes "transcript.json")) ≡ true
      → Did
          (wrote_file (join out_dir (codes "transcript.json")))
          (write_transcripts N P w out_dir s).1.effects
  unfolding write_transcripts
  Did-transcripts w out_dir s h =
      elim (Bool-cases (w.disk.write (join out_dir (codes "transcript.txt")))) [
        | inl written ↦ rw (written, write_transcripts) (rw h (inr (inl refl)))
        | inr full ↦ rw (full, write_transcripts) (rw h (inl refl))
      ]

  -- The directory is there or can be made, and the transcript can be written into it.
  abbrev pub IsWritable : Disk → Text → Type 0
  IsWritable disk out_dir =
      ((disk.exists out_dir ≡ true) ⊎ (disk.create_dir_all out_dir ≡ true))
      × (disk.write (join out_dir (codes "transcript.json")) ≡ true)

  -- From the transcripts on.
  generated_lem :
      (w : Workshop N P) (params : NotesGenerateParams) (id out_dir : Text)
      (transcript : Transcript) (made : Server P)
      → w.disk.write (join out_dir (codes "transcript.json")) ≡ true
      → let r = generated N P w params id out_dir transcript made in
        Did (wrote_file (join out_dir (codes "transcript.json"))) r.1.effects
        × Ends w params id out_dir transcript r.0
  unfolding generated publish
  generated_lem w params id out_dir transcript made writes =
      let t = write_transcripts N P w out_dir made in
      let did = Did-transcripts w out_dir made writes in
      elim (Result-cases
        (w.generate (dialect_of params.dialect) (input_of N P w params transcript out_dir))) [
          | inr (e, failure) ↦ rw (failure, generated) (did, inr (inl (e, refl, refl)))
          | inl (notes, done) ↦ elim (Result-cases (w.export notes out_dir)) [
            | inr (e, failure) ↦
                rw (done, generated) (rw failure (did, inr (inr (notes, e, refl, failure, refl))))
            | inl (artifact, exported) ↦
                rw (done, generated)
                  (rw exported (
                    Did-json w _ out_dir t.1 did,
                    inl (notes, artifact, _, refl, exported, refl, refl, refl, refl),
                  ))
          ]
        ]

  after_lem :
      (w : Workshop N P) (params : NotesGenerateParams) (id out_dir : Text)
      (transcript : Transcript) (s : Server P)
      → IsWritable w.disk out_dir
      → let r = after_transcript N P w params id out_dir transcript s in
        Did (wrote_file (join out_dir (codes "transcript.json"))) r.1.effects
        × Ends w params id out_dir transcript r.0
  unfolding after_transcript
  after_lem w params id out_dir transcript s (there, writes) =
      elim (Bool-cases (w.disk.exists out_dir)) [
        | inl exists ↦
            rw (exists, after_transcript) (generated_lem w params id out_dir transcript s writes)
        | inr missing ↦
            let makes : w.disk.create_dir_all out_dir ≡ true = elim there [
              | inl exists ↦ cc
              | inr makes ↦ makes
            ] in
            rw (missing, after_transcript)
              (rw makes (
                generated_lem w params id out_dir transcript (logged P (made_dir out_dir) s)
                  writes))
      ]

  -- Once a notes job was admitted, has found the directory of its meeting and has its transcript, and
  -- where that directory is there or can be made and transcript.json can be written: the job does not
  -- panic, it has written transcript.json, and it ends in one of three ways. It answers with the
  -- exporter's files for its meeting, whatever the storage says to the row of the note; or it answers
  -- with the error of the notes generator; or with that of the exporter.
  pub run_notes_pipeline-Keeps :
      (w : Workshop N P) (params : NotesGenerateParams) (s : Server P)
      (audio_path id out_dir : Text) (transcript : Transcript)
      → admitted N P w params ≡ ok audio_path
      → (resolve_meeting N P w params audio_path s).0 ≡ ok (id, out_dir)
      → transcribe N P w params audio_path out_dir ≡ some (ok transcript)
      → IsWritable w.disk out_dir
      → (r : Step P NotesGenerateResult) × (run_notes_pipeline N P w params s ≡ some r)
        × Did (wrote_file (join out_dir (codes "transcript.json"))) r.1.effects
        × Ends w params id out_dir transcript r.0
  unfolding run_notes_pipeline
  run_notes_pipeline-Keeps w params s audio_path id out_dir transcript admits placed heard
        writable =
      let after = (resolve_meeting N P w params audio_path s).1 in
      let (did, ends) = after_lem w params id out_dir transcript after writable in
      (
        after_transcript N P w params id out_dir transcript after,
        rw (admits, run_notes_pipeline) (rw placed (rw heard refl)),
        did,
        ends,
      )
