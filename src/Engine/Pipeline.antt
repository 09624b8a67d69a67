-- ===== src/Engine/Pipeline.antt =====
-- `run_notes_pipeline` of crates/panops-engine/src/server/handlers.rs,
-- over any storage, adapters, notes generator and exporter. The progress events are left
-- out. None is a panic.
pub mod Input
pub mod Keeping
use panops.Base.{
  Bool, List, Option, Result, Text, [], codes, err, false, if◌then◌else◌, length, none, not, ok,
  some, sort_by, suc, text_eq, text_le, trim, ℕ, ◌&&◌, ◌*◌, ◌++◌, ◌/◌, ◌>>=◌, ◌∷◌,
}
use panops.Storage.{Meeting, NoteDraft, StorageError}
use panops.Storage.Port.{StoragePort}
use panops.Transcript.{Segment, Transcript}
use panops.Notes.Anchoring.{Screenshot}
use panops.Notes.Sections.{MarkdownDialect}
use panops.Protocol.{IpcError, NotesError, ExportError, from_storage, from_notes, from_export}
use panops.Models.{last_piece, reversed}
use panops.Models.Download.{stem}
use panops.Engine.Paths.{Disk, join, validate_meeting_dir, found}
use panops.Engine.Meetings.{
  Effect, Server, Step, check, create_meeting_dir_and_row, internal_text, logged, made_dir,
  wrote_file, renamed_file,
}
use panops.Engine.Recording.Params.{Heavy, NotesDialect, NotesGenerateParams, language_hint}
use panops.Engine.Transcribing.{HeavyAdapters, transcribe_file, transcribe_two_track}
use panops.Engine.Pipeline.Input.{
  ExportArtifact, MeetingMetadata, NotesGenerateResult, NotesInput, collect_screenshots, dialect_of,
  dialect_text, file_stem, is_true, or_text, shots_from, when_there,
}

module _ (N : Type 0) (P : StoragePort) where
  -- Around the job: the disk with what it holds, new ids and times, and the parts that do the work.
  pub record Workshop : Type 0 where
    pub disk : Disk
    pub data_dir : Text
    pub read_dir : Text → Option (List Text)
    pub read_to_string : Text → Option Text
    pub new_meeting_id : Text
    pub new_note_id : Text
    pub now : Text
    pub readiness : Heavy
    pub heavy : HeavyAdapters
    pub generate : MarkdownDialect → NotesInput → Result NotesError N
    pub export : N → Text → Result ExportError ExportArtifact

  -- A write whose failure is only logged.
  abbrev pub write_quietly : Workshop → Text → Server P → Server P
  write_quietly w path s = if w.disk.write path then logged P (wrote_file path) s else s

  unfoldable pub write_structured_notes_json : Workshop → Text → Server P → Server P
  write_structured_notes_json w out_dir s =
      let partial = join out_dir (codes "notes.json.partial") in
      let notes_json_path = join out_dir (codes "notes.json") in
      if not (w.disk.write partial)
      then s
      else if not (w.disk.rename partial notes_json_path)
      then logged P (wrote_file partial) s
      else logged P (renamed_file partial notes_json_path) (logged P (wrote_file partial) s)

  -- The meeting of the job and its directory.
  unfoldable pub resolve_meeting :
      Workshop → NotesGenerateParams → Text → Server P → Step P (Text × Text)
  resolve_meeting w params audio_path s = elim params.meeting_id [
    | some id ↦
        let r = P.get_meeting id s.storage in
        let after : Server P = record s { storage = r.1 } in
        elim r.0 [
          | err e ↦ (err (from_storage e), after)
          | ok m ↦ elim (validate_meeting_dir w.disk w.data_dir m.dir_path) [
            | err e ↦ (err e, after)
            | ok safe_dir ↦ (ok (id, safe_dir), after)
          ]
        ]
    | none ↦
        create_meeting_dir_and_row P w.disk w.data_dir w.new_meeting_id w.now (file_stem audio_path)
          (or_text params.language (codes "auto")) s
  ]

  unfoldable pub transcribe :
      Workshop → NotesGenerateParams → Text → Text → Option (Result IpcError Transcript)
  transcribe w params audio_path out_dir =
      let system_wav = when_there w.disk (join out_dir (codes "system.wav")) in
      let mic_wav = when_there w.disk (join out_dir (codes "mic.wav")) in
      elim system_wav [
        | some wav ↦
            transcribe_two_track w.heavy (some wav) mic_wav params.language
              (is_true params.no_diarize)
        | none ↦ elim mic_wav [
          | some wav ↦
              transcribe_two_track w.heavy none (some wav) params.language
                (is_true params.no_diarize)
          | none ↦ transcribe_file w.heavy audio_path params.language (is_true params.no_diarize)
        ]
      ]

  -- Both transcripts are written before the notes are generated.
  unfoldable pub write_transcripts : Workshop → Text → Server P → Option Text × Server P
  write_transcripts w out_dir s =
      let txt = join out_dir (codes "transcript.txt") in
      let written = write_quietly w (join out_dir (codes "transcript.json")) s in
      if w.disk.write txt then (some txt, logged P (wrote_file txt) written) else (none, written)

  abbrev pub input_of : Workshop → NotesGenerateParams → Transcript → Text → NotesInput
  input_of w params transcript out_dir = record {
    transcript = transcript.segments;
    screenshots =
        collect_screenshots (w.read_dir (join out_dir (codes "screenshots")))
          transcript.audio_duration_ms;
    meeting_metadata = record {
      started_at = w.now;
      duration_ms = transcript.audio_duration_ms;
      source_path = some transcript.audio_path;
      language_hint = params.language;
    };
  }

  -- The row of the note is stored if it can be.
  unfoldable pub publish :
      Workshop
      → MarkdownDialect
      → Text
      → Option Text
      → ExportArtifact
      → Server P
      → NotesGenerateResult × Server P
  publish w dialect meeting_id transcript_txt_path artifact s =
      let draft : NoteDraft = record {
        id = w.new_note_id;
        meeting_id = meeting_id;
        dialect = dialect_text dialect;
        content_md = or_text (w.read_to_string artifact.primary_file) [];
        primary_path = artifact.primary_file;
      } in
      (
        record {
          primary_file = artifact.primary_file;
          assets = artifact.assets;
          meeting_id = meeting_id;
          transcript_txt_path = transcript_txt_path;
        },
        record s { storage = (P.create_note draft w.now s.storage).1 },
      )

  -- From the output directory on.
  unfoldable pub generated :
      Workshop
      → NotesGenerateParams
      → Text
      → Text
      → Transcript
      → Server P
      → Step P NotesGenerateResult
  unfolding write_transcripts write_structured_notes_json publish
  generated w params meeting_id out_dir transcript s =
      let t = write_transcripts w out_dir s in
      let dialect = dialect_of params.dialect in
      elim (w.generate dialect (input_of w params transcript out_dir)) [
        | err e ↦ (err (from_notes e), t.1)
        | ok notes ↦ elim (w.export notes out_dir) [
          | err e ↦ (err (from_export e), t.1)
          | ok artifact ↦
              let r =
                publish w dialect meeting_id t.0 artifact
                  (write_structured_notes_json w out_dir t.1) in
              (ok r.0, r.1)
        ]
      ]

  -- From the transcript on.
  unfoldable pub after_transcript :
      Workshop
      → NotesGenerateParams
      → Text
      → Text
      → Transcript
      → Server P
      → Step P NotesGenerateResult
  unfolding generated
  after_transcript w params meeting_id out_dir transcript s =
      let missing = not (w.disk.exists out_dir) in
      if missing && not (w.disk.create_dir_all out_dir)
      then (err (internal_text (codes "failed to prepare output directory")), s)
      else generated w params meeting_id out_dir transcript
          (if missing then logged P (made_dir out_dir) s else s)

  abbrev pub with_transcript :
      Workshop
      → NotesGenerateParams
      → Text
      → Text
      → Server P
      → Option (Result IpcError Transcript)
      → Option (Step P NotesGenerateResult)
  with_transcript w params meeting_id out_dir s none = none
  with_transcript w params meeting_id out_dir s (some (err e)) = some (err e, s)
  with_transcript w params meeting_id out_dir s (some (ok transcript)) =
      some (after_transcript w params meeting_id out_dir transcript s)

  abbrev pub gate : Heavy → Result IpcError (Unit {0})
  gate Heavy.ready = ok tt
  gate (Heavy.init_failed m) = err (internal_text (codes "adapter init failed: " ++ m))
  gate Heavy.warming_up =
      err (IpcError.provider_unavailable (codes "engine warming up; retry shortly"))

  -- What is checked before any work: the adapters, and the path of the audio, which is resolved.
  unfoldable pub admitted : Workshop → NotesGenerateParams → Result IpcError Text
  admitted w params = gate w.readiness >>= λ u.
      if text_eq (trim params.audio) []
      then err (IpcError.invalid_input (codes "audio path is empty"))
      else elim (w.disk.canonicalize params.audio) [
        | none ↦ err (IpcError.input_not_found params.audio)
        | some path ↦ ok path
      ]

  unfoldable pub run_notes_pipeline :
      Workshop → NotesGenerateParams → Server P → Option (Step P NotesGenerateResult)
  unfolding admitted resolve_meeting transcribe after_transcript
  run_notes_pipeline w params s = elim (admitted w params) [
    | err e ↦ some (err e, s)
    | ok audio_path ↦
        let r = resolve_meeting w params audio_path s in
        elim r.0 [
          | err e ↦ some (err e, r.1)
          | ok place ↦
              with_transcript w params place.0 place.1 r.1 (transcribe w params audio_path place.1)
        ]
  ]
