-- ===== src/Tests/Jobs.antt =====
-- The theorems on the notes job at concrete inputs.
use panops.Base.{
  All, List, Text, [], arith, codes, false, inl, none, ok, ok_inj, refl, some, subst, true, ℕ, ◌∷◌,
  ◌≡◌,
}
use panops.Base.{text_eq, trim, lookup, contains_key, values, insert, sort_by_key, insert_by}
use panops.Storage.Memory.Meetings.{get_meeting, create_meeting}
use panops.Engine.Paths.{
  allowed_root, canonical_root, ends_with_slash, is_absolute, starts_with, validate_meeting_dir,
  validate_resolved,
}
use panops.Engine.Transcribing.{length_ms, transcribe_regions, turns_of}
use panops.Asr.Recursive.{
  clamp, decide, frame, offset_segment, recurse, slice_for_region, split_point,
  transcribe_recursive, worst_of,
}
use panops.Vad.{clamp_to, merge_adjacent_regions, merge_loop, merge_sorted}
use panops.Merge.{dominant_speaker, merge_speaker_turns, merge_two_track, offset_turns}
use panops.Transcript.{Segment, Transcript}
use panops.Asr.{AsrProvider}
use panops.Asr.Regions.{IsTimely}
use panops.Vad.{SpeechRegion}
use panops.Merge.Tracks.{Fits}
use panops.Storage.Port.Kept.{in_memory}
use panops.Engine.Paths.{join}
use panops.Engine.Meetings.{Step, wrote_file}
use panops.Engine.Recording.Params.{NotesGenerateParams, ready}
use panops.Engine.Transcribing.{HeavyAdapters, transcribe_two_track}
use panops.Engine.Transcribing.Inside.{Good, IsAudio, IsSound, IsTimed}
use panops.Engine.Transcribing.Times.{transcribe_two_track-Good}
use panops.Engine.Pipeline.{Workshop, run_notes_pipeline, admitted, resolve_meeting, transcribe}
use panops.Engine.Pipeline.Input.{NotesGenerateResult}
use panops.Engine.Pipeline.Keeping.{Did, Ends, run_notes_pipeline-Keeps}
use panops.Tests.Serving.{data_dir, plain_disk, server}

abbrev greeting : Segment
greeting = record {
  start_ms = 100;
  end_ms = 400;
  text = codes "hola";
  language_detected = some (codes "es");
  confidence = 1_063_675_494;
  speaker_id = none;
}

abbrev answer : Transcript
answer = record {
  schema_version = 2;
  model = codes "tiny";
  audio_path = [];
  audio_duration_ms = 1000;
  diarized = false;
  segments = greeting ∷ [];
}

abbrev recognizer : AsrProvider
recognizer = record { transcribe = λ samples rate hint. ok answer; is_fake = true }

recognizer-IsTimely : IsTimely recognizer
recognizer-IsTimely samples rate hint t h = rw (← (ok_inj h)) ((omega arith, omega arith), tt)

abbrev second : List ℕ × ℕ
second = (0 ∷ 0 ∷ [], 2)

abbrev spoken : List SpeechRegion
spoken = record { start_ms = 0; end_ms = 900 } ∷ []

abbrev adapters : HeavyAdapters
adapters = record {
  asr = recognizer;
  detect_speech = λ samples rate. ok spoken;
  diarize = λ path. ok [];
  load = λ path. ok second;
}

adapters-IsSound : IsSound adapters
adapters-IsSound = (
  λ path audio h. subst IsAudio (ok_inj h) (λ e. absurd (omega (arith, e)), omega arith),
  λ path turns h. subst (All Fits) (ok_inj h) tt,
)

transcribe_two_track-Good_example : Good IsTimed (
    transcribe_two_track adapters
      (some (codes "/m/system.wav"))
      (some (codes "/m/mic.wav"))
      none
      false)
transcribe_two_track-Good_example =
    transcribe_two_track-Good adapters recognizer-IsTimely (some (codes "/m/system.wav"))
      (some (codes "/m/mic.wav")) none false adapters-IsSound

abbrev workshop : Workshop Text in_memory
workshop = record {
  disk = plain_disk;
  data_dir = data_dir;
  read_dir = λ path. some [];
  read_to_string = λ path. some (codes "# Notes");
  new_meeting_id = codes "m9";
  new_note_id = codes "n1";
  now = codes "2026-06-07T11:00:00+00:00";
  readiness = ready;
  heavy = adapters;
  generate = λ dialect input. ok (codes "notes");
  export = λ notes dest. ok (record { primary_file = join dest (codes "notes.md"); assets = [] });
}

abbrev job : NotesGenerateParams
job = record {
  audio = codes "/data/meetings/m7/system.wav";
  dialect = none;
  llm_provider = none;
  llm_model = none;
  no_diarize = none;
  language = none;
  meeting_id = some (codes "m7");
}

abbrev heard : Transcript
heard = record {
  schema_version = 2;
  model = codes "tiny";
  audio_path = codes "/data/meetings/m7/system.wav";
  audio_duration_ms = 1000;
  diarized = true;
  segments = record greeting { speaker_id = some 0 } ∷ greeting ∷ [];
}

-- Both tracks of a recording of a second.
heard_lem :
    transcribe Text in_memory workshop job
      (codes "/data/meetings/m7/system.wav")
      (codes "/data/meetings/m7")
    ≡ some (ok heard)
unfolding transcribe transcribe_two_track join is_absolute ends_with_slash text_eq length_ms
    merge_adjacent_regions merge_sorted merge_loop transcribe_regions transcribe_recursive clamp_to
    slice_for_region decide offset_segment worst_of split_point clamp turns_of merge_two_track
    offset_turns merge_speaker_turns dominant_speaker sort_by_key insert_by recurse frame
heard_lem = refl

run_notes_pipeline-Keeps_example :
    let dir = codes "/data/meetings/m7" in
    (r : Step in_memory NotesGenerateResult) × (run_notes_pipeline Text in_memory workshop job
        server
      ≡ some r)
    × Did (wrote_file (join dir (codes "transcript.json"))) r.1.effects
    × Ends Text in_memory workshop job (codes "m7") dir heard r.0
unfolding admitted resolve_meeting text_eq trim get_meeting lookup create_meeting contains_key
    values insert validate_meeting_dir starts_with allowed_root join validate_resolved
    canonical_root
run_notes_pipeline-Keeps_example =
    run_notes_pipeline-Keeps Text in_memory workshop job server
      (codes "/data/meetings/m7/system.wav") (codes "m7") (codes "/data/meetings/m7") heard refl
      refl heard_lem (inl refl, refl)
