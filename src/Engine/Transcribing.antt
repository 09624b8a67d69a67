-- ===== src/Engine/Transcribing.antt =====
-- The transcription of the notes job in crates/panops-engine/src/server/handlers.rs: voice activity
-- detection, recursive transcription, diarization and the merge, composed. The progress events are left
-- out. None is a panic.
pub mod Inside
pub mod Times
use panops.Base.{
  Bool, List, Option, Result, Text, [], codes, err, false, if◌then◌else◌, leb, length, max, none,
  not, ok, some, true, ℕ, ◌*◌, ◌++◌, ◌/◌, ◌==◌, ◌∷◌,
}
use panops.Transcript.{schema_version, Segment, SpeakerTurn, Transcript}
use panops.Vad.{SpeechRegion, clamp_to, merge_adjacent_regions}
use panops.Asr.{AsrError, AsrProvider, model, transcription}
use panops.Asr.Recursive.{RegionResult, or_model, transcribe_recursive}
use panops.Merge.{merge_speaker_turns, merge_two_track}
use panops.Protocol.{IpcError, VadError, DiarError, from_asr, from_vad, from_diar}

-- The adapters, and `load_audio_mono16k`.
pub record HeavyAdapters : Type 0 where
  pub asr : AsrProvider
  pub detect_speech : List ℕ → ℕ → Result VadError (List SpeechRegion)
  pub diarize : Text → Result DiarError (List SpeakerTurn)
  pub load : Text → Result AsrError (List ℕ × ℕ)

-- What a step answers; none is a panic.
abbrev pub Outcome : Type 0 → Type 0
Outcome A = Option (Result IpcError A)

abbrev pub and_then : {A B : Type 0} → Outcome A → (A → Outcome B) → Outcome B
and_then none f = none
and_then (some (err e)) f = some (err e)
and_then (some (ok a)) f = f a

-- `samples.len() as u64 * 1000 / u64::from(sample_rate)`
unfoldable pub length_ms : List ℕ → ℕ → Option ℕ
length_ms samples sample_rate =
    if sample_rate == 0 then none else some (length samples * 1000 / sample_rate)

abbrev pub from_result : {E A : Type 0} → (E → IpcError) → Result E A → Outcome A
from_result f (err e) = some (err (f e))
from_result f (ok a) = some (ok a)

abbrev pub or_panic : {A : Type 0} → Option A → Outcome A
or_panic none = none
or_panic (some a) = some (ok a)

abbrev pub recursive_answer : Option (Result AsrError RegionResult) → Outcome RegionResult
recursive_answer none = none
recursive_answer (some r) = from_result from_asr r

abbrev pub Track : Type 0
Track = List Segment × Option Text

module _ (heavy : HeavyAdapters) where
  -- The loop over the merged regions, with `segments` and `model` as they are so far.
  unfoldable pub transcribe_regions :
      List ℕ → ℕ → Option Text → ℕ → List SpeechRegion → Track → Outcome Track
  transcribe_regions samples sample_rate language total_audio_ms [] track = some (ok track)
  transcribe_regions samples sample_rate language total_audio_ms (region ∷ regions)
        (segments, seen) =
      let clamped = clamp_to region total_audio_ms in
      elim (leb clamped.end_ms clamped.start_ms) [
        | true ↦
            transcribe_regions samples sample_rate language total_audio_ms regions (segments, seen)
        | false ↦
            and_then
              (recursive_answer
                (transcribe_recursive heavy.asr samples sample_rate clamped language))
              λ result.
                transcribe_regions samples sample_rate language total_audio_ms regions
                  (segments ++ result.segments, or_model seen result.model)
      ]

  unfoldable pub transcribe_track : List ℕ → ℕ → Option Text → Outcome Track
  unfolding transcribe_regions
  transcribe_track samples sample_rate language =
      and_then (from_result from_vad (heavy.detect_speech samples sample_rate)) λ regions.
        and_then (or_panic (length_ms samples sample_rate)) λ total_audio_ms.
          transcribe_regions samples sample_rate language total_audio_ms
            (merge_adjacent_regions regions 5000) ([], none)

  -- One capture track: its segments, its model and its length.
  unfoldable pub transcribe_wav : Text → Option Text → Outcome (Track × ℕ)
  unfolding transcribe_track
  transcribe_wav wav language = and_then (from_result from_asr (heavy.load wav)) λ loaded.
      and_then (or_panic (length_ms loaded.0 loaded.1)) λ duration_ms.
        and_then (transcribe_track loaded.0 loaded.1 language)
          λ track. some (ok (track, duration_ms))

  abbrev pub if_there : Option Text → (Text → Outcome (Track × ℕ)) → Outcome (Track × ℕ)
  if_there none f = some (ok (([], none), 0))
  if_there (some wav) f = f wav

  unfoldable pub turns_of : Option Text → Bool → Outcome (List SpeakerTurn)
  turns_of none no_diarize = some (ok [])
  turns_of (some system) no_diarize =
      if no_diarize then some (ok []) else from_result from_diar (heavy.diarize system)

  abbrev pub path_of : Option Text → Option Text → Text
  path_of (some system) mic = system
  path_of none (some mic) = mic
  path_of none none = []

  abbrev pub model_name : Option Text → Text
  model_name none = codes "vad-multilingual"
  model_name (some m) = m

  -- After the check that there is a track.
  unfoldable pub both_tracks : Option Text → Option Text → Option Text → Bool → Outcome Transcript
  unfolding transcribe_wav turns_of
  both_tracks system_wav mic_wav language no_diarize =
      and_then (if_there mic_wav (λ wav. transcribe_wav wav language)) λ mic.
        and_then (if_there system_wav (λ wav. transcribe_wav wav language)) λ system.
          and_then (turns_of system_wav no_diarize) λ system_turns.
            and_then (or_panic (merge_two_track mic.0.0 system.0.0 system_turns)) λ segments. some (
              ok (record {
                schema_version = schema_version;
                model = model_name (or_model mic.0.1 system.0.1);
                audio_path = path_of system_wav mic_wav;
                audio_duration_ms = max mic.1 system.1;
                diarized = not no_diarize;
                segments = segments;
              }))

  unfoldable pub transcribe_two_track :
      Option Text → Option Text → Option Text → Bool → Outcome Transcript
  unfolding both_tracks
  transcribe_two_track none none language no_diarize =
      some
        (err (IpcError.invalid_input (codes "two-track transcription requires at least one track")))
  transcribe_two_track (some system) mic_wav language no_diarize =
      both_tracks (some system) mic_wav language no_diarize
  transcribe_two_track none (some mic) language no_diarize =
      both_tracks none (some mic) language no_diarize

  -- The speakers of an imported file.
  unfoldable pub diarized : Text → Bool → Transcript → Outcome Transcript
  diarized audio_path no_diarize transcript =
      if no_diarize
      then some (ok transcript)
      else and_then (from_result from_diar (heavy.diarize audio_path)) λ turns. some (
          ok (record transcript {
            segments = merge_speaker_turns transcript.segments turns;
            diarized = true;
          }))

  -- An imported file has one track.
  unfoldable pub transcribe_file : Text → Option Text → Bool → Outcome Transcript
  unfolding transcribe_wav diarized
  transcribe_file audio_path language no_diarize =
      and_then (transcribe_wav audio_path language) λ track.
        diarized audio_path no_diarize (record {
          schema_version = schema_version;
          model = model_name track.0.1;
          audio_path = audio_path;
          audio_duration_ms = track.1;
          diarized = false;
          segments = track.0.0;
        })
