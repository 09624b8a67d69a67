-- ===== src/Engine/Transcribing/Times.antt =====
-- Where the segments of a transcription lie, whatever the adapters answer.
use panops.Base.{
  All, All-append, All-mono, Bool, Bool-cases, List, Option, Text, [], arith, false, inl, inr, leb,
  length, max, none, some, true, ℕ, ◌*◌, ◌++◌, ◌/◌, ◌<◌, ◌∷◌, ◌≤◌,
}
use panops.Transcript.{Segment}
use panops.Vad.{SpeechRegion, clamp_to, merge_adjacent_regions}
use panops.Asr.Recursive.{RegionResult, or_model, transcribe_recursive}
use panops.Asr.Regions.{IsTimely, Within, transcribe_recursive-IsWithin}
use panops.Merge.Tracks.{Fits, merge_two_track-IsMerged}
use panops.Engine.Transcribing.{
  HeavyAdapters, Outcome, Track, both_tracks, if_there, length_ms, or_panic, recursive_answer,
  transcribe_regions, transcribe_track, transcribe_two_track, transcribe_wav, turns_of,
}
use panops.Engine.Transcribing.Inside.{
  Good, Good-and_then, Good-from_result, IsAudio, IsInside, IsSound, IsTimed, clamp_to-le,
  length_ms-Good, merged-IsInside, recursive-Good, widened,
}

module _ (heavy : HeavyAdapters) (timely : IsTimely heavy.asr) where
  regions-Good :
      (samples : List ℕ) (sample_rate : ℕ) (language : Option Text) (total : ℕ)
      → total < 9_223_372_036_854_775_808
      → (regions : List SpeechRegion) (track : Track) → IsInside total track.0
      → Good
          (λ t. IsInside total t.0)
          (transcribe_regions heavy samples sample_rate language total regions track)
  unfolding transcribe_regions
  regions-Good samples sample_rate language total small [] track inside = inside
  regions-Good samples sample_rate language total small (region ∷ regions) (segments, seen) inside =
      let clamped = clamp_to region total in
      let answer =
        recursive_answer (transcribe_recursive heavy.asr samples sample_rate clamped language) in
      let next : RegionResult → Outcome Track = λ result.
        transcribe_regions heavy samples sample_rate language total regions
          (segments ++ result.segments, or_model seen result.model) in
      elim (Bool-cases (leb clamped.end_ms clamped.start_ms)) [
        | inl empty ↦
            rw (empty, transcribe_regions)
              (regions-Good samples sample_rate language total small regions (segments, seen)
                inside)
        | inr speech ↦
            rw (speech, transcribe_regions)
              (Good-and_then _ (λ t. IsInside total t.0) answer next
                (recursive-Good clamped _ (
                  transcribe_recursive-IsWithin heavy.asr samples sample_rate timely clamped
                    language (omega (arith, clamp_to-le region total)) (ground arith)))
                λ result within.
                  regions-Good samples sample_rate language total small regions
                    (segments ++ result.segments, or_model seen result.model)
                    (All-append (Within 0 total) segments result.segments inside
                      (All-mono _ _ result.segments (λ s w. widened region total s w) within)))
      ]

  track-Good :
      (samples : List ℕ) (sample_rate : ℕ) (language : Option Text)
      → IsAudio (samples, sample_rate)
      → Good
          (λ t. IsInside (length samples * 1000 / sample_rate) t.0)
          (transcribe_track heavy samples sample_rate language)
  unfolding transcribe_track length_ms
  track-Good samples sample_rate language (nonzero, small) =
      let total = length samples * 1000 / sample_rate in
      Good-and_then (λ regions. Unit) (λ t. IsInside total t.0) _ _
        (Good-from_result (λ regions. Unit) _ (heavy.detect_speech samples sample_rate)
          λ regions h. tt)
        λ regions u.
          Good-and_then _ (λ t. IsInside total t.0) (or_panic (length_ms samples sample_rate)) _
            (length_ms-Good samples sample_rate nonzero)
            λ n same. rw same (
              regions-Good samples sample_rate language total small
                (merge_adjacent_regions regions 5000) ([], none) tt)

  abbrev OnTrack : Track × ℕ → Type 0
  OnTrack t = IsInside t.1 t.0.0

  wav-Good :
      (wav : Text) (language : Option Text)
      → IsSound heavy
      → Good OnTrack (transcribe_wav heavy wav language)
  unfolding transcribe_wav
  wav-Good wav language sound =
      Good-and_then IsAudio OnTrack _ _ (Good-from_result IsAudio _ (heavy.load wav) (sound.0 wav))
        λ audio good.
          Good-and_then _ OnTrack (or_panic (length_ms audio.0 audio.1)) _
            (length_ms-Good audio.0 audio.1 good.0)
            λ n same. rw same (
              Good-and_then _ OnTrack (transcribe_track heavy audio.0 audio.1 language) _
                (track-Good audio.0 audio.1 language good) λ track inside. inside)

  maybe-Good :
      (wav language : Option Text)
      → IsSound heavy
      → Good OnTrack (if_there heavy wav (λ w. transcribe_wav heavy w language))
  maybe-Good none language sound = tt
  maybe-Good (some wav) language sound = wav-Good wav language sound

  turns-Good :
      (system : Option Text) (no_diarize : Bool)
      → IsSound heavy
      → Good (All Fits) (turns_of heavy system no_diarize)
  unfolding turns_of
  turns-Good none no_diarize sound = tt
  turns-Good (some system) true sound = tt
  turns-Good (some system) false sound =
      Good-from_result (All Fits) _ (heavy.diarize system) (sound.1 system)

  both-Good :
      (system mic language : Option Text) (no_diarize : Bool)
      → IsSound heavy
      → Good IsTimed (both_tracks heavy system mic language no_diarize)
  unfolding both_tracks
  both-Good system mic language no_diarize sound =
      Good-and_then OnTrack IsTimed _ _ (maybe-Good mic language sound) λ m m_inside.
        Good-and_then OnTrack IsTimed _ _ (maybe-Good system language sound) λ s s_inside.
          Good-and_then (All Fits) IsTimed _ _ (turns-Good system no_diarize sound) λ turns fits.
            let (out, merged, is_merged) = merge_two_track-IsMerged m.0.0 s.0.0 turns fits in
            let total = max m.1 s.1 in
            rw merged (
              merged-IsInside total m.0.0 s.0.0 turns out merged
                  (All-mono _ _ m.0.0 (λ x w. longer m.1 total x (omega arith) w) m_inside)
                  (All-mono _ _ s.0.0 (λ x w. longer s.1 total x (omega arith) w) s_inside),
              is_merged.sorted,
            )
    where
      longer : (n total : ℕ) (x : Segment) → n ≤ total → Within 0 n x → Within 0 total x
      longer n total x le w =
          (omega arith, omega (arith, le, w.1), omega arith, omega (arith, le, w.3))

  -- For a recognizer whose times are below 2^63, a loader that gives audio of a sample rate above 0
  -- and less than 2^63 milliseconds, and a diarizer whose speaker ids are not the largest of 32 bits,
  -- transcribe_two_track does not panic. It answers with an error, or with a transcript whose segments
  -- ascend in start time and all lie between 0 and the length of the longer track.
  pub transcribe_two_track-Good :
      (system_wav mic_wav language : Option Text) (no_diarize : Bool)
      → IsSound heavy
      → Good IsTimed (transcribe_two_track heavy system_wav mic_wav language no_diarize)
  unfolding transcribe_two_track
  transcribe_two_track-Good none none language no_diarize sound = tt
  transcribe_two_track-Good (some system) mic_wav language no_diarize sound =
      both-Good (some system) mic_wav language no_diarize sound
  transcribe_two_track-Good none (some mic) language no_diarize sound =
      both-Good none (some mic) language no_diarize sound
