-- ===== src/Tests/Times.antt =====
-- The theorems on tracks, sections, regions and screenshots at concrete inputs.
use mathlib.Core.List.{Perm}
use panops.Base.{
  All, List, [], arith, concat, false, get_elem?, length, map, none, ok, some, true, ℕ, ◌/◌, ◌∷◌,
  ◌≡◌, err, subst, ◌<◌,
}
use panops.Transcript.{Segment, SpeakerTurn, Transcript}
use panops.Transcript.Float.{Rounding, f32_tenth}
use panops.Merge.{merge_two_track}
use panops.Merge.Dominant.{Dominates, dominant_speaker-Dominates}
use panops.Merge.Tracks.{IsMerged, merge_two_track-IsMerged}
use panops.Notes.Topics.{RawSection, default_config, segment_topics}
use panops.Notes.Topics.Partition.{Covers, iota, segment_topics-Covers}
use panops.Notes.Topics.Lengths.{LongAfterFirst, segment_topics-LongAfterFirst}
use panops.Notes.Anchoring.{Screenshot, anchor_screenshots, section_for_timestamp}
use panops.Notes.Anchoring.Nearest.{Anchors, section_for_timestamp-Anchors}
use panops.Notes.Anchoring.Lists.{anchor_screenshots-lem, anchored_at}
use panops.Vad.{SpeechRegion, merge_adjacent_regions}
use panops.Vad.Merging.{Apart, Inside, merge_adjacent_regions-Apart}
use panops.Asr.{AsrProvider}
use panops.Asr.Recursive.{transcribe_recursive}
use panops.Asr.Regions.{IsTimely, IsWithin, transcribe_recursive-IsWithin}
use panops.Tests.Samples.{m1, seg, turn}

abbrev turns : List SpeakerTurn
turns = turn 0 600 0 ∷ turn 600 5000 1 ∷ []

abbrev system : List Segment
system = seg 0 1000 none ∷ seg 700 900 none ∷ []

dominant_speaker-Dominates_example :
    Dominates 0 1000 turns (panops.Merge.dominant_speaker 0 1000 turns)
dominant_speaker-Dominates_example = dominant_speaker-Dominates 0 1000 turns

merge_two_track-IsMerged_example :
    (out : List Segment) × (merge_two_track system system turns ≡ some out)
    × IsMerged system system turns out
merge_two_track-IsMerged_example =
    merge_two_track-IsMerged system system turns (omega arith, (omega arith, tt))

-- Whole numbers in place of rounded ones.
abbrev exact : Rounding
exact = record { of_u64 = λ n. n; div = λ a b. a / b }

abbrev talk : List Segment
talk = seg 0 40_000 (some 0) ∷ seg 41_000 42_000 (some 1) ∷ seg 60_000 99_000 (some 0) ∷ []

segment_topics-Covers_example :
    Covers talk 0 (segment_topics exact (λ xs. xs) talk default_config) (length talk)
    × (concat (
          map
            (λ (s : RawSection). s.segment_indices)
            (segment_topics exact (λ xs. xs) talk default_config))
        ≡ iota 0 (length talk))
segment_topics-Covers_example = segment_topics-Covers exact (λ xs. xs) talk default_config

segment_topics-LongAfterFirst_example :
    LongAfterFirst default_config.min_section_ms
      (segment_topics exact (λ xs. xs) talk default_config)
segment_topics-LongAfterFirst_example =
    segment_topics-LongAfterFirst exact (λ xs. xs) talk default_config
      ((omega arith, (omega arith, tt)), ((omega arith, tt), (tt, tt)))

abbrev first_section : RawSection
first_section = record { start = 0; end = 10_000; segment_indices = 0 ∷ [] }

abbrev later_sections : List RawSection
later_sections = record { start = 20_000; end = 30_000; segment_indices = 1 ∷ [] } ∷ []

section_for_timestamp-Anchors_example :
    Anchors
      (first_section ∷ later_sections)
      16_000
      (section_for_timestamp (first_section ∷ later_sections) 16_000)
section_for_timestamp-Anchors_example =
    section_for_timestamp-Anchors first_section later_sections 16_000 (omega arith)

abbrev shots : List Screenshot
shots = record { ms_since_start = 16_000; path = m1; caption = none } ∷ []

anchor_screenshots-lem_example :
    (get_elem? (anchor_screenshots (first_section ∷ later_sections) shots) 1
      ≡ some (anchored_at first_section later_sections 1 shots))
    × Perm (concat (anchor_screenshots (first_section ∷ later_sections) shots)) shots
anchor_screenshots-lem_example =
    anchor_screenshots-lem first_section later_sections shots (omega arith, tt) 1 (omega arith)

abbrev region : ℕ → ℕ → SpeechRegion
region start_ms end_ms = record { start_ms = start_ms; end_ms = end_ms }

merge_adjacent_regions-Apart_example :
    Apart 200 (merge_adjacent_regions (region 500 900 ∷ region 0 400 ∷ []) 200)
    × All
        (Inside (merge_adjacent_regions (region 500 900 ∷ region 0 400 ∷ []) 200))
        (region 500 900 ∷ region 0 400 ∷ [])
merge_adjacent_regions-Apart_example =
    merge_adjacent_regions-Apart (region 500 900 ∷ region 0 400 ∷ []) 200

abbrev heard : Transcript
heard = record {
  schema_version = 2;
  model = m1;
  audio_path = [];
  audio_duration_ms = 0;
  diarized = false;
  segments = record (seg 12_000 15_000 none) { confidence = f32_tenth } ∷ [];
}

-- An adapter that hears one doubtful segment in whatever it is given.
abbrev mumbling : AsrProvider
mumbling = record { transcribe = λ samples rate hint. ok heard; is_fake = true }

mumbling-IsTimely : IsTimely mumbling
mumbling-IsTimely samples rate hint t e =
    subst
      (λ r. elim r [
        | ok a ↦
            All
              (λ s.
                (s.start_ms < 9_223_372_036_854_775_808) × (s.end_ms < 9_223_372_036_854_775_808))
              a.segments
        | err _ ↦ Unit
      ])
      e ((omega arith, omega arith), tt)

transcribe_recursive-IsWithin_example :
    IsWithin
      (region 1_000 41_000)
      (transcribe_recursive mumbling [] 16_000 (region 1_000 41_000) none)
transcribe_recursive-IsWithin_example =
    transcribe_recursive-IsWithin mumbling [] 16_000 mumbling-IsTimely (region 1_000 41_000) none
      (omega arith) (omega arith)
