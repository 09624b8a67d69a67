-- ===== src/Notes/Topics.antt =====
-- crates/panops-core/src/notes/topic_segmentation.rs. The iteration order of the `HashMap` of
-- speaker totals and the two rounding operations of `f32` are parameters. Indices are read by
-- `select`, which skips one that is out of range; Topics/Partition shows that none ever is.
pub mod Partition
pub mod Lengths
use panops.Base.{
  Bool, List, Option, [], add64, false, get_elem?, if◌then◌else◌, ltb, none, not, some, suc, true,
  ℕ, ◌&&◌, ◌++◌, ◌-◌, ◌==◌, ◌||◌, ◌∷◌,
}
use panops.Transcript.{Segment}
use panops.Transcript.Float.{Rounding, f32_lt, f32_tenth, f32_zero}

pub record TopicSegmentationConfig : Type 0 where
  pub topic_gap_ms : ℕ
  pub min_section_ms : ℕ
  pub speaker_shift_threshold : ℕ

abbrev pub default_config : TopicSegmentationConfig
default_config = record {
  topic_gap_ms = 8000;
  min_section_ms = 30_000;
  speaker_shift_threshold = f32_tenth;
}

pub record RawSection : Type 0 where
  pub start : ℕ
  pub end : ℕ
  pub segment_indices : List ℕ

abbrev pub or_skip : Option Segment → List Segment → List Segment
or_skip none rest = rest
or_skip (some s) rest = s ∷ rest

unfoldable pub select : List Segment → List ℕ → List Segment
select segments [] = []
select segments (i ∷ is) = or_skip (get_elem? segments i) (select segments is)

abbrev pub duration : Segment → ℕ
duration s = s.end_ms - s.start_ms

-- `*totals.entry(id).or_default() += ms`
pub add_total : ℕ → ℕ → List (ℕ × ℕ) → List (ℕ × ℕ)
add_total id ms [] = (id, ms) ∷ []
add_total id ms ((j, total) ∷ totals) =
    if id == j then (j, add64 total ms) ∷ totals else (j, total) ∷ add_total id ms totals

pub count_speaker : Segment → List (ℕ × ℕ) → List (ℕ × ℕ)
unfolding add_total
count_speaker s totals = elim s.speaker_id [
  | none ↦ totals
  | some id ↦ add_total id (duration s) totals
]

pub speaker_totals : List Segment → List (ℕ × ℕ) → List (ℕ × ℕ)
unfolding count_speaker
speaker_totals [] totals = totals
speaker_totals (s ∷ segments) totals = speaker_totals segments (count_speaker s totals)

-- `max_by_key`: of several largest elements the last one.
pub max_total : List (ℕ × ℕ) → Option (ℕ × ℕ) → Option (ℕ × ℕ)
max_total [] best = best
max_total ((id, ms) ∷ totals) best = max_total totals (elim best [
  | none ↦ some (id, ms)
  | some (j, top) ↦ if ltb ms top then some (j, top) else some (id, ms)
])

-- The two sums of `speaker_share`: all speakered time, and that of `who`.
pub share_totals : List Segment → ℕ → ℕ × ℕ → ℕ × ℕ
share_totals [] who sums = sums
share_totals (s ∷ segments) who sums = share_totals segments who (elim s.speaker_id [
  | none ↦ sums
  | some id ↦ (add64 sums.0 (duration s), (if id == who then add64 sums.1 (duration s) else sums.1))
])

module _ (fp : Rounding) (order : List (ℕ × ℕ) → List (ℕ × ℕ)) where
  pub dominant_speaker : List Segment → List ℕ → Option ℕ
  unfolding speaker_totals max_total select
  dominant_speaker segments indices =
      elim (max_total (order (speaker_totals (select segments indices) [])) none) [
        | none ↦ none
        | some (id, _) ↦ some id
      ]

  pub speaker_share : List Segment → List ℕ → ℕ → ℕ
  unfolding share_totals select
  speaker_share segments indices who =
      let (total, who_total) = share_totals (select segments indices) who (0, 0) in
      if total == 0 then f32_zero else fp.div (fp.of_u64 who_total) (fp.of_u64 total)

  pub is_speaker_shift_break : List Segment → List ℕ → Option ℕ → ℕ → Bool
  unfolding dominant_speaker speaker_share f32_lt
  is_speaker_shift_break segments section_indices none threshold = false
  is_speaker_shift_break segments section_indices (some new_id) threshold =
      elim (dominant_speaker segments section_indices) [
        | none ↦ false
        | some dom ↦
            if dom == new_id
            then false
            else f32_lt (speaker_share segments section_indices new_id) threshold
      ]

  -- One round of the loop of `segment_topics`, on the open section and the closed ones.
  pub advance :
      List Segment
      → TopicSegmentationConfig
      → ℕ
      → Segment
      → Segment
      → RawSection × List RawSection
      → RawSection × List RawSection
  unfolding is_speaker_shift_break
  advance segments cfg i prev seg (current, sections) =
      let gap = seg.start_ms - prev.end_ms in
      let speaker_break =
        is_speaker_shift_break segments current.segment_indices seg.speaker_id
          cfg.speaker_shift_threshold in
      if ltb cfg.topic_gap_ms gap || speaker_break
      then (
        record { start = seg.start_ms; end = seg.end_ms; segment_indices = i ∷ [] },
        sections ++ current ∷ [],
      )
      else (
        record current { end = seg.end_ms; segment_indices = current.segment_indices ++ i ∷ [] },
        sections,
      )

  pub topic_loop :
      List Segment
      → TopicSegmentationConfig
      → ℕ
      → Segment
      → List Segment
      → RawSection × List RawSection
      → List RawSection
  topic_loop segments cfg i prev [] (current, sections) = sections ++ current ∷ []
  topic_loop segments cfg i prev (seg ∷ rest) state =
      topic_loop segments cfg (suc i) seg rest (advance segments cfg i prev seg state)

-- `out.last_mut()` takes in a short section.
pub absorb : RawSection → List RawSection → List RawSection
absorb s [] = s ∷ []
absorb s (prev ∷ []) =
    record prev { end = s.end; segment_indices = prev.segment_indices ++ s.segment_indices } ∷ []
absorb s (prev ∷ next ∷ out) = prev ∷ absorb s (next ∷ out)

pub is_empty : List RawSection → Bool
is_empty [] = true
is_empty (s ∷ out) = false

pub place_section : ℕ → RawSection → List RawSection → List RawSection
unfolding absorb is_empty
place_section min_ms s out =
    if ltb (s.end - s.start) min_ms && not (is_empty out) then absorb s out else out ++ s ∷ []

pub merge_loop : ℕ → List RawSection → List RawSection → List RawSection
merge_loop min_ms [] out = out
merge_loop min_ms (s ∷ sections) out = merge_loop min_ms sections (place_section min_ms s out)

pub merge_short_sections : List RawSection → ℕ → List RawSection
unfolding merge_loop place_section
merge_short_sections sections min_ms = merge_loop min_ms sections []

module _ (fp : Rounding) (order : List (ℕ × ℕ) → List (ℕ × ℕ)) where
  unfoldable pub segment_topics : List Segment → TopicSegmentationConfig → List RawSection
  unfolding topic_loop advance merge_short_sections
  segment_topics [] cfg = []
  segment_topics (first ∷ rest) cfg =
      merge_short_sections
        (topic_loop fp order (first ∷ rest) cfg 1 first rest
          (record { start = first.start_ms; end = first.end_ms; segment_indices = 0 ∷ [] }, []))
        cfg.min_section_ms
