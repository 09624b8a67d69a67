-- ===== src/Asr/Recursive.antt =====
-- Confidence-recursive transcription: crates/panops-portable/src/recursive_asr.rs. The recursion is
-- on the depth that is left below `MAX_DEPTH`. A call that would panic in `clamp` answers `none`.
use panops.Base.{
  Bool, List, Option, Result, Text, [], add64, err, if◌then◌else◌, leb, length, ltb, map, max, min,
  none, not, ok, some, suc, u64_mod, zero, ℕ, ◌&&◌, ◌*◌, ◌++◌, ◌-◌, ◌/◌, ◌==◌, ◌||◌, ◌∷◌,
}
use panops.Transcript.{Segment, Transcript}
use panops.Transcript.Float.{f32_half, f32_lt, total_key}
use panops.Vad.{SpeechRegion}
use panops.Asr.{AsrError, AsrProvider}

pub record RegionResult : Type 0 where
  pub segments : List Segment
  pub model : Option Text

abbrev pub threshold : ℕ
threshold = f32_half

abbrev pub min_region_ms : ℕ
min_region_ms = 10_000

abbrev pub max_depth : ℕ
max_depth = 3

abbrev pub max_auto_split_ms : ℕ
max_auto_split_ms = 30_000

-- `&samples[a..b]`
abbrev drop_to : ℕ → List ℕ → List ℕ
drop_to zero xs = xs
drop_to (suc n) [] = []
drop_to (suc n) (x ∷ xs) = drop_to n xs

abbrev take_to : ℕ → List ℕ → List ℕ
take_to zero xs = []
take_to (suc n) [] = []
take_to (suc n) (x ∷ xs) = x ∷ take_to n xs

abbrev saturating_mul : ℕ → ℕ → ℕ
saturating_mul a b = min (a * b) (u64_mod - 1)

unfoldable pub slice_for_region : List ℕ → ℕ → SpeechRegion → List ℕ
slice_for_region samples sample_rate region =
    let len = length samples in
    let start = min (saturating_mul region.start_ms sample_rate / 1000) len in
    let end = max (min (saturating_mul region.end_ms sample_rate / 1000) len) start in
    take_to (end - start) (drop_to start samples)

unfoldable pub offset_segment : Segment → ℕ → ℕ → Segment
offset_segment seg region_start_ms region_end_ms = record seg {
  start_ms = min (add64 seg.start_ms region_start_ms) region_end_ms;
  end_ms = min (add64 seg.end_ms region_start_ms) region_end_ms;
}

-- `min_by(total_cmp)` on the confidence: the first of the least.
unfoldable pub worst_of : Segment → List Segment → Segment
worst_of w [] = w
worst_of w (s ∷ ss) =
    worst_of (if ltb (total_key s.confidence) (total_key w.confidence) then s else w) ss

-- `x.clamp(lo, hi)`, which panics on an empty range.
unfoldable pub clamp : ℕ → ℕ → ℕ → Option ℕ
clamp x lo hi = if leb lo hi then some (min (max x lo) hi) else none

-- What one call decides: its own answer, or the time to split at.
pub data Decision : Type 0 where
  keep_answer : Decision
  split_at : ℕ → Decision

unfoldable pub split_point : Bool → SpeechRegion → Segment → Option ℕ
unfolding clamp
split_point confidence_trigger region worst =
    let raw =
      if confidence_trigger
      then add64 worst.start_ms region.start_ms
      else add64 region.start_ms ((region.end_ms - region.start_ms) / 2) in
    clamp raw (add64 region.start_ms min_region_ms) (region.end_ms - min_region_ms)

-- Steps 5 to 8, with `none` for a panic.
unfoldable pub decide : Bool → ℕ → SpeechRegion → Option Text → List Segment → Option Decision
unfolding split_point worst_of
decide is_fake depth_left region (some hint) segments = some keep_answer
decide is_fake depth_left region none [] = some keep_answer
decide is_fake depth_left region none (s ∷ ss) =
    let duration_ms = region.end_ms - region.start_ms in
    let worst = worst_of s ss in
    let confidence_trigger = f32_lt worst.confidence threshold in
    let duration_trigger = ltb max_auto_split_ms duration_ms && not is_fake in
    if depth_left == 0 || ltb duration_ms (2 * min_region_ms)
    then some keep_answer
    else if not confidence_trigger && not duration_trigger
    then some keep_answer
    else elim (split_point confidence_trigger region worst) [
      | none ↦ none
      | some ms ↦ some (split_at ms)
    ]

abbrev pub or_model : Option Text → Option Text → Option Text
or_model none m = m
or_model (some m) n = some m

abbrev pub model_of : Transcript → Option Text
model_of t = elim t.segments [ [] ↦ none | _ ∷ _ ↦ some t.model ]

-- The two halves after one another; the first error is the answer.
abbrev pub join :
    Option Text
    → Option (Result AsrError RegionResult)
    → Option (Result AsrError RegionResult)
    → Option (Result AsrError RegionResult)
join m none r = none
join m (some (err e)) r = some (err e)
join m (some (ok l)) none = none
join m (some (ok l)) (some (err e)) = some (err e)
join m (some (ok l)) (some (ok r)) = some (
    ok (record {
      segments = l.segments ++ r.segments;
      model = or_model (or_model m l.model) r.model;
    }))

abbrev pub own_answer : SpeechRegion → Transcript → RegionResult
own_answer region t = record {
  segments = map (λ s. offset_segment s region.start_ms region.end_ms) t.segments;
  model = model_of t;
}

module _ (asr : AsrProvider) (samples : List ℕ) (sample_rate : ℕ) where
  -- One call, with the calls on the halves as an argument.
  unfoldable pub frame :
      ℕ
      → (SpeechRegion → Option (Result AsrError RegionResult))
      → SpeechRegion
      → Option Text
      → Option (Result AsrError RegionResult)
  unfolding slice_for_region offset_segment decide
  frame depth_left half region hint =
      elim (asr.transcribe (slice_for_region samples sample_rate region) sample_rate hint) [
        | err e ↦ some (err e)
        | ok t ↦ elim (decide asr.is_fake depth_left region hint t.segments) [
          | none ↦ none
          | some d ↦ elim d [
            | keep_answer ↦ some (ok (own_answer region t))
            | split_at ms ↦
                join (model_of t) (half (record { start_ms = region.start_ms; end_ms = ms }))
                  (half (record { start_ms = ms; end_ms = region.end_ms }))
          ]
        ]
      ]

  -- At the depth cap `decide` never splits, so the answer for a half is not used there.
  unfoldable pub recurse : ℕ → SpeechRegion → Option Text → Option (Result AsrError RegionResult)
  unfolding frame
  recurse zero region hint = frame zero (λ _. none) region hint
  recurse (suc n) region hint = frame (suc n) (λ r. recurse n r none) region hint

  unfoldable pub transcribe_recursive :
      SpeechRegion → Option Text → Option (Result AsrError RegionResult)
  unfolding recurse
  transcribe_recursive region hint = recurse max_depth region hint
