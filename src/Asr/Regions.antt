-- ===== src/Asr/Regions.antt =====
-- Where the segments of a recursive transcription lie.
use panops.Base.{
  All, Bool, Bool-cases, List, Option, Result, Text, [], add64, arith, err, if◌then◌else◌, inl, inr,
  leb, ltb, map, max, min, none, not, ok, refl, some, true, ℕ, ◌&&◌, ◌*◌, ◌+◌, ◌-◌, ◌/◌, ◌<◌, ◌==◌,
  ◌||◌, ◌∷◌, ◌≡◌, ◌≤◌, ◌⊎◌, All-append, All-mono, Result-cases, suc, zero,
}
use panops.Transcript.{Segment, Transcript}
use panops.Transcript.Float.{f32_lt}
use panops.Vad.{SpeechRegion}
use panops.Asr.{AsrError, AsrProvider}
use panops.Asr.Recursive.{
  Decision, RegionResult, clamp, decide, keep_answer, max_auto_split_ms, min_region_ms,
  offset_segment, split_at, split_point, threshold, worst_of, frame, join, max_depth, model_of,
  recurse, slice_for_region, transcribe_recursive,
}

abbrev pub Within : ℕ → ℕ → Segment → Type 0
Within lo hi s = (lo ≤ s.start_ms) × (s.start_ms ≤ hi) × (lo ≤ s.end_ms) × (s.end_ms ≤ hi)

-- No panic, and an answer whose segments lie in the region, or an error.
abbrev pub IsWithin : SpeechRegion → Option (Result AsrError RegionResult) → Type 0
IsWithin region none = ⊥
IsWithin region (some (err e)) = Unit
IsWithin region (some (ok r)) = All (Within region.start_ms region.end_ms) r.segments

-- The adapter's times, from the start of the samples it was given, stay far from overflow.
abbrev pub IsTimely : AsrProvider → Type 0
IsTimely asr =
    (samples : List ℕ) (sample_rate : ℕ) (hint : Option Text) (t : Transcript)
    → asr.transcribe samples sample_rate hint ≡ ok t
    → All (λ s. (s.start_ms < 9_223_372_036_854_775_808) × (s.end_ms < 9_223_372_036_854_775_808))
        t.segments

offset-Within :
    (lo hi : ℕ) (segments : List Segment)
    → lo ≤ hi
    → hi < 9_223_372_036_854_775_808
    → All
        (λ s. (s.start_ms < 9_223_372_036_854_775_808) × (s.end_ms < 9_223_372_036_854_775_808))
        segments
    → All (Within lo hi) (map (λ s. offset_segment s lo hi) segments)
unfolding offset_segment
offset-Within lo hi [] le small h = tt
offset-Within lo hi (s ∷ ss) le small h = (
  (omega (arith, le, small, h.0.0), omega arith, omega (arith, le, small, h.0.1), omega arith),
  offset-Within lo hi ss le small h.1,
)

-- A time to split at exists in every region of at least two smallest regions, and leaves at least
-- the smallest region on both sides.
split_point-some :
    (low : Bool) (region : SpeechRegion) (worst : Segment)
    → region.end_ms < 9_223_372_036_854_775_808
    → region.start_ms + 2 * min_region_ms ≤ region.end_ms
    → (ms : ℕ) × (split_point low region worst ≡ some ms)
      × (region.start_ms + min_region_ms ≤ ms)
      × (ms + min_region_ms ≤ region.end_ms)
unfolding split_point clamp
split_point-some low region worst small long =
    let lo = region.start_ms + min_region_ms in
    let hi = region.end_ms - min_region_ms in
    let exact : add64 region.start_ms min_region_ms ≡ lo = omega (arith, small, long) in
    let fits : leb lo hi ≡ true = ground (arith, long) in
    let raw =
      if low
      then add64 worst.start_ms region.start_ms
      else add64 region.start_ms ((region.end_ms - region.start_ms) / 2) in
    (min (max raw lo) hi, rw (exact, fits) refl, omega (arith, long), omega (arith, long))

abbrev Splits : SpeechRegion → ℕ → Option Decision → Type 0
Splits region depth_left d =
    (d ≡ some keep_answer)
    ⊎ ((ms : ℕ) × (d ≡ some (split_at ms))
        × (region.start_ms + min_region_ms ≤ ms)
        × (ms + min_region_ms ≤ region.end_ms)
        × (0 < depth_left))

decide-Splits :
    (is_fake : Bool) (depth_left : ℕ) (region : SpeechRegion) (hint : Option Text)
    (ss : List Segment)
    → region.end_ms < 9_223_372_036_854_775_808
    → Splits region depth_left (decide is_fake depth_left region hint ss)
unfolding decide
decide-Splits is_fake depth_left region (some hint) ss small = inl refl
decide-Splits is_fake depth_left region none [] small = inl refl
decide-Splits is_fake depth_left region none (s ∷ ss) small =
    elim (Bool-cases
      (depth_left == 0 || ltb (region.end_ms - region.start_ms) (2 * min_region_ms))) [
        | inl short ↦ rw (short, decide) (inl refl)
        | inr wide ↦ elim (Bool-cases quiet) [
          | inl keeps ↦ rw (wide, keeps, decide) (inl refl)
          | inr splits ↦
              let (ms, e, lo, hi) =
                split_point-some low region worst small (ground (arith, wide)) in
              rw (wide, splits, e, decide) (inr (ms, refl, lo, hi, ground (arith, wide)))
        ]
      ]
  where
    worst : Segment
    worst = worst_of s ss

    low : Bool
    low = f32_lt worst.confidence threshold

    quiet : Bool
    quiet = not low && not (ltb max_auto_split_ms (region.end_ms - region.start_ms) && not is_fake)

Within-wider :
    (lo hi lo' hi' : ℕ) (ss : List Segment)
    → lo ≤ lo'
    → hi' ≤ hi
    → All (Within lo' hi') ss
    → All (Within lo hi) ss
Within-wider lo hi lo' hi' ss l h w =
    All-mono _ _ ss
      (λ s (a, b, c, d).
        (omega (arith, l, a), omega (arith, h, b), omega (arith, l, c), omega (arith, h, d)))
      w

join-IsWithin :
    (m : Option Text) (region : SpeechRegion) (ms : ℕ)
    → region.start_ms ≤ ms
    → ms ≤ region.end_ms
    → (l r : Option (Result AsrError RegionResult))
    → IsWithin (record { start_ms = region.start_ms; end_ms = ms }) l
    → IsWithin (record { start_ms = ms; end_ms = region.end_ms }) r
    → IsWithin region (join m l r)
join-IsWithin m region ms lo hi none r h k = h
join-IsWithin m region ms lo hi (some (err e)) r h k = tt
join-IsWithin m region ms lo hi (some (ok l)) none h k = k
join-IsWithin m region ms lo hi (some (ok l)) (some (err e)) h k = tt
join-IsWithin m region ms lo hi (some (ok l)) (some (ok r)) h k =
    All-append _ l.segments r.segments
      (Within-wider region.start_ms region.end_ms region.start_ms ms l.segments (omega arith) hi h)
      (Within-wider region.start_ms region.end_ms ms region.end_ms r.segments lo (omega arith) k)

module _ (asr : AsrProvider) (samples : List ℕ) (sample_rate : ℕ) where
  -- One frame, where the answers for the halves are known to be good.
  frame-IsWithin :
      (depth_left : ℕ) (half : SpeechRegion → Option (Result AsrError RegionResult))
      → IsTimely asr
      → (0 < depth_left
          → (r : SpeechRegion) → r.end_ms < 9_223_372_036_854_775_808
          → r.start_ms ≤ r.end_ms
          → IsWithin r (half r))
      → (region : SpeechRegion) (hint : Option Text) → region.end_ms < 9_223_372_036_854_775_808
      → region.start_ms ≤ region.end_ms
      → IsWithin region (frame asr samples sample_rate depth_left half region hint)
  unfolding frame
  frame-IsWithin depth_left half timely good region hint small le =
      elim (Result-cases
        (asr.transcribe (slice_for_region samples sample_rate region) sample_rate hint)) [
          | inr (e, failed) ↦ rw (failed, frame) tt
          | inl (t, done) ↦
              elim (decide-Splits asr.is_fake depth_left region hint t.segments small) [
                | inl kept ↦
                    rw (done, kept, frame)
                      (offset-Within region.start_ms region.end_ms t.segments le small
                        (timely _ sample_rate hint t done))
                | inr (ms, split, lo, hi, deep) ↦
                    let left : SpeechRegion = record { start_ms = region.start_ms; end_ms = ms } in
                    let right : SpeechRegion = record { start_ms = ms; end_ms = region.end_ms } in
                    rw (done, split, frame)
                      (join-IsWithin (model_of t) region ms (omega (arith, lo)) (omega (arith, hi))
                        (half left) (half right)
                        (good deep left (omega (arith, hi, small)) (omega (arith, lo)))
                        (good deep right small (omega (arith, hi))))
              ]
        ]

  recurse-IsWithin :
      IsTimely asr
      → (depth_left : ℕ) (region : SpeechRegion) (hint : Option Text)
      → region.end_ms < 9_223_372_036_854_775_808
      → region.start_ms ≤ region.end_ms
      → IsWithin region (recurse asr samples sample_rate depth_left region hint)
  unfolding recurse
  recurse-IsWithin timely zero region hint small le =
      frame-IsWithin zero (λ _. none) timely (λ deep. absurd (omega (arith, deep))) region hint
        small le
  recurse-IsWithin timely (suc n) region hint small le =
      frame-IsWithin (suc n) (λ r. recurse asr samples sample_rate n r none) timely
        (λ deep r s l. recurse-IsWithin timely n r none s l) region hint small le

  -- For an adapter whose segment times are below 2^63 and a region that ends below 2^63 and not
  -- before it starts, `transcribe_recursive` does not panic: it answers with an adapter's error, or
  -- with segments that all start and end within the region.
  pub transcribe_recursive-IsWithin :
      IsTimely asr
      → (region : SpeechRegion) (hint : Option Text) → region.end_ms < 9_223_372_036_854_775_808
      → region.start_ms ≤ region.end_ms
      → IsWithin region (transcribe_recursive asr samples sample_rate region hint)
  unfolding transcribe_recursive
  transcribe_recursive-IsWithin timely region hint small le =
      recurse-IsWithin timely max_depth region hint small le
