-- ===== src/Notes/Topics/Lengths.antt =====
-- After `merge_short_sections` only the first section can be shorter than the minimum.
use panops.Base.{
  All, All-append, Bool-cases, IsSortedBy, List, [], arith, get_elem?, inl, inr, length, ltb, refl,
  some, some_inj, subst, suc, true, zero, ℕ, ◌++◌, ◌-◌, ◌∷◌, ◌≡◌, ◌≤◌, ◌⊎◌,
}
use panops.Transcript.{Segment}
use panops.Transcript.Float.{Rounding}
use panops.Notes.Topics.{
  RawSection, TopicSegmentationConfig, absorb, is_empty, merge_loop, merge_short_sections,
  place_section, segment_topics,
}
use panops.Notes.Topics.Partition.{Covers, Spans, place_section-Covers, raw_sections-Covers}

abbrev end_of : Segment → ℕ
end_of s = s.end_ms

All-get :
    (P : Segment → Type 0) (xs : List Segment) (j : ℕ) {y : Segment}
    → All P xs
    → get_elem? xs j ≡ some y
    → P y
All-get P [] j h e = cc
All-get P (x ∷ xs) zero h e = subst P (some_inj e) h.0
All-get P (x ∷ xs) (suc j) h e = All-get P xs j h.1 e

ends_ascend :
    (xs : List Segment) (i j : ℕ) {x y : Segment}
    → IsSortedBy end_of xs
    → i ≤ j
    → get_elem? xs i ≡ some x
    → get_elem? xs j ≡ some y
    → x.end_ms ≤ y.end_ms
ends_ascend [] i j s h ex ey = cc
ends_ascend (z ∷ xs) zero zero s h ex ey = ground arith
ends_ascend (z ∷ xs) zero (suc j) {x} {y} s h ex ey =
    subst (λ w. w.end_ms ≤ y.end_ms) (some_inj ex) (All-get (λ w. z.end_ms ≤ w.end_ms) xs j s.0 ey)
ends_ascend (z ∷ xs) (suc i) zero s h ex ey = absurd (omega arith)
ends_ascend (z ∷ xs) (suc i) (suc j) s h ex ey = ends_ascend xs i j s.1 (omega arith) ex ey

abbrev pub IsLong : ℕ → RawSection → Type 0
IsLong min_ms s = min_ms ≤ s.end - s.start

abbrev pub LongAfterFirst : ℕ → List RawSection → Type 0
LongAfterFirst min_ms [] = Unit
LongAfterFirst min_ms (s ∷ sections) = All (IsLong min_ms) sections

module _ (segments : List Segment) (min_ms : ℕ) (ascending : IsSortedBy end_of segments) where
  later_end :
      (s t : RawSection) (a m b : ℕ) → Spans segments s a m → Spans segments t m b → s.end ≤ t.end
  later_end s t a m b p q =
      let h =
        ends_ascend segments (m - 1) (b - 1) ascending (omega (arith, q.ends_at)) p.at_last
          q.at_last in
      omega (arith, h, p.end_eq, q.end_eq)

  absorb-IsLong :
      (s : RawSection) (a : ℕ) (prev : RawSection) (out : List RawSection) (m b : ℕ)
      → Covers segments a (prev ∷ out) m
      → Spans segments s m b
      → All (IsLong min_ms) (prev ∷ out)
      → All (IsLong min_ms) (absorb s (prev ∷ out))
  unfolding absorb
  absorb-IsLong s a prev [] m b (k, p, e) q h =
      let le : prev.end ≤ s.end = later_end prev s a m b (rw e at p) q in
      (omega (arith, le, h.0), tt)
  absorb-IsLong s a prev (next ∷ out) m b (k, p, rest) q h =
      (h.0, absorb-IsLong s k next out m b rest q h.1)

  absorb-LongAfterFirst :
      (s : RawSection) (a : ℕ) (out : List RawSection) (m b : ℕ)
      → Covers segments a out m
      → Spans segments s m b
      → LongAfterFirst min_ms out
      → LongAfterFirst min_ms (absorb s out)
  unfolding absorb
  absorb-LongAfterFirst s a [] m b c q h = tt
  absorb-LongAfterFirst s a (first ∷ []) m b c q h = tt
  absorb-LongAfterFirst s a (first ∷ next ∷ out) m b c q h =
      absorb-IsLong s c.0 next out m b c.2 q h

  append-LongAfterFirst :
      (out : List RawSection) (s : RawSection)
      → is_empty out ≡ true ⊎ IsLong min_ms s
      → LongAfterFirst min_ms out
      → LongAfterFirst min_ms (out ++ s ∷ [])
  unfolding is_empty
  append-LongAfterFirst [] s d h = tt
  append-LongAfterFirst (first ∷ out) s (inl e) h = cc
  append-LongAfterFirst (first ∷ out) s (inr l) h = All-append _ out (s ∷ []) h (l, tt)

  place_section-LongAfterFirst :
      (s : RawSection) (out : List RawSection) (m b : ℕ)
      → Covers segments 0 out m
      → Spans segments s m b
      → LongAfterFirst min_ms out
      → LongAfterFirst min_ms (place_section min_ms s out)
  unfolding place_section
  place_section-LongAfterFirst s out m b c q h = elim (Bool-cases (ltb (s.end - s.start) min_ms)) [
    | inr long ↦ rw long (append-LongAfterFirst out s (inr (ground arith)) h)
    | inl short ↦ elim (Bool-cases (is_empty out)) [
      | inl none_yet ↦ rw (short, none_yet) (append-LongAfterFirst out s (inl none_yet) h)
      | inr later ↦ rw (short, later) (absorb-LongAfterFirst s 0 out m b c q h)
    ]
  ]

  pub merge_loop-LongAfterFirst :
      (sections out : List RawSection) (m b : ℕ)
      → Covers segments 0 out m
      → Covers segments m sections b
      → LongAfterFirst min_ms out
      → LongAfterFirst min_ms (merge_loop min_ms sections out)
  unfolding merge_loop
  merge_loop-LongAfterFirst [] out m b c k h = h
  merge_loop-LongAfterFirst (s ∷ sections) out m b c k h =
      merge_loop-LongAfterFirst sections (place_section min_ms s out) k.0 b
        (place_section-Covers segments min_ms s out m k.0 c k.1) k.2
        (place_section-LongAfterFirst s out m k.0 c k.1 h)

-- If the segments' end times ascend, every section but the first lasts at least `min_section_ms`.
pub segment_topics-LongAfterFirst :
    (fp : Rounding) (order : List (ℕ × ℕ) → List (ℕ × ℕ)) (segments : List Segment)
    (cfg : TopicSegmentationConfig)
    → IsSortedBy end_of segments
    → LongAfterFirst cfg.min_section_ms (segment_topics fp order segments cfg)
unfolding segment_topics merge_short_sections
segment_topics-LongAfterFirst fp order [] cfg ascending = tt
segment_topics-LongAfterFirst fp order (first ∷ rest) cfg ascending =
    merge_loop-LongAfterFirst (first ∷ rest) cfg.min_section_ms ascending _ [] 0 (suc (length rest))
      refl (raw_sections-Covers fp order cfg first rest) tt
