-- ===== src/Notes/Topics/Partition.antt =====
-- `segment_topics` partitions the transcript: consecutive runs of segments, each with the time
-- range from its first segment's start to its last segment's end.
use panops.Base.{
  Bool-cases, List, [], ap, ap₂, arith, get_elem?, inl, inr, length, ltb, refl, some, suc, zero, ℕ,
  ◌++◌, ◌+◌, ◌-◌, ◌<◌, ◌||◌, ◌∙◌, ◌∷◌, ◌≡◌, concat, false, map, ◌≤◌,
}
use panops.Transcript.{Segment}
use panops.Transcript.Float.{Rounding}
use panops.Notes.Topics.{
  RawSection, TopicSegmentationConfig, advance, is_speaker_shift_break, topic_loop, absorb,
  is_empty, merge_loop, place_section, segment_topics, merge_short_sections,
}

-- a, a + 1, …, of `n` numbers.
abbrev pub iota : ℕ → ℕ → List ℕ
iota a zero = []
iota a (suc n) = a ∷ iota (suc a) n

iota-append : (a k l : ℕ) {b : ℕ} → a + k ≡ b → iota a k ++ iota b l ≡ iota a (k + l)
iota-append a zero l e = ap₂ iota (omega arith) (omega arith)
iota-append a (suc k) l {b} e =
    let e' : suc k + l ≡ suc (k + l) = omega arith in
    rw e' (ap (◌∷◌ a) (iota-append (suc a) k l (omega arith)))

module _ (segments : List Segment) where
  -- The section is made of the segments from index `a` up to `b`, and of no others.
  pub record Spans (s : RawSection) (a b : ℕ) : Type 0 where
    pub count : ℕ
    pub nonempty : 0 < count
    pub ends_at : a + count ≡ b
    pub indices : s.segment_indices ≡ iota a count
    pub first : Segment
    pub at_first : get_elem? segments a ≡ some first
    pub start_eq : s.start ≡ first.start_ms
    pub last : Segment
    pub at_last : get_elem? segments (b - 1) ≡ some last
    pub end_eq : s.end ≡ last.end_ms

  -- The sections follow one another from index `a` up to `b`.
  abbrev pub Covers : ℕ → List RawSection → ℕ → Type 0
  Covers a [] b = a ≡ b
  Covers a (s ∷ sections) b = (m : ℕ) × Spans s a m × Covers m sections b

  Covers-append :
      (a : ℕ) (xs : List RawSection) (ys : List RawSection) (m b : ℕ)
      → Covers a xs m
      → Covers m ys b
      → Covers a (xs ++ ys) b
  Covers-append a [] ys m b h k = rw h k
  Covers-append a (x ∷ xs) ys m b h k = (h.0, h.1, Covers-append h.0 xs ys m b h.2 k)

  single : (s : RawSection) (a b : ℕ) → Spans s a b → Covers a (s ∷ []) b
  single s a b h = (b, h, refl)

  -- A section that takes in the next one.
  join :
      (s t : RawSection) (a m b : ℕ)
      → Spans s a m
      → Spans t m b
      → Spans
          (record s { end = t.end; segment_indices = s.segment_indices ++ t.segment_indices })
          a
          b
  join s t a m b p q = record {
    count = p.count + q.count;
    nonempty = omega (arith, p.nonempty);
    ends_at = omega (arith, p.ends_at, q.ends_at);
    indices = ap₂ ◌++◌ p.indices q.indices ∙ iota-append a p.count q.count p.ends_at;
    first = p.first;
    at_first = p.at_first;
    start_eq = p.start_eq;
    last = q.last;
    at_last = q.at_last;
    end_eq = q.end_eq;
  }

  -- A section of one segment.
  alone :
      (seg : Segment) (i : ℕ)
      → get_elem? segments i ≡ some seg
      → Spans
          (record { start = seg.start_ms; end = seg.end_ms; segment_indices = i ∷ [] })
          i
          (suc i)
  alone seg i e = record {
    count = 1;
    nonempty = omega arith;
    ends_at = omega arith;
    indices = refl;
    first = seg;
    at_first = e;
    start_eq = refl;
    last = seg;
    at_last = ap (get_elem? segments) (omega arith) ∙ e;
    end_eq = refl;
  }

  -- `rest` is what stands in the transcript from index `i` on.
  pub record IsRest (i : ℕ) (rest : List Segment) : Type 0 where
    pub at : (j : ℕ) → get_elem? segments (i + j) ≡ get_elem? rest j
    pub total : i + length rest ≡ length segments

  IsRest-head :
      (i : ℕ) (seg : Segment) (rest : List Segment)
      → IsRest i (seg ∷ rest)
      → get_elem? segments i ≡ some seg
  IsRest-head i seg rest r = ap (get_elem? segments) (omega arith) ∙ r.at 0

  IsRest-tail :
      (i : ℕ) (seg : Segment) (rest : List Segment) → IsRest i (seg ∷ rest) → IsRest (suc i) rest
  IsRest-tail i seg rest r = record {
    at = λ j. ap (get_elem? segments) (omega arith) ∙ r.at (suc j);
    total = omega (arith, r.total);
  }

  -- The open section and the closed ones together cover the transcript up to index `i`.
  abbrev IsOpen : ℕ → RawSection × List RawSection → Type 0
  IsOpen i (current, sections) = (a : ℕ) × Covers 0 sections a × Spans current a i

  module _ (fp : Rounding) (order : List (ℕ × ℕ) → List (ℕ × ℕ))
      (cfg : TopicSegmentationConfig) where
    advance-IsOpen :
        (i : ℕ) (prev seg : Segment) (state : RawSection × List RawSection)
        → get_elem? segments i ≡ some seg
        → IsOpen i state
        → IsOpen (suc i) (advance fp order segments cfg i prev seg state)
    unfolding advance
    advance-IsOpen i prev seg (current, sections) e (a, closed, open_part) =
        elim (Bool-cases (
          ltb cfg.topic_gap_ms (seg.start_ms - prev.end_ms)
          || is_speaker_shift_break fp order segments current.segment_indices seg.speaker_id
              cfg.speaker_shift_threshold)) [
                | inl breaks ↦ rw breaks (
                  i,
                  Covers-append 0 sections (current ∷ []) a i closed (single current a i open_part),
                  alone seg i e,
                )
                | inr goes_on ↦
                    rw goes_on (a, closed, join current _ a i (suc i) open_part (alone seg i e))
              ]

    pub topic_loop-Covers :
        (i : ℕ) (prev : Segment) (rest : List Segment) (state : RawSection × List RawSection)
        → IsRest i rest
        → IsOpen i state
        → Covers 0 (topic_loop fp order segments cfg i prev rest state) (length segments)
    unfolding topic_loop
    topic_loop-Covers i prev [] (current, sections) r (a, closed, open_part) =
        let e : i ≡ length segments = omega (arith, r.total) in
        rw e at (Covers-append 0 sections (current ∷ []) a i closed (single current a i open_part))
    topic_loop-Covers i prev (seg ∷ rest) state r h =
        topic_loop-Covers (suc i) seg rest (advance fp order segments cfg i prev seg state)
          (IsRest-tail i seg rest r) (advance-IsOpen i prev seg state (IsRest-head i seg rest r) h)

  pub absorb-Covers :
      (s : RawSection) (a : ℕ) (out : List RawSection) (m b : ℕ)
      → is_empty out ≡ false
      → Covers a out m
      → Spans s m b
      → Covers a (absorb s out) b
  unfolding absorb is_empty
  absorb-Covers s a [] m b ne h p = cc
  absorb-Covers s a (prev ∷ []) m b ne h p = single _ a b (join prev s a m b (rw h.2 at h.1) p)
  absorb-Covers s a (prev ∷ next ∷ out) m b ne h p =
      (h.0, h.1, absorb-Covers s h.0 (next ∷ out) m b refl h.2 p)

  pub place_section-Covers :
      (min_ms : ℕ) (s : RawSection) (out : List RawSection) (m b : ℕ)
      → Covers 0 out m
      → Spans s m b
      → Covers 0 (place_section min_ms s out) b
  unfolding place_section
  place_section-Covers min_ms s out m b h p = elim (Bool-cases (ltb (s.end - s.start) min_ms)) [
    | inr long ↦ rw long (Covers-append 0 out (s ∷ []) m b h (single s m b p))
    | inl short ↦ elim (Bool-cases (is_empty out)) [
      | inl first ↦ rw (short, first) (Covers-append 0 out (s ∷ []) m b h (single s m b p))
      | inr later ↦ rw (short, later) (absorb-Covers s 0 out m b later h p)
    ]
  ]

  merge_loop-Covers :
      (min_ms : ℕ) (sections out : List RawSection) (m b : ℕ)
      → Covers 0 out m
      → Covers m sections b
      → Covers 0 (merge_loop min_ms sections out) b
  unfolding merge_loop
  merge_loop-Covers min_ms [] out m b h k = rw k at h
  merge_loop-Covers min_ms (s ∷ sections) out m b h k =
      merge_loop-Covers min_ms sections (place_section min_ms s out) k.0 b
        (place_section-Covers min_ms s out m k.0 h k.1) k.2

  Covers-le : (a : ℕ) (sections : List RawSection) (b : ℕ) → Covers a sections b → a ≤ b
  Covers-le a [] b h = omega (arith, h)
  Covers-le a (s ∷ sections) b (m, p, rest) = omega (arith, p.ends_at, Covers-le m sections b rest)

  indices-iota :
      (a : ℕ) (sections : List RawSection) (k b : ℕ)
      → a + k ≡ b
      → Covers a sections b
      → concat (map (λ (s : RawSection). s.segment_indices) sections) ≡ iota a k
  indices-iota a [] k b e h = let z : k ≡ 0 = omega (arith, e, h) in rw z refl
  indices-iota a (s ∷ sections) k b e (m, p, rest) =
      let fits : m ≤ b = Covers-le m sections b rest in
      let e' : p.count + (k - p.count) ≡ k = omega (arith, e, p.ends_at) in
      let e'' : m + (k - p.count) ≡ b = omega (arith, e, p.ends_at) in
      ap₂ ◌++◌ p.indices (indices-iota m sections (k - p.count) b e'' rest)
      ∙ iota-append a p.count (k - p.count) p.ends_at
      ∙ ap (iota a) e'

module _ (fp : Rounding) (order : List (ℕ × ℕ) → List (ℕ × ℕ)) (cfg : TopicSegmentationConfig) where
  -- The sections before the short ones are merged.
  pub raw_sections-Covers :
      (first : Segment) (rest : List Segment)
      → Covers
          (first ∷ rest)
          0
          (topic_loop fp order
            (first ∷ rest)
            cfg
            1
            first
            rest
            (record { start = first.start_ms; end = first.end_ms; segment_indices = 0 ∷ [] }, []))
          (suc (length rest))
  raw_sections-Covers first rest =
      topic_loop-Covers (first ∷ rest) fp order cfg 1 first rest _
        (record {
          at = λ j. let e : 1 + j ≡ suc j = omega arith in ap (get_elem? (first ∷ rest)) e;
          total = omega arith;
        })
        (0, refl, alone (first ∷ rest) first 0 refl)

  segment_topics-covered :
      (segments : List Segment)
      → Covers segments 0 (segment_topics fp order segments cfg) (length segments)
  unfolding segment_topics merge_short_sections
  segment_topics-covered [] = refl
  segment_topics-covered (first ∷ rest) =
      merge_loop-Covers (first ∷ rest) cfg.min_section_ms _ [] 0 (suc (length rest)) refl
        (raw_sections-Covers first rest)

-- For every transcript and configuration: the sections follow one another without gap or overlap
-- from the first segment to the last, no section is empty, each runs from its first segment's start
-- to its last segment's end, and the indices of all sections in order are 0, 1, …, up to the number
-- of segments.
pub segment_topics-Covers :
    (fp : Rounding) (order : List (ℕ × ℕ) → List (ℕ × ℕ)) (segments : List Segment)
    (cfg : TopicSegmentationConfig)
    → Covers segments 0 (segment_topics fp order segments cfg) (length segments)
      × (concat (map (λ (s : RawSection). s.segment_indices) (segment_topics fp order segments cfg))
          ≡ iota 0 (length segments))
segment_topics-Covers fp order segments cfg =
    let h = segment_topics-covered fp order cfg segments in
    (h, indices-iota segments 0 _ (length segments) (length segments) (omega arith) h)
