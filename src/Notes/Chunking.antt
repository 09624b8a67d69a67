-- ===== src/Notes/Chunking.antt =====
-- The split of a long section for the language model: crates/panops-core/src/notes/prompts.rs.
-- Lengths of texts in memory are far below 2^64, so their sums are taken as they are.
pub mod Chunks
use panops.Base.{
  Bool, List, Option, [], false, if◌then◌else◌, leb, length, ltb, none, not, some, true, ℕ, ◌&&◌,
  ◌++◌, ◌+◌, ◌-◌, ◌==◌, ◌||◌, ◌∷◌,
}
use panops.Transcript.{Segment}

abbrev pub segment_line_overhead : ℕ
segment_line_overhead = 20

abbrev pub split_gap_threshold_ms : ℕ
split_gap_threshold_ms = 2000

abbrev pub seg_chars : Segment → ℕ
seg_chars s = length s.text + segment_line_overhead

unfoldable pub estimate_transcript_chars : List Segment → ℕ
estimate_transcript_chars [] = 0
estimate_transcript_chars (s ∷ ss) = seg_chars s + estimate_transcript_chars ss

-- The loop's variables.
pub record Split : Type 0 where
  pub chunks : List (List Segment)
  pub current : List Segment
  pub current_chars : ℕ

abbrev pub is_empty : List Segment → Bool
is_empty [] = true
is_empty (s ∷ ss) = false

abbrev pub flush : Split → Split
flush st = record { chunks = st.chunks ++ st.current ∷ []; current = []; current_chars = 0 }

unfoldable pub flush_full : ℕ → Segment → Split → Split
flush_full max_chars seg st =
    if ltb max_chars (st.current_chars + seg_chars seg) && not (is_empty st.current)
    then flush st
    else st

abbrev pub same_speaker : Option ℕ → Option ℕ → Bool
same_speaker none none = true
same_speaker none (some b) = false
same_speaker (some a) none = false
same_speaker (some a) (some b) = a == b

abbrev last_of : Segment → List Segment → Segment
last_of s [] = s
last_of s (t ∷ ts) = last_of t ts

-- A pause or another speaker between the last segment of `current` and this one.
unfoldable pub is_boundary : List Segment → Segment → Bool
is_boundary [] seg = false
is_boundary (s ∷ ss) seg =
    let prev = last_of s ss in
    ltb split_gap_threshold_ms (seg.start_ms - prev.end_ms)
    || not (same_speaker seg.speaker_id prev.speaker_id)

unfoldable pub flush_at_boundary : ℕ → Segment → Split → Split
unfolding is_boundary
flush_at_boundary target_chars seg st =
    if leb target_chars st.current_chars
      && (not (is_empty st.current) && is_boundary st.current seg)
    then flush st
    else st

abbrev pub push : Segment → Split → Split
push seg st = record st {
  current = st.current ++ seg ∷ [];
  current_chars = st.current_chars + seg_chars seg;
}

unfoldable pub split_loop : ℕ → ℕ → List Segment → Split → Split
unfolding flush_full flush_at_boundary
split_loop target_chars max_chars [] st = st
split_loop target_chars max_chars (seg ∷ segs) st =
    split_loop target_chars max_chars segs
      (push seg (flush_at_boundary target_chars seg (flush_full max_chars seg st)))

abbrev pub finish : Split → List (List Segment)
finish st = if is_empty st.current then st.chunks else st.chunks ++ st.current ∷ []

abbrev pub nothing_yet : Split
nothing_yet = record { chunks = []; current = []; current_chars = 0 }

unfoldable pub split_segments_for_chunking : List Segment → ℕ → ℕ → List (List Segment)
unfolding estimate_transcript_chars split_loop
split_segments_for_chunking segments target_chars max_chars =
    if is_empty segments
    then []
    else if leb (estimate_transcript_chars segments) max_chars
    then segments ∷ []
    else finish (split_loop target_chars max_chars segments nothing_yet)
