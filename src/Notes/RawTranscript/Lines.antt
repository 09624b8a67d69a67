-- ===== src/Notes/RawTranscript/Lines.antt =====
-- The lines of the transcript of notes/raw_transcript.rs.
use panops.Base.{
  All, All-append, All-mono, List, Option, Text, [], ap, arith, codes, decimal, decimal-All_digits,
  false, if◌then◌else◌, is_digit, length, map, none, refl, some, suc, true, zero, ℕ, ◌%◌, ◌++◌, ◌-◌,
  ◌/◌, ◌==◌, ◌∙◌, ◌∷◌, ◌≡◌, all, concat, drop_bytes, reverse_bytes, space_length, space_length_back,
  strip, trim,
}
use panops.Transcript.{Segment}
use panops.Notes.RawTranscript.{
  format_ts, language_code, padded, raw_line, render_raw_transcript, speaker_name, unbroken, zeros,
  raw_parts,
}

-- No byte of the text is a line feed.
abbrev pub OneLine : Text → Type 0
OneLine t = All (λ c. (c == 10) ≡ false) t

abbrev prepend : ℕ → List Text → List Text
prepend c [] = (c ∷ []) ∷ []
prepend c (line ∷ lines) = (c ∷ line) ∷ lines

-- The lines of a text, each ended by a line feed.
unfoldable pub lines : Text → List Text
lines [] = []
lines (c ∷ t) = if c == 10 then [] ∷ lines t else prepend c (lines t)

lines-append : (line t : Text) → OneLine line → lines (line ++ 10 ∷ t) ≡ line ∷ lines t
unfolding lines
lines-append [] t h = refl
lines-append (c ∷ line) t h = rw h.0 (ap (prepend c) (lines-append line t h.1))

literal-OneLine : (t : Text) → all (λ c. if c == 10 then false else true) t ≡ true → OneLine t
literal-OneLine [] h = tt
literal-OneLine (c ∷ t) h = (ground arith, literal-OneLine t (ground arith))

concat-OneLine : (ts : List Text) → All OneLine ts → OneLine (concat ts)
concat-OneLine [] h = tt
concat-OneLine (t ∷ ts) h = All-append _ t (concat ts) h.0 (concat-OneLine ts h.1)

drop_bytes-OneLine : (n : ℕ) (t : Text) → OneLine t → OneLine (drop_bytes n t)
drop_bytes-OneLine zero t h = h
drop_bytes-OneLine (suc n) [] h = tt
drop_bytes-OneLine (suc n) (c ∷ t) h = drop_bytes-OneLine n t h.1

strip-OneLine : (at : Text → ℕ) (fuel t : Text) → OneLine t → OneLine (strip at fuel t)
strip-OneLine at [] t h = h
strip-OneLine at (f ∷ fuel) t h =
    elim (at t)
      as (λ n. OneLine (elim n [ zero ↦ t | suc k ↦ strip at fuel (drop_bytes (suc k) t) ])) [
        | zero ↦ h
        | suc k ↦ strip-OneLine at fuel (drop_bytes (suc k) t) (drop_bytes-OneLine (suc k) t h)
      ]

reverse_bytes-OneLine : (s acc : Text) → OneLine s → OneLine acc → OneLine (reverse_bytes s acc)
reverse_bytes-OneLine [] acc h k = k
reverse_bytes-OneLine (c ∷ s) acc h k = reverse_bytes-OneLine s (c ∷ acc) h.1 (h.0, k)

trim-OneLine : (t : Text) → OneLine t → OneLine (trim t)
unfolding trim
trim-OneLine t h =
    let front = strip space_length t t in
    let back = reverse_bytes front [] in
    reverse_bytes-OneLine (strip space_length_back back back) []
      (strip-OneLine space_length_back back back
        (reverse_bytes-OneLine front [] (strip-OneLine space_length t t h) tt))
      tt

digits-OneLine : (t : Text) → All (λ c. is_digit c ≡ true) t → OneLine t
digits-OneLine t h = All-mono _ _ t (λ c d. ground arith) h

zeros-OneLine : (k : ℕ) → OneLine (zeros k)
zeros-OneLine zero = tt
zeros-OneLine (suc k) = (refl, zeros-OneLine k)

decimal-OneLine : (n : ℕ) → OneLine (decimal n)
decimal-OneLine n = digits-OneLine (decimal n) (decimal-All_digits n)

padded-OneLine : (width n : ℕ) → OneLine (padded width n)
unfolding padded
padded-OneLine width n =
    All-append _ (zeros (width - length (decimal n))) (decimal n)
      (zeros-OneLine (width - length (decimal n))) (decimal-OneLine n)

format_ts-OneLine : (ms : ℕ) → OneLine (format_ts ms)
unfolding format_ts
format_ts-OneLine ms =
    let s = padded 2 (ms / 1000 % 60) in
    let millis = padded 3 (ms % 1000) in
    All-append _ (decimal (ms / 1000 / 60)) (b':' ∷ (s ++ b'.' ∷ millis))
      (decimal-OneLine (ms / 1000 / 60))
      (
        refl,
        All-append _ s (b'.' ∷ millis) (padded-OneLine 2 (ms / 1000 % 60))
            (refl, padded-OneLine 3 (ms % 1000)),
      )

speaker_name-OneLine : (speaker_id : Option ℕ) → OneLine (speaker_name speaker_id)
unfolding speaker_name
speaker_name-OneLine (some id) =
    All-append _ (codes "speaker_") (decimal id) (literal-OneLine (codes "speaker_") refl)
      (decimal-OneLine id)
speaker_name-OneLine none = literal-OneLine (codes "unknown") refl

unbroken-OneLine : (t : Text) → OneLine (map unbroken t)
unfolding unbroken
unbroken-OneLine [] = tt
unbroken-OneLine (c ∷ t) = (ground arith, unbroken-OneLine t)

-- A segment whose language code has no line feed.
abbrev pub CodeOneLine : Segment → Type 0
CodeOneLine seg = OneLine (language_code seg.language_detected)

raw_line-OneLine : (seg : Segment) → CodeOneLine seg → OneLine (raw_line seg)
unfolding raw_line
raw_line-OneLine seg h =
    let text = trim-OneLine (map unbroken seg.text) (unbroken-OneLine seg.text) in
    concat-OneLine (raw_parts seg) (
      literal-OneLine (codes "[") refl,
      (
        format_ts-OneLine seg.start_ms,
        (
          literal-OneLine (codes "-") refl,
          (
            format_ts-OneLine seg.end_ms,
            (
              literal-OneLine (codes "] ") refl,
              (
                speaker_name-OneLine seg.speaker_id,
                (
                  literal-OneLine (codes " (") refl,
                  (h, (literal-OneLine (codes "): ") refl, (text, tt))),
                ),
              ),
            ),
          ),
        ),
      ),
    )

-- If no language code has a line feed, the transcript has one line for each segment, in order,
-- and nothing else.
pub lines-render_raw_transcript :
    (segments : List Segment)
    → All CodeOneLine segments
    → lines (render_raw_transcript segments) ≡ map raw_line segments
unfolding render_raw_transcript lines
lines-render_raw_transcript [] h = refl
lines-render_raw_transcript (seg ∷ segments) h =
    lines-append (raw_line seg) (render_raw_transcript segments) (raw_line-OneLine seg h.0)
    ∙ ap (◌∷◌ (raw_line seg)) (lines-render_raw_transcript segments h.1)
