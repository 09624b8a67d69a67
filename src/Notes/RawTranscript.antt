-- ===== src/Notes/RawTranscript.antt =====
-- The transcript.txt beside the notes: crates/panops-core/src/notes/raw_transcript.rs.
pub mod Lines
pub mod Stamps
use panops.Base.{
  List, Option, Text, [], codes, decimal, if◌then◌else◌, length, map, none, some, trim, ℕ, ◌%◌,
  ◌++◌, ◌-◌, ◌/◌, ◌==◌, ◌||◌, ◌∷◌, suc, zero, concat,
}
use panops.Transcript.{Segment}

abbrev pub zeros : ℕ → Text
zeros zero = []
zeros (suc k) = b'0' ∷ zeros k

-- `{n:0width}`.
unfoldable pub padded : ℕ → ℕ → Text
padded width n = let shown = decimal n in zeros (width - length shown) ++ shown

unfoldable pub format_ts : ℕ → Text
format_ts ms =
    let total_s = ms / 1000 in
    let millis = ms % 1000 in
    let m = total_s / 60 in
    let s = total_s % 60 in decimal m ++ b':' ∷ (padded 2 s ++ b'.' ∷ padded 3 millis)

unfoldable pub speaker_name : Option ℕ → Text
speaker_name (some id) = codes "speaker_" ++ decimal id
speaker_name none = codes "unknown"

unfoldable pub language_code : Option Text → Text
language_code (some code) = code
language_code none = codes "und"

-- A line break becomes a space.
unfoldable pub unbroken : ℕ → ℕ
unbroken c = if c == 10 || c == 13 then b' ' else c

-- What the format string of one segment puts together, without the line feed at its end.
abbrev pub raw_parts : Segment → List Text
raw_parts seg =
    let speaker = speaker_name seg.speaker_id in
    let lang = language_code seg.language_detected in
    let text = map unbroken seg.text in
    codes "["
    ∷ format_ts seg.start_ms
    ∷ codes "-"
    ∷ format_ts seg.end_ms
    ∷ codes "] "
    ∷ speaker
    ∷ codes " ("
    ∷ lang
    ∷ codes "): "
    ∷ trim text
    ∷ []

unfoldable pub raw_line : Segment → Text
raw_line seg = concat (raw_parts seg)

unfoldable pub render_raw_transcript : List Segment → Text
render_raw_transcript [] = []
render_raw_transcript (seg ∷ segments) = raw_line seg ++ 10 ∷ render_raw_transcript segments
