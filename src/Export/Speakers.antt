-- ===== src/Export/Speakers.antt =====
-- Speaker ids for people: `humanize_speaker_id` and `humanize_speakers_in_text` of
-- crates/panops-portable/src/markdown_exporter.rs.
use panops.Base.{
  Option, Text, [], all, codes, decimal, if◌then◌else◌, is_digit, length, min, none, some, suc,
  zero, ℕ, ◌++◌, ◌+◌, ◌==◌, ◌∷◌,
}
use panops.Notes.Verifier.{leading_digits, parse_u32, speaker_prefix, strip_prefix}

abbrev pub saturating_next : ℕ → ℕ
saturating_next id = min (id + 1) 4294967295

-- `str::parse::<u32>`, which takes a plus sign.
unfoldable pub parse_number : Text → Option ℕ
unfolding parse_u32
parse_number [] = none
parse_number (c ∷ s) =
    let digits = if c == b'+' then s else c ∷ s in
    if all is_digit digits then parse_u32 digits else none

abbrev pub speaker_text : ℕ → Text
speaker_text id = codes "Speaker " ++ decimal (saturating_next id)

unfoldable pub humanize_speaker_id : Text → Text
unfolding strip_prefix parse_number
humanize_speaker_id raw = elim (strip_prefix speaker_prefix raw) [
  | none ↦ raw
  | some num ↦ elim (parse_number num) [ none ↦ raw | some id ↦ speaker_text id ]
]

-- The scan, with the number of bytes that are passed over. A match is 8 bytes and its digits.
unfoldable pub humanize_from : ℕ → Text → Text
unfolding strip_prefix leading_digits parse_u32
humanize_from skip [] = []
humanize_from (suc skip) (c ∷ s) = humanize_from skip s
humanize_from zero (c ∷ s) = elim (strip_prefix speaker_prefix (c ∷ s)) [
  | none ↦ c ∷ humanize_from zero s
  | some rest ↦ elim (parse_u32 (leading_digits rest)) [
    | none ↦ speaker_prefix ++ humanize_from 7 s
    | some id ↦ speaker_text id ++ humanize_from (7 + length (leading_digits rest)) s
  ]
]

unfoldable pub humanize_speakers_in_text : Text → Text
unfolding humanize_from
humanize_speakers_in_text text = humanize_from 0 text
