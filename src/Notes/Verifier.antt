-- ===== src/Notes/Verifier.antt =====
-- The check of speaker attributions: crates/panops-core/src/notes/verifier.rs.
pub mod Mentions
use panops.Base.{
  Bool, List, Option, Text, [], all, any, codes, false, if◌then◌else◌, is_digit, leb, ltb, none,
  some, trim, u32_mod, value_from, ℕ, ◌&&◌, ◌==◌, ◌||◌, ◌∷◌,
}

-- `ActionItem` of crates/panops-core/src/notes/ir.rs; a date is its text.
pub record ActionItem : Type 0 where
  pub description : Text
  pub owner : Option Text
  pub due : Option Text

pub data VerifierReport : Type 0 where
  all_allowed : VerifierReport
  disallowed_speakers : List ℕ → VerifierReport

abbrev pub speaker_prefix : Text
speaker_prefix = codes "speaker_"

unfoldable pub strip_prefix : Text → Text → Option Text
strip_prefix [] s = some s
strip_prefix (p ∷ ps) [] = none
strip_prefix (p ∷ ps) (c ∷ cs) = if p == c then strip_prefix ps cs else none

unfoldable pub leading_digits : Text → Text
leading_digits [] = []
leading_digits (c ∷ cs) = if is_digit c then c ∷ leading_digits cs else []

-- `parse::<u32>()` on digits.
unfoldable pub parse_u32 : Text → Option ℕ
parse_u32 [] = none
parse_u32 (c ∷ cs) = let n = value_from 0 (c ∷ cs) in if ltb n u32_mod then some n else none

-- `is_ascii_alphanumeric() || '_'`
unfoldable pub is_word : ℕ → Bool
is_word c = is_digit c || ((leb b'a' c && leb c b'z') || ((leb b'A' c && leb c b'Z') || c == b'_'))

unfoldable pub mention : Text → Option ℕ
unfolding strip_prefix leading_digits parse_u32
mention s = elim (strip_prefix speaker_prefix s) [
  | none ↦ none
  | some rest ↦ parse_u32 (leading_digits rest)
]

-- The text from each position on, with whether a word character stands before it. The searched
-- text cannot overlap itself, so every occurrence is a match.
unfoldable pub scan_from : Bool → Text → List ℕ
unfolding mention is_word
scan_from after_word [] = []
scan_from after_word (c ∷ cs) =
    let rest = scan_from (is_word c) cs in
    elim (if after_word then none else mention (c ∷ cs)) [ none ↦ rest | some id ↦ id ∷ rest ]

unfoldable pub scan_speaker_ids : Text → List ℕ
unfolding scan_from
scan_speaker_ids s = scan_from false s

unfoldable pub parse_speaker_id : Text → Option ℕ
unfolding strip_prefix parse_u32
parse_speaker_id s = elim (strip_prefix speaker_prefix (trim s)) [
  | none ↦ none
  | some rest ↦ if all is_digit rest then parse_u32 rest else none
]

abbrev pub contains_id : ℕ → List ℕ → Bool
contains_id id ids = any (λ j. j == id) ids

-- `disallowed.insert(id)` where the id is not allowed.
abbrev pub note_id : List ℕ → List ℕ → ℕ → List ℕ
note_id allowed disallowed id =
    if contains_id id allowed
    then disallowed
    else if contains_id id disallowed
    then disallowed
    else id ∷ disallowed

unfoldable pub note_ids : List ℕ → List ℕ → List ℕ → List ℕ
note_ids allowed disallowed [] = disallowed
note_ids allowed disallowed (id ∷ ids) = note_ids allowed (note_id allowed disallowed id) ids

abbrev pub owner_id : ActionItem → Option ℕ
owner_id item = elim item.owner [ none ↦ none | some owner ↦ parse_speaker_id owner ]

unfoldable pub note_owners : List ℕ → List ℕ → List ActionItem → List ℕ
note_owners allowed disallowed [] = disallowed
note_owners allowed disallowed (item ∷ items) =
    note_owners allowed
      (elim (owner_id item) [ none ↦ disallowed | some id ↦ note_id allowed disallowed id ]) items

abbrev pub report : List ℕ → VerifierReport
report [] = all_allowed
report (id ∷ ids) = disallowed_speakers (id ∷ ids)

unfoldable pub verify_section_attribution : Text → List ActionItem → List ℕ → VerifierReport
unfolding scan_speaker_ids note_ids note_owners
verify_section_attribution narrative_md action_items allowed_speakers = report (
    note_owners allowed_speakers (note_ids allowed_speakers [] (scan_speaker_ids narrative_md))
      action_items)
