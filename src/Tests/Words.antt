-- ===== src/Tests/Words.antt =====
-- The edit distance of words at concrete inputs.
use panops.Base.{List, Text, [], codes, refl, text_eq, ◌∷◌, ◌≡◌, ◌≤◌}
use panops.Wer.{cell, cost, fill_row, fill_rows, first_row, levenshtein, next_row}
use panops.Wer.Edits.{Edit, after, before, levenshtein-IsLeast, total, Script}

abbrev spoken : List Text
spoken = codes "the" ∷ codes "brown" ∷ codes "fox" ∷ []

abbrev heard : List Text
heard = codes "the" ∷ codes "dog" ∷ codes "ran" ∷ codes "far" ∷ []

-- Two words are replaced and one comes.
three_apart : levenshtein spoken heard ≡ 3
unfolding levenshtein fill_rows first_row next_row fill_row cell cost text_eq
three_apart = refl

same_words : levenshtein spoken spoken ≡ 0
unfolding levenshtein fill_rows first_row next_row fill_row cell cost text_eq
same_words = refl

levenshtein-IsLeast_example :
    Script spoken heard (levenshtein spoken heard)
    × ((s : List Edit) → before s ≡ spoken → after s ≡ heard → levenshtein spoken heard ≤ total s)
levenshtein-IsLeast_example = levenshtein-IsLeast spoken heard
