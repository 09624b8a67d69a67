-- ===== src/Wer.antt =====
-- The word error rate: crates/panops-core/src/wer.rs. The words that the tokenizer makes are given.
pub mod Edits
use panops.Base.{List, Text, [], get_or, if◌then◌else◌, length, min, text_eq, ℕ, ◌+◌, ◌∷◌}

unfoldable pub cost : Text → Text → ℕ
cost x y = if text_eq x y then 0 else 1

-- The least of the three ways into a cell, from the cells above, to the left, and above to the left.
unfoldable pub cell : Text → Text → ℕ → ℕ → ℕ → ℕ
cell x y up left diag = min (min (up + 1) (left + 1)) (diag + cost x y)

-- The inner loop: the rest of row i from the cell to the left, the cell above that one, the words of
-- `b` that are left and the cells above them.
unfoldable pub fill_row : Text → ℕ → ℕ → List Text → List ℕ → List ℕ
fill_row x left diag [] ups = []
fill_row x left diag (y ∷ ys) [] = []
fill_row x left diag (y ∷ ys) (up ∷ ups) =
    let here = cell x y up left diag in here ∷ fill_row x here up ys ups

unfoldable pub next_row : ℕ → Text → List Text → List ℕ → List ℕ
next_row i x b [] = []
next_row i x b (diag ∷ ups) = i ∷ fill_row x i diag b ups

-- The outer loop from row i - 1 on; what it leaves is the last row.
unfoldable pub fill_rows : ℕ → List Text → List Text → List ℕ → List ℕ
fill_rows i [] b row = row
fill_rows i (x ∷ a) b row = fill_rows (i + 1) a b (next_row i x b row)

-- The first row: the numbers of the columns from j on.
unfoldable pub first_row : ℕ → List Text → List ℕ
first_row j [] = j ∷ []
first_row j (y ∷ b) = j ∷ first_row (j + 1) b

unfoldable pub levenshtein : List Text → List Text → ℕ
levenshtein a b = get_or (fill_rows 1 a b (first_row 0 b)) (length b) 0
