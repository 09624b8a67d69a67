-- ===== src/Notes/Anchoring.antt =====
-- crates/panops-core/src/notes/screenshot_anchoring.rs: each screenshot goes to the section that
-- holds its timestamp, or to the nearest one.
pub mod Nearest
pub mod Lists
use panops.Base.{
  Bool, List, Option, Text, [], add64, if◌then◌else◌, leb, ltb, map, none, some, sub64, suc,
  u64_mod, zero, ℕ, ◌&&◌, ◌++◌, ◌-◌, ◌/◌, ◌∷◌,
}
use panops.Notes.Topics.{RawSection}

-- `Screenshot` of crates/panops-core/src/notes/ir.rs.
pub record Screenshot : Type 0 where
  pub ms_since_start : ℕ
  pub path : Text
  pub caption : Option Text

abbrev pub contains : RawSection → ℕ → Bool
contains s ms = leb s.start ms && ltb ms s.end

-- The first loop of `section_for_timestamp`: it returns from inside.
pub find_containing : ℕ → List RawSection → ℕ → Option ℕ
find_containing i [] ms = none
find_containing i (s ∷ sections) ms =
    let rest = find_containing (suc i) sections ms in if contains s ms then some i else rest

abbrev pub midpoint : RawSection → ℕ
midpoint s = add64 s.start (sub64 s.end s.start / 2)

abbrev pub abs_diff : ℕ → ℕ → ℕ
abs_diff a b = if ltb a b then b - a else a - b

pub distance : RawSection → ℕ → ℕ
distance s ms = abs_diff (midpoint s) ms

-- The second loop, on `best` and `best_dist`.
pub nearest_loop : ℕ → List RawSection → ℕ → ℕ × ℕ → ℕ
nearest_loop i [] ms (best, best_dist) = best
nearest_loop i (s ∷ sections) ms (best, best_dist) =
    let dist = distance s ms in
    nearest_loop (suc i) sections ms (if ltb dist best_dist then (i, dist) else (best, best_dist))

unfoldable pub section_for_timestamp : List RawSection → ℕ → ℕ
unfolding find_containing nearest_loop distance
section_for_timestamp sections ms = elim (find_containing 0 sections ms) [
  | some i ↦ i
  | none ↦ nearest_loop 0 sections ms (0, u64_mod - 1)
]

-- `out[idx].push(shot)`; Anchoring/Lists shows that the index is never out of range.
pub push_at {ℓ} : {A : Type ℓ} → List (List A) → ℕ → A → List (List A)
push_at [] i a = []
push_at (xs ∷ out) zero a = (xs ++ a ∷ []) ∷ out
push_at (xs ∷ out) (suc i) a = xs ∷ push_at out i a

pub anchor_loop :
    List RawSection → List Screenshot → List (List Screenshot) → List (List Screenshot)
anchor_loop sections [] out = out
anchor_loop sections (shot ∷ screenshots) out =
    anchor_loop sections screenshots
      (push_at out (section_for_timestamp sections shot.ms_since_start) shot)

abbrev pub empty_lists : List RawSection → List (List Screenshot)
empty_lists = map (λ _. [])

unfoldable pub anchor_screenshots : List RawSection → List Screenshot → List (List Screenshot)
unfolding anchor_loop push_at section_for_timestamp
anchor_screenshots [] screenshots = []
anchor_screenshots (s ∷ sections) screenshots =
    anchor_loop (s ∷ sections) screenshots (empty_lists (s ∷ sections))
