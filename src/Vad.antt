-- ===== src/Vad.antt =====
-- Speech regions: crates/panops-core/src/vad.rs, and the merge of regions in
-- crates/panops-portable/src/audio.rs.
pub mod Merging
use panops.Base.{List, [], if◌then◌else◌, leb, max, min, sort_by_key, ℕ, ◌-◌, ◌∷◌}

pub record SpeechRegion : Type 0 where
  pub start_ms : ℕ
  pub end_ms : ℕ

unfoldable pub clamp_to : SpeechRegion → ℕ → SpeechRegion
clamp_to r ceiling_ms = record {
  start_ms = min r.start_ms ceiling_ms;
  end_ms = min r.end_ms ceiling_ms;
}

abbrev pub start_of : SpeechRegion → ℕ
start_of r = r.start_ms

-- The loop over the sorted regions, with the last region of `out` at hand.
unfoldable pub merge_loop : ℕ → SpeechRegion → List SpeechRegion → List SpeechRegion
merge_loop gap_ms last [] = last ∷ []
merge_loop gap_ms last (r ∷ rs) =
    let joined = merge_loop gap_ms (record last { end_ms = max last.end_ms r.end_ms }) rs in
    let apart = last ∷ merge_loop gap_ms r rs in
    if leb (r.start_ms - last.end_ms) gap_ms then joined else apart

unfoldable pub merge_sorted : ℕ → List SpeechRegion → List SpeechRegion
unfolding merge_loop
merge_sorted gap_ms [] = []
merge_sorted gap_ms (r ∷ rs) = merge_loop gap_ms r rs

unfoldable pub merge_adjacent_regions : List SpeechRegion → ℕ → List SpeechRegion
unfolding merge_sorted
merge_adjacent_regions regions gap_ms = merge_sorted gap_ms (sort_by_key start_of regions)
