-- ===== src/Tests/Diarized.antt =====
-- The theorems on the turns of the diarizer at concrete inputs.
use panops.Base.{All, Bool, List, [], arith, find_row, length, ltb, refl, ℕ, ◌*◌, ◌==◌, ◌∷◌, ◌≡◌}
use panops.Transcript.{SpeakerTurn}
use panops.Diarization.{
  clamp_overlaps, collapse_minor_speakers, find_major, merge_runs, merge_same, relabel, renumber,
  speaker_total, total_all,
}
use panops.Diarization.Speakers.{Follows, Major, clamp_overlaps-Follows, relabel-Major}
use panops.Tests.Samples.{turn}

abbrev overlapping : List SpeakerTurn
overlapping = turn 800 2000 1 ∷ turn 1900 1950 0 ∷ []

clamp_overlaps-Follows_example :
    Follows 0 (clamp_overlaps (turn 0 1000 0 ∷ overlapping))
    × (length (clamp_overlaps (turn 0 1000 0 ∷ overlapping)) ≡ length (turn 0 1000 0 ∷ overlapping))
clamp_overlaps-Follows_example = clamp_overlaps-Follows (turn 0 1000 0) overlapping (omega arith)

abbrev is_one : ℕ → Bool
is_one spk = spk == 1

relabel-Major_example : All (Major is_one) (relabel is_one [] overlapping)
relabel-Major_example = relabel-Major is_one [] overlapping refl

-- Less than a twentieth, in whole numbers.
abbrev twentieth : ℕ → ℕ → Bool
twentieth part whole = ltb (20 * part) whole

-- A phantom speaker is folded into the one before it.
phantom_is_folded :
    collapse_minor_speakers twentieth (turn 0 9000 4 ∷ turn 9000 9100 7 ∷ turn 9100 20_000 2 ∷ [])
    ≡ turn 0 9100 0 ∷ turn 9100 20_000 1 ∷ []
unfolding collapse_minor_speakers speaker_total total_all relabel find_major merge_same merge_runs
    renumber find_row
phantom_is_folded = refl
