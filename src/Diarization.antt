-- ===== src/Diarization.antt =====
-- What follows the native diarizer in crates/panops-portable/src/sherpa_diarizer.rs: tiny speaker
-- clusters are folded into their neighbours, and overlapping turns are clamped. The comparison of a
-- speaker's time with a twentieth of all speech, in `f64`, is a parameter.
pub mod Speakers
use panops.Base.{
  Bool, List, Option, Rows, [], add64, any, false, find_row, if◌then◌else◌, ltb, max, none, not,
  some, true, u32_mod, ℕ, ◌%◌, ◌+◌, ◌-◌, ◌==◌, ◌||◌, ◌∷◌,
}
use panops.Transcript.{SpeakerTurn}

abbrev pub turn_duration : SpeakerTurn → ℕ
turn_duration t = t.end_ms - t.start_ms

-- `totals[&spk]`
unfoldable pub speaker_total : ℕ → List SpeakerTurn → ℕ → ℕ
speaker_total spk [] total = total
speaker_total spk (t ∷ turns) total =
    speaker_total spk turns (if t.speaker_id == spk then add64 total (turn_duration t) else total)

unfoldable pub total_all : List SpeakerTurn → ℕ → ℕ
total_all [] total = total
total_all (t ∷ turns) total = total_all turns (add64 total (turn_duration t))

-- The first of these speakers that is not minor.
unfoldable pub find_major : (ℕ → Bool) → List SpeakerTurn → Option ℕ
find_major is_minor [] = none
find_major is_minor (t ∷ turns) =
    if is_minor t.speaker_id then find_major is_minor turns else some t.speaker_id

abbrev pub or_else : Option ℕ → Option ℕ → Option ℕ
or_else none o = o
or_else (some a) o = some a

abbrev pub with_speaker : Option ℕ → SpeakerTurn → SpeakerTurn
with_speaker none t = t
with_speaker (some spk) t = record t { speaker_id = spk }

abbrev pub labelled : (ℕ → Bool) → Option ℕ → SpeakerTurn → SpeakerTurn
labelled is_minor target t = if is_minor t.speaker_id then with_speaker target t else t

-- The loop that relabels in place, with the turns before this one, the nearest first.
unfoldable pub relabel : (ℕ → Bool) → List SpeakerTurn → List SpeakerTurn → List SpeakerTurn
unfolding find_major
relabel is_minor before [] = []
relabel is_minor before (t ∷ turns) =
    let target = or_else (find_major is_minor before) (find_major is_minor turns) in
    labelled is_minor target t ∷ relabel is_minor (labelled is_minor target t ∷ before) turns

-- Runs of one speaker become one turn.
unfoldable pub merge_runs : SpeakerTurn → List SpeakerTurn → List SpeakerTurn
merge_runs last [] = last ∷ []
merge_runs last (t ∷ turns) = elim (last.speaker_id == t.speaker_id) [
  | true ↦ merge_runs (record last { end_ms = max last.end_ms t.end_ms }) turns
  | false ↦ last ∷ merge_runs t turns
]

unfoldable pub merge_same : List SpeakerTurn → List SpeakerTurn
unfolding merge_runs
merge_same [] = []
merge_same (t ∷ turns) = merge_runs t turns

-- `remap` as an association list, and `next`.
unfoldable pub renumber : Rows ℕ → ℕ → List SpeakerTurn → List SpeakerTurn
renumber remap next [] = []
renumber remap next (t ∷ turns) = elim (find_row t.speaker_id remap) [
  | some id ↦ record t { speaker_id = id } ∷ renumber remap next turns
  | none ↦
      record t { speaker_id = next }
      ∷ renumber ((t.speaker_id, next) ∷ remap) ((next + 1) % u32_mod) turns
]

module _ (is_small_share : ℕ → ℕ → Bool) where
  abbrev pub minor_in : List SpeakerTurn → ℕ → Bool
  minor_in turns spk = is_small_share (speaker_total spk turns 0) (total_all turns 0)

  unfoldable pub collapse_minor_speakers : List SpeakerTurn → List SpeakerTurn
  unfolding speaker_total total_all relabel merge_same renumber
  collapse_minor_speakers turns =
      let is_minor = minor_in turns in
      if total_all turns 0 == 0
      then turns
      else if not (any (λ t. is_minor t.speaker_id) turns)
          || not (any (λ t. not (is_minor t.speaker_id)) turns)
      then turns
      else renumber [] 0 (merge_same (relabel is_minor [] turns))

-- One round of the defensive loop.
abbrev pub clamped : ℕ → SpeakerTurn → SpeakerTurn
clamped prev_end t =
    let start = if ltb t.start_ms prev_end then prev_end else t.start_ms in
    record t { start_ms = start; end_ms = if ltb t.end_ms start then start else t.end_ms }

-- The loop over the turns, from the second on.
unfoldable pub clamp_turns : ℕ → List SpeakerTurn → List SpeakerTurn
clamp_turns prev_end [] = []
clamp_turns prev_end (t ∷ turns) =
    clamped prev_end t ∷ clamp_turns (clamped prev_end t).end_ms turns

unfoldable pub clamp_overlaps : List SpeakerTurn → List SpeakerTurn
unfolding clamp_turns
clamp_overlaps [] = []
clamp_overlaps (t ∷ turns) = t ∷ clamp_turns t.end_ms turns
