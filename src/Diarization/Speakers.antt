-- ===== src/Diarization/Speakers.antt =====
-- The turns that leave the diarizer: in order, without overlap, and with the speakers renumbered.
use panops.Base.{
  All, Bool, Bool-cases, List, Option-cases, [], any, ap, arith, false, inl, inr, length, not, refl,
  some, some_inj, suc, true, ℕ, ◌||◌, ◌∷◌, ◌≡◌, ◌≤◌,
}
use panops.Transcript.{SpeakerTurn}
use panops.Diarization.{
  clamp_overlaps, clamp_turns, clamped, find_major, labelled, or_else, relabel,
}

-- Each turn starts no earlier than the one before it ends, and ends no earlier than it starts.
abbrev pub Follows : ℕ → List SpeakerTurn → Type 0
Follows prev_end [] = Unit
Follows prev_end (t ∷ turns) =
    (prev_end ≤ t.start_ms) × (t.start_ms ≤ t.end_ms) × Follows t.end_ms turns

clamp_turns-Follows :
    (prev_end : ℕ) (turns : List SpeakerTurn) → Follows prev_end (clamp_turns prev_end turns)
unfolding clamp_turns
clamp_turns-Follows prev_end [] = tt
clamp_turns-Follows prev_end (t ∷ turns) =
    (ground arith, ground arith, clamp_turns-Follows (clamped prev_end t).end_ms turns)

length-clamp_turns :
    (prev_end : ℕ) (turns : List SpeakerTurn) → length (clamp_turns prev_end turns) ≡ length turns
unfolding clamp_turns
length-clamp_turns prev_end [] = refl
length-clamp_turns prev_end (t ∷ turns) =
    ap suc (length-clamp_turns (clamped prev_end t).end_ms turns)

-- If the first turn does not end before it starts, the clamped turns are in order and do not overlap,
-- none ends before it starts, and there are as many as before.
pub clamp_overlaps-Follows :
    (t : SpeakerTurn) (turns : List SpeakerTurn)
    → t.start_ms ≤ t.end_ms
    → Follows 0 (clamp_overlaps (t ∷ turns))
      × (length (clamp_overlaps (t ∷ turns)) ≡ length (t ∷ turns))
unfolding clamp_overlaps
clamp_overlaps-Follows t turns h = (
  (omega arith, h, clamp_turns-Follows t.end_ms turns),
  ap suc (length-clamp_turns t.end_ms turns),
)

abbrev pub Major : (ℕ → Bool) → SpeakerTurn → Type 0
Major is_minor t = is_minor t.speaker_id ≡ false

-- A major speaker is found where there is one, and what is found is major.
find_major-some :
    (is_minor : ℕ → Bool) (turns : List SpeakerTurn)
    → any (λ (t : SpeakerTurn). not (is_minor t.speaker_id)) turns ≡ true
    → (spk : ℕ) × (find_major is_minor turns ≡ some spk) × (is_minor spk ≡ false)
unfolding find_major
find_major-some is_minor [] h = cc
find_major-some is_minor (t ∷ turns) h = elim (Bool-cases (is_minor t.speaker_id)) [
  | inr major ↦ (t.speaker_id, rw major refl, major)
  | inl minor ↦
      let (spk, e, m) = find_major-some is_minor turns (ground arith) in (spk, rw minor e, m)
]

find_major-is_major :
    (is_minor : ℕ → Bool) (turns : List SpeakerTurn) (spk : ℕ)
    → find_major is_minor turns ≡ some spk
    → is_minor spk ≡ false
unfolding find_major
find_major-is_major is_minor [] spk h = cc
find_major-is_major is_minor (t ∷ turns) spk h = elim (Bool-cases (is_minor t.speaker_id)) [
  | inr major ↦ rw (some_inj (rw major at h)) at major
  | inl minor ↦ find_major-is_major is_minor turns spk (rw minor at h)
]

abbrev has_major : (ℕ → Bool) → List SpeakerTurn → Bool
has_major is_minor turns = any (λ (t : SpeakerTurn). not (is_minor t.speaker_id)) turns

-- One of the two searches finds a major speaker if there is one.
target_is_major :
    (is_minor : ℕ → Bool) (before turns : List SpeakerTurn)
    → (has_major is_minor before || has_major is_minor turns) ≡ true
    → (spk : ℕ) × (or_else (find_major is_minor before) (find_major is_minor turns) ≡ some spk)
      × (is_minor spk ≡ false)
target_is_major is_minor before turns h = elim (Option-cases (find_major is_minor before)) [
  | inr (spk, e) ↦ (spk, rw e refl, find_major-is_major is_minor before spk e)
  | inl none_before ↦ elim (Bool-cases (has_major is_minor before)) [
    | inl there ↦ let (spk, e, m) = find_major-some is_minor before there in cc (none_before, e)
    | inr not_there ↦
        let (spk, e, m) = find_major-some is_minor turns (ground (arith, h, not_there)) in
        (spk, rw none_before e, m)
  ]
]

labelled-Major :
    (is_minor : ℕ → Bool) (before turns : List SpeakerTurn) (t : SpeakerTurn)
    → (has_major is_minor before || has_major is_minor (t ∷ turns)) ≡ true
    → Major is_minor
        (labelled is_minor (or_else (find_major is_minor before) (find_major is_minor turns)) t)
labelled-Major is_minor before turns t h = elim (Bool-cases (is_minor t.speaker_id)) [
  | inr major ↦ rw major major
  | inl minor ↦
      let (spk, e, m) = target_is_major is_minor before turns (ground (arith, h, minor)) in
      rw (minor, e) m
]

-- After relabelling, no turn is of a minor speaker, if a turn before or among them is of a major one.
pub relabel-Major :
    (is_minor : ℕ → Bool) (before turns : List SpeakerTurn)
    → (any (λ (t : SpeakerTurn). not (is_minor t.speaker_id)) before
        || any (λ (t : SpeakerTurn). not (is_minor t.speaker_id)) turns)
      ≡ true
    → All (Major is_minor) (relabel is_minor before turns)
unfolding relabel
relabel-Major is_minor before [] h = tt
relabel-Major is_minor before (t ∷ turns) h =
    let first = labelled-Major is_minor before turns t h in
    (
      first,
      relabel-Major is_minor
          (labelled is_minor (or_else (find_major is_minor before) (find_major is_minor turns)) t
            ∷ before)
          turns (ground (arith, first)),
    )
