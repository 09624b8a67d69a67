-- ===== src/Merge.antt =====
-- crates/panops-core/src/merge.rs: speaker turns are merged into segments by overlap, and the two
-- capture tracks into one list.
pub mod Dominant
pub mod Tracks
use panops.Base.{
  List, Option, [], if◌then◌else◌, leb, ltb, map, max, min, none, some, sort_by_key, u32_mod, ℕ,
  ◌++◌, ◌+◌, ◌-◌, ◌∷◌,
}
use panops.Transcript.{Segment, SpeakerTurn}

abbrev pub overlap : ℕ → ℕ → SpeakerTurn → ℕ
overlap start_ms end_ms t = min end_ms t.end_ms - max start_ms t.start_ms

-- One round of the loop of `dominant_speaker`, on `best`.
pub consider : ℕ → ℕ → SpeakerTurn → Option (ℕ × ℕ) → Option (ℕ × ℕ)
consider start_ms end_ms t best =
    let lo = max start_ms t.start_ms in
    let hi = min end_ms t.end_ms in
    if leb hi lo then best else elim best [
      | none ↦ some (t.speaker_id, hi - lo)
      | some (id, b) ↦ if leb (hi - lo) b then some (id, b) else some (t.speaker_id, hi - lo)
    ]

pub dominant_loop : ℕ → ℕ → List SpeakerTurn → Option (ℕ × ℕ) → Option (ℕ × ℕ)
dominant_loop start_ms end_ms [] best = best
dominant_loop start_ms end_ms (t ∷ turns) best =
    dominant_loop start_ms end_ms turns (consider start_ms end_ms t best)

abbrev pub best_id : Option (ℕ × ℕ) → Option ℕ
best_id none = none
best_id (some (id, _)) = some id

unfoldable pub dominant_speaker : ℕ → ℕ → List SpeakerTurn → Option ℕ
unfolding dominant_loop consider
dominant_speaker start_ms end_ms turns = best_id (dominant_loop start_ms end_ms turns none)

abbrev pub assign_speaker : List SpeakerTurn → Segment → Segment
assign_speaker turns seg = record seg {
  speaker_id = dominant_speaker seg.start_ms seg.end_ms turns;
}

unfoldable pub merge_speaker_turns : List Segment → List SpeakerTurn → List Segment
unfolding dominant_speaker
merge_speaker_turns segments turns = map (assign_speaker turns) segments

abbrev pub pin_local : Segment → Segment
pin_local s = record s { speaker_id = some 0 }

-- `checked_add(1).expect(..)`: `none` is the panic.
unfoldable pub offset_turns : List SpeakerTurn → Option (List SpeakerTurn)
offset_turns [] = some []
offset_turns (t ∷ turns) =
    let rest = offset_turns turns in
    if ltb (t.speaker_id + 1) u32_mod
    then elim rest [
      | none ↦ none
      | some ts ↦ some (record t { speaker_id = t.speaker_id + 1 } ∷ ts)
    ]
    else none

unfoldable pub merge_two_track :
    List Segment → List Segment → List SpeakerTurn → Option (List Segment)
unfolding offset_turns merge_speaker_turns
merge_two_track mic_segments system_segments system_turns = elim (offset_turns system_turns) [
  | none ↦ none
  | some turns ↦ some (
      sort_by_key (λ (s : Segment). s.start_ms)
        (map pin_local mic_segments ++ merge_speaker_turns system_segments turns))
]
