-- ===== src/Merge/Tracks.antt =====
-- `merge_two_track`: the two tracks can be told apart in the sorted result, and the only panic is
-- a speaker id at the top of its range.
use panops.Base.{
  All, Bool, List, Option, [], false, lt→ltb, map, none, not, refl, some, u32_mod, ℕ, ◌+◌, ◌<◌,
  ◌==◌, ◌∷◌, ◌≡◌, IsSortedBy, ap, append-nil, ap₂, arith, keep, keep-append, keep-sort_by_key,
  sort_by_key, sort_by_key-IsSortedBy, sort_by_key-stable, true, ◌++◌, ◌∙◌,
}
use panops.Transcript.{Segment, SpeakerTurn}
use panops.Merge.{
  consider, dominant_loop, offset_turns, best_id, merge_speaker_turns, merge_two_track, pin_local,
}

abbrev pub start_of : Segment → ℕ
start_of s = s.start_ms

-- The reserved id 0, "You".
abbrev pub is_local : Segment → Bool
is_local s = elim s.speaker_id [ none ↦ false | some id ↦ id == 0 ]

abbrev pub is_remote : Segment → Bool
is_remote s = not (is_local s)

abbrev next_id : SpeakerTurn → SpeakerTurn
next_id t = record t { speaker_id = t.speaker_id + 1 }

abbrev next_best : Option (ℕ × ℕ) → Option (ℕ × ℕ)
next_best none = none
next_best (some (id, size)) = some (id + 1, size)

abbrev next_speaker : Option ℕ → Option ℕ
next_speaker none = none
next_speaker (some id) = some (id + 1)

-- A segment of the system track, its diarized id moved past the reserved one.
abbrev pub past_local : Segment → Segment
past_local s = record s { speaker_id = next_speaker s.speaker_id }

abbrev pub Fits : SpeakerTurn → Type 0
Fits t = t.speaker_id + 1 < u32_mod

offset_turns_lem :
    (turns : List SpeakerTurn) → All Fits turns → offset_turns turns ≡ some (map next_id turns)
unfolding offset_turns
offset_turns_lem [] h = refl
offset_turns_lem (t ∷ turns) h =
    rw (offset_turns_lem turns h.1) (rw (lt→ltb (t.speaker_id + 1) u32_mod h.0) refl)

consider-next :
    (s e : ℕ) (t : SpeakerTurn) (best : Option (ℕ × ℕ))
    → consider s e (next_id t) (next_best best) ≡ next_best (consider s e t best)
unfolding consider
consider-next s e t none = ground arith
consider-next s e t (some (id, size)) = ground arith

dominant_loop-next :
    (s e : ℕ) (turns : List SpeakerTurn) (best : Option (ℕ × ℕ))
    → dominant_loop s e (map next_id turns) (next_best best)
      ≡ next_best (dominant_loop s e turns best)
unfolding dominant_loop
dominant_loop-next s e [] best = refl
dominant_loop-next s e (t ∷ turns) best =
    ap (dominant_loop s e (map next_id turns)) (consider-next s e t best)
    ∙ dominant_loop-next s e turns (consider s e t best)

best_id-next : (best : Option (ℕ × ℕ)) → best_id (next_best best) ≡ next_speaker (best_id best)
best_id-next none = refl
best_id-next (some (id, size)) = refl

merge_speaker_turns-next :
    (segments : List Segment) (turns : List SpeakerTurn)
    → merge_speaker_turns segments (map next_id turns)
      ≡ map past_local (merge_speaker_turns segments turns)
unfolding merge_speaker_turns
merge_speaker_turns-next [] turns = refl
merge_speaker_turns-next (seg ∷ segments) turns =
    ap₂ ◌∷◌
      (ap (λ id. record seg { speaker_id = id })
        (ap best_id (dominant_loop-next seg.start_ms seg.end_ms turns none) ∙ best_id-next _))
      (merge_speaker_turns-next segments turns)

keep-all :
    (p : Segment → Bool) (f : Segment → Segment) (xs : List Segment)
    → ((x : Segment) → p (f x) ≡ true)
    → keep p (map f xs) ≡ map f xs
keep-all p f [] h = refl
keep-all p f (x ∷ xs) h = rw (h x) (ap (◌∷◌ (f x)) (keep-all p f xs h))

keep-none :
    (p : Segment → Bool) (f : Segment → Segment) (xs : List Segment)
    → ((x : Segment) → p (f x) ≡ false)
    → keep p (map f xs) ≡ []
keep-none p f [] h = refl
keep-none p f (x ∷ xs) h = rw (h x) (keep-none p f xs h)

past_local-is_local : (s : Segment) → is_local (past_local s) ≡ false
past_local-is_local s = ground arith

module _ (mic system : List Segment) (turns : List SpeakerTurn) where
  abbrev tracks : List Segment
  tracks = map pin_local mic ++ map past_local (merge_speaker_turns system turns)

  local_part : keep is_local tracks ≡ map pin_local mic
  local_part =
      keep-append is_local (map pin_local mic) _
      ∙ ap₂ ◌++◌ (keep-all is_local pin_local mic (λ x. refl))
          (keep-none is_local past_local (merge_speaker_turns system turns) past_local-is_local)
      ∙ append-nil _

  remote_part : keep is_remote tracks ≡ map past_local (merge_speaker_turns system turns)
  remote_part =
      keep-append is_remote (map pin_local mic) _
      ∙ ap₂ ◌++◌ (keep-none is_remote pin_local mic (λ x. refl)) (
          keep-all is_remote past_local (merge_speaker_turns system turns)
            (λ x. ap not (past_local-is_local x)))

  -- What the merged list is, against its inputs.
  pub record IsMerged (out : List Segment) : Type 0 where
    pub sorted : IsSortedBy start_of out
    pub local : keep is_local out ≡ sort_by_key start_of (map pin_local mic)
    pub remote :
        keep is_remote out
        ≡ sort_by_key start_of (map past_local (merge_speaker_turns system turns))
    pub ties :
        (k : ℕ)
        → keep (λ s. start_of s == k) out
          ≡ keep (λ s. start_of s == k) (map pin_local mic)
            ++ keep (λ s. start_of s == k) (map past_local (merge_speaker_turns system turns))

  merged : IsMerged (sort_by_key start_of tracks)
  merged = record {
    sorted = sort_by_key-IsSortedBy start_of tracks;
    local = keep-sort_by_key start_of is_local tracks ∙ ap (sort_by_key start_of) local_part;
    remote = keep-sort_by_key start_of is_remote tracks ∙ ap (sort_by_key start_of) remote_part;
    ties = λ k. sort_by_key-stable start_of k tracks ∙ keep-append _ (map pin_local mic) _;
  }

  -- If no turn has the largest 32-bit speaker id, the merge returns a list that ascends in start
  -- time. Its segments of speaker 0 are the microphone's, all pinned to 0 and in sorted order; the
  -- others are the system's, with the dominant speaker's id raised by one; and among equal start
  -- times the microphone's come first and each track keeps its order.
  pub merge_two_track-IsMerged :
      All Fits turns
      → (out : List Segment) × (merge_two_track mic system turns ≡ some out) × IsMerged out
  unfolding merge_two_track
  merge_two_track-IsMerged h = (
    sort_by_key start_of tracks,
    rw (offset_turns_lem turns h, merge_two_track)
        (ap (λ xs. some (sort_by_key start_of (map pin_local mic ++ xs)))
          (merge_speaker_turns-next system turns)),
    merged,
  )
