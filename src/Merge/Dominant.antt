-- ===== src/Merge/Dominant.antt =====
-- `dominant_speaker` finds the first turn of the largest positive overlap.
use panops.Base.{
  All, All-append, List, Option, [], append_assoc, none, refl, some, ℕ, ◌++◌, ◌<◌, ◌∷◌, ◌≡◌, ◌≤◌,
  All-mono, Bool-cases, append-nil, arith, inl, inr, leb, leb→le, max, min,
}
use panops.Transcript.{SpeakerTurn}
use panops.Merge.{overlap, best_id, consider, dominant_loop, dominant_speaker}

module _ (start_ms end_ms : ℕ) where
  -- `t` stands in `turns`, overlaps by more than the turns before it, and by no less than any.
  pub record IsFirstMax (turns : List SpeakerTurn) (id size : ℕ) : Type 0 where
    pub before : List SpeakerTurn
    pub turn : SpeakerTurn
    pub after : List SpeakerTurn
    pub split : turns ≡ before ++ turn ∷ after
    pub same_id : turn.speaker_id ≡ id
    pub same_size : overlap start_ms end_ms turn ≡ size
    pub positive : 0 < size
    pub smaller_before : All (λ u. overlap start_ms end_ms u < size) before
    pub largest : All (λ u. overlap start_ms end_ms u ≤ size) after

  -- What the loop knows of the turns that it has seen.
  abbrev IsBest : List SpeakerTurn → Option (ℕ × ℕ) → Type 0
  IsBest seen none = All (λ u. overlap start_ms end_ms u ≡ 0) seen
  IsBest seen (some (id, size)) = IsFirstMax seen id size

  extend :
      {seen : List SpeakerTurn} {id size : ℕ} (t : SpeakerTurn)
      → IsFirstMax seen id size
      → overlap start_ms end_ms t ≤ size
      → IsFirstMax (seen ++ t ∷ []) id size
  extend t m h = record {
    before = m.before;
    turn = m.turn;
    after = m.after ++ t ∷ [];
    split = rw m.split (append_assoc m.before (m.turn ∷ m.after) (t ∷ []));
    same_id = m.same_id;
    same_size = m.same_size;
    positive = m.positive;
    smaller_before = m.smaller_before;
    largest = All-append _ m.after (t ∷ []) m.largest (h, tt);
  }

  at_end :
      (seen : List SpeakerTurn) (t : SpeakerTurn) (size : ℕ)
      → overlap start_ms end_ms t ≡ size
      → 0 < size
      → All (λ u. overlap start_ms end_ms u < size) seen
      → IsFirstMax (seen ++ t ∷ []) t.speaker_id size
  at_end seen t size e p h = record {
    before = seen;
    turn = t;
    after = [];
    split = refl;
    same_id = refl;
    same_size = e;
    positive = p;
    smaller_before = h;
    largest = tt;
  }

  -- A turn that overlaps by more than the best so far takes its place.
  replaces :
      {seen : List SpeakerTurn} {id size : ℕ} (t : SpeakerTurn)
      → IsFirstMax seen id size
      → size < overlap start_ms end_ms t
      → IsFirstMax (seen ++ t ∷ []) t.speaker_id (overlap start_ms end_ms t)
  replaces t m h = at_end _ t (overlap start_ms end_ms t) refl (omega arith) (
      rw m.split (
        All-append _ m.before (m.turn ∷ m.after)
          (All-mono _ _ m.before (λ u p. omega arith) m.smaller_before)
          (rw m.same_size h, All-mono _ _ m.after (λ u p. omega arith) m.largest)))

  consider-IsBest :
      (seen : List SpeakerTurn) (t : SpeakerTurn) (best : Option (ℕ × ℕ))
      → IsBest seen best
      → IsBest (seen ++ t ∷ []) (consider start_ms end_ms t best)
  unfolding consider
  consider-IsBest seen t none h =
      elim (Bool-cases (leb (min end_ms t.end_ms) (max start_ms t.start_ms))) [
        | inl e ↦ rw e (All-append _ seen (t ∷ []) h (ground arith, tt))
        | inr e ↦
            rw e (at_end seen t _ refl (ground arith) (All-mono _ _ seen (λ u p. ground arith) h))
      ]
  consider-IsBest seen t (some (id, size)) m =
      elim (Bool-cases (leb (min end_ms t.end_ms) (max start_ms t.start_ms))) [
        | inl e ↦ rw e (extend t m (ground arith))
        | inr e ↦ rw e (elim (Bool-cases (leb (overlap start_ms end_ms t) size)) [
          | inl fits ↦ rw fits (extend t m (leb→le _ _ fits))
          | inr beats ↦ rw beats (replaces t m (ground arith))
        ])
      ]

  dominant_loop-IsBest :
      (seen turns : List SpeakerTurn) (best : Option (ℕ × ℕ))
      → IsBest seen best
      → IsBest (seen ++ turns) (dominant_loop start_ms end_ms turns best)
  unfolding dominant_loop
  dominant_loop-IsBest seen [] best h = rw (append-nil seen) h
  dominant_loop-IsBest seen (t ∷ turns) best h = rw (append_assoc seen (t ∷ []) turns) at (
      dominant_loop-IsBest (seen ++ t ∷ []) turns (consider start_ms end_ms t best)
        (consider-IsBest seen t best h))

  -- What `dominant_speaker` answers: nothing where no turn overlaps, otherwise the first largest.
  abbrev pub Dominates : List SpeakerTurn → Option ℕ → Type 0
  Dominates turns none = All (λ u. overlap start_ms end_ms u ≡ 0) turns
  Dominates turns (some id) = (size : ℕ) × IsFirstMax turns id size

  of_best :
      (turns : List SpeakerTurn) (best : Option (ℕ × ℕ))
      → IsBest turns best
      → Dominates turns (best_id best)
  of_best turns none h = h
  of_best turns (some (id, size)) m = (size, m)

  -- For every segment range and list of turns: the answer is none exactly when all overlaps are 0,
  -- and otherwise it is the speaker of the first turn whose overlap with the range is the largest.
  pub dominant_speaker-Dominates :
      (turns : List SpeakerTurn) → Dominates turns (dominant_speaker start_ms end_ms turns)
  unfolding dominant_speaker
  dominant_speaker-Dominates turns = of_best turns _ (dominant_loop-IsBest [] turns none tt)
