-- ===== src/Notes/Summaries/Rounds.antt =====
-- The rounds end: each one that goes on has fewer summaries than the one before.
use panops.Base.{
  Bool-cases, List, Result, Result-cases, [], ap, ap₂, arith, err, false, inl, inr, length, ltb, ok,
  refl, some, suc, sym, zero, ℕ, ◌++◌, ◌+◌, ◌<◌, ◌∷◌, ◌≡◌, ◌≤◌, ◌⊎◌,
}
use panops.Notes.Sections.{MergeError, Reply, section_chunk_threshold_chars}
use panops.Notes.Summaries.{
  and_then, cannot_be_reduced, fill_batches, is_stuck, merge_batch, merge_chunk_summaries,
  merge_rounds, no_summaries,
}

module _ {V : Type 0} (estimate_chars : V → ℕ) (request_chars : List V → ℕ)
    (complete : List V → Reply V) where
  abbrev batches : V → List V → List V → Result MergeError (List V)
  batches = fill_batches estimate_chars request_chars complete

  abbrev batch : V → List V → Result MergeError V
  batch = merge_batch estimate_chars request_chars complete

  abbrev ok_nil : Result MergeError (List V)
  ok_nil = ok []

  and_then-ok :
      (m : Result MergeError V) (rest : Result MergeError (List V)) (next : List V)
      → and_then estimate_chars request_chars complete m rest ≡ ok next
      → (w : V) × (ws : List V) × (m ≡ ok w) × (rest ≡ ok ws) × (next ≡ w ∷ ws)
  and_then-ok (err e) rest next h = cc
  and_then-ok (ok v) (err e) next h = cc
  and_then-ok (ok v) (ok vs) next h =
      (v, vs, refl, refl, sym (ap (λ r. elim r [ err _ ↦ v ∷ vs | ok zs ↦ zs ]) h))

  batch_of_one : (b w : V) → batch b [] ≡ ok w → b ≡ w
  unfolding merge_batch
  batch_of_one b w h = ap (λ r. elim r [ err _ ↦ b | ok v ↦ v ]) h

  -- At most one summary for the batch and one for each that follows, and as many as there were only
  -- if they are all unchanged.
  abbrev Shrinks : V → List V → List V → List V → Type 0
  Shrinks b bs vs next =
      (length next ≤ 1 + length vs)
      × ((next ≡ b ∷ (bs ++ vs)) ⊎ (length next < 1 + length bs + length vs))

  closed-Shrinks :
      (b : V) (bs vs : List V) (w : V) (ws : List V)
      → batch b bs ≡ ok w
      → (length ws ≤ length vs)
      → (ws ≡ vs) ⊎ (length ws < length vs)
      → Shrinks b bs vs (w ∷ ws)
  closed-Shrinks b [] vs w ws h le (inl same) =
      (omega (arith, le), inl (ap₂ (λ x xs. x ∷ xs) (sym (batch_of_one b w h)) same))
  closed-Shrinks b [] vs w ws h le (inr less) = (omega (arith, le), inr (omega (arith, less)))
  closed-Shrinks b (c ∷ cs) vs w ws h le k = (omega (arith, le), inr (omega (arith, le)))

  fill_batches-Shrinks :
      (b : V) (bs vs next : List V) → batches b bs vs ≡ ok next → Shrinks b bs vs next
  unfolding fill_batches
  fill_batches-Shrinks b bs [] next e =
      let (w, ws, m, r, same) = and_then-ok (batch b bs) (ok []) next e in
      rw (same, ok_cons_nil ws r) (closed-Shrinks b bs [] w [] m (omega arith) (inl refl))
    where
      ok_cons_nil : (ws : List V) → ok_nil ≡ ok ws → ws ≡ []
      ok_cons_nil ws h = sym (ap (λ r. elim r [ err _ ↦ [] | ok zs ↦ zs ]) h)
  fill_batches-Shrinks b bs (v ∷ vs) next e =
      elim (Bool-cases (ltb section_chunk_threshold_chars (request_chars (b ∷ bs ++ v ∷ [])))) [
        | inl over ↦
            let (w, ws, m, r, same) =
              and_then-ok (batch b bs) (batches v [] vs) next (rw (over, fill_batches) at e) in
            let (le, k) = fill_batches-Shrinks v [] vs ws r in
            rw same (
              closed-Shrinks b bs (v ∷ vs) w ws m (omega (arith, le))
                (elim k [ inl unchanged ↦ inl unchanged | inr less ↦ inr (omega (arith, less)) ]))
        | inr fits ↦
            let (le, k) =
              fill_batches-Shrinks b (bs ++ v ∷ []) vs next (rw (fits, fill_batches) at e) in
            (omega (arith, le), inr (omega (arith, le)))
      ]

  -- A round that does not stop the merge leaves fewer summaries.
  next_round-shorter :
      (v : V) (vs next : List V)
      → batches v [] vs ≡ ok next
      → is_stuck estimate_chars request_chars complete (v ∷ vs) next ≡ false
      → length next ≤ length vs
  next_round-shorter v vs next e going =
      let (le, k) = fill_batches-Shrinks v [] vs next e in
      elim k [
        | inr less ↦ omega (arith, less)
        | inl unchanged ↦ absurd (stuck (v ∷ vs) (rw unchanged at going))
      ]
    where
      stuck : (xs : List V) → ¬ (is_stuck estimate_chars request_chars complete xs xs ≡ false)
      stuck xs h = ground arith

  merge_rounds-ends :
      (fuel : ℕ) (summaries : List V)
      → length summaries ≤ fuel
      → (r : Result MergeError V) × (merge_rounds estimate_chars request_chars complete fuel
            summaries
          ≡ some r)
  unfolding merge_rounds
  merge_rounds-ends fuel [] enough = (err no_summaries, refl)
  merge_rounds-ends fuel (v ∷ []) enough = (ok v, refl)
  merge_rounds-ends zero (v ∷ w ∷ vs) enough = absurd (omega (arith, enough))
  merge_rounds-ends (suc fuel) (v ∷ w ∷ vs) enough = elim (Result-cases (batches v [] (w ∷ vs))) [
    | inr (e, failed) ↦ (err e, rw (failed, merge_rounds) refl)
    | inl (next, done) ↦
        elim (Bool-cases (is_stuck estimate_chars request_chars complete (v ∷ w ∷ vs) next)) [
          | inl stuck ↦ (err cannot_be_reduced, rw (done, stuck, merge_rounds) refl)
          | inr going ↦
              let le = next_round-shorter v (w ∷ vs) next done going in
              let (r, e) = merge_rounds-ends fuel next (omega (arith, le, enough)) in
              (r, rw (done, going, merge_rounds) e)
        ]
  ]

  -- Whatever the sizes and the replies, the merge of chunk summaries ends, with a value or an error:
  -- there are never more rounds than summaries.
  pub merge_chunk_summaries-ends :
      (summaries : List V)
      → (r : Result MergeError V) × (merge_chunk_summaries estimate_chars request_chars complete
            summaries
          ≡ some r)
  unfolding merge_chunk_summaries
  merge_chunk_summaries-ends summaries =
      merge_rounds-ends (length summaries) summaries (omega arith)
