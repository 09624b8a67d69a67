-- ===== src/Notes/Budget/Rendered.antt =====
-- The pieces are the chunks again, and their prompts are within the budget where they can be.
use panops.Base.{
  All, All-append, Bool-cases, List, Option, [], ap, append-nil, append_assoc, ap₂, arith, concat,
  concat-append, false, inl, inr, leb, length, length-append, ltb, refl, some, suc, sym, true, ℕ,
  ◌++◌, ◌<◌, ◌||◌, ◌∙◌, ◌∷◌, ◌≡◌, ◌≤◌, ◌⊎◌,
}
use panops.Transcript.{Segment}
use panops.Notes.Budget.{
  budget_fuel, fill, over_budget, push_rendered_budget_chunk, push_rest,
  split_chunks_to_rendered_budget, then_push,
}

module _ (rendered_chars : List Segment → ℕ) (max_chars : ℕ) where
  -- Not empty, and of one segment or with a prompt within the budget.
  abbrev pub InBudget : List Segment → Type 0
  InBudget c = (0 < length c) × ((length c ≤ 1) ⊎ (rendered_chars c ≤ max_chars))

  -- What `fill` returns from a current chunk that is empty or in the budget.
  record IsFilled (current segs : List Segment) (r : List (List Segment) × List Segment)
      : Type 0 where
    whole : concat r.0 ++ r.1 ≡ current ++ segs
    pieces : All InBudget r.0
    rest : (r.1 ≡ []) ⊎ InBudget r.1

  pushed-InBudget :
      (current : List Segment) (seg : Segment)
      → over_budget rendered_chars max_chars (current ++ seg ∷ []) ≡ false
      → InBudget (current ++ seg ∷ [])
  pushed-InBudget current seg h = (
    omega (arith, length-append current (seg ∷ [])),
    elim (Bool-cases (ltb 1 (length (current ++ seg ∷ [])))) [
      | inl long ↦ inr (ground (arith, h, long))
      | inr short ↦ inl (ground (arith, short))
    ],
  )

  -- A single segment is never over the budget.
  alone : (seg : Segment) → ¬ (over_budget rendered_chars max_chars (seg ∷ []) ≡ true)
  alone seg h = ground arith

  fill-IsFilled :
      (current segs : List Segment)
      → (current ≡ []) ⊎ InBudget current
      → IsFilled current segs (fill rendered_chars max_chars current segs)
  unfolding fill
  fill-IsFilled current [] h = record { whole = sym (append-nil current); pieces = tt; rest = h }
  fill-IsFilled current (seg ∷ segs) h =
      elim (Bool-cases (over_budget rendered_chars max_chars (current ++ seg ∷ []))) [
        | inr room ↦
            let f =
              fill-IsFilled (current ++ seg ∷ []) segs (inr (pushed-InBudget current seg room)) in
            rw (room, fill)
              (record {
                whole = f.whole ∙ append_assoc current (seg ∷ []) segs;
                pieces = f.pieces;
                rest = f.rest;
              })
        | inl over ↦
            let f = fill-IsFilled (seg ∷ []) segs (inr (omega arith, inl (omega arith))) in
            rw (over, fill)
              (record {
                whole =
                    append_assoc current (concat (fill rendered_chars max_chars (seg ∷ []) segs).0)
                      _
                    ∙ ap (λ r. current ++ r) f.whole;
                pieces = (
                  elim h [
                    | inl none_yet ↦ absurd (alone seg (rw none_yet at over))
                    | inr ok_so_far ↦ ok_so_far
                  ],
                  f.pieces,
                );
                rest = f.rest;
              })
      ]

  -- A chunk in the budget is pushed as it is.
  push-InBudget :
      (fuel : ℕ) (c : List Segment)
      → InBudget c
      → push_rendered_budget_chunk rendered_chars max_chars (suc fuel) c ≡ some (c ∷ [])
  unfolding push_rendered_budget_chunk
  push-InBudget fuel c h =
      let fits : (leb (length c) 1 || leb (rendered_chars c) max_chars) ≡ true =
        ground (arith, h.1) in
      rw (fits, push_rendered_budget_chunk) refl

  -- Pieces of a chunk: they are the chunk again, and each is in the budget.
  abbrev pub ArePieces : List Segment → Option (List (List Segment)) → Type 0
  ArePieces chunk r =
      (pieces : List (List Segment)) × (r ≡ some pieces)
      × (concat pieces ≡ chunk)
      × All InBudget pieces

  push_rest-ArePieces :
      (chunk : List Segment) (out : List (List Segment)) (last : List Segment)
      → IsFilled [] chunk (out, last)
      → ArePieces chunk (
          push_rest rendered_chars max_chars
            (push_rendered_budget_chunk rendered_chars max_chars 1)
            (out, last))
  push_rest-ArePieces chunk out [] f =
      (out, refl, sym (append-nil (concat out)) ∙ f.whole, f.pieces)
  push_rest-ArePieces chunk out (s ∷ ss) f = elim f.rest [
    | inl none_left ↦ cc
    | inr fits ↦ (
      out ++ (s ∷ ss) ∷ [],
      ap (then_push out) (push-InBudget 0 (s ∷ ss) fits),
      concat-append out ((s ∷ ss) ∷ []) ∙ ap (λ r. concat out ++ r) (append-nil (s ∷ ss)) ∙ f.whole,
      All-append InBudget out ((s ∷ ss) ∷ []) f.pieces (fits, tt),
    )
  ]

  push-ArePieces :
      (chunk : List Segment)
      → 0 < length chunk
      → ArePieces chunk (push_rendered_budget_chunk rendered_chars max_chars budget_fuel chunk)
  unfolding push_rendered_budget_chunk
  push-ArePieces chunk filled =
      elim (Bool-cases (leb (length chunk) 1 || leb (rendered_chars chunk) max_chars)) [
        | inl fits ↦ (
          chunk ∷ [],
          rw (fits, push_rendered_budget_chunk) refl,
          append-nil chunk,
          (
            (
              filled,
              elim (Bool-cases (leb (length chunk) 1)) [
                | inl short ↦ inl (ground (arith, short))
                | inr long ↦ inr (ground (arith, fits, long))
              ],
            ),
            tt,
          ),
        )
        | inr over ↦
            rw (over, push_rendered_budget_chunk)
              (push_rest-ArePieces chunk (fill rendered_chars max_chars [] chunk).0
                (fill rendered_chars max_chars [] chunk).1 (fill-IsFilled [] chunk (inl refl)))
      ]

  -- For chunks that are not empty, whatever the size of the prompts: the split does not run out of
  -- fuel, its pieces one after another are the chunks one after another, and each piece is a single
  -- segment or has a prompt within the budget.
  pub split_chunks_to_rendered_budget-InBudget :
      (chunks : List (List Segment))
      → All (λ c. 0 < length c) chunks
      → (out : List (List Segment)) × (split_chunks_to_rendered_budget rendered_chars max_chars
            chunks
          ≡ some out)
        × (concat out ≡ concat chunks)
        × All InBudget out
  unfolding split_chunks_to_rendered_budget
  split_chunks_to_rendered_budget-InBudget [] h = ([], refl, refl, tt)
  split_chunks_to_rendered_budget-InBudget (chunk ∷ chunks) h =
      let (pieces, e, whole, fit) = push-ArePieces chunk h.0 in
      let (rest, e', whole', fit') = split_chunks_to_rendered_budget-InBudget chunks h.1 in
      (
        pieces ++ rest,
        rw (e, e', split_chunks_to_rendered_budget) refl,
        concat-append pieces rest ∙ ap₂ ◌++◌ whole whole',
        All-append InBudget pieces rest fit fit',
      )
