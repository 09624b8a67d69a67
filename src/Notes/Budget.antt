-- ===== src/Notes/Budget.antt =====
-- The second split of a long section, by the size of the rendered prompt:
-- `split_chunks_to_rendered_budget` of crates/panops-core/src/notes/pipeline.rs. The size of the
-- prompt for a chunk is a parameter. The recursion is on fuel; Budget/Chunks shows that 2 is enough.
pub mod Rendered
use panops.Base.{
  Bool, List, Option, [], false, leb, length, ltb, none, some, suc, true, zero, ℕ, ◌&&◌, ◌++◌, ◌||◌,
  ◌∷◌,
}
use panops.Transcript.{Segment}

abbrev pub budget_fuel : ℕ
budget_fuel = 2

abbrev pub then_push :
    List (List Segment) → Option (List (List Segment)) → Option (List (List Segment))
then_push out none = none
then_push out (some rest) = some (out ++ rest)

module _ (rendered_chars : List Segment → ℕ) (max_chars : ℕ) where
  abbrev pub over_budget : List Segment → Bool
  over_budget chunk = ltb max_chars (rendered_chars chunk) && ltb 1 (length chunk)

  -- The loop over the chunk: the pieces that are pushed and what is left in `current`.
  unfoldable pub fill : List Segment → List Segment → List (List Segment) × List Segment
  fill current [] = ([], current)
  fill current (seg ∷ segs) = elim (over_budget (current ++ seg ∷ [])) [
    | true ↦ (current ∷ (fill (seg ∷ []) segs).0, (fill (seg ∷ []) segs).1)
    | false ↦ fill (current ++ seg ∷ []) segs
  ]

  abbrev pub push_rest :
      (List Segment → Option (List (List Segment)))
      → List (List Segment) × List Segment
      → Option (List (List Segment))
  push_rest push (out, []) = some out
  push_rest push (out, s ∷ ss) = then_push out (push (s ∷ ss))

  unfoldable pub push_rendered_budget_chunk : ℕ → List Segment → Option (List (List Segment))
  unfolding fill
  push_rendered_budget_chunk zero chunk = none
  push_rendered_budget_chunk (suc fuel) chunk =
      elim (leb (length chunk) 1 || leb (rendered_chars chunk) max_chars) [
        | true ↦ some (chunk ∷ [])
        | false ↦ push_rest (push_rendered_budget_chunk fuel) (fill [] chunk)
      ]

  unfoldable pub split_chunks_to_rendered_budget :
      List (List Segment) → Option (List (List Segment))
  unfolding push_rendered_budget_chunk
  split_chunks_to_rendered_budget [] = some []
  split_chunks_to_rendered_budget (chunk ∷ chunks) =
      elim (push_rendered_budget_chunk budget_fuel chunk) [
        | none ↦ none
        | some pieces ↦ then_push pieces (split_chunks_to_rendered_budget chunks)
      ]
