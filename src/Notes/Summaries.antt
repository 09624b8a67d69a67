-- ===== src/Notes/Summaries.antt =====
-- The merge of the summaries of a long section's chunks: `merge_chunk_summaries` of
-- crates/panops-core/src/notes/pipeline.rs. The size of a summary, the size of the merge prompt for
-- a batch and the reply to it are parameters. The rounds are on fuel; Summaries/Rounds shows that the
-- number of summaries is enough.
pub mod Rounds
use panops.Base.{
  Bool, List, Option, Result, Text, [], codes, err, false, leb, length, ltb, none, ok, some, suc,
  true, zero, ℕ, ◌&&◌, ◌++◌, ◌+◌, ◌==◌, ◌∷◌,
}
use panops.Notes.Sections.{
  MergeError, Reply, json_response, section_chunk_threshold_chars, text_response,
}

abbrev pub reduction : Text → MergeError
reduction message = record { message = message; llm_failed = false }

abbrev pub no_summaries : MergeError
no_summaries = reduction (codes "merge LLM call failed: no chunk summaries")

abbrev pub cannot_be_reduced : MergeError
cannot_be_reduced =
    reduction
      (codes "merge LLM call failed: chunk summaries cannot be reduced within context threshold")

module _ {V : Type 0} (estimate_chars : V → ℕ) (request_chars : List V → ℕ)
    (complete : List V → Reply V) where
  -- A batch of one is kept as it is, a larger one is merged by the model.
  unfoldable pub merge_batch : V → List V → Result MergeError V
  merge_batch b [] = ok b
  merge_batch b (c ∷ cs) = elim (complete (b ∷ c ∷ cs)) [
    | err _ ↦ err (record { message = codes "LLM unavailable"; llm_failed = true })
    | ok r ↦ elim r [
      | text_response _ ↦ err (reduction (codes "LLM unavailable"))
      | json_response v ↦ ok v
    ]
  ]

  abbrev pub and_then :
      Result MergeError V → Result MergeError (List V) → Result MergeError (List V)
  and_then (err e) rest = err e
  and_then (ok v) (err e) = err e
  and_then (ok v) (ok vs) = ok (v ∷ vs)

  -- The two inner loops, with the batch that is being filled: a summary joins it if the prompt stays
  -- within the threshold, and starts the next one if not.
  unfoldable pub fill_batches : V → List V → List V → Result MergeError (List V)
  unfolding merge_batch
  fill_batches b bs [] = and_then (merge_batch b bs) (ok [])
  fill_batches b bs (v ∷ vs) =
      elim (ltb section_chunk_threshold_chars (request_chars (b ∷ bs ++ v ∷ []))) [
        | true ↦ and_then (merge_batch b bs) (fill_batches v [] vs)
        | false ↦ fill_batches b (bs ++ v ∷ []) vs
      ]

  unfoldable pub estimate_sum : List V → ℕ
  estimate_sum [] = 0
  estimate_sum (v ∷ vs) = estimate_chars v + estimate_sum vs

  abbrev pub is_stuck : List V → List V → Bool
  is_stuck summaries next_round =
      length next_round == length summaries
      && leb (estimate_sum summaries) (estimate_sum next_round)

  unfoldable pub merge_rounds : ℕ → List V → Option (Result MergeError V)
  unfolding fill_batches estimate_sum
  merge_rounds fuel [] = some (err no_summaries)
  merge_rounds fuel (v ∷ []) = some (ok v)
  merge_rounds zero (v ∷ w ∷ vs) = none
  merge_rounds (suc fuel) (v ∷ w ∷ vs) = elim (fill_batches v [] (w ∷ vs)) [
    | err e ↦ some (err e)
    | ok next_round ↦ elim (is_stuck (v ∷ w ∷ vs) next_round) [
      | true ↦ some (err cannot_be_reduced)
      | false ↦ merge_rounds fuel next_round
    ]
  ]

  unfoldable pub merge_chunk_summaries : List V → Option (Result MergeError V)
  unfolding merge_rounds
  merge_chunk_summaries summaries = merge_rounds (length summaries) summaries
