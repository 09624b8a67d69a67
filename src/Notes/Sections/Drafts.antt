-- ===== src/Notes/Sections/Drafts.antt =====
-- What the notes of a section are, whatever the language model answers.

use panops.Base.{
  ==_iff, All, Bool-cases, List, Result, Text, [], arith, codes, err, inl, inr, leb, length, ltb,
  lt→ltb, none, ok, refl, some, true, ℕ, ◌<◌, ◌==◌, ◌↔◌, ◌∷◌, ◌≡◌, ◌≤◌, ◌⊎◌,
}
use panops.Transcript.{Segment}
use panops.Notes.Verifier.{
  VerifierReport, all_allowed, disallowed_speakers, verify_section_attribution,
}
use panops.Notes.Chunking.{split_segments_for_chunking}
use panops.Notes.Chunking.Chunks.{Fits, split_segments_for_chunking-AreChunks}
use panops.Notes.Budget.Rendered.{split_chunks_to_rendered_budget-InBudget}
use panops.Notes.Sections.{
  Json, MergeError, Reply, SectionJob, SectionResult, after_summaries, failures, from_json,
  job_fallback, json_response, last_text, llm_unavailable, merged, message_of, process_section,
  process_single_section, section_chunk_target_chars, section_chunk_threshold_chars, summarise,
  text_response, verified,
}

-- Either the draft passes the verifier and no call failed, or it is the transcript under a message.
abbrev pub IsSafe : SectionJob → SectionResult → Type 0
IsSafe job (draft, e) =
    ((verify_section_attribution draft.narrative_md draft.action_items job.allowed_speakers
        ≡ all_allowed)
      × (e ≡ none))
    ⊎ ((message : Text) × (draft ≡ job_fallback job message))

Report-cases :
    (r : VerifierReport) → (r ≡ all_allowed) ⊎ ((ids : List ℕ) × (r ≡ disallowed_speakers ids))
Report-cases all_allowed = inl refl
Report-cases (disallowed_speakers ids) = inr (ids, refl)

module _ {V O : Type 0} (json : Json V O) where
  verified-IsSafe : (job : SectionJob) (v : V) → IsSafe job (verified json job v)
  unfolding verified
  verified-IsSafe job v =
      let draft = from_json json job.time_range_ms v in
      elim (Report-cases
        (verify_section_attribution draft.narrative_md draft.action_items job.allowed_speakers)) [
          | inl clean ↦ rw (clean, verified) (inl (clean, refl))
          | inr (ids, e) ↦
              rw (e, verified) (inr (codes "verifier: disallowed speaker reference", refl))
        ]

  process_single_section-IsSafe :
      (job : SectionJob) (reply : Reply V) → IsSafe job (process_single_section json job reply)
  unfolding process_single_section
  process_single_section-IsSafe job (ok (json_response v)) = verified-IsSafe job v
  process_single_section-IsSafe job (ok (text_response s)) =
      inr (codes "llm returned text, expected json", refl)
  process_single_section-IsSafe job (err e) = inr (message_of e, refl)

-- The section's result where the chunks have not all been summarised.
abbrev StopsSafely : {V : Type 0} → SectionJob → Result SectionResult (List V) → Type 0
StopsSafely job (ok vs) = Unit
StopsSafely job (err r) = IsSafe job r

summarise-StopsSafely :
    {V : Type 0} (job : SectionJob) (complete : List Segment → Reply V)
    (chunks : List (List Segment))
    → StopsSafely job (summarise job complete chunks)
unfolding summarise
summarise-StopsSafely job complete [] = tt
summarise-StopsSafely {V} job complete (chunk ∷ chunks) =
    after (complete chunk) (summarise job complete chunks)
      (summarise-StopsSafely job complete chunks)
  where
    after :
        (reply : Reply V) (rest : Result SectionResult (List V))
        → StopsSafely job rest
        → StopsSafely job (elim reply [
          | err e ↦ err (job_fallback job (codes "LLM unavailable"), some (message_of e))
          | ok r ↦ elim r [
            | text_response _ ↦ err (job_fallback job (codes "LLM unavailable"), none)
            | json_response v ↦ elim rest [ err r ↦ err r | ok vs ↦ ok (v ∷ vs) ]
          ]
        ])
    after (err e) rest h = inr (codes "LLM unavailable", refl)
    after (ok (text_response s)) rest h = inr (codes "LLM unavailable", refl)
    after (ok (json_response v)) (err r) h = h
    after (ok (json_response v)) (ok vs) h = tt

filled_chunks :
    (max_chars : ℕ) (chunks : List (List Segment))
    → All (Fits max_chars) chunks
    → All (λ c. 0 < length c) chunks
filled_chunks max_chars [] h = tt
filled_chunks max_chars ([] ∷ chunks) h = cc
filled_chunks max_chars ((s ∷ ss) ∷ chunks) h = (omega arith, filled_chunks max_chars chunks h.1)

module _ {V O : Type 0} (json : Json V O) where
  merged-IsSafe : (job : SectionJob) (m : Result MergeError V) → IsSafe job (merged json job m)
  unfolding merged
  merged-IsSafe job (ok v) = verified-IsSafe json job v
  merged-IsSafe job (err e) = inr (e.message, refl)

  module _ (rendered_chars : List Segment → ℕ) (complete : List Segment → Reply V)
      (merge_chunk_summaries : List V → Result MergeError V) where
    after_summaries-IsSafe :
        (job : SectionJob) (r : Result SectionResult (List V))
        → StopsSafely job r
        → IsSafe job (after_summaries json rendered_chars complete merge_chunk_summaries job r)
    after_summaries-IsSafe job (err r) h = h
    after_summaries-IsSafe job (ok vs) h = merged-IsSafe job (merge_chunk_summaries vs)

    -- Whatever the size of the prompts, the replies and the merge: a section always gets a result. Its
    -- draft either passes the verifier, with no failed call to report, or it is the section's
    -- transcript under a message.
    pub process_section-IsSafe :
        (job : SectionJob)
        → (r : SectionResult) × (process_section json rendered_chars complete merge_chunk_summaries
              job
            ≡ some r)
          × IsSafe job r
    unfolding process_section
    process_section-IsSafe job =
        elim (Bool-cases (leb (rendered_chars job.segs) section_chunk_threshold_chars)) [
          | inl small ↦ (
            process_single_section json job (complete job.segs),
            rw (small, process_section) refl,
            process_single_section-IsSafe json job (complete job.segs),
          )
          | inr large ↦
              let first =
                split_segments_for_chunking job.segs section_chunk_target_chars
                  section_chunk_threshold_chars in
              let fit =
                split_segments_for_chunking-AreChunks job.segs section_chunk_target_chars
                  section_chunk_threshold_chars in
              let (chunks, e, same, budget) =
                split_chunks_to_rendered_budget-InBudget rendered_chars
                  section_chunk_threshold_chars first
                  (filled_chunks section_chunk_threshold_chars first fit.1) in
              (
                after_summaries json rendered_chars complete merge_chunk_summaries job
                    (summarise job complete chunks),
                rw (large, e, process_section) refl,
                after_summaries-IsSafe job (summarise job complete chunks)
                    (summarise-StopsSafely job complete chunks),
              )
        ]

failures-length : (rs : List SectionResult) → length (failures rs) ≤ length rs
unfolding failures
failures-length [] = omega arith
failures-length ((d, none) ∷ rs) = omega (arith, failures-length rs)
failures-length ((d, some e) ∷ rs) = omega (arith, failures-length rs)

abbrev pub Failed : SectionResult → Type 0
Failed (d, e) = (message : Text) × (e ≡ some message)

All-Failed : (rs : List SectionResult) → length (failures rs) ≡ length rs → All Failed rs
unfolding failures
All-Failed [] h = tt
All-Failed ((d, none) ∷ rs) h = absurd (omega (arith, h, failures-length rs))
All-Failed ((d, some e) ∷ rs) h = ((e, refl), All-Failed rs (omega (arith, h)))

count-Failed : (rs : List SectionResult) → All Failed rs → length (failures rs) ≡ length rs
unfolding failures
count-Failed [] h = refl
count-Failed ((d, none) ∷ rs) h = cc
count-Failed ((d, some e) ∷ rs) h = omega (arith, count-Failed rs h.1)

-- The notes are given up as a whole exactly if there is a section and every section's call failed.
pub llm_unavailable-Failed :
    (results : List SectionResult)
    → ((e : ℕ × ℕ × Text) × (llm_unavailable results ≡ some e))
      ↔ ((0 < length results) × All Failed results)
unfolding llm_unavailable
llm_unavailable-Failed results = (
  λ h. (ground (arith, h.1), All-Failed results (ground (arith, h.1))),
  λ h.
      let many : ltb 0 (length results) ≡ true = lt→ltb _ _ h.0 in
      let equal : (length (failures results) == length results) ≡ true =
        (==_iff _ _).1 (count-Failed results h.1) in
      (
        (length (failures results), length results, last_text [] (failures results)),
        rw (many, equal, llm_unavailable) refl,
      ),
)
