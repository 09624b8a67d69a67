-- ===== src/Tests/Sections.antt =====
-- The theorems on the notes pipeline at concrete inputs.

use panops.Base.{
  All, List, Result, Text, [], arith, codes, concat, err, if◌then◌else◌, length, none, ok, some,
  text_eq, ℕ, ◌*◌, ◌<◌, ◌↔◌, ◌∷◌, ◌≡◌,
}
use panops.Transcript.{Segment}
use panops.Notes.Budget.{split_chunks_to_rendered_budget}
use panops.Notes.Budget.Rendered.{InBudget, split_chunks_to_rendered_budget-InBudget}
use panops.Notes.Sections.{
  Json, MergeError, Reply, SectionJob, SectionResult, basic, cancelled, json_response,
  llm_unavailable, process_section, process_single_section,
}
use panops.Notes.Sections.Drafts.{Failed, IsSafe, llm_unavailable-Failed, process_section-IsSafe}
use panops.Notes.Summaries.{merge_chunk_summaries}
use panops.Notes.Summaries.Rounds.{merge_chunk_summaries-ends}
use panops.Tests.Samples.{seg}

abbrev job : SectionJob
job = record {
  time_range_ms = (0, 1000);
  segs = seg 0 500 (some 0) ∷ seg 500 1000 (some 1) ∷ [];
  allowed_speakers = 0 ∷ 1 ∷ [];
  dialect = basic;
}

-- Prompts that are far too long, and a model that names a speaker nobody heard.
abbrev long : List Segment → ℕ
long segs = 9000 * length segs

-- Objects with one member, and their texts.
data Sample : Type 0 where
  sample_text : Text → Sample
  sample_object : Text → Sample → Sample

abbrev sample_json : Json Sample (Text × Sample)
sample_json = record {
  as_str = λ v. elim v [ sample_text s ↦ some s | sample_object _ _ ↦ none ];
  as_array = λ v. none;
  as_object = λ v. elim v [ sample_text _ ↦ none | sample_object k w ↦ some (k, w) ];
  member = λ k o. if text_eq o.0 k then some o.1 else none;
}

abbrev answer : Sample
answer = sample_object (codes "narrative_md") (sample_text (codes "speaker_9 left."))

abbrev complete : List Segment → Reply Sample
complete _ = ok (json_response answer)

abbrev merge : List Sample → Result MergeError Sample
merge _ = ok answer

process_section-IsSafe_example :
    (r : SectionResult) × (process_section sample_json long complete merge job ≡ some r)
    × IsSafe job r
process_section-IsSafe_example = process_section-IsSafe sample_json long complete merge job

split_chunks_to_rendered_budget-InBudget_example :
    (out : List (List Segment)) × (split_chunks_to_rendered_budget long 8000 (job.segs ∷ [])
      ≡ some out)
    × (concat out ≡ concat (job.segs ∷ []))
    × All (InBudget long 8000) out
split_chunks_to_rendered_budget-InBudget_example =
    split_chunks_to_rendered_budget-InBudget long 8000 (job.segs ∷ []) (omega arith, tt)

abbrev failed : List SectionResult
failed = process_single_section sample_json job (err cancelled) ∷ []

llm_unavailable-Failed_example :
    ((e : ℕ × ℕ × Text) × (llm_unavailable failed ≡ some e))
    ↔ ((0 < length failed) × All Failed failed)
llm_unavailable-Failed_example = llm_unavailable-Failed failed

-- Two summaries, of sizes that do not matter, and the model's merge.
merge_chunk_summaries-ends_example :
    (r : Result MergeError Sample) × (merge_chunk_summaries
        (λ _. 10)
        length
        (λ _. ok (json_response answer))
        (answer ∷ answer ∷ [])
      ≡ some r)
merge_chunk_summaries-ends_example =
    merge_chunk_summaries-ends (λ _. 10) length (λ _. ok (json_response answer))
      (answer ∷ answer ∷ [])
