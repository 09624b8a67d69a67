-- ===== src/Notes/Sections.antt =====
-- One section of the notes from the language model's replies: `process_section` and what it calls in
-- crates/panops-core/src/notes/pipeline.rs, with crates/panops-core/src/llm.rs and
-- notes/dialect.rs. The JSON values of the library serde_json are a parameter.
pub mod Drafts
use panops.Base.{
  Bool, List, Option, Result, Text, [], codes, decimal, err, if◌then◌else◌, leb, length, ltb, none,
  ok, some, text_eq, ℕ, ◌&&◌, ◌++◌, ◌==◌, ◌∷◌,
}
use panops.Transcript.{Segment}
use panops.Notes.Verifier.{ActionItem, all_allowed, disallowed_speakers, verify_section_attribution}
use panops.Notes.Chunking.{split_segments_for_chunking}
use panops.Notes.Budget.{split_chunks_to_rendered_budget}

-- What the code uses of serde_json: the views of a value as a text, an array and an object, and the
-- look-up in an object.
pub record Json (V O : Type 0) : Type 0 where
  pub as_str : V → Option Text
  pub as_array : V → Option (List V)
  pub as_object : V → Option O
  pub member : Text → O → Option V

module _ {V O : Type 0} (json : Json V O) where
  -- `v.get(key)` and then `as_str`.
  abbrev pub get : Text → V → Option V
  get k v = elim (json.as_object v) [ none ↦ none | some o ↦ json.member k o ]

  abbrev pub str_of : Option V → Option Text
  str_of none = none
  str_of (some v) = json.as_str v

  abbrev pub str_or : Option V → Text → Text
  str_or v d = elim (str_of v) [ none ↦ d | some s ↦ s ]

  abbrev pub texts_of : List V → List Text
  texts_of [] = []
  texts_of (v ∷ vs) = elim (json.as_str v) [ none ↦ texts_of vs | some s ↦ s ∷ texts_of vs ]

  abbrev pub array_of : Option V → List V
  array_of none = []
  array_of (some v) = elim (json.as_array v) [ none ↦ [] | some vs ↦ vs ]

  abbrev pub item_of : V → Option ActionItem
  item_of v = elim (json.as_object v) [
    | none ↦ none
    | some o ↦ elim (str_of (json.member (codes "description") o)) [
      | none ↦ none
      | some description ↦ some (record {
        description = description;
        owner = str_of (json.member (codes "owner") o);
        due = none;
      })
    ]
  ]

  abbrev pub items_of : List V → List ActionItem
  items_of [] = []
  items_of (v ∷ vs) = elim (item_of v) [ none ↦ items_of vs | some i ↦ i ∷ items_of vs ]

pub record SectionDraft : Type 0 where
  pub title : Text
  pub narrative_md : Text
  pub key_points : List Text
  pub action_items : List ActionItem
  pub time_range_ms : ℕ × ℕ

module _ {V O : Type 0} (json : Json V O) where
  unfoldable pub from_json : ℕ × ℕ → V → SectionDraft
  from_json time_range_ms v = record {
    title = str_or json (get json (codes "title") v) (codes "Untitled section");
    narrative_md = str_or json (get json (codes "narrative_md") v) [];
    key_points = texts_of json (array_of json (get json (codes "key_points") v));
    action_items = items_of json (array_of json (get json (codes "action_items") v));
    time_range_ms = time_range_ms;
  }

pub data MarkdownDialect : Type 0 where
  notion_enhanced basic : MarkdownDialect

abbrev newline2 : Text
newline2 = 10 ∷ 10 ∷ []

abbrev pub error_marker : MarkdownDialect → Text → Text
error_marker notion_enhanced e = codes "<!-- panops: llm error: " ++ e ++ codes " -->" ++ newline2
error_marker basic e = codes "> panops: llm error: " ++ e ++ newline2

abbrev pub speaker_label : Option ℕ → Text
speaker_label none = codes "unknown"
speaker_label (some id) = codes "speaker_" ++ decimal id

unfoldable pub transcript_block : List Segment → Text
transcript_block [] = []
transcript_block (s ∷ ss) =
    (codes "**" ++ speaker_label s.speaker_id ++ codes ":** " ++ s.text ++ newline2)
    ++ transcript_block ss

unfoldable pub fallback : ℕ × ℕ → List Segment → Text → MarkdownDialect → SectionDraft
unfolding transcript_block
fallback time_range_ms segs e dialect = record {
  title = codes "Section";
  narrative_md = error_marker dialect e ++ transcript_block segs;
  key_points = [];
  action_items = [];
  time_range_ms = time_range_ms;
}

pub data LlmResponse (V : Type 0) : Type 0 where
  text_response : Text → LlmResponse V
  json_response : V → LlmResponse V

pub data LlmError : Type 0 where
  network : Text → LlmError
  invalid_schema : Text → Text → LlmError
  empty_response : LlmError
  provider : Text → LlmError
  cancelled : LlmError

-- `e.to_string()`
abbrev pub message_of : LlmError → Text
message_of (network s) = codes "network: " ++ s
message_of (invalid_schema expected got) =
    codes "invalid schema: expected " ++ expected ++ codes ", got " ++ got
message_of empty_response = codes "empty response"
message_of (provider s) = codes "provider: " ++ s
message_of cancelled = codes "cancelled"

abbrev pub Reply : Type 0 → Type 0
Reply V = Result LlmError (LlmResponse V)

-- A draft, and the provider's error where its narrative came from a failed call.
abbrev pub SectionResult : Type 0
SectionResult = SectionDraft × Option Text

pub record MergeError : Type 0 where
  pub message : Text
  pub llm_failed : Bool

-- What a section is worked on with: its times and segments, the speakers that may be named, and
-- the dialect.
pub record SectionJob : Type 0 where
  pub time_range_ms : ℕ × ℕ
  pub segs : List Segment
  pub allowed_speakers : List ℕ
  pub dialect : MarkdownDialect

abbrev pub job_fallback : SectionJob → Text → SectionDraft
job_fallback job e = fallback job.time_range_ms job.segs e job.dialect

-- The loop over the chunks: their summaries, or the section's result where one fails.
unfoldable pub summarise :
    {V : Type 0}
    → SectionJob
    → (List Segment → Reply V)
    → List (List Segment)
    → Result SectionResult (List V)
summarise job complete [] = ok []
summarise job complete (chunk ∷ chunks) = elim (complete chunk) [
  | err e ↦ err (job_fallback job (codes "LLM unavailable"), some (message_of e))
  | ok r ↦ elim r [
    | text_response _ ↦ err (job_fallback job (codes "LLM unavailable"), none)
    | json_response v ↦ elim (summarise job complete chunks) [ err r ↦ err r | ok vs ↦ ok (v ∷ vs) ]
  ]
]

abbrev pub section_chunk_threshold_chars : ℕ
section_chunk_threshold_chars = 8000

abbrev pub section_chunk_target_chars : ℕ
section_chunk_target_chars = 4000

module _ {V O : Type 0} (json : Json V O) where
  -- The model's draft where it passes the verifier, and the transcript where it does not.
  unfoldable pub verified : SectionJob → V → SectionResult
  unfolding from_json fallback
  verified job v =
      let draft = from_json json job.time_range_ms v in
      elim (verify_section_attribution draft.narrative_md draft.action_items job.allowed_speakers) [
        | all_allowed ↦ (draft, none)
        | disallowed_speakers _ ↦
            (job_fallback job (codes "verifier: disallowed speaker reference"), none)
      ]

  unfoldable pub process_single_section : SectionJob → Reply V → SectionResult
  unfolding verified
  process_single_section job (ok (json_response v)) = verified job v
  process_single_section job (ok (text_response _)) =
      (job_fallback job (codes "llm returned text, expected json"), none)
  process_single_section job (err e) = (job_fallback job (message_of e), some (message_of e))

  unfoldable pub merged : SectionJob → Result MergeError V → SectionResult
  unfolding verified
  merged job (ok v) = verified job v
  merged job (err e) = (job_fallback job e.message, if e.llm_failed then some e.message else none)

  -- The size of a section's prompt, the reply to it and the merge of summaries are parameters.
  -- `none` would be the budget split running out of fuel.
  module _ (rendered_chars : List Segment → ℕ) (complete : List Segment → Reply V)
      (merge_chunk_summaries : List V → Result MergeError V) where
    abbrev pub after_summaries : SectionJob → Result SectionResult (List V) → SectionResult
    after_summaries job (err r) = r
    after_summaries job (ok vs) = merged job (merge_chunk_summaries vs)

    unfoldable pub process_section : SectionJob → Option SectionResult
    unfolding process_single_section summarise
    process_section job =
        if leb (rendered_chars job.segs) section_chunk_threshold_chars
        then some (process_single_section job (complete job.segs))
        else elim (split_chunks_to_rendered_budget rendered_chars section_chunk_threshold_chars (
            split_segments_for_chunking job.segs section_chunk_target_chars
              section_chunk_threshold_chars)) [
                | none ↦ none
                | some chunks ↦ some (after_summaries job (summarise job complete chunks))
              ]

-- Stage 2 of `generate`: the number of sections, and the last error, where each section's came
-- from a failed call.
unfoldable pub failures : List SectionResult → List Text
failures [] = []
failures ((d, none) ∷ rs) = failures rs
failures ((d, some e) ∷ rs) = e ∷ failures rs

abbrev pub last_text : Text → List Text → Text
last_text d [] = d
last_text d (t ∷ ts) = last_text t ts

unfoldable pub llm_unavailable : List SectionResult → Option (ℕ × ℕ × Text)
unfolding failures
llm_unavailable results =
    if ltb 0 (length results) && (length (failures results) == length results)
    then some (length (failures results), length results, last_text [] (failures results))
    else none
