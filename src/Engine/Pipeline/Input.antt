-- ===== src/Engine/Pipeline/Input.antt =====
-- What a notes job works on, and the screenshots of crates/panops-engine/src/screenshots.rs.
use panops.Base.{
  Bool, List, Option, Text, [], codes, false, if◌then◌else◌, length, none, some, sort_by, suc,
  text_eq, text_le, ℕ, ◌*◌, ◌/◌, ◌∷◌,
}
use panops.Transcript.{Segment}
use panops.Notes.Anchoring.{Screenshot}
use panops.Notes.Sections.{MarkdownDialect}
use panops.Models.{last_piece, reversed}
use panops.Models.Download.{stem}
use panops.Engine.Paths.{Disk}
use panops.Engine.Recording.Params.{NotesDialect}

pub record MeetingMetadata : Type 0 where
  pub started_at : Text
  pub duration_ms : ℕ
  pub source_path : Option Text
  pub language_hint : Option Text

pub record NotesInput : Type 0 where
  pub transcript : List Segment
  pub screenshots : List Screenshot
  pub meeting_metadata : MeetingMetadata

pub record ExportArtifact : Type 0 where
  pub primary_file : Text
  pub assets : List Text

pub record NotesGenerateResult : Type 0 where
  pub primary_file : Text
  pub assets : List Text
  pub meeting_id : Text
  pub transcript_txt_path : Option Text

-- The files of a directory are sorted and spread evenly over the meeting. Paths are compared by their
-- bytes: they differ in the last component only.
abbrev pub shots_from : ℕ → ℕ → List Text → List Screenshot
shots_from step i [] = []
shots_from step i (path ∷ paths) =
    record { ms_since_start = i * step; path = path; caption = none }
    ∷ shots_from step (suc i) paths

unfoldable pub collect_screenshots : Option (List Text) → ℕ → List Screenshot
collect_screenshots none duration_ms = []
collect_screenshots (some []) duration_ms = []
collect_screenshots (some (f ∷ fs)) duration_ms =
    shots_from (duration_ms / length (f ∷ fs)) 0 (sort_by text_le (f ∷ fs))

-- The name without its last extension, "untitled" where there is no name.
unfoldable pub file_stem : Text → Text
unfolding stem last_piece reversed
file_stem path =
    let name = last_piece [] (reversed [] path) in
    if text_eq name []
    then codes "untitled"
    else elim (stem (reversed [] path)) [ none ↦ name | some s ↦ last_piece [] s ]

abbrev pub dialect_of : Option NotesDialect → MarkdownDialect
dialect_of none = MarkdownDialect.notion_enhanced
dialect_of (some NotesDialect.notion_enhanced) = MarkdownDialect.notion_enhanced
dialect_of (some NotesDialect.basic) = MarkdownDialect.basic

-- `MarkdownDialect::as_str`
abbrev pub dialect_text : MarkdownDialect → Text
dialect_text MarkdownDialect.notion_enhanced = codes "notion-enhanced"
dialect_text MarkdownDialect.basic = codes "basic"

abbrev pub is_true : Option Bool → Bool
is_true none = false
is_true (some b) = b

abbrev pub or_text : Option Text → Text → Text
or_text none d = d
or_text (some s) d = s

abbrev pub when_there : Disk → Text → Option Text
when_there disk path = if disk.exists path then some path else none
