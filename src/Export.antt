-- ===== src/Export.antt =====
-- `MarkdownExporter` of crates/panops-portable/src/markdown_exporter.rs with the notes that it renders
-- (crates/panops-core/src/notes/ir.rs). A date is the text that chrono prints.
pub mod Scalars
pub mod Speakers
pub mod Screenshots
pub mod RoundTrip
use panops.Base.{
  List, Option, Result, Text, [], codes, concat, decimal, err, if◌then◌else◌, map, none, not, ok,
  some, trim, ℕ, ◌%◌, ◌++◌, ◌-◌, ◌/◌, ◌>>=◌, ◌∷◌,
}
use panops.Notes.Anchoring.{Screenshot}
use panops.Notes.Verifier.{ActionItem, strip_prefix}
use panops.Notes.Sections.{MarkdownDialect}
use panops.Notes.RawTranscript.{padded}
use panops.Protocol.{ExportError, io}
use panops.Models.{reversed, exists}
use panops.Engine.Paths.{join, body}
use panops.Engine.Pipeline.Input.{ExportArtifact, dialect_text}
use panops.Export.Scalars.{yaml_scalar}
use panops.Export.Speakers.{humanize_speaker_id, humanize_speakers_in_text}
use panops.Export.Screenshots.{io_answer, Desk, Rendered, line, lines_of, render_screenshots}

pub record NotesFrontmatter : Type 0 where
  pub title : Text
  pub date : Text
  pub started_at : Text
  pub duration_ms : ℕ
  pub speakers : List Text
  pub languages : List Text
  pub tags : List Text
  pub template : Text
  pub dialect : MarkdownDialect
  pub panops_version : Text
  pub source_audio : Option Text

pub record NotesSection : Type 0 where
  pub index : ℕ
  pub title : Text
  pub time_range_ms : ℕ × ℕ
  pub narrative_md : Text
  pub key_points : List Text
  pub action_items : List ActionItem
  pub screenshots : List Screenshot

pub record StructuredNotes : Type 0 where
  pub schema_version : ℕ
  pub frontmatter : NotesFrontmatter
  pub sections : List NotesSection
  pub language : Text
  pub generated_at : Text

unfoldable pub format_mmss : ℕ → Text
format_mmss ms = let total_s = ms / 1000 in decimal (total_s / 60) ++ b':' ∷ padded 2 (total_s % 60)

unfoldable pub joined : List Text → Text
joined [] = []
joined (x ∷ []) = x
joined (x ∷ y ∷ xs) = x ++ (codes ", " ++ joined (y ∷ xs))

unfoldable pub yaml_list : List Text → Text
unfolding joined
yaml_list items = codes "[" ++ (joined (map yaml_scalar items) ++ codes "]")

abbrev pub item : Text → Text
item s = codes "  - " ++ yaml_scalar s

abbrev pub named_list : Text → (Text → Text) → List Text → Text
named_list name f [] = line (name ++ codes ": []")
named_list name f (x ∷ xs) = line (name ++ codes ":") ++ lines_of f (x ∷ xs)

abbrev pub audio_line : Option Text → Text
audio_line none = []
audio_line (some p) = line (codes "source_audio: " ++ yaml_scalar p)

abbrev pub rule : Text
rule = line (codes "---")

unfoldable pub render_frontmatter : StructuredNotes → Text
unfolding humanize_speaker_id yaml_list
render_frontmatter notes =
    let fm = notes.frontmatter in
    concat (
      rule
      ∷ line (codes "title: " ++ yaml_scalar fm.title)
      ∷ line (codes "date: " ++ fm.date)
      ∷ line (codes "started_at: " ++ fm.started_at)
      ∷ line (codes "duration_ms: " ++ decimal fm.duration_ms)
      ∷ line (codes "languages: " ++ yaml_list fm.languages)
      ∷ named_list (codes "speakers") (λ sp. item (humanize_speaker_id sp)) fm.speakers
      ∷ named_list (codes "tags") item fm.tags
      ∷ line (codes "template: " ++ yaml_scalar fm.template)
      ∷ line (codes "dialect: " ++ dialect_text fm.dialect)
      ∷ line (codes "panops_version: " ++ yaml_scalar fm.panops_version)
      ∷ audio_line fm.source_audio
      ∷ rule
      ∷ [])

abbrev pub bullet : Text → Text
bullet s = codes "- " ++ humanize_speakers_in_text s

abbrev pub action : ActionItem → Text
action a =
    codes "- "
    ++ (humanize_speakers_in_text a.description
        ++ (codes " (owner: "
            ++ (elim a.owner [ none ↦ codes "owner TBD" | some o ↦ humanize_speaker_id o ]
                ++ codes ")")))

abbrev pub block {ℓ} : {A : Type ℓ} → Text → (A → Text) → List A → Text
block title f [] = []
block title f (x ∷ xs) = line title ++ line (lines_of f (x ∷ xs))

unfoldable pub render_text : NotesSection → Text
unfolding humanize_speakers_in_text format_mmss
render_text sec = concat (
    line (line (codes "## " ++ (decimal sec.index ++ (codes ". " ++ sec.title))))
    ∷ line (
        line (
          codes "*["
          ++ (format_mmss sec.time_range_ms.0
              ++ (b' ' ∷ 0xE2 ∷ 0x80 ∷ 0x93 ∷ b' ' ∷ format_mmss sec.time_range_ms.1
                  ++ codes "]*"))))
    ∷ line (line (humanize_speakers_in_text (trim sec.narrative_md)))
    ∷ block (codes "**Key points:**") bullet sec.key_points
    ∷ block (codes "**Action items:**") action sec.action_items
    ∷ [])

unfoldable pub render_section :
    Desk → NotesSection → MarkdownDialect → Text → Result ExportError Rendered
unfolding render_text render_screenshots
render_section desk sec dialect screenshots_dir = elim sec.screenshots [
  | [] ↦ ok (render_text sec, [])
  | shot ∷ shots ↦ render_screenshots desk (shot ∷ shots) sec.index dialect screenshots_dir >>= λ r.
      ok (render_text sec ++ r.0, r.1)
]

abbrev pub separator : Text
separator = 10 ∷ line (rule)

unfoldable pub render_sections :
    Desk → MarkdownDialect → Text → List NotesSection → Result ExportError Rendered
unfolding render_section
render_sections desk dialect screenshots_dir [] = ok ([], [])
render_sections desk dialect screenshots_dir (sec ∷ secs) =
    let later = render_sections desk dialect screenshots_dir secs in
    render_section desk sec dialect screenshots_dir >>= λ r.
    later >>= λ rs. ok (r.0 ++ (separator ++ rs.0), r.1 ++ rs.1)

-- The separator at the end becomes a line feed.
unfoldable pub without_separator : Text → Text
unfolding strip_prefix reversed
without_separator body = elim (strip_prefix (reversed [] separator) (reversed [] body)) [
  | none ↦ body
  | some back ↦ line (reversed [] back)
]

abbrev pub prepared : Desk → Text → Result ExportError (Unit {0})
prepared desk dest =
    if desk.exists dest
    then (if desk.is_dir dest
        then ok tt
        else err
            (ExportError.invalid_dest (desk.debug dest ++ codes " exists but is not a directory")))
    else io_answer (desk.create_dir_all dest)

-- The artifact with the text of notes.md.
unfoldable pub export : Desk → StructuredNotes → Text → Result ExportError (ExportArtifact × Text)
unfolding render_frontmatter render_sections without_separator
export desk notes dest = prepared desk dest >>= λ u.
    render_sections desk notes.frontmatter.dialect (join dest (codes "screenshots")) notes.sections
    >>= λ r.
        let body = without_separator (line (render_frontmatter notes) ++ r.0) in
        let primary = join dest (codes "notes.md") in
        io_answer (desk.write primary) >>= λ written.
        ok (record { primary_file = primary; assets = r.1 }, body)
