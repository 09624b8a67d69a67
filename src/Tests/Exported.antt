-- ===== src/Tests/Exported.antt =====
-- The theorems on the exporter at concrete inputs, and runs of it.
use panops.Export.Speakers.{humanize_speakers_in_text}
use panops.Export.Screenshots.{Desk, line}
use panops.Base.{
  List, Text, [], codes, decimal, map, none, ok, refl, text_eq, trim, true, value_from, ◌++◌, ◌∷◌,
  ◌≡◌,
}
use panops.Notes.Sections.{MarkdownDialect}
use panops.Engine.Paths.{join}
use panops.Export.Scalars.{yaml_scalar}
use panops.Export.{NotesFrontmatter, StructuredNotes, export}

abbrev words : List Text
words = codes "Daily standup" ∷ codes "true" ∷ codes "1_000" ∷ codes "NaN" ∷ codes "end " ∷ []

scalars :
    map yaml_scalar words
    ≡ codes "Daily standup"
      ∷ (34 ∷ codes "true" ++ 34 ∷ [])
      ∷ (34 ∷ codes "1_000" ++ 34 ∷ [])
      ∷ (34 ∷ codes "NaN" ++ 34 ∷ [])
      ∷ (34 ∷ codes "end " ++ 34 ∷ [])
      ∷ []
unfolding yaml_scalar text_eq trim decimal value_from
scalars = refl

humanized :
    humanize_speakers_in_text (codes "speaker_0 and speaker_x, speaker_9999999999, speaker_41.")
    ≡ codes "Speaker 1 and speaker_x, speaker_9999999999, Speaker 42."
unfolding humanize_speakers_in_text value_from decimal
humanized = refl

abbrev frontmatter : NotesFrontmatter
frontmatter = record {
  title = codes "Standup";
  date = codes "2026-06-07";
  started_at = codes "2026-06-07T10:00:00+00:00";
  duration_ms = 61000;
  speakers = codes "speaker_0" ∷ [];
  languages = codes "es" ∷ codes "en" ∷ [];
  tags = [];
  template = codes "default";
  dialect = MarkdownDialect.basic;
  panops_version = codes "v1";
  source_audio = none;
}

abbrev desk : Desk
desk = record {
  exists = λ p. true;
  is_dir = λ p. true;
  create_dir_all = λ p. none;
  copy = λ p q. none;
  write = λ p. none;
  debug = λ p. p;
}

abbrev empty : StructuredNotes
empty = record {
  schema_version = 1;
  frontmatter = frontmatter;
  sections = [];
  language = codes "es";
  generated_at = codes "now";
}

abbrev head : Text
head =
    line (codes "---")
    ++ (line (codes "title: Standup")
        ++ (line (codes "date: 2026-06-07")
            ++ (line (codes "started_at: 2026-06-07T10:00:00+00:00")
                ++ (line (codes "duration_ms: 61000")
                    ++ (line (codes "languages: [es, en]")
                        ++ (line (codes "speakers:")
                            ++ (line (codes "  - Speaker 1")
                                ++ (line (codes "tags: []")
                                    ++ (line (codes "template: default")
                                        ++ (line (codes "dialect: basic")
                                            ++ line (codes "panops_version: v1")))))))))))

-- Without a section, the frontmatter is not closed.
unclosed :
    export desk empty (codes "/out")
    ≡ ok (record { primary_file = codes "/out/notes.md"; assets = [] }, head)
unfolding export join yaml_scalar text_eq trim decimal value_from
unclosed = refl
