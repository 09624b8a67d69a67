-- ===== src/Tests/Samples.antt =====
-- Shared sample data.
use panops.Base.{List, Option, Text, [], codes, none, some, ℕ, ◌∷◌}
use panops.Transcript.{Segment, SpeakerTurn}
use panops.Transcript.Float.{f32_half}
use panops.Storage.{MeetingDraft, NoteDraft}
use panops.Storage.Memory.Operations.{
  Call, call_assign_meeting, call_create_meeting, call_create_note, call_create_project,
  call_create_space,
}

abbrev pub m1 : Text
m1 = codes "m1"

abbrev pub space_1 : Text
space_1 = codes "space_1"

abbrev pub project_1 : Text
project_1 = codes "project_1"

abbrev pub draft : MeetingDraft
draft = record {
  id = m1;
  title = codes "Standup";
  started_at = codes "2026-05-01T10:00:00Z";
  language = codes "en";
  dir_path = codes "meetings/m1";
}

abbrev pub note_draft : NoteDraft
note_draft = record {
  id = codes "n1";
  meeting_id = m1;
  dialect = codes "basic";
  content_md = codes "hello";
  primary_path = codes "notes.md";
}

-- A meeting in a project of a space.
abbrev pub calls : List Call
calls =
    call_create_meeting draft
    ∷ call_create_space (codes "Work")
    ∷ call_create_project space_1 (codes "Site")
    ∷ call_assign_meeting m1 none (some project_1)
    ∷ call_create_note note_draft (codes "now")
    ∷ []

abbrev pub seg : ℕ → ℕ → Option ℕ → Segment
seg start_ms end_ms speaker_id = record {
  start_ms = start_ms;
  end_ms = end_ms;
  text = codes "hi";
  language_detected = none;
  confidence = f32_half;
  speaker_id = speaker_id;
}

abbrev pub turn : ℕ → ℕ → ℕ → SpeakerTurn
turn start_ms end_ms speaker_id = record {
  start_ms = start_ms;
  end_ms = end_ms;
  speaker_id = speaker_id;
}
