-- ===== src/Storage/Memory/Meetings.antt =====
-- The meeting methods of `InMemoryStorage`.
use panops.Base.{
  Bool, List, Option, Text, [], any, codes, contains_key, err, false, if◌then◌else◌, insert, keep,
  lookup, map, modify, none, not, ok, remove, retain, some, sort_by, text_eq, text_le, true, values,
  ℕ, ◌&&◌,
}
use panops.Storage.{
  Meeting, MeetingDraft, MeetingListFilter, MeetingSummary, Note, NoteDraft, already_exists,
  default_filter, meeting, not_found, note, sql, unique_conflict,
}
use panops.Storage.Memory.{Inner, Outcome}

abbrev pub new_meeting : MeetingDraft → Option Text → Option ℕ → Meeting
new_meeting d ended_at duration_ms = record {
  id = d.id;
  title = d.title;
  started_at = d.started_at;
  ended_at = ended_at;
  duration_ms = duration_ms;
  language = d.language;
  dir_path = d.dir_path;
}

abbrev pub dir_path_taken : Text → Inner → Bool
dir_path_taken path inner = any (λ (m : Meeting). text_eq m.dir_path path) (values inner.meetings)

unfoldable pub create_meeting : MeetingDraft → Inner → Outcome Meeting
create_meeting d inner =
    if contains_key d.id inner.meetings
    then (err (already_exists d.id meeting), inner)
    else if dir_path_taken d.dir_path inner
    then (err (unique_conflict meeting (codes "dir_path") d.dir_path), inner)
    else (
      ok (new_meeting d none none),
      record inner { meetings = insert d.id (new_meeting d none none) inner.meetings },
    )

abbrev pub new_note : NoteDraft → Text → Note
new_note d now = record {
  id = d.id;
  meeting_id = d.meeting_id;
  dialect = d.dialect;
  content_md = d.content_md;
  primary_path = d.primary_path;
  created_at = now;
}

unfoldable pub create_meeting_with_note :
    MeetingDraft → NoteDraft → Option Text → Option ℕ → Text → Inner → Outcome (Meeting × Note)
create_meeting_with_note d n ended_at duration_ms now inner =
    if contains_key d.id inner.meetings
    then (err (already_exists d.id meeting), inner)
    else if dir_path_taken d.dir_path inner
    then (err (unique_conflict meeting (codes "dir_path") d.dir_path), inner)
    else if not (text_eq n.meeting_id d.id)
    then (
      err (sql (codes "create_meeting_with_note: note.meeting_id must match meeting.id")),
      inner,
    )
    else if contains_key n.id inner.notes
    then (err (already_exists n.id note), inner)
    else (
      ok (new_meeting d ended_at duration_ms, new_note n now),
      record inner {
        meetings = insert d.id (new_meeting d ended_at duration_ms) inner.meetings;
        notes = insert n.id (new_note n now) inner.notes;
      },
    )

unfoldable pub get_meeting : Text → Inner → Outcome Meeting
get_meeting id inner = elim (lookup id inner.meetings) [
  | none ↦ (err (not_found id meeting), inner)
  | some m ↦ (ok m, inner)
]

-- The test of `list_meetings_filtered` on one meeting: the four filters, each with its `return`.
abbrev pub same_id : Option Text → Text → Bool
same_id none id = false
same_id (some j) id = text_eq j id

abbrev pub tagged : Option (List Text) → Text → Bool
tagged none tag_id = false
tagged (some ts) tag_id = any (λ t. text_eq t tag_id) ts

abbrev pub wanted : Option Text → (Text → Bool) → Bool
wanted none test = true
wanted (some id) test = test id

unfoldable pub passes : MeetingListFilter → Inner → Meeting → Bool
passes filter inner m =
    if filter.unsorted && contains_key m.id inner.meeting_spaces
    then false
    else wanted filter.space_id (same_id (lookup m.id inner.meeting_spaces))
      && (wanted filter.project_id (same_id (lookup m.id inner.meeting_projects))
          && wanted filter.tag_id (tagged (lookup m.id inner.meeting_tags)))

abbrev pub unwrap_or {ℓ} : {A : Type ℓ} → Option A → A → A
unwrap_or none d = d
unwrap_or (some a) d = a

unfoldable pub summary : Inner → Meeting → MeetingSummary
summary inner m = record {
  id = m.id;
  title = m.title;
  started_at = m.started_at;
  ended_at = m.ended_at;
  duration_ms = unwrap_or m.duration_ms 0;
  language = m.language;
  has_notes = any (λ (n : Note). text_eq n.meeting_id m.id) (values inner.notes);
  space_id = lookup m.id inner.meeting_spaces;
  project_id = lookup m.id inner.meeting_projects;
  tags = unwrap_or (lookup m.id inner.meeting_tags) [];
}

-- `b.started_at.cmp(&a.started_at)`: the latest first.
abbrev pub latest_first : MeetingSummary → MeetingSummary → Bool
latest_first a b = text_le b.started_at a.started_at

unfoldable pub list_meetings_filtered : MeetingListFilter → Inner → Outcome (List MeetingSummary)
unfolding passes summary
list_meetings_filtered filter inner = (
  ok (
      sort_by latest_first
        (map (summary inner) (keep (passes filter inner) (values inner.meetings)))),
  inner,
)

unfoldable pub list_meetings : Inner → Outcome (List MeetingSummary)
unfolding list_meetings_filtered
list_meetings inner = list_meetings_filtered default_filter inner

unfoldable pub update_meeting_ended : Text → Text → ℕ → Inner → Outcome Meeting
update_meeting_ended id ended_at duration_ms inner = elim (lookup id inner.meetings) [
  | none ↦ (err (not_found id meeting), inner)
  | some m ↦
      let ended =
        λ (m : Meeting). record m { ended_at = some ended_at; duration_ms = some duration_ms } in
      (ok (ended m), record inner { meetings = modify id ended inner.meetings })
]

unfoldable pub rename_meeting : Text → Text → Inner → Outcome Meeting
rename_meeting id title inner = elim (lookup id inner.meetings) [
  | none ↦ (err (not_found id meeting), inner)
  | some m ↦
      let renamed = λ (m : Meeting). record m { title = title } in
      (ok (renamed m), record inner { meetings = modify id renamed inner.meetings })
]

unfoldable pub delete_meeting : Text → Inner → Outcome (Unit {0})
delete_meeting id inner = elim (contains_key id inner.meetings) [
  | false ↦ (err (not_found id meeting), inner)
  | true ↦ (
    ok tt,
    record inner {
      meetings = remove id inner.meetings;
      notes = retain (λ (n : Note). not (text_eq n.meeting_id id)) inner.notes;
      meeting_tags = remove id inner.meeting_tags;
      meeting_spaces = remove id inner.meeting_spaces;
      meeting_projects = remove id inner.meeting_projects;
    },
  )
]
