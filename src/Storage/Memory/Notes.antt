-- ===== src/Storage/Memory/Notes.antt =====
-- The note methods of `InMemoryStorage`.
use panops.Base.{
  Bool, List, Option, Text, codes, contains_key, err, false, if◌then◌else◌, insert, keep, lookup,
  none, not, ok, retain, some, text_eq, values,
}
use panops.Storage.{Note, NoteDraft, already_exists, meeting, not_found, note, sql}
use panops.Storage.Memory.{Inner, Outcome}
use panops.Storage.Memory.Meetings.{new_note}

unfoldable pub create_note : NoteDraft → Text → Inner → Outcome Note
create_note d now inner =
    if not (contains_key d.meeting_id inner.meetings)
    then (err (not_found d.meeting_id meeting), inner)
    else if contains_key d.id inner.notes
    then (err (already_exists d.id note), inner)
    else (ok (new_note d now), record inner { notes = insert d.id (new_note d now) inner.notes })

unfoldable pub list_notes_for_meeting : Text → Inner → Outcome (List Note)
list_notes_for_meeting meeting_id inner =
    (ok (keep (λ (n : Note). text_eq n.meeting_id meeting_id) (values inner.notes)), inner)

abbrev pub belongs_elsewhere : Text → Option Note → Bool
belongs_elsewhere meeting_id none = false
belongs_elsewhere meeting_id (some n) = not (text_eq n.meeting_id meeting_id)

unfoldable pub replace_meeting_note : Text → NoteDraft → Text → Inner → Outcome Note
replace_meeting_note meeting_id d now inner =
    if not (text_eq d.meeting_id meeting_id)
    then (err (sql (codes "replace_meeting_note: draft.meeting_id must match meeting_id")), inner)
    else if not (contains_key meeting_id inner.meetings)
    then (err (not_found meeting_id meeting), inner)
    else if belongs_elsewhere meeting_id (lookup d.id inner.notes)
    then (err (already_exists d.id note), inner)
    else (
      ok (new_note d now),
      record inner {
        notes =
            insert d.id (new_note d now)
              (retain (λ (n : Note). not (text_eq n.meeting_id meeting_id)) inner.notes);
      },
    )
