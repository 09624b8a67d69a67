-- ===== src/Storage/Memory/KeepsNotes.antt =====
-- The note methods keep the tables consistent.
use panops.Base.{
  All-insert, All-mono, All-retain, Bool-cases, Dict, Has, Text, contains_key, inl, inr, insert,
  lookup, not, retain, text_eq, text_eq_iff, true, ◌≡◌,
}
use panops.Storage.{Note, NoteDraft}
use panops.Storage.Memory.{Inner}
use panops.Storage.Memory.Meetings.{new_note}
use panops.Storage.Memory.Notes.{belongs_elsewhere, create_note, replace_meeting_note}
use panops.Storage.Memory.Invariant.{IsConsistent}
use panops.Storage.Memory.KeepsMeetings.{set_notes-IsConsistent}

module _ {s : Inner} (c : IsConsistent s) where
  pub create_note-IsConsistent : (d : NoteDraft) (now : Text) → IsConsistent (create_note d now s).1
  unfolding create_note
  create_note-IsConsistent d now = elim (Bool-cases (contains_key d.meeting_id s.meetings)) [
    | inr absent ↦ rw absent c
    | inl there ↦ elim (Bool-cases (contains_key d.id s.notes)) [
      | inl taken ↦ rw (there, taken) c
      | inr free ↦
          rw (there, free)
            (set_notes-IsConsistent (insert d.id (new_note d now) s.notes) c
              (All-insert _ d.id (new_note d now) s.notes there c.note_meetings))
    ]
  ]

  pub replace_meeting_note-IsConsistent :
      (id : Text) (d : NoteDraft) (now : Text) → IsConsistent (replace_meeting_note id d now s).1
  unfolding replace_meeting_note
  replace_meeting_note-IsConsistent id d now = elim (Bool-cases (text_eq d.meeting_id id)) [
    | inr other ↦ rw other c
    | inl same ↦ elim (Bool-cases (contains_key id s.meetings)) [
      | inr absent ↦ rw (same, absent) c
      | inl there ↦ elim (Bool-cases (belongs_elsewhere id (lookup d.id s.notes))) [
        | inl elsewhere ↦ rw (same, there, elsewhere) c
        | inr ours ↦ rw (same, there, ours) (replaced same there)
      ]
    ]
  ]
    where
      kept : Dict Note
      kept = retain (λ (n : Note). not (text_eq n.meeting_id id)) s.notes

      replaced :
          text_eq d.meeting_id id ≡ true
          → Has s.meetings id
          → IsConsistent (record s { notes = insert d.id (new_note d now) kept })
      replaced same there = set_notes-IsConsistent (insert d.id (new_note d now) kept) c (
          All-insert _ d.id (new_note d now) kept (rw ((text_eq_iff d.meeting_id id).0 same) there)
            (All-mono _ _ kept (λ e h. h.0) (All-retain _ _ s.notes c.note_meetings)))
