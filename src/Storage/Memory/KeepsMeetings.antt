-- ===== src/Storage/Memory/KeepsMeetings.antt =====
-- The meeting methods keep the tables consistent.
use panops.Base.{
  All, All-insert, All-modify, All-mono, All-remove, All-retain, Bool-cases, Dict, Distinct-remove,
  Has, Has-insert, Has-insert_self, Option, Option-cases, Text, arith, contains_key,
  contains_key-modify, contains_key-remove, false, inl, inr, insert, lookup, lookup-remove, modify,
  none, not, refl, remove, retain, text_eq, text_eq_iff, text_eq_sym, true, ℕ, ◌∙◌, ◌≡◌,
}
use panops.Storage.{Meeting, MeetingDraft, Note, NoteDraft}
use panops.Storage.Memory.{Inner}
use panops.Storage.Memory.Meetings.{
  create_meeting, create_meeting_with_note, delete_meeting, dir_path_taken, get_meeting,
  new_meeting, new_note, rename_meeting, update_meeting_ended,
}
use panops.Storage.Memory.Invariant.{IsConsistent}

-- A new meeting leaves every reference good.
add_meeting-IsConsistent :
    {s : Inner} (m : Meeting)
    → IsConsistent s
    → IsConsistent (record s { meetings = insert m.id m s.meetings })
add_meeting-IsConsistent {s} m c = record {
  meeting_keys = All-insert _ m.id m s.meetings refl c.meeting_keys;
  project_keys = c.project_keys;
  note_meetings = All-mono _ _ s.notes (λ e h. Has-insert m.id m s.meetings _ h) c.note_meetings;
  project_spaces = c.project_spaces;
  space_rows =
      All-mono _ _ s.meeting_spaces (λ e h. (Has-insert m.id m s.meetings _ h.0, h.1)) c.space_rows;
  project_meetings =
      All-mono _ _ s.meeting_projects (λ e h. Has-insert m.id m s.meetings _ h) c.project_meetings;
  project_rows = c.project_rows;
  tag_rows =
      All-mono _ _ s.meeting_tags (λ e h. (Has-insert m.id m s.meetings _ h.0, h.1)) c.tag_rows;
  one_space = c.one_space;
  space_ids = c.space_ids;
  project_ids = c.project_ids;
  tag_ids = c.tag_ids;
}

-- So does a note of a meeting that exists.
pub set_notes-IsConsistent :
    {s : Inner} (notes : Dict Note)
    → IsConsistent s
    → All (λ (e : Text × Note). Has s.meetings e.1.meeting_id) notes
    → IsConsistent (record s { notes = notes })
set_notes-IsConsistent notes c h = record {
  meeting_keys = c.meeting_keys;
  project_keys = c.project_keys;
  note_meetings = h;
  project_spaces = c.project_spaces;
  space_rows = c.space_rows;
  project_meetings = c.project_meetings;
  project_rows = c.project_rows;
  tag_rows = c.tag_rows;
  one_space = c.one_space;
  space_ids = c.space_ids;
  project_ids = c.project_ids;
  tag_ids = c.tag_ids;
}

-- A row that keeps its id may change.
modify_meeting-IsConsistent :
    {s : Inner} (id : Text) (f : Meeting → Meeting)
    → ((m : Meeting) → (f m).id ≡ m.id)
    → IsConsistent s
    → IsConsistent (record s { meetings = modify id f s.meetings })
modify_meeting-IsConsistent {s} id f same c = record {
  meeting_keys = All-modify _ id f s.meetings (λ j v h. same v ∙ h) c.meeting_keys;
  project_keys = c.project_keys;
  note_meetings =
      All-mono _ _ s.notes (λ e h. contains_key-modify id _ f s.meetings ∙ h) c.note_meetings;
  project_spaces = c.project_spaces;
  space_rows =
      All-mono _ _ s.meeting_spaces (λ e h. (contains_key-modify id _ f s.meetings ∙ h.0, h.1))
        c.space_rows;
  project_meetings =
      All-mono _ _ s.meeting_projects (λ e h. contains_key-modify id _ f s.meetings ∙ h)
        c.project_meetings;
  project_rows = c.project_rows;
  tag_rows =
      All-mono _ _ s.meeting_tags (λ e h. (contains_key-modify id _ f s.meetings ∙ h.0, h.1))
        c.tag_rows;
  one_space = c.one_space;
  space_ids = c.space_ids;
  project_ids = c.project_ids;
  tag_ids = c.tag_ids;
}

module _ {s : Inner} (c : IsConsistent s) where
  pub create_meeting-IsConsistent : (d : MeetingDraft) → IsConsistent (create_meeting d s).1
  unfolding create_meeting
  create_meeting-IsConsistent d = elim (Bool-cases (contains_key d.id s.meetings)) [
    | inl taken ↦ rw taken c
    | inr free ↦ elim (Bool-cases (dir_path_taken d.dir_path s)) [
      | inl path_taken ↦ rw (free, path_taken) c
      | inr path_free ↦ rw (free, path_free) (add_meeting-IsConsistent (new_meeting d none none) c)
    ]
  ]

  pub create_meeting_with_note-IsConsistent :
      (d : MeetingDraft) (n : NoteDraft) (ended_at : Option Text) (duration_ms : Option ℕ)
      (now : Text)
      → IsConsistent (create_meeting_with_note d n ended_at duration_ms now s).1
  unfolding create_meeting_with_note
  create_meeting_with_note-IsConsistent d n ended_at duration_ms now =
      elim (Bool-cases (contains_key d.id s.meetings)) [
        | inl taken ↦ rw taken c
        | inr free ↦ elim (Bool-cases (dir_path_taken d.dir_path s)) [
          | inl path_taken ↦ rw (free, path_taken) c
          | inr path_free ↦ elim (Bool-cases (text_eq n.meeting_id d.id)) [
            | inr other ↦ rw (free, path_free, other) c
            | inl same ↦ elim (Bool-cases (contains_key n.id s.notes)) [
              | inl note_taken ↦ rw (free, path_free, same, note_taken) c
              | inr note_free ↦ rw (free, path_free, same, note_free) (with_note same)
            ]
          ]
        ]
      ]
    where
      m : Meeting
      m = new_meeting d ended_at duration_ms

      with_note :
          text_eq n.meeting_id d.id ≡ true
          → IsConsistent (record s {
            meetings = insert d.id m s.meetings;
            notes = insert n.id (new_note n now) s.notes;
          })
      with_note same =
          set_notes-IsConsistent (insert n.id (new_note n now) s.notes)
            (add_meeting-IsConsistent m c)
            (All-insert _ n.id (new_note n now) s.notes
              (rw ((text_eq_iff n.meeting_id d.id).0 same) (Has-insert_self d.id m s.meetings))
              (add_meeting-IsConsistent m c).note_meetings)

  pub get_meeting-IsConsistent : (id : Text) → IsConsistent (get_meeting id s).1
  unfolding get_meeting
  get_meeting-IsConsistent id = elim (Option-cases (lookup id s.meetings)) [
    | inl e ↦ rw (e, get_meeting) c
    | inr (m, e) ↦ rw (e, get_meeting) c
  ]

  pub update_meeting_ended-IsConsistent :
      (id ended_at : Text) (duration_ms : ℕ)
      → IsConsistent (update_meeting_ended id ended_at duration_ms s).1
  unfolding update_meeting_ended
  update_meeting_ended-IsConsistent id ended_at duration_ms =
      elim (Option-cases (lookup id s.meetings)) [
        | inl e ↦ rw (e, update_meeting_ended) c
        | inr (m, e) ↦ rw (e, update_meeting_ended) (modify_meeting-IsConsistent id _ (λ m. refl) c)
      ]

  pub rename_meeting-IsConsistent : (id title : Text) → IsConsistent (rename_meeting id title s).1
  unfolding rename_meeting
  rename_meeting-IsConsistent id title = elim (Option-cases (lookup id s.meetings)) [
    | inl e ↦ rw (e, rename_meeting) c
    | inr (m, e) ↦ rw (e, rename_meeting) (modify_meeting-IsConsistent id _ (λ m. refl) c)
  ]

  -- A key that is not removed is still there.
  Has-remove :
      (id j : Text) → Has s.meetings j → text_eq j id ≡ false → Has (remove id s.meetings) j
  Has-remove id j h ne = contains_key-remove id j s.meetings ∙ rw (text_eq_sym id j ∙ ne) h

  removed-IsConsistent :
      (id : Text)
      → IsConsistent (record s {
        meetings = remove id s.meetings;
        notes = retain (λ (n : Note). not (text_eq n.meeting_id id)) s.notes;
        meeting_tags = remove id s.meeting_tags;
        meeting_spaces = remove id s.meeting_spaces;
        meeting_projects = remove id s.meeting_projects;
      })
  removed-IsConsistent id = record {
    meeting_keys =
        All-mono _ _ (remove id s.meetings) (λ e h. h.0)
          (All-remove _ id s.meetings c.meeting_keys);
    project_keys = c.project_keys;
    note_meetings =
        All-mono _ _ (retain (λ (n : Note). not (text_eq n.meeting_id id)) s.notes)
          (λ e h. Has-remove id _ h.0 (ground arith))
          (All-retain _ (λ (n : Note). not (text_eq n.meeting_id id)) s.notes c.note_meetings);
    project_spaces = c.project_spaces;
    space_rows =
        All-mono _ _ (remove id s.meeting_spaces) (λ e h. (Has-remove id _ h.0.0 h.1, h.0.1))
          (All-remove _ id s.meeting_spaces c.space_rows);
    project_meetings =
        All-mono _ _ (remove id s.meeting_projects) (λ e h. Has-remove id _ h.0 h.1)
          (All-remove _ id s.meeting_projects c.project_meetings);
    project_rows =
        All-mono _ _ (remove id s.meeting_projects)
          (λ e h. (
            h.0.0,
            h.0.1,
            lookup-remove id e.0 s.meeting_spaces ∙ rw (text_eq_sym id e.0 ∙ h.1) h.0.2,
          ))
          (All-remove _ id s.meeting_projects c.project_rows);
    tag_rows =
        All-mono _ _ (remove id s.meeting_tags) (λ e h. (Has-remove id _ h.0.0 h.1, h.0.1))
          (All-remove _ id s.meeting_tags c.tag_rows);
    one_space = Distinct-remove id s.meeting_spaces c.one_space;
    space_ids = c.space_ids;
    project_ids = c.project_ids;
    tag_ids = c.tag_ids;
  }

  pub delete_meeting-IsConsistent : (id : Text) → IsConsistent (delete_meeting id s).1
  unfolding delete_meeting
  delete_meeting-IsConsistent id = elim (Bool-cases (contains_key id s.meetings)) [
    | inl there ↦ rw (there, delete_meeting) (removed-IsConsistent id)
    | inr absent ↦ rw (absent, delete_meeting) c
  ]
