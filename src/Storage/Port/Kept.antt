-- ===== src/Storage/Port/Kept.antt =====
-- `InMemoryStorage` keeps what the engine relies on.
use panops.Base.{
  Bool-cases, Text, arith, contains_key, err, inl, inr, ok, ◌≡◌, lookup-insert, none, text_eq_refl,
}
use panops.Storage.{Meeting, MeetingDraft, meeting, not_found}
use panops.Storage.Memory.{Inner}
use panops.Storage.Memory.Meetings.{
  create_meeting, get_meeting, update_meeting_ended, rename_meeting, delete_meeting, new_meeting,
}
use panops.Storage.Memory.Notes.{create_note, replace_meeting_note}
use panops.Storage.Memory.Assign.{assign_meeting}
use panops.Storage.Memory.Forgetting.{get_meeting-delete_meeting}
use panops.Storage.Port.{IsLawful, StoragePort}

abbrev pub in_memory : StoragePort
in_memory = record {
  State = Inner;
  create_meeting = create_meeting;
  get_meeting = get_meeting;
  update_meeting_ended = update_meeting_ended;
  rename_meeting = rename_meeting;
  delete_meeting = delete_meeting;
  create_note = create_note;
  replace_meeting_note = replace_meeting_note;
  assign_meeting = assign_meeting;
}

create_ok_lem :
    (d : MeetingDraft) (s : Inner) (m : Meeting)
    → (create_meeting d s).0 ≡ ok m
    → ((get_meeting d.id (create_meeting d s).1).0 ≡ ok m) × (m.dir_path ≡ d.dir_path)
unfolding create_meeting get_meeting
create_ok_lem d s m h =
    ground (arith, lookup-insert d.id d.id (new_meeting d none none) s.meetings, text_eq_refl d.id)

delete_ok_lem :
    (id : Text) (s : Inner) (u : Unit {0})
    → (delete_meeting id s).0 ≡ ok u
    → (get_meeting id (delete_meeting id s).1).0 ≡ err (not_found id meeting)
unfolding delete_meeting
delete_ok_lem id s u h = elim (Bool-cases (contains_key id s.meetings)) [
  | inl there ↦ get_meeting-delete_meeting id s there
  | inr absent ↦ cc (rw (absent, delete_meeting) at h)
]

pub in_memory-IsLawful : IsLawful in_memory
unfolding get_meeting create_meeting delete_meeting replace_meeting_note
in_memory-IsLawful = record {
  get_keeps = λ id s. ground arith;
  create_err = λ d s e h. ground arith;
  create_ok = create_ok_lem;
  delete_err = λ id s e h. ground arith;
  delete_ok = delete_ok_lem;
  replace_err = λ id d now s e h. ground arith;
}
