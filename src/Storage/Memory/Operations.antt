-- ===== src/Storage/Memory/Operations.antt =====
-- The calls of the storage port as data, one for each method that writes, and their sequences.
use panops.Base.{
  Bool-cases, List, Option, Result, Text, [], arith, contains_key, err, inl, inr, length, none, ok,
  remove, some, suc, u64_mod, ℕ, ◌+◌, ◌<◌, ◌∷◌, ◌≡◌,
}
use panops.Storage.{MeetingDraft, NoteDraft, StorageError}
use panops.Storage.Memory.{Inner, Outcome, new}
use panops.Storage.Memory.Meetings.{
  create_meeting, create_meeting_with_note, delete_meeting, rename_meeting, update_meeting_ended,
}
use panops.Storage.Memory.Notes.{create_note, replace_meeting_note}
use panops.Storage.Memory.Organize.{
  create_project, create_space, delete_project, delete_space, rename_project, rename_space,
}
use panops.Storage.Memory.Tags.{create_tag, delete_tag, tag_meeting, untag_meeting}
use panops.Storage.Memory.Assign.{assign_meeting}
use panops.Storage.Memory.Clearing.{drop_projects_lem}
use panops.Storage.Memory.Invariant.{IsConsistent, new-IsConsistent}
use panops.Storage.Memory.KeepsMeetings.{
  create_meeting-IsConsistent, create_meeting_with_note-IsConsistent, delete_meeting-IsConsistent,
  rename_meeting-IsConsistent, update_meeting_ended-IsConsistent,
}
use panops.Storage.Memory.KeepsNotes.{create_note-IsConsistent, replace_meeting_note-IsConsistent}
use panops.Storage.Memory.KeepsSpaces.{
  create_project-IsConsistent, create_space-IsConsistent, rename_project-IsConsistent,
  rename_space-IsConsistent,
}
use panops.Storage.Memory.KeepsDeletes.{delete_project-IsConsistent, delete_space-IsConsistent}
use panops.Storage.Memory.KeepsTags.{
  create_tag-IsConsistent, delete_tag-IsConsistent, tag_meeting-IsConsistent,
  untag_meeting-IsConsistent,
}
use panops.Storage.Memory.KeepsAssign.{assign_meeting-IsConsistent}

-- A call with its arguments; a time stamp that the program takes from the clock is an argument.
pub data Call : Type 0 where
  call_create_meeting : MeetingDraft → Call
  call_create_meeting_with_note : MeetingDraft → NoteDraft → Option Text → Option ℕ → Text → Call
  call_update_meeting_ended : Text → Text → ℕ → Call
  call_rename_meeting : Text → Text → Call
  call_delete_meeting : Text → Call
  call_create_note : NoteDraft → Text → Call
  call_replace_meeting_note : Text → NoteDraft → Text → Call
  call_create_space : Text → Call
  call_rename_space : Text → Text → Call
  call_delete_space : Text → Call
  call_create_project : Text → Text → Call
  call_rename_project : Text → Text → Call
  call_delete_project : Text → Call
  call_create_tag : Text → Call
  call_delete_tag : Text → Call
  call_tag_meeting : Text → Text → Call
  call_untag_meeting : Text → Text → Call
  call_assign_meeting : Text → Option Text → Option Text → Call

-- What a method answers, without its value.
abbrev pub failure {ℓ} : {A : Type ℓ} → Result StorageError A → Option StorageError
failure (ok a) = none
failure (err e) = some e

abbrev answer : {A : Type 0} → Outcome A → Option StorageError × Inner
answer (r, s) = (failure r, s)

unfoldable pub perform : Call → Inner → Option StorageError × Inner
perform (call_create_meeting d) s = answer (create_meeting d s)
perform (call_create_meeting_with_note d n e ms now) s =
    answer (create_meeting_with_note d n e ms now s)
perform (call_update_meeting_ended id e ms) s = answer (update_meeting_ended id e ms s)
perform (call_rename_meeting id title) s = answer (rename_meeting id title s)
perform (call_delete_meeting id) s = answer (delete_meeting id s)
perform (call_create_note d now) s = answer (create_note d now s)
perform (call_replace_meeting_note id d now) s = answer (replace_meeting_note id d now s)
perform (call_create_space name) s = answer (create_space name s)
perform (call_rename_space id name) s = answer (rename_space id name s)
perform (call_delete_space id) s = answer (delete_space id s)
perform (call_create_project space_id name) s = answer (create_project space_id name s)
perform (call_rename_project id name) s = answer (rename_project id name s)
perform (call_delete_project id) s = answer (delete_project id s)
perform (call_create_tag name) s = answer (create_tag name s)
perform (call_delete_tag id) s = answer (delete_tag id s)
perform (call_tag_meeting id tag_id) s = answer (tag_meeting id tag_id s)
perform (call_untag_meeting id tag_id) s = answer (untag_meeting id tag_id s)
perform (call_assign_meeting id space_id project_id) s =
    answer (assign_meeting id space_id project_id s)

unfoldable pub run : List Call → Inner → Inner
unfolding perform
run [] s = s
run (call ∷ calls) s = run calls (perform call s).1

-- None of the three counters reaches 2^64 in `n` steps.
abbrev pub Room : ℕ → Inner → Type 0
Room n s =
    (s.next_space_id + n < u64_mod)
    × (s.next_project_id + n < u64_mod)
    × (s.next_tag_id + n < u64_mod)

perform-IsConsistent :
    (call : Call) (s : Inner) → Room 1 s → IsConsistent s → IsConsistent (perform call s).1
unfolding perform
perform-IsConsistent (call_create_meeting d) s r c = create_meeting-IsConsistent c d
perform-IsConsistent (call_create_meeting_with_note d n e ms now) s r c =
    create_meeting_with_note-IsConsistent c d n e ms now
perform-IsConsistent (call_update_meeting_ended id e ms) s r c =
    update_meeting_ended-IsConsistent c id e ms
perform-IsConsistent (call_rename_meeting id title) s r c = rename_meeting-IsConsistent c id title
perform-IsConsistent (call_delete_meeting id) s r c = delete_meeting-IsConsistent c id
perform-IsConsistent (call_create_note d now) s r c = create_note-IsConsistent c d now
perform-IsConsistent (call_replace_meeting_note id d now) s r c =
    replace_meeting_note-IsConsistent c id d now
perform-IsConsistent (call_create_space name) s r c = create_space-IsConsistent c r.0 name
perform-IsConsistent (call_rename_space id name) s r c = rename_space-IsConsistent c id name
perform-IsConsistent (call_delete_space id) s r c = delete_space-IsConsistent c id
perform-IsConsistent (call_create_project space_id name) s r c =
    create_project-IsConsistent c r.1 space_id name
perform-IsConsistent (call_rename_project id name) s r c = rename_project-IsConsistent c id name
perform-IsConsistent (call_delete_project id) s r c = delete_project-IsConsistent c id
perform-IsConsistent (call_create_tag name) s r c = create_tag-IsConsistent c r.2 name
perform-IsConsistent (call_delete_tag id) s r c = delete_tag-IsConsistent c id
perform-IsConsistent (call_tag_meeting id tag_id) s r c = tag_meeting-IsConsistent c id tag_id
perform-IsConsistent (call_untag_meeting id tag_id) s r c = untag_meeting-IsConsistent c id tag_id
perform-IsConsistent (call_assign_meeting id space_id project_id) s r c =
    assign_meeting-IsConsistent c id space_id project_id

delete_space-Room : (id : Text) (s : Inner) (n : ℕ) → Room (suc n) s → Room n (delete_space id s).1
unfolding delete_space
delete_space-Room id s n r = elim (Bool-cases (contains_key id s.spaces)) [
  | inr absent ↦
      rw (absent, delete_space) (omega (arith, r.0), omega (arith, r.1), omega (arith, r.2))
  | inl there ↦
      rw (there, delete_space)
        (rw (drop_projects_lem _ (record s { spaces = remove id s.spaces }))
          (omega (arith, r.0), omega (arith, r.1), omega (arith, r.2)))
]

-- A call counts each counter up by one at most.
perform-Room : (call : Call) (s : Inner) (n : ℕ) → Room (suc n) s → Room n (perform call s).1
unfolding perform create_meeting create_meeting_with_note update_meeting_ended rename_meeting
    delete_meeting create_note replace_meeting_note create_space rename_space delete_space
    create_project rename_project delete_project create_tag delete_tag tag_meeting untag_meeting
    assign_meeting
perform-Room (call_create_meeting d) s k r =
    (ground (arith, r.0), ground (arith, r.1), ground (arith, r.2))
perform-Room (call_create_meeting_with_note d n e ms now) s k r =
    (ground (arith, r.0), ground (arith, r.1), ground (arith, r.2))
perform-Room (call_update_meeting_ended id e ms) s k r =
    (ground (arith, r.0), ground (arith, r.1), ground (arith, r.2))
perform-Room (call_rename_meeting id title) s k r =
    (ground (arith, r.0), ground (arith, r.1), ground (arith, r.2))
perform-Room (call_delete_meeting id) s k r =
    (ground (arith, r.0), ground (arith, r.1), ground (arith, r.2))
perform-Room (call_create_note d now) s k r =
    (ground (arith, r.0), ground (arith, r.1), ground (arith, r.2))
perform-Room (call_replace_meeting_note id d now) s k r =
    (ground (arith, r.0), ground (arith, r.1), ground (arith, r.2))
perform-Room (call_create_space name) s k r =
    (ground (arith, r.0), ground (arith, r.1), ground (arith, r.2))
perform-Room (call_rename_space id name) s k r =
    (ground (arith, r.0), ground (arith, r.1), ground (arith, r.2))
perform-Room (call_delete_space id) s k r = delete_space-Room id s k r
perform-Room (call_create_project space_id name) s k r =
    (ground (arith, r.0), ground (arith, r.1), ground (arith, r.2))
perform-Room (call_rename_project id name) s k r =
    (ground (arith, r.0), ground (arith, r.1), ground (arith, r.2))
perform-Room (call_delete_project id) s k r =
    (ground (arith, r.0), ground (arith, r.1), ground (arith, r.2))
perform-Room (call_create_tag name) s k r =
    (ground (arith, r.0), ground (arith, r.1), ground (arith, r.2))
perform-Room (call_delete_tag id) s k r =
    (ground (arith, r.0), ground (arith, r.1), ground (arith, r.2))
perform-Room (call_tag_meeting id tag_id) s k r =
    (ground (arith, r.0), ground (arith, r.1), ground (arith, r.2))
perform-Room (call_untag_meeting id tag_id) s k r =
    (ground (arith, r.0), ground (arith, r.1), ground (arith, r.2))
perform-Room (call_assign_meeting id space_id project_id) s k r =
    (ground (arith, r.0), ground (arith, r.1), ground (arith, r.2))

run_keeps :
    (calls : List Call) (s : Inner)
    → Room (length calls) s
    → IsConsistent s
    → IsConsistent (run calls s)
unfolding run
run_keeps [] s r c = c
run_keeps (call ∷ calls) s r c =
    run_keeps calls (perform call s).1 (perform-Room call s (length calls) r)
      (perform-IsConsistent call s (omega (arith, r.0), omega (arith, r.1), omega (arith, r.2)) c)

-- Whatever writing calls an `InMemoryStorage` receives after `new`, refused ones included and fewer
-- than 2^64 - 1, its tables stay consistent: rows are filed under their ids, notes, projects,
-- assignments and tags lead to rows that exist, a meeting that is assigned to a project is in that
-- project's space, and the numbered ids were given out before.
pub run-IsConsistent :
    (calls : List Call) → 1 + length calls < u64_mod → IsConsistent (run calls new)
run-IsConsistent calls small = run_keeps calls new (small, small, small) new-IsConsistent

-- A call that answers with an error leaves all tables and counters as they were.
pub perform-err :
    (call : Call) (s : Inner) (e : StorageError)
    → (perform call s).0 ≡ some e
    → (perform call s).1 ≡ s
unfolding perform create_meeting create_meeting_with_note update_meeting_ended rename_meeting
    delete_meeting create_note replace_meeting_note create_space rename_space delete_space
    create_project rename_project delete_project create_tag delete_tag tag_meeting untag_meeting
    assign_meeting
perform-err (call_create_meeting d) s bad h = ground arith
perform-err (call_create_meeting_with_note d n e ms now) s bad h = ground arith
perform-err (call_update_meeting_ended id e ms) s bad h = ground arith
perform-err (call_rename_meeting id title) s bad h = ground arith
perform-err (call_delete_meeting id) s bad h = ground arith
perform-err (call_create_note d now) s bad h = ground arith
perform-err (call_replace_meeting_note id d now) s bad h = ground arith
perform-err (call_create_space name) s bad h = ground arith
perform-err (call_rename_space id name) s bad h = ground arith
perform-err (call_delete_space id) s bad h = ground arith
perform-err (call_create_project space_id name) s bad h = ground arith
perform-err (call_rename_project id name) s bad h = ground arith
perform-err (call_delete_project id) s bad h = ground arith
perform-err (call_create_tag name) s bad h = ground arith
perform-err (call_delete_tag id) s bad h = ground arith
perform-err (call_tag_meeting id tag_id) s bad h = ground arith
perform-err (call_untag_meeting id tag_id) s bad h = ground arith
perform-err (call_assign_meeting id space_id project_id) s bad h = ground arith
