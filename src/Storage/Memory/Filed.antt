-- ===== src/Storage/Memory/Filed.antt =====
-- The rows of `InMemoryStorage` stand under their own ids, whatever calls it receives.
pub mod Tables
use panops.Base.{
  All, All-insert, All-modify, All-mono, All-remove, All-retain, Bool, Bool-cases, Dict, List, Text,
  [], all, arith, contains_key, inl, inr, insert, length, modify, not, refl, remove, retain, some,
  text_eq, text_eq_refl, true, u64_mod, ◌+◌, ◌<◌, ◌∷◌, ◌≡◌, none, ◌&&◌,
}
use panops.Storage.{Note, Space, Tag}
use panops.Storage.Memory.{Inner, new}
use panops.Storage.Memory.Meetings.{
  create_meeting, create_meeting_with_note, delete_meeting, new_note, rename_meeting,
  update_meeting_ended,
}
use panops.Storage.Memory.Notes.{create_note, replace_meeting_note}
use panops.Storage.Memory.Organize.{
  create_project, create_space, delete_project, delete_space, numbered, rename_project,
  rename_space, space_prefix,
}
use panops.Storage.Memory.Tags.{create_tag, delete_tag, tag_meeting, tag_prefix, untag_meeting}
use panops.Storage.Memory.Assign.{assign_meeting}
use panops.Storage.Memory.Clearing.{drop_projects_lem}
use panops.Storage.Memory.Invariant.{IsConsistent}
use panops.Storage.Memory.Operations.{
  Call, perform, run, run-IsConsistent, call_assign_meeting, call_create_meeting,
  call_create_meeting_with_note, call_create_note, call_create_project, call_create_space,
  call_create_tag, call_delete_meeting, call_delete_project, call_delete_space, call_delete_tag,
  call_rename_meeting, call_rename_project, call_rename_space, call_replace_meeting_note,
  call_tag_meeting, call_untag_meeting, call_update_meeting_ended,
}
use panops.Storage.Memory.Filed.Tables.{
  IsFiled, files, files-insert, files-modify, files-remove, files-retain,
}

-- What a call may add to the tables, or take from them.
perform-IsFiled : (call : Call) (s : Inner) → IsFiled s → IsFiled (perform call s).1
unfolding perform create_meeting create_meeting_with_note update_meeting_ended rename_meeting
    delete_meeting create_note replace_meeting_note create_space rename_space delete_space
    create_project rename_project delete_project create_tag delete_tag tag_meeting untag_meeting
    assign_meeting
perform-IsFiled (call_create_meeting d) s f = record {
  space_keys = ground (arith, f.space_keys);
  note_keys = ground (arith, f.note_keys);
  tag_keys = ground (arith, f.tag_keys);
}
perform-IsFiled (call_create_meeting_with_note d n e ms now) s f = record {
  space_keys = ground (arith, f.space_keys);
  note_keys = ground (
    arith,
    f.note_keys,
    files-insert (λ (x : Note). x.id) n.id (new_note n now) s.notes refl f.note_keys,
  );
  tag_keys = ground (arith, f.tag_keys);
}
perform-IsFiled (call_update_meeting_ended id e ms) s f = record {
  space_keys = ground (arith, f.space_keys);
  note_keys = ground (arith, f.note_keys);
  tag_keys = ground (arith, f.tag_keys);
}
perform-IsFiled (call_rename_meeting id title) s f = record {
  space_keys = ground (arith, f.space_keys);
  note_keys = ground (arith, f.note_keys);
  tag_keys = ground (arith, f.tag_keys);
}
perform-IsFiled (call_delete_meeting id) s f = record {
  space_keys = ground (arith, f.space_keys);
  note_keys = ground (
    arith,
    f.note_keys,
    files-retain (λ (x : Note). x.id) (λ (n : Note). not (text_eq n.meeting_id id)) s.notes
        f.note_keys,
  );
  tag_keys = ground (arith, f.tag_keys);
}
perform-IsFiled (call_create_note d now) s f = record {
  space_keys = ground (arith, f.space_keys);
  note_keys = ground (
    arith,
    f.note_keys,
    files-insert (λ (x : Note). x.id) d.id (new_note d now) s.notes refl f.note_keys,
  );
  tag_keys = ground (arith, f.tag_keys);
}
perform-IsFiled (call_replace_meeting_note id d now) s f = record {
  space_keys = ground (arith, f.space_keys);
  note_keys = ground (
    arith,
    f.note_keys,
    files-insert (λ (x : Note). x.id) d.id (new_note d now)
        (retain (λ (n : Note). not (text_eq n.meeting_id id)) s.notes) refl
        (files-retain (λ (x : Note). x.id) (λ (n : Note). not (text_eq n.meeting_id id)) s.notes
          f.note_keys),
  );
  tag_keys = ground (arith, f.tag_keys);
}
perform-IsFiled (call_create_space name) s f = record {
  space_keys =
      files-insert (λ (x : Space). x.id) (numbered space_prefix s.next_space_id) _ s.spaces refl
        f.space_keys;
  note_keys = f.note_keys;
  tag_keys = f.tag_keys;
}
perform-IsFiled (call_rename_space id name) s f = record {
  space_keys = ground (
    arith,
    f.space_keys,
    files-modify (λ (x : Space). x.id) id (λ (x : Space). record x { name = name }) s.spaces
        (λ x. refl) f.space_keys,
  );
  note_keys = ground (arith, f.note_keys);
  tag_keys = ground (arith, f.tag_keys);
}
perform-IsFiled (call_delete_space id) s f = elim (Bool-cases (contains_key id s.spaces)) [
  | inr absent ↦ rw (absent, delete_space) f
  | inl there ↦
      rw (there, delete_space)
        (rw (drop_projects_lem _ (record s { spaces = remove id s.spaces })) (record {
          space_keys = files-remove (λ (x : Space). x.id) id s.spaces f.space_keys;
          note_keys = f.note_keys;
          tag_keys = f.tag_keys;
        }))
]
perform-IsFiled (call_create_project space_id name) s f = record {
  space_keys = ground (arith, f.space_keys);
  note_keys = ground (arith, f.note_keys);
  tag_keys = ground (arith, f.tag_keys);
}
perform-IsFiled (call_rename_project id name) s f = record {
  space_keys = ground (arith, f.space_keys);
  note_keys = ground (arith, f.note_keys);
  tag_keys = ground (arith, f.tag_keys);
}
perform-IsFiled (call_delete_project id) s f = record {
  space_keys = ground (arith, f.space_keys);
  note_keys = ground (arith, f.note_keys);
  tag_keys = ground (arith, f.tag_keys);
}
perform-IsFiled (call_create_tag name) s f = record {
  space_keys = ground (arith, f.space_keys);
  note_keys = ground (arith, f.note_keys);
  tag_keys = ground (
    arith,
    f.tag_keys,
    files-insert (λ (x : Tag). x.id) (numbered tag_prefix s.next_tag_id)
        (record { id = numbered tag_prefix s.next_tag_id; name = name }) s.tags refl f.tag_keys,
  );
}
perform-IsFiled (call_delete_tag id) s f = record {
  space_keys = ground (arith, f.space_keys);
  note_keys = ground (arith, f.note_keys);
  tag_keys = ground (arith, f.tag_keys, files-remove (λ (x : Tag). x.id) id s.tags f.tag_keys);
}
perform-IsFiled (call_tag_meeting id tag_id) s f = record {
  space_keys = ground (arith, f.space_keys);
  note_keys = ground (arith, f.note_keys);
  tag_keys = ground (arith, f.tag_keys);
}
perform-IsFiled (call_untag_meeting id tag_id) s f = record {
  space_keys = ground (arith, f.space_keys);
  note_keys = ground (arith, f.note_keys);
  tag_keys = ground (arith, f.tag_keys);
}
perform-IsFiled (call_assign_meeting id space_id none) s f = record {
  space_keys = ground (arith, f.space_keys);
  note_keys = ground (arith, f.note_keys);
  tag_keys = ground (arith, f.tag_keys);
}
perform-IsFiled (call_assign_meeting id space_id (some project_id)) s f = record {
  space_keys = ground (arith, f.space_keys);
  note_keys = ground (arith, f.note_keys);
  tag_keys = ground (arith, f.tag_keys);
}

run-IsFiled : (calls : List Call) (s : Inner) → IsFiled s → IsFiled (run calls s)
unfolding run
run-IsFiled [] s f = f
run-IsFiled (call ∷ calls) s f = run-IsFiled calls (perform call s).1 (perform-IsFiled call s f)

-- Whatever writing calls an `InMemoryStorage` receives after `new`, refused ones included and fewer
-- than 2^64 - 1, its tables stay consistent: meetings, notes, spaces, projects and tags are filed
-- under their ids, notes, projects, assignments and tags lead to rows that exist, a meeting that is
-- assigned to a project is in that project's space, and the numbered ids were given out before.
pub run-IsSound :
    (calls : List Call)
    → 1 + length calls < u64_mod
    → IsConsistent (run calls new) × IsFiled (run calls new)
run-IsSound calls small = (
  run-IsConsistent calls small,
  run-IsFiled calls new (record { space_keys = refl; note_keys = refl; tag_keys = refl }),
)
