-- ===== src/Storage/Memory/Assign.antt =====
-- `assign_meeting` of `InMemoryStorage`.
use panops.Base.{
  Dict, Option, Text, contains_key, err, if◌then◌else◌, insert, lookup, none, not, ok, remove, some,
}
use panops.Storage.{meeting, not_found, project, space}
use panops.Storage.Memory.{Inner, Outcome}

abbrev pub put_or_remove : Text → Option Text → Dict Text → Dict Text
put_or_remove key none m = remove key m
put_or_remove key (some id) m = insert key id m

unfoldable pub set_assignment : Text → Option Text → Option Text → Inner → Inner
set_assignment meeting_id space_id project_id inner = record inner {
  meeting_spaces = put_or_remove meeting_id space_id inner.meeting_spaces;
  meeting_projects = put_or_remove meeting_id project_id inner.meeting_projects;
}

abbrev pub space_missing : Option Text → Inner → Option Text
space_missing none inner = none
space_missing (some id) inner = if contains_key id inner.spaces then none else some id

abbrev pub assign_space : Text → Option Text → Inner → Outcome (Unit {0})
assign_space meeting_id space_id inner = elim (space_missing space_id inner) [
  | some id ↦ (err (not_found id space), inner)
  | none ↦ (ok tt, set_assignment meeting_id space_id none inner)
]

unfoldable pub assign_meeting : Text → Option Text → Option Text → Inner → Outcome (Unit {0})
unfolding set_assignment
assign_meeting meeting_id space_id none inner =
    if not (contains_key meeting_id inner.meetings)
    then (err (not_found meeting_id meeting), inner)
    else assign_space meeting_id space_id inner
assign_meeting meeting_id space_id (some project_id) inner =
    if not (contains_key meeting_id inner.meetings)
    then (err (not_found meeting_id meeting), inner)
    else elim (lookup project_id inner.projects) [
      | none ↦ (err (not_found project_id project), inner)
      | some p ↦ (ok tt, set_assignment meeting_id (some p.space_id) (some p.id) inner)
    ]
