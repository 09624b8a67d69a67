-- ===== src/Tests/Stores.antt =====
-- The theorems of the two stores at concrete inputs.
use panops.Storage.Memory.Filed.{run-IsSound}
use panops.Storage.Memory.Filed.Tables.{IsFiled}
use mathlib.Core.List.{Perm}
use panops.Base.{
  IsOrdered, List, [], codes, contains_key, decimal, insert, keep, lookup, map, ok, refl, remove,
  text_eq, text_lt, values, ◌∷◌, ◌≡◌, arith, length, u64_mod, ◌+◌, ◌<◌, true, ◌↔◌,
}
use panops.Storage.{MeetingSummary, Project, default_filter, meeting, not_found, Meeting}
use panops.Storage.Memory.{Inner, new}
use panops.Storage.Memory.Meetings.{
  create_meeting, delete_meeting, latest_first, list_meetings_filtered, new_note, passes, summary,
}
use panops.Storage.Memory.Notes.{create_note, list_notes_for_meeting, replace_meeting_note}
use panops.Storage.Memory.Organize.{create_project, create_space, delete_space, next_position}
use panops.Storage.Memory.Assign.{assign_meeting, set_assignment}
use panops.Storage.Memory.Invariant.{IsConsistent}
use panops.Storage.Memory.Operations.{
  call_delete_meeting, perform, perform-err, run, run-IsConsistent,
}
use panops.Storage.Memory.Listing.{list_meetings_filtered-selects, of_space, IsSelected, Summarises}
use panops.Storage.Memory.Forgetting.{
  IsForgotten, delete_meeting-IsForgotten, delete_space-unlists, replace_meeting_note-lists,
}
use panops.Tests.Samples.{calls, m1, note_draft, project_1, space_1}

calls_small : 1 + length calls < u64_mod
calls_small = omega arith

run-IsSound_example : IsConsistent (run calls new) × IsFiled (run calls new)
run-IsSound_example = run-IsSound calls calls_small

perform-err_example : (perform (call_delete_meeting m1) new).1 ≡ new
unfolding perform delete_meeting contains_key lookup
perform-err_example = perform-err (call_delete_meeting m1) new (not_found m1 meeting) refl

abbrev after : Inner
after = run calls new

the_project : Project
the_project = record { id = project_1; space_id = space_1; name = codes "Site"; position = 0 }

delete_meeting-IsForgotten_example :
    ((delete_meeting m1 after).0 ≡ ok tt) × IsForgotten m1 (delete_meeting m1 after).1
unfolding run perform create_meeting create_space create_project assign_meeting create_note lookup
    insert remove contains_key text_eq text_lt values set_assignment next_position decimal
delete_meeting-IsForgotten_example =
    delete_meeting-IsForgotten m1 after (run-IsConsistent calls calls_small) refl

replace_meeting_note-lists_example :
    (list_notes_for_meeting m1 (replace_meeting_note m1 note_draft (codes "later") after).1).0
    ≡ ok (new_note note_draft (codes "later") ∷ [])
unfolding run perform create_meeting create_space create_project assign_meeting create_note lookup
    insert remove contains_key text_eq text_lt values set_assignment next_position decimal
    replace_meeting_note
replace_meeting_note-lists_example =
    replace_meeting_note-lists m1 note_draft (codes "later") after
      (new_note note_draft (codes "later")) refl

delete_space-unlists_example :
    (list_meetings_filtered (of_space space_1) (delete_space space_1 after).1).0 ≡ ok []
delete_space-unlists_example =
    delete_space-unlists space_1 after (run-IsConsistent calls calls_small)

list_meetings_filtered-selects_example :
    (out : List MeetingSummary) × (list_meetings_filtered default_filter after ≡ (ok out, after))
    × IsOrdered latest_first out
    × Perm out (map (summary after) (keep (passes default_filter after) (values after.meetings)))
    × ((m : Meeting)
        → ((passes default_filter after m ≡ true) ↔ IsSelected default_filter after m)
          × Summarises after m (summary after m))
list_meetings_filtered-selects_example = list_meetings_filtered-selects default_filter after
