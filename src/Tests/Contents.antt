-- ===== src/Tests/Contents.antt =====
-- The theorems of the meeting store at concrete inputs.
use mathlib.Core.List.{Perm}
use panops.Base.{
  IsSortedBy, List, [], arith, codes, find_row, if◌then◌else◌, insert_row, length, none, ok, refl,
  text_eq, u64_mod, ◌+◌, ◌<◌, ◌==◌, ◌∷◌, ◌≡◌,
}
use panops.MeetingStore.{SegmentDraft, SegmentRow}
use panops.MeetingStore.Memory.{
  create_segment, create_speaker, get_speaker, list_segments, new, segment_row,
  update_speaker_label,
}
use panops.MeetingStore.Contents.{
  Call, IsFresh, call_create_segment, call_create_speaker, create_segment-lists, perform,
  relabelled, run, run-IsFresh, update_speaker_label-get,
}
use panops.Tests.Samples.{m1}

abbrev row_draft : SegmentDraft
row_draft = record {
  meeting_id = m1;
  start_ms = 500;
  end_ms = 900;
  text = codes "hi";
  language = none;
  confidence = none;
  speaker_id = none;
  source = codes "live";
}

abbrev contents : List Call
contents =
    call_create_segment row_draft
    ∷ call_create_speaker (record { meeting_id = m1; label = codes "Ana"; embedding = none })
    ∷ []

contents_small : 1 + length contents < u64_mod
contents_small = omega arith

run-IsFresh_example : IsFresh (run contents new)
run-IsFresh_example = run-IsFresh contents contents_small

create_segment-lists_example :
    (before after : List SegmentRow) × ((create_segment row_draft (run contents new)).0
      ≡ ok (segment_row (run contents new).next_id row_draft))
    × (list_segments m1 (run contents new) ≡ ok before)
    × (list_segments m1 (create_segment row_draft (run contents new)).1 ≡ ok after)
    × IsSortedBy (λ (r : SegmentRow). r.start_ms) after
    × Perm after (
        if text_eq m1 m1 then segment_row (run contents new).next_id row_draft ∷ before else before)
create_segment-lists_example =
    create_segment-lists row_draft (run contents new) (run-IsFresh contents contents_small) m1

update_speaker_label-get_example :
    ((update_speaker_label 2 m1 (run contents new)).0
      ≡ relabelled m1 (get_speaker 2 (run contents new)))
    × (get_speaker 2 (update_speaker_label 2 m1 (run contents new)).1 ≡ (
        if 2 == 2
        then relabelled m1 (get_speaker 2 (run contents new))
        else get_speaker 2 (run contents new)))
update_speaker_label-get_example = update_speaker_label-get 2 m1 (run contents new) 2

-- The speaker of the sample is found.
speaker_found :
    get_speaker 2 (run contents new)
    ≡ ok (record { id = 2; meeting_id = m1; label = codes "Ana"; embedding = none })
unfolding get_speaker run perform create_segment create_speaker find_row insert_row
speaker_found = refl
