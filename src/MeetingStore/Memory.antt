-- ===== src/MeetingStore/Memory.antt =====
-- `InMemoryMeetingStore` of crates/panops-core/src/conformance/fakes.rs. The lock is held through
-- each method, so a method is a function on the tables; a poisoned lock is not modelled.
use panops.Base.{
  List, Result, Rows, Text, [], add64, err, find_row, insert_row, keep, modify_row, none, ok,
  row_values, some, sort_by_key, text_eq, ℕ,
}
use panops.MeetingStore.{
  MeetingStoreError, ScreenshotDraft, ScreenshotRow, SegmentDraft, SegmentRow, SpeakerDraft,
  SpeakerRow, speaker_not_found,
}

pub record Inner : Type 0 where
  pub segments : Rows SegmentRow
  pub screenshots : Rows ScreenshotRow
  pub speakers : Rows SpeakerRow
  pub next_id : ℕ

abbrev pub new : Inner
new = record { segments = []; screenshots = []; speakers = []; next_id = 1 }

abbrev pub Outcome : Type 0 → Type 0
Outcome A = Result MeetingStoreError A × Inner

-- The counter goes up by one, around the 64 bits.
abbrev pub bump : Inner → Inner
bump s = record s { next_id = add64 s.next_id 1 }

abbrev pub segment_row : ℕ → SegmentDraft → SegmentRow
segment_row id d = record {
  id = id;
  meeting_id = d.meeting_id;
  start_ms = d.start_ms;
  end_ms = d.end_ms;
  text = d.text;
  language = d.language;
  confidence = d.confidence;
  speaker_id = d.speaker_id;
  source = d.source;
}

unfoldable pub create_segment : SegmentDraft → Inner → Outcome SegmentRow
create_segment d s =
    let row = segment_row s.next_id d in
    (ok row, record (bump s) { segments = insert_row s.next_id row s.segments })

unfoldable pub list_segments : Text → Inner → Result MeetingStoreError (List SegmentRow)
list_segments meeting_id s = ok (
    sort_by_key (λ (r : SegmentRow). r.start_ms)
      (keep (λ (r : SegmentRow). text_eq r.meeting_id meeting_id) (row_values s.segments)))

abbrev pub screenshot_row : ℕ → ScreenshotDraft → ScreenshotRow
screenshot_row id d = record {
  id = id;
  meeting_id = d.meeting_id;
  timestamp_ms = d.timestamp_ms;
  path = d.path;
  feature_print = d.feature_print;
  caption = d.caption;
}

unfoldable pub create_screenshot : ScreenshotDraft → Inner → Outcome ScreenshotRow
create_screenshot d s =
    let row = screenshot_row s.next_id d in
    (ok row, record (bump s) { screenshots = insert_row s.next_id row s.screenshots })

unfoldable pub list_screenshots : Text → Inner → Result MeetingStoreError (List ScreenshotRow)
list_screenshots meeting_id s = ok (
    sort_by_key (λ (r : ScreenshotRow). r.timestamp_ms)
      (keep (λ (r : ScreenshotRow). text_eq r.meeting_id meeting_id) (row_values s.screenshots)))

abbrev pub speaker_row : ℕ → SpeakerDraft → SpeakerRow
speaker_row id d = record {
  id = id;
  meeting_id = d.meeting_id;
  label = d.label;
  embedding = d.embedding;
}

unfoldable pub create_speaker : SpeakerDraft → Inner → Outcome SpeakerRow
create_speaker d s =
    let row = speaker_row s.next_id d in
    (ok row, record (bump s) { speakers = insert_row s.next_id row s.speakers })

unfoldable pub list_speakers : Text → Inner → Result MeetingStoreError (List SpeakerRow)
list_speakers meeting_id s =
    ok (keep (λ (r : SpeakerRow). text_eq r.meeting_id meeting_id) (row_values s.speakers))

unfoldable pub get_speaker : ℕ → Inner → Result MeetingStoreError SpeakerRow
get_speaker id s = elim (find_row id s.speakers) [
  | none ↦ err (speaker_not_found id)
  | some r ↦ ok r
]

unfoldable pub update_speaker_label : ℕ → Text → Inner → Outcome SpeakerRow
update_speaker_label id label s = elim (find_row id s.speakers) [
  | none ↦ (err (speaker_not_found id), s)
  | some r ↦
      let relabel = λ (r : SpeakerRow). record r { label = label } in
      (ok (relabel r), record s { speakers = modify_row id relabel s.speakers })
]
