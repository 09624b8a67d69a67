-- ===== src/MeetingStore/Contents.antt =====
-- The meeting store returns what was stored: rows are listed in order, none is lost to a reused
-- id, and a new label is seen at its speaker only.
use mathlib.Core.List.{Perm}
use mathlib.Core.List.Perm
use panops.Base.{
  Before, Before-insert_row, Before-later, Before-modify_row, Bool-cases, IsSortedBy, List,
  Option-cases, Result, Text, [], add64, arith, err, find_row, find_row-modify, if◌then◌else◌, inl,
  inr, insert_row-next, keep, length, ok, refl, row_values, sort_by_key, sort_by_key-IsSortedBy,
  sort_by_key-perm, text_eq, u64_mod, ℕ, ◌+◌, ◌<◌, ◌==◌, ◌∷◌, ◌≡◌, ◌≤◌,
}
use panops.MeetingStore.{
  MeetingStoreError, ScreenshotDraft, SegmentDraft, SegmentRow, SpeakerDraft, SpeakerRow,
}
use panops.MeetingStore.Memory.{
  Inner, create_screenshot, create_segment, create_speaker, get_speaker, list_segments, new,
  segment_row, update_speaker_label,
}

pub data Call : Type 0 where
  call_create_segment : SegmentDraft → Call
  call_create_screenshot : ScreenshotDraft → Call
  call_create_speaker : SpeakerDraft → Call
  call_update_speaker_label : ℕ → Text → Call

unfoldable pub perform : Call → Inner → Inner
perform (call_create_segment d) s = (create_segment d s).1
perform (call_create_screenshot d) s = (create_screenshot d s).1
perform (call_create_speaker d) s = (create_speaker d s).1
perform (call_update_speaker_label id label) s = (update_speaker_label id label s).1

unfoldable pub run : List Call → Inner → Inner
unfolding perform
run [] s = s
run (call ∷ calls) s = run calls (perform call s)

-- Every stored id was given out before the counter's value.
pub record IsFresh (s : Inner) : Type 0 where
  pub segment_ids : Before s.next_id s.segments
  pub screenshot_ids : Before s.next_id s.screenshots
  pub speaker_ids : Before s.next_id s.speakers

next_is_later : (n : ℕ) → n + 1 < u64_mod → add64 n 1 ≡ n + 1
next_is_later n h = ground (arith, h)

perform-IsFresh :
    (call : Call) (s : Inner) → s.next_id + 1 < u64_mod → IsFresh s → IsFresh (perform call s)
unfolding perform create_segment create_screenshot create_speaker update_speaker_label
perform-IsFresh (call_create_segment d) s small f = rw (next_is_later s.next_id small) (record {
  segment_ids = Before-insert_row s.next_id _ s.segments f.segment_ids;
  screenshot_ids = Before-later s.next_id s.screenshots f.screenshot_ids;
  speaker_ids = Before-later s.next_id s.speakers f.speaker_ids;
})
perform-IsFresh (call_create_screenshot d) s small f = rw (next_is_later s.next_id small) (record {
  segment_ids = Before-later s.next_id s.segments f.segment_ids;
  screenshot_ids = Before-insert_row s.next_id _ s.screenshots f.screenshot_ids;
  speaker_ids = Before-later s.next_id s.speakers f.speaker_ids;
})
perform-IsFresh (call_create_speaker d) s small f = rw (next_is_later s.next_id small) (record {
  segment_ids = Before-later s.next_id s.segments f.segment_ids;
  screenshot_ids = Before-later s.next_id s.screenshots f.screenshot_ids;
  speaker_ids = Before-insert_row s.next_id _ s.speakers f.speaker_ids;
})
perform-IsFresh (call_update_speaker_label id label) s small f =
    elim (Option-cases (find_row id s.speakers)) [
      | inl e ↦ rw (e, perform, update_speaker_label) f
      | inr (r, e) ↦
          rw (e, perform, update_speaker_label)
            (record {
              segment_ids = f.segment_ids;
              screenshot_ids = f.screenshot_ids;
              speaker_ids = Before-modify_row s.next_id id _ s.speakers f.speaker_ids;
            })
    ]

perform-next_id :
    (call : Call) (s : Inner) → s.next_id + 1 < u64_mod → (perform call s).next_id ≤ s.next_id + 1
unfolding perform create_segment create_screenshot create_speaker update_speaker_label
perform-next_id (call_create_segment d) s small = ground (arith, small)
perform-next_id (call_create_screenshot d) s small = ground (arith, small)
perform-next_id (call_create_speaker d) s small = ground (arith, small)
perform-next_id (call_update_speaker_label id label) s small = ground arith

run_keeps :
    (calls : List Call) (s : Inner)
    → s.next_id + length calls < u64_mod
    → IsFresh s
    → IsFresh (run calls s)
unfolding run
run_keeps [] s small f = f
run_keeps (call ∷ calls) s small f =
    let le = perform-next_id call s (omega (arith, small)) in
    run_keeps calls (perform call s) (omega (arith, small, le))
      (perform-IsFresh call s (omega (arith, small)) f)

-- After any calls on a new store, fewer than 2^64 - 1, no stored id is one that a later call is
-- still to receive.
pub run-IsFresh : (calls : List Call) → 1 + length calls < u64_mod → IsFresh (run calls new)
run-IsFresh calls small =
    run_keeps calls new small (record { segment_ids = tt; screenshot_ids = tt; speaker_ids = tt })

-- `create_segment` answers with the draft's row. Where the store's ids are fresh, each meeting's
-- list is afterwards ordered by start; it holds what it held before and, for the row's own
-- meeting, the row.
pub create_segment-lists :
    (d : SegmentDraft) (s : Inner)
    → IsFresh s
    → (id : Text)
    → (before after : List SegmentRow) × ((create_segment d s).0 ≡ ok (segment_row s.next_id d))
      × (list_segments id s ≡ ok before)
      × (list_segments id (create_segment d s).1 ≡ ok after)
      × IsSortedBy (λ (r : SegmentRow). r.start_ms) after
      × Perm after (if text_eq d.meeting_id id then segment_row s.next_id d ∷ before else before)
unfolding create_segment list_segments
create_segment-lists d s f id =
    let key = λ (r : SegmentRow). r.start_ms in
    let mine = λ (r : SegmentRow). text_eq r.meeting_id id in
    let row = segment_row s.next_id d in
    let old = keep mine (row_values s.segments) in
    let added = if mine row then row ∷ old else old in
    (
      sort_by_key key old,
      sort_by_key key added,
      refl,
      refl,
      rw (insert_row-next s.next_id row s.segments f.segment_ids) refl,
      sort_by_key-IsSortedBy key added,
      elim (Bool-cases (mine row)) [
        | inl ours ↦ rw ours (
            Perm.trans (sort_by_key-perm key (row ∷ old))
              (Perm.cons row (Perm.symm (sort_by_key-perm key old))))
        | inr other ↦ rw other Perm.rfl
      ],
    )

-- What `update_speaker_label` answers, from what `get_speaker` would.
abbrev pub relabelled :
    Text → Result MeetingStoreError SpeakerRow → Result MeetingStoreError SpeakerRow
relabelled label (ok r) = ok (record r { label = label })
relabelled label (err e) = err e

-- `update_speaker_label` answers with the speaker that `get_speaker` finds, under the new label, or
-- with its error. Afterwards `get_speaker` gives that answer for the same id, and for every other
-- id the one that it gave before.
pub update_speaker_label-get :
    (id : ℕ) (label : Text) (s : Inner) (j : ℕ)
    → ((update_speaker_label id label s).0 ≡ relabelled label (get_speaker id s))
      × (get_speaker j (update_speaker_label id label s).1
          ≡ (if id == j then relabelled label (get_speaker id s) else get_speaker j s))
unfolding update_speaker_label get_speaker
update_speaker_label-get id label s j =
    let relabel = λ (r : SpeakerRow). record r { label = label } in
    (ground arith, ground (arith, find_row-modify id j relabel s.speakers))
