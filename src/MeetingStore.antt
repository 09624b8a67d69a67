-- ===== src/MeetingStore.antt =====
-- The port of crates/panops-core/src/meeting_store.rs: rows and drafts of segments, screenshots
-- and speakers. An `i64` id is its bit pattern.
pub mod Memory
pub mod Contents
use panops.Base.{List, Option, Text, ℕ}

pub record SegmentRow : Type 0 where
  pub id : ℕ
  pub meeting_id : Text
  pub start_ms : ℕ
  pub end_ms : ℕ
  pub text : Text
  pub language : Option Text
  pub confidence : Option ℕ
  pub speaker_id : Option ℕ
  pub source : Text

pub record SegmentDraft : Type 0 where
  pub meeting_id : Text
  pub start_ms : ℕ
  pub end_ms : ℕ
  pub text : Text
  pub language : Option Text
  pub confidence : Option ℕ
  pub speaker_id : Option ℕ
  pub source : Text

pub record ScreenshotRow : Type 0 where
  pub id : ℕ
  pub meeting_id : Text
  pub timestamp_ms : ℕ
  pub path : Text
  pub feature_print : Option (List ℕ)
  pub caption : Option Text

pub record ScreenshotDraft : Type 0 where
  pub meeting_id : Text
  pub timestamp_ms : ℕ
  pub path : Text
  pub feature_print : Option (List ℕ)
  pub caption : Option Text

pub record SpeakerRow : Type 0 where
  pub id : ℕ
  pub meeting_id : Text
  pub label : Text
  pub embedding : Option (List ℕ)

pub record SpeakerDraft : Type 0 where
  pub meeting_id : Text
  pub label : Text
  pub embedding : Option (List ℕ)

pub data MeetingStoreError : Type 0 where
  meeting_not_found : Text → MeetingStoreError
  segment_not_found screenshot_not_found speaker_not_found : ℕ → MeetingStoreError
  io sql : Text → MeetingStoreError
