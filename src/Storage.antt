-- ===== src/Storage.antt =====
-- The storage port of crates/panops-core/src/storage.rs: its rows, drafts, filter and errors. Ids,
-- names, paths and time stamps are texts.
pub mod Memory
pub mod Port
use panops.Base.{Bool, List, Option, Text, false, none, ℕ}

pub record MeetingDraft : Type 0 where
  pub id : Text
  pub title : Text
  pub started_at : Text
  pub language : Text
  pub dir_path : Text

pub record Meeting : Type 0 where
  pub id : Text
  pub title : Text
  pub started_at : Text
  pub ended_at : Option Text
  pub duration_ms : Option ℕ
  pub language : Text
  pub dir_path : Text

pub record MeetingSummary : Type 0 where
  pub id : Text
  pub title : Text
  pub started_at : Text
  pub ended_at : Option Text
  pub duration_ms : ℕ
  pub language : Text
  pub has_notes : Bool
  pub space_id : Option Text
  pub project_id : Option Text
  pub tags : List Text

pub record MeetingListFilter : Type 0 where
  pub space_id : Option Text
  pub project_id : Option Text
  pub tag_id : Option Text
  pub unsorted : Bool

abbrev pub default_filter : MeetingListFilter
default_filter = record { space_id = none; project_id = none; tag_id = none; unsorted = false }

pub record Space : Type 0 where
  pub id : Text
  pub name : Text
  pub position : ℕ

pub record Project : Type 0 where
  pub id : Text
  pub space_id : Text
  pub name : Text
  pub position : ℕ

pub record Tag : Type 0 where
  pub id : Text
  pub name : Text

pub record NoteDraft : Type 0 where
  pub id : Text
  pub meeting_id : Text
  pub dialect : Text
  pub content_md : Text
  pub primary_path : Text

pub record Note : Type 0 where
  pub id : Text
  pub meeting_id : Text
  pub dialect : Text
  pub content_md : Text
  pub primary_path : Text
  pub created_at : Text

-- The `kind` of a row in an error.
pub data Kind : Type 0 where
  meeting note space project tag : Kind

pub data StorageError : Type 0 where
  not_found : Text → Kind → StorageError
  already_exists : Text → Kind → StorageError
  unique_conflict : Kind → Text → Text → StorageError
  schema_mismatch : ℕ → ℕ → StorageError
  io : Text → StorageError
  sql : Text → StorageError
