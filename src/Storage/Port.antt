-- ===== src/Storage/Port.antt =====
-- The trait `Storage` of crates/panops-core/src/storage.rs, as far as the engine's meeting methods
-- call it, and what they may rely on.
pub mod Kept
use panops.Base.{Option, Result, Text, err, ok, ℕ, ◌≡◌}
use panops.Storage.{Meeting, MeetingDraft, Note, NoteDraft, StorageError, meeting, not_found}

-- The state is what the adapter keeps behind its lock.
pub record StoragePort : Type 1 where
  pub State : Type 0
  pub create_meeting : MeetingDraft → State → Result StorageError Meeting × State
  pub get_meeting : Text → State → Result StorageError Meeting × State
  pub update_meeting_ended : Text → Text → ℕ → State → Result StorageError Meeting × State
  pub rename_meeting : Text → Text → State → Result StorageError Meeting × State
  pub delete_meeting : Text → State → Result StorageError (Unit {0}) × State
  pub create_note : NoteDraft → Text → State → Result StorageError Note × State
  pub replace_meeting_note : Text → NoteDraft → Text → State → Result StorageError Note × State
  pub assign_meeting :
      Text → Option Text → Option Text → State → Result StorageError (Unit {0}) × State

pub record IsLawful (P : StoragePort) : Type 0 where
  pub get_keeps : (id : Text) (s : P.State) → (P.get_meeting id s).1 ≡ s
  pub create_err :
      (d : MeetingDraft) (s : P.State) (e : StorageError)
      → (P.create_meeting d s).0 ≡ err e
      → (P.create_meeting d s).1 ≡ s
  pub create_ok :
      (d : MeetingDraft) (s : P.State) (m : Meeting)
      → (P.create_meeting d s).0 ≡ ok m
      → ((P.get_meeting d.id (P.create_meeting d s).1).0 ≡ ok m) × (m.dir_path ≡ d.dir_path)
  pub delete_err :
      (id : Text) (s : P.State) (e : StorageError)
      → (P.delete_meeting id s).0 ≡ err e
      → (P.delete_meeting id s).1 ≡ s
  pub delete_ok :
      (id : Text) (s : P.State) (u : Unit {0})
      → (P.delete_meeting id s).0 ≡ ok u
      → (P.get_meeting id (P.delete_meeting id s).1).0 ≡ err (not_found id meeting)
  pub replace_err :
      (id : Text) (d : NoteDraft) (now : Text) (s : P.State) (e : StorageError)
      → (P.replace_meeting_note id d now s).0 ≡ err e
      → (P.replace_meeting_note id d now s).1 ≡ s
