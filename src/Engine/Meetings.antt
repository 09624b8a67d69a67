-- ===== src/Engine/Meetings.antt =====
-- The meeting methods of `IpcImpl` in crates/panops-engine/src/server/handlers.rs, over any storage
-- port. What they did to the disk is logged, the latest first, and so is a directory that they asked to
-- remove, whatever came of it. A `create_dir_all` that fails is logged as `tried_dir`: some of the
-- directories of its path may have been made.
pub mod Deleting
pub mod Starting
use panops.Base.{
  Bool, List, Option, Result, Text, [], codes, err, false, if◌then◌else◌, none, not, ok, some, true,
  ℕ, ◌++◌, ◌-◌, ◌/◌, ◌∷◌,
}
use panops.Storage.{Meeting, MeetingDraft, NoteDraft, StorageError, meeting}
use panops.Storage.Port.{StoragePort}
use panops.Protocol.{IpcError, from_storage}
use panops.Engine.Paths.{
  Answer, Disk, allowed_root, join, reject_path_like_meeting_id, validate_meeting_dir,
}

pub data Effect : Type 0 where
  made_dir tried_dir wrote_file removed_file removed_dir : Text → Effect
  renamed_file : Text → Text → Effect

-- `MeetingDeleteVideoResult`
pub record VideoDeleted : Type 0 where
  pub deleted : Bool
  pub freed_bytes : ℕ

-- chrono: the nanoseconds of a time stamp since some fixed time, where it can be read.
pub record Chrono : Type 0 where
  pub now : Text
  pub parse : Text → Option ℕ

abbrev pub internal_text : Text → IpcError
internal_text message = IpcError.internal message

module _ (P : StoragePort) where
  pub record Server : Type 0 where
    pub storage : P.State
    pub effects : List Effect

  -- What a method answers, and the server after it.
  abbrev pub Step : Type 0 → Type 0
  Step A = Result IpcError A × Server

  -- A storage call; its error is converted and ends the method.
  abbrev pub call :
      {A B : Type 0} → Result StorageError A × P.State → Server → (A → Server → Step B) → Step B
  call r s k = elim r.0 [
    | err e ↦ (err (from_storage e), record s { storage = r.1 })
    | ok a ↦ k a (record s { storage = r.1 })
  ]

  abbrev pub check : {A B : Type 0} → Result IpcError A → Server → (A → Step B) → Step B
  check r s k = elim r [ err e ↦ (err e, s) | ok a ↦ k a ]

  abbrev pub logged : Effect → Server → Server
  logged e s = record s { effects = e ∷ s.effects }

  unfoldable pub meeting_get : Text → Server → Step Meeting
  meeting_get id s = call (P.get_meeting id s.storage) s λ m t. (ok m, t)

  unfoldable pub meeting_rename : Text → Text → Server → Step Meeting
  meeting_rename meeting_id title s =
      call (P.rename_meeting meeting_id title s.storage) s λ m t. (ok m, t)

  unfoldable pub meeting_assign : Text → Option Text → Option Text → Server → Step (Unit {0})
  meeting_assign meeting_id space_id project_id s =
      call (P.assign_meeting meeting_id space_id project_id s.storage) s λ u t. (ok tt, t)

  unfoldable pub meeting_stop : Chrono → Text → Server → Step Meeting
  meeting_stop chrono id s = call (P.get_meeting id s.storage) s λ m t.
      elim (chrono.parse m.started_at) [
        | none ↦ (err (internal_text (codes "internal time-parse error")), t)
        | some started ↦ elim (chrono.parse chrono.now) [
          | none ↦ (err (internal_text (codes "internal time-format error")), t)
          | some ended ↦
              let dur = (ended - started) / 1000000 in
              call (P.update_meeting_ended id chrono.now dur t.storage) t λ m' u. (ok m', u)
        ]
      ]

  unfoldable pub meeting_delete : Disk → Text → Text → Server → Step (Unit {0})
  meeting_delete disk data_dir id s = call (P.get_meeting id s.storage) s λ m t.
      check (validate_meeting_dir disk data_dir m.dir_path) t λ safe_dir.
        call (P.delete_meeting id t.storage) t λ u v. (ok tt, logged (removed_dir safe_dir) v)

  abbrev pub delete_video_failed : IpcError
  delete_video_failed = IpcError.internal (codes "delete video failed")

  -- Nothing was there to delete.
  abbrev pub no_video : VideoDeleted
  no_video = record { deleted = false; freed_bytes = 0 }

  unfoldable pub remove_video : Disk → Text → ℕ → Server → Step VideoDeleted
  remove_video disk video_path freed_bytes s = elim (disk.remove_file video_path) [
    | Answer.found n ↦ (
      ok (record { deleted = true; freed_bytes = freed_bytes }),
      logged (removed_file video_path) s,
    )
    | Answer.absent ↦ (ok no_video, s)
    | Answer.failed ↦ (err delete_video_failed, s)
  ]

  unfoldable pub meeting_delete_video : Disk → Text → Text → Server → Step VideoDeleted
  unfolding remove_video
  meeting_delete_video disk data_dir meeting_id s =
      check (reject_path_like_meeting_id meeting_id) s λ simple.
        call (P.get_meeting meeting_id s.storage) s λ m t.
          check (validate_meeting_dir disk data_dir m.dir_path) t λ meeting_dir.
            let video_path = join meeting_dir (codes "recording.mov") in
            elim (disk.metadata video_path) [
              | Answer.found freed_bytes ↦ remove_video disk video_path freed_bytes t
              | Answer.absent ↦ (ok no_video, t)
              | Answer.failed ↦ (err delete_video_failed, t)
            ]

  -- `id` and `started_at` are new: a UUID and the time of day.
  unfoldable pub create_meeting_dir_and_row :
      Disk → Text → Text → Text → Text → Text → Server → Step (Text × Text)
  create_meeting_dir_and_row disk data_dir id started_at title language s =
      let dir = join (allowed_root data_dir) id in
      let screenshots = join dir (codes "screenshots") in
      let draft : MeetingDraft = record {
        id = id;
        title = title;
        started_at = started_at;
        language = language;
        dir_path = dir;
      } in
      if not (disk.create_dir_all screenshots)
      then (
        err (internal_text (codes "create meeting dir failed")),
        logged (tried_dir screenshots) s,
      )
      else let r = P.create_meeting draft s.storage in
        let made = logged (made_dir screenshots) (record s { storage = r.1 }) in
        elim r.0 [
          | err e ↦ (err (from_storage e), logged (removed_dir dir) made)
          | ok m ↦ (ok (id, dir), made)
        ]

  abbrev pub id_only : Result IpcError (Text × Text) → Result IpcError Text
  id_only (err e) = err e
  id_only (ok (id, dir)) = ok id

  unfoldable pub meeting_start :
      Disk → Text → Text → Text → Option Text → Option Text → Server → Step Text
  meeting_start disk data_dir id started_at title language s =
      let title' : Text = elim title [ none ↦ [] | some t ↦ t ] in
      let language' : Text = elim language [ none ↦ codes "auto" | some l ↦ l ] in
      let r = create_meeting_dir_and_row disk data_dir id started_at title' language' s in
      (id_only r.0, r.1)

  -- `suffix` and `note_id` are new UUIDs.
  unfoldable pub notes_save :
      Disk → Text → Text → Text → Text → Text → Text → Server → Step (Unit {0})
  notes_save disk data_dir suffix note_id now meeting_id markdown s =
      call (P.get_meeting meeting_id s.storage) s λ m t.
        check (validate_meeting_dir disk data_dir m.dir_path) t λ meeting_dir.
          let notes_path = join meeting_dir (codes "notes.md") in
          let partial = join meeting_dir (codes "notes.md." ++ (suffix ++ codes ".partial")) in
          let draft : NoteDraft = record {
            id = note_id;
            meeting_id = meeting_id;
            dialect = codes "basic";
            content_md = markdown;
            primary_path = notes_path;
          } in
          if not (disk.write partial)
          then (err (internal_text (codes "write notes.md failed")), t)
          else if not (disk.rename partial notes_path)
          then (err (internal_text (codes "save notes.md failed")), logged (wrote_file partial) t)
          else let saved =
              logged (renamed_file partial notes_path) (logged (wrote_file partial) t) in
            call (P.replace_meeting_note meeting_id draft now saved.storage) saved λ n u. (ok tt, u)
