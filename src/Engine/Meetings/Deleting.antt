-- ===== src/Engine/Meetings/Deleting.antt =====
-- What the deleting methods do to the registry and to the disk.
use panops.Base.{
  Bool-cases, Option-cases, Result-cases, Text, err, inl, inr, ok, ok_inj, refl, some, sym, true,
  ◌∷◌, ◌≡◌, ◌⊎◌, ap,
}
use panops.Storage.{Meeting, meeting, not_found}
use panops.Storage.Port.{IsLawful, StoragePort}
use panops.Protocol.{IpcError, from_storage}
use panops.Engine.Paths.{
  Disk, allowed_root, canonical_root, starts_with, validate_meeting_dir, validate_resolved,
}
use panops.Engine.Meetings.{Server, meeting_delete, removed_dir}

-- The path is `meetings` or leads below it, as it is written and, if it exists, as it resolves.
abbrev pub StartsInRoot : Disk → Text → Text → Type 0
StartsInRoot disk data_dir path =
    (starts_with path (allowed_root data_dir) ≡ true)
    × (disk.exists path ≡ true
        → (dir : Text) × (disk.canonicalize path ≡ some dir)
          × (starts_with dir (canonical_root disk data_dir) ≡ true))

validate_resolved-ok :
    (disk : Disk) (data_dir path : Text) {dir : Text}
    → validate_resolved disk data_dir path ≡ ok dir
    → ((c : Text) × (disk.canonicalize path ≡ some c)
        × (starts_with c (canonical_root disk data_dir) ≡ true))
      × (dir ≡ path)
unfolding validate_resolved
validate_resolved-ok disk data_dir path h = elim (Option-cases (disk.canonicalize path)) [
  | inl lost ↦ cc (rw (lost, validate_resolved) at h)
  | inr (c, found) ↦ elim (Bool-cases (starts_with c (canonical_root disk data_dir))) [
    | inr outside ↦ cc (rw (found, validate_resolved) at h, outside)
    | inl under ↦ (
      (c, found, under),
      (let h' = rw (found, validate_resolved) at h in sym (ok_inj (rw under at h'))),
    )
  ]
]

pub validate_meeting_dir-InRoot :
    (disk : Disk) (data_dir path : Text) {dir : Text}
    → validate_meeting_dir disk data_dir path ≡ ok dir
    → (dir ≡ path) × StartsInRoot disk data_dir path
unfolding validate_meeting_dir
validate_meeting_dir-InRoot disk data_dir path h =
    elim (Bool-cases (starts_with path (allowed_root data_dir))) [
      | inr outside ↦ cc (rw outside at h)
      | inl under ↦ elim (Bool-cases (disk.exists path)) [
        | inr gone ↦ (sym (ok_inj (rw (under, gone) at h)), (under, λ there. cc))
        | inl there ↦
            let (resolved, e) = validate_resolved-ok disk data_dir path (rw (under, there) at h) in
            (e, (under, λ _. resolved))
      ]
    ]

module _ (P : StoragePort) (lawful : IsLawful P) (disk : Disk) (data_dir : Text) where
  -- A deleted meeting is gone from the registry, and one directory, its own, was to be removed.
  abbrev pub Deleted : Text → Server P → Server P → Type 0
  Deleted id s s' =
      (m : Meeting) × ((P.get_meeting id s.storage).0 ≡ ok m)
      × StartsInRoot disk data_dir m.dir_path
      × ((P.get_meeting id s'.storage).0 ≡ err (not_found id meeting))
      × (s'.effects ≡ removed_dir m.dir_path ∷ s.effects)

  -- `meeting.delete` over any storage that keeps the port's laws: either it succeeds, the meeting is
  -- no longer found, and the one thing it asked of the disk is to remove the directory of the meeting's
  -- row, which is the data directory's `meetings` or leads below it, as written and, if it exists, as
  -- it resolves; or it answers with an error and changes neither the registry nor the disk. That a row
  -- names `meetings` itself is not excluded.
  pub meeting_delete-StaysInRoot :
      (id : Text) (s : Server P)
      → let r = meeting_delete P disk data_dir id s in
        ((r.0 ≡ ok tt) × Deleted id s r.1) ⊎ ((e : IpcError) × (r.0 ≡ err e) × (r.1 ≡ s))
  unfolding meeting_delete
  meeting_delete-StaysInRoot id s = elim (Result-cases (P.get_meeting id s.storage).0) [
    | inr (e, missing) ↦ inr (from_storage e, rw missing refl, rw missing kept)
    | inl (m, there) ↦ elim (Result-cases (validate_meeting_dir disk data_dir m.dir_path)) [
      | inr (e, outside) ↦ inr (e, rw there (rw outside refl), rw there (rw outside kept))
      | inl (dir, valid) ↦
          let (same, inside) = validate_meeting_dir-InRoot disk data_dir m.dir_path valid in
          let t = (P.get_meeting id s.storage).1 in
          elim (Result-cases (P.delete_meeting id t).0) [
            | inr (e, refused) ↦ inr (
              from_storage e,
              rw there (rw valid (rw refused refl)),
              rw there (rw valid (rw refused (rw (lawful.delete_err id t e refused) kept))),
            )
            | inl (u, done) ↦ inl (
              rw there (rw valid (rw done refl)),
              rw there (
                  rw valid (
                    rw done (
                      m,
                      refl,
                      inside,
                      lawful.delete_ok id t u done,
                      ap (λ d. removed_dir d ∷ s.effects) same,
                    ))),
            )
          ]
    ]
  ]
    where
      kept : record s { storage = (P.get_meeting id s.storage).1 } ≡ s
      kept = rw (lawful.get_keeps id s.storage) refl
