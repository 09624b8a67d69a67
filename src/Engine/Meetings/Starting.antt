-- ===== src/Engine/Meetings/Starting.antt =====
-- What starting a meeting leaves in the registry and on the disk.
use panops.Base.{
  Bool-cases, Option, Result-cases, Text, [], codes, err, false, inl, inr, none, ok, refl, some,
  true, ◌∷◌, ◌≡◌, ◌⊎◌, ap,
}
use panops.Storage.{Meeting, MeetingDraft}
use panops.Storage.Port.{IsLawful, StoragePort}
use panops.Protocol.{IpcError, from_storage}
use panops.Engine.Paths.{
  Disk, allowed_root, canonical_root, is_absolute, join, starts_with, validate_meeting_dir,
  validate_resolved,
}
use panops.Engine.Paths.Components.{starts_with-join}
use panops.Engine.Meetings.{
  Server, internal_text, made_dir, meeting_start, removed_dir, create_meeting_dir_and_row, id_only,
  tried_dir,
}

-- A path that exists resolves to one under the resolved `meetings`.
abbrev pub Resolves : Disk → Text → Text → Type 0
Resolves disk data_dir path =
    disk.exists path ≡ true
    → (dir : Text) × (disk.canonicalize path ≡ some dir)
      × (starts_with dir (canonical_root disk data_dir) ≡ true)

validate_meeting_dir-ok :
    (disk : Disk) (data_dir path : Text)
    → starts_with path (allowed_root data_dir) ≡ true
    → Resolves disk data_dir path
    → validate_meeting_dir disk data_dir path ≡ ok path
unfolding validate_meeting_dir validate_resolved
validate_meeting_dir-ok disk data_dir path under resolves = elim (Bool-cases (disk.exists path)) [
  | inr gone ↦ rw (under, gone) refl
  | inl there ↦
      let (dir, found_at, inside) = resolves there in
      rw (under, there) (rw (found_at, validate_resolved) (rw inside refl))
]

module _ (P : StoragePort) (lawful : IsLawful P) (disk : Disk) (data_dir : Text) where
  -- The directory of a meeting.
  abbrev pub dir_of : Text → Text
  dir_of id = join (allowed_root data_dir) id

  -- The meeting is in the registry, and its directory may be written to and removed later on.
  abbrev pub Started : Disk → Text → Server P → Server P → Type 0
  Started later id s s' =
      (m : Meeting) × ((P.get_meeting id s'.storage).0 ≡ ok m)
      × (validate_meeting_dir later data_dir m.dir_path ≡ ok m.dir_path)
      × (s'.effects ≡ made_dir (join (dir_of id) (codes "screenshots")) ∷ s.effects)

  -- No row is left. Either the directory could not be made, and what was made of its path stays; or it
  -- was made and was to be removed again.
  abbrev pub NotStarted : Text → Server P → Server P → Type 0
  NotStarted id s s' =
      (s'.storage ≡ s.storage)
      × ((s'.effects ≡ tried_dir (join (dir_of id) (codes "screenshots")) ∷ s.effects)
          ⊎ (s'.effects
              ≡ removed_dir (dir_of id)
                ∷ made_dir (join (dir_of id) (codes "screenshots"))
                ∷ s.effects))

  row-Cleans :
      (later : Disk) (id started_at title language : Text) (s : Server P)
      → is_absolute id ≡ false
      → Resolves later data_dir (dir_of id)
      → let r = create_meeting_dir_and_row P disk data_dir id started_at title language s in
        ((r.0 ≡ ok (id, dir_of id)) × Started later id s r.1)
        ⊎ ((e : IpcError) × (r.0 ≡ err e) × NotStarted id s r.1)
  unfolding create_meeting_dir_and_row
  row-Cleans later id started_at title language s relative resolves =
      let draft : MeetingDraft = record {
        id = id;
        title = title;
        started_at = started_at;
        language = language;
        dir_path = dir_of id;
      } in
      elim (Bool-cases (disk.create_dir_all (join (dir_of id) (codes "screenshots")))) [
        | inr full ↦ inr (
          internal_text (codes "create meeting dir failed"),
          rw full refl,
          rw full (refl, inl refl),
        )
        | inl made ↦ elim (Result-cases (P.create_meeting draft s.storage).0) [
          | inr (e, refused) ↦ inr (
            from_storage e,
            rw made (rw refused refl),
            rw made (rw refused (lawful.create_err draft s.storage e refused, inr refl)),
          )
          | inl (m, stored) ↦
              let (there, same) = lawful.create_ok draft s.storage m stored in
              let valid =
                validate_meeting_dir-ok later data_dir (dir_of id)
                  (starts_with-join (allowed_root data_dir) id relative) resolves in
              inl (rw made (rw stored refl), rw made (rw stored (m, there, rw same valid, refl)))
        ]
      ]

  -- `meeting.start` under a new id that is no absolute path: it answers with the id, the registry
  -- holds the meeting, and its directory is one that `validate_meeting_dir` accepts on any disk
  -- where it does not resolve to a place outside `meetings`; or it answers with an error and the
  -- registry is as before. On an error the directory was made and was to be removed again, unless the
  -- `create_dir_all` of it is what failed: then nothing is removed of what that may have made.
  pub meeting_start-Cleans :
      (later : Disk) (id started_at : Text) (title language : Option Text) (s : Server P)
      → is_absolute id ≡ false
      → Resolves later data_dir (dir_of id)
      → let r = meeting_start P disk data_dir id started_at title language s in
        ((r.0 ≡ ok id) × Started later id s r.1)
        ⊎ ((e : IpcError) × (r.0 ≡ err e) × NotStarted id s r.1)
  unfolding meeting_start
  meeting_start-Cleans later id started_at title language s relative resolves =
      let title' : Text = elim title [ none ↦ [] | some t ↦ t ] in
      let language' : Text = elim language [ none ↦ codes "auto" | some l ↦ l ] in
      elim (row-Cleans later id started_at title' language' s relative resolves) [
        | inl (answer, started) ↦ inl (ap (id_only P) answer, started)
        | inr (e, answer, clean) ↦ inr (e, ap (id_only P) answer, clean)
      ]
