-- ===== src/Storage/Memory/KeepsDeletes.antt =====
-- Deleting a space or a project keeps the tables consistent.
use panops.Base.{
  All, All-mono, All-remove, All-remove_keys, Bool-cases, Dict, Distinct, Distinct-remove_keys, Has,
  List, Text, [], arith, contains_key, contains_key-remove, false, inl, inr, keep, lookup-All,
  lookup-remove, lookup-remove_keys, map, remove, remove_keys, text_eq, text_eq_refl, text_eq_sym,
  true, values, ◌∙◌, ◌∷◌, ◌≡◌,
}
use panops.Storage.{Project}
use panops.Storage.Memory.{Inner}
use panops.Storage.Memory.Organize.{clear_assignments, delete_project, delete_space, keys_with}
use panops.Storage.Memory.Clearing.{
  All-clear_all, All-clear_assignments, OneOf, Outside, clear_all, drop_projects_lem,
  lookup-clear_assignments, not_both,
}
use panops.Storage.Memory.Invariant.{InProjectSpace, IsConsistent}

Has-remove {ℓ} :
    {V : Type ℓ} (id j : Text) (m : Dict V) → Has m j → text_eq j id ≡ false → Has (remove id m) j
Has-remove id j m h ne = contains_key-remove id j m ∙ rw (text_eq_sym id j ∙ ne) h

flip-Outside : (k : Text) (ks : List Text) → Outside k ks → All (λ j. text_eq j k ≡ false) ks
flip-Outside k ks h = All-mono _ _ ks (λ j e. text_eq_sym j k ∙ e) h

module _ {s : Inner} (c : IsConsistent s) where
  pub delete_project-IsConsistent : (id : Text) → IsConsistent (delete_project id s).1
  unfolding delete_project
  delete_project-IsConsistent id = elim (Bool-cases (contains_key id s.projects)) [
    | inr absent ↦ rw (absent, delete_project) c
    | inl there ↦
        rw (there, delete_project)
          (record {
            meeting_keys = c.meeting_keys;
            project_keys =
                All-mono _ _ (remove id s.projects) (λ e h. h.0)
                  (All-remove _ id s.projects c.project_keys);
            note_meetings = c.note_meetings;
            project_spaces =
                All-mono _ _ (remove id s.projects) (λ e h. h.0)
                  (All-remove _ id s.projects c.project_spaces);
            space_rows = c.space_rows;
            project_meetings =
                All-mono _ _ (clear_assignments id s.meeting_projects) (λ e h. h.0)
                  (All-clear_assignments id _ s.meeting_projects c.project_meetings);
            project_rows =
                All-mono _ _ (clear_assignments id s.meeting_projects)
                  (λ e h. (
                    h.0.0,
                    lookup-remove id e.1 s.projects ∙ rw (text_eq_sym id e.1 ∙ h.1) h.0.1,
                    h.0.2,
                  ))
                  (All-clear_assignments id _ s.meeting_projects c.project_rows);
            tag_rows = c.tag_rows;
            one_space = c.one_space;
            space_ids = c.space_ids;
            project_ids =
                All-mono _ _ (remove id s.projects) (λ e h. h.0)
                  (All-remove _ id s.projects c.project_ids);
            tag_ids = c.tag_ids;
          })
  ]

  -- The projects of the space `id`, as `delete_space` collects them.
  abbrev project_ids_of : Text → Dict Project → List Text
  project_ids_of id m =
      map (λ (p : Project). p.id) (keep (λ (p : Project). text_eq p.space_id id) (values m))

  -- A project is of another space, or its key is collected.
  abbrev Collected : Text → List Text → Text × Project → Type 0
  Collected id ids e = text_eq e.1.space_id id ≡ true → OneOf e.0 ids

  Collected-by :
      (id : Text) (ids : List Text) (m : Dict Project)
      → ((k : Text) → OneOf k (project_ids_of id m) → OneOf k ids)
      → All (λ (e : Text × Project). e.1.id ≡ e.0) m
      → All (Collected id ids) m
  unfolding values
  Collected-by id ids [] h keys = tt
  Collected-by id ids ((k, p) ∷ m) h keys = (
    λ same. h k (rw same (rw keys.0 (ground (arith, text_eq_refl k)))),
    Collected-by id ids m (λ j o. h j (ground (arith, o))) keys.1,
  )

  collected :
      (id : Text) (m : Dict Project)
      → All (λ (e : Text × Project). e.1.id ≡ e.0) m
      → All (Collected id (project_ids_of id m)) m
  collected id m keys = Collected-by id (project_ids_of id m) m (λ k o. o) keys

  elsewhere :
      (id : Text) (ids : List Text) (e : Text × Project)
      → Collected id ids e
      → Outside e.0 ids
      → text_eq e.1.space_id id ≡ false
  elsewhere id ids e f out = elim (Bool-cases (text_eq e.1.space_id id)) [
    | inl ours ↦ absurd (not_both e.0 ids out (f ours))
    | inr other ↦ other
  ]

  module _ (id : Text) where
    abbrev ids : List Text
    ids = project_ids_of id s.projects

    kept_row :
        (e : Text × Text)
        → InProjectSpace s.projects s.meeting_spaces e
        → Outside e.1 ids
        → InProjectSpace (remove_keys ids s.projects) (clear_assignments id s.meeting_spaces) e
    kept_row e (p, found, in_space) out =
        let other =
          elsewhere id ids (e.1, p)
            (lookup-All (Collected id ids) e.1 s.projects p (collected id s.projects c.project_keys)
              found)
            out in
        (
          p,
          lookup-remove_keys ids e.1 s.projects (flip-Outside e.1 ids out) ∙ found,
          lookup-clear_assignments id e.0 p.space_id s.meeting_spaces c.one_space in_space other,
        )

    All-both :
        (m : Dict Project)
        → All (λ (e : Text × Project). Has s.spaces e.1.space_id) m
        → All (Collected id ids) m
        → All (λ (e : Text × Project). Has s.spaces e.1.space_id × Collected id ids e) m
    All-both [] h k = tt
    All-both (e ∷ m) h k = ((h.0, k.0), All-both m h.1 k.1)

    cleared_one_space : Distinct (clear_assignments id s.meeting_spaces)
    unfolding clear_assignments
    cleared_one_space =
        Distinct-remove_keys (keys_with id s.meeting_spaces) s.meeting_spaces c.one_space

    space_removed : IsConsistent (record s {
      spaces = remove id s.spaces;
      projects = remove_keys ids s.projects;
      meeting_projects = clear_all ids s.meeting_projects;
      meeting_spaces = clear_assignments id s.meeting_spaces;
    })
    space_removed = record {
      meeting_keys = c.meeting_keys;
      project_keys =
          All-mono _ _ (remove_keys ids s.projects) (λ e h. h.0)
            (All-remove_keys ids _ s.projects c.project_keys);
      note_meetings = c.note_meetings;
      project_spaces =
          All-mono _ _ (remove_keys ids s.projects)
            (λ e h. Has-remove id _ s.spaces h.0.0 (elsewhere id ids e h.0.1 h.1))
            (All-remove_keys ids
              (λ (e : Text × Project). Has s.spaces e.1.space_id × Collected id ids e) s.projects
              (All-both s.projects c.project_spaces (collected id s.projects c.project_keys)));
      space_rows =
          All-mono _ _ (clear_assignments id s.meeting_spaces)
            (λ e h. (h.0.0, Has-remove id _ s.spaces h.0.1 h.1))
            (All-clear_assignments id _ s.meeting_spaces c.space_rows);
      project_meetings =
          All-mono _ _ (clear_all ids s.meeting_projects) (λ e h. h.0)
            (All-clear_all ids _ s.meeting_projects c.project_meetings);
      project_rows =
          All-mono _ _ (clear_all ids s.meeting_projects) (λ e h. kept_row e h.0 h.1)
            (All-clear_all ids _ s.meeting_projects c.project_rows);
      tag_rows = c.tag_rows;
      one_space = cleared_one_space;
      space_ids =
          All-mono _ _ (remove id s.spaces) (λ e h. h.0) (All-remove _ id s.spaces c.space_ids);
      project_ids =
          All-mono _ _ (remove_keys ids s.projects) (λ e h. h.0)
            (All-remove_keys ids _ s.projects c.project_ids);
      tag_ids = c.tag_ids;
    }

  pub delete_space-IsConsistent : (id : Text) → IsConsistent (delete_space id s).1
  unfolding delete_space
  delete_space-IsConsistent id = elim (Bool-cases (contains_key id s.spaces)) [
    | inr absent ↦ rw (absent, delete_space) c
    | inl there ↦
        rw (there, delete_space)
          (rw
            (drop_projects_lem (project_ids_of id s.projects)
              (record s { spaces = remove id s.spaces }))
            (space_removed id))
  ]
