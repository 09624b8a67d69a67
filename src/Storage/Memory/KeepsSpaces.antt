-- ===== src/Storage/Memory/KeepsSpaces.antt =====
-- The space and project methods keep the tables consistent.
use panops.Base.{
  All, All-insert, All-modify, All-mono, Bool-cases, Dict, Has, Has-insert, Text, [], ap, arith,
  contains_key, contains_key-modify, decimal-injective, false, inl, inr, insert, lookup,
  lookup-insert, lookup-modify, modify, none, refl, some, sym, text_eq, text_eq_iff, ℕ, ◌++◌, ◌+◌,
  ◌∙◌, ◌∷◌, ◌≡◌, add64, u64_mod, ◌<◌,
}
use panops.Storage.{Project, Space}
use panops.Storage.Memory.{Inner}
use panops.Storage.Memory.Organize.{
  create_project, create_space, numbered, project_prefix, rename_project, rename_space,
  space_prefix,
}
use panops.Storage.Memory.Invariant.{InProjectSpace, IsConsistent, Issued}

Issued-later {ℓ} :
    {V : Type ℓ} (prefix : Text) (next : ℕ) (e : Text × V)
    → Issued prefix next e
    → Issued prefix (next + 1) e
Issued-later prefix next e (n, lt, same) = (n, omega (arith, lt), same)

-- A row under the next number, in a table whose ids were all given out before.
pub add_numbered {ℓ} :
    {V : Type ℓ} (prefix : Text) (next : ℕ) (v : V) (m : Dict V)
    → next + 1 < u64_mod
    → All (Issued prefix next) m
    → All (Issued prefix (add64 next 1)) (insert (numbered prefix next) v m)
add_numbered prefix next v m small h =
    let exact : add64 next 1 ≡ next + 1 = omega (arith, small) in
    rw exact (
      All-insert _ (numbered prefix next) v m (next, omega arith, refl)
        (All-mono _ _ m (λ e i. Issued-later prefix next e i) h))

append-cancel : (p s t : Text) → p ++ s ≡ p ++ t → s ≡ t
append-cancel [] s t e = e
append-cancel (c ∷ p) s t e = append-cancel p s t (ap tail_of e)
  where
    tail_of : Text → Text
    tail_of [] = []
    tail_of (x ∷ xs) = xs

-- So the number's text is not a key yet.
pub next_is_free {ℓ} :
    {V : Type ℓ} (prefix : Text) (next : ℕ) (m : Dict V)
    → All (Issued prefix next) m
    → contains_key (numbered prefix next) m ≡ false
unfolding contains_key
next_is_free prefix next [] h = refl
next_is_free prefix next ((k, v) ∷ m) ((n, lt, same), h) =
    elim (Bool-cases (text_eq k (numbered prefix next))) [
      | inr other ↦ rw (other, contains_key) (next_is_free prefix next m h)
      | inl used ↦
          let e : numbered prefix n ≡ numbered prefix next = sym same ∙ (text_eq_iff k _).0 used in
          absurd (omega (arith, decimal-injective n next (append-cancel prefix _ _ e)))
    ]

lookup_of_free {ℓ} :
    {V : Type ℓ} (k : Text) (m : Dict V) → contains_key k m ≡ false → lookup k m ≡ none
unfolding contains_key
lookup_of_free k m h = ground arith

module _ {s : Inner} (c : IsConsistent s) where
  pub create_space-IsConsistent :
      s.next_space_id + 1 < u64_mod → (name : Text) → IsConsistent (create_space name s).1
  unfolding create_space
  create_space-IsConsistent small name =
      let id = numbered space_prefix s.next_space_id in
      record {
        meeting_keys = c.meeting_keys;
        project_keys = c.project_keys;
        note_meetings = c.note_meetings;
        project_spaces =
            All-mono _ _ s.projects (λ e h. Has-insert id _ s.spaces _ h) c.project_spaces;
        space_rows =
            All-mono _ _ s.meeting_spaces (λ e h. (h.0, Has-insert id _ s.spaces _ h.1))
              c.space_rows;
        project_meetings = c.project_meetings;
        project_rows = c.project_rows;
        tag_rows = c.tag_rows;
        one_space = c.one_space;
        space_ids = add_numbered space_prefix s.next_space_id _ s.spaces small c.space_ids;
        project_ids = c.project_ids;
        tag_ids = c.tag_ids;
      }

  pub rename_space-IsConsistent : (id name : Text) → IsConsistent (rename_space id name s).1
  unfolding rename_space
  rename_space-IsConsistent id name = elim (Bool-cases (contains_key id s.spaces)) [
    | inr absent ↦ rw (absent, rename_space) c
    | inl there ↦ rw (there, rename_space) renamed
  ]
    where
      f : Space → Space
      f t = record t { name = name }

      renamed : IsConsistent (record s { spaces = modify id f s.spaces })
      renamed = record {
        meeting_keys = c.meeting_keys;
        project_keys = c.project_keys;
        note_meetings = c.note_meetings;
        project_spaces =
            All-mono _ _ s.projects (λ e h. contains_key-modify id _ f s.spaces ∙ h)
              c.project_spaces;
        space_rows =
            All-mono _ _ s.meeting_spaces (λ e h. (h.0, contains_key-modify id _ f s.spaces ∙ h.1))
              c.space_rows;
        project_meetings = c.project_meetings;
        project_rows = c.project_rows;
        tag_rows = c.tag_rows;
        one_space = c.one_space;
        space_ids = All-modify _ id f s.spaces (λ j v h. h) c.space_ids;
        project_ids = c.project_ids;
        tag_ids = c.tag_ids;
      }

  create_project_there :
      s.next_project_id + 1 < u64_mod
      → (p : Project) → p.id ≡ numbered project_prefix s.next_project_id
      → Has s.spaces p.space_id
      → IsConsistent (record s {
        next_project_id = add64 s.next_project_id 1;
        projects = insert (numbered project_prefix s.next_project_id) p s.projects;
      })
  create_project_there small p same there =
      let id = numbered project_prefix s.next_project_id in
      let free = next_is_free project_prefix s.next_project_id s.projects c.project_ids in
      record {
        meeting_keys = c.meeting_keys;
        project_keys = All-insert _ id p s.projects same c.project_keys;
        note_meetings = c.note_meetings;
        project_spaces = All-insert _ id p s.projects there c.project_spaces;
        space_rows = c.space_rows;
        project_meetings = c.project_meetings;
        project_rows =
            All-mono _ _ s.meeting_projects (λ e h. (h.0, kept free e h, h.2)) c.project_rows;
        tag_rows = c.tag_rows;
        one_space = c.one_space;
        space_ids = c.space_ids;
        project_ids =
            add_numbered project_prefix s.next_project_id p s.projects small c.project_ids;
        tag_ids = c.tag_ids;
      }
    where
      kept :
          contains_key (numbered project_prefix s.next_project_id) s.projects ≡ false
          → (e : Text × Text) (h : InProjectSpace s.projects s.meeting_spaces e)
          → lookup e.1 (insert (numbered project_prefix s.next_project_id) p s.projects) ≡ some h.0
      kept free e h = elim (Bool-cases (text_eq (numbered project_prefix s.next_project_id) e.1)) [
        | inr other ↦ lookup-insert _ e.1 p s.projects ∙ rw other h.1
        | inl used ↦ cc (
          h.1,
          lookup_of_free (numbered project_prefix s.next_project_id) s.projects free,
          (text_eq_iff (numbered project_prefix s.next_project_id) e.1).0 used,
        )
      ]

  pub create_project-IsConsistent :
      s.next_project_id + 1 < u64_mod
      → (space_id name : Text) → IsConsistent (create_project space_id name s).1
  unfolding create_project
  create_project-IsConsistent small space_id name =
      elim (Bool-cases (contains_key space_id s.spaces)) [
        | inr absent ↦ rw (absent, create_project) c
        | inl there ↦ rw (there, create_project) (create_project_there small _ refl there)
      ]

  pub rename_project-IsConsistent : (id name : Text) → IsConsistent (rename_project id name s).1
  unfolding rename_project
  rename_project-IsConsistent id name = elim (Bool-cases (contains_key id s.projects)) [
    | inr absent ↦ rw (absent, rename_project) c
    | inl there ↦ rw (there, rename_project) renamed
  ]
    where
      f : Project → Project
      f p = record p { name = name }

      still :
          (e : Text × Text)
          → InProjectSpace s.projects s.meeting_spaces e
          → InProjectSpace (modify id f s.projects) s.meeting_spaces e
      still e (p, found, in_space) = elim (Bool-cases (text_eq id e.1)) [
        | inl same ↦ (f p, lookup-modify id e.1 f s.projects ∙ rw (same, found) refl, in_space)
        | inr other ↦ (p, lookup-modify id e.1 f s.projects ∙ rw other found, in_space)
      ]

      renamed : IsConsistent (record s { projects = modify id f s.projects })
      renamed = record {
        meeting_keys = c.meeting_keys;
        project_keys = All-modify _ id f s.projects (λ j v h. h) c.project_keys;
        note_meetings = c.note_meetings;
        project_spaces = All-modify _ id f s.projects (λ j v h. h) c.project_spaces;
        space_rows = c.space_rows;
        project_meetings = c.project_meetings;
        project_rows = All-mono _ _ s.meeting_projects still c.project_rows;
        tag_rows = c.tag_rows;
        one_space = c.one_space;
        space_ids = c.space_ids;
        project_ids = All-modify _ id f s.projects (λ j v h. h) c.project_ids;
        tag_ids = c.tag_ids;
      }
