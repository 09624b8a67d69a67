-- ===== src/Storage/Memory/KeepsAssign.antt =====
-- `assign_meeting` keeps the tables consistent.
use panops.Base.{
  All, All-mono, All-remove, Bool-cases, Dict, Distinct, Distinct-insert, Distinct-remove, Has,
  Option, Option-cases, Text, contains_key, false, inl, inr, insert, lookup, lookup-All,
  lookup-insert, lookup-remove, none, refl, remove, some, some_inj, subst, sym, text_eq,
  text_eq_refl, text_eq_sym, ◌∙◌, ◌≡◌,
}
use panops.Storage.{Project}
use panops.Storage.Memory.{Inner}
use panops.Storage.Memory.Assign.{
  assign_meeting, assign_space, put_or_remove, set_assignment, space_missing,
}
use panops.Storage.Memory.Invariant.{InProjectSpace, IsConsistent}

All-put_or_remove :
    (P : Text × Text → Type 0) (k : Text) (v : Option Text) (m : Dict Text)
    → ((id : Text) → v ≡ some id → P (k, id))
    → All (λ e. text_eq e.0 k ≡ false → P e) m
    → All P (put_or_remove k v m)
unfolding insert
All-put_or_remove P k none m fresh old =
    All-mono _ _ (remove k m) (λ e h. h.0 h.1) (All-remove _ k m old)
All-put_or_remove P k (some id) m fresh old =
    (fresh id refl, All-mono _ _ (remove k m) (λ e h. h.0 h.1) (All-remove _ k m old))

Distinct-put_or_remove :
    (k : Text) (v : Option Text) (m : Dict Text) → Distinct m → Distinct (put_or_remove k v m)
Distinct-put_or_remove k none m d = Distinct-remove k m d
Distinct-put_or_remove k (some id) m d = Distinct-insert k id m d

lookup-put_other :
    (k j : Text) (v : Option Text) (m : Dict Text)
    → text_eq j k ≡ false
    → lookup j (put_or_remove k v m) ≡ lookup j m
lookup-put_other k j none m ne = lookup-remove k j m ∙ rw (text_eq_sym k j ∙ ne) refl
lookup-put_other k j (some id) m ne = lookup-insert k j id m ∙ rw (text_eq_sym k j ∙ ne) refl

-- What the assignment names exists, and a project comes with its own space.
abbrev Assignable : Inner → Option Text → Option Text → Type 0
Assignable s space_id project_id =
    ((id : Text) → space_id ≡ some id → Has s.spaces id)
    × ((id : Text)
        → project_id ≡ some id
        → (p : Project) × (lookup id s.projects ≡ some p) × (space_id ≡ some p.space_id))

found_back :
    (k id : Text) (v : Option Text) (m : Dict Text)
    → v ≡ some id
    → lookup k (put_or_remove k v m) ≡ some id
found_back k id none m e = cc
found_back k id (some j) m e = lookup-insert k k j m ∙ rw (text_eq_refl k) e

module _ {s : Inner} (c : IsConsistent s) where
  assigned :
      (id : Text) (space_id project_id : Option Text)
      → Has s.meetings id
      → Assignable s space_id project_id
      → IsConsistent (set_assignment id space_id project_id s)
  unfolding set_assignment
  assigned id space_id project_id there (spaces, projects) = record {
    meeting_keys = c.meeting_keys;
    project_keys = c.project_keys;
    note_meetings = c.note_meetings;
    project_spaces = c.project_spaces;
    space_rows =
        All-put_or_remove _ id space_id s.meeting_spaces (λ j e. (there, spaces j e))
          (All-mono _ _ s.meeting_spaces (λ e h ne. h) c.space_rows);
    project_meetings =
        All-put_or_remove _ id project_id s.meeting_projects (λ j e. there)
          (All-mono _ _ s.meeting_projects (λ e h ne. h) c.project_meetings);
    project_rows =
        All-put_or_remove _ id project_id s.meeting_projects given
          (All-mono _ _ s.meeting_projects kept c.project_rows);
    tag_rows = c.tag_rows;
    one_space = Distinct-put_or_remove id space_id s.meeting_spaces c.one_space;
    space_ids = c.space_ids;
    project_ids = c.project_ids;
    tag_ids = c.tag_ids;
  }
    where
      new_spaces : Dict Text
      new_spaces = put_or_remove id space_id s.meeting_spaces

      given : (j : Text) → project_id ≡ some j → InProjectSpace s.projects new_spaces (id, j)
      given j e =
          let (p, found, own) = projects j e in
          (p, found, found_back id p.space_id space_id s.meeting_spaces own)

      kept :
          (e : Text × Text)
          → InProjectSpace s.projects s.meeting_spaces e
          → text_eq e.0 id ≡ false
          → InProjectSpace s.projects new_spaces e
      kept e (p, found, in_space) ne =
          (p, found, lookup-put_other id e.0 space_id s.meeting_spaces ne ∙ in_space)

  none_missing :
      (space_id : Option Text)
      → space_missing space_id s ≡ none
      → (id : Text) → space_id ≡ some id
      → Has s.spaces id
  none_missing none h id e = cc
  none_missing (some j) h id e = elim (Bool-cases (contains_key j s.spaces)) [
    | inl there ↦ rw (← some_inj e) there
    | inr absent ↦ cc (rw absent at h)
  ]

  assign_space-IsConsistent :
      (id : Text) (space_id : Option Text)
      → Has s.meetings id
      → IsConsistent (assign_space id space_id s).1
  assign_space-IsConsistent id space_id there = elim (Option-cases (space_missing space_id s)) [
    | inr (j, e) ↦ rw (e, assign_space) c
    | inl e ↦
        rw (e, assign_space) (assigned id space_id none there (none_missing space_id e, λ j k. cc))
  ]

  project-Assignable :
      (project_id : Text) (p : Project)
      → lookup project_id s.projects ≡ some p
      → Assignable s (some p.space_id) (some p.id)
  project-Assignable project_id p e =
      let same : p.id ≡ project_id = lookup-All _ project_id s.projects p c.project_keys e in
      let known : Has s.spaces p.space_id =
        lookup-All _ project_id s.projects p c.project_spaces e in
      (
        (λ j k. rw (← some_inj k) known),
        (λ j k. (p, subst (λ i. lookup i s.projects ≡ some p) (sym same ∙ some_inj k) e, refl)),
      )

  pub assign_meeting-IsConsistent :
      (id : Text) (space_id project_id : Option Text)
      → IsConsistent (assign_meeting id space_id project_id s).1
  unfolding assign_meeting
  assign_meeting-IsConsistent id space_id none = elim (Bool-cases (contains_key id s.meetings)) [
    | inr absent ↦ rw absent c
    | inl there ↦ rw there (assign_space-IsConsistent id space_id there)
  ]
  assign_meeting-IsConsistent id space_id (some project_id) =
      elim (Bool-cases (contains_key id s.meetings)) [
        | inr absent ↦ rw absent c
        | inl there ↦ elim (Option-cases (lookup project_id s.projects)) [
          | inl e ↦ rw (there, e, assign_meeting) c
          | inr (p, e) ↦
              rw (there, e, assign_meeting)
                (assigned id (some p.space_id) (some p.id) there
                  (project-Assignable project_id p e))
        ]
      ]
