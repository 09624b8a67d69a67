-- ===== src/Storage/Memory/KeepsTags.antt =====
-- The tag methods keep the tables consistent.
use panops.Base.{
  All, All-append, All-insert, All-keep, All-modify, All-mono, All-remove, All-sort_by, Bool-cases,
  Dict, Has, Has-insert, List, Option-cases, Text, [], any, contains_key, contains_key-remove, inl,
  inr, insert, lookup, lookup-All, modify, remove, text_eq, text_eq_sym, text_le, values, ◌++◌, ◌+◌,
  ◌∙◌, ◌∷◌, add64, u64_mod, ◌<◌,
}
use panops.Storage.{Tag}
use panops.Storage.Memory.{Inner, new}
use panops.Storage.Memory.Organize.{numbered}
use panops.Storage.Memory.Tags.{
  add_tag, create_tag, delete_tag, find_tag, tag_meeting, tag_prefix, tags_of, untag_all,
  untag_meeting, without,
}
use panops.Storage.Memory.Invariant.{IsConsistent}
use panops.Storage.Memory.KeepsSpaces.{add_numbered}

-- A row of the tag table: a meeting and tags that exist.
abbrev TagRow : Inner → Text × List Text → Type 0
TagRow s e = Has s.meetings e.0 × All (Has s.tags) e.1

set_tags-IsConsistent :
    {s : Inner} (rows : Dict (List Text))
    → IsConsistent s
    → All (TagRow s) rows
    → IsConsistent (record s { meeting_tags = rows })
set_tags-IsConsistent rows c h = record {
  meeting_keys = c.meeting_keys;
  project_keys = c.project_keys;
  note_meetings = c.note_meetings;
  project_spaces = c.project_spaces;
  space_rows = c.space_rows;
  project_meetings = c.project_meetings;
  project_rows = c.project_rows;
  tag_rows = h;
  one_space = c.one_space;
  space_ids = c.space_ids;
  project_ids = c.project_ids;
  tag_ids = c.tag_ids;
}

-- Every key but `id` that satisfied a test on the table `m` is a key of the table without it.
without-All :
    (id : Text) (m : Dict Tag) (ts : List Text)
    → All (Has m) ts
    → All (Has (remove id m)) (without id ts)
without-All id m [] h = tt
without-All id m (t ∷ ts) h = elim (Bool-cases (text_eq t id)) [
  | inl same ↦ rw same (without-All id m ts h.1)
  | inr other ↦
      rw other
        (contains_key-remove id t m ∙ rw (text_eq_sym id t ∙ other) h.0, without-All id m ts h.1)
]

untag_all-All :
    (id : Text) (s : Inner) (m : Dict (List Text))
    → All (TagRow s) m
    → All (λ e. Has s.meetings e.0 × All (Has (remove id s.tags)) e.1) (untag_all id m)
unfolding untag_all
untag_all-All id s [] h = tt
untag_all-All id s ((k, ts) ∷ m) h =
    ((h.0.0, without-All id s.tags ts h.0.1), untag_all-All id s m h.1)

All-of_lookup :
    (s : Inner) (k : Text)
    → All (TagRow s) s.meeting_tags
    → All (Has s.tags) (tags_of (lookup k s.meeting_tags))
All-of_lookup s k h = elim (Option-cases (lookup k s.meeting_tags)) [
  | inl e ↦ rw e tt
  | inr (ts, e) ↦ rw e (lookup-All (TagRow s) k s.meeting_tags ts h e).1
]

add_tag-All :
    (P : Text → Type 0) (id : Text) (ts : List Text) → P id → All P ts → All P (add_tag id ts)
unfolding add_tag
add_tag-All P id ts p h = elim (Bool-cases (any (λ t. text_eq t id) ts)) [
  | inl there ↦ rw there h
  | inr new ↦ rw new (All-sort_by text_le P (ts ++ id ∷ []) (All-append P ts (id ∷ []) h (p, tt)))
]

module _ {s : Inner} (c : IsConsistent s) where
  pub create_tag-IsConsistent :
      s.next_tag_id + 1 < u64_mod → (name : Text) → IsConsistent (create_tag name s).1
  unfolding create_tag
  create_tag-IsConsistent small name = elim (Option-cases (find_tag name (values s.tags))) [
    | inr (t, e) ↦ rw (e, create_tag) c
    | inl e ↦ rw (e, create_tag) created
  ]
    where
      id : Text
      id = numbered tag_prefix s.next_tag_id

      row : Tag
      row = record { id = id; name = name }

      created :
          IsConsistent
            (record s { next_tag_id = add64 s.next_tag_id 1; tags = insert id row s.tags })
      created = record {
        meeting_keys = c.meeting_keys;
        project_keys = c.project_keys;
        note_meetings = c.note_meetings;
        project_spaces = c.project_spaces;
        space_rows = c.space_rows;
        project_meetings = c.project_meetings;
        project_rows = c.project_rows;
        tag_rows =
            All-mono _ _ s.meeting_tags
              (λ e h. (h.0, All-mono _ _ e.1 (λ t k. Has-insert id row s.tags t k) h.1)) c.tag_rows;
        one_space = c.one_space;
        space_ids = c.space_ids;
        project_ids = c.project_ids;
        tag_ids = add_numbered tag_prefix s.next_tag_id row s.tags small c.tag_ids;
      }

  pub delete_tag-IsConsistent : (id : Text) → IsConsistent (delete_tag id s).1
  unfolding delete_tag
  delete_tag-IsConsistent id = elim (Bool-cases (contains_key id s.tags)) [
    | inr absent ↦ rw (absent, delete_tag) c
    | inl there ↦
        rw (there, delete_tag)
          (record {
            meeting_keys = c.meeting_keys;
            project_keys = c.project_keys;
            note_meetings = c.note_meetings;
            project_spaces = c.project_spaces;
            space_rows = c.space_rows;
            project_meetings = c.project_meetings;
            project_rows = c.project_rows;
            tag_rows = untag_all-All id s s.meeting_tags c.tag_rows;
            one_space = c.one_space;
            space_ids = c.space_ids;
            project_ids = c.project_ids;
            tag_ids =
                All-mono _ _ (remove id s.tags) (λ e h. h.0) (All-remove _ id s.tags c.tag_ids);
          })
  ]

  pub tag_meeting-IsConsistent : (id tag_id : Text) → IsConsistent (tag_meeting id tag_id s).1
  unfolding tag_meeting
  tag_meeting-IsConsistent id tag_id = elim (Bool-cases (contains_key id s.meetings)) [
    | inr absent ↦ rw absent c
    | inl there ↦ elim (Bool-cases (contains_key tag_id s.tags)) [
      | inr absent ↦ rw (there, absent) c
      | inl known ↦
          let tags = add_tag tag_id (tags_of (lookup id s.meeting_tags)) in
          rw (there, known)
            (set_tags-IsConsistent (insert id tags s.meeting_tags) c (
              All-insert _ id tags s.meeting_tags
                (there, add_tag-All (Has s.tags) tag_id _ known (All-of_lookup s id c.tag_rows))
                c.tag_rows))
    ]
  ]

  pub untag_meeting-IsConsistent : (id tag_id : Text) → IsConsistent (untag_meeting id tag_id s).1
  unfolding untag_meeting
  untag_meeting-IsConsistent id tag_id = elim (Bool-cases (contains_key id s.meetings)) [
    | inr absent ↦ rw absent c
    | inl there ↦ elim (Bool-cases (contains_key tag_id s.tags)) [
      | inr absent ↦ rw (there, absent) c
      | inl known ↦
          rw (there, known)
            (set_tags-IsConsistent (modify id (without tag_id) s.meeting_tags) c (
              All-modify _ id (without tag_id) s.meeting_tags (λ j ts h. (h.0, All-keep _ _ ts h.1))
                c.tag_rows))
    ]
  ]
