-- ===== src/Storage/Memory/Forgetting.antt =====
-- What the deleting and replacing methods leave behind.
use panops.Storage.Memory.Tags.{list_tags_for_meeting}
use panops.Base.{
  All, All-mono, All-of, All-remove, All-retain, Bool, Bool-cases, Dict, List, Text, [], ap, arith,
  contains_key, contains_key-remove, err, false, inl, inr, insert, keep, lookup, lookup-All,
  lookup-remove, map, none, not, ok, refl, remove, retain, some, sort_by, subst, sym, text_eq,
  text_eq_refl, true, values, ◌∙◌, ◌∷◌, ◌≡◌, Result, All-sort_by,
}
use panops.Storage.{
  Meeting, Note, NoteDraft, meeting, not_found, StorageError, MeetingSummary, MeetingListFilter,
}
use panops.Storage.Memory.{Inner}
use panops.Storage.Memory.Meetings.{
  delete_meeting, get_meeting, latest_first, list_meetings_filtered, new_note, passes, summary,
}
use panops.Storage.Memory.Notes.{list_notes_for_meeting, replace_meeting_note}
use panops.Storage.Memory.Organize.{delete_space}
use panops.Storage.Memory.Clearing.{drop_projects_lem}
use panops.Storage.Memory.KeepsDeletes.{delete_space-IsConsistent}
use panops.Storage.Memory.Invariant.{IsConsistent}
use panops.Storage.Memory.Listing.{of_space, same_id-lookup}

keep_none {ℓ} :
    {A : Type ℓ} (p : A → Bool) (xs : List A) → All (λ x. p x ≡ false) xs → keep p xs ≡ []
keep_none p [] h = refl
keep_none p (x ∷ xs) h = rw h.0 (keep_none p xs h.1)

values-All {ℓ} : {V : Type ℓ} (P : V → Type 0) (m : Dict V) → All (λ e. P e.1) m → All P (values m)
unfolding values
values-All P [] h = tt
values-All P ((k, v) ∷ m) h = (h.0, values-All P m h.1)

-- Notes of other meetings only.
abbrev Elsewhere : Text → Note → Type 0
Elsewhere id n = text_eq n.meeting_id id ≡ false

retained :
    (id : Text) (m : Dict Note)
    → All (λ (e : Text × Note). Elsewhere id e.1) (retain (λ n. not (text_eq n.meeting_id id)) m)
retained id m =
    All-mono _ _ (retain (λ (n : Note). not (text_eq n.meeting_id id)) m)
      (λ e h. ground (arith, h.1))
      (All-retain (λ (e : Text × Note). Unit) _ m (All-of _ m (λ e. tt)))

abbrev gone : Text → Inner → Inner
gone id s = record s {
  meetings = remove id s.meetings;
  notes = retain (λ (n : Note). not (text_eq n.meeting_id id)) s.notes;
  meeting_tags = remove id s.meeting_tags;
  meeting_spaces = remove id s.meeting_spaces;
  meeting_projects = remove id s.meeting_projects;
}

delete_meeting_lem :
    (id : Text) (s : Inner)
    → contains_key id s.meetings ≡ true
    → delete_meeting id s ≡ (ok tt, gone id s)
unfolding delete_meeting
delete_meeting_lem id s there = rw (there, delete_meeting) refl

lookup-remove_self {ℓ} : {V : Type ℓ} (id : Text) (m : Dict V) → lookup id (remove id m) ≡ none
lookup-remove_self id m = lookup-remove id id m ∙ rw (text_eq_refl id) refl

-- No summary in the answer is of this meeting.
abbrev pub Omits : Text → Result StorageError (List MeetingSummary) → Type 0
Omits id (ok out) = All (λ (x : MeetingSummary). text_eq x.id id ≡ false) out
Omits id (err e) = ⊥

-- The answers about a meeting that the tables hold nothing of.
abbrev pub IsForgotten : Text → Inner → Type 0
IsForgotten id s =
    ((get_meeting id s).0 ≡ err (not_found id meeting))
    × ((list_notes_for_meeting id s).0 ≡ ok [])
    × ((list_tags_for_meeting id s).0 ≡ err (not_found id meeting))
    × ((filter : MeetingListFilter) → Omits id (list_meetings_filtered filter s).0)
    × (lookup id s.meeting_tags ≡ none)
    × (lookup id s.meeting_spaces ≡ none)
    × (lookup id s.meeting_projects ≡ none)

omitted :
    (id : Text) (s : Inner) (p : Meeting → Bool) (ms : List Meeting)
    → All (λ (m : Meeting). text_eq m.id id ≡ false) ms
    → All (λ (x : MeetingSummary). text_eq x.id id ≡ false) (map (summary s) (keep p ms))
unfolding summary
omitted id s p [] h = tt
omitted id s p (m ∷ ms) h = elim (Bool-cases (p m)) [
  | inl passed ↦ rw passed (h.0, omitted id s p ms h.1)
  | inr failed ↦ rw failed (omitted id s p ms h.1)
]

-- Rows that are filed under their ids: without the entry of an id, no row has it.
others_left :
    (id : Text) (m : Dict Meeting)
    → All (λ (e : Text × Meeting). e.1.id ≡ e.0) m
    → All (λ (x : Meeting). text_eq x.id id ≡ false) (values (remove id m))
others_left id m keys =
    values-All (λ (x : Meeting). text_eq x.id id ≡ false) (remove id m)
      (All-mono _ _ (remove id m) (λ e h. ap (λ k. text_eq k id) h.0 ∙ h.1)
        (All-remove (λ (e : Text × Meeting). e.1.id ≡ e.0) id m keys))

gone-Omits :
    (id : Text) (s : Inner)
    → IsConsistent s
    → (filter : MeetingListFilter) → Omits id (list_meetings_filtered filter (gone id s)).0
unfolding list_meetings_filtered
gone-Omits id s c filter =
    All-sort_by latest_first (λ (x : MeetingSummary). text_eq x.id id ≡ false) _
      (omitted id (gone id s) (passes filter (gone id s)) (values (remove id s.meetings))
        (others_left id s.meetings c.meeting_keys))

gone-IsForgotten : (id : Text) (s : Inner) → IsConsistent s → IsForgotten id (gone id s)
unfolding get_meeting list_notes_for_meeting list_tags_for_meeting
gone-IsForgotten id s c = (
  rw (lookup-remove_self id s.meetings, get_meeting) refl,
  ap ok (keep_none _ _ (values-All (Elsewhere id) _ (retained id s.notes))),
  rw (contains_key-remove id id s.meetings) (rw (text_eq_refl id) refl),
  gone-Omits id s c,
  lookup-remove_self id s.meeting_tags,
  lookup-remove_self id s.meeting_spaces,
  lookup-remove_self id s.meeting_projects,
)

-- Whatever the tables, the deleted meeting is not found.
pub get_meeting-delete_meeting :
    (id : Text) (s : Inner)
    → contains_key id s.meetings ≡ true
    → (get_meeting id (delete_meeting id s).1).0 ≡ err (not_found id meeting)
unfolding get_meeting
get_meeting-delete_meeting id s there =
    subst (λ r. (get_meeting id r.1).0 ≡ err (not_found id meeting))
      (sym (delete_meeting_lem id s there))
      (rw (lookup-remove_self id s.meetings, get_meeting) refl)

-- On consistent tables, `delete_meeting` of a meeting that exists succeeds, and afterwards the meeting
-- is not found by `get_meeting` and `list_tags_for_meeting`, no note is listed for it, it is in no list
-- of meetings whatever the filter, and it has no tags, space or project left.
pub delete_meeting-IsForgotten :
    (id : Text) (s : Inner)
    → IsConsistent s
    → contains_key id s.meetings ≡ true
    → ((delete_meeting id s).0 ≡ ok tt) × IsForgotten id (delete_meeting id s).1
delete_meeting-IsForgotten id s c there = (
  ap (λ r. r.0) (delete_meeting_lem id s there),
  subst (λ r. IsForgotten id r.1) (sym (delete_meeting_lem id s there)) (gone-IsForgotten id s c),
)

replaced_notes : Text → NoteDraft → Text → Dict Note → Dict Note
replaced_notes id d now m =
    insert d.id (new_note d now) (retain (λ (n : Note). not (text_eq n.meeting_id id)) m)

only_note :
    (id : Text) (d : NoteDraft) (now : Text) (m : Dict Note)
    → text_eq d.meeting_id id ≡ true
    → keep (λ (n : Note). text_eq n.meeting_id id) (values (replaced_notes id d now m))
      ≡ new_note d now ∷ []
unfolding replaced_notes values insert
only_note id d now m same = rw same (
    ap (λ r. new_note d now ∷ r)
      (keep_none (λ (n : Note). text_eq n.meeting_id id) _
        (values-All (Elsewhere id) _ (
          All-mono _ _ (remove d.id (retain (λ (n : Note). not (text_eq n.meeting_id id)) m))
            (λ e h. h.0) (All-remove _ d.id _ (retained id m))))))

replaced :
    (id : Text) (d : NoteDraft) (now : Text) (s : Inner) (n : Note)
    → (replace_meeting_note id d now s).0 ≡ ok n
    → (text_eq d.meeting_id id ≡ true)
      × ((replace_meeting_note id d now s).1.notes ≡ replaced_notes id d now s.notes)
      × (n ≡ new_note d now)
unfolding replace_meeting_note replaced_notes
replaced id d now s n h = ground arith

-- When `replace_meeting_note` succeeds, its note is the only one that is listed for the meeting.
pub replace_meeting_note-lists :
    (id : Text) (d : NoteDraft) (now : Text) (s : Inner) (n : Note)
    → (replace_meeting_note id d now s).0 ≡ ok n
    → (list_notes_for_meeting id (replace_meeting_note id d now s).1).0 ≡ ok (n ∷ [])
unfolding list_notes_for_meeting
replace_meeting_note-lists id d now s n h =
    let (same, notes, written) = replaced id d now s n h in
    rw (notes, written) (ap ok (only_note id d now s.notes same))

-- No meeting stands in a space that does not exist.
passes-absent :
    (id : Text) (s : Inner)
    → IsConsistent s
    → contains_key id s.spaces ≡ false
    → (m : Meeting) → passes (of_space id) s m ≡ false
unfolding passes
passes-absent id s c absent m = elim (Bool-cases (passes (of_space id) s m)) [
  | inr fails ↦ fails
  | inl holds ↦
      let given : lookup m.id s.meeting_spaces ≡ some id =
        same_id-lookup (lookup m.id s.meeting_spaces) id (ground arith) in
      let there = (lookup-All _ m.id s.meeting_spaces id c.space_rows given).1 in cc (there, absent)
]

space_absent : (id : Text) (s : Inner) → contains_key id (delete_space id s).1.spaces ≡ false
unfolding delete_space
space_absent id s = elim (Bool-cases (contains_key id s.spaces)) [
  | inr absent ↦ rw (absent, delete_space) absent
  | inl there ↦
      rw (there, delete_space)
        (rw (drop_projects_lem _ (record s { spaces = remove id s.spaces }))
          (contains_key-remove id id s.spaces ∙ rw (text_eq_refl id) refl))
]

-- After `delete_space` on consistent tables, no meeting is listed for that space.
pub delete_space-unlists :
    (id : Text) (s : Inner)
    → IsConsistent s
    → (list_meetings_filtered (of_space id) (delete_space id s).1).0 ≡ ok []
unfolding list_meetings_filtered sort_by
delete_space-unlists id s c =
    let after = (delete_space id s).1 in
    let none_passes =
      keep_none (passes (of_space id) after) (values after.meetings) (
        All-of _ _ (passes-absent id after (delete_space-IsConsistent c id) (space_absent id s))) in
    ap (λ ms. ok (sort_by latest_first (map (summary after) ms))) none_passes
