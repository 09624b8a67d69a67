-- ===== src/Storage/Memory/Listing.antt =====
-- What the filters of `list_meetings_filtered` select.
use panops.Storage.Memory.Notes.{list_notes_for_meeting}
use panops.Base.{
  Has-of_lookup, IsOrdered, List, Option, Text, ap, arith, contains_key, false, keep, lookup,
  lookup-All, map, none, ok, refl, some, some_inj, sort_by, sort_by-IsOrdered, sort_by-perm, sym,
  text_eq_iff, text_eq_refl, text_le_total, text_le_trans, true, values, ◌∙◌, ◌≡◌, Bool, any,
  text_eq, ℕ, ◌⊎◌, ◌↔◌, ◌&&◌, [], ◌∷◌, inl, inr, ok_inj, Bool-cases, Option-cases, Dict, not,
  contains_key-of_none, if◌then◌else◌,
}
use mathlib.Core.List.{Perm}
use panops.Storage.{Meeting, MeetingListFilter, MeetingSummary, Project, Note}
use panops.Storage.Memory.{Inner}
use panops.Storage.Memory.Meetings.{
  latest_first, list_meetings_filtered, passes, same_id, summary, unwrap_or, wanted, tagged,
}
use panops.Storage.Memory.Invariant.{IsConsistent}

-- What a filter asks where it is set.
abbrev pub Asks {ℓ} : {A : Type ℓ} → Option A → (A → Type 0) → Type 0
Asks none test = Unit
Asks (some a) test = test a

abbrev pub AsksIf : Bool → Type 0 → Type 0
AsksIf true test = test
AsksIf false test = Unit

-- The meeting stands in the space, in the project and under the tag of the filter, and in no space if
-- the filter is for unsorted meetings.
abbrev pub IsSelected : MeetingListFilter → Inner → Meeting → Type 0
IsSelected filter s m =
    AsksIf filter.unsorted (lookup m.id s.meeting_spaces ≡ none)
    × Asks filter.space_id (λ id. lookup m.id s.meeting_spaces ≡ some id)
    × Asks filter.project_id (λ id. lookup m.id s.meeting_projects ≡ some id)
    × Asks filter.tag_id (λ id.
      (ts : List Text) × (lookup m.id s.meeting_tags ≡ some ts)
      × (any (λ t. text_eq t id) ts ≡ true))

-- The meeting's own columns, where it is assigned, and whether a note is listed for it.
abbrev pub Summarises : Inner → Meeting → MeetingSummary → Type 0
Summarises s m x =
    ((x.id ≡ m.id) × (x.title ≡ m.title) × (x.started_at ≡ m.started_at))
    × ((x.ended_at ≡ m.ended_at) × (x.language ≡ m.language))
    × (((d : ℕ) × (m.duration_ms ≡ some d) × (x.duration_ms ≡ d))
        ⊎ ((m.duration_ms ≡ none) × (x.duration_ms ≡ 0)))
    × ((x.space_id ≡ lookup m.id s.meeting_spaces)
        × (x.project_id ≡ lookup m.id s.meeting_projects))
    × ((lookup m.id s.meeting_tags ≡ some x.tags)
        ⊎ ((lookup m.id s.meeting_tags ≡ none) × (x.tags ≡ [])))
    × ((x.has_notes ≡ false) ↔ ((list_notes_for_meeting m.id s).0 ≡ ok []))

any-keep {ℓ} : {A : Type ℓ} (p : A → Bool) (xs : List A) → (any p xs ≡ false) ↔ (keep p xs ≡ [])
any-keep p [] = (λ h. refl, λ h. refl)
any-keep p (x ∷ xs) = elim (Bool-cases (p x)) [
  | inl holds ↦ rw holds (λ h. cc, λ h. cc)
  | inr fails ↦ rw fails (any-keep p xs)
]

summary-Summarises : (s : Inner) (m : Meeting) → Summarises s m (summary s m)
unfolding summary list_notes_for_meeting
summary-Summarises s m =
    let notes = any-keep (λ (n : Note). text_eq n.meeting_id m.id) (values s.notes) in
    (
      (refl, refl, refl),
      (refl, refl),
      duration m.duration_ms,
      (refl, refl),
      tags (lookup m.id s.meeting_tags),
      (λ h. ap ok (notes.0 h), λ h. notes.1 (ok_inj h)),
    )
  where
    duration :
        (o : Option ℕ)
        → ((d : ℕ) × (o ≡ some d) × (unwrap_or o 0 ≡ d)) ⊎ ((o ≡ none) × (unwrap_or o 0 ≡ 0))
    duration none = inr (refl, refl)
    duration (some d) = inl (d, refl, refl)

    tags :
        (o : Option (List Text))
        → (o ≡ some (unwrap_or o [])) ⊎ ((o ≡ none) × (unwrap_or o [] ≡ []))
    tags none = inr (refl, refl)
    tags (some ts) = inl refl

wanted_iff :
    (o : Option Text) (test : Text → Bool) (Test : Text → Type 0)
    → ((id : Text) → (test id ≡ true) ↔ Test id)
    → (wanted o test ≡ true) ↔ Asks o Test
wanted_iff none test Test h = (λ e. tt, λ u. refl)
wanted_iff (some id) test Test h = h id

pub same_id-lookup : (o : Option Text) (id : Text) → same_id o id ≡ true → o ≡ some id
same_id-lookup none id h = cc
same_id-lookup (some j) id h = rw ((text_eq_iff j id).0 h) refl

same_id_iff : (o : Option Text) (id : Text) → (same_id o id ≡ true) ↔ (o ≡ some id)
same_id_iff o id = (same_id-lookup o id, λ e. rw e (text_eq_refl id))

tagged_iff :
    (o : Option (List Text)) (id : Text)
    → (tagged o id ≡ true)
      ↔ ((ts : List Text) × (o ≡ some ts) × (any (λ t. text_eq t id) ts ≡ true))
tagged_iff none id = (λ h. cc, λ h. let e = h.1 in cc)
tagged_iff (some ts) id = (λ h. (ts, refl, h), λ h. rw (some_inj h.1) h.2)

unsorted_iff :
    (asked : Bool) (m : Dict Text) (id : Text)
    → (not (asked && contains_key id m) ≡ true) ↔ AsksIf asked (lookup id m ≡ none)
unsorted_iff false m id = (λ h. tt, λ u. refl)
unsorted_iff true m id = elim (Option-cases (lookup id m)) [
  | inl e ↦ (λ h. e, λ h. rw (contains_key-of_none id m e) refl)
  | inr (v, e) ↦ (λ h. cc (rw (Has-of_lookup id m e) at h), λ h. cc)
]

both : (p q : Bool) → (p && q) ≡ true → (p ≡ true) × (q ≡ true)
both p q h = ground arith

passes_iff :
    (filter : MeetingListFilter) (s : Inner) (m : Meeting)
    → (passes filter s m ≡ true) ↔ IsSelected filter s m
unfolding passes
passes_iff filter s m =
    let sorted = filter.unsorted && contains_key m.id s.meeting_spaces in
    let a = wanted filter.space_id (same_id (lookup m.id s.meeting_spaces)) in
    let b = wanted filter.project_id (same_id (lookup m.id s.meeting_projects)) in
    let c = wanted filter.tag_id (tagged (lookup m.id s.meeting_tags)) in
    let u_iff = unsorted_iff filter.unsorted s.meeting_spaces m.id in
    let a_iff = wanted_iff filter.space_id _ _ (same_id_iff (lookup m.id s.meeting_spaces)) in
    let b_iff = wanted_iff filter.project_id _ _ (same_id_iff (lookup m.id s.meeting_projects)) in
    let c_iff = wanted_iff filter.tag_id _ _ (tagged_iff (lookup m.id s.meeting_tags)) in
    (
      λ h.
          let (hu, ha, hb, hc) = four sorted a b c h in
          (u_iff.0 hu, a_iff.0 ha, b_iff.0 hb, c_iff.0 hc),
      λ h. four_back sorted a b c (u_iff.1 h.0) (a_iff.1 h.1) (b_iff.1 h.2) (c_iff.1 h.3),
    )
  where
    four :
        (u a b c : Bool)
        → (if u then false else a && (b && c)) ≡ true
        → (not u ≡ true) × (a ≡ true) × (b ≡ true) × (c ≡ true)
    four u a b c h = ground arith

    four_back :
        (u a b c : Bool)
        → not u ≡ true
        → a ≡ true
        → b ≡ true
        → c ≡ true
        → (if u then false else a && (b && c)) ≡ true
    four_back u a b c hu ha hb hc = ground arith

-- The answer of `list_meetings_filtered` runs from the latest start to the earliest, and it is the
-- summaries of the meetings that pass the filter, in that order and each as often as it is stored. A
-- meeting passes exactly if it stands in the space, in the project and under the tag that the filter
-- names, and in no space if the filter is for unsorted meetings. A summary has the meeting's columns
-- and assignments, and it says that there are no notes exactly if `list_notes_for_meeting` lists
-- none. The tables stay as they are.
pub list_meetings_filtered-selects :
    (filter : MeetingListFilter) (s : Inner)
    → (out : List MeetingSummary) × (list_meetings_filtered filter s ≡ (ok out, s))
      × IsOrdered latest_first out
      × Perm out (map (summary s) (keep (passes filter s) (values s.meetings)))
      × ((m : Meeting)
          → ((passes filter s m ≡ true) ↔ IsSelected filter s m) × Summarises s m (summary s m))
unfolding list_meetings_filtered
list_meetings_filtered-selects filter s =
    let found = map (summary s) (keep (passes filter s) (values s.meetings)) in
    (
      sort_by latest_first found,
      refl,
      sort_by-IsOrdered latest_first
          (λ x y z h k. text_le_trans z.started_at y.started_at x.started_at k h)
          (λ x y h. text_le_total y.started_at x.started_at h) found,
      sort_by-perm latest_first found,
      λ m. (passes_iff filter s m, summary-Summarises s m),
    )

abbrev pub of_project : Text → MeetingListFilter
of_project id = record { space_id = none; project_id = some id; tag_id = none; unsorted = false }

abbrev pub of_space : Text → MeetingListFilter
of_space id = record { space_id = some id; project_id = none; tag_id = none; unsorted = false }

abbrev pub of_unsorted : MeetingListFilter
of_unsorted = record { space_id = none; project_id = none; tag_id = none; unsorted = true }

-- In consistent tables, a meeting that is listed for a project is listed for the project's space,
-- and it is not listed as unsorted.
pub passes-project :
    (s : Inner)
    → IsConsistent s
    → (id : Text) (p : Project) → lookup id s.projects ≡ some p
    → (m : Meeting) → passes (of_project id) s m ≡ true
    → (passes (of_space p.space_id) s m ≡ true) × (passes of_unsorted s m ≡ false)
unfolding passes
passes-project s c id p found m h =
    let given : lookup m.id s.meeting_projects ≡ some id =
      same_id-lookup (lookup m.id s.meeting_projects) id (ground arith) in
    let (q, known, in_space) = lookup-All _ m.id s.meeting_projects id c.project_rows given in
    let same : q ≡ p = some_inj (sym known ∙ found) in
    let stands : lookup m.id s.meeting_spaces ≡ some p.space_id =
      in_space ∙ ap (λ (r : Project). some r.space_id) same in
    let sorted : contains_key m.id s.meeting_spaces ≡ true =
      Has-of_lookup m.id s.meeting_spaces stands in
    (rw (stands, passes) (ground (arith, text_eq_refl p.space_id)), rw (sorted, passes) refl)
