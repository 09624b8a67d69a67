-- ===== src/Storage/Memory/Tags.antt =====
-- The tag methods of `InMemoryStorage`.
use panops.Base.{
  Bool, Dict, List, Option, Text, [], any, codes, contains_key, err, false, if◌then◌else◌, insert,
  keep, lookup, modify, none, not, ok, remove, some, sort_by, text_eq, text_le, text_lt, true,
  values, ◌&&◌, ◌++◌, ◌||◌, ◌∷◌, add64,
}
use panops.Storage.{Tag, meeting, not_found, tag}
use panops.Storage.Memory.{Inner, Outcome}
use panops.Storage.Memory.Organize.{numbered}

abbrev pub tag_prefix : Text
tag_prefix = codes "tag_"

-- `inner.tags.values().find(|t| t.name == name)`
unfoldable pub find_tag : Text → List Tag → Option Tag
find_tag name [] = none
find_tag name (t ∷ ts) = if text_eq t.name name then some t else find_tag name ts

unfoldable pub create_tag : Text → Inner → Outcome Tag
unfolding find_tag
create_tag name inner = elim (find_tag name (values inner.tags)) [
  | some existing ↦ (ok existing, inner)
  | none ↦
      let row : Tag = record { id = numbered tag_prefix inner.next_tag_id; name = name } in
      (
        ok row,
        record inner {
          next_tag_id = add64 inner.next_tag_id 1;
          tags = insert (numbered tag_prefix inner.next_tag_id) row inner.tags;
        },
      )
]

abbrev pub tag_order : Tag → Tag → Bool
tag_order a b = text_lt a.name b.name || (text_eq a.name b.name && text_le a.id b.id)

unfoldable pub list_tags : Inner → Outcome (List Tag)
list_tags inner = (ok (sort_by tag_order (values inner.tags)), inner)

abbrev pub without : Text → List Text → List Text
without id = keep (λ t. not (text_eq t id))

-- `for tag_ids in values_mut() { tag_ids.retain(..) }`
unfoldable pub untag_all : Text → Dict (List Text) → Dict (List Text)
untag_all id [] = []
untag_all id ((k, ts) ∷ m) = (k, without id ts) ∷ untag_all id m

unfoldable pub delete_tag : Text → Inner → Outcome (Unit {0})
unfolding untag_all
delete_tag id inner = elim (contains_key id inner.tags) [
  | false ↦ (err (not_found id tag), inner)
  | true ↦ (
    ok tt,
    record inner { tags = remove id inner.tags; meeting_tags = untag_all id inner.meeting_tags },
  )
]

abbrev pub tags_of : Option (List Text) → List Text
tags_of none = []
tags_of (some ts) = ts

unfoldable pub add_tag : Text → List Text → List Text
add_tag tag_id ts =
    if any (λ t. text_eq t tag_id) ts then ts else sort_by text_le (ts ++ tag_id ∷ [])

unfoldable pub tag_meeting : Text → Text → Inner → Outcome (Unit {0})
unfolding add_tag
tag_meeting meeting_id tag_id inner =
    if not (contains_key meeting_id inner.meetings)
    then (err (not_found meeting_id meeting), inner)
    else if not (contains_key tag_id inner.tags)
    then (err (not_found tag_id tag), inner)
    else (
      ok tt,
      record inner {
        meeting_tags =
            insert meeting_id (add_tag tag_id (tags_of (lookup meeting_id inner.meeting_tags)))
              inner.meeting_tags;
      },
    )

unfoldable pub untag_meeting : Text → Text → Inner → Outcome (Unit {0})
untag_meeting meeting_id tag_id inner =
    if not (contains_key meeting_id inner.meetings)
    then (err (not_found meeting_id meeting), inner)
    else if not (contains_key tag_id inner.tags)
    then (err (not_found tag_id tag), inner)
    else (
      ok tt,
      record inner { meeting_tags = modify meeting_id (without tag_id) inner.meeting_tags },
    )

-- `filter_map(|tag_id| inner.tags.get(tag_id))`
unfoldable pub tags_named : List Text → Dict Tag → List Tag
tags_named [] tags = []
tags_named (id ∷ ids) tags = elim (lookup id tags) [
  | none ↦ tags_named ids tags
  | some t ↦ t ∷ tags_named ids tags
]

unfoldable pub list_tags_for_meeting : Text → Inner → Outcome (List Tag)
unfolding tags_named
list_tags_for_meeting meeting_id inner =
    if not (contains_key meeting_id inner.meetings)
    then (err (not_found meeting_id meeting), inner)
    else (
      ok (
          sort_by tag_order
            (tags_named (tags_of (lookup meeting_id inner.meeting_tags)) inner.tags)),
      inner,
    )
