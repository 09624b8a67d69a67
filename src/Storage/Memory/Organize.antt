-- ===== src/Storage/Memory/Organize.antt =====
-- The space and project methods of `InMemoryStorage`.
use panops.Base.{
  Bool, Dict, List, Option, Text, [], codes, contains_key, decimal, err, false, if◌then◌else◌,
  insert, keep, ltb, map, max, modify, none, ok, remove, remove_keys, some, sort_by, text_eq,
  text_le, text_lt, true, values, ℕ, ◌&&◌, ◌++◌, ◌==◌, ◌||◌, ◌∷◌, add64,
}
use panops.Storage.{Project, Space, not_found, project, space}
use panops.Storage.Memory.{Inner, Outcome}

-- `values.max().map_or(0, |v| v + 1)`; positions count up from 0.
abbrev max_of : List ℕ → Option ℕ → Option ℕ
max_of [] best = best
max_of (v ∷ vs) best = max_of vs (elim best [ none ↦ some v | some b ↦ some (max b v) ])

unfoldable pub next_position : List ℕ → ℕ
next_position vs = elim (max_of vs none) [ none ↦ 0 | some v ↦ add64 v 1 ]

-- `format!("space_{}", n)` and its kin.
abbrev pub numbered : Text → ℕ → Text
numbered prefix n = prefix ++ decimal n

abbrev pub space_prefix : Text
space_prefix = codes "space_"

abbrev pub project_prefix : Text
project_prefix = codes "project_"

-- `clear_space_assignments` and `clear_project_assignments`: the keys whose value is `id`, and the
-- map without them.
unfoldable pub keys_with : Text → Dict Text → List Text
keys_with id [] = []
keys_with id ((k, v) ∷ m) = if text_eq v id then k ∷ keys_with id m else keys_with id m

unfoldable pub clear_assignments : Text → Dict Text → Dict Text
unfolding keys_with
clear_assignments id m = remove_keys (keys_with id m) m

unfoldable pub create_space : Text → Inner → Outcome Space
unfolding next_position
create_space name inner =
    let row : Space = record {
      id = numbered space_prefix inner.next_space_id;
      name = name;
      position = next_position (map (λ (s : Space). s.position) (values inner.spaces));
    } in
    (
      ok row,
      record inner {
        next_space_id = add64 inner.next_space_id 1;
        spaces = insert (numbered space_prefix inner.next_space_id) row inner.spaces;
      },
    )

abbrev pub space_order : Space → Space → Bool
space_order a b = ltb a.position b.position || (a.position == b.position && text_le a.name b.name)

unfoldable pub list_spaces : Inner → Outcome (List Space)
list_spaces inner = (ok (sort_by space_order (values inner.spaces)), inner)

unfoldable pub rename_space : Text → Text → Inner → Outcome (Unit {0})
rename_space id name inner = elim (contains_key id inner.spaces) [
  | false ↦ (err (not_found id space), inner)
  | true ↦ (
    ok tt,
    record inner { spaces = modify id (λ (s : Space). record s { name = name }) inner.spaces },
  )
]

-- `for project_id in project_ids { … }` of `delete_space`.
unfoldable pub drop_projects : List Text → Inner → Inner
unfolding clear_assignments
drop_projects [] inner = inner
drop_projects (id ∷ ids) inner = drop_projects ids (record inner {
  projects = remove id inner.projects;
  meeting_projects = clear_assignments id inner.meeting_projects;
})

unfoldable pub delete_space : Text → Inner → Outcome (Unit {0})
unfolding drop_projects
delete_space id inner = elim (contains_key id inner.spaces) [
  | false ↦ (err (not_found id space), inner)
  | true ↦
      let project_ids =
        map (λ (p : Project). p.id)
          (keep (λ (p : Project). text_eq p.space_id id) (values inner.projects)) in
      let dropped = drop_projects project_ids (record inner { spaces = remove id inner.spaces }) in
      (ok tt, record dropped { meeting_spaces = clear_assignments id dropped.meeting_spaces })
]

unfoldable pub create_project : Text → Text → Inner → Outcome Project
unfolding next_position
create_project space_id name inner = elim (contains_key space_id inner.spaces) [
  | false ↦ (err (not_found space_id space), inner)
  | true ↦
      let row : Project = record {
        id = numbered project_prefix inner.next_project_id;
        space_id = space_id;
        name = name;
        position = next_position (
            map (λ (p : Project). p.position)
              (keep (λ (p : Project). text_eq p.space_id space_id) (values inner.projects)));
      } in
      (
        ok row,
        record inner {
          next_project_id = add64 inner.next_project_id 1;
          projects = insert (numbered project_prefix inner.next_project_id) row inner.projects;
        },
      )
]

abbrev pub project_order : Project → Project → Bool
project_order a b =
    text_lt a.space_id b.space_id
    || (text_eq a.space_id b.space_id
        && (ltb a.position b.position || (a.position == b.position && text_le a.name b.name)))

abbrev in_space : Option Text → Project → Bool
in_space none p = true
in_space (some s) p = text_eq p.space_id s

unfoldable pub list_projects : Option Text → Inner → Outcome (List Project)
list_projects space_id inner =
    (ok (sort_by project_order (keep (in_space space_id) (values inner.projects))), inner)

unfoldable pub rename_project : Text → Text → Inner → Outcome (Unit {0})
rename_project id name inner = elim (contains_key id inner.projects) [
  | false ↦ (err (not_found id project), inner)
  | true ↦ (
    ok tt,
    record inner {
      projects = modify id (λ (p : Project). record p { name = name }) inner.projects;
    },
  )
]

unfoldable pub delete_project : Text → Inner → Outcome (Unit {0})
unfolding clear_assignments
delete_project id inner = elim (contains_key id inner.projects) [
  | false ↦ (err (not_found id project), inner)
  | true ↦ (
    ok tt,
    record inner {
      projects = remove id inner.projects;
      meeting_projects = clear_assignments id inner.meeting_projects;
    },
  )
]
