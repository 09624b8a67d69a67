-- ===== src/Storage/Memory/Invariant.antt =====
-- What holds of the tables between two calls of `InMemoryStorage`: the constraints that the SQL
-- schema declares for the other adapter.
use panops.Base.{All, Dict, Distinct, Has, List, Text, lookup, some, ℕ, ◌<◌, ◌≡◌}
use panops.Storage.{Meeting, Note, Project}
use panops.Storage.Memory.{Inner, new}
use panops.Storage.Memory.Organize.{numbered, project_prefix, space_prefix}
use panops.Storage.Memory.Tags.{tag_prefix}

-- The key of a numbered row is its prefix with a number that has been given out.
abbrev pub Issued {ℓ} : {V : Type ℓ} → Text → ℕ → Text × V → Type 0
Issued prefix next e = (n : ℕ) × (n < next) × (e.0 ≡ numbered prefix n)

-- A meeting that is assigned to a project stands in that project's space.
abbrev pub InProjectSpace : Dict Project → Dict Text → Text × Text → Type 0
InProjectSpace projects meeting_spaces e =
    (p : Project) × (lookup e.1 projects ≡ some p) × (lookup e.0 meeting_spaces ≡ some p.space_id)

pub record IsConsistent (s : Inner) : Type 0 where
  -- A row is filed under its own id.
  pub meeting_keys : All (λ (e : Text × Meeting). e.1.id ≡ e.0) s.meetings
  pub project_keys : All (λ (e : Text × Project). e.1.id ≡ e.0) s.projects
  -- Every reference leads to a row.
  pub note_meetings : All (λ (e : Text × Note). Has s.meetings e.1.meeting_id) s.notes
  pub project_spaces : All (λ (e : Text × Project). Has s.spaces e.1.space_id) s.projects
  pub space_rows : All (λ e. Has s.meetings e.0 × Has s.spaces e.1) s.meeting_spaces
  pub project_meetings : All (λ (e : Text × Text). Has s.meetings e.0) s.meeting_projects
  pub project_rows : All (InProjectSpace s.projects s.meeting_spaces) s.meeting_projects
  pub tag_rows :
      All (λ (e : Text × List Text). Has s.meetings e.0 × All (Has s.tags) e.1) s.meeting_tags
  -- Each meeting has one space, and the numbered ids are not used ahead of their counters.
  pub one_space : Distinct s.meeting_spaces
  pub space_ids : All (Issued space_prefix s.next_space_id) s.spaces
  pub project_ids : All (Issued project_prefix s.next_project_id) s.projects
  pub tag_ids : All (Issued tag_prefix s.next_tag_id) s.tags

pub new-IsConsistent : IsConsistent new
new-IsConsistent = record {
  meeting_keys = tt;
  project_keys = tt;
  note_meetings = tt;
  project_spaces = tt;
  space_rows = tt;
  project_meetings = tt;
  project_rows = tt;
  tag_rows = tt;
  one_space = tt;
  space_ids = tt;
  project_ids = tt;
  tag_ids = tt;
}
