-- ===== src/Storage/Memory.antt =====
-- `InMemoryStorage` of crates/panops-core/src/conformance/fakes.rs: its tables and what each method
-- does to them. A method takes the tables and returns its result with the tables after it. The time
-- of day is an argument of the methods that read it.
pub mod Meetings
pub mod Notes
pub mod Organize
pub mod Tags
pub mod Assign
pub mod Invariant
pub mod KeepsMeetings
pub mod KeepsNotes
pub mod KeepsSpaces
pub mod Clearing
pub mod KeepsDeletes
pub mod KeepsTags
pub mod KeepsAssign
pub mod Operations
pub mod Listing
pub mod Forgetting
pub mod Filed
use panops.Base.{Dict, List, Result, Text, [], ℕ}
use panops.Storage.{Meeting, Note, Project, Space, StorageError, Tag}

pub record Inner : Type 0 where
  pub meetings : Dict Meeting
  pub notes : Dict Note
  pub spaces : Dict Space
  pub projects : Dict Project
  pub tags : Dict Tag
  pub meeting_tags : Dict (List Text)
  pub meeting_spaces : Dict Text
  pub meeting_projects : Dict Text
  pub next_space_id : ℕ
  pub next_project_id : ℕ
  pub next_tag_id : ℕ

abbrev pub new : Inner
new = record {
  meetings = [];
  notes = [];
  spaces = [];
  projects = [];
  tags = [];
  meeting_tags = [];
  meeting_spaces = [];
  meeting_projects = [];
  next_space_id = 1;
  next_project_id = 1;
  next_tag_id = 1;
}

-- A method's result and the tables that it leaves.
abbrev pub Outcome : Type 0 → Type 0
Outcome A = Result StorageError A × Inner
