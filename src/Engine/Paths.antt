-- ===== src/Engine/Paths.antt =====
-- File paths as `std::path` reads them on Unix, and the checks of paths and ids in
-- crates/panops-engine/src/server/handlers.rs. The file system is an argument.
pub mod Components
use panops.Base.{
  Bool, List, Option, Result, Text, [], any, codes, err, false, if◌then◌else◌, none, not, ok, some,
  text_eq, true, ℕ, ◌&&◌, ◌++◌, ◌==◌, ◌||◌, ◌∷◌,
}
use panops.Protocol.{IpcError}

pub data Component : Type 0 where
  root_dir cur_dir parent_dir : Component
  normal : Text → Component

-- The pieces between the slashes.
abbrev pub prepend : ℕ → List Text → List Text
prepend c [] = (c ∷ []) ∷ []
prepend c (piece ∷ pieces) = (c ∷ piece) ∷ pieces

unfoldable pub pieces : Text → List Text
pieces [] = [] ∷ []
pieces (c ∷ s) = let rest = pieces s in if c == b'/' then [] ∷ rest else prepend c rest

-- Empty pieces and single dots do not count.
unfoldable pub component : Text → List Component
component piece =
    if text_eq piece [] || text_eq piece (codes ".")
    then []
    else if text_eq piece (codes "..")
    then parent_dir ∷ []
    else normal piece ∷ []

unfoldable pub body : List Text → List Component
unfolding component
body [] = []
body (piece ∷ rest) = component piece ++ body rest

-- At the front a slash is the root, and a dot is the current directory.
unfoldable pub front : List Text → List Component
unfolding body
front [] = []
front (piece ∷ []) = if text_eq piece (codes ".") then cur_dir ∷ [] else component piece
front (piece ∷ next ∷ rest) =
    if text_eq piece []
    then root_dir ∷ body (next ∷ rest)
    else if text_eq piece (codes ".")
    then cur_dir ∷ body (next ∷ rest)
    else body (piece ∷ next ∷ rest)

-- `Path::components`
unfoldable pub components : Text → List Component
unfolding front pieces
components path = front (pieces path)

abbrev pub component_eq : Component → Component → Bool
component_eq root_dir root_dir = true
component_eq cur_dir cur_dir = true
component_eq parent_dir parent_dir = true
component_eq (normal s) (normal t) = text_eq s t
component_eq _ _ = false

unfoldable pub is_prefix : List Component → List Component → Bool
is_prefix [] ds = true
is_prefix (c ∷ cs) [] = false
is_prefix (c ∷ cs) (d ∷ ds) = component_eq c d && is_prefix cs ds

-- `Path::starts_with`
unfoldable pub starts_with : Text → Text → Bool
unfolding components is_prefix
starts_with path base = is_prefix (components base) (components path)

unfoldable pub is_absolute : Text → Bool
is_absolute [] = false
is_absolute (c ∷ s) = c == b'/'

unfoldable pub ends_with_slash : Text → Bool
ends_with_slash [] = false
ends_with_slash (c ∷ []) = c == b'/'
ends_with_slash (c ∷ d ∷ s) = ends_with_slash (d ∷ s)

-- `Path::join`
unfoldable pub join : Text → Text → Text
unfolding is_absolute ends_with_slash
join base path =
    if is_absolute path
    then path
    else if text_eq base [] || ends_with_slash base
    then base ++ path
    else base ++ b'/' ∷ path

-- What the file system answers about paths, and whether what is asked of it succeeds.
pub data Answer : Type 0 where
  found : ℕ → Answer
  absent : Answer
  failed : Answer

pub record Disk : Type 0 where
  pub exists : Text → Bool
  pub canonicalize : Text → Option Text
  pub create_dir_all : Text → Bool
  pub remove_dir_all : Text → Bool
  pub write : Text → Bool
  pub rename : Text → Text → Bool
  pub metadata : Text → Answer
  pub remove_file : Text → Answer

abbrev pub registry_path_invalid : IpcError
registry_path_invalid = IpcError.internal (codes "registry path invalid")

unfoldable pub allowed_root : Text → Text
allowed_root data_dir = join data_dir (codes "meetings")

-- The root where `meetings` is no link; the root as it is written where it cannot be resolved.
unfoldable pub canonical_root : Disk → Text → Text
canonical_root disk data_dir = elim (disk.canonicalize (allowed_root data_dir)) [
  | none ↦ allowed_root data_dir
  | some root ↦ root
]

unfoldable pub validate_resolved : Disk → Text → Text → Result IpcError Text
validate_resolved disk data_dir dir_path = elim (disk.canonicalize dir_path) [
  | none ↦ err registry_path_invalid
  | some dir ↦
      if starts_with dir (canonical_root disk data_dir)
      then ok dir_path
      else err registry_path_invalid
]

unfoldable pub validate_meeting_dir : Disk → Text → Text → Result IpcError Text
validate_meeting_dir disk data_dir dir_path =
    if not (starts_with dir_path (allowed_root data_dir))
    then err registry_path_invalid
    else if disk.exists dir_path
    then validate_resolved disk data_dir dir_path
    else ok dir_path

abbrev has_slash : Text → Bool
has_slash id = any (λ c. c == b'/') id || any (λ c. c == 92) id

abbrev single : List Component → Bool
single (normal s ∷ []) = true
single _ = false

unfoldable pub reject_path_like_meeting_id : Text → Result IpcError (Unit {0})
unfolding components
reject_path_like_meeting_id id =
    if single (components id) && not (has_slash id)
    then ok tt
    else err (IpcError.invalid_input (codes "meeting_id must be a single path-safe component"))
