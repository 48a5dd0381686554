-- ===== src/SessionDir.antt =====
-- The directory of a session's memory, of ma-core/src/session/mod.rs: its renaming when a capture
-- was cut short, and its removal. Paths and the file system are parameters.
pub mod Owned
use memory_archive.Prelude.{
  if◌then◌else◌, is_empty, Bool, true, false, ◌||◌, Option, none, some, ◌++◌,
}
use memory_archive.Text.{Str, codes, str_eq}
use memory_archive.Text.Search.{starts_with, ends_with}

-- `Path::parent` with `Path::file_name`, `Path::join`, and whether a rename succeeds.
pub record Paths : Type 0 where
  pub split_path : Str → Option (Str × Str)
  pub join_path : Str → Str → Str
  pub renames : Str → Str → Bool

abbrev pub incomplete_suffix : Str
incomplete_suffix = codes " (incomplete)"

module _ (paths : Paths) where
  abbrev pub renamed_to : (memory_dir incomplete_dir : Str) → Option Str
  renamed_to memory_dir incomplete_dir =
      if paths.renames memory_dir incomplete_dir then some incomplete_dir else none

  abbrev pub flagged : Str → Option (Str × Str) → Option Str
  flagged memory_dir none = none
  flagged memory_dir (some (parent, name)) =
      if ends_with incomplete_suffix name
      then some memory_dir
      else renamed_to memory_dir (paths.join_path parent (name ++ incomplete_suffix))

  -- `none` is an error.
  unfoldable pub mark_incomplete : Str → Option Str
  mark_incomplete memory_dir = flagged memory_dir (paths.split_path memory_dir)

-- All directories, by their paths, without a slash at the end and without links: a directory that
-- exists holds the text of its metadata.json, if it can be read.
abbrev pub Dirs : Type 0
Dirs = Str → Option (Option Str)

-- serde_json's view of a metadata.json, its `session_id` if it is a text, and whether a directory
-- can be removed
pub record Removal : Type 0 where
  pub session_id_in : Str → Option Str
  pub removes : Str → Bool

-- The session that a directory's metadata names, unless it is empty.
abbrev pub owner_in : Removal → Option Str → Option Str
owner_in w none = none
owner_in w (some raw) = elim (w.session_id_in raw) [
  | none ↦ none
  | some id ↦ if is_empty id then none else some id
]

abbrev pub is_owner : Str → Option Str → Bool
is_owner session_id none = false
is_owner session_id (some owner) = str_eq owner session_id

-- A path, or one below it.
abbrev pub is_in : (path other : Str) → Bool
is_in path other = str_eq other path || starts_with (path ++ codes "/") other

-- `remove_dir_all`: the directory with all that is below it
unfoldable pub remove_dir : Str → Dirs → Dirs
remove_dir path dirs other = if is_in path other then none else dirs other

-- One candidate: the directories after it, and whether it was removed; `none` is an error.
abbrev pub removed_owned : Removal → Str → Str → Dirs → Option (Dirs × Bool)
removed_owned w session_id candidate dirs =
    if w.removes candidate then some (remove_dir candidate dirs, true) else none

abbrev pub purge_existing : Removal → Str → Str → Dirs → Option (Option Str) → Option (Dirs × Bool)
purge_existing w session_id candidate dirs none = some (dirs, false)
purge_existing w session_id candidate dirs (some raw) =
    if is_owner session_id (owner_in w raw)
    then removed_owned w session_id candidate dirs
    else some (dirs, false)

unfoldable pub purge_candidate : Removal → Str → Str → Dirs → Option (Dirs × Bool)
purge_candidate w session_id candidate dirs =
    purge_existing w session_id candidate dirs (dirs candidate)

abbrev pub also_removed : Bool → Option (Dirs × Bool) → Option (Dirs × Bool)
also_removed first none = none
also_removed first (some (dirs, second)) = some (dirs, first || second)

abbrev pub purge_sibling : Removal → Str → Str → Option (Dirs × Bool) → Option (Dirs × Bool)
purge_sibling w session_id sibling none = none
purge_sibling w session_id sibling (some (dirs, removed)) =
    also_removed removed (purge_candidate w session_id sibling dirs)

unfoldable pub purge_memory_dir :
    Removal → (memory_path session_id : Str) → Dirs → Option (Dirs × Bool)
purge_memory_dir w memory_path session_id dirs =
    purge_sibling w session_id (memory_path ++ incomplete_suffix)
      (purge_candidate w session_id memory_path dirs)
