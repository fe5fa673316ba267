-- ===== src/Memory.antt =====
-- go/io.go: `MemoryMedium`, the in-memory medium, over four maps.
pub mod Ancestors
pub mod FileAncestor
pub mod Writing
pub mod Below
pub mod Removal
pub mod Move
pub mod Stream
pub mod Synced
pub mod Reachable
pub mod Copying
pub mod Whole
pub mod Keeping
pub mod Listing
mod Tests
use go_io.Common.{
  ℕ, zero, suc, ◌+◌, Bool, true, false, not, ◌&&◌, ◌||◌, Option, none, some, List, [], ◌∷◌, ◌++◌,
  if◌then◌else◌,
}
use go_io.Common.Lists.{length}
use go_io.Common.Bytes.{Bytes, str_eq}
use go_io.Common.Results.{Result, ok, err, Error, not_exist, exist}
use go_io.Common.GoMap.{GoMap, lookup, insert, remove, remove_where, any_key, has_key}
use go_io.CoreText.{CoreText, slash, dot}
use go_io.Medium.{Mode, Time, FileInfo, new_file_info, directory_mode, file_mode, zero_time}

-- `type MemoryMedium struct`
pub record MemoryMedium : Type 0 where
  pub file_contents : GoMap Bytes
  pub file_modes : GoMap Mode
  pub directories : GoMap Bool
  pub modification_times : GoMap Time

-- `NewMemoryMedium`
abbrev pub new_memory_medium : MemoryMedium
new_memory_medium = record {
  file_contents = [];
  file_modes = [];
  directories = [];
  modification_times = [];
}

-- `Read`
unfoldable pub read : MemoryMedium → Bytes → Result Bytes
read medium path = elim (lookup path medium.file_contents) [
  | some content ↦ ok content
  | none ↦ err not_exist
]

-- `IsFile`
unfoldable pub is_file : MemoryMedium → Bytes → Bool
is_file medium path = has_key path medium.file_contents

-- `modeForPath`, `modificationTimeForPath`
abbrev pub or_else {ℓ} : {A : Type ℓ} → Option A → A → A
or_else none d = d
or_else (some a) d = a

unfoldable pub mode_for_path : MemoryMedium → Bytes → Mode
mode_for_path medium path = or_else (lookup path medium.file_modes) file_mode

unfoldable pub modification_time_for_path : MemoryMedium → Bytes → Time
modification_time_for_path medium path = or_else (lookup path medium.modification_times) zero_time

-- A path that ends the walks over ancestors.
abbrev pub is_top : Bytes → Bool
is_top path = str_eq path dot || str_eq path []

-- Three `delete` statements for one file.
unfoldable pub delete_file : Bytes → MemoryMedium → MemoryMedium
delete_file path medium = record medium {
  file_contents = remove path medium.file_contents;
  file_modes = remove path medium.file_modes;
  modification_times = remove path medium.modification_times;
}

-- Three assignments for one file.
unfoldable pub put_file : Bytes → Bytes → Mode → Time → MemoryMedium → MemoryMedium
put_file path content mode now medium = record medium {
  file_contents = insert path content medium.file_contents;
  file_modes = insert path mode medium.file_modes;
  modification_times = insert path now medium.modification_times;
}

module _ (c : CoreText) where
  -- The loop of `ensureAncestorDirectories` from `parentPath`. Each round goes to a shorter path.
  unfoldable pub mark_ancestors : ℕ → Bytes → GoMap Bool → GoMap Bool
  mark_ancestors zero parent_path directories = directories
  mark_ancestors (suc fuel) parent_path directories =
      let marked = insert parent_path true directories in
      let next = mark_ancestors fuel (c.path_dir parent_path) marked in
      let stay = str_eq (c.path_dir parent_path) parent_path in
      if is_top parent_path then directories else (if stay then marked else next)

  -- Rounds that are enough for the ancestors of a path.
  abbrev pub depth : Bytes → ℕ
  depth path = suc (length (c.path_dir path))

  -- `ensureAncestorDirectories`
  unfoldable pub ensure_ancestor_directories : Bytes → MemoryMedium → MemoryMedium
  unfolding mark_ancestors
  ensure_ancestor_directories file_path medium = record medium {
    directories = mark_ancestors (depth file_path) (c.path_dir file_path) medium.directories;
  }

  -- The walk of `WriteMode`: is an ancestor stored as a file?
  unfoldable pub ancestor_is_file : ℕ → Bytes → GoMap Bytes → Bool
  ancestor_is_file zero ancestor files = false
  ancestor_is_file (suc fuel) ancestor files =
      let next = ancestor_is_file fuel (c.path_dir ancestor) files in
      let stay = str_eq (c.path_dir ancestor) ancestor in
      if is_top ancestor
      then false
      else if has_key ancestor files
      then true
      else if stay
      then false
      else next

  -- `memoryChildPrefix`
  unfoldable pub memory_child_prefix : Bytes → Bytes
  memory_child_prefix path =
      if not (str_eq path []) && not (c.has_suffix path slash) then path ++ slash else path

  -- `prefix += "/"` unless it ends in one, as in `directoryExists` and `DeleteAll`.
  unfoldable pub with_slash : Bytes → Bytes
  with_slash path = if c.has_suffix path slash then path else path ++ slash

  -- A key of the map, other than `path`, that starts with the prefix.
  unfoldable pub other_below : Bytes → Bytes → Bytes → Bool
  other_below path prefix key = not (str_eq key path) && c.has_prefix key prefix

  -- `directoryExists`
  unfoldable pub directory_exists : MemoryMedium → Bytes → Bool
  unfolding other_below with_slash
  directory_exists medium path =
      if str_eq path []
      then false
      else has_key path medium.directories
        || (any_key (λ key. c.has_prefix key (with_slash path)) medium.file_contents
            || any_key (other_below path (with_slash path)) medium.directories)

  -- `directoryHasChildren`
  unfoldable pub directory_has_children : MemoryMedium → Bytes → Bool
  unfolding other_below memory_child_prefix
  directory_has_children medium path =
      let prefix = memory_child_prefix path in
      any_key (λ key. c.has_prefix key prefix) medium.file_contents
      || any_key (other_below path prefix) medium.directories

  -- `WriteMode`
  unfoldable pub write_mode : Time → MemoryMedium → Bytes → Bytes → Mode → Result MemoryMedium
  unfolding ensure_ancestor_directories put_file
  write_mode now medium file_path content mode =
      if ancestor_is_file (depth file_path) (c.path_dir file_path) medium.file_contents
      then err exist
      else if has_key file_path medium.directories
      then err exist
      else ok (put_file file_path content mode now (ensure_ancestor_directories file_path medium))

  -- `Write`
  unfoldable pub write : Time → MemoryMedium → Bytes → Bytes → Result MemoryMedium
  unfolding write_mode
  write now medium path content = write_mode now medium path content file_mode

  -- `EnsureDir`
  unfoldable pub ensure_dir : MemoryMedium → Bytes → Result MemoryMedium
  unfolding ensure_ancestor_directories
  ensure_dir medium path =
      if has_key path medium.file_contents
      then err exist
      else let marked = ensure_ancestor_directories path medium in
        ok (record marked { directories = insert path true marked.directories })

  -- `Delete`
  unfoldable pub delete : MemoryMedium → Bytes → Result MemoryMedium
  delete medium path =
      if has_key path medium.file_contents
      then ok (delete_file path medium)
      else if directory_exists medium path
      then (if directory_has_children medium path
          then err exist
          else ok (record medium { directories = remove path medium.directories }))
      else err not_exist

  -- What `DeleteAll` deletes: the path and all that starts with its prefix.
  unfoldable pub deleted : Bytes → Bytes → Bool
  unfolding with_slash
  deleted path key = str_eq key path || c.has_prefix key (with_slash path)

  -- The modes and times go with the files that are deleted.
  unfoldable pub deleted_file : Bytes → MemoryMedium → Bytes → Bool
  unfolding deleted
  deleted_file path medium key = deleted path key && has_key key medium.file_contents

  -- `DeleteAll`
  unfoldable pub delete_all : MemoryMedium → Bytes → Result MemoryMedium
  delete_all medium path =
      if any_key (deleted path) medium.file_contents || any_key (deleted path) medium.directories
      then ok (record {
        file_contents = remove_where (deleted path) medium.file_contents;
        file_modes = remove_where (deleted_file path medium) medium.file_modes;
        directories = remove_where (deleted path) medium.directories;
        modification_times = remove_where (deleted_file path medium) medium.modification_times;
      })
      else err not_exist

  -- `Stat`; the clock is read for a file with no modification time
  unfoldable pub stat : Time → MemoryMedium → Bytes → Result FileInfo
  unfolding directory_exists mode_for_path
  stat now medium path = elim (lookup path medium.file_contents) [
    | some content ↦ ok (
        new_file_info (c.path_base path) (length content) (mode_for_path medium path)
          (or_else (lookup path medium.modification_times) now) false)
    | none ↦
        if directory_exists medium path
        then ok (new_file_info (c.path_base path) 0 directory_mode zero_time true)
        else err not_exist
  ]

  -- `Exists`
  unfoldable pub exists : MemoryMedium → Bytes → Bool
  unfolding directory_exists
  exists medium path = has_key path medium.file_contents || directory_exists medium path

  -- `IsDir`
  unfoldable pub is_dir : MemoryMedium → Bytes → Bool
  unfolding directory_exists
  is_dir medium path = directory_exists medium path
