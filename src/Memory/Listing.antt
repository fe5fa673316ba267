-- ===== src/Memory/Listing.antt =====
-- go/io.go: `MemoryMedium.List`.
pub mod Shown
pub mod Collected
pub mod Names
use go_io.Common.{
  ℕ, suc, Bool, true, false, not, ◌&&◌, ◌||◌, Option, none, some, List, [], ◌∷◌, ◌++◌,
  if◌then◌else◌,
}
use go_io.Common.Lists.{length}
use go_io.Common.Bytes.{Bytes, str_eq}
use go_io.Common.Results.{Result, ok, err, not_exist}
use go_io.Common.GoMap.{GoMap, any_key, has_key}
use go_io.CoreText.{CoreText, slash}
use go_io.Medium.{DirEntry, Mode, Time, new_file_info, new_dir_entry, directory_mode, zero_time}
use go_io.Fsutil.{sort_dir_entries_by_name}
use go_io.Entries.{Listed, nothing_listed, add_unseen}
use go_io.Memory.{MemoryMedium, mode_for_path, modification_time_for_path, memory_child_prefix}

-- `memoryDirEntry`
abbrev pub memory_dir_entry : Bytes → DirEntry
memory_dir_entry name =
    new_dir_entry name true directory_mode (new_file_info name 0 directory_mode zero_time true)

-- `maybeAddMemoryDir`, from the parts of the path
unfoldable pub maybe_add_memory_dir : List Bytes → Listed → Listed
unfolding add_unseen
maybe_add_memory_dir (name ∷ rest ∷ []) s = add_unseen s (memory_dir_entry name)
maybe_add_memory_dir _ s = s

-- `if parts := …; len(parts) == 2 { rest = parts[0] }`
abbrev pub first_of_two : List Bytes → Bytes → Bytes
first_of_two (name ∷ more ∷ []) rest = name
first_of_two _ rest = rest

module _ (c : CoreText) where
  -- `hasChildrenAtPath`
  unfoldable pub has_children_at_path : MemoryMedium → Bytes → Bool
  unfolding memory_child_prefix
  has_children_at_path m path =
      let prefix = memory_child_prefix c path in
      any_key (λ key. c.has_prefix key prefix) m.file_contents
      || any_key (λ key. c.has_prefix key prefix) m.directories

  -- The entry of a file below the prefix.
  abbrev pub file_entry : MemoryMedium → Bytes → Bytes → Bytes → DirEntry
  file_entry m prefix rest content =
      let entry_path = c.concat (prefix ∷ rest ∷ []) in
      let mode = mode_for_path m entry_path in
      new_dir_entry rest false mode
        (new_file_info rest (length content) mode (modification_time_for_path m entry_path) false)

  -- One round of the loop of `addFileEntries`.
  unfoldable pub add_file : MemoryMedium → Bytes → Listed → Bytes → Bytes → Listed
  unfolding maybe_add_memory_dir add_unseen
  add_file m prefix s path content =
      let rest = c.trim_prefix path prefix in
      if not (c.has_prefix path prefix)
      then s
      else if str_eq rest [] || c.contains rest slash
      then maybe_add_memory_dir (c.split_first rest slash) s
      else add_unseen s (file_entry m prefix rest content)

  -- `addFileEntries`
  unfoldable pub add_file_entries : MemoryMedium → Bytes → GoMap Bytes → Listed → Listed
  unfolding add_file
  add_file_entries m prefix [] s = s
  add_file_entries m prefix ((path, content) ∷ files) s =
      add_file_entries m prefix files (add_file m prefix s path content)

  -- One round of the loop of `addDirectoryEntries`.
  unfoldable pub add_directory : Bytes → Listed → Bytes → Listed
  unfolding add_unseen
  add_directory prefix s path =
      let rest = c.trim_prefix path prefix in
      if not (c.has_prefix path prefix)
      then s
      else if str_eq rest []
      then s
      else add_unseen s (memory_dir_entry (first_of_two (c.split_first rest slash) rest))

  -- `addDirectoryEntries`
  unfoldable pub add_directory_entries : Bytes → GoMap Bool → Listed → Listed
  unfolding add_directory
  add_directory_entries prefix [] s = s
  add_directory_entries prefix ((path, b) ∷ directories) s =
      add_directory_entries prefix directories (add_directory prefix s path)

  -- What `List` collects before it sorts.
  unfoldable pub collected : MemoryMedium → Bytes → Listed
  unfolding add_file_entries add_directory_entries memory_child_prefix
  collected m path =
      let prefix = memory_child_prefix c path in
      add_directory_entries prefix m.directories
        (add_file_entries m prefix m.file_contents nothing_listed)

  -- `List`
  unfoldable pub list : MemoryMedium → Bytes → Result (List DirEntry)
  unfolding collected has_children_at_path
  list m path =
      if not (has_key path m.directories)
        && (not (has_children_at_path m path) && not (str_eq path []))
      then err not_exist
      else ok (sort_dir_entries_by_name (collected m path).entries)
