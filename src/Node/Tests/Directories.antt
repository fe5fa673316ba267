-- ===== src/Node/Tests/Directories.antt =====
-- Runs of `ReadDir` and `CopyTo`.
use go_io.Common.{none, ◌≡◌, refl, true, List, [], ◌∷◌, ◌++◌, if◌then◌else◌}
use go_io.Common.Bytes.{bytes, str_eq}
use go_io.Common.GoMap.{lookup, insert, any_key, has_key}
use go_io.CoreText.Plain
use go_io.CoreText.Plain.{plain, plain-IsLawful}
use go_io.Node
use go_io.Node.{
  Node, DataFile, new, stored, trimmed, write, delete, delete_all, deleted, rename, is_file, read,
  stat,
}
use go_io.Medium.{DirEntry}
use go_io.Node.Reading
use go_io.Fsutil.{sort_dir_entries_by_name}
use go_io.Fsutil.Sorted.{IsAscending, sort_dir_entries_by_name-IsAscending}
use mathlib.Core.List.{Perm}
use go_io.Medium.{file_mode}
use go_io.CoreText.{slash}
use mathlib.Core.List.{flatten}
use go_io.Memory
use go_io.Memory.{MemoryMedium, new_memory_medium}
use go_io.Memory.Writing.{write_mode_effect}
use go_io.Memory.Copying.{memory}
use go_io.Node.Reading.{copy_to}
use go_io.Node.Reading.Copying.{IsWritable, source_prefix, copy_to_effect}
use go_io.Node.Tests.{drafts, drafts-IsPortable}

abbrev pair : List DirEntry
pair =
    Reading.file_info_to_dir_entry (Node.dir_info plain (bytes "b") 0)
    ∷ Reading.file_info_to_dir_entry (Node.dir_info plain (bytes "a") 0)
    ∷ []

sort_dir_entries_by_name-IsAscending_example :
    IsAscending (sort_dir_entries_by_name pair) × Perm (sort_dir_entries_by_name pair) pair
sort_dir_entries_by_name-IsAscending_example = sort_dir_entries_by_name-IsAscending pair

-- A memory medium is a target whose `Write` stores.
memory-IsWritable : IsWritable (memory plain)
unfolding Memory.write
memory-IsWritable = record {
  read-write = λ now t t' path content q e.
      (write_mode_effect plain plain-IsLawful now t t' path content q file_mode e).0;
}

abbrev copied_drafts : MemoryMedium
copied_drafts = record {
  file_contents = (bytes "z/1", bytes "x") ∷ (bytes "z/b/1", bytes "y") ∷ [];
  file_modes = (bytes "z/1", file_mode) ∷ (bytes "z/b/1", file_mode) ∷ [];
  directories = (bytes "z", true) ∷ (bytes "z/b", true) ∷ [];
  modification_times = (bytes "z/1", 7) ∷ (bytes "z/b/1", 7) ∷ [];
}

drafts-copied :
    copy_to plain (memory plain) 7 drafts new_memory_medium (bytes "a") (bytes "z")
    ≡ (copied_drafts, none)
unfolding copy_to Reading.copy_files stat Node.has_below Memory.write Memory.write_mode
    Memory.ancestor_is_file Memory.put_file Memory.ensure_ancestor_directories Memory.mark_ancestors
    lookup insert any_key str_eq Plain.before_slash Plain.trim Plain.starts Plain.ends flatten
drafts-copied = refl

copy_to_effect_example : Memory.read copied_drafts (bytes "z" ++ (slash ++ bytes "1")) ≡ (
    if has_key
      (source_prefix plain plain-IsLawful
          (memory plain)
          memory-IsWritable
          7
          drafts
          (bytes "a")
          (bytes "z")
        ++ bytes "1")
      drafts.files
    then stored drafts (
        source_prefix plain plain-IsLawful
          (memory plain)
          memory-IsWritable
          7
          drafts
          (bytes "a")
          (bytes "z")
        ++ bytes "1")
    else Memory.read new_memory_medium (bytes "z" ++ (slash ++ bytes "1")))
copy_to_effect_example =
    copy_to_effect plain plain-IsLawful (memory plain) memory-IsWritable 7 drafts (bytes "a")
      (bytes "z") new_memory_medium copied_drafts (bytes "1") drafts-IsPortable
      (unfold lookup str_eq Plain.trim Plain.starts in refl)
      (unfold Node.is_dir stat Node.has_below any_key lookup str_eq Plain.trim Plain.starts in refl)
      (unfold str_eq in refl) drafts-copied
