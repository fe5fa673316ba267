-- ===== src/Memory/Tests.antt =====
-- Runs of `MemoryMedium` over plain text functions, and the theorems at concrete inputs.
pub mod Moves
pub mod Streams
use native.Mathlib.Omega.{arith}
use mathlib.Core.List.{flatten, Mem, Nodup}
use go_io.Common.{
  List, ◌||◌, ◌≡◌, ◌≢◌, inl, inr, ◌↔◌, ◌⊎◌, refl, sym, ap, ◌∙◌, Bool, true, false, some, not, ◌&&◌,
  [], ◌∷◌, ◌++◌, if◌then◌else◌,
}
use go_io.Common.Bytes.{Bytes, bytes, str_eq, str_eq_iff}
use go_io.Common.Results.{ok, err, Error, exist, not_exist}
use go_io.Common.GoMap.{lookup, insert, remove, remove_where, any_key, has_key}
use go_io.CoreText.{slash}
use go_io.CoreText.Plain
use go_io.CoreText.Plain.{plain, plain-IsLawful}
use go_io.Medium.{DirEntry, copy, file_mode}
use go_io.Memory
use go_io.Memory.{
  MemoryMedium, new_memory_medium, read, is_file, mode_for_path, write_mode, delete, delete_all,
  deleted, stat, directory_exists, directory_has_children, put_file, ensure_ancestor_directories,
}
use go_io.Memory.Listing.{has_children_at_path, list}
use go_io.Memory.Listing.Names.{IsStored, HasBelow, list_outcome}
use go_io.Entries.Parts.{IsPart}
use go_io.Entries.{names}
use go_io.Fsutil.Sorted.{IsAscending}
use go_io.Memory.Writing.{IsAncestor, write_mode_refuses, write_mode_effect}
use go_io.Memory.Below.{IsSlashed, IsBelow, IsListStart}
use go_io.Memory.Removal.{delete_all_effect}
use go_io.Memory.Move
use go_io.Memory.Move.{IsRange, rename, rename_directory, rename_file}
use go_io.Memory.Move.Contents
use go_io.Memory.Move.Files.{rename_file_effect}
use go_io.Memory.Move.Directory.{rename_directory_effect}
use go_io.Memory.Stream.{MemoryFile, open_file, create, append, writer_write, writer_close}
use go_io.Memory.Stream.Reading.{drain}
use go_io.Memory.Stream.Appending.{before}
use go_io.Memory.Synced.{IsSynced}
use go_io.Memory.Reachable.{Reachable, start, next, writes, Reachable-IsSynced}
use go_io.Storage.Contract
use go_io.Memory.Whole.{memory_storage}
use go_io.Memory.Keeping.{memory_storage-IsKeeping}
use go_io.Memory.Copying.{memory, copy_effect}

abbrev pub one : Bytes
one = bytes "a/1"

abbrev pub two : Bytes
two = bytes "a/2"

abbrev pub text : Bytes
text = bytes "text"

-- A directory with two files.
abbrev pub notes : MemoryMedium
notes = record {
  file_contents = (one, text) ∷ (two, bytes "x") ∷ [];
  file_modes = (one, 0o600) ∷ (two, file_mode) ∷ [];
  directories = (bytes "a", true) ∷ [];
  modification_times = (one, 3) ∷ (two, 4) ∷ [];
}

abbrev written : MemoryMedium
unfolding Memory.put_file Memory.ensure_ancestor_directories Memory.mark_ancestors lookup insert
    str_eq Plain.before_slash
written =
    put_file (bytes "b/3") text file_mode 5 (ensure_ancestor_directories plain (bytes "b/3") notes)

notes-written : write_mode plain 5 notes (bytes "b/3") text file_mode ≡ ok written
unfolding Memory.write_mode Memory.ancestor_is_file Memory.put_file
    Memory.ensure_ancestor_directories Memory.mark_ancestors lookup insert str_eq Plain.before_slash
notes-written = refl

write_mode_effect_example :
    (read written one ≡ (if str_eq (bytes "b/3") one then ok text else read notes one))
    × (mode_for_path written one
        ≡ (if str_eq (bytes "b/3") one then file_mode else mode_for_path notes one))
    × ((has_key one written.directories ≡ true)
        ↔ ((has_key one notes.directories ≡ true) ⊎ IsAncestor plain (bytes "b/3") one))
write_mode_effect_example =
    write_mode_effect plain plain-IsLawful 5 notes written (bytes "b/3") text one file_mode
      notes-written

write_mode_refuses_example : (write_mode plain 5 notes (bytes "a") text file_mode ≡ err exist) ↔ (
    (exist ≡ exist)
    × (((a : Bytes) × IsAncestor plain (bytes "a") a × (is_file notes a ≡ true))
        ⊎ (has_key (bytes "a") notes.directories ≡ true)))
write_mode_refuses_example =
    write_mode_refuses plain plain-IsLawful 5 notes (bytes "a") text file_mode exist

abbrev empty_written : MemoryMedium
empty_written = record {
  file_contents = (one, text) ∷ [];
  file_modes = (one, 0o600) ∷ [];
  directories = (bytes "a", true) ∷ [];
  modification_times = (one, 5) ∷ [];
}

one_written : write_mode plain 5 new_memory_medium one text 0o600 ≡ ok empty_written
unfolding Memory.write_mode Memory.ancestor_is_file Memory.put_file
    Memory.ensure_ancestor_directories Memory.mark_ancestors lookup insert str_eq Plain.before_slash
one_written = refl

notes_deleted : delete_all plain notes (bytes "a") ≡ ok new_memory_medium
unfolding Memory.delete_all Memory.deleted Memory.deleted_file Memory.with_slash lookup remove_where
    any_key str_eq Plain.starts Plain.ends
notes_deleted = refl

bare : ¬ IsSlashed (bytes "a")
bare slashed =
    let ends = (plain-IsLawful.has_suffix_iff (bytes "a") slash).1 slashed in
    absurd (unfold Plain.ends str_eq in cc)

delete_all_effect_example :
    (((one ≡ bytes "a") ⊎ IsBelow (bytes "a/") one)
      × (read new_memory_medium one ≡ err not_exist)
      × (has_key one new_memory_medium.directories ≡ false))
    ⊎ ((one ≢ bytes "a")
        × (¬ IsBelow (bytes "a/") one)
        × (read new_memory_medium one ≡ read notes one)
        × (has_key one new_memory_medium.directories ≡ has_key one notes.directories))
delete_all_effect_example =
    delete_all_effect plain notes new_memory_medium (bytes "a") (bytes "a/") one plain-IsLawful
      (inr (bare, refl)) notes_deleted

written_Reachable : Reachable plain empty_written
written_Reachable = next start (writes 5 one text 0o600 one_written)

Reachable-IsSynced_example : IsSynced empty_written
Reachable-IsSynced_example = Reachable-IsSynced plain written_Reachable

copy_effect_example :
    ((d' : MemoryMedium) × (content : Bytes) × (copy
          (memory plain)
          (memory plain)
          6
          notes
          one
          empty_written
          two
        ≡ ok d')
      × (read notes one ≡ ok content)
      × (read d' one ≡ (if str_eq two one then ok content else read empty_written one))
      × (mode_for_path d' one
          ≡ (if str_eq two one then mode_for_path notes one else mode_for_path empty_written one)))
    ⊎ ((e : Error) × (copy (memory plain) (memory plain) 6 notes one empty_written two ≡ err e)
        × ((read notes one ≡ err e)
            ⊎ ((content : Bytes) × (read notes one ≡ ok content)
                × (write_mode plain 6 empty_written two content (mode_for_path notes one)
                    ≡ err e))))
copy_effect_example = copy_effect plain plain-IsLawful 6 notes empty_written one two one

list_outcome_example :
    ((has_key (bytes "a") notes.directories ≡ false)
      × (¬ HasBelow plain plain-IsLawful notes (bytes "a") (bytes "a/"))
      × (bytes "a" ≢ [])
      × (list plain notes (bytes "a") ≡ err not_exist))
    ⊎ (((has_key (bytes "a") notes.directories ≡ true)
          ⊎ (HasBelow plain plain-IsLawful notes (bytes "a") (bytes "a/") ⊎ (bytes "a" ≡ [])))
        × ((entries : List DirEntry) × (list plain notes (bytes "a") ≡ ok entries)
            × IsAscending entries
            × Nodup (names entries)
            × (Mem (bytes "1") (names entries) ↔ (
                (k : Bytes) × IsStored plain plain-IsLawful notes (bytes "a") k
                × IsPart (bytes "a/") (bytes "1") k))))
list_outcome_example =
    list_outcome plain plain-IsLawful notes (bytes "a") (bytes "a/")
      (inr ((λ e. cc), inr (bare, refl))) (bytes "1")

memory_storage-IsKeeping_example : Contract.IsKeeping (memory_storage plain 7 (λ m. []) (λ m. []))
memory_storage-IsKeeping_example =
    memory_storage-IsKeeping plain plain-IsLawful 7 (λ m. []) (λ m. [])
