-- ===== src/Node/Tests.antt =====
-- Runs of `Node` over plain text functions, and the theorems at concrete inputs.
pub mod Archives
pub mod Directories
use native.Mathlib.Omega.{arith}
use go_io.Common.{
  none, ◌↔◌, ℕ, zero, suc, ◌+◌, ◌*◌, ◌/◌, ◌≤◌, ◌≡◌, sym, ap, ◌∙◌, ◌⊎◌, refl, true, false, ◌&&◌,
  ◌||◌, List, [], ◌∷◌, ◌++◌, if◌then◌else◌,
}
use go_io.Common.Lists.{length, take, drop, get_or, length-append, take-append, drop-append}
use go_io.Common.Bytes.{Bytes, All, bytes, str_eq}
use go_io.Common.Results.{ok, err, Error, invalid, not_exist}
use go_io.Common.GoMap.{lookup, insert, any_key, has_key}
use go_io.CoreText.{dot}
use go_io.CoreText.Plain
use go_io.CoreText.Plain.{plain, plain-IsLawful}
use go_io.Node
use go_io.Node.{
  Node, DataFile, new, stored, trimmed, resolved, write, delete, delete_all, deleted, rename,
  is_file, read, stat,
}
use go_io.Medium.{Time, FileInfo, DirEntry}
use go_io.Node.Archive
use go_io.Node.Archive.{Tar, TarEntry, IsRegular, rounded_entries, to_tar, from_tar}
use go_io.Node.Archive.Restored.{restored, IsPortable, from_tar-to_tar}
use go_io.Node.Reachable.{start, next, writes, IsNamed, Reachable-IsNamed}
use go_io.Node.Reading
use go_io.Node.Reading.{read_dir, directory_prefix}
use go_io.Node.Reading.Names.{shows}
use go_io.Entries.{names}
use go_io.Fsutil.{sort_dir_entries_by_name}
use go_io.Fsutil.Sorted.{IsAscending, sort_dir_entries_by_name-IsAscending}
use mathlib.Core.List.{Perm, Mem, Nodup}
use go_io.Medium.{file_mode}
use go_io.CoreText.{slash}
use mathlib.Core.List.{flatten}
use go_io.Memory
use go_io.Memory.{MemoryMedium, new_memory_medium}
use go_io.Memory.Writing.{write_mode_effect}
use go_io.Memory.Copying.{memory}
use go_io.Node.Reading.{copy_to}
use go_io.Node.Reading.Copying.{IsWritable, source_prefix, copy_to_effect}
use go_io.Node.Streams.{writer_close}
use go_io.Node.Appending.{appended, content_before, append_outcome}
use go_io.Node.Writing.{is_storable, write_cases}
use go_io.Node.Moving
use go_io.Node.Moving.{rename_below}

abbrev pub file : Bytes → Bytes → DataFile
file name content = record { name = name; content = content; mod_time = 3 }

abbrev pub drafts : Node
drafts = record {
  files =
      (bytes "a/1", file (bytes "a/1") (bytes "x"))
      ∷ (bytes "a/b/1", file (bytes "a/b/1") (bytes "y"))
      ∷ [];
}

write_cases_example :
    (((str_eq (trimmed plain (bytes "/c")) [] || str_eq (trimmed plain (bytes "/c")) dot) ≡ true)
      × (write plain 5 drafts (bytes "/c") (bytes "z") ≡ err invalid))
    ⊎ (((str_eq (trimmed plain (bytes "/c")) [] || str_eq (trimmed plain (bytes "/c")) dot) ≡ false)
        × ((node' : Node) × (write plain 5 drafts (bytes "/c") (bytes "z") ≡ ok node')
            × (stored node' (bytes "c") ≡ (
                if is_storable plain (trimmed plain (trimmed plain (bytes "/c")))
                  && str_eq (trimmed plain (trimmed plain (bytes "/c"))) (bytes "c")
                then ok (bytes "z")
                else stored drafts (bytes "c")))))
write_cases_example = write_cases plain 5 drafts (bytes "/c") (bytes "z") (bytes "c")

-- The directory a is renamed to a/b, which lies below it.
rename_below_example :
    (node' : Node) × (rename plain drafts (bytes "a") (bytes "a/b") ≡ ok node')
    × (stored node'
          (Moving.new_prefix plain plain-IsLawful drafts (bytes "a") (bytes "a/b") ++ bytes "1")
        ≡ (if has_key
              (Moving.old_prefix plain plain-IsLawful drafts (bytes "a") (bytes "a/b") ++ bytes "1")
              drafts.files
            then stored drafts (
                Moving.old_prefix plain plain-IsLawful drafts (bytes "a") (bytes "a/b")
                ++ bytes "1")
            else if plain.has_prefix
                (Moving.new_prefix plain plain-IsLawful drafts (bytes "a") (bytes "a/b")
                  ++ bytes "1")
                (Moving.old_prefix plain plain-IsLawful drafts (bytes "a") (bytes "a/b"))
            then err not_exist
            else stored drafts (
                Moving.new_prefix plain plain-IsLawful drafts (bytes "a") (bytes "a/b")
                ++ bytes "1")))
    × (stored node' (bytes "c") ≡ (
        if plain.has_prefix
          (bytes "c")
          (Moving.old_prefix plain plain-IsLawful drafts (bytes "a") (bytes "a/b"))
        then err not_exist
        else stored drafts (bytes "c")))
rename_below_example =
    rename_below plain plain-IsLawful drafts (bytes "a") (bytes "a/b") (bytes "1") (bytes "1")
      (bytes "c") (unfold lookup str_eq Plain.trim Plain.starts in refl)
      (unfold lookup str_eq Plain.trim Plain.starts in refl)
      (unfold Plain.trim Plain.starts in refl)

pub drafts-IsPortable : IsPortable plain drafts.files
unfolding lookup str_eq Plain.starts Plain.ends
drafts-IsPortable = (
  record { named = refl; not_empty = refl; no_prefix = refl; no_suffix = refl },
  refl,
  (record { named = refl; not_empty = refl; no_prefix = refl; no_suffix = refl }, refl, tt),
)

append_outcome_example :
    (((str_eq (trimmed plain (bytes "a/1")) [] || str_eq (trimmed plain (bytes "a/1")) dot) ≡ true)
      × (writer_close 6 drafts
            (appended plain 6 drafts (bytes "a/1") (bytes "1") (bytes "2") (bytes "c"))
          ≡ err invalid))
    ⊎ (((str_eq (trimmed plain (bytes "a/1")) [] || str_eq (trimmed plain (bytes "a/1")) dot)
          ≡ false)
        × ((node' : Node) × (writer_close 6 drafts
                (appended plain 6 drafts (bytes "a/1") (bytes "1") (bytes "2") (bytes "c"))
              ≡ ok node')
            × (stored node' (bytes "c") ≡ (
                if str_eq (trimmed plain (bytes "a/1")) (bytes "c")
                then ok (
                    (content_before (stored drafts (trimmed plain (bytes "a/1"))) ++ bytes "1")
                    ++ bytes "2")
                else stored drafts (bytes "c")))))
append_outcome_example =
    append_outcome plain 6 drafts (bytes "a/1") (bytes "1") (bytes "2") (bytes "c")
