-- ===== src/Memory/Move/Files.antt =====
-- `MemoryMedium.Rename` of a file.
use native.Mathlib.Omega.{arith}
use go_io.Common.{◌≡◌, refl, true, inl, inr, Option-cases, List, if◌then◌else◌}
use go_io.Common.Bytes.{Bytes, str_eq}
use go_io.Common.Results.{ok, err, not_exist}
use go_io.Common.GoMap.{lookup, insert, remove, lookup-insert, lookup-remove}
use go_io.CoreText.{CoreText}
use go_io.Memory.{MemoryMedium, read, is_file}
use go_io.Memory.Move.{rename_file, rename, move_key}

-- `Rename` of a file succeeds, whatever the new path is. Afterwards the old path cannot be read, even
-- if it is the new one; any other path reads as the file did if it is the new path, and as before if
-- not; the explicit directories stay, those at the old path included.
pub rename_file_effect :
    (c : CoreText) (m : MemoryMedium) (old new q : Bytes)
    (visit_files visit_directories : List Bytes)
    → is_file m old ≡ true
    → (m' : MemoryMedium) × (rename c m old new visit_files visit_directories ≡ ok m')
      × (read m' q
          ≡ (if str_eq old q then err not_exist else if str_eq new q then read m old else read m q))
      × (m'.directories ≡ m.directories)
unfolding rename rename_file read is_file
rename_file_effect c m old new q visit_files visit_directories file =
    elim (Option-cases (lookup old m.file_contents)) [
      | inl absent ↦ absurd (ground arith)
      | inr (content, e) ↦ (
        record m {
          file_contents = remove old (insert new content m.file_contents);
          file_modes = move_key old new m.file_modes;
          modification_times = move_key old new m.modification_times;
        },
        ground arith,
        ground (
          arith,
          lookup-remove old q (insert new content m.file_contents),
          lookup-insert new q content m.file_contents,
        ),
        refl,
      )
    ]
