-- ===== src/Memory/Move/Directory.antt =====
-- `MemoryMedium.Rename` of a directory whose new name lies apart from the old one.
use native.Mathlib.Omega.{arith}
use go_io.Common.{
  ◌≡◌, refl, ap, ◌∙◌, Bool, true, false, not, ◌&&◌, ◌||◌, List, [], ◌∷◌, ◌++◌, if◌then◌else◌,
}
use go_io.Common.Bytes.{Bytes, str_eq}
use go_io.Common.Results.{ok, err, not_exist}
use go_io.Common.GoMap.{GoMap, lookup, insert, remove, has_key}
use go_io.CoreText
use go_io.CoreText.{CoreText}
use go_io.Memory.{MemoryMedium, read, is_file, directory_exists, memory_child_prefix}
use go_io.Memory.Below.{IsListStart, memory_child_prefix-start}
use go_io.Memory.Move.{
  IsRange, rename_files, rename_file, rename_directories, rename_directory, rename,
}
use go_io.Memory.Move.Contents.{
  move_all, file_contents-rename_files, Apart, Under, lookup-move_all_old, lookup-move_all_new,
  lookup-move_all_other, has_prefix-append,
}
use go_io.Memory.Move.Directories.{
  has_key-moved, has_key-rename_directories_old, has_key-rename_directories_new,
  has_key-rename_directories_other,
}

-- Is the path an explicit directory once the one has become the other?
abbrev pub is_replaced : MemoryMedium → Bytes → Bytes → Bytes → Bool
is_replaced m old new q = not (str_eq old q) && (str_eq new q || has_key q m.directories)

module _ (c : CoreText) (L : CoreText.IsLawful c) (m : MemoryMedium) (old new from to : Bytes)
    (starts : IsListStart old from) (new_starts : IsListStart new to) where
  abbrev replaced : GoMap Bool
  replaced = remove old (insert new true m.directories)

  -- The files, and the directories, that the rename collects.
  abbrev pub IsVisit : List Bytes → Type 0
  IsVisit = IsRange (λ k. c.has_prefix k from) m.file_contents

  abbrev pub IsDirectoryVisit : List Bytes → Type 0
  IsDirectoryVisit = IsRange (λ k. c.has_prefix k from) replaced

  Under-visit : (keys : List Bytes) → IsVisit keys → Under c L from to keys
  Under-visit keys v k h = ground (arith, v.exact k)

  Under-directory_visit : (keys : List Bytes) → IsDirectoryVisit keys → Under c L from to keys
  Under-directory_visit keys v k h = ground (arith, v.exact k)

  contents :
      (keys directories : List Bytes)
      → (rename_directory c m old new keys directories).file_contents
        ≡ move_all c L from to keys m.file_contents
  unfolding rename_directory
  contents keys directories =
      rw
        (
          memory_child_prefix-start c L old from starts,
          memory_child_prefix-start c L new to new_starts,
        )
        (file_contents-rename_files c L (memory_child_prefix c old) (memory_child_prefix c new) keys
          _)

  directories-rename_files :
      (o n : Bytes) (keys : List Bytes) (f : MemoryMedium)
      → (rename_files c o n keys f).directories ≡ f.directories
  unfolding rename_files
  directories-rename_files o n [] f = refl
  directories-rename_files o n (k ∷ keys) f = directories-rename_files o n keys _

  explicit :
      (keys directories : List Bytes)
      → (rename_directory c m old new keys directories).directories
        ≡ rename_directories c from to directories replaced
  unfolding rename_directory
  explicit keys directories =
      rw
        (
          memory_child_prefix-start c L old from starts,
          memory_child_prefix-start c L new to new_starts,
        )
        (ap
          (rename_directories c (memory_child_prefix c old) (memory_child_prefix c new) directories)
          (directories-rename_files (memory_child_prefix c old) (memory_child_prefix c new) keys _))

  -- What becomes of the explicit directories.
  explicit_effect :
      (r q : Bytes) (keys directories : List Bytes)
      → IsDirectoryVisit directories
      → Apart c L from to
      → c.has_prefix q from ≡ false
      → c.has_prefix q to ≡ false
      → let m' = rename_directory c m old new keys directories in
        (has_key (from ++ r) m'.directories ≡ false)
        × (has_key (to ++ r) m'.directories
            ≡ (is_replaced m old new (from ++ r) || is_replaced m old new (to ++ r)))
        × (has_key q m'.directories ≡ is_replaced m old new q)
  explicit_effect r q keys directories v apart not_old not_new =
      let under = Under-directory_visit directories v in
      let moved = explicit keys directories in
      let found = v.exact (from ++ r) in
      let prefixed = has_prefix-append c L from to r in
      let at_old = has_key-rename_directories_old c L from to directories replaced r apart under in
      let at_new = has_key-rename_directories_new c L from to directories replaced r apart under in
      let elsewhere =
        has_key-rename_directories_other c L from to directories replaced q under not_old not_new in
      (
        ap (has_key (from ++ r)) moved ∙ at_old ∙ ground (arith, found, prefixed),
        ap (has_key (to ++ r)) moved
            ∙ at_new
            ∙ ground (
              arith,
              found,
              prefixed,
              has_key-moved old new (from ++ r) m.directories,
              has_key-moved old new (to ++ r) m.directories,
            ),
        ap (has_key q) moved ∙ elsewhere ∙ has_key-moved old new q m.directories,
      )

  -- Renaming a directory, whatever the order in which its files and directories are visited, where
  -- no path with the new prefix has the old one: it succeeds. A path with the old prefix is no file
  -- and no explicit directory any more. A path with the new prefix reads as the file of that name
  -- under the old prefix did, and as before if there was none; it is an explicit directory if it was
  -- one or if that name under the old prefix was one. A path with neither prefix reads as before, and
  -- is an explicit directory if it was one or is the new path, and is not the old path.
  pub rename_directory_effect :
      (r q : Bytes) (keys directories : List Bytes)
      → is_file m old ≡ false
      → directory_exists c m old ≡ true
      → IsVisit keys
      → IsDirectoryVisit directories
      → Apart c L from to
      → c.has_prefix q from ≡ false
      → c.has_prefix q to ≡ false
      → (m' : MemoryMedium) × (rename c m old new keys directories ≡ ok m')
        × ((read m' (from ++ r) ≡ err not_exist)
            × (read m' (to ++ r)
                ≡ (if is_file m (from ++ r) then read m (from ++ r) else read m (to ++ r)))
            × (read m' q ≡ read m q))
        × ((has_key (from ++ r) m'.directories ≡ false)
            × (has_key (to ++ r) m'.directories
                ≡ (is_replaced m old new (from ++ r) || is_replaced m old new (to ++ r)))
            × (has_key q m'.directories ≡ is_replaced m old new q))
  unfolding read is_file
  rename_directory_effect r q keys directories no_file directory v w apart not_old not_new =
      let m' = rename_directory c m old new keys directories in
      let under = Under-visit keys v in
      let moved = contents keys directories in
      let found = v.exact (from ++ r) in
      let prefixed = has_prefix-append c L from to r in
      let at_old =
        ap (lookup (from ++ r)) moved
        ∙ lookup-move_all_old c L from to keys m.file_contents r apart under in
      let at_new =
        ap (lookup (to ++ r)) moved
        ∙ lookup-move_all_new c L from to keys m.file_contents r apart under v.distinct in
      let elsewhere =
        ap (lookup q) moved
        ∙ lookup-move_all_other c L from to keys m.file_contents q under not_old not_new in
      (
        m',
        unfold rename rename_file in ground arith,
        (
          ground (arith, at_old, found, prefixed),
          ground (arith, at_new, found, prefixed),
          ground (arith, elsewhere),
        ),
        explicit_effect r q keys directories w apart not_old not_new,
      )
