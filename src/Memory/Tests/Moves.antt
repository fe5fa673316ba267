-- ===== src/Memory/Tests/Moves.antt =====
-- Runs of `MemoryMedium.Rename`.
use native.Mathlib.Omega.{arith}
use mathlib.Core.List.{flatten}
use go_io.Common.{
  ◌≡◌, inl, inr, Bool-cases, false, ◌&&◌, ◌||◌, refl, sym, ap, ◌∙◌, Bool, true, [], ◌∷◌,
  if◌then◌else◌,
}
use go_io.Common.Bytes.{Bytes, bytes, str_eq, str_eq_iff}
use go_io.Common.Results.{ok, err, not_exist}
use go_io.Common.GoMap.{has_key, lookup, insert, remove, remove_where}
use go_io.CoreText.{slash}
use go_io.CoreText.Plain
use go_io.CoreText.Plain.{plain, plain-IsLawful}
use go_io.Memory
use go_io.Memory.{
  MemoryMedium, new_memory_medium, read, is_file, mode_for_path, write_mode, delete, delete_all,
  deleted, stat, directory_exists, directory_has_children, put_file, ensure_ancestor_directories,
}
use go_io.Memory.Move
use go_io.Memory.Move.{IsRange, occurs, rename, rename_directory, rename_file}
use go_io.Memory.Move.Contents
use go_io.Memory.Move.Files.{rename_file_effect}
use go_io.Memory.Move.Directory.{is_replaced, rename_directory_effect}
use go_io.Memory.Move.Directories.{has_key-moved}
use go_io.Memory.Below.{IsSlashed, IsListStart}
use go_io.Memory.Tests.{one, two, text, notes}

rename_file_effect_example :
    (m' : MemoryMedium) × (rename plain notes one (bytes "c") [] [] ≡ ok m')
    × (read m' (bytes "c") ≡ (
        if str_eq one (bytes "c")
        then err not_exist
        else if str_eq (bytes "c") (bytes "c")
        then read notes one
        else read notes (bytes "c")))
    × (m'.directories ≡ notes.directories)
rename_file_effect_example =
    rename_file_effect plain notes one (bytes "c") (bytes "c") [] []
      (unfold is_file in unfold lookup in unfold str_eq in refl)

abbrev below : Bytes → Bool
below k = plain.has_prefix k (bytes "a/")

-- The two files of the directory are what its rename visits.
visit-below : (k j : Bytes) → str_eq j k ≡ true → below j ≡ true → below k ≡ true
visit-below k j e h = ap below (sym ((str_eq_iff j k).0 e)) ∙ h

one-below : below one ≡ true
unfolding Plain.starts
one-below = refl

two-below : below two ≡ true
unfolding Plain.starts
two-below = refl

-- The directory and one in it, both explicit.
abbrev filed : MemoryMedium
filed = record notes { directories = (bytes "a", true) ∷ (bytes "a/d", true) ∷ [] }

-- What ends in no slash.
bare : (path : Bytes) → plain.has_suffix path slash ≡ false → ¬ IsSlashed path
bare path h slashed = let ends = (plain-IsLawful.has_suffix_iff path slash).1 slashed in cc

a_starts : IsListStart (bytes "a") (bytes "a/")
a_starts = inr ((λ e. cc), inr (bare (bytes "a") (unfold Plain.ends str_eq in refl), refl))

c_starts : IsListStart (bytes "c") (bytes "c/")
c_starts = inr ((λ e. cc), inr (bare (bytes "c") (unfold Plain.ends str_eq in refl), refl))

filed-IsVisit : IsRange below filed.file_contents (two ∷ one ∷ [])
unfolding lookup
filed-IsVisit = record {
  distinct = unfold str_eq in (refl, (refl, tt));
  exact = λ k. ground (arith, visit-below k one, visit-below k two, one-below, two-below);
}

not_below : (k j : Bytes) → str_eq j k ≡ true → below j ≡ false → below k ≡ false
not_below k j e h = ap below (sym ((str_eq_iff j k).0 e)) ∙ h

c-not_below : below (bytes "c") ≡ false
unfolding Plain.starts
c-not_below = refl

occurs-filed :
    (k : Bytes)
    → occurs k (bytes "a/d" ∷ [])
      ≡ (has_key k (remove (bytes "a") (insert (bytes "c") true filed.directories)) && below k)
unfolding lookup
occurs-filed k =
    let moved = has_key-moved (bytes "a") (bytes "c") k filed.directories in
    elim (Bool-cases (str_eq (bytes "a/d") k)) [
      | inl inner ↦
          let same : bytes "a/d" ≡ k = (str_eq_iff (bytes "a/d") k).0 inner in
          let apart : str_eq (bytes "a") k ≡ false =
            ap (str_eq (bytes "a")) (sym same) ∙ (unfold str_eq in refl) in
          let under : below k ≡ true = ap below (sym same) ∙ (unfold Plain.starts in refl) in
          ground (arith, moved, inner, apart, under)
      | inr other ↦ ground (arith, moved, other, not_below k (bytes "c"), c-not_below)
    ]

filed-IsDirectoryVisit :
    IsRange below
      (remove (bytes "a") (insert (bytes "c") true filed.directories))
      (bytes "a/d" ∷ [])
filed-IsDirectoryVisit = record { distinct = (refl, tt); exact = occurs-filed }

-- No path below "c" is below "a".
a_c_apart : Contents.Apart plain plain-IsLawful (bytes "a/") (bytes "c/")
unfolding Plain.starts
a_c_apart r = refl

rename_directory_effect_example :
    (m' : MemoryMedium) × (rename plain filed
        (bytes "a")
        (bytes "c")
        (two ∷ one ∷ [])
        (bytes "a/d" ∷ [])
      ≡ ok m')
    × ((read m' (bytes "a/d") ≡ err not_exist)
        × (read m' (bytes "c/d") ≡ (
            if is_file filed (bytes "a/d")
            then read filed (bytes "a/d")
            else read filed (bytes "c/d")))
        × (read m' (bytes "d") ≡ read filed (bytes "d")))
    × ((has_key (bytes "a/d") m'.directories ≡ false)
        × (has_key (bytes "c/d") m'.directories ≡ (
            is_replaced filed (bytes "a") (bytes "c") (bytes "a/d")
            || is_replaced filed (bytes "a") (bytes "c") (bytes "c/d")))
        × (has_key (bytes "d") m'.directories
            ≡ is_replaced filed (bytes "a") (bytes "c") (bytes "d")))
rename_directory_effect_example =
    rename_directory_effect plain plain-IsLawful filed (bytes "a") (bytes "c") (bytes "a/")
      (bytes "c/") a_starts c_starts (bytes "d") (bytes "d") (two ∷ one ∷ []) (bytes "a/d" ∷ [])
      (unfold is_file lookup str_eq in refl) (unfold directory_exists lookup str_eq in refl)
      filed-IsVisit filed-IsDirectoryVisit a_c_apart (unfold Plain.starts in refl)
      (unfold Plain.starts in refl)

-- A directory renamed to a path inside it: the order of the visit decides whether a file is lost.
abbrev nested : MemoryMedium
nested = record notes { file_contents = (one, text) ∷ (bytes "a/b/1", bytes "x") ∷ [] }

inner_first :
    (rename_directory plain nested
      (bytes "a")
      (bytes "a/b")
      (bytes "a/b/1" ∷ one ∷ [])
      []).file_contents
    ≡ (bytes "a/b/b/1", bytes "x") ∷ (bytes "a/b/1", text) ∷ []
unfolding rename_directory Move.rename_files Move.move_content Move.move_key Move.renamed
    Memory.memory_child_prefix lookup insert remove remove_where str_eq Plain.ends Plain.starts
    Plain.trim flatten
inner_first = refl

outer_first :
    (rename_directory plain nested
      (bytes "a")
      (bytes "a/b")
      (one ∷ bytes "a/b/1" ∷ [])
      []).file_contents
    ≡ (bytes "a/b/b/1", text) ∷ []
unfolding rename_directory Move.rename_files Move.move_content Move.move_key Move.renamed
    Memory.memory_child_prefix lookup insert remove remove_where str_eq Plain.ends Plain.starts
    Plain.trim flatten
outer_first = refl
