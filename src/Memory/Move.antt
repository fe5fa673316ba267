-- ===== src/Memory/Move.antt =====
-- go/io.go: `MemoryMedium.Rename`. A directory is renamed key by key, in the order in which `range`
-- visits the collected keys; that order is an argument.
pub mod Files
pub mod Contents
pub mod Directories
pub mod Directory
use go_io.Common.{
  ◌≡◌, Bool, true, false, Option, none, some, List, [], ◌∷◌, ◌++◌, ◌&&◌, ◌||◌, if◌then◌else◌,
}
use go_io.Common.Bytes.{Bytes, str_eq}
use go_io.Common.Results.{Result, ok, err, Error, not_exist}
use go_io.Common.GoMap.{GoMap, lookup, insert, remove, has_key}
use go_io.CoreText.{CoreText}
use go_io.Memory.{MemoryMedium, directory_exists, memory_child_prefix}

-- `if v, ok := m[old]; ok { m[new] = v; delete(m, old) }`
unfoldable pub move_key {ℓ} : {V : Type ℓ} → Bytes → Bytes → GoMap V → GoMap V
move_key old new m = elim (lookup old m) [ none ↦ m | some v ↦ remove old (insert new v m) ]

-- `m[new] = m[old]; delete(m, old)`: a missing key reads as the empty string.
abbrev pub content_at : Option Bytes → Bytes
content_at none = []
content_at (some content) = content

unfoldable pub move_content : Bytes → Bytes → GoMap Bytes → GoMap Bytes
move_content old new m = remove old (insert new (content_at (lookup old m)) m)

-- `renameFile`: none if there is no such file
unfoldable pub rename_file : MemoryMedium → Bytes → Bytes → Option MemoryMedium
unfolding move_key
rename_file medium old_path new_path = elim (lookup old_path medium.file_contents) [
  | none ↦ none
  | some content ↦ some (record medium {
    file_contents = remove old_path (insert new_path content medium.file_contents);
    file_modes = move_key old_path new_path medium.file_modes;
    modification_times = move_key old_path new_path medium.modification_times;
  })
]

-- The keys that pass a test, each once, in some order: what the first loop of
-- `renameFilesWithPrefix` or `renameDirectoriesWithPrefix` collects.
abbrev pub occurs : Bytes → List Bytes → Bool
occurs k [] = false
occurs k (j ∷ keys) = str_eq j k || occurs k keys

abbrev pub Distinct : List Bytes → Type 0
Distinct [] = Unit
Distinct (k ∷ keys) = (occurs k keys ≡ false) × Distinct keys

pub record IsRange {ℓ} {V : Type ℓ} (p : Bytes → Bool) (m : GoMap V) (keys : List Bytes)
    : Type 0 where
  pub distinct : Distinct keys
  pub exact : (k : Bytes) → occurs k keys ≡ (has_key k m && p k)

module _ (c : CoreText) where
  -- `core.Concat(newPrefix, core.TrimPrefix(path, oldPrefix))`
  unfoldable pub renamed : Bytes → Bytes → Bytes → Bytes
  renamed old_prefix new_prefix path = c.concat (new_prefix ∷ c.trim_prefix path old_prefix ∷ [])

  -- The second loop of `renameFilesWithPrefix`, over the keys of `filesToMove`.
  unfoldable pub rename_files : Bytes → Bytes → List Bytes → MemoryMedium → MemoryMedium
  unfolding move_content move_key renamed
  rename_files old_prefix new_prefix [] medium = medium
  rename_files old_prefix new_prefix (old ∷ visit) medium =
      let new = renamed old_prefix new_prefix old in
      rename_files old_prefix new_prefix visit (record medium {
        file_contents = move_content old new medium.file_contents;
        modification_times = move_key old new medium.modification_times;
        file_modes = move_key old new medium.file_modes;
      })

  -- The second loop of `renameDirectoriesWithPrefix`, over the keys of `dirsToMove`.
  unfoldable pub rename_directories : Bytes → Bytes → List Bytes → GoMap Bool → GoMap Bool
  unfolding renamed
  rename_directories old_prefix new_prefix [] directories = directories
  rename_directories old_prefix new_prefix (old ∷ visit) directories =
      rename_directories old_prefix new_prefix visit
        (remove old (insert (renamed old_prefix new_prefix old) true directories))

  -- `renameDirectory`
  unfoldable pub rename_directory :
      MemoryMedium → Bytes → Bytes → List Bytes → List Bytes → MemoryMedium
  unfolding rename_files rename_directories
  rename_directory medium old_path new_path visit_files visit_directories =
      let moved = remove old_path (insert new_path true medium.directories) in
      let old_prefix = memory_child_prefix c old_path in
      let new_prefix = memory_child_prefix c new_path in
      let files =
        rename_files old_prefix new_prefix visit_files (record medium { directories = moved }) in
      record files {
        directories = rename_directories old_prefix new_prefix visit_directories files.directories;
      }

  -- `Rename`
  unfoldable pub rename :
      MemoryMedium → Bytes → Bytes → List Bytes → List Bytes → Result MemoryMedium
  rename medium old_path new_path visit_files visit_directories =
      elim (rename_file medium old_path new_path) [
        | some renamed_medium ↦ ok renamed_medium
        | none ↦
            if directory_exists c medium old_path
            then ok (rename_directory medium old_path new_path visit_files visit_directories)
            else err not_exist
      ]
