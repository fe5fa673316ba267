-- ===== src/Datanode.antt =====
-- go/datanode/medium.go: `Medium`, a DataNode of Borg and the set of the directories that were made.
-- The lock is left out: a method holds it from start to end, but for `Append` and the writers.
pub mod Methods
pub mod Tree
pub mod Reading
pub mod Removing
pub mod Renaming
pub mod Rooted
mod Tests
use go_io.Common.{
  ℕ, zero, suc, Bool, true, false, not, ◌&&◌, ◌||◌, Option, none, some, List, [], ◌∷◌, ◌++◌,
  if◌then◌else◌,
}
use go_io.Common.Lists.{length}
use go_io.Common.Bytes.{Bytes, str_eq}
use go_io.Common.GoMap.{GoMap, lookup, insert, remove, remove_where, any_key, has_key}
use go_io.Common.Results.{
  Result, ok, err, Error, ◌>>=◌, not_exist, exist, invalid, permission, out_of_fuel,
}
use go_io.Borg.{Borg}
use go_io.CoreText.{CoreText, slash, dot}
use go_io.Medium.{FileInfo, DirEntry, new_file_info, directory_mode, zero_time}
use go_io.Memory.{is_top}
use go_io.Storage.{Outcome}

-- `normaliseEntryPath`
unfoldable pub normalise_entry_path : CoreText → Bytes → Bytes
unfolding str_eq
normalise_entry_path c file_path =
    let clean = c.clean_path (c.trim_prefix file_path slash) in
    if str_eq clean dot then [] else clean

-- The loop of `ensureDirsLocked`.
unfoldable pub ensure_dirs : CoreText → ℕ → Bytes → GoMap Bool → Result (GoMap Bool)
unfolding insert str_eq
ensure_dirs c zero directory_path directory_set = err out_of_fuel
ensure_dirs c (suc fuel) directory_path directory_set =
    let marked = insert directory_path true directory_set in
    let next = ensure_dirs c fuel (c.path_dir directory_path) marked in
    if is_top directory_path
    then ok directory_set
    else if str_eq (c.path_dir directory_path) dot
    then ok marked
    else next

-- The paths of files that `collectAllLocked` appends.
unfoldable pub file_names : List (Bytes × Bool) → List Bytes
file_names [] = []
file_names ((path, is_dir) ∷ entries) =
    let rest = file_names entries in if is_dir then rest else path ∷ rest

module _ (B : Borg) where
  -- `collectAllLocked`
  unfoldable pub collect_all : B.DataNode → Result (List Bytes)
  unfolding file_names
  collect_all node = B.walk node >>= λ entries. ok (file_names entries)

  abbrev closed : B.File → Result Bytes → Result Bytes
  closed file (err e) = err e
  closed file (ok content) = B.close file >>= λ done. ok content

  -- `readFileLocked`
  unfoldable pub read_file : B.DataNode → Bytes → Result Bytes
  read_file node path = B.open_file node path >>= λ file. closed file (B.read_all file)

  -- The loop of `removeFileLocked` over the entries, into a new DataNode.
  unfoldable pub copy_without : B.DataNode → Bytes → List Bytes → B.DataNode → Result B.DataNode
  unfolding read_file str_eq
  copy_without node target [] copy = ok copy
  copy_without node target (name ∷ names) copy =
      if str_eq name target
      then copy_without node target names copy
      else (read_file node name >>= λ content.
          copy_without node target names (B.add_data copy name content))

  -- `removeFileLocked`
  unfoldable pub remove_file : B.DataNode → Bytes → Result B.DataNode
  unfolding collect_all copy_without
  remove_file node target = collect_all node >>= λ names. copy_without node target names B.new
