-- ===== src/Node.antt =====
-- go/node/node.go: `Node`, an in-memory tree of files. A directory is what some file stands below.
-- The map holds pointers to `dataFile`s; no two keys share one, and a stored content is never
-- changed in place, so a file is its value.
mod Tests
pub mod Writing
pub mod Reachable
pub mod Moving
pub mod Archive
pub mod Streams
pub mod Appending
pub mod Reading
use go_io.Common.{
  ℕ, ◌+◌, Bool, true, false, not, ◌&&◌, ◌||◌, Option, none, some, List, [], ◌∷◌, ◌++◌,
  if◌then◌else◌,
}
use go_io.Common.Lists.{length}
use go_io.Common.Bytes.{Bytes, str_eq}
use go_io.Common.Results.{Result, ok, err, Error, not_exist, invalid}
use go_io.Common.GoMap.{GoMap, lookup, insert, remove, remove_where, any_key, has_key}
use go_io.CoreText.{CoreText, slash, dot}
use go_io.Medium.{Mode, Time, FileInfo, DirEntry, new_file_info, new_dir_entry, mode_dir}
use go_io.Fsutil.{sort_dir_entries_by_name}

-- `type dataFile struct`
pub record DataFile : Type 0 where
  pub name : Bytes
  pub content : Bytes
  pub mod_time : Time

-- `type Node struct`
pub record Node : Type 0 where
  pub files : GoMap DataFile

-- `New`
abbrev pub new : Node
new = record { files = [] }

-- The content that the map has for a key.
unfoldable pub stored : Node → Bytes → Result Bytes
stored node key = elim (lookup key node.files) [
  | none ↦ err not_exist
  | some file ↦ ok file.content
]

-- `files[name] = &dataFile{name: name, content: content, modTime: time.Now()}`
unfoldable pub put_data : Time → Bytes → Bytes → Node → Node
put_data now name content node = record {
  files = insert name (record { name = name; content = content; mod_time = now }) node.files;
}

-- `for p, f := range toAdd { node.files[p] = f }`
unfoldable pub put_all : GoMap DataFile → GoMap DataFile → GoMap DataFile
put_all [] files = files
put_all ((path, file) ∷ added) files = insert path file (put_all added files)

module _ (c : CoreText) where
  -- `core.TrimPrefix(name, "/")`
  abbrev pub trimmed : Bytes → Bytes
  trimmed path = c.trim_prefix path slash

  -- The path of a file or directory, empty for the root.
  abbrev pub resolved : Bytes → Bytes
  resolved path = if str_eq (trimmed path) dot then [] else trimmed path

  -- `AddData`
  unfoldable pub add_data : Time → Node → Bytes → Bytes → Node
  unfolding put_data
  add_data now node path content =
      if str_eq (trimmed path) []
      then node
      else if c.has_suffix (trimmed path) slash
      then node
      else put_data now (trimmed path) content node

  -- `ReadFile` and `Read`: the content, copied
  unfoldable pub read : Node → Bytes → Result Bytes
  unfolding stored
  read node path = stored node (trimmed path)

  -- `Write`
  unfoldable pub write : Time → Node → Bytes → Bytes → Result Node
  unfolding add_data
  write now node path content =
      if str_eq (trimmed path) [] || str_eq (trimmed path) dot
      then err invalid
      else ok (add_data now node (trimmed path) content)

  -- `WriteMode`: the mode is ignored
  unfoldable pub write_mode : Time → Node → Bytes → Bytes → Mode → Result Node
  unfolding write
  write_mode now node path content mode = write now node path content

  -- `EnsureDir`
  abbrev pub ensure_dir : Node → Bytes → Result Node
  ensure_dir node path = ok node

  -- `dataFileInfo` and `dirInfo`
  abbrev pub data_file_info : DataFile → FileInfo
  data_file_info file =
      new_file_info (c.path_base file.name) (length file.content) 0o444 file.mod_time false

  abbrev pub dir_info : Bytes → Time → FileInfo
  dir_info name now = new_file_info name 0 (mode_dir + 0o555) now true

  -- A file stands below the path.
  unfoldable pub has_below : Node → Bytes → Bool
  has_below node name = any_key (λ path. c.has_prefix path (name ++ slash)) node.files

  -- `Stat`
  unfoldable pub stat : Time → Node → Bytes → Result FileInfo
  unfolding has_below
  stat now node path = elim (lookup (resolved path) node.files) [
    | some file ↦ ok (data_file_info file)
    | none ↦
        if str_eq (resolved path) []
        then ok (dir_info dot now)
        else if has_below node (resolved path)
        then ok (dir_info (c.path_base (resolved path)) now)
        else err not_exist
  ]

  abbrev pub succeeds : Result FileInfo → Bool
  succeeds (ok info) = true
  succeeds (err e) = false

  abbrev pub is_directory : Result FileInfo → Bool
  is_directory (ok info) = info.is_dir
  is_directory (err e) = false

  -- `Exists`, `IsFile`, `IsDir`
  unfoldable pub exists : Time → Node → Bytes → Bool
  unfolding stat
  exists now node path = succeeds (stat now node path)

  unfoldable pub is_file : Node → Bytes → Bool
  is_file node path = has_key (trimmed path) node.files

  unfoldable pub is_dir : Time → Node → Bytes → Bool
  unfolding stat
  is_dir now node path = is_directory (stat now node path)

  -- `Delete`
  unfoldable pub delete : Node → Bytes → Result Node
  delete node path =
      if has_key (trimmed path) node.files
      then ok (record { files = remove (trimmed path) node.files })
      else err not_exist

  -- What `DeleteAll` deletes of a trimmed path.
  abbrev pub deleted : Bytes → Bytes → Bool
  deleted path key = str_eq key path || c.has_prefix key (path ++ slash)

  -- `DeleteAll`
  unfoldable pub delete_all : Node → Bytes → Result Node
  delete_all node path =
      if any_key (deleted (trimmed path)) node.files
      then ok (record { files = remove_where (deleted (trimmed path)) node.files })
      else err not_exist

  -- `core.Concat(newPrefix, core.TrimPrefix(filePath, oldPrefix))`
  unfoldable pub updated_path : Bytes → Bytes → Bytes → Bytes
  updated_path old_prefix new_prefix path =
      c.concat (new_prefix ∷ c.trim_prefix path old_prefix ∷ [])

  -- `toAdd`, collected from the map. The visit goes from the end of the map to its start.
  unfoldable pub to_add : Bytes → Bytes → GoMap DataFile → GoMap DataFile
  unfolding updated_path
  to_add old_prefix new_prefix [] = []
  to_add old_prefix new_prefix ((path, file) ∷ files) =
      let rest = to_add old_prefix new_prefix files in
      let new_path = updated_path old_prefix new_prefix path in
      if c.has_prefix path old_prefix
      then insert new_path (record file { name = new_path }) rest
      else rest

  -- `Rename` of a directory: `toDelete` are the paths with the prefix
  unfoldable pub rename_directory : Bytes → Bytes → Node → Result Node
  unfolding to_add put_all
  rename_directory old_prefix new_prefix node =
      let kept = remove_where (λ path. c.has_prefix path old_prefix) node.files in
      if any_key (λ path. c.has_prefix path old_prefix) node.files
      then ok (record { files = put_all (to_add old_prefix new_prefix node.files) kept })
      else err not_exist

  -- `Rename`
  unfoldable pub rename : Node → Bytes → Bytes → Result Node
  unfolding rename_directory
  rename node old_path new_path =
      let old = trimmed old_path in
      let new_name = trimmed new_path in
      elim (lookup old node.files) [
        | some file ↦ ok (record {
          files = remove old (insert new_name (record file { name = new_name }) node.files);
        })
        | none ↦ rename_directory (old ++ slash) (new_name ++ slash) node
      ]
