-- ===== src/Datanode/Reading.antt =====
-- go/datanode/medium.go: what `Medium` shows of its tree, and how its writers start.
use go_io.Common.{Bool, true, not, ◌||◌, List, [], ◌∷◌, ◌++◌, if◌then◌else◌}
use go_io.Common.Bytes.{Bytes, str_eq}
use go_io.Common.GoMap.{GoMap, insert, lookup}
use go_io.Common.Results.{Result, ok, err, ◌>>=◌, not_exist, invalid}
use go_io.Borg.{Borg}
use go_io.CoreText.{CoreText, slash, dot}
use go_io.Entries.{Listed, add_unseen}
use go_io.Fsutil.{sort_dir_entries_by_name}
use go_io.Medium.{
  FileInfo, DirEntry, new_file_info, new_dir_entry, directory_mode, mode_dir, zero_time,
}
use go_io.Memory.Listing.{first_of_two}
use go_io.Datanode.{normalise_entry_path, read_file}
use go_io.Datanode.Methods.{DataNodeMedium, WriteCloser, is_file_at, in_set}

-- `&fileInfo{name, isDir: true, mode: fs.ModeDir | 0755}`
abbrev pub directory_info : Bytes → FileInfo
directory_info name = new_file_info name 0 directory_mode zero_time true

-- `type dirEntry struct` and its methods
abbrev pub dir_entry : Bytes → DirEntry
dir_entry name = new_dir_entry name true mode_dir (directory_info name)

-- `seen[entry.Name()] = true` for the entries of the DataNode.
abbrev pub seen_names : List DirEntry → GoMap Bool → GoMap Bool
seen_names [] seen = seen
seen_names (entry ∷ entries) seen = seen_names entries (insert entry.name true seen)

module _ (c : CoreText) (B : Borg) where
  abbrev Medium : Type 0
  Medium = DataNodeMedium B

  abbrev normal : Bytes → Bytes
  normal path = normalise_entry_path c path

  -- The loop of `List` over the set of directories.
  unfoldable pub add_directories : Bytes → GoMap Bool → Listed → Listed
  unfolding add_unseen str_eq
  add_directories prefix [] s = s
  add_directories prefix ((path, made) ∷ directory_set) s =
      let rest = c.trim_prefix path prefix in
      let first = first_of_two (c.split_first rest slash) rest in
      if not (c.has_prefix path prefix) || str_eq rest []
      then add_directories prefix directory_set s
      else add_directories prefix directory_set (add_unseen s (dir_entry first))

  -- `List`
  unfoldable pub list : Medium → Bytes → Result (List DirEntry)
  unfolding normalise_entry_path add_directories sort_dir_entries_by_name lookup str_eq
  list medium file_path =
      let path = normal file_path in
      let prefix = if str_eq path [] then [] else path ++ slash in
      elim (B.read_dir medium.data_node path) [
        | err e ↦ if str_eq path [] || in_set c B medium path then ok [] else err not_exist
        | ok entries ↦
            let start : Listed = record { entries = entries; seen = seen_names entries [] } in
            ok
              (sort_dir_entries_by_name (add_directories prefix medium.directory_set start).entries)
      ]

  -- `Stat`
  unfoldable pub stat : Medium → Bytes → Result FileInfo
  unfolding normalise_entry_path lookup str_eq
  stat medium path =
      if str_eq (normal path) []
      then ok (directory_info dot)
      else elim (B.stat medium.data_node (normal path)) [
        | ok info ↦ ok info
        | err e ↦
            if in_set c B medium (normal path)
            then ok (directory_info (c.path_base (normal path)))
            else err not_exist
      ]

  -- `Open`
  unfoldable pub open_file : Medium → Bytes → Result B.File
  unfolding normalise_entry_path
  open_file medium path = B.open_file medium.data_node (normal path)

  -- `ReadStream`
  unfoldable pub read_stream : Medium → Bytes → Result B.File
  unfolding normalise_entry_path
  read_stream medium path = elim (B.open_file medium.data_node (normal path)) [
    | err e ↦ err not_exist
    | ok file ↦ ok file
  ]

  -- `Create`, which `WriteStream` calls
  unfoldable pub create : Bytes → Result WriteCloser
  unfolding normalise_entry_path str_eq
  create path =
      if str_eq (normal path) []
      then err invalid
      else ok (record { path = normal path; buffer = [] })

  -- `Append`
  unfoldable pub append : Medium → Bytes → Result WriteCloser
  unfolding normalise_entry_path is_file_at read_file str_eq
  append medium path =
      if str_eq (normal path) []
      then err invalid
      else ((if is_file_at c B medium (normal path)
            then read_file B medium.data_node (normal path)
            else ok [])
          >>= λ existing. ok (record { path = normal path; buffer = existing }))

  -- `Exists`
  unfoldable pub exists : Medium → Bytes → Bool
  unfolding normalise_entry_path lookup str_eq
  exists medium path =
      if str_eq (normal path) [] then true else elim (B.stat medium.data_node (normal path)) [
        | ok info ↦ true
        | err e ↦ in_set c B medium (normal path)
      ]

  -- `IsDir`
  unfoldable pub is_dir : Medium → Bytes → Bool
  unfolding normalise_entry_path lookup str_eq
  is_dir medium path =
      if str_eq (normal path) [] then true else elim (B.stat medium.data_node (normal path)) [
        | ok info ↦ info.is_dir
        | err e ↦ in_set c B medium (normal path)
      ]
