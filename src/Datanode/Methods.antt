-- ===== src/Datanode/Methods.antt =====
-- go/datanode/medium.go: the methods of `Medium` and its writers. A method that changes the medium
-- gives its result and the medium that it leaves. `range` visits a map in the order of its list.
-- Fuel bounds the rounds of `ensureDirsLocked`.
use go_io.Common.{ℕ, Bool, false, not, ◌||◌, none, some, List, [], ◌∷◌, ◌++◌, if◌then◌else◌}
use go_io.Common.Lists.{length}
use go_io.Common.Bytes.{Bytes, str_eq}
use go_io.Common.GoMap.{GoMap, lookup, remove, any_key}
use go_io.Common.Results.{Result, ok, err, ◌>>=◌, not_exist, exist, invalid, permission}
use go_io.Borg.{Borg}
use go_io.CoreText.{CoreText, slash}
use go_io.Medium.{FileInfo}
use go_io.Storage.{Outcome}
use go_io.Datanode.{normalise_entry_path, ensure_dirs, collect_all, remove_file}

-- `type Medium struct`
pub record DataNodeMedium (B : Borg) : Type 0 where
  pub data_node : B.DataNode
  pub directory_set : GoMap Bool

-- `type writeCloser struct`; its medium is the argument of `writer_close`.
pub record WriteCloser : Type 0 where
  pub path : Bytes
  pub buffer : Bytes

-- `writeCloser.Write`
unfoldable pub writer_write : WriteCloser → Bytes → WriteCloser × ℕ
writer_write writer payload = (record writer { buffer = writer.buffer ++ payload }, length payload)

module _ (c : CoreText) (B : Borg) where
  abbrev Medium : Type 0
  Medium = DataNodeMedium B

  abbrev pub Changed : Type 0
  Changed = Outcome Medium (Unit {0})

  -- `New`
  abbrev pub new : Medium
  new = record { data_node = B.new; directory_set = [] }

  -- `Snapshot`
  unfoldable pub snapshot : Medium → Result Bytes
  snapshot medium = B.to_tar medium.data_node

  abbrev normal : Bytes → Bytes
  normal path = normalise_entry_path c path

  abbrev is_directory : Result FileInfo → Bool
  is_directory (ok info) = info.is_dir
  is_directory (err e) = false

  -- `isFileLocked`
  unfoldable pub is_file_at : Medium → Bytes → Bool
  is_file_at medium path = elim (B.stat medium.data_node path) [
    | ok info ↦ not info.is_dir
    | err e ↦ false
  ]

  -- `IsFile`
  unfoldable pub is_file : Medium → Bytes → Bool
  unfolding is_file_at normalise_entry_path
  is_file medium path = is_file_at medium (normal path)

  -- `Read`
  unfoldable pub read : Medium → Bytes → Result Bytes
  unfolding normalise_entry_path
  read medium path = elim (B.open_file medium.data_node (normal path)) [
    | err e ↦ err not_exist
    | ok file ↦ B.file_stat file >>= λ info. if info.is_dir then err invalid else B.read_all file
  ]

  -- The set with a directory and its parents, in the medium.
  abbrev pub marked : Medium → Result (GoMap Bool) → Changed
  marked medium (ok directory_set) = (ok tt, record medium { directory_set = directory_set })
  marked medium (err e) = (err e, medium)

  module _ (fuel : ℕ) where
    -- `AddData`, and the directories above the file.
    abbrev pub add_file : Medium → Bytes → Bytes → Changed
    add_file medium path content =
        marked (record medium { data_node = B.add_data medium.data_node path content })
          (ensure_dirs c fuel (c.path_dir path) medium.directory_set)

    -- `Write`, which `WriteMode` calls
    unfoldable pub write : Medium → Bytes → Bytes → Changed
    unfolding normalise_entry_path ensure_dirs str_eq
    write medium path content =
        if str_eq (normal path) []
        then (err invalid, medium)
        else add_file medium (normal path) content

    -- `EnsureDir`
    unfoldable pub ensure_dir : Medium → Bytes → Changed
    unfolding normalise_entry_path ensure_dirs str_eq
    ensure_dir medium path =
        if str_eq (normal path) []
        then (ok tt, medium)
        else marked medium (ensure_dirs c fuel (normal path) medium.directory_set)

    -- `writeCloser.Close`
    unfoldable pub writer_close : Medium → WriteCloser → Changed
    unfolding ensure_dirs
    writer_close medium writer = add_file medium writer.path writer.buffer

    -- The loop of `rebuildDirectorySetLocked`.
    unfoldable pub rebuild_from : List Bytes → GoMap Bool → Result (GoMap Bool)
    unfolding ensure_dirs
    rebuild_from [] directory_set = ok directory_set
    rebuild_from (name ∷ names) directory_set =
        ensure_dirs c fuel (c.path_dir name) directory_set >>= λ more. rebuild_from names more

    -- `rebuildDirectorySetLocked`, on an empty set: a walk that fails leaves it empty.
    unfoldable pub rebuild : B.DataNode → Result (GoMap Bool)
    unfolding rebuild_from collect_all
    rebuild node = elim (collect_all B node) [ err e ↦ ok [] | ok names ↦ rebuild_from names [] ]

    -- `FromTar`
    unfoldable pub from_tar : Bytes → Result Medium
    unfolding rebuild
    from_tar tarball = B.from_tar tarball >>= λ node. rebuild node >>= λ directory_set.
        ok (record { data_node = node; directory_set = directory_set })

    -- `Restore`
    unfoldable pub restore : Medium → Bytes → Changed
    unfolding from_tar
    restore medium tarball = elim (from_tar tarball) [
      | err e ↦ (err e, medium)
      | ok restored ↦ (ok tt, restored)
    ]

  -- `hasPrefixLocked`
  abbrev any_prefix : Bytes → List Bytes → Bool
  any_prefix prefix [] = false
  any_prefix prefix (name ∷ names) = c.has_prefix name prefix || any_prefix prefix names

  unfoldable pub has_prefix_below : Medium → Bytes → Result Bool
  unfolding collect_all any_key
  has_prefix_below medium prefix = collect_all B medium.data_node >>= λ names.
      ok
        (any_prefix prefix names || any_key (λ path. c.has_prefix path prefix) medium.directory_set)

  -- `deleteDirectoryLocked`
  unfoldable pub delete_directory : Medium → Bytes → Changed
  unfolding has_prefix_below remove
  delete_directory medium path = elim (has_prefix_below medium (path ++ slash)) [
    | err e ↦ (err e, medium)
    | ok has_children ↦
        if has_children
        then (err exist, medium)
        else (ok tt, record medium { directory_set = remove path medium.directory_set })
  ]

  -- `medium.directorySet[path]`
  abbrev pub in_set : Medium → Bytes → Bool
  in_set medium path = elim (lookup path medium.directory_set) [ some made ↦ made | none ↦ false ]

  abbrev pub removed : Medium → Result B.DataNode → Changed
  removed medium (ok node) = (ok tt, record medium { data_node = node })
  removed medium (err e) = (err e, medium)

  -- `Delete`, with `deleteDirectoryFallbackLocked`
  unfoldable pub delete : Medium → Bytes → Changed
  unfolding normalise_entry_path delete_directory remove_file lookup str_eq
  delete medium path =
      if str_eq (normal path) []
      then (err permission, medium)
      else elim (B.stat medium.data_node (normal path)) [
        | err e ↦
            if in_set medium (normal path)
            then delete_directory medium (normal path)
            else (err not_exist, medium)
        | ok info ↦
            if info.is_dir
            then delete_directory medium (normal path)
            else removed medium (remove_file B medium.data_node (normal path))
      ]
