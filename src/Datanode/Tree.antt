-- ===== src/Datanode/Tree.antt =====
-- go/datanode/medium.go: `DeleteAll` and `Rename`, which work on all that is below a path.
use go_io.Common.{ℕ, Bool, true, false, not, ◌&&◌, ◌||◌, List, [], ◌∷◌, ◌++◌, if◌then◌else◌}
use go_io.Common.Bytes.{Bytes, str_eq}
use go_io.Common.GoMap.{GoMap, insert, remove, remove_where, any_key}
use go_io.Common.Results.{Result, ok, err, not_exist, permission}
use go_io.Borg.{Borg}
use go_io.CoreText.{CoreText, slash}
use go_io.Storage.{Outcome}
use go_io.Datanode.{normalise_entry_path, ensure_dirs, collect_all, read_file, remove_file}
use go_io.Datanode.Methods.{DataNodeMedium, Changed, is_file_at, add_file, removed}

module _ (c : CoreText) (B : Borg) where
  abbrev Medium : Type 0
  Medium = DataNodeMedium B

  -- A result that says whether something was found, and the medium.
  abbrev pub Found : Type 0
  Found = Outcome Medium Bool

  abbrev found_if_removed : Medium → Result B.DataNode → Found
  found_if_removed medium (ok node) = (ok true, record medium { data_node = node })
  found_if_removed medium (err e) = (err e, medium)

  -- `deleteFileIfPresentLocked`
  unfoldable pub delete_file_if_present : Medium → Bytes → Found
  unfolding is_file_at remove_file
  delete_file_if_present medium path =
      if is_file_at c B medium path
      then found_if_removed medium (remove_file B medium.data_node path)
      else (ok false, medium)

  abbrev also_found : Found → Found
  also_found (ok found, medium) = (ok true, medium)
  also_found (err e, medium) = (err e, medium)

  -- `deleteEntriesMatchingLocked`
  unfoldable pub delete_entries_matching : Medium → List Bytes → Bytes → Bytes → Found
  unfolding remove_file str_eq
  delete_entries_matching medium [] path prefix = (ok false, medium)
  delete_entries_matching medium (name ∷ names) path prefix =
      if not (str_eq name path) && not (c.has_prefix name prefix)
      then delete_entries_matching medium names path prefix
      else elim (remove_file B medium.data_node name) [
        | err e ↦ (err e, medium)
        | ok node ↦
            also_found
              (delete_entries_matching (record medium { data_node = node }) names path prefix)
      ]

  abbrev pub matches : Bytes → Bytes → Bytes → Bool
  matches path prefix directory = str_eq directory path || c.has_prefix directory prefix

  -- `deleteDirectoriesMatchingLocked`: whether one was found, and the set.
  abbrev pub delete_directories_matching : Bytes → Bytes → GoMap Bool → Bool × GoMap Bool
  delete_directories_matching path prefix directory_set = (
    any_key (matches path prefix) directory_set,
    remove_where (matches path prefix) directory_set,
  )

  abbrev then_found : Found → (Bool → Medium → Changed c B) → Changed c B
  then_found (err e, medium) next = (err e, medium)
  then_found (ok found, medium) next = next found medium

  -- The end of `DeleteAll`.
  abbrev delete_directories : Bytes → Bytes → Bool → Medium → Changed c B
  delete_directories path prefix found medium =
      let (found_directory, directory_set) =
        delete_directories_matching path prefix medium.directory_set in
      (
        if found_directory || found then ok tt else err not_exist,
        record medium { directory_set = directory_set },
      )

  abbrev delete_entries : Bytes → Bytes → Bool → Medium → Changed c B
  delete_entries path prefix found medium = elim (collect_all B medium.data_node) [
    | err e ↦ (err e, medium)
    | ok names ↦
        then_found (delete_entries_matching medium names path prefix)
          (λ deleted. delete_directories path prefix (found || deleted))
  ]

  -- `DeleteAll`
  unfoldable pub delete_all : Medium → Bytes → Changed c B
  unfolding normalise_entry_path delete_file_if_present delete_entries_matching collect_all any_key
      remove_where str_eq
  delete_all medium file_path =
      let path = normalise_entry_path c file_path in
      if str_eq path []
      then (err permission, medium)
      else then_found (delete_file_if_present medium path) (delete_entries path (path ++ slash))

  -- The directories below a path, in the order in which `range` visits them.
  unfoldable pub directories_to_move : Bytes → GoMap Bool → List Bytes
  unfolding str_eq
  directories_to_move old [] = []
  directories_to_move old ((directory, made) ∷ directory_set) =
      let rest = directories_to_move old directory_set in
      if matches old (old ++ slash) directory then directory ∷ rest else rest

  -- The second loop over the directories of `renameDirectoryLocked`.
  unfoldable pub move_directories : Bytes → Bytes → List Bytes → GoMap Bool → GoMap Bool
  unfolding insert remove
  move_directories old new [] directory_set = directory_set
  move_directories old new (directory ∷ directories) directory_set =
      move_directories old new directories (
        insert (c.concat (new ∷ c.trim_prefix directory old ∷ [])) true
          (remove directory directory_set))

  -- The loop over the files of `renameDirectoryLocked`.
  unfoldable pub move_entries : Medium → List Bytes → Bytes → Bytes → Changed c B
  unfolding read_file remove_file
  move_entries medium [] old_prefix new_prefix = (ok tt, medium)
  move_entries medium (name ∷ names) old_prefix new_prefix =
      let new_name = c.concat (new_prefix ∷ c.trim_prefix name old_prefix ∷ []) in
      if not (c.has_prefix name old_prefix)
      then move_entries medium names old_prefix new_prefix
      else elim (read_file B medium.data_node name) [
        | err e ↦ (err e, medium)
        | ok content ↦
            let added = B.add_data medium.data_node new_name content in
            elim (remove_file B added name) [
              | err e ↦ (err e, record medium { data_node = added })
              | ok node ↦
                  move_entries (record medium { data_node = node }) names old_prefix new_prefix
            ]
      ]

  abbrev then_move : Bytes → Bytes → Changed c B → Changed c B
  then_move old new (err e, medium) = (err e, medium)
  then_move old new (ok done, medium) = (
    ok tt,
    record medium {
      directory_set =
          move_directories old new (directories_to_move old medium.directory_set)
            medium.directory_set;
    },
  )

  -- `renameDirectoryLocked`
  unfoldable pub rename_directory : Medium → Bytes → Bytes → Changed c B
  unfolding move_entries move_directories directories_to_move collect_all
  rename_directory medium old new = elim (collect_all B medium.data_node) [
    | err e ↦ (err e, medium)
    | ok names ↦ then_move old new (move_entries medium names (old ++ slash) (new ++ slash))
  ]

  module _ (fuel : ℕ) where
    abbrev pub then_remove : Bytes → Changed c B → Changed c B
    then_remove old (err e, medium) = (err e, medium)
    then_remove old (ok done, medium) = removed c B medium (remove_file B medium.data_node old)

    -- `renameFileLocked`
    unfoldable pub rename_file : Medium → Bytes → Bytes → Changed c B
    unfolding read_file remove_file ensure_dirs
    rename_file medium old new = elim (read_file B medium.data_node old) [
      | err e ↦ (err e, medium)
      | ok content ↦ then_remove old (add_file c B fuel medium new content)
    ]

    -- `Rename`
    unfoldable pub rename : Medium → Bytes → Bytes → Changed c B
    unfolding normalise_entry_path rename_file rename_directory
    rename medium old_path new_path =
        let old = normalise_entry_path c old_path in
        let new = normalise_entry_path c new_path in
        elim (B.stat medium.data_node old) [
          | err e ↦ (err not_exist, medium)
          | ok info ↦
              if info.is_dir then rename_directory medium old new else rename_file medium old new
        ]
