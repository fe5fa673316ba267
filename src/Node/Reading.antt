-- ===== src/Node/Reading.antt =====
-- go/node/node.go: `ReadDir`, `List` and `CopyTo`.
pub mod Names
pub mod Copying
use native.Mathlib.Omega.{arith}
use mathlib.Core.List.{Perm}
use go_io.Common.{
  ◌≡◌, ◌⊎◌, inl, inr, Bool, Bool-cases, true, false, not, ◌&&◌, ◌||◌, Option, none, some, List, [],
  ◌∷◌, ◌++◌, if◌then◌else◌,
}
use go_io.Common.Bytes.{Bytes, str_eq}
use go_io.Common.Results.{Result, Result-cases, ok, err, Error, not_exist, invalid}
use go_io.Common.GoMap.{GoMap, lookup, insert, has_key}
use go_io.Entries.{Listed, nothing_listed}
use go_io.CoreText.{CoreText, slash, dot}
use go_io.Medium.{Time, FileInfo, DirEntry, Medium, new_dir_entry}
use go_io.Fsutil.{sort_dir_entries_by_name}
use go_io.Fsutil.Sorted.{IsAscending, sort_dir_entries_by_name-IsAscending}
use go_io.Node.{Node, DataFile, trimmed, resolved, stat, data_file_info, dir_info}

-- `core.SplitN(relPath, "/", 2)[0]`; the split has one part at least
abbrev pub first_part : List Bytes → Bytes
first_part [] = []
first_part (part ∷ parts) = part

-- `fs.FileInfoToDirEntry`; its `Type` is the type of the mode
abbrev pub file_info_to_dir_entry : FileInfo → DirEntry
file_info_to_dir_entry info = new_dir_entry info.name info.is_dir info.mode info

module _ (c : CoreText) where
  -- The entry for a path below the directory, relative to it.
  abbrev pub entry_for : Time → DataFile → Bytes → DirEntry
  entry_for now file rel_path =
      if c.contains rel_path slash
      then file_info_to_dir_entry (dir_info c (first_part (c.split_first rel_path slash)) now)
      else file_info_to_dir_entry (data_file_info c file)

  -- One round of the loop of `ReadDir`.
  unfoldable pub collect_file : Time → Bytes → Listed → Bytes → DataFile → Listed
  collect_file now prefix s path file =
      let rel_path = c.trim_prefix path prefix in
      let first_component = first_part (c.split_first rel_path slash) in
      if not (c.has_prefix path prefix)
      then s
      else if has_key first_component s.seen
      then s
      else record {
        entries = s.entries ++ (entry_for now file rel_path ∷ []);
        seen = insert first_component true s.seen;
      }

  -- The loop of `ReadDir`.
  unfoldable pub collect : Time → Bytes → GoMap DataFile → Listed → Listed
  unfolding collect_file
  collect now prefix [] s = s
  collect now prefix ((path, file) ∷ files) s =
      collect now prefix files (collect_file now prefix s path file)

  -- The prefix of the paths below a directory.
  abbrev pub directory_prefix : Bytes → Bytes
  directory_prefix name = if str_eq name [] then [] else name ++ slash

  -- `ReadDir`
  unfoldable pub read_dir : Time → Node → Bytes → Result (List DirEntry)
  unfolding collect
  read_dir now node path = elim (stat c now node (resolved c path)) [
    | err e ↦ err not_exist
    | ok info ↦
        if info.is_dir
        then ok (
            sort_dir_entries_by_name
              (collect now (directory_prefix (resolved c path)) node.files nothing_listed).entries)
        else err invalid
  ]

  -- `List`
  unfoldable pub list : Time → Node → Bytes → Result (List DirEntry)
  unfolding read_dir
  list now node path =
      if str_eq (trimmed c path) [] || str_eq (trimmed c path) dot
      then read_dir now node dot
      else read_dir now node (trimmed c path)

-- The state of the target after the calls of `Write`, and the error that ended them, if any.
abbrev pub outcome {ℓ} : {S : Type ℓ} → S → Result S → S × Option Error
outcome before (ok after) = (after, none)
outcome before (err e) = (before, some e)

module _ (c : CoreText) (target : Medium) (now : Time) where
  -- The loop of `CopyTo` over the files.
  unfoldable pub copy_files :
      Bytes → Bytes → Bytes → GoMap DataFile → target.State → target.State × Option Error
  copy_files prefix source_path destination_path [] t = (t, none)
  copy_files prefix source_path destination_path ((path, file) ∷ files) t =
      let relative_path = c.trim_prefix path prefix in
      let destination =
        if str_eq relative_path []
        then destination_path
        else c.concat (destination_path ∷ slash ∷ relative_path ∷ []) in
      elim (c.has_prefix path prefix || str_eq path source_path) [
        | false ↦ copy_files prefix source_path destination_path files t
        | true ↦ elim (target.write now t destination file.content) [
          | ok written ↦ copy_files prefix source_path destination_path files written
          | err e ↦ (t, some e)
        ]
      ]

  -- `CopyTo`
  unfoldable pub copy_to : Node → target.State → Bytes → Bytes → target.State × Option Error
  unfolding copy_files
  copy_to node t path destination_path =
      let source_path = resolved c path in
      let prefix =
        if not (str_eq source_path []) && not (c.has_suffix source_path slash)
        then source_path ++ slash
        else source_path in
      elim (stat c now node source_path) [
        | err e ↦ (t, some e)
        | ok info ↦
            if info.is_dir
            then copy_files prefix source_path destination_path node.files t
            else elim (lookup source_path node.files) [
              | none ↦ (t, some not_exist)
              | some file ↦ outcome t (target.write now t destination_path file.content)
            ]
      ]
