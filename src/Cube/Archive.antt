-- ===== src/Cube/Archive.antt =====
-- go/cube/cube.go: `Pack` and `Unpack`, which copy the files of a medium into an encrypted archive
-- and back. The archive is a DataNode of the package Borg, a parameter; the file that holds it
-- is written and read through the local medium.
pub mod Named
pub mod Endless
use go_io.Common.{
  ℕ, zero, suc, Bool, true, false, ◌&&◌, ◌||◌, Option, none, some, List, [], ◌∷◌, ◌++◌,
  if◌then◌else◌,
}
use go_io.Common.Bytes.{Bytes, bytes, str_eq}
use go_io.Common.Results.{Result, ok, err, Error, ◌>>=◌, invalid, out_of_fuel}
use go_io.Borg.{Borg}
use go_io.CoreText.{CoreText, slash, dot}
use go_io.PathText.{PathText, dot_dot, backslash, any_dot_dot}
use go_io.Medium.{Mode, DirEntry, file_mode}
use go_io.Storage.{Storage, Outcome}

module _ (c : CoreText) (t : PathText) where
  -- `archiveChildPath`
  unfoldable pub archive_child_path : Bytes → Bytes → Bytes
  unfolding str_eq
  archive_child_path parent raw_name =
      let name = c.trim_prefix (c.clean_path raw_name) slash in
      if str_eq name dot
      then parent
      else if str_eq parent []
      then name
      else if str_eq name parent || c.has_prefix name (parent ++ slash)
      then name
      else t.path_join (parent ∷ name ∷ [])

  -- `hasParentPathSegment`
  unfoldable pub has_parent_path_segment : Bytes → Bool
  unfolding any_dot_dot
  has_parent_path_segment name = any_dot_dot (t.split name slash)

  -- `validatedTarEntryName`: the name, or none for an entry that is left out.
  unfoldable pub validated_tar_entry_name : Bytes → Result (Option Bytes)
  unfolding has_parent_path_segment str_eq
  validated_tar_entry_name raw_name =
      let name = c.trim_prefix raw_name slash in
      let clean = c.clean_path name in
      if str_eq raw_name []
      then ok none
      else if c.has_prefix raw_name slash || c.contains raw_name backslash
      then err invalid
      else if str_eq name [] || c.has_suffix name slash
      then ok none
      else if has_parent_path_segment name
      then err invalid
      else if str_eq clean dot
          || (str_eq clean [] || (str_eq clean dot_dot || c.has_prefix clean (dot_dot ++ slash)))
      then err invalid
      else ok (some clean)

-- `addMediumPathToBorgDataNode` and `archiveMediumToBorgDataNode`. Fuel bounds the depth.
module _ (c : CoreText) (t : PathText) (B : Borg) (source : Storage) where
  -- The call for a directory.
  abbrev pub Walk : Type 0
  Walk = Bytes → B.DataNode → Result B.DataNode

  -- The loop over the entries of a directory.
  unfoldable pub add_entries :
      Walk → source.State → Bytes → List DirEntry → B.DataNode → Result B.DataNode
  unfolding archive_child_path
  add_entries walk s directory_path [] node = ok node
  add_entries walk s directory_path (entry ∷ entries) node =
      let child = archive_child_path c t directory_path entry.name in
      (if entry.is_dir
        then walk child node
        else (source.read s child >>= λ content. ok (B.add_data node child content)))
      >>= λ added. add_entries walk s directory_path entries added

  unfoldable pub add_medium_path : ℕ → source.State → Bytes → B.DataNode → Result B.DataNode
  unfolding add_entries
  add_medium_path zero s directory_path node = err out_of_fuel
  add_medium_path (suc fuel) s directory_path node =
      let walk = add_medium_path fuel s in
      source.list s directory_path >>= λ entries. add_entries walk s directory_path entries node

  -- `archiveMediumToBorgDataNode`
  unfoldable pub archive_medium : ℕ → source.State → Result B.DataNode
  unfolding add_medium_path
  archive_medium fuel s = add_medium_path fuel s [] B.new

-- `writeBorgDataNodeToMedium` and what it calls.
module _ (c : CoreText) (t : PathText) (B : Borg) (destination : Storage) where
  abbrev pub State : Type 0
  State = destination.State

  -- Two calls in a row, the second unless the first fails.
  abbrev pub then_run : Outcome State Unit → (State → Outcome State Unit) → Outcome State Unit
  then_run (err e, s) next = (err e, s)
  then_run (ok done, s) next = next s

  abbrev write_named : B.DataNode → Bytes → Result (Option Bytes) → State → Outcome State Unit
  write_named node file_path (err e) s = (err e, s)
  write_named node file_path (ok none) s = (ok tt, s)
  write_named node file_path (ok (some name)) s = elim (B.open_file node file_path >>= B.read_all) [
    | err e ↦ (err e, s)
    | ok content ↦ destination.write_mode s name content file_mode
  ]

  -- `writeBorgDataNodeFile`
  unfoldable pub write_file : B.DataNode → Bytes → State → Outcome State Unit
  unfolding validated_tar_entry_name
  write_file node file_path s =
      write_named node file_path (validated_tar_entry_name c t file_path) s

  -- The call for a directory.
  abbrev pub Descent : Type 0
  Descent = Bytes → State → Outcome State Unit

  -- The loop over the entries of a directory.
  unfoldable pub write_entries :
      Descent → B.DataNode → Bytes → List DirEntry → State → Outcome State Unit
  unfolding archive_child_path write_file
  write_entries descend node directory_path [] s = (ok tt, s)
  write_entries descend node directory_path (entry ∷ entries) s =
      let child = archive_child_path c t directory_path entry.name in
      then_run (if entry.is_dir then descend child s else write_file node child s)
        (write_entries descend node directory_path entries)

  -- `writeBorgDataNodeDir`
  unfoldable pub write_dir : ℕ → B.DataNode → Bytes → State → Outcome State Unit
  unfolding write_entries
  write_dir zero node directory_path s = (err out_of_fuel, s)
  write_dir (suc fuel) node directory_path s =
      let descend = write_dir fuel node in
      elim (B.read_dir node directory_path) [
        | err e ↦ (err e, s)
        | ok entries ↦ write_entries descend node directory_path entries s
      ]

  -- `writeBorgDataNodeToMedium`; the node is `none` for nil.
  unfoldable pub write_data_node : ℕ → Option B.DataNode → State → Outcome State Unit
  unfolding write_dir
  write_data_node fuel none s = (err invalid, s)
  write_data_node fuel (some node) s = write_dir fuel node [] s
