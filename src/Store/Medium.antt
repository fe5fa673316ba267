-- ===== src/Store/Medium.antt =====
-- go/store/medium.go: the operations of `Medium` that change the store, and `Read`. A path is a group
-- and, behind the first slash, a key.
mod Tests
pub mod Effects
pub mod Reading
pub mod Refinement
use go_io.Common.{ℕ, Bool, ◌&&◌, ◌||◌, ◌==◌, Option, none, some, List, [], ◌∷◌, if◌then◌else◌, ltb}
use go_io.Common.Bytes.{Bytes, str_eq}
use go_io.Common.Results.{Result, ok, err, Error, invalid, exist}
use go_io.CoreText.{CoreText, slash, dot}
use go_io.Store
use go_io.Store.{Table}

-- `parts[0], ""` or `parts[0], parts[1]`
abbrev pub group_and_key : List Bytes → Bytes × Bytes
group_and_key [] = ([], [])
group_and_key (group ∷ []) = (group, [])
group_and_key (group ∷ key ∷ more) = (group, key)

-- `splitGroupKeyPath`
unfoldable pub split_group_key_path : CoreText → Bytes → Bytes × Bytes
split_group_key_path c path =
    let clean = c.trim_prefix (c.clean_path path) slash in
    if str_eq clean [] || str_eq clean dot
    then ([], [])
    else group_and_key (c.split_first clean slash)

module _ (c : CoreText) (table : Table) where
  abbrev pub group_of : Bytes → Bytes
  group_of path = (split_group_key_path c path).0

  abbrev pub key_of : Bytes → Bytes
  key_of path = (split_group_key_path c path).1

  -- `Read`
  unfoldable pub read : table.State → Bytes → Result Bytes
  unfolding Store.get
  read s path =
      if str_eq (key_of path) []
      then err invalid
      else Store.get table s (group_of path) (key_of path)

  -- `Write`, which `WriteMode` calls
  unfoldable pub write : table.State → Bytes → Bytes → Result table.State
  write s path content =
      if str_eq (key_of path) []
      then err invalid
      else Store.set table s (group_of path) (key_of path) content

  -- `Delete`
  unfoldable pub delete : table.State → Bytes → Result table.State
  delete s path =
      if str_eq (group_of path) []
      then err invalid
      else if str_eq (key_of path) []
      then elim (Store.count table s (group_of path)) [
        | err e ↦ err e
        | ok entry_count ↦ if ltb 0 entry_count then err exist else ok s
      ]
      else Store.delete table s (group_of path) (key_of path)

  -- `DeleteAll`
  unfoldable pub delete_all : table.State → Bytes → Result table.State
  delete_all s path =
      if str_eq (group_of path) []
      then err invalid
      else if str_eq (key_of path) []
      then Store.delete_group table s (group_of path)
      else Store.delete table s (group_of path) (key_of path)

  -- The two paths name one entry.
  abbrev pub same_entry : Bytes → Bytes → Bool
  same_entry old_path new_path =
      str_eq (group_of old_path) (group_of new_path) && str_eq (key_of old_path) (key_of new_path)

  -- `Rename`: the state it leaves, and its error. If the delete fails, the entry stays under both.
  unfoldable pub rename : table.State → Bytes → Bytes → table.State × Option Error
  unfolding Store.get
  rename s old_path new_path =
      if str_eq (key_of old_path) [] || str_eq (key_of new_path) []
      then (s, some invalid)
      else if same_entry old_path new_path
      then (s, none)
      else elim (Store.get table s (group_of old_path) (key_of old_path)) [
        | err e ↦ (s, some e)
        | ok content ↦ elim (Store.set table s (group_of new_path) (key_of new_path) content) [
          | err e ↦ (s, some e)
          | ok written ↦ elim (Store.delete table written (group_of old_path) (key_of old_path)) [
            | err e ↦ (written, some e)
            | ok renamed ↦ (renamed, none)
          ]
        ]
      ]
