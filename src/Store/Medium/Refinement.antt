-- ===== src/Store/Medium/Refinement.antt =====
-- The medium of go/store as a map from groups and keys to values: a run of its operations against a
-- run of the same operations on the map.
use go_io.Common.{◌≡◌, Bool, not, ◌&&◌, Option, none, some, List, [], ◌∷◌, ◌++◌, if◌then◌else◌}
use go_io.Common.Bytes.{Bytes, str_eq}
use go_io.Common.Results.{Result, ok, err, not_exist}
use go_io.CoreText.{CoreText}
use go_io.Store
use go_io.Store.{Table}
use go_io.Store.Medium
use go_io.Store.Medium.{group_of, key_of, same_entry}
use go_io.Store.Medium.Reading
use go_io.Store.Medium.Reading.{append, existing, writer_write, writer_close, KeyValueWriteCloser}

-- The operations that change the store; `append_write` is `Append`, one `Write` and `Close`.
pub data Operation : Type 0 where
  write : Bytes → Bytes → Operation
  delete : Bytes → Operation
  delete_all : Bytes → Operation
  rename : Bytes → Bytes → Operation
  append_write : Bytes → Bytes → Operation

-- A table whose statements do not fail.
pub record IsServing (table : Table) : Type 0 where
  pub selects :
      (s : table.State) (group key : Bytes)
      → (found : Option Bytes) × (table.select_value s group key ≡ ok found)
  pub upserts :
      (s : table.State) (group key content : Bytes)
      → (s' : table.State) × (table.upsert s group key content ≡ ok s')
  pub deletes :
      (s : table.State) (group key : Bytes)
      → (s' : table.State) × (table.delete_entry s group key ≡ ok s')
  pub deletes_group :
      (s : table.State) (group : Bytes)
      → (s' : table.State) × (table.delete_entries s group ≡ ok s')

abbrev pub Entries : Type 0
Entries = Bytes → Bytes → Option Bytes

abbrev pub put : Bytes → Bytes → Option Bytes → Entries → Entries
put group key content m g k = if str_eq group g && str_eq key k then content else m g k

abbrev pub clear : Bytes → Entries → Entries
clear group m g k = if str_eq group g then none else m g k

abbrev pub or_empty : Option Bytes → Bytes
or_empty none = []
or_empty (some content) = content

module _ (c : CoreText) (table : Table) where
  -- The state that an operation leaves.
  abbrev pub left : table.State → Result table.State → table.State
  left s (ok s') = s'
  left s (err e) = s

  abbrev appended : table.State → Bytes → Result KeyValueWriteCloser → table.State
  appended s payload (ok writer) = left s (writer_close c table s (writer_write writer payload).0)
  appended s payload (err e) = s

  unfoldable pub apply : table.State → Operation → table.State
  apply s (write path content) = left s (Medium.write c table s path content)
  apply s (delete path) = left s (Medium.delete c table s path)
  apply s (delete_all path) = left s (Medium.delete_all c table s path)
  apply s (rename old new) = (Medium.rename c table s old new).0
  apply s (append_write path payload) = appended s payload (Reading.append c table s path)

  unfoldable pub run : table.State → List Operation → table.State
  unfolding apply
  run s [] = s
  run s (operation ∷ operations) = run (apply s operation) operations

  abbrev pub at : Bytes → Entries → Option Bytes
  at path m = m (group_of c table path) (key_of c table path)

  abbrev pub put_at : Bytes → Option Bytes → Entries → Entries
  put_at path content m = put (group_of c table path) (key_of c table path) content m

  abbrev pub has_key : Bytes → Bool
  has_key path = not (str_eq (key_of c table path) [])

  abbrev pub moved : Bytes → Bytes → Option Bytes → Entries → Entries
  moved old new none m = m
  moved old new (some content) m = put_at old none (put_at new (some content) m)

  -- The operations on the map. Paths without a key are refused, but for the groups that `DeleteAll`
  -- deletes.
  unfoldable pub specified : Entries → Operation → Entries
  unfolding str_eq
  specified m (write path content) = if has_key path then put_at path (some content) m else m
  specified m (delete path) =
      if str_eq (group_of c table path) []
      then m
      else if has_key path
      then put_at path none m
      else m
  specified m (delete_all path) =
      if str_eq (group_of c table path) []
      then m
      else if has_key path
      then put_at path none m
      else clear (group_of c table path) m
  specified m (rename old new) =
      if has_key old && has_key new
      then (if same_entry c table old new then m else moved old new (at old m) m)
      else m
  specified m (append_write path payload) =
      if has_key path then put_at path (some (or_empty (at path m) ++ payload)) m else m

  unfoldable pub specified_run : Entries → List Operation → Entries
  unfolding specified
  specified_run m [] = m
  specified_run m (operation ∷ operations) = specified_run (specified m operation) operations

  abbrev pub as_read : Option Bytes → Result Bytes
  as_read none = err not_exist
  as_read (some content) = ok content
