-- ===== src/Store.antt =====
-- go/store/store.go: `KeyValueStore`, over the table `entries` of an SQL database. The package
-- database/sql and the database are a parameter: one operation for each statement of the source.
pub mod Medium
use go_io.Common.{ℕ, ◌≡◌, ◌&&◌, Option, none, some, List, [], ◌∷◌, if◌then◌else◌}
use go_io.Common.Bytes.{Bytes, str_eq}
use go_io.Common.Results.{Result, ok, err, not_exist}
use go_io.Common.GoMap.{GoMap, insert}

-- The statements. Each may fail, and then changes nothing.
pub record Table : Type 1 where
  pub State : Type 0
  -- `SELECT entry_value … WHERE group_name = ? AND entry_key = ?`: none for `sql.ErrNoRows`
  pub select_value : State → Bytes → Bytes → Result (Option Bytes)
  -- `INSERT … ON CONFLICT(group_name, entry_key) DO UPDATE SET entry_value = excluded.entry_value`
  pub upsert : State → Bytes → Bytes → Bytes → Result State
  -- `DELETE … WHERE group_name = ? AND entry_key = ?`, `DELETE … WHERE group_name = ?`
  pub delete_entry : State → Bytes → Bytes → Result State
  pub delete_entries : State → Bytes → Result State
  -- `SELECT COUNT(*) … WHERE group_name = ?`
  pub select_count : State → Bytes → Result ℕ
  -- `SELECT DISTINCT group_name … ORDER BY group_name`
  pub select_groups : State → Result (List Bytes)
  -- `SELECT entry_key, entry_value … WHERE group_name = ?`
  pub select_group : State → Bytes → Result (List (Bytes × Bytes))

-- What the statements mean, by the value that the table has for a group and a key.
pub record IsLawful (table : Table) : Type 0 where
  pub value : table.State → Bytes → Bytes → Option Bytes
  pub select_value_eq :
      (s : table.State) (group key : Bytes) (found : Option Bytes)
      → table.select_value s group key ≡ ok found
      → found ≡ value s group key
  pub upsert_eq :
      (s s' : table.State) (group key content g k : Bytes)
      → table.upsert s group key content ≡ ok s'
      → value s' g k ≡ (if str_eq group g && str_eq key k then some content else value s g k)
  pub delete_entry_eq :
      (s s' : table.State) (group key g k : Bytes)
      → table.delete_entry s group key ≡ ok s'
      → value s' g k ≡ (if str_eq group g && str_eq key k then none else value s g k)
  pub delete_entries_eq :
      (s s' : table.State) (group g k : Bytes)
      → table.delete_entries s group ≡ ok s'
      → value s' g k ≡ (if str_eq group g then none else value s g k)

module _ (table : Table) where
  -- `Get`; `NotFoundError` is `not_exist`
  unfoldable pub get : table.State → Bytes → Bytes → Result Bytes
  get s group key = elim (table.select_value s group key) [
    | err e ↦ err e
    | ok found ↦ elim found [ none ↦ err not_exist | some content ↦ ok content ]
  ]

  -- `Set`, `Delete`, `DeleteGroup`, `Count`, `ListGroups`
  abbrev pub set : table.State → Bytes → Bytes → Bytes → Result table.State
  set s group key content = table.upsert s group key content

  abbrev pub delete : table.State → Bytes → Bytes → Result table.State
  delete s group key = table.delete_entry s group key

  abbrev pub delete_group : table.State → Bytes → Result table.State
  delete_group s group = table.delete_entries s group

  abbrev pub count : table.State → Bytes → Result ℕ
  count s group = table.select_count s group

  abbrev pub list_groups : table.State → Result (List Bytes)
  list_groups s = table.select_groups s

  -- The loop over the rows of `GetAll`.
  abbrev pub put_rows : List (Bytes × Bytes) → GoMap Bytes → GoMap Bytes
  put_rows [] result = result
  put_rows ((key, content) ∷ rows) result = put_rows rows (insert key content result)

  -- `GetAll`
  unfoldable pub get_all : table.State → Bytes → Result (GoMap Bytes)
  get_all s group = elim (table.select_group s group) [
    | err e ↦ err e
    | ok rows ↦ ok (put_rows rows [])
  ]
