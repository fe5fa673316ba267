-- ===== src/Store/Medium/Reading.antt =====
-- go/store/medium.go: what `Medium` shows of the store, its files, streams and writers.
use go_io.Common.{
  ℕ, ◌+◌, Bool, true, false, not, ◌||◌, leb, ltb, Option, none, some, List, [], ◌∷◌, ◌++◌,
  if◌then◌else◌,
}
use go_io.Common.Lists.{length, take, drop}
use go_io.Common.Bytes.{Bytes, str_eq}
use go_io.Common.Results.{Result, ok, err, ◌>>=◌, invalid, not_exist}
use go_io.Common.GoMap.{GoMap, lookup}
use go_io.CoreText.{CoreText}
use go_io.Fsutil.{str_less}
use go_io.Medium.{Mode, directory_mode, file_mode, mode_dir}
use go_io.Store
use go_io.Store.{Table}
use go_io.Store.Medium.{split_group_key_path, group_of, key_of}

-- `type keyValueFileInfo struct` and its methods
pub record KeyValueFileInfo : Type 0 where
  pub name : Bytes
  pub size : ℕ
  pub is_dir : Bool

abbrev pub info_mode : KeyValueFileInfo → Mode
info_mode info = if info.is_dir then directory_mode else file_mode

-- `type keyValueDirEntry struct` and its methods
pub record KeyValueDirEntry : Type 0 where
  pub name : Bytes
  pub is_dir : Bool
  pub size : ℕ

abbrev pub entry_type : KeyValueDirEntry → Mode
entry_type entry = if entry.is_dir then mode_dir else 0

abbrev pub entry_info : KeyValueDirEntry → KeyValueFileInfo
entry_info entry = record { name = entry.name; size = entry.size; is_dir = entry.is_dir }

-- `type keyValueFile struct`
pub record KeyValueFile : Type 0 where
  pub name : Bytes
  pub content : Bytes
  pub offset : ℕ

-- `type keyValueWriteCloser struct`; its store is the argument of `writer_close`.
pub record KeyValueWriteCloser : Type 0 where
  pub group : Bytes
  pub key : Bytes
  pub buffer : Bytes

-- `keyValueFile.Stat`
unfoldable pub file_stat : KeyValueFile → KeyValueFileInfo
file_stat file = record { name = file.name; size = length file.content; is_dir = false }

-- `keyValueFile.Read` into a buffer of that size: the bytes copied, or none for `io.EOF`.
unfoldable pub file_read : KeyValueFile → ℕ → KeyValueFile × Option Bytes
file_read file size =
    if leb (length file.content) file.offset
    then (file, none)
    else let chunk = take size (drop file.offset file.content) in
      (record file { offset = file.offset + length chunk }, some chunk)

-- `keyValueWriteCloser.Write`
unfoldable pub writer_write : KeyValueWriteCloser → Bytes → KeyValueWriteCloser × ℕ
writer_write writer payload = (record writer { buffer = writer.buffer ++ payload }, length payload)

-- `slices.Sort` on strings.
unfoldable pub insert_sorted : Bytes → List Bytes → List Bytes
unfolding str_less
insert_sorted key [] = key ∷ []
insert_sorted key (next ∷ keys) =
    let rest = insert_sorted key keys in
    if str_less next key then next ∷ rest else key ∷ next ∷ keys

unfoldable pub sort : List Bytes → List Bytes
unfolding insert_sorted
sort [] = []
sort (key ∷ keys) = insert_sorted key (sort keys)

abbrev pub keys_of : GoMap Bytes → List Bytes
keys_of [] = []
keys_of ((key, content) ∷ all) = key ∷ keys_of all

-- The loops of `List`.
abbrev pub group_entries : List Bytes → List KeyValueDirEntry
group_entries [] = []
group_entries (group ∷ groups) =
    record { name = group; is_dir = true; size = 0 } ∷ group_entries groups

abbrev pub size_of : Option Bytes → ℕ
size_of none = 0
size_of (some content) = length content

unfoldable pub key_entries : GoMap Bytes → List Bytes → List KeyValueDirEntry
unfolding lookup
key_entries all [] = []
key_entries all (key ∷ keys) =
    record { name = key; is_dir = false; size = size_of (lookup key all) } ∷ key_entries all keys

module _ (c : CoreText) (table : Table) where
  abbrev group : Bytes → Bytes
  group path = group_of c table path

  abbrev key : Bytes → Bytes
  key path = key_of c table path

  -- `List`; `ErrNotDirectory` wraps `fs.ErrInvalid`.
  unfoldable pub list : table.State → Bytes → Result (List KeyValueDirEntry)
  unfolding split_group_key_path sort key_entries str_eq Store.get_all
  list s path =
      if str_eq (group path) []
      then (Store.list_groups table s >>= λ groups. ok (group_entries groups))
      else if not (str_eq (key path) [])
      then err invalid
      else (Store.get_all table s (group path) >>= λ all. ok (key_entries all (sort (keys_of all))))

  -- `Stat`
  unfoldable pub stat : table.State → Bytes → Result KeyValueFileInfo
  unfolding split_group_key_path str_eq Store.get
  stat s path =
      if str_eq (group path) []
      then err invalid
      else if str_eq (key path) []
      then (Store.count table s (group path) >>= λ count.
          if ltb 0 count
          then ok (record { name = group path; size = 0; is_dir = true })
          else err not_exist)
      else (Store.get table s (group path) (key path) >>= λ content.
          ok (record { name = key path; size = length content; is_dir = false }))

  -- `Open`
  unfoldable pub open_file : table.State → Bytes → Result KeyValueFile
  unfolding split_group_key_path str_eq Store.get
  open_file s path =
      if str_eq (key path) []
      then err invalid
      else (Store.get table s (group path) (key path) >>= λ content.
          ok (record { name = key path; content = content; offset = 0 }))

  -- `Create`, which `WriteStream` calls
  unfoldable pub create : Bytes → Result KeyValueWriteCloser
  unfolding split_group_key_path str_eq
  create path =
      if str_eq (key path) []
      then err invalid
      else ok (record { group = group path; key = key path; buffer = [] })

  -- The value that `Append` starts from: a missing one is empty.
  abbrev pub existing : Result Bytes → Result Bytes
  existing (ok content) = ok content
  existing (err not_exist) = ok []
  existing (err e) = err e

  -- `Append`
  unfoldable pub append : table.State → Bytes → Result KeyValueWriteCloser
  unfolding split_group_key_path str_eq Store.get
  append s path =
      if str_eq (key path) []
      then err invalid
      else (existing (Store.get table s (group path) (key path)) >>= λ content.
          ok (record { group = group path; key = key path; buffer = content }))

  -- `ReadStream`: all that the reader gives
  unfoldable pub read_stream : table.State → Bytes → Result Bytes
  unfolding split_group_key_path str_eq Store.get
  read_stream s path =
      if str_eq (key path) [] then err invalid else Store.get table s (group path) (key path)

  -- `keyValueWriteCloser.Close`
  unfoldable pub writer_close : table.State → KeyValueWriteCloser → Result table.State
  writer_close s writer = Store.set table s writer.group writer.key writer.buffer

  abbrev pub counts : Result ℕ → Bool
  counts (ok count) = ltb 0 count
  counts (err e) = false

  abbrev pub got : Result Bytes → Bool
  got (ok content) = true
  got (err e) = false

  -- `Exists`
  unfoldable pub exists : table.State → Bytes → Bool
  unfolding split_group_key_path str_eq Store.get
  exists s path =
      if str_eq (group path) []
      then false
      else if str_eq (key path) []
      then counts (Store.count table s (group path))
      else got (Store.get table s (group path) (key path))

  -- `IsFile`
  unfoldable pub is_file : table.State → Bytes → Bool
  unfolding split_group_key_path str_eq Store.get
  is_file s path =
      if str_eq (key path) [] then false else got (Store.get table s (group path) (key path))

  -- `IsDir`
  unfoldable pub is_dir : table.State → Bytes → Bool
  unfolding split_group_key_path str_eq
  is_dir s path =
      if not (str_eq (key path) []) || str_eq (group path) []
      then false
      else counts (Store.count table s (group path))
