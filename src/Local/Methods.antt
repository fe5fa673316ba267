-- ===== src/Local/Methods.antt =====
-- go/local/medium.go: the methods of the local medium. A method validates its paths and hands them
-- to the file system. The functions that unwrap a `core.Result` only wrap its error.
use go_io.Common.{ℕ, Bool, false, List, [], if◌then◌else◌}
use go_io.Common.Bytes.{Bytes, str_eq}
use go_io.Common.Results.{Result, ok, err, ◌>>=◌, refused}
use go_io.CoreText.{CoreText}
use go_io.PathText.{PathText}
use go_io.Fsutil.{sort_dir_entries_by_name}
use go_io.Medium.{Mode, FileInfo, DirEntry, file_mode}
use go_io.Storage.{Storage, Outcome, on_path, on_test}
use go_io.Local.{Platform, System}
use go_io.Local.Links.{validate_path, is_protected_path}

-- `type Medium struct`
pub record LocalMedium : Type 0 where
  pub filesystem_root : Bytes

module _ (c : CoreText) (t : PathText) (p : Platform) (o : System) (rounds depth : ℕ) where
  abbrev State : Type 0
  State = o.storage.State

  -- `validatePath` for a medium.
  abbrev pub validated : LocalMedium → State → Bytes → Result Bytes
  validated medium s path = validate_path c t p o rounds depth s medium.filesystem_root path

  -- `Read`
  unfoldable pub read : LocalMedium → State → Bytes → Result Bytes
  unfolding validate_path
  read medium s path = validated medium s path >>= o.storage.read s

  -- `Stat`
  unfoldable pub stat : LocalMedium → State → Bytes → Result FileInfo
  unfolding validate_path
  stat medium s path = validated medium s path >>= o.storage.stat s

  -- `Open`
  unfoldable pub open_file : LocalMedium → State → Bytes → Result o.storage.File
  unfolding validate_path
  open_file medium s path = validated medium s path >>= o.storage.open_file s

  -- `List`
  unfoldable pub list : LocalMedium → State → Bytes → Result (List DirEntry)
  unfolding validate_path sort_dir_entries_by_name
  list medium s path = (validated medium s path >>= o.storage.list s) >>= λ entries.
      ok (sort_dir_entries_by_name entries)

  -- `WriteMode`
  unfoldable pub write_mode : LocalMedium → State → Bytes → Bytes → Mode → Outcome State Unit
  unfolding validate_path
  write_mode medium s path content mode =
      on_path (validated medium s path) s
        (λ resolved_path. o.storage.write_mode s resolved_path content mode)

  -- `Write`
  unfoldable pub write : LocalMedium → State → Bytes → Bytes → Outcome State Unit
  unfolding write_mode
  write medium s path content = write_mode medium s path content file_mode

  -- `EnsureDir`
  unfoldable pub ensure_dir : LocalMedium → State → Bytes → Outcome State Unit
  unfolding validate_path
  ensure_dir medium s path =
      on_path (validated medium s path) s (λ resolved_path. o.storage.ensure_dir s resolved_path)

  -- `Create`
  unfoldable pub create : LocalMedium → State → Bytes → Outcome State o.storage.Writer
  unfolding validate_path
  create medium s path =
      on_path (validated medium s path) s (λ resolved_path. o.storage.create s resolved_path)

  -- `Append`
  unfoldable pub append : LocalMedium → State → Bytes → Outcome State o.storage.Writer
  unfolding validate_path
  append medium s path =
      on_path (validated medium s path) s (λ resolved_path. o.storage.append s resolved_path)

  -- `Delete`
  unfoldable pub delete : LocalMedium → State → Bytes → Outcome State Unit
  unfolding validate_path is_protected_path str_eq
  delete medium s path = on_path (validated medium s path) s (λ resolved_path.
      if str_eq resolved_path medium.filesystem_root
      then (err refused, s)
      else if is_protected_path c t p o rounds depth s resolved_path
      then (err refused, s)
      else o.storage.delete s resolved_path)

  -- `DeleteAll`
  unfoldable pub delete_all : LocalMedium → State → Bytes → Outcome State Unit
  unfolding validate_path is_protected_path str_eq
  delete_all medium s path = on_path (validated medium s path) s (λ resolved_path.
      if str_eq resolved_path medium.filesystem_root
      then (err refused, s)
      else if is_protected_path c t p o rounds depth s resolved_path
      then (err refused, s)
      else o.storage.delete_all s resolved_path)

  -- `Rename`
  unfoldable pub rename : LocalMedium → State → Bytes → Bytes → Outcome State Unit
  unfolding validate_path
  rename medium s old_path new_path =
      on_path (validated medium s old_path) s
        (λ old. on_path (validated medium s new_path) s (λ new. o.storage.rename s old new))

  -- `Exists`
  unfoldable pub exists : LocalMedium → State → Bytes → Bool
  unfolding validate_path
  exists medium s path = on_test (validated medium s path) (o.storage.exists s)

  -- `IsDir`
  unfoldable pub is_dir : LocalMedium → State → Bytes → Bool
  unfolding validate_path str_eq
  is_dir medium s path =
      if str_eq path [] then false else on_test (validated medium s path) (o.storage.is_dir s)

  -- `IsFile`
  unfoldable pub is_file : LocalMedium → State → Bytes → Bool
  unfolding validate_path str_eq
  is_file medium s path =
      if str_eq path [] then false else on_test (validated medium s path) (o.storage.is_file s)

  -- `ReadStream`, `WriteStream`
  unfoldable pub read_stream : LocalMedium → State → Bytes → Result o.storage.File
  unfolding open_file
  read_stream medium s path = open_file medium s path

  unfoldable pub write_stream : LocalMedium → State → Bytes → Outcome State o.storage.Writer
  unfolding create
  write_stream medium s path = create medium s path

  -- `var _ coreio.Medium = (*Medium)(nil)`
  abbrev pub local : LocalMedium → Storage
  local medium = record {
    State = o.storage.State;
    File = o.storage.File;
    Reader = o.storage.File;
    Writer = o.storage.Writer;
    read = read medium;
    write = write medium;
    write_mode = write_mode medium;
    ensure_dir = ensure_dir medium;
    is_file = is_file medium;
    delete = delete medium;
    delete_all = delete_all medium;
    rename = rename medium;
    list = list medium;
    stat = stat medium;
    open_file = open_file medium;
    create = create medium;
    append = append medium;
    read_stream = read_stream medium;
    write_stream = write_stream medium;
    exists = exists medium;
    is_dir = is_dir medium;
  }
