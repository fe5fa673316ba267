-- ===== src/Workspace/Scoped.antt =====
-- go/workspace/workspace.go: `scopedMedium`, the medium that puts every path below its root and hands
-- it to the medium it wraps.
use go_io.Common.{Bool, true, false, List, [], ◌∷◌}
use go_io.Common.Bytes.{Bytes}
use go_io.Common.Results.{Result, ok, ◌>>=◌}
use go_io.CoreText.{CoreText}
use go_io.Medium.{Mode, FileInfo, DirEntry, file_mode}
use go_io.PathText.{PathText}
use go_io.Storage.{Storage, Outcome, on_path, on_test}
use go_io.Workspace.{clean_medium_subpath, join_medium_subpaths}

-- `type scopedMedium struct`; the medium is the parameter `M`.
pub record ScopedMedium : Type 0 where
  pub root : Bytes

module _ (c : CoreText) (t : PathText) where
  -- `scopedPath`
  unfoldable pub scoped_path : ScopedMedium → Bytes → Bool → Result Bytes
  unfolding clean_medium_subpath join_medium_subpaths
  scoped_path medium entry_path allow_root =
      clean_medium_subpath c t entry_path allow_root >>= λ clean_path.
      ok (join_medium_subpaths c t (medium.root ∷ clean_path ∷ []))

module _ (c : CoreText) (t : PathText) (M : Storage) where
  -- `Read`
  unfoldable pub read : ScopedMedium → M.State → Bytes → Result Bytes
  unfolding scoped_path
  read medium s entry_path = scoped_path c t medium entry_path false >>= M.read s

  -- `List`
  unfoldable pub list : ScopedMedium → M.State → Bytes → Result (List DirEntry)
  unfolding scoped_path
  list medium s entry_path = scoped_path c t medium entry_path true >>= M.list s

  -- `Stat`
  unfoldable pub stat : ScopedMedium → M.State → Bytes → Result FileInfo
  unfolding scoped_path
  stat medium s entry_path = scoped_path c t medium entry_path true >>= M.stat s

  -- `Open`
  unfoldable pub open_file : ScopedMedium → M.State → Bytes → Result M.File
  unfolding scoped_path
  open_file medium s entry_path = scoped_path c t medium entry_path false >>= M.open_file s

  -- `ReadStream`
  unfoldable pub read_stream : ScopedMedium → M.State → Bytes → Result M.Reader
  unfolding scoped_path
  read_stream medium s entry_path = scoped_path c t medium entry_path false >>= M.read_stream s

  -- `WriteMode`
  unfoldable pub write_mode : ScopedMedium → M.State → Bytes → Bytes → Mode → Outcome M.State Unit
  unfolding scoped_path
  write_mode medium s entry_path content mode =
      on_path (scoped_path c t medium entry_path false) s (λ path. M.write_mode s path content mode)

  -- `Write`
  unfoldable pub write : ScopedMedium → M.State → Bytes → Bytes → Outcome M.State Unit
  unfolding write_mode
  write medium s entry_path content = write_mode medium s entry_path content file_mode

  -- `EnsureDir`
  unfoldable pub ensure_dir : ScopedMedium → M.State → Bytes → Outcome M.State Unit
  unfolding scoped_path
  ensure_dir medium s entry_path =
      on_path (scoped_path c t medium entry_path true) s (λ path. M.ensure_dir s path)

  -- `Delete`
  unfoldable pub delete : ScopedMedium → M.State → Bytes → Outcome M.State Unit
  unfolding scoped_path
  delete medium s entry_path =
      on_path (scoped_path c t medium entry_path false) s (λ path. M.delete s path)

  -- `DeleteAll`
  unfoldable pub delete_all : ScopedMedium → M.State → Bytes → Outcome M.State Unit
  unfolding scoped_path
  delete_all medium s entry_path =
      on_path (scoped_path c t medium entry_path false) s (λ path. M.delete_all s path)

  -- `Create`
  unfoldable pub create : ScopedMedium → M.State → Bytes → Outcome M.State M.Writer
  unfolding scoped_path
  create medium s entry_path =
      on_path (scoped_path c t medium entry_path false) s (λ path. M.create s path)

  -- `Append`
  unfoldable pub append : ScopedMedium → M.State → Bytes → Outcome M.State M.Writer
  unfolding scoped_path
  append medium s entry_path =
      on_path (scoped_path c t medium entry_path false) s (λ path. M.append s path)

  -- `WriteStream`
  unfoldable pub write_stream : ScopedMedium → M.State → Bytes → Outcome M.State M.Writer
  unfolding scoped_path
  write_stream medium s entry_path =
      on_path (scoped_path c t medium entry_path false) s (λ path. M.write_stream s path)

  -- `Rename`
  unfoldable pub rename : ScopedMedium → M.State → Bytes → Bytes → Outcome M.State Unit
  unfolding scoped_path
  rename medium s old_path new_path =
      on_path (scoped_path c t medium old_path false) s (λ scoped_old_path.
        on_path (scoped_path c t medium new_path false) s
          (λ scoped_new_path. M.rename s scoped_old_path scoped_new_path))

  -- `IsFile`
  unfoldable pub is_file : ScopedMedium → M.State → Bytes → Bool
  unfolding scoped_path
  is_file medium s entry_path = on_test (scoped_path c t medium entry_path false) (M.is_file s)

  -- `Exists`
  unfoldable pub exists : ScopedMedium → M.State → Bytes → Bool
  unfolding scoped_path
  exists medium s entry_path = on_test (scoped_path c t medium entry_path true) (M.exists s)

  -- `IsDir`
  unfoldable pub is_dir : ScopedMedium → M.State → Bytes → Bool
  unfolding scoped_path
  is_dir medium s entry_path = on_test (scoped_path c t medium entry_path true) (M.is_dir s)

  -- `var _ coreio.Medium = (*scopedMedium)(nil)`
  abbrev pub scoped : ScopedMedium → Storage
  scoped medium = record {
    State = M.State;
    File = M.File;
    Reader = M.Reader;
    Writer = M.Writer;
    read = read medium;
    write = write medium;
    write_mode = write_mode medium;
    ensure_dir = ensure_dir medium;
    is_file = is_file medium;
    delete = delete medium;
    delete_all = delete_all medium;
    rename = rename medium;
    list = list medium;
    stat = stat medium;
    open_file = open_file medium;
    create = create medium;
    append = append medium;
    read_stream = read_stream medium;
    write_stream = write_stream medium;
    exists = exists medium;
    is_dir = is_dir medium;
  }
