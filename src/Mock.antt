-- ===== src/Mock.antt =====
-- go/mock.go: `MockMedium`, the medium for tests, over three maps. Each method holds the lock from
-- its start to its end, so a method is one step; `Close` of a writer is one call of `Write`.
mod Tests
pub mod Effects
pub mod Listing
use go_io.Common.{
  ℕ, suc, ◌+◌, Bool, true, false, not, ◌&&◌, ◌||◌, Option, none, some, List, [], ◌∷◌, ◌++◌, ltb,
  ◌==◌, if◌then◌else◌,
}
use go_io.Common.Lists.{length, take, drop}
use go_io.Common.Bytes.{Bytes, str_eq}
use go_io.Common.Results.{Result, ok, err, not_exist}
use go_io.Common.GoMap.{GoMap, lookup, insert, remove, remove_where, any_key, has_key}
use go_io.CoreText.{CoreText, slash, dot}
use go_io.Medium.{
  Mode, Time, FileInfo, DirEntry, new_file_info, new_dir_entry, file_mode, zero_time,
}
use go_io.Fsutil.{sort_dir_entries_by_name}

-- `type mockMeta struct`
pub record MockMeta : Type 0 where
  pub mode : Mode
  pub mod_time : Time

-- `type MockMedium struct`
pub record MockMedium : Type 0 where
  pub files : GoMap Bytes
  pub meta : GoMap MockMeta
  pub dirs : GoMap Bool

-- `NewMockMedium`
abbrev pub new_mock_medium : MockMedium
new_mock_medium = record { files = []; meta = []; dirs = [] }

-- Go's zero values for a missing key.
abbrev pub meta_or_zero : Option MockMeta → MockMeta
meta_or_zero none = record { mode = 0; mod_time = zero_time }
meta_or_zero (some meta) = meta

abbrev pub text_or_empty : Option Bytes → Bytes
text_or_empty none = []
text_or_empty (some content) = content

abbrev pub true_or_false : Option Bool → Bool
true_or_false none = false
true_or_false (some b) = b

-- `Read`
unfoldable pub read : MockMedium → Bytes → Result Bytes
read m path = elim (lookup path m.files) [ none ↦ err not_exist | some content ↦ ok content ]

-- `WriteMode` and `Write`, which always succeed
unfoldable pub write_mode : Time → MockMedium → Bytes → Bytes → Mode → MockMedium
write_mode now m path content mode = record m {
  files = insert path content m.files;
  meta = insert path (record { mode = mode; mod_time = now }) m.meta;
}

unfoldable pub write : Time → MockMedium → Bytes → Bytes → MockMedium
unfolding write_mode
write now m path content = write_mode now m path content file_mode

-- `EnsureDir`
unfoldable pub ensure_dir : MockMedium → Bytes → MockMedium
ensure_dir m path = record m { dirs = insert path true m.dirs }

-- `IsFile`, `IsDir`, `Exists`
unfoldable pub is_file : MockMedium → Bytes → Bool
is_file m path = has_key path m.files

unfoldable pub is_dir : MockMedium → Bytes → Bool
is_dir m path = true_or_false (lookup path m.dirs)

unfoldable pub exists : MockMedium → Bytes → Bool
unfolding is_dir
exists m path = has_key path m.files || is_dir m path

-- `Delete`
unfoldable pub delete : MockMedium → Bytes → Result MockMedium
delete m path =
    if has_key path m.files
    then ok (record m { files = remove path m.files; meta = remove path m.meta })
    else if has_key path m.dirs
    then ok (record m { dirs = remove path m.dirs })
    else err not_exist

-- `pathMatchesPrefix`
unfoldable pub path_matches_prefix : Bytes → Bytes → Bool
path_matches_prefix prefix candidate =
    str_eq candidate prefix
    || (ltb (length prefix) (length candidate)
        && str_eq (take (length prefix + 1) candidate) (prefix ++ slash))

-- The metadata goes with a file that is deleted.
abbrev pub deleted_meta : MockMedium → Bytes → Bytes → Bool
deleted_meta m path key = path_matches_prefix path key && has_key key m.files

-- `DeleteAll`
unfoldable pub delete_all : MockMedium → Bytes → Result MockMedium
unfolding path_matches_prefix
delete_all m path =
    if any_key (path_matches_prefix path) m.files || any_key (path_matches_prefix path) m.dirs
    then ok (record {
      files = remove_where (path_matches_prefix path) m.files;
      meta = remove_where (deleted_meta m path) m.meta;
      dirs = remove_where (path_matches_prefix path) m.dirs;
    })
    else err not_exist

-- `Rename`, of a file only
abbrev pub move_meta : Bytes → Bytes → GoMap MockMeta → Option MockMeta → GoMap MockMeta
move_meta old new_path meta none = meta
move_meta old new_path meta (some metadata) = remove old (insert new_path metadata meta)

unfoldable pub rename : MockMedium → Bytes → Bytes → Result MockMedium
rename m old_path new_path = elim (lookup old_path m.files) [
  | none ↦ err not_exist
  | some content ↦ ok (record m {
    files = remove old_path (insert new_path content m.files);
    meta = move_meta old_path new_path m.meta (lookup old_path m.meta);
  })
]

-- `Stat`; the mode of a directory is 0755
unfoldable pub stat : CoreText → Time → MockMedium → Bytes → Result FileInfo
unfolding is_dir
stat c now m path = elim (lookup path m.files) [
  | some content ↦
      let meta = meta_or_zero (lookup path m.meta) in
      ok (new_file_info (c.path_base path) (length content) meta.mode meta.mod_time false)
  | none ↦
      if is_dir m path
      then ok (new_file_info (c.path_base path) 0 0o755 now true)
      else err not_exist
]

-- `type MockFile struct`: a reader over the content that is left, and the info.
pub record MockFile : Type 0 where
  pub reader : Bytes
  pub info : FileInfo

-- `Open`, and `ReadStream`, which gives the reader alone
unfoldable pub open_file : CoreText → MockMedium → Bytes → Result MockFile
open_file c m path = elim (lookup path m.files) [
  | none ↦ err not_exist
  | some content ↦
      let meta = meta_or_zero (lookup path m.meta) in
      ok (record {
        reader = content;
        info = new_file_info (c.path_base path) (length content) meta.mode meta.mod_time false;
      })
]

-- `type MockWriteCloser struct`; its medium is the argument of `writer_close`.
pub record MockWriteCloser : Type 0 where
  pub path : Bytes
  pub buffer : Bytes

-- `Create`, which `WriteStream` calls, and `Append`
abbrev pub create : Bytes → MockWriteCloser
create path = record { path = path; buffer = [] }

abbrev pub append : MockMedium → Bytes → MockWriteCloser
append m path = record { path = path; buffer = text_or_empty (lookup path m.files) }

-- `MockWriteCloser.Write` and `Close`
abbrev pub writer_write : MockWriteCloser → Bytes → MockWriteCloser
writer_write writer payload = record writer { buffer = writer.buffer ++ payload }

abbrev pub writer_close : Time → MockMedium → MockWriteCloser → MockMedium
writer_close now m writer = write now m writer.path writer.buffer
