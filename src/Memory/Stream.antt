-- ===== src/Memory/Stream.antt =====
-- go/io.go: `MemoryFile` and `MemoryWriteCloser`, the readers and writers of a `MemoryMedium`.
pub mod Reading
pub mod Appending
use go_io.Common.{
  ℕ, ◌+◌, ◌-◌, min, Bool, true, false, Option, none, some, List, [], ◌∷◌, ◌++◌, leb, if◌then◌else◌,
}
use go_io.Common.Lists.{length, take, drop}
use go_io.Common.Bytes.{Bytes}
use go_io.Common.Results.{Result, ok, err, Error, exist, not_exist}
use go_io.Common.GoMap.{GoMap, lookup, has_key}
use go_io.CoreText.{CoreText}
use go_io.Medium.{Mode, Time, FileInfo, new_file_info, file_mode}
use go_io.Memory.{
  MemoryMedium, mode_for_path, modification_time_for_path, ensure_ancestor_directories, put_file,
  or_else,
}

-- `type MemoryFile struct`
pub record MemoryFile : Type 0 where
  pub name : Bytes
  pub content : Bytes
  pub offset : ℕ
  pub mode : Mode
  pub mod_time : Time

-- `MemoryFile.Stat`
abbrev pub file_stat : MemoryFile → FileInfo
file_stat file = new_file_info file.name (length file.content) file.mode file.mod_time false

-- `MemoryFile.Read` into a buffer of that size: the bytes copied, or none for `io.EOF`.
unfoldable pub file_read : MemoryFile → ℕ → MemoryFile × Option Bytes
file_read file size =
    if leb (length file.content) file.offset
    then (file, none)
    else let chunk = take size (drop file.offset file.content) in
      (record file { offset = file.offset + length chunk }, some chunk)

-- `type MemoryWriteCloser struct`; the medium that it points to is the argument of `writer_close`.
pub record MemoryWriteCloser : Type 0 where
  pub path : Bytes
  pub buffer : Bytes
  pub mode : Mode

-- `Open`, which `ReadStream` calls
unfoldable pub open_file : CoreText → MemoryMedium → Bytes → Result MemoryFile
open_file c medium path = elim (lookup path medium.file_contents) [
  | none ↦ err not_exist
  | some content ↦ ok (record {
    name = c.path_base path;
    content = content;
    offset = 0;
    mode = mode_for_path medium path;
    mod_time = modification_time_for_path medium path;
  })
]

-- `Create`, which `WriteStream` calls
unfoldable pub create : Bytes → MemoryWriteCloser
create path = record { path = path; buffer = []; mode = file_mode }

-- `Append`: a missing file reads as the empty string
unfoldable pub append : MemoryMedium → Bytes → MemoryWriteCloser
append medium path = record {
  path = path;
  buffer = or_else (lookup path medium.file_contents) [];
  mode = mode_for_path medium path;
}

-- `MemoryWriteCloser.Write`
unfoldable pub writer_write : MemoryWriteCloser → Bytes → MemoryWriteCloser × ℕ
writer_write writer payload = (record writer { buffer = writer.buffer ++ payload }, length payload)

-- `MemoryWriteCloser.Close`
unfoldable pub writer_close :
    CoreText → Time → MemoryMedium → MemoryWriteCloser → Result MemoryMedium
unfolding ensure_ancestor_directories put_file
writer_close c now medium writer =
    if has_key writer.path medium.directories
    then err exist
    else ok (
        put_file writer.path writer.buffer writer.mode now
          (ensure_ancestor_directories c writer.path medium))
