-- ===== src/Node/Streams.antt =====
-- go/node/node.go: the readers and writers of a `Node`. A reader keeps the file that it was opened
-- on. `Rename` changes the name inside an open file; the name of a reader is the one at `Open`.
use go_io.Common.{ℕ, ◌+◌, Option, none, some, [], ◌++◌, ◌||◌, leb, if◌then◌else◌}
use go_io.Common.Lists.{length, take, drop}
use go_io.Common.Bytes.{Bytes, str_eq}
use go_io.Common.Results.{Result, ok, err, not_exist, invalid}
use go_io.Common.GoMap.{lookup}
use go_io.CoreText.{CoreText, dot}
use go_io.Medium.{Time, FileInfo}
use go_io.Node.{Node, DataFile, put_data, trimmed, resolved, has_below, data_file_info, dir_info}

-- `type nodeWriter struct`; its node is the argument of `writer_close`.
pub record NodeWriter : Type 0 where
  pub path : Bytes
  pub buffer : Bytes

-- `nodeWriter.Write`
unfoldable pub writer_write : NodeWriter → Bytes → NodeWriter × ℕ
writer_write writer payload = (record writer { buffer = writer.buffer ++ payload }, length payload)

-- `nodeWriter.Close`
unfoldable pub writer_close : Time → Node → NodeWriter → Result Node
unfolding put_data
writer_close now node writer =
    if str_eq writer.path [] || str_eq writer.path dot
    then err invalid
    else ok (put_data now writer.path writer.buffer node)

-- `type dataFileReader struct`, `type dirFile struct`
pub record DataFileReader : Type 0 where
  pub file : DataFile
  pub offset : ℕ

pub record DirFile : Type 0 where
  pub path : Bytes
  pub mod_time : Time

-- `dataFileReader.Read` into a buffer of that size: the bytes copied, or none for `io.EOF`.
unfoldable pub reader_read : DataFileReader → ℕ → DataFileReader × Option Bytes
reader_read reader size =
    if leb (length reader.file.content) reader.offset
    then (reader, none)
    else let chunk = take size (drop reader.offset reader.file.content) in
      (record reader { offset = reader.offset + length chunk }, some chunk)

-- `dirFile.Read`
abbrev pub directory_read : DirFile → ℕ → Result Bytes
directory_read directory size = err invalid

-- What `Open` returns.
pub data Opened : Type 0 where
  opened_file : DataFileReader → Opened
  opened_directory : DirFile → Opened

module _ (c : CoreText) where
  -- `dataFileReader.Stat` and `dirFile.Stat`
  abbrev pub opened_stat : Opened → FileInfo
  opened_stat (opened_file reader) = data_file_info c reader.file
  opened_stat (opened_directory directory) =
      dir_info c (c.path_base directory.path) directory.mod_time

  -- `Open`
  unfoldable pub open_file : Time → Node → Bytes → Result Opened
  unfolding has_below
  open_file now node path =
      let name = resolved c path in
      elim (lookup name node.files) [
        | some file ↦ ok (opened_file (record { file = file; offset = 0 }))
        | none ↦
            if str_eq name []
            then ok (opened_directory (record { path = dot; mod_time = now }))
            else if has_below c node name
            then ok (opened_directory (record { path = name; mod_time = now }))
            else err not_exist
      ]

  -- `ReadStream`
  abbrev pub read_stream : Time → Node → Bytes → Result Opened
  read_stream now node path = open_file now node path

  -- `Create`, which `WriteStream` calls
  unfoldable pub create : Bytes → NodeWriter
  create path = record { path = trimmed c path; buffer = [] }

  abbrev pub content_or_empty : Option DataFile → Bytes
  content_or_empty none = []
  content_or_empty (some file) = file.content

  -- `Append`: the writer starts with a copy of the content, if the file exists
  unfoldable pub append : Node → Bytes → NodeWriter
  append node path = record {
    path = trimmed c path;
    buffer = content_or_empty (lookup (trimmed c path) node.files);
  }
