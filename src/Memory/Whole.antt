-- ===== src/Memory/Whole.antt =====
-- go/io.go: `MemoryMedium` with all the methods of the `Medium` interface. The orders in which the
-- loops of `Rename` visit the files and the directories are the parameters.
use go_io.Common.{List}
use go_io.Common.Bytes.{Bytes}
use go_io.Common.Results.{Result, ok, err}
use go_io.CoreText.{CoreText}
use go_io.Medium.{Time}
use go_io.Memory.{
  MemoryMedium, read, write, write_mode, ensure_dir, is_file, delete, delete_all, stat, exists,
  is_dir,
}
use go_io.Memory.Listing.{list}
use go_io.Memory.Move.{rename}
use go_io.Memory.Stream.{MemoryFile, MemoryWriteCloser, open_file, create, append}
use go_io.Storage.{Storage, Outcome}

-- A method that fails has changed nothing.
abbrev pub outcome : MemoryMedium → Result MemoryMedium → Outcome MemoryMedium Unit
outcome m (ok m') = (ok tt, m')
outcome m (err e) = (err e, m)

abbrev pub memory_storage :
    CoreText → Time → (MemoryMedium → List Bytes) → (MemoryMedium → List Bytes) → Storage
memory_storage c now file_order directory_order = record {
  State = MemoryMedium;
  File = MemoryFile;
  Reader = MemoryFile;
  Writer = MemoryWriteCloser;
  read = read;
  write = λ m path content. outcome m (write c now m path content);
  write_mode = λ m path content mode. outcome m (write_mode c now m path content mode);
  ensure_dir = λ m path. outcome m (ensure_dir c m path);
  is_file = is_file;
  delete = λ m path. outcome m (delete c m path);
  delete_all = λ m path. outcome m (delete_all c m path);
  rename = λ m old new. outcome m (rename c m old new (file_order m) (directory_order m));
  list = list c;
  stat = stat c now;
  open_file = open_file c;
  create = λ m path. (ok (create path), m);
  append = λ m path. (ok (append m path), m);
  read_stream = open_file c;
  write_stream = λ m path. (ok (create path), m);
  exists = exists c;
  is_dir = is_dir c;
}
