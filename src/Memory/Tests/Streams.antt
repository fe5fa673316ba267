-- ===== src/Memory/Tests/Streams.antt =====
-- Runs of the readers and writers of a `MemoryMedium`.
use go_io.Common.{◌≡◌, refl, [], ◌∷◌}
use go_io.Common.Bytes.{bytes, str_eq}
use go_io.Common.Results.{ok}
use go_io.Common.GoMap.{lookup, insert}
use go_io.CoreText.Plain
use go_io.CoreText.Plain.{plain, plain-IsLawful}
use go_io.Medium.{file_mode}
use go_io.Memory
use go_io.Memory.{
  MemoryMedium, new_memory_medium, read, is_file, mode_for_path, write_mode, delete, delete_all,
  deleted, stat, directory_exists, directory_has_children, put_file, ensure_ancestor_directories,
}
use go_io.Memory.Stream.{MemoryFile, open_file, create, append, writer_write, writer_close}
use go_io.Memory.Tests.{one, two, text, notes}

abbrev opened : MemoryFile
opened = record { name = bytes "1"; content = text; offset = 0; mode = 0o600; mod_time = 3 }

one-opened : open_file plain notes one ≡ ok opened
unfolding open_file mode_for_path Memory.modification_time_for_path lookup str_eq Plain.after_slash
one-opened = refl

abbrev appended : MemoryMedium
appended = record notes {
  file_contents = (one, bytes "text and") ∷ (two, bytes "x") ∷ [];
  modification_times = (one, 9) ∷ (two, 4) ∷ [];
}

one-appended :
    writer_close plain 9 notes
      (writer_write (writer_write (append notes one) (bytes " ")).0 (bytes "and")).0
    ≡ ok appended
unfolding writer_close writer_write append put_file ensure_ancestor_directories mode_for_path
    Memory.mark_ancestors lookup insert str_eq Plain.before_slash
one-appended = refl

abbrev created : MemoryMedium
created = record notes {
  file_contents = (one, bytes "new") ∷ (two, bytes "x") ∷ [];
  file_modes = (one, file_mode) ∷ (two, file_mode) ∷ [];
  modification_times = (one, 9) ∷ (two, 4) ∷ [];
}

one-created :
    writer_close plain 9 notes
      (writer_write (writer_write (create one) (bytes "ne")).0 (bytes "w")).0
    ≡ ok created
unfolding writer_close writer_write create put_file ensure_ancestor_directories
    Memory.mark_ancestors lookup insert str_eq Plain.before_slash
one-created = refl
