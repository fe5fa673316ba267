-- ===== src/Memory/Stream/Appending.antt =====
-- Writers of a `MemoryMedium`: what is written is stored when the writer is closed.
use native.Mathlib.Omega.{arith}
use go_io.Common.{◌≡◌, ap, ◌∙◌, [], ◌++◌, if◌then◌else◌}
use go_io.Common.Bytes.{Bytes, str_eq, str_eq_refl}
use go_io.Common.Results.{Result, ok, err}
use go_io.Common.GoMap.{lookup, lookup-insert}
use go_io.CoreText.{CoreText}
use go_io.Medium.{Time, file_mode}
use go_io.Memory.{MemoryMedium, read, mode_for_path, or_else, ensure_ancestor_directories, put_file}
use go_io.Memory.Stream.{MemoryWriteCloser, create, append, writer_write, writer_close}

-- The content that an append starts from.
abbrev pub before : Result Bytes → Bytes
before (ok content) = content
before (err e) = []

module _ (c : CoreText) (now : Time) (m m' : MemoryMedium) (w : MemoryWriteCloser) where
  close_ok :
      writer_close c now m w ≡ ok m'
      → m' ≡ put_file w.path w.buffer w.mode now (ensure_ancestor_directories c w.path m)
  unfolding writer_close
  close_ok e = ground arith

  close_effect :
      (q : Bytes)
      → writer_close c now m w ≡ ok m'
      → (read m' q ≡ (if str_eq w.path q then ok w.buffer else read m q))
        × (mode_for_path m' w.path ≡ w.mode)
  unfolding read mode_for_path put_file ensure_ancestor_directories
  close_effect q e = rw (close_ok e) (
    ground (arith, lookup-insert w.path q w.buffer m.file_contents),
    ground (arith, lookup-insert w.path w.path w.mode m.file_modes, str_eq_refl w.path),
  )

module _ (c : CoreText) (now : Time) (m m' : MemoryMedium) (path first second q : Bytes) where
  -- `Append`, two writes and a successful `Close`: the path reads as its content before, empty if
  -- there was none, followed by what was written, in the mode that it had; any other path reads as
  -- before.
  pub append_close :
      writer_close c now m (writer_write (writer_write (append m path) first).0 second).0 ≡ ok m'
      → (read m' q
          ≡ (if str_eq path q then ok ((before (read m path) ++ first) ++ second) else read m q))
        × (mode_for_path m' path ≡ mode_for_path m path)
  unfolding append writer_write
  append_close e =
      let w = (writer_write (writer_write (append m path) first).0 second).0 in
      let effect = close_effect c now m m' w q e in
      let start : or_else (lookup path m.file_contents) [] ≡ before (read m path) =
        unfold read in ground arith in
      (
        effect.0 ∙ ap (λ s. if str_eq path q then ok ((s ++ first) ++ second) else read m q) start,
        effect.1,
      )

  -- `Create`, two writes and a successful `Close`: the path reads as what was written, in mode 0644,
  -- whatever it was before; any other path reads as before.
  pub create_close :
      writer_close c now m (writer_write (writer_write (create path) first).0 second).0 ≡ ok m'
      → (read m' q ≡ (if str_eq path q then ok (first ++ second) else read m q))
        × (mode_for_path m' path ≡ file_mode)
  unfolding create writer_write
  create_close e =
      close_effect c now m m' (writer_write (writer_write (create path) first).0 second).0 q e
