-- ===== src/Cube.antt =====
-- go/cube/cube.go: the medium that encrypts what it hands to another medium, its open files and its
-- writers. The random source is the one of the cipher's sigil.
pub mod Keeping
pub mod Archive
mod Tests
use go_io.Common.{
  ℕ, ◌+◌, ◌==◌, leb, Bool, false, Option, none, some, List, [], ◌∷◌, ◌++◌, if◌then◌else◌,
}
use go_io.Common.Lists.{length, take, drop}
use go_io.Common.Bytes.{Bytes}
use go_io.Common.Results.{Result, ok, err, Error, ◌>>=◌, invalid}
use go_io.CoreText.{CoreText}
use go_io.Medium.{Mode, Time, FileInfo, DirEntry, new_file_info, file_mode}
use go_io.Sigil.{transmute, untransmute}
use go_io.Sigil.Digest.{Digest}
use go_io.Sigil.Cipher.{
  ChaCha, ChaChaPolySigil, Reader, cipher_sigil, new_cha_cha_poly_sigil, nil_nonce,
}
use go_io.Storage.{Storage, Outcome}

-- `type Medium struct`; the inner medium is the parameter `inner`.
pub record CubeMedium : Type 0 where
  pub sigil : ChaChaPolySigil

-- `string(b)` of a slice that may be nil.
abbrev pub text : Option Bytes → Bytes
text none = []
text (some bytes) = bytes

-- `type cubeFile struct`
pub record CubeFile : Type 0 where
  pub name : Bytes
  pub content : Bytes
  pub offset : ℕ
  pub mode : Mode
  pub mod_time : Time

-- `type cubeWriteCloser struct`; its medium is the argument of `writer_close`.
pub record CubeWriteCloser : Type 0 where
  pub path : Bytes
  pub buffer : Bytes
  pub mode : Mode

-- `cubeFile.Stat`
unfoldable pub file_stat : CubeFile → FileInfo
file_stat file = new_file_info file.name (length file.content) file.mode file.mod_time false

-- `cubeFile.Read` into a buffer of that size: the bytes copied, or none for `io.EOF`.
unfoldable pub file_read : CubeFile → ℕ → CubeFile × Option Bytes
file_read file size =
    if leb (length file.content) file.offset
    then (file, none)
    else let chunk = take size (drop file.offset file.content) in
      (record file { offset = file.offset + length chunk }, some chunk)

-- `cubeWriteCloser.Write`
unfoldable pub writer_write : CubeWriteCloser → Bytes → CubeWriteCloser × ℕ
writer_write writer payload = (record writer { buffer = writer.buffer ++ payload }, length payload)

module _ (chacha : ChaCha) (h : Digest) (rand_reader : Reader) where
  -- `New`; the inner medium is `none` for nil.
  unfoldable pub new : {S : Type 0} → Option S → Bytes → Result CubeMedium
  unfolding new_cha_cha_poly_sigil
  new none key = err invalid
  new (some inner) key =
      new_cha_cha_poly_sigil chacha h rand_reader key nil_nonce >>= λ cipher_sigil.
      ok (record { sigil = cipher_sigil })

module _ (c : CoreText) (chacha : ChaCha) (rand_reader : Reader) (inner : Storage)
    (now : Time) where
  -- The decryption in `Read` and `Open`.
  unfoldable pub decrypted : CubeMedium → Bytes → Result Bytes
  unfolding untransmute
  decrypted medium ciphertext =
      untransmute (some ciphertext) (cipher_sigil chacha rand_reader medium.sigil ∷ [])
      >>= λ plaintext. ok (text plaintext)

  -- `Read`
  unfoldable pub read : CubeMedium → inner.State → Bytes → Result Bytes
  unfolding decrypted
  read medium s path = inner.read s path >>= decrypted medium

  abbrev on_sealed :
      Result (Option Bytes)
      → inner.State
      → (Bytes → Outcome inner.State Unit)
      → Outcome inner.State Unit
  on_sealed (err e) s run = (err e, s)
  on_sealed (ok ciphertext) s run = run (text ciphertext)

  -- `WriteMode`
  unfoldable pub write_mode :
      CubeMedium → inner.State → Bytes → Bytes → Mode → Outcome inner.State Unit
  unfolding transmute
  write_mode medium s path content mode =
      on_sealed (transmute (some content) (cipher_sigil chacha rand_reader medium.sigil ∷ [])) s
        (λ ciphertext. inner.write_mode s path ciphertext mode)

  -- `Write`
  unfoldable pub write : CubeMedium → inner.State → Bytes → Bytes → Outcome inner.State Unit
  unfolding write_mode
  write medium s path content = write_mode medium s path content file_mode

  abbrev info_or : Bytes → Bytes → Result FileInfo → FileInfo
  info_or path plaintext (ok info) = info
  info_or path plaintext (err e) =
      new_file_info (c.path_base path) (length plaintext) file_mode now false

  -- `Open`
  unfoldable pub open_file : CubeMedium → inner.State → Bytes → Result CubeFile
  unfolding decrypted
  open_file medium s path = inner.read s path >>= λ ciphertext.
      decrypted medium ciphertext >>= λ plaintext.
      let info = info_or path plaintext (inner.stat s path) in
      ok (record {
        name = c.path_base path;
        content = plaintext;
        offset = 0;
        mode = info.mode;
        mod_time = info.mod_time;
      })

  -- `Create`
  unfoldable pub create : Bytes → CubeWriteCloser
  create path = record { path = path; buffer = []; mode = file_mode }

  -- `Append`
  unfoldable pub append : CubeMedium → inner.State → Bytes → Result CubeWriteCloser
  unfolding read
  append medium s path = (if inner.exists s path then read medium s path else ok []) >>= λ existing.
      ok (record { path = path; buffer = existing; mode = file_mode })

  -- `cubeWriteCloser.Close`
  unfoldable pub writer_close :
      CubeMedium → inner.State → CubeWriteCloser → Outcome inner.State Unit
  unfolding write_mode
  writer_close medium s writer =
      let mode = if writer.mode == 0 then file_mode else writer.mode in
      write_mode medium s writer.path writer.buffer mode

  -- The methods of `*Medium`; those that the inner medium has and `Medium` passes on are its own.
  abbrev pub cube : CubeMedium → Storage
  cube medium = record {
    State = inner.State;
    File = CubeFile;
    Reader = CubeFile;
    Writer = CubeWriteCloser;
    read = read medium;
    write = write medium;
    write_mode = write_mode medium;
    ensure_dir = inner.ensure_dir;
    is_file = inner.is_file;
    delete = inner.delete;
    delete_all = inner.delete_all;
    rename = inner.rename;
    list = inner.list;
    stat = inner.stat;
    open_file = open_file medium;
    create = λ s path. (ok (create path), s);
    append = λ s path. (append medium s path, s);
    read_stream = open_file medium;
    write_stream = λ s path. (ok (create path), s);
    exists = inner.exists;
    is_dir = inner.is_dir;
  }
