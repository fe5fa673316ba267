-- ===== src/Memory/Keeping.antt =====
-- The memory medium keeps files as the mediums promise.
use native.Mathlib.Omega.{arith}
use go_io.Common.{
  ◌≡◌, ◌⊎◌, inl, inr, refl, sym, ap, ◌∙◌, Bool-cases, false, none, List, if◌then◌else◌,
}
use go_io.Common.Bytes.{Bytes, str_eq, str_eq_iff}
use go_io.Common.Results.{Result-cases}
use go_io.Common.GoMap.{is_some, has_key}
use go_io.CoreText
use go_io.CoreText.{CoreText}
use go_io.Medium.{Mode, Time, file_mode}
use go_io.Storage.{Storage}
use go_io.Storage.Contract
use go_io.Storage.Contract.{content_at, found, is_ok, written, removed, moved}
use go_io.Memory
use go_io.Memory.{
  MemoryMedium, read, is_file, write_mode, delete, ensure_dir, ensure_ancestor_directories,
}
use go_io.Memory.Whole.{memory_storage}
use go_io.Memory.Move.Files.{rename_file_effect}
use go_io.Memory.Removal.{delete_cases}
use go_io.Memory.Writing.{write_mode_effect}

module _ (c : CoreText) (K : CoreText.IsLawful c) (now : Time)
    (file_order directory_order : MemoryMedium → List Bytes) where
  abbrev M : Storage
  M = memory_storage c now file_order directory_order

  keeps_write_mode :
      (m : MemoryMedium) (path content : Bytes) (mode : Mode) (q : Bytes)
      → content_at M (M.write_mode m path content mode).1 q
        ≡ written (is_ok (M.write_mode m path content mode).0) path content (content_at M m) q
  keeps_write_mode m path content mode q =
      elim (Result-cases (write_mode c now m path content mode)) [
        | inl (m', done) ↦
            let effect = (write_mode_effect c K now m m' path content q mode done).0 in
            rw (done, effect) (ground arith)
        | inr (e, failed) ↦ rw (failed) refl
      ]

  is_file_found : (m : MemoryMedium) (path : Bytes) → is_file m path ≡ is_some (found (read m path))
  unfolding is_file read
  is_file_found m path = ground arith

  keeps_ensure_dir :
      (m : MemoryMedium) (path q : Bytes)
      → content_at M (M.ensure_dir m path).1 q ≡ content_at M m q
  unfolding ensure_dir read ensure_ancestor_directories
  keeps_ensure_dir m path q = elim (Bool-cases (has_key path m.file_contents)) [
    | inl file ↦ rw (file) refl
    | inr no_file ↦ rw (no_file) refl
  ]

  not_found :
      (m : MemoryMedium) (path q : Bytes)
      → is_file m path ≡ false
      → found (read m q) ≡ (if str_eq path q then none else found (read m q))
  not_found m path q no_file = elim (Bool-cases (str_eq path q)) [
    | inr other ↦ rw (other) refl
    | inl same ↦
        let at : path ≡ q = (str_eq_iff path q).0 same in
        let absent : is_some (found (read m q)) ≡ false =
          ap (λ x. is_some (found (read m x))) (sym at) ∙ sym (is_file_found m path) ∙ no_file in
        rw (same) (ground (arith, absent))
  ]

  keeps_delete :
      (m : MemoryMedium) (path q : Bytes)
      → content_at M (M.delete m path).1 q
        ≡ removed (is_ok (M.delete m path).0) path (content_at M m) q
  keeps_delete m path q = elim (delete_cases c m path q) [
    | inl (file, (m', done, reads, _)) ↦ rw (done, reads) (ground arith)
    | inr (inl (no_file, _, _, (m', done, reads, _))) ↦
        rw (done, reads) (not_found m path q no_file)
    | inr (inr (inl (_, _, _, failed))) ↦ rw (failed) refl
    | inr (inr (inr (_, _, failed))) ↦ rw (failed) refl
  ]

  keeps_rename :
      (m : MemoryMedium) (old new q : Bytes)
      → (is_some (content_at M m old) ≡ false)
        ⊎ (content_at M (M.rename m old new).1 q
            ≡ moved (is_ok (M.rename m old new).0) old new (content_at M m) q)
  keeps_rename m old new q = elim (Bool-cases (is_file m old)) [
    | inr no_file ↦ inl (sym (is_file_found m old) ∙ no_file)
    | inl file ↦
        let (m', done, reads, _) =
          rename_file_effect c m old new q (file_order m) (directory_order m) file in
        inr (rw (done, reads) (ground arith))
  ]

  -- The memory medium keeps its files as promised: a write that succeeds is read back and leaves
  -- the other paths alone, and likewise for the directories that are made, for what is deleted and
  -- for files that are renamed; what fails changes nothing.
  pub memory_storage-IsKeeping : Contract.IsKeeping M
  unfolding Memory.write write_mode
  memory_storage-IsKeeping = record {
    write = λ m path content. keeps_write_mode m path content file_mode;
    write_mode = keeps_write_mode;
    ensure_dir = keeps_ensure_dir;
    delete = keeps_delete;
    rename = keeps_rename;
  }
