-- ===== src/Memory/Writing.antt =====
-- `WriteMode` and `EnsureDir`: when they refuse, and what they leave.
use native.Mathlib.Omega.{arith}
use go_io.Common.{◌≡◌, ◌↔◌, ◌⊎◌, Bool, true, inl, inr, Bool-cases, if◌then◌else◌}
use go_io.Common.Bytes.{Bytes, str_eq}
use go_io.Common.Results.{ok, err, Error, exist}
use go_io.Common.GoMap.{GoMap, has_key, lookup-insert}
use go_io.CoreText
use go_io.CoreText.{CoreText}
use go_io.Medium.{Mode, Time}
use go_io.Memory.{
  MemoryMedium, read, is_file, mode_for_path, write_mode, mark_ancestors, ancestor_is_file,
  ensure_ancestor_directories, put_file, depth,
}
use go_io.Memory.Ancestors.{
  Reaches, Reaches-mark_ancestors, mark_ancestors-Reaches, has_key-mark_ancestors,
}
use go_io.Memory.FileAncestor.{ancestor_is_file_iff}

-- A proper ancestor of the path: "." and the empty path are none.
abbrev pub IsAncestor : CoreText → Bytes → Bytes → Type 0
IsAncestor c path a = Reaches c (c.path_dir path) a

module _ (c : CoreText) (L : CoreText.IsLawful c) where
  marks :
      (path k : Bytes) (d : GoMap Bool)
      → (has_key k (mark_ancestors c (depth c path) (c.path_dir path) d) ≡ true)
        ↔ ((has_key k d ≡ true) ⊎ IsAncestor c path k)
  marks path k d = (
    mark_ancestors-Reaches c (depth c path) (c.path_dir path) k d,
    λ h. elim h [
      | inl old ↦ has_key-mark_ancestors c (depth c path) (c.path_dir path) k d old
      | inr r ↦ Reaches-mark_ancestors c (depth c path) (c.path_dir path) k d L (omega arith) r
    ],
  )

  -- `WriteMode` fails, with `fs.ErrExist`, exactly if an ancestor of the path is stored as a file or
  -- the path is an explicit directory.
  pub write_mode_refuses :
      (now : Time) (m : MemoryMedium) (path content : Bytes) (mode : Mode) (e : Error)
      → (write_mode c now m path content mode ≡ err e) ↔ (
          (e ≡ exist)
          × (((a : Bytes) × IsAncestor c path a × (is_file m a ≡ true))
              ⊎ (has_key path m.directories ≡ true)))
  unfolding write_mode is_file
  write_mode_refuses now m path content mode e =
      let walk =
        ancestor_is_file_iff c (depth c path) (c.path_dir path) m.file_contents L (omega arith) in
      (
        λ h.
            elim (Bool-cases
              (ancestor_is_file c (depth c path) (c.path_dir path) m.file_contents)) [
                | inl found ↦ (ground arith, inl (walk.0 found))
                | inr none_found ↦ (ground arith, inr (ground arith))
              ],
        λ (is_exist, why). elim why [
          | inl file ↦ ground (arith, walk.1 file)
          | inr directory ↦ ground arith
        ],
      )

  write_mode_ok :
      (now : Time) (m m' : MemoryMedium) (path content : Bytes) (mode : Mode)
      → write_mode c now m path content mode ≡ ok m'
      → m' ≡ put_file path content mode now (ensure_ancestor_directories c path m)
  unfolding write_mode
  write_mode_ok now m m' path content mode e = ground arith

  -- After a successful `WriteMode` the path reads as what was written, in its mode, and every other
  -- path reads as before, in the mode it had; the explicit directories are those from before and the
  -- ancestors of the path.
  pub write_mode_effect :
      (now : Time) (m m' : MemoryMedium) (path content q : Bytes) (mode : Mode)
      → write_mode c now m path content mode ≡ ok m'
      → (read m' q ≡ (if str_eq path q then ok content else read m q))
        × (mode_for_path m' q ≡ (if str_eq path q then mode else mode_for_path m q))
        × ((has_key q m'.directories ≡ true)
            ↔ ((has_key q m.directories ≡ true) ⊎ IsAncestor c path q))
  unfolding put_file ensure_ancestor_directories read mode_for_path
  write_mode_effect now m m' path content q mode e =
      rw (write_mode_ok now m m' path content mode e) (
        ground (arith, lookup-insert path q content m.file_contents),
        ground (arith, lookup-insert path q mode m.file_modes),
        marks path q m.directories,
      )
