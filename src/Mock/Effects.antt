-- ===== src/Mock/Effects.antt =====
-- `MockMedium`: what the operations leave, on every branch.
use native.Mathlib.Omega.{arith}
use go_io.Common.{◌≡◌, ◌⊎◌, refl, inl, inr, Bool-cases, true, false, not, ◌&&◌, ◌||◌, if◌then◌else◌}
use go_io.Common.Bytes.{Bytes, str_eq, str_eq_refl}
use go_io.Common.Results.{ok, err, not_exist}
use go_io.Common.GoMap.{
  lookup, insert, has_key, remove, remove_where, any_key, lookup-insert, lookup-remove,
  lookup-remove_where,
}
use go_io.Medium.{Mode, Time}
use go_io.Mock.{
  MockMedium, MockMeta, meta_or_zero, read, write_mode, delete, delete_all, rename, is_file, is_dir,
  path_matches_prefix, deleted_meta,
}

-- The mode that `Stat` gives for a file.
abbrev pub mode_for : MockMedium → Bytes → Mode
mode_for m path = (meta_or_zero (lookup path m.meta)).mode

-- `WriteMode` of a path and `Rename` of it to another path succeed: the first path does not exist,
-- the other one reads as what was written, in its mode, and any third path reads as before.
rename-write_mode :
    (now : Time) (m : MockMedium) (path new_path content q : Bytes) (mode : Mode)
    → str_eq path new_path ≡ false
    → (m' : MockMedium) × (rename (write_mode now m path content mode) path new_path ≡ ok m')
      × (read m' q ≡ (
          if str_eq path q
          then err not_exist
          else if str_eq new_path q
          then ok content
          else read m q))
      × (mode_for m' new_path ≡ mode)
unfolding rename write_mode read
rename-write_mode now m path new_path content q mode differ =
    let metadata : MockMeta = record { mode = mode; mod_time = now } in
    let files = insert path content m.files in
    let meta = insert path metadata m.meta in
    (
      record m {
        files = remove path (insert new_path content files);
        meta = remove path (insert new_path metadata meta);
      },
      ground (
        arith,
        lookup-insert path path content m.files,
        lookup-insert path path metadata m.meta,
        str_eq_refl path,
      ),
      ground (
        arith,
        lookup-remove path q (insert new_path content files),
        lookup-insert new_path q content files,
        lookup-insert path q content m.files,
      ),
      ground (
        arith,
        lookup-remove path new_path (insert new_path metadata meta),
        lookup-insert new_path new_path metadata meta,
        str_eq_refl new_path,
      ),
    )

-- What `Delete` does, on every branch: a file goes, and no directory; else a directory goes, even if
-- files stand below it, and no file; a path that is neither is `fs.ErrNotExist`.
delete_branches :
    (m : MockMedium) (path q : Bytes)
    → ((is_file m path ≡ true)
        × ((m' : MockMedium) × (delete m path ≡ ok m')
            × (read m' q ≡ (if str_eq path q then err not_exist else read m q))
            × (m'.dirs ≡ m.dirs)))
      ⊎ ((is_file m path ≡ false)
          × (has_key path m.dirs ≡ true)
          × ((m' : MockMedium) × (delete m path ≡ ok m')
              × (read m' q ≡ read m q)
              × (is_dir m' q ≡ (not (str_eq path q) && is_dir m q))))
      ⊎ ((is_file m path ≡ false) × (has_key path m.dirs ≡ false) × (delete m path ≡ err not_exist))
unfolding delete is_file read is_dir
delete_branches m path q = elim (Bool-cases (has_key path m.files)) [
  | inl file ↦ inl (
    file,
    (
      record m { files = remove path m.files; meta = remove path m.meta },
      ground arith,
      ground (arith, lookup-remove path q m.files),
      refl,
    ),
  )
  | inr no_file ↦ elim (Bool-cases (has_key path m.dirs)) [
    | inl directory ↦ inr (
        inl (
          no_file,
          directory,
          (
            record m { dirs = remove path m.dirs },
            ground arith,
            refl,
            ground (arith, lookup-remove path q m.dirs),
          ),
        ))
    | inr nothing ↦ inr (inr (no_file, nothing, ground arith))
  ]
]

-- `DeleteAll` fails, with `fs.ErrNotExist`, if no file and no directory matches the prefix. Else
-- exactly the files and directories that match are gone, and the files left read as before, in the
-- mode that they had.
delete_all_branches :
    (m : MockMedium) (path q : Bytes)
    → (((any_key (path_matches_prefix path) m.files || any_key (path_matches_prefix path) m.dirs)
          ≡ false)
        × (delete_all m path ≡ err not_exist))
      ⊎ (((any_key (path_matches_prefix path) m.files || any_key (path_matches_prefix path) m.dirs)
            ≡ true)
          × ((m' : MockMedium) × (delete_all m path ≡ ok m')
              × (read m' q ≡ (if path_matches_prefix path q then err not_exist else read m q))
              × (is_dir m' q ≡ (not (path_matches_prefix path q) && is_dir m q))
              × (mode_for m' q
                  ≡ (if path_matches_prefix path q && is_file m q then 0 else mode_for m q))))
unfolding delete_all read is_dir is_file
delete_all_branches m path q =
    let matches = path_matches_prefix path in
    elim (Bool-cases (any_key matches m.files || any_key matches m.dirs)) [
      | inr nothing ↦ inl (nothing, ground arith)
      | inl found ↦ inr (
        found,
        (
          record {
            files = remove_where matches m.files;
            meta = remove_where (deleted_meta m path) m.meta;
            dirs = remove_where matches m.dirs;
          },
          ground arith,
          ground (arith, lookup-remove_where matches q m.files),
          ground (arith, lookup-remove_where matches q m.dirs),
          ground (arith, lookup-remove_where (deleted_meta m path) q m.meta),
        ),
      )
    ]
