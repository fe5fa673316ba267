-- ===== src/Memory/Removal.antt =====
-- `Delete` and `DeleteAll`: when they refuse, and what they leave.
use native.Mathlib.Omega.{arith}
use go_io.Common.{
  ◌≡◌, ◌≢◌, ◌↔◌, ◌⊎◌, inl, inr, refl, Bool-cases, Bool, true, false, not, ◌&&◌, if◌then◌else◌,
}
use go_io.Common.Bytes.{Bytes, str_eq, str_eq_iff}
use go_io.Common.Results.{ok, err, exist, not_exist}
use go_io.Common.GoMap.{
  GoMap, has_key, remove, remove_where, any_key, lookup-remove, lookup-remove_where,
}
use go_io.CoreText
use go_io.CoreText.{CoreText}
use go_io.Memory.{
  MemoryMedium, read, is_file, delete, delete_all, delete_file, deleted, deleted_file,
  directory_exists, directory_has_children, with_slash,
}
use go_io.Common.GoMap.{any_key_iff}
use go_io.Memory.Below.{IsStart, IsBelow, with_slash-start}

has_key-remove {ℓ} :
    {V : Type ℓ} (k q : Bytes) (m : GoMap V)
    → has_key q (remove k m) ≡ (not (str_eq k q) && has_key q m)
has_key-remove k q m = ground (arith, lookup-remove k q m)

has_key-remove_where {ℓ} :
    {V : Type ℓ} (p : Bytes → Bool) (q : Bytes) (m : GoMap V)
    → has_key q (remove_where p m) ≡ (not (p q) && has_key q m)
has_key-remove_where p q m = ground (arith, lookup-remove_where p q m)

read-delete_file :
    (m : MemoryMedium) (path q : Bytes)
    → read (delete_file path m) q ≡ (if str_eq path q then err not_exist else read m q)
unfolding read delete_file
read-delete_file m path q = ground (arith, lookup-remove path q m.file_contents)

module _ (c : CoreText) where
  -- What `Delete` does, on every branch. A file goes and leaves every other file and every directory;
  -- a directory goes if it has no children, and no file does; a directory with children is
  -- `fs.ErrExist`, and a path that is neither is `fs.ErrNotExist`.
  pub delete_cases :
      (m : MemoryMedium) (path q : Bytes)
      → ((is_file m path ≡ true)
          × ((m' : MemoryMedium) × (delete c m path ≡ ok m')
              × (read m' q ≡ (if str_eq path q then err not_exist else read m q))
              × (m'.directories ≡ m.directories)))
        ⊎ ((is_file m path ≡ false)
            × (directory_exists c m path ≡ true)
            × (directory_has_children c m path ≡ false)
            × ((m' : MemoryMedium) × (delete c m path ≡ ok m')
                × (read m' q ≡ read m q)
                × (has_key q m'.directories ≡ (not (str_eq path q) && has_key q m.directories))))
        ⊎ ((is_file m path ≡ false)
            × (directory_exists c m path ≡ true)
            × (directory_has_children c m path ≡ true)
            × (delete c m path ≡ err exist))
        ⊎ ((is_file m path ≡ false)
            × (directory_exists c m path ≡ false)
            × (delete c m path ≡ err not_exist))
  unfolding delete is_file
  delete_cases m path q = elim (Bool-cases (is_file m path)) [
    | inl file ↦ inl (
      file,
      (delete_file path m, ground arith, read-delete_file m path q, unfold delete_file in refl),
    )
    | inr no_file ↦ elim (Bool-cases (directory_exists c m path)) [
      | inr nothing ↦ inr (inr (inr (no_file, nothing, ground arith)))
      | inl directory ↦ elim (Bool-cases (directory_has_children c m path)) [
        | inl children ↦ inr (inr (inl (no_file, directory, children, ground arith)))
        | inr empty ↦ inr (
            inl (
              no_file,
              directory,
              empty,
              (
                record m { directories = remove path m.directories },
                ground arith,
                unfold read in refl,
                has_key-remove path q m.directories,
              ),
            ))
      ]
    ]
  ]

  abbrev pub all_deleted : MemoryMedium → Bytes → MemoryMedium
  all_deleted m path = record {
    file_contents = remove_where (deleted c path) m.file_contents;
    file_modes = remove_where (deleted_file c path m) m.file_modes;
    directories = remove_where (deleted c path) m.directories;
    modification_times = remove_where (deleted_file c path m) m.modification_times;
  }

  pub delete_all_ok :
      (m m' : MemoryMedium) (path : Bytes) → delete_all c m path ≡ ok m' → m' ≡ all_deleted m path
  unfolding delete_all
  delete_all_ok m m' path e = ground arith

  -- `DeleteAll` succeeds exactly if a file or an explicit directory is the path or starts with its
  -- prefix.
  delete_all_succeeds :
      (m : MemoryMedium) (path : Bytes)
      → ((m' : MemoryMedium) × (delete_all c m path ≡ ok m')) ↔ (
          ((k : Bytes) × (is_file m k ≡ true) × (deleted c path k ≡ true))
          ⊎ ((k : Bytes) × (has_key k m.directories ≡ true) × (deleted c path k ≡ true)))
  unfolding delete_all is_file
  delete_all_succeeds m path =
      let files = any_key_iff (deleted c path) m.file_contents in
      let directories = any_key_iff (deleted c path) m.directories in
      (
        λ (m', e). elim (Bool-cases (any_key (deleted c path) m.file_contents)) [
          | inl found ↦ inl (files.0 found)
          | inr none_found ↦ inr (directories.0 (ground arith))
        ],
        λ h. elim h [
          | inl file ↦ (all_deleted m path, ground (arith, files.1 file))
          | inr directory ↦ (all_deleted m path, ground (arith, directories.1 directory))
        ],
      )

  -- After a successful `DeleteAll` the path and every path below it is neither a file nor an explicit
  -- directory; any other path reads as before, and is an explicit directory exactly if it was one.
  pub delete_all_effect :
      (m m' : MemoryMedium) (path start q : Bytes)
      → CoreText.IsLawful c
      → IsStart path start
      → delete_all c m path ≡ ok m'
      → (((q ≡ path) ⊎ IsBelow start q)
          × (read m' q ≡ err not_exist)
          × (has_key q m'.directories ≡ false))
        ⊎ ((q ≢ path)
            × (¬ IsBelow start q)
            × (read m' q ≡ read m q)
            × (has_key q m'.directories ≡ has_key q m.directories))
  unfolding read
  delete_all_effect m m' path start q L begins e =
      let files = lookup-remove_where (deleted c path) q m.file_contents in
      let directories = has_key-remove_where (deleted c path) q m.directories in
      let same = delete_all_ok m m' path e in
      let is_start = with_slash-start c L path start begins in
      let below : (c.has_prefix q (with_slash c path) ≡ true) ↔ IsBelow start q =
        rw (is_start) (L.has_prefix_iff q (with_slash c path)) in
      elim (Bool-cases (str_eq q path)) [
        | inl itself ↦
            let goes : deleted c path q ≡ true = unfold deleted in ground (arith, itself) in
            inl (
              inl ((str_eq_iff q path).0 itself),
              rw (same) (ground (arith, files, goes)),
              rw (same) (ground (arith, directories, goes)),
            )
        | inr other ↦
            let is_other : q ≢ path = λ h. ground (arith, (str_eq_iff q path).1 h, other) in
            elim (Bool-cases (c.has_prefix q (with_slash c path))) [
              | inl under ↦
                  let goes : deleted c path q ≡ true = unfold deleted in ground (arith, under) in
                  inl (
                    inr (below.0 under),
                    rw (same) (ground (arith, files, goes)),
                    rw (same) (ground (arith, directories, goes)),
                  )
              | inr out ↦
                  let stays : deleted c path q ≡ false =
                    unfold deleted in ground (arith, out, other) in
                  inr (
                    is_other,
                    (λ h. let has = below.1 h in cc),
                    rw (same) (ground (arith, files, stays)),
                    rw (same) (ground (arith, directories, stays)),
                  )
            ]
      ]
