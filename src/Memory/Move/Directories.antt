-- ===== src/Memory/Move/Directories.antt =====
-- The explicit directories after the loop of `renameDirectoriesWithPrefix`, in whatever order it
-- visits the keys.
use native.Mathlib.Omega.{arith}
use go_io.Common.{◌≡◌, refl, Bool, true, false, not, ◌&&◌, ◌||◌, List, [], ◌∷◌, ◌++◌}
use go_io.Common.Bytes.{Bytes, str_eq, str_eq-append}
use go_io.Common.GoMap.{GoMap, insert, remove, has_key, lookup-insert, lookup-remove}
use go_io.CoreText
use go_io.CoreText.{CoreText}
use go_io.Memory.Move.{rename_directories, occurs}
use go_io.Memory.Move.Contents.{
  Under, Apart, has_prefix-append, has_prefix-append_new, renamed-append, head_of, tail-Under,
  differ_left, differ_right,
}

-- One round: the old key goes, and the new one is there.
pub has_key-moved :
    (old new q : Bytes) (m : GoMap Bool)
    → has_key q (remove old (insert new true m))
      ≡ (not (str_eq old q) && (str_eq new q || has_key q m))
has_key-moved old new q m =
    ground (arith, lookup-remove old q (insert new true m), lookup-insert new q true m)

module _ (c : CoreText) (L : CoreText.IsLawful c) (o n : Bytes) where
  pub has_key-rename_directories_old :
      (keys : List Bytes) (d : GoMap Bool) (r : Bytes)
      → Apart c L o n
      → Under c L o n keys
      → has_key (o ++ r) (rename_directories c o n keys d)
        ≡ (not (occurs (o ++ r) keys) && has_key (o ++ r) d)
  unfolding rename_directories
  has_key-rename_directories_old [] d r apart under = refl
  has_key-rename_directories_old (k ∷ keys) d r apart under =
      let (t, e) = head_of c L o n k keys under in
      let next = remove (o ++ t) (insert (n ++ t) true d) in
      let ih = has_key-rename_directories_old keys next r apart (tail-Under c L o n k keys under) in
      rw (e, renamed-append c L o n t)
        (ground (
          arith,
          ih,
          has_key-moved (o ++ t) (n ++ t) (o ++ r) d,
          differ_right c (o ++ r) (n ++ t) o (has_prefix-append c L o n r) (apart t),
        ))

  pub has_key-rename_directories_new :
      (keys : List Bytes) (d : GoMap Bool) (r : Bytes)
      → Apart c L o n
      → Under c L o n keys
      → has_key (n ++ r) (rename_directories c o n keys d)
        ≡ (occurs (o ++ r) keys || has_key (n ++ r) d)
  unfolding rename_directories
  has_key-rename_directories_new [] d r apart under = refl
  has_key-rename_directories_new (k ∷ keys) d r apart under =
      let (t, e) = head_of c L o n k keys under in
      let next = remove (o ++ t) (insert (n ++ t) true d) in
      let ih = has_key-rename_directories_new keys next r apart (tail-Under c L o n k keys under) in
      rw (e, renamed-append c L o n t)
        (ground (
          arith,
          ih,
          has_key-moved (o ++ t) (n ++ t) (n ++ r) d,
          differ_left c (o ++ t) (n ++ r) o (has_prefix-append c L o n t) (apart r),
          str_eq-append o t r,
          str_eq-append n t r,
        ))

  pub has_key-rename_directories_other :
      (keys : List Bytes) (d : GoMap Bool) (q : Bytes)
      → Under c L o n keys
      → c.has_prefix q o ≡ false
      → c.has_prefix q n ≡ false
      → has_key q (rename_directories c o n keys d) ≡ has_key q d
  unfolding rename_directories
  has_key-rename_directories_other [] d q under not_old not_new = refl
  has_key-rename_directories_other (k ∷ keys) d q under not_old not_new =
      let (t, e) = head_of c L o n k keys under in
      let next = remove (o ++ t) (insert (n ++ t) true d) in
      let ih =
        has_key-rename_directories_other keys next q (tail-Under c L o n k keys under) not_old
          not_new in
      rw (e, renamed-append c L o n t)
        (ground (
          arith,
          ih,
          has_key-moved (o ++ t) (n ++ t) q d,
          differ_left c (o ++ t) q o (has_prefix-append c L o n t) not_old,
          differ_left c (n ++ t) q n (has_prefix-append_new c L o n t) not_new,
        ))
