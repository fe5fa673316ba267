-- ===== src/Node/Moving.antt =====
-- `Node.Rename`: of a file, and of a directory, into itself too.
use native.Mathlib.Omega.{arith}
use go_io.Common.{
  ◌≡◌, refl, ap, ◌∙◌, true, false, inl, inr, Option, Option-cases, Bool-cases, none, some, [], ◌∷◌,
  ◌++◌, if◌then◌else◌,
}
use go_io.Common.Bytes.{Bytes, str_eq, str_eq_iff, str_eq-append}
use go_io.Common.Results.{ok, err, not_exist}
use go_io.Common.GoMap.{
  GoMap, lookup, insert, remove_where, has_key, lookup-insert, lookup-remove_where, any_key_intro,
}
use go_io.CoreText
use go_io.CoreText.{CoreText, slash}
use go_io.CoreText.Prefixes.{concat-trim_prefix, has_prefix-append}
use go_io.Node.{
  Node, DataFile, stored, trimmed, updated_path, to_add, put_all, rename_directory, rename,
}

abbrev pub either : Option DataFile → Option DataFile → Option DataFile
either none b = b
either (some a) b = some a

pub lookup-put_all :
    (added files : GoMap DataFile) (q : Bytes)
    → lookup q (put_all added files) ≡ either (lookup q added) (lookup q files)
unfolding put_all lookup
lookup-put_all [] files q = refl
lookup-put_all ((path, file) ∷ added) files q =
    ground (arith, lookup-put_all added files q, lookup-insert path q file (put_all added files))

-- A file under a new name.
abbrev with_name : Bytes → Option DataFile → Option DataFile
with_name name none = none
with_name name (some file) = some (record file { name = name })

module _ (c : CoreText) (L : CoreText.IsLawful c) (o n : Bytes) where
  updated_path-append : (r : Bytes) → updated_path c o n (o ++ r) ≡ n ++ r
  unfolding updated_path
  updated_path-append r = concat-trim_prefix c L o n r

  -- The two outcomes for one key.
  to_add_below :
      (t : Bytes) (file : DataFile) (files : GoMap DataFile)
      → to_add c o n ((o ++ t, file) ∷ files)
        ≡ insert (n ++ t) (record file { name = n ++ t }) (to_add c o n files)
  unfolding to_add
  to_add_below t file files = rw (has_prefix-append c L o t, updated_path-append t) refl

  to_add_other :
      (path : Bytes) (file : DataFile) (files : GoMap DataFile)
      → c.has_prefix path o ≡ false
      → to_add c o n ((path, file) ∷ files) ≡ to_add c o n files
  unfolding to_add
  to_add_other path file files h = rw (h) refl

  differs : (path r : Bytes) → c.has_prefix path o ≡ false → str_eq path (o ++ r) ≡ false
  differs path r h = ground (
    arith,
    str_eq_iff path (o ++ r),
    has_prefix-append c L o r,
    λ (e : path ≡ o ++ r). ap (λ t. c.has_prefix t o) e,
  )

  lookup-to_add :
      (files : GoMap DataFile) (r : Bytes)
      → lookup (n ++ r) (to_add c o n files) ≡ with_name (n ++ r) (lookup (o ++ r) files)
  unfolding lookup
  lookup-to_add [] r = unfold to_add in refl
  lookup-to_add ((path, file) ∷ files) r = elim (Bool-cases (c.has_prefix path o)) [
    | inr other ↦
        ap (lookup (n ++ r)) (to_add_other path file files other)
        ∙ lookup-to_add files r
        ∙ ground (arith, differs path r other)
    | inl below ↦
        let (t, e) = (L.has_prefix_iff path o).0 below in
        let same : str_eq t r ≡ true → n ++ t ≡ n ++ r =
          λ h. ap (λ s. n ++ s) ((str_eq_iff t r).0 h) in
        rw (e, to_add_below t file files)
          (ground (
            arith,
            lookup-insert (n ++ t) (n ++ r) (record file { name = n ++ t }) (to_add c o n files),
            lookup-to_add files r,
            str_eq-append n t r,
            str_eq-append o t r,
            same,
          ))
  ]

  -- A path without the new prefix is not among the new ones.
  to_add_elsewhere :
      (files : GoMap DataFile) (q : Bytes)
      → c.has_prefix q n ≡ false
      → lookup q (to_add c o n files) ≡ none
  to_add_elsewhere [] q h = unfold to_add lookup in refl
  to_add_elsewhere ((path, file) ∷ files) q h = elim (Bool-cases (c.has_prefix path o)) [
    | inr other ↦ ap (lookup q) (to_add_other path file files other) ∙ to_add_elsewhere files q h
    | inl below ↦
        let (t, e) = (L.has_prefix_iff path o).0 below in
        rw (e, to_add_below t file files)
          (ground (
            arith,
            lookup-insert (n ++ t) q (record file { name = n ++ t }) (to_add c o n files),
            to_add_elsewhere files q h,
            has_prefix-append c L n t,
            str_eq_iff (n ++ t) q,
            λ (d : n ++ t ≡ q). ap (λ s. c.has_prefix s n) d,
          ))
  ]

  module _ (node : Node) where
    abbrev kept : GoMap DataFile
    kept = remove_where (λ path. c.has_prefix path o) node.files

    abbrev moved : Node
    moved = record { files = put_all (to_add c o n node.files) kept }

    stored-moved :
        (r : Bytes)
        → stored moved (n ++ r) ≡ (
            if has_key (o ++ r) node.files
            then stored node (o ++ r)
            else if c.has_prefix (n ++ r) o
            then err not_exist
            else stored node (n ++ r))
    unfolding stored
    stored-moved r = ground (
      arith,
      lookup-put_all (to_add c o n node.files) kept (n ++ r),
      lookup-to_add node.files r,
      lookup-remove_where (λ path. c.has_prefix path o) (n ++ r) node.files,
    )

    stored-moved_elsewhere :
        (q : Bytes)
        → c.has_prefix q n ≡ false
        → stored moved q ≡ (if c.has_prefix q o then err not_exist else stored node q)
    unfolding stored
    stored-moved_elsewhere q h = ground (
      arith,
      lookup-put_all (to_add c o n node.files) kept q,
      to_add_elsewhere node.files q h,
      lookup-remove_where (λ path. c.has_prefix path o) q node.files,
    )

module _ (c : CoreText) (L : CoreText.IsLawful c) (node : Node) (old_path new_path : Bytes) where
  abbrev pub old_prefix : Bytes
  old_prefix = trimmed c old_path ++ slash

  abbrev pub new_prefix : Bytes
  new_prefix = trimmed c new_path ++ slash

  runs :
      (k : Bytes)
      → has_key (trimmed c old_path) node.files ≡ false
      → has_key (old_prefix ++ k) node.files ≡ true
      → rename c node old_path new_path ≡ ok (moved c L old_prefix new_prefix node)
  unfolding rename rename_directory
  runs k no_file below = elim (Option-cases (lookup (old_prefix ++ k) node.files)) [
    | inl absent ↦ absurd (ground arith)
    | inr (file, found) ↦
        let some_below =
          any_key_intro (λ path. c.has_prefix path old_prefix) (old_prefix ++ k) file node.files
            found (has_prefix-append c L old_prefix k) in
        ground (arith, some_below)
  ]

  -- `Rename` of a directory, that is, of a path that is no file and has a file below it, succeeds. A
  -- path with the new prefix has the content of the file of that name under the old prefix; if there
  -- was none, it has what it had, and nothing if it has the old prefix too. A path without the new
  -- prefix has nothing if it has the old one, and what it had if not. The two prefixes may overlap.
  pub rename_below :
      (k r q : Bytes)
      → has_key (trimmed c old_path) node.files ≡ false
      → has_key (old_prefix ++ k) node.files ≡ true
      → c.has_prefix q new_prefix ≡ false
      → (node' : Node) × (rename c node old_path new_path ≡ ok node')
        × (stored node' (new_prefix ++ r) ≡ (
            if has_key (old_prefix ++ r) node.files
            then stored node (old_prefix ++ r)
            else if c.has_prefix (new_prefix ++ r) old_prefix
            then err not_exist
            else stored node (new_prefix ++ r)))
        × (stored node' q ≡ (if c.has_prefix q old_prefix then err not_exist else stored node q))
  rename_below k r q no_file below elsewhere = (
    moved c L old_prefix new_prefix node,
    runs k no_file below,
    stored-moved c L old_prefix new_prefix node r,
    stored-moved_elsewhere c L old_prefix new_prefix node q elsewhere,
  )
