-- ===== src/Node/Writing.antt =====
-- `Node.Write`, `Delete` and `DeleteAll`: when they refuse, and what they leave.
use native.Mathlib.Omega.{arith}
use go_io.Common.{
  ◌≡◌, [], ◌⊎◌, inl, inr, Bool, Bool-cases, true, false, not, ◌&&◌, ◌||◌, if◌then◌else◌,
}
use go_io.Common.Bytes.{Bytes, str_eq}
use go_io.Common.Results.{ok, err, invalid, not_exist}
use go_io.Common.GoMap.{
  has_key, remove, remove_where, any_key, lookup-insert, lookup-remove, lookup-remove_where,
  any_key_elim,
}
use go_io.CoreText.{CoreText, slash, dot}
use go_io.Medium.{Time}
use go_io.Node.{
  Node, stored, trimmed, put_data, add_data, write, delete, delete_all, deleted, is_file,
}

pub stored-put_data :
    (now : Time) (key content q : Bytes) (node : Node)
    → stored (put_data now key content node) q
      ≡ (if str_eq key q then ok content else stored node q)
unfolding stored put_data
stored-put_data now key content q node = ground (
  arith,
  lookup-insert key q (record { name = key; content = content; mod_time = now }) node.files,
)

module _ (c : CoreText) where
  -- `AddData` stores nothing under the empty name or a name that ends in a slash.
  abbrev pub is_storable : Bytes → Bool
  is_storable key = not (str_eq key []) && not (c.has_suffix key slash)

  -- `Write` refuses a path that is empty or "." once a leading slash is off, with `fs.ErrInvalid`.
  -- Else it succeeds, and the name that `AddData` makes of it has the content, if it can be stored,
  -- and every other name has what it had; no name can, if it is empty or ends in a slash, and then
  -- nothing changes.
  pub write_cases :
      (now : Time) (node : Node) (path content q : Bytes)
      → (((str_eq (trimmed c path) [] || str_eq (trimmed c path) dot) ≡ true)
          × (write c now node path content ≡ err invalid))
        ⊎ (((str_eq (trimmed c path) [] || str_eq (trimmed c path) dot) ≡ false)
            × ((node' : Node) × (write c now node path content ≡ ok node')
                × (stored node' q ≡ (
                    if is_storable (trimmed c (trimmed c path))
                      && str_eq (trimmed c (trimmed c path)) q
                    then ok content
                    else stored node q))))
  unfolding write add_data
  write_cases now node path content q =
      elim (Bool-cases (str_eq (trimmed c path) [] || str_eq (trimmed c path) dot)) [
        | inl refused ↦ inl (refused, ground arith)
        | inr fine ↦ inr (
          fine,
          (
            add_data c now node (trimmed c path) content,
            ground arith,
            ground (arith, stored-put_data now (trimmed c (trimmed c path)) content q node),
          ),
        )
      ]

  -- `Delete` succeeds exactly on a file. Afterwards its path has nothing and every other path has
  -- what it had; if it fails, it is with `fs.ErrNotExist`.
  delete_outcome :
      (node : Node) (path q : Bytes)
      → ((is_file c node path ≡ true)
          × ((node' : Node) × (delete c node path ≡ ok node')
              × (stored node' q
                  ≡ (if str_eq (trimmed c path) q then err not_exist else stored node q))))
        ⊎ ((is_file c node path ≡ false) × (delete c node path ≡ err not_exist))
  unfolding delete is_file stored
  delete_outcome node path q = elim (Bool-cases (has_key (trimmed c path) node.files)) [
    | inl file ↦ inl (
      file,
      (
        record { files = remove (trimmed c path) node.files },
        ground arith,
        ground (arith, lookup-remove (trimmed c path) q node.files),
      ),
    )
    | inr no_file ↦ inr (no_file, ground arith)
  ]

  -- `DeleteAll` succeeds exactly if a stored path is the trimmed path or lies below it, and then
  -- leaves exactly the others, with what they had; if it fails, it is with `fs.ErrNotExist`.
  delete_all_outcome :
      (node : Node) (path q : Bytes)
      → (((k : Bytes) × (has_key k node.files ≡ true) × (deleted c (trimmed c path) k ≡ true))
          × ((node' : Node) × (delete_all c node path ≡ ok node')
              × (stored node' q
                  ≡ (if deleted c (trimmed c path) q then err not_exist else stored node q))))
        ⊎ ((any_key (deleted c (trimmed c path)) node.files ≡ false)
            × (delete_all c node path ≡ err not_exist))
  unfolding delete_all stored
  delete_all_outcome node path q =
      elim (Bool-cases (any_key (deleted c (trimmed c path)) node.files)) [
        | inl found ↦
            let (k, v, at, d) = any_key_elim (deleted c (trimmed c path)) node.files found in
            inl (
              (k, ground arith, d),
              (
                record { files = remove_where (deleted c (trimmed c path)) node.files },
                ground arith,
                ground (arith, lookup-remove_where (deleted c (trimmed c path)) q node.files),
              ),
            )
        | inr none_found ↦ inr (none_found, ground arith)
      ]
