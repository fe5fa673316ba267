-- ===== src/Memory/Listing/Names.antt =====
-- `MemoryMedium.List` names each file and directory below the path once, in order.
use native.Mathlib.Omega.{arith}
use mathlib.Core.List.{Mem, Nodup}
use go_io.Common.{
  ◌≡◌, ◌≢◌, ◌↔◌, ◌⊎◌, sym, ◌∙◌, inl, inr, Bool, Bool-cases, true, false, ◌||◌, List, [],
}
use go_io.Common.Bytes.{Bytes, str_eq, str_eq_iff}
use go_io.Common.Results.{ok, err, not_exist}
use go_io.Common.GoMap.{has_key, any_key}
use go_io.CoreText
use go_io.CoreText.{CoreText, slash}
use go_io.Medium.{DirEntry}
use go_io.Fsutil.{sort_dir_entries_by_name}
use go_io.Fsutil.Sorted.{IsAscending}
use go_io.Entries.{names}
use go_io.Entries.Parts.{IsPart}
use go_io.Common.GoMap.{any_key_iff}
use go_io.Memory.Below.{IsListStart, IsBelow, memory_child_prefix-start}
use go_io.Entries.Distinct.{sorted_names}
use go_io.Memory.{MemoryMedium, memory_child_prefix}
use go_io.Memory.Listing.{has_children_at_path, collected, list}
use go_io.Memory.Listing.Shown.{shows, shows_iff}
use go_io.Memory.Listing.Collected.{collected-IsListed, seen-collected}

module _ (c : CoreText) (L : CoreText.IsLawful c) (m : MemoryMedium) (path : Bytes) where
  -- A file, or an explicit directory.
  abbrev pub IsStored : Bytes → Type 0
  IsStored k = (has_key k m.file_contents ≡ true) ⊎ (has_key k m.directories ≡ true)

  any-IsStored_iff :
      (p : Bytes → Bool)
      → ((any_key p m.file_contents || any_key p m.directories) ≡ true)
        ↔ ((k : Bytes) × IsStored k × (p k ≡ true))
  any-IsStored_iff p =
      let files = any_key_iff p m.file_contents in
      let directories = any_key_iff p m.directories in
      (
        λ h. elim (Bool-cases (any_key p m.file_contents)) [
          | inl found ↦ let (k, there, q) = files.0 found in (k, inl there, q)
          | inr none_found ↦
              let (k, there, q) = directories.0 (ground (arith, h, none_found)) in (k, inr there, q)
        ],
        λ (k, there, q). elim there [
          | inl file ↦ let found = files.1 (k, file, q) in ground (arith, found)
          | inr directory ↦ let found = directories.1 (k, directory, q) in ground (arith, found)
        ],
      )

  -- Something is stored below the path.
  abbrev pub HasBelow : Bytes → Type 0
  HasBelow start = (k : Bytes) × IsStored k × IsBelow start k

  module _ (start : Bytes) (begins : IsListStart path start) where
    has_children_at_path_iff : (has_children_at_path c m path ≡ true) ↔ HasBelow start
    unfolding has_children_at_path
    has_children_at_path_iff =
        let any = any-IsStored_iff (λ k. c.has_prefix k (memory_child_prefix c path)) in
        rw (memory_child_prefix-start c L path start begins) (
          (λ h.
              let (k, there, q) = any.0 h in
              (k, there, (L.has_prefix_iff k (memory_child_prefix c path)).0 q)),
          (λ (k, there, below).
              any.1 (k, there, (L.has_prefix_iff k (memory_child_prefix c path)).1 below)),
        )

    named_iff :
        (x : Bytes)
        → (has_key x (collected c m path).seen ≡ true)
          ↔ ((k : Bytes) × IsStored k × IsPart start x k)
    named_iff x =
        let any = any-IsStored_iff (shows c (memory_child_prefix c path) x) in
        rw (memory_child_prefix-start c L path start begins) (
          (λ h.
              let (k, there, q) = any.0 (sym (seen-collected c L m path x) ∙ h) in
              (k, there, (shows_iff c L (memory_child_prefix c path) x k).0 q)),
          (λ (k, there, part).
              seen-collected c L m path x
              ∙ any.1 (k, there, (shows_iff c L (memory_child_prefix c path) x k).1 part)),
        )

    -- `List` fails, with `fs.ErrNotExist`, on a path that is not empty, is no explicit directory and
    -- has nothing below it. Else its entries ascend by name, no name stands there twice, and a name
    -- stands there exactly if it is the first part of a file or an explicit directory below the path:
    -- all that follows the path and a slash, or what is there up to the next slash.
    pub list_outcome :
        (x : Bytes)
        → ((has_key path m.directories ≡ false)
            × (¬ HasBelow start)
            × (path ≢ [])
            × (list c m path ≡ err not_exist))
          ⊎ (((has_key path m.directories ≡ true) ⊎ (HasBelow start ⊎ (path ≡ [])))
              × ((entries : List DirEntry) × (list c m path ≡ ok entries)
                  × IsAscending entries
                  × Nodup (names entries)
                  × (Mem x (names entries) ↔ ((k : Bytes) × IsStored k × IsPart start x k))))
    unfolding list
    list_outcome x =
        let (ascends, nodup, named) =
          sorted_names (collected c m path) x (collected-IsListed c L m path) in
        let children = has_children_at_path_iff in
        let is_root = str_eq_iff path [] in
        let result = sort_dir_entries_by_name (collected c m path).entries in
        let members : Mem x (names result) ↔ ((k : Bytes) × IsStored k × IsPart start x k) =
          ((λ h. (named_iff x).0 (named.0 h)), λ h. named.1 ((named_iff x).1 h)) in
        elim (Bool-cases (has_key path m.directories)) [
          | inl there ↦ inr (inl there, (result, ground (arith, there), ascends, nodup, members))
          | inr no_directory ↦ elim (Bool-cases (has_children_at_path c m path)) [
            | inl below ↦ inr (
              inr (inl (children.0 below)),
              (result, ground (arith, below), ascends, nodup, members),
            )
            | inr none_below ↦ elim (Bool-cases (str_eq path [])) [
              | inl root ↦ inr (
                inr (inr (is_root.0 root)),
                (result, ground (arith, root), ascends, nodup, members),
              )
              | inr named_path ↦ inl (
                no_directory,
                (λ h. let found = children.1 h in cc),
                (λ e. let empty = is_root.1 e in cc),
                ground (arith, no_directory, none_below, named_path),
              )
            ]
          ]
        ]
