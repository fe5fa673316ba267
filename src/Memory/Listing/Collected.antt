-- ===== src/Memory/Listing/Collected.antt =====
-- What `MemoryMedium.List` of go/io.go collects: one entry for each name that a path shows.
use native.Mathlib.Omega.{arith}
use go_io.Common.{◌≡◌, ◌⊎◌, refl, ap, ◌∙◌, inl, inr, Bool, Bool-cases, false, ◌||◌, [], ◌∷◌}
use go_io.Common.Bytes.{Bytes, str_eq}
use go_io.Common.GoMap.{GoMap, lookup, has_key, any_key}
use go_io.CoreText
use go_io.CoreText.{CoreText, slash}
use go_io.Medium.{DirEntry}
use go_io.Entries.{Listed, nothing_listed, add_unseen}
use go_io.Entries.Distinct.{IsListed, nothing_listed-IsListed, add_unseen-IsListed, seen-add_unseen}
use go_io.Memory.{MemoryMedium, memory_child_prefix}
use go_io.Memory.Listing.{
  maybe_add_memory_dir, memory_dir_entry, first_of_two, file_entry, add_file, add_file_entries,
  add_directory, add_directory_entries, collected,
}
use go_io.Memory.Listing.Shown.{shows, not_empty}

module _ (c : CoreText) (L : CoreText.IsLawful c) (m : MemoryMedium) (prefix : Bytes) (s : Listed)
    (path content : Bytes) where
  add_file-cases :
      ((add_file c m prefix s path content ≡ s) × ((x : Bytes) → shows c prefix x path ≡ false))
      ⊎ ((e : DirEntry) × (add_file c m prefix s path content ≡ add_unseen s e)
          × ((x : Bytes) → shows c prefix x path ≡ str_eq e.name x))
  unfolding add_file maybe_add_memory_dir
  add_file-cases =
      let rest = c.trim_prefix path prefix in
      elim (Bool-cases (c.has_prefix path prefix)) [
        | inr outside ↦ inl (rw (outside) refl, λ x. ground arith)
        | inl below ↦ elim (Bool-cases (c.contains rest slash)) [
          | inl nested ↦
              let (a, b, parts, whole, none_before) = L.split_first_two rest nested in
              let some_text : str_eq rest [] ≡ false = not_empty rest a b whole in
              inr (
                memory_dir_entry a,
                rw (below, nested, some_text, parts) refl,
                λ x. ground (arith, some_text, parts),
              )
          | inr flat ↦
              let parts = L.split_first_one rest flat in
              elim (Bool-cases (str_eq rest [])) [
                | inl empty ↦ inl (rw (below, empty, parts) refl, λ x. ground arith)
                | inr named ↦ inr (
                  file_entry c m prefix rest content,
                  rw (below, flat, named) refl,
                  λ x. ground (arith, parts),
                )
              ]
        ]
      ]

  add_file-IsListed : IsListed s → IsListed (add_file c m prefix s path content)
  add_file-IsListed v = elim add_file-cases [
    | inl (same, unseen) ↦ rw (same) v
    | inr (e, added, seen) ↦ rw (added) (add_unseen-IsListed s e v)
  ]

  seen-add_file :
      (x : Bytes)
      → has_key x (add_file c m prefix s path content).seen
        ≡ (has_key x s.seen || shows c prefix x path)
  seen-add_file x = elim add_file-cases [
    | inl (same, unseen) ↦ ap (λ t. has_key x t.seen) same ∙ ground (arith, unseen x)
    | inr (e, added, seen) ↦
        ap (λ t. has_key x t.seen) added ∙ seen-add_unseen s e x ∙ ground (arith, seen x)
  ]

module _ (c : CoreText) (prefix : Bytes) (s : Listed) (path : Bytes) where
  add_directory-IsListed : IsListed s → IsListed (add_directory c prefix s path)
  unfolding add_directory
  add_directory-IsListed v = elim (Bool-cases (c.has_prefix path prefix)) [
    | inr outside ↦ rw (outside) v
    | inl below ↦ elim (Bool-cases (str_eq (c.trim_prefix path prefix) [])) [
      | inl empty ↦ rw (below, empty) v
      | inr named ↦ rw (below, named) (add_unseen-IsListed s _ v)
    ]
  ]

  seen-add_directory :
      (x : Bytes)
      → has_key x (add_directory c prefix s path).seen ≡ (has_key x s.seen || shows c prefix x path)
  unfolding add_directory
  seen-add_directory x =
      let rest = c.trim_prefix path prefix in
      ground (
        arith,
        seen-add_unseen s (memory_dir_entry (first_of_two (c.split_first rest slash) rest)) x,
      )

module _ (c : CoreText) (L : CoreText.IsLawful c) (m : MemoryMedium) (prefix : Bytes) where
  add_file_entries-IsListed :
      (files : GoMap Bytes) (s : Listed)
      → IsListed s
      → IsListed (add_file_entries c m prefix files s)
  unfolding add_file_entries
  add_file_entries-IsListed [] s v = v
  add_file_entries-IsListed ((path, content) ∷ files) s v =
      add_file_entries-IsListed files (add_file c m prefix s path content)
        (add_file-IsListed c L m prefix s path content v)

  seen-add_file_entries :
      (files : GoMap Bytes) (s : Listed) (x : Bytes)
      → has_key x (add_file_entries c m prefix files s).seen
        ≡ (has_key x s.seen || any_key (shows c prefix x) files)
  unfolding add_file_entries any_key
  seen-add_file_entries [] s x = ground arith
  seen-add_file_entries ((path, content) ∷ files) s x = ground (
    arith,
    seen-add_file_entries files (add_file c m prefix s path content) x,
    seen-add_file c L m prefix s path content x,
  )

  add_directory_entries-IsListed :
      (directories : GoMap Bool) (s : Listed)
      → IsListed s
      → IsListed (add_directory_entries c prefix directories s)
  unfolding add_directory_entries
  add_directory_entries-IsListed [] s v = v
  add_directory_entries-IsListed ((path, b) ∷ directories) s v =
      add_directory_entries-IsListed directories (add_directory c prefix s path)
        (add_directory-IsListed c prefix s path v)

  seen-add_directory_entries :
      (directories : GoMap Bool) (s : Listed) (x : Bytes)
      → has_key x (add_directory_entries c prefix directories s).seen
        ≡ (has_key x s.seen || any_key (shows c prefix x) directories)
  unfolding add_directory_entries any_key
  seen-add_directory_entries [] s x = ground arith
  seen-add_directory_entries ((path, b) ∷ directories) s x = ground (
    arith,
    seen-add_directory_entries directories (add_directory c prefix s path) x,
    seen-add_directory c prefix s path x,
  )

module _ (c : CoreText) (L : CoreText.IsLawful c) (m : MemoryMedium) (path : Bytes) where
  pub collected-IsListed : IsListed (collected c m path)
  unfolding collected
  collected-IsListed =
      add_directory_entries-IsListed c L m (memory_child_prefix c path) m.directories _ (
        add_file_entries-IsListed c L m (memory_child_prefix c path) m.file_contents nothing_listed
          nothing_listed-IsListed)

  pub seen-collected :
      (x : Bytes)
      → has_key x (collected c m path).seen ≡ (
          any_key (shows c (memory_child_prefix c path) x) m.file_contents
          || any_key (shows c (memory_child_prefix c path) x) m.directories)
  unfolding collected lookup
  seen-collected x =
      let prefix = memory_child_prefix c path in
      ground (
        arith,
        seen-add_directory_entries c L m prefix m.directories
            (add_file_entries c m prefix m.file_contents nothing_listed) x,
        seen-add_file_entries c L m prefix m.file_contents nothing_listed x,
      )
