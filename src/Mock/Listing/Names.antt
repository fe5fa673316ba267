-- ===== src/Mock/Listing/Names.antt =====
-- `List` names each file and directory below the path once, in order.
use native.Mathlib.Omega.{arith}
use mathlib.Core.List.{Mem, Nodup}
use go_io.Common.{
  ◌-◌, ◌<◌, ◌≡◌, ◌≢◌, ◌⊎◌, ◌↔◌, sym, ap, ◌∙◌, inl, inr, Bool, Bool-cases, Option-cases, true, false,
  not, ◌&&◌, ◌||◌, [], ◌∷◌,
}
use go_io.Common.Lists.{length, drop, length-drop}
use go_io.Common.Bytes.{Bytes, str_eq, str_eq_iff}
use go_io.Common.GoMap.{GoMap, lookup, has_key, any_key}
use go_io.Entries.Parts.{IsPart}
use go_io.Common.GoMap.{any_key_iff}
use go_io.Medium.{Time}
use go_io.Fsutil.Sorted.{IsAscending}
use go_io.Entries.{Listed, nothing_listed, names}
use go_io.Entries.Distinct.{
  IsListed, nothing_listed-IsListed, add_unseen-IsListed, seen-add_unseen, sorted_names,
}
use go_io.Mock.{MockMedium, meta_or_zero}
use go_io.Mock.Listing.{
  append_mock_directory_entry, add_file, file_entries, add_directory, dir_entries, collected, list,
  is_below, first_path_component, mock_list_prefix, directory_entry, file_entry,
}
use go_io.Mock.Listing.Shown.{
  shows, IsMockStart, mock_list_prefix-start, shows-IsPart, IsPart-shows,
}

-- One round: the state stays listed, and what it has seen besides is the name that it shows.
add_directory_entry :
    (now : Time) (s : Listed) (name : Bytes)
    → IsListed s
    → IsListed (append_mock_directory_entry now s name)
unfolding append_mock_directory_entry
add_directory_entry now s name v = elim (Bool-cases (str_eq name [])) [
  | inl empty ↦ rw (empty) v
  | inr named ↦ rw (named) (add_unseen-IsListed s (directory_entry now name) v)
]

-- Whether a name that is not empty is this one.
abbrev is_name : Bytes → Bytes → Bool
is_name name x = not (str_eq name []) && str_eq name x

seen-append_mock_directory_entry :
    (now : Time) (s : Listed) (name x : Bytes)
    → has_key x (append_mock_directory_entry now s name).seen ≡ (has_key x s.seen || is_name name x)
unfolding append_mock_directory_entry
seen-append_mock_directory_entry now s name x =
    ground (arith, seen-add_unseen s (directory_entry now name) x)

not_empty :
    (prefix path : Bytes)
    → is_below prefix path ≡ true
    → str_eq (drop (length prefix) path) [] ≡ false
unfolding is_below
not_empty prefix path h =
    let longer : length prefix < length path = ground arith in
    let width : length (drop (length prefix) path) ≡ length path - length prefix =
      length-drop (length prefix) path in
    ground (
      arith,
      str_eq_iff (drop (length prefix) path) [],
      longer,
      width,
      λ (e : drop (length prefix) path ≡ []). ap length e,
    )

module _ (now : Time) (m : MockMedium) (prefix : Bytes) (s : Listed) (path content : Bytes) where
  add_file-IsListed : IsListed s → IsListed (add_file now m prefix s path content)
  unfolding add_file
  add_file-IsListed v = elim (Bool-cases (is_below prefix path)) [
    | inr outside ↦ rw (outside) v
    | inl below ↦ elim (Option-cases (first_path_component (drop (length prefix) path))) [
      | inr (name, e) ↦ rw (below, e) (add_directory_entry now s name v)
      | inl whole ↦ rw (below, whole) (add_unseen-IsListed s _ v)
    ]
  ]

  seen-add_file :
      (x : Bytes)
      → has_key x (add_file now m prefix s path content).seen
        ≡ (has_key x s.seen || shows prefix x path)
  unfolding add_file
  seen-add_file x = elim (Bool-cases (is_below prefix path)) [
    | inr outside ↦ ground arith
    | inl below ↦ elim (Option-cases (first_path_component (drop (length prefix) path))) [
      | inr (name, e) ↦ ground (arith, seen-append_mock_directory_entry now s name x)
      | inl whole ↦ ground (
        arith,
        not_empty prefix path below,
        seen-add_unseen s
            (file_entry (meta_or_zero (lookup path m.meta)) (drop (length prefix) path) content) x,
      )
    ]
  ]

module _ (now : Time) (prefix : Bytes) (s : Listed) (path : Bytes) where
  add_directory-IsListed : IsListed s → IsListed (add_directory now prefix s path)
  unfolding add_directory
  add_directory-IsListed v = elim (Bool-cases (is_below prefix path)) [
    | inr outside ↦ rw (outside) v
    | inl below ↦ elim (Option-cases (first_path_component (drop (length prefix) path))) [
      | inr (name, e) ↦ rw (below, e) (add_directory_entry now s name v)
      | inl whole ↦ rw (below, whole) (add_directory_entry now s (drop (length prefix) path) v)
    ]
  ]

  seen-add_directory :
      (x : Bytes)
      → has_key x (add_directory now prefix s path).seen ≡ (has_key x s.seen || shows prefix x path)
  unfolding add_directory
  seen-add_directory x = elim (Bool-cases (is_below prefix path)) [
    | inr outside ↦ ground arith
    | inl below ↦ elim (Option-cases (first_path_component (drop (length prefix) path))) [
      | inr (name, e) ↦ ground (arith, seen-append_mock_directory_entry now s name x)
      | inl whole ↦
          ground (arith, seen-append_mock_directory_entry now s (drop (length prefix) path) x)
    ]
  ]

module _ (now : Time) (m : MockMedium) (prefix : Bytes) where
  file_entries-IsListed :
      (files : GoMap Bytes) (s : Listed) → IsListed s → IsListed (file_entries now m prefix files s)
  unfolding file_entries
  file_entries-IsListed [] s v = v
  file_entries-IsListed ((path, content) ∷ files) s v =
      file_entries-IsListed files (add_file now m prefix s path content)
        (add_file-IsListed now m prefix s path content v)

  seen-file_entries :
      (files : GoMap Bytes) (s : Listed) (x : Bytes)
      → has_key x (file_entries now m prefix files s).seen
        ≡ (has_key x s.seen || any_key (shows prefix x) files)
  unfolding file_entries any_key
  seen-file_entries [] s x = ground arith
  seen-file_entries ((path, content) ∷ files) s x = ground (
    arith,
    seen-file_entries files (add_file now m prefix s path content) x,
    seen-add_file now m prefix s path content x,
  )

  dir_entries-IsListed :
      (dirs : GoMap Bool) (s : Listed) → IsListed s → IsListed (dir_entries now prefix dirs s)
  unfolding dir_entries
  dir_entries-IsListed [] s v = v
  dir_entries-IsListed ((path, b) ∷ dirs) s v =
      dir_entries-IsListed dirs (add_directory now prefix s path)
        (add_directory-IsListed now prefix s path v)

  seen-dir_entries :
      (dirs : GoMap Bool) (s : Listed) (x : Bytes)
      → has_key x (dir_entries now prefix dirs s).seen
        ≡ (has_key x s.seen || any_key (shows prefix x) dirs)
  unfolding dir_entries any_key
  seen-dir_entries [] s x = ground arith
  seen-dir_entries ((path, b) ∷ dirs) s x = ground (
    arith,
    seen-dir_entries dirs (add_directory now prefix s path) x,
    seen-add_directory now prefix s path x,
  )

module _ (now : Time) (m : MockMedium) (path : Bytes) where
  collected-IsListed : IsListed (collected now m path)
  unfolding collected
  collected-IsListed = dir_entries-IsListed now m (mock_list_prefix path) m.dirs _ (
      file_entries-IsListed now m (mock_list_prefix path) m.files nothing_listed
        nothing_listed-IsListed)

  seen-collected :
      (x : Bytes)
      → has_key x (collected now m path).seen ≡ (
          any_key (shows (mock_list_prefix path) x) m.files
          || any_key (shows (mock_list_prefix path) x) m.dirs)
  unfolding collected lookup
  seen-collected x =
      let prefix = mock_list_prefix path in
      ground (
        arith,
        seen-dir_entries now m prefix m.dirs (file_entries now m prefix m.files nothing_listed) x,
        seen-file_entries now m prefix m.files nothing_listed x,
      )

  -- A file, or a directory.
  abbrev pub IsStored : Bytes → Type 0
  IsStored k = (has_key k m.files ≡ true) ⊎ (has_key k m.dirs ≡ true)

  any-IsStored_iff :
      (p : Bytes → Bool)
      → ((any_key p m.files || any_key p m.dirs) ≡ true) ↔ ((k : Bytes) × IsStored k × (p k ≡ true))
  any-IsStored_iff p =
      let files = any_key_iff p m.files in
      let directories = any_key_iff p m.dirs in
      (
        λ h. elim (Bool-cases (any_key p m.files)) [
          | inl found ↦ let (k, there, q) = files.0 found in (k, inl there, q)
          | inr none_found ↦
              let (k, there, q) = directories.0 (ground (arith, h, none_found)) in (k, inr there, q)
        ],
        λ (k, there, q). elim there [
          | inl file ↦ let found = files.1 (k, file, q) in ground (arith, found)
          | inr directory ↦ let found = directories.1 (k, directory, q) in ground (arith, found)
        ],
      )

  -- The entries of `List` ascend by name, no name stands there twice, and a name stands there exactly
  -- if it is not empty and the first part of a file or a directory below the path: all that follows
  -- the path and a slash, or what is there up to the next slash.
  pub list-names :
      (start x : Bytes)
      → IsMockStart path start
      → IsAscending (list now m path)
        × Nodup (names (list now m path))
        × (Mem x (names (list now m path))
            ↔ ((k : Bytes) × IsStored k × ((x ≢ []) × IsPart start x k)))
  unfolding list
  list-names start x begins =
      let (ascends, nodup, named) = sorted_names (collected now m path) x collected-IsListed in
      let any = any-IsStored_iff (shows (mock_list_prefix path) x) in
      let is_start = mock_list_prefix-start path start begins in
      (
        ascends,
        nodup,
        rw (is_start) (
          (λ h.
              let (k, there, q) = any.0 (sym (seen-collected x) ∙ named.0 h) in
              (k, there, shows-IsPart (mock_list_prefix path) x k q)),
          (λ (k, there, part). named.1 (
              seen-collected x
              ∙ any.1 (k, there, IsPart-shows (mock_list_prefix path) x k part.0 part.1))),
        ),
      )
