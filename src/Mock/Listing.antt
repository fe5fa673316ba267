-- ===== src/Mock/Listing.antt =====
-- go/mock.go: `List`. `slices.SortFunc` sorts by name; the names differ, so there is one order.
pub mod Shown
pub mod Names
use go_io.Common.{
  ℕ, suc, Bool, true, false, not, ◌&&◌, ◌||◌, Option, none, some, List, [], ◌∷◌, ◌++◌, ltb, ◌==◌,
  if◌then◌else◌,
}
use go_io.Common.Lists.{length, take, drop}
use go_io.Common.Bytes.{Bytes, str_eq}
use go_io.Common.GoMap.{GoMap, lookup, insert, has_key}
use go_io.CoreText.{slash, dot}
use go_io.Medium.{Time, DirEntry, new_file_info, new_dir_entry}
use go_io.Fsutil.{sort_dir_entries_by_name}
use go_io.Entries.{Listed, nothing_listed, add_unseen}
use go_io.Mock.{MockMedium, MockMeta, meta_or_zero}

-- `mockListPrefix`
abbrev pub mock_list_prefix : Bytes → Bytes
mock_list_prefix path = if str_eq path [] || str_eq path dot then [] else path ++ slash

-- The path is longer than the prefix and starts with it.
unfoldable pub is_below : Bytes → Bytes → Bool
is_below prefix path =
    ltb (length prefix) (length path) && str_eq (take (length prefix) path) prefix

abbrev pub prepend : ℕ → Option Bytes → Option Bytes
prepend b none = none
prepend b (some name) = some (b ∷ name)

-- `firstPathComponent`: what stands before the first slash, if there is one
unfoldable pub first_path_component : Bytes → Option Bytes
first_path_component [] = none
first_path_component (b ∷ rest) =
    let more = prepend b (first_path_component rest) in if b == b'/' then some [] else more

abbrev pub directory_entry : Time → Bytes → DirEntry
directory_entry now name = new_dir_entry name true 0o755 (new_file_info name 0 0o755 now true)

-- `appendMockDirectoryEntry`
unfoldable pub append_mock_directory_entry : Time → Listed → Bytes → Listed
unfolding add_unseen
append_mock_directory_entry now s name =
    if str_eq name [] then s else add_unseen s (directory_entry now name)

abbrev pub file_entry : MockMeta → Bytes → Bytes → DirEntry
file_entry meta name content =
    new_dir_entry name false meta.mode
      (new_file_info name (length content) meta.mode meta.mod_time false)

-- One round of the loop of `fileEntries`.
unfoldable pub add_file : Time → MockMedium → Bytes → Listed → Bytes → Bytes → Listed
unfolding append_mock_directory_entry add_unseen
add_file now m prefix s path content =
    let rest = drop (length prefix) path in
    if not (is_below prefix path) then s else elim (first_path_component rest) [
      | some name ↦ append_mock_directory_entry now s name
      | none ↦ add_unseen s (file_entry (meta_or_zero (lookup path m.meta)) rest content)
    ]

-- `fileEntries`; the entries are appended to those before.
unfoldable pub file_entries : Time → MockMedium → Bytes → GoMap Bytes → Listed → Listed
unfolding add_file
file_entries now m prefix [] s = s
file_entries now m prefix ((path, content) ∷ files) s =
    file_entries now m prefix files (add_file now m prefix s path content)

-- One round of the loop of `dirEntries`.
unfoldable pub add_directory : Time → Bytes → Listed → Bytes → Listed
unfolding append_mock_directory_entry
add_directory now prefix s path =
    let rest = drop (length prefix) path in
    if not (is_below prefix path) then s else elim (first_path_component rest) [
      | some name ↦ append_mock_directory_entry now s name
      | none ↦ append_mock_directory_entry now s rest
    ]

-- `dirEntries`
unfoldable pub dir_entries : Time → Bytes → GoMap Bool → Listed → Listed
unfolding add_directory
dir_entries now prefix [] s = s
dir_entries now prefix ((path, b) ∷ dirs) s =
    dir_entries now prefix dirs (add_directory now prefix s path)

-- What `List` collects before it sorts.
unfoldable pub collected : Time → MockMedium → Bytes → Listed
unfolding file_entries dir_entries
collected now m path =
    let prefix = mock_list_prefix path in
    dir_entries now prefix m.dirs (file_entries now m prefix m.files nothing_listed)

-- `List`
unfoldable pub list : Time → MockMedium → Bytes → List DirEntry
unfolding collected
list now m path = sort_dir_entries_by_name (collected now m path).entries
