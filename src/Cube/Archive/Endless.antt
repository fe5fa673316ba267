-- ===== src/Cube/Archive/Endless.antt =====
-- A directory that holds a directory of its own name: `archiveChildPath` takes the name for the path
-- of the directory itself, and `Pack` does not come to an end.
use go_io.Common.{ℕ, zero, suc, ◌≡◌, refl, true, false, List, [], ◌∷◌}
use go_io.Common.Bytes.{Bytes, str_eq, str_eq_refl}
use go_io.Common.Results.{ok, err, out_of_fuel}
use go_io.CoreText
use go_io.CoreText.{CoreText, slash, dot}
use go_io.PathText.{PathText}
use go_io.Medium.{DirEntry}
use go_io.Borg.{Borg}
use go_io.Storage.{Storage}
use go_io.Cube.Archive.{archive_child_path, add_entries, add_medium_path, archive_medium}

module _ (c : CoreText) (K : CoreText.IsLawful c) (t : PathText) (B : Borg) (source : Storage) where
  module _ (name : Bytes) (is_clean : c.clean_path name ≡ name)
      (relative : c.has_prefix name slash ≡ false) (full : str_eq name [] ≡ false)
      (no_dot : str_eq name dot ≡ false) where
    child_of_root : archive_child_path c t [] name ≡ name
    unfolding archive_child_path
    child_of_root = rw (is_clean, K.trim_prefix_other name slash relative, no_dot) refl

    child_of_same : archive_child_path c t name name ≡ name
    unfolding archive_child_path
    child_of_same =
        rw (is_clean, K.trim_prefix_other name slash relative, no_dot, full, str_eq_refl name) refl

    module _ (s : source.State) (entry below : DirEntry) (entries more : List DirEntry)
        (is_entry : entry.name ≡ name) (is_directory : entry.is_dir ≡ true)
        (is_below : below.name ≡ name) (below_directory : below.is_dir ≡ true)
        (listed : source.list s [] ≡ ok (entry ∷ entries))
        (listed_below : source.list s name ≡ ok (below ∷ more)) where
      add_below :
          (fuel : ℕ) (node : B.DataNode)
          → add_medium_path c t B source fuel s name node ≡ err out_of_fuel
      unfolding add_medium_path add_entries
      add_below zero node = refl
      add_below (suc fuel) node =
          rw (listed_below, below_directory, is_below, child_of_same, add_below fuel node) refl

      archive_fails : (fuel : ℕ) → archive_medium c t B source fuel s ≡ err out_of_fuel
      unfolding archive_medium add_medium_path add_entries
      archive_fails zero = refl
      archive_fails (suc fuel) =
          rw (listed, is_directory, is_entry, child_of_root, add_below fuel B.new) refl

  -- If the first entry of the root is a directory whose first entry is a directory of the same
  -- plain name, then `Pack` never finishes its walk: every bound on the depth is exceeded.
  pub archive_medium_endless :
      (name : Bytes) (s : source.State) (entry below : DirEntry) (entries more : List DirEntry)
      (fuel : ℕ)
      → c.clean_path name ≡ name
      → c.has_prefix name slash ≡ false
      → str_eq name [] ≡ false
      → str_eq name dot ≡ false
      → (entry.name ≡ name) × (entry.is_dir ≡ true)
      → (below.name ≡ name) × (below.is_dir ≡ true)
      → source.list s [] ≡ ok (entry ∷ entries)
      → source.list s name ≡ ok (below ∷ more)
      → archive_medium c t B source fuel s ≡ err out_of_fuel
  archive_medium_endless name s entry below entries more fuel is_clean relative full no_dot
        (is_entry, is_directory) (is_below, below_directory) listed listed_below =
      archive_fails name is_clean relative full no_dot s entry below entries more is_entry
        is_directory is_below below_directory listed listed_below fuel
