-- ===== src/Cube/Tests.antt =====
-- The theorems on the encrypting medium and its archives at concrete inputs, over the memory medium
-- and stand-ins for the cipher and for Borg.
use go_io.Common.{◌≡◌, refl, true, false, some, [], ◌∷◌}
use go_io.Common.Lists.{replicate}
use go_io.Common.Bytes.{Bytes, bytes, str_eq}
use go_io.Common.GoMap
use go_io.Common.GoMap.{GoMap, lookup, insert}
use go_io.Common.Results.{ok, err, not_exist, out_of_fuel}
use go_io.Borg.{Borg}
use go_io.CoreText.Parts
use go_io.CoreText.Plain
use go_io.CoreText.Plain.{plain, plain-IsLawful}
use go_io.Entries
use go_io.Fsutil
use go_io.PathText.Plain.{plain_paths, plain_paths-IsLawful}
use go_io.Medium.{DirEntry, new_dir_entry, new_file_info, directory_mode, file_mode}
use go_io.Memory
use go_io.Memory.{MemoryMedium, new_memory_medium}
use go_io.Memory.Keeping.{memory_storage-IsKeeping}
use go_io.Memory.Listing
use go_io.Memory.Whole.{memory_storage}
use go_io.Sigil.Cipher
use go_io.Sigil.Toy.{toy_digest, toy_chacha, toy_chacha-IsLawful, toy_reader, toy_key}
use go_io.Storage.{Storage, Run}
use go_io.Storage.Contract
use go_io.Workspace.Within.{IsNamed}
use go_io.Cube.{CubeMedium, new, cube}
use go_io.Cube.Keeping.{cube-IsKeeping}
use go_io.Cube.Archive.{archive_medium, write_data_node}
use go_io.Cube.Archive.Endless.{archive_medium_endless}
use go_io.Cube.Archive.Named.{write_data_node-confined}

abbrev M : Storage
M = memory_storage plain 7 (λ m. []) (λ m. [])

abbrev medium : CubeMedium
medium = record {
  sigil = record {
    key = some toy_key;
    nonce_size = 24;
    obfuscator = some (Cipher.xor_obfuscator toy_digest);
    random_reader = some toy_reader;
  };
}

cube-IsKeeping_example : Contract.IsKeeping (cube plain toy_chacha toy_reader M 7 medium)
cube-IsKeeping_example =
    cube-IsKeeping plain toy_chacha toy_chacha-IsLawful toy_digest toy_reader M 7 MemoryMedium
      new_memory_medium toy_key (replicate 24 7) medium
      (unfold new Cipher.new_cha_cha_poly_sigil in refl) refl refl
      (memory_storage-IsKeeping plain plain-IsLawful 7 (λ m. []) (λ m. []))

-- Files by path; a directory lists the entries that are given for it.
abbrev toy_borg : Borg
toy_borg = record {
  DataNode = GoMap Bytes;
  File = Bytes;
  new = [];
  add_data = λ node path content. insert path content node;
  read_dir = λ node path. elim path [
    | [] ↦ ok (
        new_dir_entry (bytes "../x") false file_mode
          (new_file_info (bytes "../x") 1 file_mode 0 false)
        ∷ new_dir_entry (bytes "y") false file_mode (new_file_info (bytes "y") 1 file_mode 0 false)
        ∷ [])
    | b ∷ s ↦ ok []
  ];
  open_file = λ node path. ok (bytes "hi");
  file_stat = λ file. err not_exist;
  read_all = λ file. ok file;
  close = λ file. ok tt;
  stat = λ node path. err not_exist;
  walk = λ node. ok [];
  from_tar = λ tarball. err not_exist;
  to_tar = λ node. err not_exist;
}

write_data_node-confined_example :
    Run M
      (λ s. IsNamed plain_paths)
      new_memory_medium
      (write_data_node plain plain_paths toy_borg M 3 (some []) new_memory_medium).1
write_data_node-confined_example =
    write_data_node-confined plain plain-IsLawful plain_paths plain_paths-IsLawful toy_borg M 3
      (some []) new_memory_medium

abbrev nested : MemoryMedium
nested = record new_memory_medium { directories = (bytes "a", true) ∷ (bytes "a/a", true) ∷ [] }

abbrev directory_a : DirEntry
directory_a =
    new_dir_entry (bytes "a") true directory_mode
      (new_file_info (bytes "a") 0 directory_mode 0 true)

archive_medium_endless_example :
    archive_medium plain plain_paths toy_borg M 1000 nested ≡ err out_of_fuel
archive_medium_endless_example =
    archive_medium_endless plain plain-IsLawful plain_paths toy_borg M (bytes "a") nested
      directory_a directory_a [] [] 1000 (unfold Parts.clean in refl) (unfold Plain.starts in refl)
      (unfold str_eq in refl) (unfold str_eq in refl) (refl, refl) (refl, refl)
      (unfold Listing.list Listing.collected Listing.add_directory_entries Listing.add_file_entries
          Listing.add_directory Listing.has_children_at_path Memory.memory_child_prefix
          Memory.other_below Entries.add_unseen GoMap.any_key GoMap.lookup GoMap.insert
          Fsutil.sort_dir_entries_by_name Plain.starts Plain.ends Plain.trim Plain.split_once
          Plain.holds str_eq in
        refl)
      (unfold Listing.list Listing.collected Listing.add_directory_entries Listing.add_file_entries
          Listing.add_directory Listing.has_children_at_path Memory.memory_child_prefix
          Memory.other_below Entries.add_unseen GoMap.any_key GoMap.lookup GoMap.insert
          Fsutil.sort_dir_entries_by_name Plain.starts Plain.ends Plain.trim Plain.split_once
          Plain.holds str_eq in
        refl)
