-- ===== src/Datanode/Tests.antt =====
-- The theorems on the medium over a DataNode at concrete inputs, with a map of files for a DataNode.
use native.Mathlib.Omega.{arith}
use mathlib.Core.Path.{subst}
use go_io.Common.{
  ℕ, ◌≡◌, ◌⊎◌, ◌↔◌, inl, inr, refl, Bool-cases, Option-cases, Option, Bool, true, false, none, some,
  List, [], ◌∷◌, if◌then◌else◌,
}
use go_io.Common.Lists.{length}
use go_io.Common.Bytes.{Bytes, bytes, str_eq, str_eq_iff}
use go_io.Common.GoMap.{GoMap, has_key, lookup, insert, lookup-insert}
use go_io.Common.Results.{Result, ok, err, not_exist, out_of_fuel}
use go_io.Borg.{Borg}
use go_io.CoreText.Parts
use go_io.CoreText.Plain
use go_io.CoreText.Plain.{plain, plain-IsLawful}
use go_io.Local.{member}
use go_io.Medium.{FileInfo, new_file_info, file_mode}
use go_io.Datanode
use go_io.Datanode.{normalise_entry_path, ensure_dirs, remove_file, file_names, read_file}
use go_io.Datanode.Methods.{DataNodeMedium, write}
use go_io.Datanode.Removing.{IsLawful, remove_file_content}
use go_io.Datanode.Renaming.{rename_content}
use go_io.Datanode.Rooted.{IsAbove, ensure_dirs_outcome, write_endless}
use go_io.Datanode.Tree
use go_io.Datanode.Tree.{rename}

abbrev as_file : Option Bytes → Result Bytes
as_file none = err not_exist
as_file (some content) = ok content

abbrev as_info : Bytes → Option Bytes → Result FileInfo
as_info path none = err not_exist
as_info path (some content) = ok (new_file_info path (length content) file_mode 0 false)

abbrev visits : GoMap Bytes → List (Bytes × Bool)
visits [] = []
visits ((path, content) ∷ node) = (path, false) ∷ visits node

abbrev toy_borg : Borg
toy_borg = record {
  DataNode = GoMap Bytes;
  File = Bytes;
  new = [];
  add_data = λ node path content. insert path content node;
  open_file = λ node path. as_file (lookup path node);
  file_stat = λ file. ok (new_file_info [] (length file) file_mode 0 false);
  read_all = λ file. ok file;
  close = λ file. ok tt;
  stat = λ node path. as_info path (lookup path node);
  read_dir = λ node path. ok [];
  walk = λ node. ok (visits node);
  from_tar = λ tarball. err not_exist;
  to_tar = λ node. err not_exist;
}

visits_iff :
    (node : GoMap Bytes) (q : Bytes)
    → (member q (file_names (visits node)) ≡ true)
      ↔ ((found : Bytes) × (lookup q node ≡ some found))
unfolding file_names member lookup
visits_iff [] q = (λ m. absurd (cc), λ (found, e). absurd (cc))
visits_iff ((path, content) ∷ node) q = elim (Bool-cases (str_eq path q)) [
  | inl here ↦ (
    λ m. (content, ground (arith, here)),
    λ stored. ground (arith, here, str_eq_iff path q, str_eq_iff q path),
  )
  | inr there ↦
      let rest = visits_iff node q in
      (
        λ m.
            let (found, stored) =
              rest.0 (ground (arith, m, there, str_eq_iff path q, str_eq_iff q path)) in
            (found, ground (arith, there, stored)),
        λ (found, e).
            let listed = rest.1 (found, ground (arith, there, e)) in ground (arith, listed),
      )
]

toy_reads :
    (node : GoMap Bytes) (q found : Bytes)
    → read_file toy_borg node q ≡ ok found
    → lookup q node ≡ some found
unfolding read_file
toy_reads node q found e = elim (Option-cases (lookup q node)) [
  | inl absent ↦ absurd (ground (arith, absent, e))
  | inr (content, stored) ↦ ground (arith, stored, e)
]

toy_borg-IsLawful : IsLawful toy_borg
toy_borg-IsLawful = record {
  content = λ node q. lookup q node;
  is_plain = λ path. true;
  content_new = λ q. unfold lookup in refl;
  content_add = λ node path added q plain. lookup-insert path q added node;
  walk_files = λ node entries q walked.
      let same : visits node ≡ entries = cc in
      subst
        (λ v. (member q (file_names v) ≡ true) ↔ ((found : Bytes) × (lookup q node ≡ some found)))
        same (visits_iff node q);
  files_plain = λ node q found stored. refl;
  reads = λ node q found e. toy_reads node q found e;
}

abbrev stored : DataNodeMedium toy_borg
stored = record {
  data_node = (bytes "a", bytes "1") ∷ (bytes "b/c", bytes "2") ∷ [];
  directory_set = (bytes "b", true) ∷ [];
}

remove_file_content_example :
    toy_borg-IsLawful.content ((bytes "b/c", bytes "2") ∷ []) (bytes "b/c") ≡ (
      if str_eq (bytes "a") (bytes "b/c")
      then none
      else toy_borg-IsLawful.content stored.data_node (bytes "b/c"))
remove_file_content_example =
    remove_file_content toy_borg toy_borg-IsLawful stored.data_node ((bytes "b/c", bytes "2") ∷ [])
      (bytes "a") (bytes "b/c")
      (unfold remove_file Datanode.collect_all Datanode.copy_without file_names read_file lookup
          insert str_eq in
        refl)

abbrev moved : DataNodeMedium toy_borg
moved = record {
  data_node = (bytes "b/c", bytes "2") ∷ (bytes "d/e", bytes "1") ∷ [];
  directory_set = (bytes "b", true) ∷ (bytes "d", true) ∷ [];
}

rename_content_example : toy_borg-IsLawful.content moved.data_node (bytes "d/e") ≡ (
    if str_eq (normalise_entry_path plain (bytes "/a")) (bytes "d/e")
    then none
    else if str_eq (normalise_entry_path plain (bytes "d//e")) (bytes "d/e")
    then toy_borg-IsLawful.content stored.data_node (normalise_entry_path plain (bytes "/a"))
    else toy_borg-IsLawful.content stored.data_node (bytes "d/e"))
rename_content_example =
    rename_content plain toy_borg toy_borg-IsLawful 5 stored moved (bytes "/a") (bytes "d//e")
      (bytes "d/e") (new_file_info (bytes "a") 1 file_mode 0 false)
      (unfold rename Tree.rename_file ensure_dirs remove_file Datanode.collect_all
          Datanode.copy_without file_names read_file normalise_entry_path Parts.clean Plain.trim
          Plain.starts Plain.before_slash lookup insert str_eq in
        refl)
      (unfold normalise_entry_path Parts.clean Plain.trim Plain.starts lookup str_eq in refl) refl
      (toy_borg-IsLawful.files_plain moved.data_node (normalise_entry_path plain (bytes "d//e"))
        (bytes "1")
        (toy_borg-IsLawful.reads moved.data_node (normalise_entry_path plain (bytes "d//e"))
          (bytes "1")
          (unfold read_file normalise_entry_path Parts.clean Plain.trim Plain.starts lookup
              str_eq in
            refl)))

abbrev no_directories : GoMap Bool
no_directories = []

ensure_dirs_outcome_example :
    ((made : GoMap Bool) × (ensure_dirs plain 4 (bytes "a/b") no_directories ≡ ok made)
      × ((has_key (bytes "a") made ≡ true) ↔ (
          (has_key (bytes "a") no_directories ≡ true) ⊎ IsAbove plain (bytes "a/b") (bytes "a"))))
    ⊎ ((stuck : Bytes) × IsAbove plain (bytes "a/b") stuck
        × (plain.path_dir stuck ≡ stuck)
        × ((fuel : ℕ) → ensure_dirs plain fuel (bytes "a/b") no_directories ≡ err out_of_fuel))
ensure_dirs_outcome_example =
    ensure_dirs_outcome plain plain-IsLawful 4 (bytes "a/b") (bytes "a") no_directories
      (omega arith)

write_endless_example :
    (write plain toy_borg 1000 stored (bytes "//x") (bytes "hi")).0 ≡ err out_of_fuel
write_endless_example =
    write_endless plain toy_borg 1000 stored (bytes "//x") (bytes "hi")
      (unfold normalise_entry_path Parts.clean Plain.trim Plain.starts str_eq in refl)
      (unfold normalise_entry_path Parts.clean Plain.trim Plain.starts Plain.before_slash str_eq in
        refl)
      (unfold normalise_entry_path Parts.clean Plain.trim Plain.starts Plain.before_slash str_eq in
        refl)
