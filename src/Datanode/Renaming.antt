-- ===== src/Datanode/Renaming.antt =====
-- What `Rename` of a file does to the contents.
use native.Mathlib.Omega.{arith}
use go_io.Common.{ℕ, ◌≡◌, inl, inr, sym, ap, ◌∙◌, Bool, true, false, none, some, if◌then◌else◌}
use go_io.Common.Bytes.{Bytes, str_eq}
use go_io.Common.GoMap.{GoMap}
use go_io.Common.Results.{Result, ok, err, Result-cases}
use go_io.Borg.{Borg}
use go_io.CoreText.{CoreText}
use go_io.Medium.{FileInfo}
use go_io.Datanode.{normalise_entry_path, ensure_dirs, read_file, remove_file}
use go_io.Datanode.Methods.{DataNodeMedium, add_file, marked, removed}
use go_io.Datanode.Removing.{IsLawful, remove_file_content}
use go_io.Datanode.Tree.{rename, rename_file, then_remove}

module _ (c : CoreText) (B : Borg) (L : IsLawful B) (fuel : ℕ) where
  -- The file at the new path, taken away at the old one.
  then_remove_content :
      (medium m : DataNodeMedium B) (old new content q : Bytes) (directories : Result (GoMap Bool))
      → L.is_plain new ≡ true
      → then_remove c B fuel old (
          marked c B
            (record medium { data_node = B.add_data medium.data_node new content })
            directories)
        ≡ (ok tt, m)
      → L.content m.data_node q ≡ (
          if str_eq old q
          then none
          else if str_eq new q
          then some content
          else L.content medium.data_node q)
  then_remove_content medium m old new content q (err x) plain e =
      let same : err x ≡ ok tt = ap (λ o. o.0) e in absurd (cc)
  then_remove_content medium m old new content q (ok directories) plain e =
      let added = B.add_data medium.data_node new content in
      elim (Result-cases (remove_file B added old)) [
        | inr (x, failed) ↦ absurd (ground (arith, failed, ap (λ o. o.0) e))
        | inl (node, done) ↦
            let gone = remove_file_content B L added node old q done in
            let put = L.content_add medium.data_node new content q plain in
            let left : m.data_node ≡ node =
              sym (ap (λ o. o.1.data_node) e)
              ∙ ap
                  (λ r.
                    (removed c B (record { data_node = added; directory_set = directories })
                      r).1.data_node)
                  done in
            ap (λ n. L.content n q) left ∙ gone ∙ ap (λ x. if str_eq old q then none else x) put
      ]

  rename_step :
      (medium : DataNodeMedium B) (old_path new_path content : Bytes) (info : FileInfo)
      → B.stat medium.data_node (normalise_entry_path c old_path) ≡ ok info
      → info.is_dir ≡ false
      → read_file B medium.data_node (normalise_entry_path c old_path) ≡ ok content
      → rename c B fuel medium old_path new_path
        ≡ then_remove c B fuel
            (normalise_entry_path c old_path)
            (add_file c B fuel medium (normalise_entry_path c new_path) content)
  unfolding rename rename_file
  rename_step medium old_path new_path content info found is_file read =
      ground (arith, found, is_file, read)

  -- A `Rename` of a file that succeeds, to a path that Borg takes as it is: the new path has the
  -- content, the old path has none, also when it is the new path, and the other files are as before.
  pub rename_content :
      (medium m : DataNodeMedium B) (old_path new_path q : Bytes) (info : FileInfo)
      → rename c B fuel medium old_path new_path ≡ (ok tt, m)
      → B.stat medium.data_node (normalise_entry_path c old_path) ≡ ok info
      → info.is_dir ≡ false
      → L.is_plain (normalise_entry_path c new_path) ≡ true
      → L.content m.data_node q ≡ (
          if str_eq (normalise_entry_path c old_path) q
          then none
          else if str_eq (normalise_entry_path c new_path) q
          then L.content medium.data_node (normalise_entry_path c old_path)
          else L.content medium.data_node q)
  unfolding rename_file rename
  rename_content medium m old_path new_path q info e found is_file plain =
      let old = normalise_entry_path c old_path in
      let new = normalise_entry_path c new_path in
      elim (Result-cases (read_file B medium.data_node old)) [
        | inr (x, failed) ↦ absurd (ground (arith, found, is_file, failed, ap (λ o. o.0) e))
        | inl (content, read) ↦
            let has = L.reads medium.data_node old content read in
            let run : then_remove c B fuel old (add_file c B fuel medium new content) ≡ (ok tt, m) =
              sym (rename_step medium old_path new_path content info found is_file read) ∙ e in
            then_remove_content medium m old new content q
              (ensure_dirs c fuel (c.path_dir new) medium.directory_set) plain run
            ∙ ap
                (λ x.
                  if str_eq old q
                  then none
                  else if str_eq new q
                  then x
                  else L.content medium.data_node q)
                (sym has)
      ]
