-- ===== src/Datanode/Removing.antt =====
-- What `removeFileLocked` does, which builds a new DataNode out of the files but one.
use native.Mathlib.Omega.{arith}
use go_io.Common.{
  ◌≡◌, ◌↔◌, inl, inr, sym, ap, ◌∙◌, Bool-cases, Option-cases, Bool, true, not, ◌&&◌, Option, none,
  some, List, [], ◌∷◌, if◌then◌else◌,
}
use go_io.Common.Bytes.{Bytes, str_eq, str_eq_iff}
use go_io.Common.Results.{ok, Result-cases}
use go_io.Borg.{Borg}
use go_io.Local.{member}
use go_io.Datanode.{file_names, collect_all, read_file, copy_without, remove_file}

-- What a DataNode does, by the content that it has for a path: what is added is there, a walk visits
-- the files, and a file reads as its content. `is_plain` are the paths that `AddData` takes as they
-- are; those of files are.
pub record IsLawful (B : Borg) : Type 0 where
  pub content : B.DataNode → Bytes → Option Bytes
  pub is_plain : Bytes → Bool
  pub content_new : (q : Bytes) → content B.new q ≡ none
  pub content_add :
      (node : B.DataNode) (path added q : Bytes)
      → is_plain path ≡ true
      → content (B.add_data node path added) q
        ≡ (if str_eq path q then some added else content node q)
  pub walk_files :
      (node : B.DataNode) (entries : List (Bytes × Bool)) (q : Bytes)
      → B.walk node ≡ ok entries
      → (member q (file_names entries) ≡ true) ↔ ((found : Bytes) × (content node q ≡ some found))
  pub files_plain :
      (node : B.DataNode) (q found : Bytes) → content node q ≡ some found → is_plain q ≡ true
  pub reads :
      (node : B.DataNode) (q found : Bytes)
      → read_file B node q ≡ ok found
      → content node q ≡ some found

module _ (B : Borg) (L : IsLawful B) where
  copy_without_content :
      (node copy copied : B.DataNode) (target q : Bytes) (names : List Bytes)
      → copy_without B node target names copy ≡ ok copied
      → L.content copied q
        ≡ (if member q names && not (str_eq q target) then L.content node q else L.content copy q)
  unfolding copy_without member
  copy_without_content node copy copied target q [] e =
      let same : copy ≡ copied = cc in ap (λ n. L.content n q) (sym same)
  copy_without_content node copy copied target q (name ∷ names) e =
      elim (Bool-cases (str_eq name target)) [
        | inl skipped ↦
            let rest =
              copy_without_content node copy copied target q names (ground (arith, skipped, e)) in
            ground
              (arith, rest, skipped, str_eq_iff name target, str_eq_iff q name, str_eq_iff q target)
        | inr kept ↦ elim (Result-cases (read_file B node name)) [
          | inr (x, failed) ↦ absurd (ground (arith, kept, failed, e))
          | inl (found, read) ↦
              let has = L.reads node name found read in
              let added = L.content_add copy name found q (L.files_plain node name found has) in
              let rest =
                copy_without_content node (B.add_data copy name found) copied target q names
                  (ground (arith, kept, read, e)) in
              elim (Bool-cases (str_eq q name)) [
                | inl here ↦
                    let is_name : q ≡ name = (str_eq_iff q name).0 here in
                    let at_q : L.content node q ≡ some found = ap (L.content node) is_name ∙ has in
                    ground (arith, rest, added, at_q, here, str_eq_iff name q, is_name)
                | inr there ↦
                    ground (arith, rest, added, there, str_eq_iff name q, str_eq_iff q name)
              ]
        ]
      ]

  -- Removing a file from a DataNode takes its content away and leaves every other file as it was,
  -- although all files are copied.
  pub remove_file_content :
      (node removed : B.DataNode) (target q : Bytes)
      → remove_file B node target ≡ ok removed
      → L.content removed q ≡ (if str_eq target q then none else L.content node q)
  unfolding remove_file collect_all
  remove_file_content node removed target q e = elim (Result-cases (B.walk node)) [
    | inr (x, failed) ↦ absurd (ground (arith, failed, e))
    | inl (entries, walked) ↦
        let rest =
          copy_without_content node B.new removed target q (file_names entries)
            (ground (arith, walked, e)) in
        let files = L.walk_files node entries q walked in
        elim (Option-cases (L.content node q)) [
          | inl absent ↦
              ground
                (arith, rest, absent, L.content_new q, str_eq_iff q target, str_eq_iff target q)
          | inr (found, stored) ↦
              let listed = files.1 (found, stored) in
              ground (
                arith,
                rest,
                listed,
                stored,
                L.content_new q,
                str_eq_iff q target,
                str_eq_iff target q,
              )
        ]
  ]
