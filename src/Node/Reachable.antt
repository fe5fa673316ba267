-- ===== src/Node/Reachable.antt =====
-- In a `Node` that operations have built every file stands under its own name.
use native.Mathlib.Omega.{arith}
use mathlib.Core.Path.{subst}
use go_io.Common.{
  ◌≡◌, refl, sym, ap, ◌∙◌, Bool, inl, inr, Option, Option-cases, Bool-cases, none, some, List, [],
  ◌∷◌, ◌++◌,
}
use go_io.Common.Bytes.{Bytes, str_eq, str_eq_iff}
use go_io.Common.Results.{ok, Result-cases}
use go_io.Common.GoMap.{
  GoMap, lookup, insert, remove, remove_where, lookup-insert, lookup-remove, lookup-remove_where,
}
use go_io.CoreText.{CoreText, slash}
use go_io.Medium.{Time}
use go_io.Node.{
  Node, DataFile, new, write, delete, delete_all, rename, put_data, add_data, trimmed, deleted,
  to_add, put_all, updated_path, rename_directory,
}
use go_io.Node.Streams.{NodeWriter, writer_close}
use go_io.Node.Moving.{lookup-put_all}
use go_io.Node.Archive
use go_io.Node.Archive.{Tar, TarEntry, load_tar, load_entries, data_file_from_tar_entry}

abbrev pub IsNamed : GoMap DataFile → Type 0
IsNamed files = (k : Bytes) (file : DataFile) → lookup k files ≡ some file → file.name ≡ k

insert-IsNamed :
    (name : Bytes) (file : DataFile) (files : GoMap DataFile)
    → file.name ≡ name
    → IsNamed files
    → IsNamed (insert name file files)
insert-IsNamed name file files e v k found h =
    ground (arith, v k found, lookup-insert name k file files, str_eq_iff name k)

remove_where-IsNamed :
    (p : Bytes → Bool) (files : GoMap DataFile) → IsNamed files → IsNamed (remove_where p files)
remove_where-IsNamed p files v k found h = ground (arith, v k found, lookup-remove_where p k files)

remove-IsNamed :
    (name : Bytes) (files : GoMap DataFile) → IsNamed files → IsNamed (remove name files)
remove-IsNamed name files v k found h = ground (arith, v k found, lookup-remove name k files)

put_all-IsNamed :
    (added files : GoMap DataFile) → IsNamed added → IsNamed files → IsNamed (put_all added files)
put_all-IsNamed added files v w k found h = elim (Option-cases (lookup k added)) [
  | inl absent ↦ w k found (ground (arith, lookup-put_all added files k))
  | inr (file, e) ↦
      let same : found ≡ file = ground (arith, lookup-put_all added files k) in
      ap (λ f. f.name) same ∙ v k file e
]

module _ (c : CoreText) (o n : Bytes) where
  to_add-IsNamed : (files : GoMap DataFile) → IsNamed (to_add c o n files)
  unfolding to_add
  to_add-IsNamed [] = λ k found h. absurd (unfold lookup in cc)
  to_add-IsNamed ((path, file) ∷ files) =
      let ih = to_add-IsNamed files in
      let new_path = updated_path c o n path in
      elim (Bool-cases (c.has_prefix path o)) [
        | inl below ↦
            rw (below) (
              insert-IsNamed new_path (record file { name = new_path }) (to_add c o n files) refl
                ih)
        | inr other ↦ rw (other) ih
      ]

module _ (c : CoreText) (tar : Tar) where
  put_entry-IsNamed :
      (entry : Option DataFile) (files : GoMap DataFile)
      → IsNamed files
      → IsNamed (Archive.put_entry c tar entry files)
  put_entry-IsNamed none files v = v
  put_entry-IsNamed (some file) files v = insert-IsNamed file.name file files refl v

  load_entries-IsNamed :
      (es : List TarEntry) (files : GoMap DataFile)
      → IsNamed files
      → IsNamed (load_entries c tar es files)
  unfolding load_entries
  load_entries-IsNamed [] files v = v
  load_entries-IsNamed (e ∷ es) files v = elim (Bool-cases e.is_regular) [
    | inl regular ↦ rw (regular) (
        load_entries-IsNamed es (Archive.put_entry c tar (data_file_from_tar_entry c tar e) files)
          (put_entry-IsNamed (data_file_from_tar_entry c tar e) files v))
    | inr other ↦ rw (other) (load_entries-IsNamed es files v)
  ]

-- One operation that succeeds.
pub data Step (c : CoreText) (tar : Tar) (node node' : Node) : Type 0 where
  writes :
      (now : Time) (path content : Bytes)
      → write c now node path content ≡ ok node'
      → Step c tar node node'
  deletes : (path : Bytes) → delete c node path ≡ ok node' → Step c tar node node'
  deletes_all : (path : Bytes) → delete_all c node path ≡ ok node' → Step c tar node node'
  renames : (old new_path : Bytes) → rename c node old new_path ≡ ok node' → Step c tar node node'
  closes :
      (now : Time) (writer : NodeWriter)
      → writer_close now node writer ≡ ok node'
      → Step c tar node node'
  loads : (bytes : Bytes) → load_tar c tar node bytes ≡ ok node' → Step c tar node node'

pub data Reachable (c : CoreText) (tar : Tar) : Node → Type 0 where
  start : Reachable c tar new
  next : {node node' : Node} → Reachable c tar node → Step c tar node node' → Reachable c tar node'

module _ (c : CoreText) (tar : Tar) where
  put_data-IsNamed :
      (now : Time) (name content : Bytes) (node : Node)
      → IsNamed node.files
      → IsNamed (put_data now name content node).files
  unfolding put_data
  put_data-IsNamed now name content node v =
      insert-IsNamed name (record { name = name; content = content; mod_time = now }) node.files
        refl v

  add_data-IsNamed :
      (now : Time) (node : Node) (name content : Bytes)
      → IsNamed node.files
      → IsNamed (add_data c now node name content).files
  unfolding add_data
  add_data-IsNamed now node name content v = elim (Bool-cases (str_eq (trimmed c name) [])) [
    | inl empty ↦ rw (empty) v
    | inr named ↦ elim (Bool-cases (c.has_suffix (trimmed c name) slash)) [
      | inl directory ↦ rw (named, directory) v
      | inr file ↦ rw (named, file) (put_data-IsNamed now (trimmed c name) content node v)
    ]
  ]

  rename-IsNamed :
      (node node' : Node) (old new_path : Bytes)
      → rename c node old new_path ≡ ok node'
      → IsNamed node.files
      → IsNamed node'.files
  unfolding rename rename_directory
  rename-IsNamed node node' old new_path e v =
      elim (Option-cases (lookup (trimmed c old) node.files)) [
        | inr (file, found) ↦
            let name = trimmed c new_path in
            let moved : Node = record {
              files = remove (trimmed c old) (insert name (record file { name = name }) node.files);
            } in
            let is_node' : node' ≡ moved = ground arith in
            subst (λ m. IsNamed m.files) (sym is_node')
              (remove-IsNamed (trimmed c old) (insert name (record file { name = name }) node.files)
                (insert-IsNamed name (record file { name = name }) node.files refl v))
        | inl no_file ↦
            let o = trimmed c old ++ slash in
            let n = trimmed c new_path ++ slash in
            let kept = remove_where (λ path. c.has_prefix path o) node.files in
            let moved : Node = record { files = put_all (to_add c o n node.files) kept } in
            let is_node' : node' ≡ moved = ground arith in
            subst (λ m. IsNamed m.files) (sym is_node')
              (put_all-IsNamed (to_add c o n node.files) kept (to_add-IsNamed c o n node.files)
                (remove_where-IsNamed (λ path. c.has_prefix path o) node.files v))
      ]

  load_tar-IsNamed :
      (node node' : Node) (bytes : Bytes)
      → load_tar c tar node bytes ≡ ok node'
      → IsNamed node'.files
  unfolding load_tar
  load_tar-IsNamed node node' bytes e = elim (Result-cases (tar.entries bytes)) [
    | inr (f, failed) ↦ absurd (ground arith)
    | inl (es, read) ↦
        let loaded : Node = record { files = load_entries c tar es [] } in
        let is_node' : node' ≡ loaded = ground arith in
        subst (λ m. IsNamed m.files) (sym is_node')
          (load_entries-IsNamed c tar es [] (λ k file h. absurd (unfold lookup in cc)))
  ]

  Step-IsNamed :
      {node node' : Node} → Step c tar node node' → IsNamed node.files → IsNamed node'.files
  unfolding write delete delete_all writer_close
  Step-IsNamed {node} {node'} (writes now path content e) v =
      let is_node' : node' ≡ add_data c now node (trimmed c path) content = ground arith in
      subst (λ m. IsNamed m.files) (sym is_node')
        (add_data-IsNamed now node (trimmed c path) content v)
  Step-IsNamed {node} {node'} (deletes path e) v =
      let left : Node = record { files = remove (trimmed c path) node.files } in
      let is_node' : node' ≡ left = ground arith in
      subst (λ m. IsNamed m.files) (sym is_node') (remove-IsNamed (trimmed c path) node.files v)
  Step-IsNamed {node} {node'} (deletes_all path e) v =
      let left : Node = record { files = remove_where (deleted c (trimmed c path)) node.files } in
      let is_node' : node' ≡ left = ground arith in
      subst (λ m. IsNamed m.files) (sym is_node')
        (remove_where-IsNamed (deleted c (trimmed c path)) node.files v)
  Step-IsNamed {node} {node'} (renames old new_path e) v =
      rename-IsNamed node node' old new_path e v
  Step-IsNamed {node} {node'} (closes now writer e) v =
      let is_node' : node' ≡ put_data now writer.path writer.buffer node = ground arith in
      subst (λ m. IsNamed m.files) (sym is_node')
        (put_data-IsNamed now writer.path writer.buffer node v)
  Step-IsNamed {node} {node'} (loads bytes e) v = load_tar-IsNamed node node' bytes e

  -- In every node that successful operations, closed writers and loaded archives have built from an
  -- empty one, a file stored under a path has that path as its name, after renames too.
  pub Reachable-IsNamed : {node : Node} → Reachable c tar node → IsNamed node.files
  unfolding lookup
  Reachable-IsNamed start = λ k file h. absurd (cc)
  Reachable-IsNamed (next r s) = Step-IsNamed s (Reachable-IsNamed r)
