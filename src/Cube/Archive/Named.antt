-- ===== src/Cube/Archive/Named.antt =====
-- What `Unpack` writes: paths of names only, whatever paths the archive has.
use native.Mathlib.Omega.{arith}
use go_io.Common.{
  ℕ, zero, suc, ◌≡◌, inl, inr, refl, Bool-cases, Bool, true, false, Option, none, some, List, [],
  ◌∷◌, if◌then◌else◌,
}
use go_io.Common.Bytes.{Bytes, str_eq_iff}
use go_io.Common.Results.{Result, ok, err, Result-cases, ◌>>=◌}
use go_io.CoreText
use go_io.CoreText.{CoreText, slash, dot}
use go_io.PathText
use go_io.PathText.{PathText, all_names}
use go_io.Medium.{DirEntry, file_mode}
use go_io.Borg.{Borg}
use go_io.Storage.{Storage, Outcome, Run, stop, next, Step}
use go_io.Workspace.Within.{IsNamed}
use go_io.Cube.Archive.{
  Descent, archive_child_path, has_parent_path_segment, validated_tar_entry_name, write_file,
  write_named, write_entries, write_dir, write_data_node, then_run,
}

module _ (c : CoreText) (K : CoreText.IsLawful c) (t : PathText) (L : PathText.IsLawful c t) where
  validated_tar_entry_name-IsNamed :
      (raw_name name : Bytes)
      → validated_tar_entry_name c t raw_name ≡ ok (some name)
      → IsNamed t name
  unfolding validated_tar_entry_name has_parent_path_segment
  validated_tar_entry_name-IsNamed raw_name name e =
      elim (Bool-cases (c.has_prefix raw_name slash)) [
        | inl rooted ↦ absurd (ground (arith, rooted, e))
        | inr relative ↦
            let same = K.trim_prefix_other raw_name slash relative in
            ground (
              arith,
              L.clean_path_names raw_name relative,
              str_eq_iff (c.clean_path raw_name) dot,
              same,
            )
      ]

  module _ (B : Borg) (destination : Storage) where
    abbrev Writes : destination.State → destination.State → Type 0
    Writes = Run destination (λ s. IsNamed t)

    write_named-Run :
        (s u : destination.State) (node : B.DataNode) (path : Bytes) (r : Result (Option Bytes))
        → ((name : Bytes) → r ≡ ok (some name) → IsNamed t name)
        → Writes s u
        → Writes s (write_named c t B destination node path r u).1
    write_named-Run s u node path (err e) named before = before
    write_named-Run s u node path (ok none) named before = before
    write_named-Run s u node path (ok (some name)) named before =
        elim (Result-cases (B.open_file node path >>= B.read_all)) [
          | inr (e, failed) ↦ rw (write_named, failed) before
          | inl (content, read) ↦
              rw (write_named, read)
                (next before (Step.write_mode u name content file_mode (named name refl)))
        ]

    write_file-Run :
        (s u : destination.State) (node : B.DataNode) (path : Bytes)
        → Writes s u
        → Writes s (write_file c t B destination node path u).1
    unfolding write_file
    write_file-Run s u node path before =
        write_named-Run s u node path (validated_tar_entry_name c t path)
          (validated_tar_entry_name-IsNamed path) before

    if-Run :
        (s u : destination.State) (b : Bool) (x y : Outcome destination.State Unit)
        → Writes s x.1
        → Writes s y.1
        → let outcome : Outcome destination.State Unit = if b then x else y in Writes s outcome.1
    if-Run s u true x y hx hy = hx
    if-Run s u false x y hx hy = hy

    then_run-Run :
        (s : destination.State) (first : Outcome destination.State Unit)
        (rest : destination.State → Outcome destination.State Unit)
        → Writes s first.1
        → ((u : destination.State) → Writes s u → Writes s (rest u).1)
        → Writes s (then_run c t B destination first rest).1
    then_run-Run s (err e, u) rest before after = before
    then_run-Run s (ok done, u) rest before after = after u before

    write_entries-Run :
        (s u : destination.State) (descend : Descent c t B destination) (node : B.DataNode)
        (directory : Bytes) (entries : List DirEntry)
        → ((path : Bytes) (v : destination.State) → Writes s v → Writes s (descend path v).1)
        → Writes s u
        → Writes s (write_entries c t B destination descend node directory entries u).1
    unfolding write_entries
    write_entries-Run s u descend node directory [] deeper before = before
    write_entries-Run s u descend node directory (entry ∷ entries) deeper before =
        let child = archive_child_path c t directory entry.name in
        then_run-Run s
          (if entry.is_dir then descend child u else write_file c t B destination node child u)
          (write_entries c t B destination descend node directory entries)
          (if-Run s u entry.is_dir (descend child u) (write_file c t B destination node child u)
            (deeper child u before) (write_file-Run s u node child before))
          (λ v reached. write_entries-Run s v descend node directory entries deeper reached)

    write_dir-Run :
        (fuel : ℕ) (s u : destination.State) (node : B.DataNode) (directory : Bytes)
        → Writes s u
        → Writes s (write_dir c t B destination fuel node directory u).1
    unfolding write_dir
    write_dir-Run zero s u node directory before = before
    write_dir-Run (suc fuel) s u node directory before =
        elim (Result-cases (B.read_dir node directory)) [
          | inr (e, failed) ↦ rw (write_dir, failed) before
          | inl (entries, listed) ↦
              rw (write_dir, listed)
                (write_entries-Run s u (write_dir c t B destination fuel node) node directory
                  entries (λ path v reached. write_dir-Run fuel s v node path reached) before)
        ]

    -- What `Unpack` does to its destination, errors included, is done at paths whose parts are all
    -- names: no `..` and no absolute path of an archive leads out of the destination.
    pub write_data_node-confined :
        (fuel : ℕ) (node : Option B.DataNode) (s : destination.State)
        → Run destination (λ u. IsNamed t) s (write_data_node c t B destination fuel node s).1
    unfolding write_data_node
    write_data_node-confined fuel none s = stop
    write_data_node-confined fuel (some node) s = write_dir-Run fuel s s node [] stop
