-- ===== src/Node/Archive/Restored.antt =====
-- A `Node` is restored from its own archive.
use native.Mathlib.Omega.{arith}
use go_io.Common.{◌≡◌, refl, sym, ap, ◌∙◌, true, false, Option, none, some, List, [], ◌∷◌}
use go_io.Common.Bytes.{Bytes, All, str_eq, str_eq_iff}
use go_io.Common.Results.{ok}
use go_io.Common.GoMap.{GoMap, lookup, insert, has_key, lookup-insert}
use go_io.CoreText
use go_io.CoreText.{CoreText, slash}
use go_io.Node.{Node, DataFile, trimmed}
use go_io.Node.Archive
use go_io.Node.Archive.{
  Tar, TarEntry, IsRegular, rounded_entry, rounded_entries, headers, to_tar, from_tar, load_tar,
  load_entries, data_file_from_tar_entry,
}

-- The files that survive an archive: each stands once, under its own name, and the name is not
-- empty and neither starts nor ends with a slash.
pub record IsPortableFile (c : CoreText) (path : Bytes) (file : DataFile) : Type 0 where
  pub named : file.name ≡ path
  pub not_empty : str_eq path [] ≡ false
  pub no_prefix : c.has_prefix path slash ≡ false
  pub no_suffix : c.has_suffix path slash ≡ false

abbrev pub IsPortable : CoreText → GoMap DataFile → Type 0
IsPortable c [] = Unit
IsPortable c ((path, file) ∷ files) =
    IsPortableFile c path file × (has_key path files ≡ false) × IsPortable c files

-- The file as the archive gives it back.
abbrev pub restored : Tar → Option DataFile → Option DataFile
restored tar none = none
restored tar (some file) = some (record file { mod_time = tar.rounded file.mod_time })

abbrev either : Option DataFile → Option DataFile → Option DataFile
either none b = b
either (some a) b = some a

either-none : (o : Option DataFile) → either o none ≡ o
either-none none = refl
either-none (some a) = refl

module _ (c : CoreText) (L : CoreText.IsLawful c) (tar : Tar) where
  headers-IsRegular :
      (files : GoMap DataFile) → IsPortable c files → All (IsRegular c) (headers files)
  unfolding headers
  headers-IsRegular [] p = tt
  headers-IsRegular ((path, file) ∷ files) (p, fresh, ps) = (
    record {
      regular = refl;
      not_empty = ap (λ t. str_eq t []) p.named ∙ p.not_empty;
      no_directory = ap (λ t. c.has_suffix t slash) p.named ∙ p.no_suffix;
    },
    headers-IsRegular files ps,
  )

  -- One entry of the archive of a portable file.
  one_entry :
      (path : Bytes) (file : DataFile) (es : List TarEntry) (new_files : GoMap DataFile)
      → IsPortableFile c path file
      → load_entries c tar
          (record {
            name = file.name;
            content = file.content;
            mod_time = tar.rounded file.mod_time;
            is_regular = true;
          }
            ∷ es)
          new_files
        ≡ load_entries c tar es
            (insert path (record file { mod_time = tar.rounded file.mod_time }) new_files)
  unfolding load_entries data_file_from_tar_entry
  one_entry path file es new_files p =
      let plain : trimmed c file.name ≡ path =
        ap (trimmed c) p.named ∙ L.trim_prefix_other path slash p.no_prefix in
      rw (plain, p.not_empty, p.no_suffix)
        (ap
          (λ n. load_entries c tar es (
            insert path
              (record { name = n; content = file.content; mod_time = tar.rounded file.mod_time })
              new_files))
          (sym p.named))

  lookup-load_entries :
      (files new_files : GoMap DataFile) (q : Bytes)
      → IsPortable c files
      → lookup q (load_entries c tar (rounded_entries tar (headers files)) new_files)
        ≡ either (restored tar (lookup q files)) (lookup q new_files)
  unfolding headers lookup
  lookup-load_entries [] new_files q p = unfold load_entries in refl
  lookup-load_entries ((path, file) ∷ files) new_files q (p, fresh, ps) =
      let kept = record file { mod_time = tar.rounded file.mod_time } in
      ap (lookup q) (one_entry path file (rounded_entries tar (headers files)) new_files p)
      ∙ lookup-load_entries files (insert path kept new_files) q ps
      ∙ ground (
        arith,
        lookup-insert path q kept new_files,
        fresh,
        str_eq_iff path q,
        λ (e : path ≡ q). ap (λ k. has_key k files) e,
      )

  -- `FromTar` of what `ToTar` wrote succeeds, for a node each of whose files stands under its own
  -- name, neither empty nor with a slash at its start or end: the restored node has the same files,
  -- with the times that the format stores, and no others.
  pub from_tar-to_tar :
      (node : Node) (bytes q : Bytes)
      → Archive.IsLawful c tar
      → IsPortable c node.files
      → to_tar c tar node ≡ ok bytes
      → (node' : Node) × (from_tar c tar bytes ≡ ok node')
        × (lookup q node'.files ≡ restored tar (lookup q node.files))
  unfolding load_tar to_tar
  from_tar-to_tar node bytes q T p e =
      let back = T.entries-archive (headers node.files) bytes (headers-IsRegular node.files p) e in
      let files = load_entries c tar (rounded_entries tar (headers node.files)) [] in
      (
        record { files = files },
        ground (arith, back),
        lookup-load_entries node.files [] q p
            ∙ (unfold lookup in either-none (restored tar (lookup q node.files))),
      )
