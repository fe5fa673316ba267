-- ===== src/Node/Archive.antt =====
-- go/node/node.go: `ToTar`, `FromTar` and `LoadTar`. The package archive/tar is a parameter.
pub mod Restored
use go_io.Common.{◌≡◌, Bool, true, false, Option, none, some, List, [], ◌∷◌, ◌||◌, if◌then◌else◌}
use go_io.Common.Bytes.{Bytes, All, str_eq}
use go_io.Common.Results.{Result, ok, err}
use go_io.Common.GoMap.{GoMap, insert}
use go_io.CoreText.{CoreText, slash}
use go_io.Medium.{Time}
use go_io.Node.{Node, DataFile, trimmed, new}

-- A header with the content that follows it.
pub record TarEntry : Type 0 where
  pub name : Bytes
  pub content : Bytes
  pub mod_time : Time
  pub is_regular : Bool

-- `tar.Writer` over a buffer until its `Close`, and `tar.Reader` until `io.EOF`. The writer rounds a
-- time to what the format stores.
pub record Tar : Type 0 where
  pub archive : List TarEntry → Result Bytes
  pub entries : Bytes → Result (List TarEntry)
  pub rounded : Time → Time

-- A header that the writer stores as a regular file.
pub record IsRegular (c : CoreText) (e : TarEntry) : Type 0 where
  pub regular : e.is_regular ≡ true
  pub not_empty : str_eq e.name [] ≡ false
  pub no_directory : c.has_suffix e.name slash ≡ false

abbrev pub rounded_entry : Tar → TarEntry → TarEntry
rounded_entry tar e = record e { mod_time = tar.rounded e.mod_time }

abbrev pub rounded_entries : Tar → List TarEntry → List TarEntry
rounded_entries tar [] = []
rounded_entries tar (e ∷ es) = rounded_entry tar e ∷ rounded_entries tar es

-- What was written is read back, in order, with rounded times.
pub record IsLawful (c : CoreText) (tar : Tar) : Type 0 where
  pub entries-archive :
      (es : List TarEntry) (bytes : Bytes)
      → All (IsRegular c) es
      → tar.archive es ≡ ok bytes
      → tar.entries bytes ≡ ok (rounded_entries tar es)

-- The headers that `ToTar` writes, in the order of `range`.
unfoldable pub headers : GoMap DataFile → List TarEntry
headers [] = []
headers ((path, file) ∷ files) =
    record { name = file.name; content = file.content; mod_time = file.mod_time; is_regular = true }
    ∷ headers files

module _ (c : CoreText) (tar : Tar) where
  -- `ToTar`
  unfoldable pub to_tar : Node → Result Bytes
  unfolding headers
  to_tar node = tar.archive (headers node.files)

  -- `dataFileFromTarEntry`, on a content that can be read
  unfoldable pub data_file_from_tar_entry : TarEntry → Option DataFile
  data_file_from_tar_entry e =
      if str_eq (trimmed c e.name) [] || c.has_suffix (trimmed c e.name) slash
      then none
      else some (record { name = trimmed c e.name; content = e.content; mod_time = e.mod_time })

  abbrev pub put_entry : Option DataFile → GoMap DataFile → GoMap DataFile
  put_entry none new_files = new_files
  put_entry (some file) new_files = insert file.name file new_files

  -- The loop of `LoadTar`.
  unfoldable pub load_entries : List TarEntry → GoMap DataFile → GoMap DataFile
  unfolding data_file_from_tar_entry
  load_entries [] new_files = new_files
  load_entries (e ∷ es) new_files =
      load_entries es
        (if e.is_regular then put_entry (data_file_from_tar_entry e) new_files else new_files)

  -- `LoadTar`: the files of the node are replaced at the end only
  unfoldable pub load_tar : Node → Bytes → Result Node
  unfolding load_entries
  load_tar node bytes = elim (tar.entries bytes) [
    | ok es ↦ ok (record { files = load_entries es [] })
    | err e ↦ err e
  ]

  -- `FromTar`
  abbrev pub from_tar : Bytes → Result Node
  from_tar bytes = load_tar new bytes
