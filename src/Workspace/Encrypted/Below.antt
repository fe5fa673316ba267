-- ===== src/Workspace/Encrypted/Below.antt =====
-- go/workspace/service.go: the paths of the files of a workspace, and that of its key.
use native.Mathlib.Omega.{arith}
use mathlib.Core.List.{append_assoc}
use go_io.Common.{ℕ, ◌≡◌, inl, inr, refl, sym, ap, ◌∙◌, Bool-cases, false, [], ◌∷◌, ◌++◌}
use go_io.Common.Bytes.{Bytes, bytes, str_eq, str_eq_iff}
use go_io.Common.Results.{ok}
use go_io.CoreText
use go_io.CoreText.{CoreText}
use go_io.Local.{Platform}
use go_io.Workspace.Apart.{append_left_cancel}
use go_io.Workspace.Encrypted.{
  Service, separator, files_root, key_path, resolve_active_workspace_file_path,
  join_path_within_root,
}

abbrev first_or_zero : Bytes → ℕ
first_or_zero [] = 0
first_or_zero (b ∷ s) = b

first-eq : (x y : Bytes) → x ≡ y → first_or_zero x ≡ first_or_zero y
first-eq x y h = ap first_or_zero h

module _ (c : CoreText) (K : CoreText.IsLawful c) (p : Platform) where
  -- `core.Path` for the directory of a service's active workspace: the names that follow the
  -- directory are put behind it, with a separator before each.
  pub record IsJoining (service : Service) : Type 0 where
    pub directory : Bytes
    pub between : Bytes
    pub files : files_root c p service ≡ directory ++ (between ++ bytes "files")
    pub key :
        key_path c p service
        ≡ directory ++ (between ++ (bytes "keys" ++ (between ++ bytes "private.key")))

  -- A file of a workspace is below the directory of the files.
  pub resolved_below :
      (service : Service) (path file_path : Bytes)
      → resolve_active_workspace_file_path c p service path ≡ ok file_path
      → (rest : Bytes) × (file_path ≡ (files_root c p service ++ separator c p) ++ rest)
  unfolding resolve_active_workspace_file_path join_path_within_root
  resolved_below service path file_path e =
      let root = files_root c p service in
      let candidate = p.path (root ∷ path ∷ []) in
      elim (Bool-cases (c.has_prefix candidate (root ++ separator c p))) [
        | inl below ↦
            let same : candidate ≡ file_path = ground (arith, below, e) in
            let (rest, split) = (K.has_prefix_iff candidate (root ++ separator c p)).0 below in
            (rest, sym same ∙ split)
        | inr other ↦ absurd (ground (arith, other, e))
      ]

  pub not_key :
      (service : Service) (path file_path : Bytes)
      → IsJoining service
      → resolve_active_workspace_file_path c p service path ≡ ok file_path
      → str_eq file_path (key_path c p service) ≡ false
  not_key service path file_path joining e =
      elim (Bool-cases (str_eq file_path (key_path c p service))) [
        | inr apart ↦ apart
        | inl meet ↦
            let (rest, below) = resolved_below service path file_path e in
            let x = bytes "files" ++ (separator c p ++ rest) in
            let y = bytes "keys" ++ (joining.between ++ bytes "private.key") in
            let flat : file_path ≡ joining.directory ++ (joining.between ++ x) =
              below
              ∙ rw
                  (
                    joining.files,
                    append_assoc (joining.directory ++ (joining.between ++ bytes "files"))
                        (separator c p) rest,
                    append_assoc joining.directory (joining.between ++ bytes "files")
                        (separator c p ++ rest),
                    append_assoc joining.between (bytes "files") (separator c p ++ rest),
                  )
                  refl in
            let same : joining.directory ++ (joining.between ++ x)
                ≡ joining.directory ++ (joining.between ++ y) =
              sym flat ∙ (str_eq_iff file_path (key_path c p service)).0 meet ∙ joining.key in
            let tails : x ≡ y = append_left_cancel joining.between x y (
              append_left_cancel joining.directory (joining.between ++ x) (joining.between ++ y)
                same) in
            absurd (omega (arith, first-eq x y tails))
      ]
