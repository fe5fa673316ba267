-- ===== src/Workspace/Isolated.antt =====
-- Workspaces over the memory medium: what is written in one is not seen in another.
use native.Mathlib.Omega.{arith}
use mathlib.Core.Path.{subst}
use go_io.Common.{◌≡◌, inl, inr, refl, sym, ap, ◌∙◌, Bool-cases, Bool, false, Option, some, List}
use go_io.Common.Bytes.{Bytes, str_eq, str_eq_iff, str_eq_refl}
use go_io.Common.Results.{Result, ok, err, Result-cases}
use go_io.CoreText
use go_io.CoreText.{CoreText, slash}
use go_io.PathText
use go_io.PathText.{PathText}
use go_io.Medium.{Time, file_mode}
use go_io.Storage.{Storage}
use go_io.Memory
use go_io.Memory.{MemoryMedium}
use go_io.Memory.Whole.{memory_storage, outcome}
use go_io.Memory.Writing.{write_mode_effect}
use go_io.Workspace.{clean_workspace_name}
use go_io.Workspace.Scoped.{scoped_path}
use go_io.Workspace.Service.{
  Workspace, new_workspace, workspace_name_and_path, workspace_path, workspace_file_path,
  write_workspace_file,
}
use go_io.Workspace.Within.{IsWithin, scoped_path-IsWithin}
use go_io.Workspace.Apart.{
  workspace_paths_apart, workspace_path_split, workspace_name_and_path_parts, new_workspace-IsNamed,
}

module _ (c : CoreText) (K : CoreText.IsLawful c) (t : PathText) (L : PathText.IsLawful c t)
    (M : Storage) where
  -- A file of a workspace is in the directory of the workspace, or is that directory.
  pub workspace_file_path-IsWithin :
      (s s' : Option M.State) (subpath : Bytes) (workspace : Workspace) (u : M.State)
      (name file path : Bytes) (allow_empty : Bool)
      → new_workspace c t M s subpath ≡ (ok workspace, s')
      → workspace_file_path c t M (some workspace) u name file allow_empty ≡ ok path
      → (clean : Bytes) × (root : Bytes) × (workspace_name_and_path c t (some workspace) name
          ≡ ok (clean, root))
        × (clean_workspace_name c t name ≡ ok clean)
        × IsWithin root path
  unfolding workspace_file_path workspace_path scoped_path
  workspace_file_path-IsWithin s s' subpath workspace u name file path allow_empty started e =
      elim (Result-cases (workspace_name_and_path c t (some workspace) name)) [
        | inr (x, failed) ↦ absurd (ground (arith, failed))
        | inl ((clean, root), done) ↦
            let based = new_workspace-IsNamed c K t L M s s' subpath workspace started in
            let named = (workspace_path_split c K t L M workspace name clean root based done).0 in
            let scoped : scoped_path c t (record { root = root }) file allow_empty ≡ ok path =
              ground (arith, done, e) in
            (
              clean,
              root,
              done,
              (workspace_name_and_path_parts c K t L M workspace name clean root done).0,
              scoped_path-IsWithin c K t L (record { root = root }) file path allow_empty named
                  scoped,
            )
      ]

module _ (c : CoreText) (K : CoreText.IsLawful c) (t : PathText) (L : PathText.IsLawful c t)
    (now : Time) (file_order directory_order : MemoryMedium → List Bytes) where
  abbrev M : Storage
  M = memory_storage c now file_order directory_order

  written : (m m' : MemoryMedium) (r : Result MemoryMedium) → outcome m r ≡ (ok tt, m') → r ≡ ok m'
  written m m' (ok n) e = ap (λ o. ok (o.1)) e
  written m m' (err x) e = let same : err x ≡ ok tt = ap (λ o. o.0) e in absurd (cc)

  write_workspace_file_run :
      (workspace : Workspace) (m m' : MemoryMedium) (name file content : Bytes)
      → write_workspace_file c t M (some workspace) m name file content ≡ (ok tt, m')
      → (path : Bytes) × (workspace_file_path c t M (some workspace) m name file false ≡ ok path)
        × (Memory.write_mode c now m path content file_mode ≡ ok m')
  unfolding write_workspace_file Memory.write
  write_workspace_file_run workspace m m' name file content e =
      elim (Result-cases (workspace_file_path c t M (some workspace) m name file false)) [
        | inr (x, failed) ↦ absurd (ground (arith, failed))
        | inl (path, done) ↦ (
          path,
          done,
          written m m' (Memory.write_mode c now m path content file_mode) (ground (arith, done)),
        )
      ]

  -- A successful write to a file of a workspace: that file then reads as the content, and a file
  -- of a workspace with another cleaned name reads as before.
  pub write_workspace_file-isolated :
      (s s' : Option MemoryMedium) (subpath : Bytes) (workspace : Workspace) (m m' : MemoryMedium)
      (name file content other other_file path other_path clean other_clean : Bytes)
      → new_workspace c t M s subpath ≡ (ok workspace, s')
      → write_workspace_file c t M (some workspace) m name file content ≡ (ok tt, m')
      → workspace_file_path c t M (some workspace) m name file false ≡ ok path
      → workspace_file_path c t M (some workspace) m other other_file false ≡ ok other_path
      → clean_workspace_name c t name ≡ ok clean
      → clean_workspace_name c t other ≡ ok other_clean
      → str_eq clean other_clean ≡ false
      → (Memory.read m' path ≡ ok content) × (Memory.read m' other_path ≡ Memory.read m other_path)
  write_workspace_file-isolated s s' subpath workspace m m' name file content other other_file path
        other_path clean other_clean started e found other_found named other_named differ =
      let (p, here, wrote) = write_workspace_file_run workspace m m' name file content e in
      let same : p ≡ path = ground (arith, here, found) in
      let (n, root, at, cleaned, within) =
        workspace_file_path-IsWithin c K t L M s s' subpath workspace m name file path false started
          found in
      let (o, other_root, other_at, other_cleaned, other_within) =
        workspace_file_path-IsWithin c K t L M s s' subpath workspace m other other_file other_path
          false started other_found in
      let apart : str_eq path other_path ≡ false = elim (Bool-cases (str_eq path other_path)) [
        | inr apart ↦ apart
        | inl meet ↦
            let one : path ≡ other_path = (str_eq_iff path other_path).0 meet in
            let names : n ≡ o =
              workspace_paths_apart c K t L M s s' subpath workspace name other n o root other_root
                path started at other_at within
                (subst (IsWithin other_root) (sym one) other_within) in
            let is_clean : n ≡ clean = ground (arith, cleaned, named) in
            let other_is_clean : o ≡ other_clean = ground (arith, other_cleaned, other_named) in
            let cleans : clean ≡ other_clean = sym is_clean ∙ names ∙ other_is_clean in
            absurd (ground (arith, (str_eq_iff clean other_clean).1 cleans))
      ] in
      let effect = write_mode_effect c K now m m' p content in
      (
        (effect path file_mode wrote).0 ∙ rw (same, str_eq_refl path) refl,
        (effect other_path file_mode wrote).0 ∙ rw (same, apart) refl,
      )
