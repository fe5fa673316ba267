-- ===== src/Workspace/Apart.antt =====
-- go/workspace/workspace.go: the directories of the workspaces of one service.
use native.Mathlib.Omega.{arith}
use mathlib.Core.Path.{subst}
use mathlib.Core.List.{append_assoc, append-nil}
use go_io.Common.{
  ◌≡◌, ◌≢◌, ◌⊎◌, inl, inr, refl, sym, ap, ◌∙◌, Bool-cases, true, Option, none, some, List, [], ◌∷◌,
  ◌++◌, if◌then◌else◌,
}
use go_io.Common.Bytes.{Bytes, str_eq}
use go_io.Common.Results.{ok, err, Result-cases}
use go_io.CoreText
use go_io.CoreText.{CoreText, slash}
use go_io.PathText
use go_io.PathText.{PathText, all_names, all_names-append}
use go_io.Storage.{Storage, Outcome}
use go_io.Workspace.{clean_workspace_name, clean_medium_subpath, join_medium_subpaths}
use go_io.Workspace.Service.{
  Workspace, at_base, made, based, new_workspace, workspace_name_and_path,
}
use go_io.Workspace.Within.{
  IsWithin, IsNamed, clean_medium_subpath-IsNamed, clean_workspace_name-IsNamed, IsNamed-not_empty,
  join_base, join_below,
}

-- The parts of the base of a service.
unfoldable pub base_parts : PathText → Bytes → List Bytes
unfolding str_eq
base_parts t base = if str_eq base [] then [] else t.split base slash

pub append_left_cancel {ℓ} : {A : Type ℓ} (xs ys zs : List A) → xs ++ ys ≡ xs ++ zs → ys ≡ zs
append_left_cancel [] ys zs e = e
append_left_cancel (x ∷ xs) ys zs e = append_left_cancel xs ys zs (cc)

module _ (c : CoreText) (K : CoreText.IsLawful c) (t : PathText) (L : PathText.IsLawful c t)
    (M : Storage) where
  made_base :
      (base : Bytes) (outcome : Outcome M.State Unit) (workspace : Workspace) (s' : Option M.State)
      → made c t M base outcome ≡ (ok workspace, s')
      → workspace.base ≡ base
  made_base base (ok done, s) workspace s' e =
      let same : ok (at_base base) ≡ ok workspace = ap (λ o. o.0) e in cc
  made_base base (err x, s) workspace s' e =
      let same : err x ≡ ok workspace = ap (λ o. o.0) e in absurd (cc)

  based_base :
      (base : Bytes) (s : M.State) (workspace : Workspace) (s' : Option M.State)
      → based c t M s (ok base) ≡ (ok workspace, s')
      → workspace.base ≡ base
  based_base base s workspace s' e = elim (Bool-cases (str_eq base [])) [
    | inl empty ↦ ground (arith, e)
    | inr full ↦ made_base base (M.ensure_dir s base) workspace s' (ground (arith, full))
  ]

  -- A base that `NewWorkspace` accepts is empty or has names only.
  pub new_workspace-IsNamed :
      (s : Option M.State) (s' : Option M.State) (subpath : Bytes) (workspace : Workspace)
      → new_workspace c t M s subpath ≡ (ok workspace, s')
      → (workspace.base ≡ []) ⊎ IsNamed t workspace.base
  unfolding new_workspace
  new_workspace-IsNamed none s' subpath workspace e = absurd (cc)
  new_workspace-IsNamed (some s) s' subpath workspace e =
      elim (Result-cases (clean_medium_subpath c t subpath true)) [
        | inr (x, failed) ↦ absurd (ground (arith, failed))
        | inl (base, done) ↦
            let same : workspace.base ≡ base =
              based_base base s workspace s' (ground (arith, done)) in
            subst (λ b. (b ≡ []) ⊎ IsNamed t b) (sym same)
              (clean_medium_subpath-IsNamed c K t L subpath base true done)
      ]

  pub workspace_name_and_path_parts :
      (workspace : Workspace) (name clean path : Bytes)
      → workspace_name_and_path c t (some workspace) name ≡ ok (clean, path)
      → (clean_workspace_name c t name ≡ ok clean)
        × (path ≡ join_medium_subpaths c t (workspace.base ∷ clean ∷ []))
  unfolding workspace_name_and_path
  workspace_name_and_path_parts workspace name clean path e =
      elim (Result-cases (clean_workspace_name c t name)) [
        | inr (x, failed) ↦ absurd (ground (arith, failed))
        | inl (found, done) ↦
            let first : found ≡ clean = ground (arith, done) in
            let second : join_medium_subpaths c t (workspace.base ∷ found ∷ []) ≡ path =
              ground (arith, done) in
            (done ∙ ap ok first, rw (sym second, first) refl)
      ]

  -- The parts of a workspace's directory are those of the base and the name.
  pub workspace_path_split :
      (workspace : Workspace) (name clean path : Bytes)
      → (workspace.base ≡ []) ⊎ IsNamed t workspace.base
      → workspace_name_and_path c t (some workspace) name ≡ ok (clean, path)
      → IsNamed t path × (t.split path slash ≡ base_parts t workspace.base ++ (clean ∷ []))
  unfolding base_parts
  workspace_path_split workspace name clean path h e =
      let (cleaned, joined) = workspace_name_and_path_parts workspace name clean path e in
      let (free, named) = clean_workspace_name-IsNamed c K t L name clean cleaned in
      let one = L.split_one clean free in
      elim h [
        | inl empty ↦
            let is_clean : path ≡ clean =
              joined
              ∙ ap (λ b. join_medium_subpaths c t (b ∷ clean ∷ [])) empty
              ∙ join_base c K t L clean named in
            (rw (is_clean) named, rw (empty, is_clean) one)
        | inr based ↦
            let below : path ≡ workspace.base ++ (slash ++ clean) =
              joined ∙ join_below c K t L workspace.base clean based named in
            let parts : t.split path slash ≡ t.split workspace.base slash ++ (clean ∷ []) =
              ap (λ p. t.split p slash) below
              ∙ L.split-append workspace.base clean
              ∙ ap (λ x. t.split workspace.base slash ++ x) one in
            (
              rw (below, L.split-append workspace.base clean)
                  (all_names-append (t.split workspace.base slash) (t.split clean slash) based
                    named),
              rw (IsNamed-not_empty c K t L workspace.base based) parts,
            )
      ]

  -- The parts of a path in a workspace start with those of the base and the name.
  within_parts :
      (root path : Bytes)
      → IsWithin root path
      → (rest : List Bytes) × (t.split path slash ≡ t.split root slash ++ rest)
  within_parts root path (inl same) =
      ([], ap (λ p. t.split p slash) same ∙ sym (append-nil (t.split root slash)))
  within_parts root path (inr (rest, e)) =
      (t.split rest slash, ap (λ p. t.split p slash) e ∙ L.split-append root rest)

  workspace_path-IsWithin :
      (workspace : Workspace) (name clean root path : Bytes)
      → (workspace.base ≡ []) ⊎ IsNamed t workspace.base
      → workspace_name_and_path c t (some workspace) name ≡ ok (clean, root)
      → IsWithin root path
      → (rest : List Bytes) × (t.split path slash ≡ base_parts t workspace.base ++ (clean ∷ rest))
  workspace_path-IsWithin workspace name clean root path h e within =
      let (rest, parts) = within_parts root path within in
      let at_root = (workspace_path_split workspace name clean root h e).1 in
      (
        rest,
        parts
            ∙ ap (λ x. x ++ rest) at_root
            ∙ append_assoc (base_parts t workspace.base) (clean ∷ []) rest,
      )

  -- A path in the directories of two workspaces of one service.
  pub workspace_paths_apart :
      (s s' : Option M.State) (subpath : Bytes) (workspace : Workspace)
      (name other clean other_clean root other_root path : Bytes)
      → new_workspace c t M s subpath ≡ (ok workspace, s')
      → workspace_name_and_path c t (some workspace) name ≡ ok (clean, root)
      → workspace_name_and_path c t (some workspace) other ≡ ok (other_clean, other_root)
      → IsWithin root path
      → IsWithin other_root path
      → clean ≡ other_clean
  workspace_paths_apart s s' subpath workspace name other clean other_clean root other_root path
        started found other_found within other_within =
      let based = new_workspace-IsNamed s s' subpath workspace started in
      let (rest, parts) =
        workspace_path-IsWithin workspace name clean root path based found within in
      let (other_rest, other_parts) =
        workspace_path-IsWithin workspace other other_clean other_root path based other_found
          other_within in
      let same : clean ∷ rest ≡ other_clean ∷ other_rest =
        append_left_cancel (base_parts t workspace.base) (clean ∷ rest) (other_clean ∷ other_rest)
          (sym parts ∙ other_parts) in
      cc

  -- Two workspaces of one service whose cleaned names differ have no path in common.
  pub workspace_paths_disjoint :
      (s s' : Option M.State) (subpath : Bytes) (workspace : Workspace)
      (name other clean other_clean root other_root path : Bytes)
      → new_workspace c t M s subpath ≡ (ok workspace, s')
      → workspace_name_and_path c t (some workspace) name ≡ ok (clean, root)
      → workspace_name_and_path c t (some workspace) other ≡ ok (other_clean, other_root)
      → clean ≢ other_clean
      → IsWithin root path
      → ¬ IsWithin other_root path
  workspace_paths_disjoint s s' subpath workspace name other clean other_clean root other_root path
        started found other_found differ within other_within =
      differ (
        workspace_paths_apart s s' subpath workspace name other clean other_clean root other_root
          path started found other_found within other_within)
