-- ===== src/Workspace/Confined.antt =====
-- go/workspace/workspace.go: what the medium of a created workspace does to the wrapped medium.
use native.Mathlib.Omega.{arith}
use go_io.Common.{◌≡◌, inl, inr, ap, false, Option, some}
use go_io.Common.Bytes.{Bytes}
use go_io.Common.Results.{ok, err, Result-cases}
use go_io.CoreText
use go_io.CoreText.{CoreText, slash}
use go_io.PathText
use go_io.PathText.{PathText, all_names, all_names-append}
use go_io.Storage.{Storage, Outcome, Run, IsAny, Agree}
use go_io.Workspace.Scoped.{ScopedMedium, scoped}
use go_io.Workspace.Service.{
  Workspace, made, created, new_workspace, workspace_name_and_path, workspace_path,
  create_workspace,
}
use go_io.Workspace.Steps.{scoped-Run, scoped-Agree}
use go_io.Workspace.Apart.{new_workspace-IsNamed, workspace_path_split}
use go_io.Workspace.Within.{IsInside}

module _ (c : CoreText) (K : CoreText.IsLawful c) (t : PathText) (L : PathText.IsLawful c t)
    (M : Storage) where
  created_root :
      (path : Bytes) (outcome : Outcome M.State Unit) (medium : ScopedMedium) (u : M.State)
      → created c t M path outcome ≡ (ok medium, u)
      → medium.root ≡ path
  created_root path (ok done, s) medium u e =
      let same : ok (record { root = path }) ≡ ok medium = ap (λ o. o.0) e in cc
  created_root path (err x, s) medium u e =
      let same : err x ≡ ok medium = ap (λ o. o.0) e in absurd (cc)

  -- A workspace that is created did not exist.
  create_workspace_new :
      (workspace : Workspace) (s u : M.State) (name : Bytes) (medium : ScopedMedium)
      → create_workspace c t M (some workspace) s name ≡ (ok medium, u)
      → (clean : Bytes) × (workspace_name_and_path c t (some workspace) name
          ≡ ok (clean, medium.root))
        × (M.exists s medium.root ≡ false)
  unfolding create_workspace workspace_path
  create_workspace_new workspace s u name medium e =
      elim (Result-cases (workspace_name_and_path c t (some workspace) name)) [
        | inr (x, failed) ↦ absurd (ground (arith, failed))
        | inl ((clean, path), done) ↦
            let there : M.is_dir s path ≡ false = ground (arith, done) in
            let absent : M.exists s path ≡ false = ground (arith, done) in
            let root : medium.root ≡ path =
              created_root path (M.ensure_dir s path) medium u
                (ground (arith, done, there, absent)) in
            (clean, rw (root) done, rw (root) absent)
      ]

  -- The medium of a workspace that a service creates: its directory did not exist; what changes the
  -- wrapped medium through it is done at the directory and at paths below it whose parts are all
  -- names, so that no `..` leads out of it; and what is read through it is the same in two states of
  -- the wrapped medium that agree on those paths.
  pub create_workspace-confined :
      (s : Option M.State) (s' : Option M.State) (subpath name : Bytes) (workspace : Workspace)
      (u v w x y z : M.State) (medium : ScopedMedium)
      → new_workspace c t M s subpath ≡ (ok workspace, s')
      → create_workspace c t M (some workspace) u name ≡ (ok medium, v)
      → Run (scoped c t M medium) IsAny w x
      → Agree M (IsInside t medium.root) y z
      → (M.exists u medium.root ≡ false)
        × Run M (λ at. IsInside t medium.root) w x
        × Agree (scoped c t M medium) (λ path. Unit) y z
  create_workspace-confined s s' subpath name workspace u v w x y z medium started made runs same =
      let (clean, found, absent) = create_workspace_new workspace u v name medium made in
      let based = new_workspace-IsNamed c K t L M s s' subpath workspace started in
      let named = (workspace_path_split c K t L M workspace name clean medium.root based found).0 in
      (absent, scoped-Run c K t L M medium named runs, scoped-Agree c K t L M medium named y z same)
