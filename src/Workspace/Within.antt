-- ===== src/Workspace/Within.antt =====
-- The paths that the package makes: clean, below their root, and apart for two names.
use native.Mathlib.Omega.{arith}
use go_io.Common.{
  ◌≡◌, ◌⊎◌, inl, inr, refl, sym, ap, ◌∙◌, Bool-cases, Bool, true, false, [], ◌∷◌, ◌++◌,
}
use go_io.Common.Lists.{length, length-append}
use go_io.Common.Bytes.{Bytes, str_eq, str_eq_iff}
use go_io.Common.Results.{ok, Result-cases}
use go_io.CoreText
use go_io.CoreText.{CoreText, slash, dot}
use go_io.PathText
use go_io.PathText.{PathText, dot_dot, is_name, all_names, all_names-append, any_dot_dot, backslash}
use go_io.Workspace.{filtered, clean_workspace_name, clean_medium_subpath, join_medium_subpaths}
use go_io.Workspace.Scoped.{ScopedMedium, scoped_path}

-- The path itself, or a path below it.
abbrev pub IsWithin : Bytes → Bytes → Type 0
IsWithin root path = (path ≡ root) ⊎ ((rest : Bytes) × (path ≡ root ++ (slash ++ rest)))

-- A path whose parts are all names: neither empty nor a dot nor two dots.
abbrev pub IsNamed : PathText → Bytes → Type 0
IsNamed t path = all_names (t.split path slash) ≡ true

-- The path itself, or a path below it, all of whose parts are names: no `..` leads out of it again.
abbrev pub IsInside : PathText → Bytes → Bytes → Type 0
IsInside t root path = IsWithin root path × IsNamed t path

module _ (c : CoreText) (K : CoreText.IsLawful c) (t : PathText) (L : PathText.IsLawful c t) where
  no_slash-nil : c.contains [] slash ≡ false
  no_slash-nil = elim (Bool-cases (c.contains [] slash)) [
    | inr free ↦ free
    | inl slashed ↦
        let (a, b, _, whole, _) = K.split_first_two [] slashed in
        let size : 0 ≡ length (a ++ (slash ++ b)) = ap length whole in
        absurd (omega (arith, length-append a (slash ++ b)))
  ]

  pub IsNamed-not_empty : (path : Bytes) → IsNamed t path → str_eq path [] ≡ false
  unfolding all_names is_name str_eq
  IsNamed-not_empty [] h = absurd (ground (arith, L.split_one [] no_slash-nil))
  IsNamed-not_empty (x ∷ path) h = refl

  pub clean_medium_subpath-IsNamed :
      (subpath path : Bytes) (allow_empty : Bool)
      → clean_medium_subpath c t subpath allow_empty ≡ ok path
      → (path ≡ []) ⊎ IsNamed t path
  unfolding clean_medium_subpath
  clean_medium_subpath-IsNamed subpath path true e =
      let s = t.trim (t.replace subpath backslash slash) in
      ground (arith, L.clean_path_names s, str_eq_iff (c.clean_path s) dot)
  clean_medium_subpath-IsNamed subpath path false e =
      let s = t.trim (t.replace subpath backslash slash) in
      ground (arith, L.clean_path_names s, str_eq_iff (c.clean_path s) dot)

  pub clean_workspace_name-IsNamed :
      (name clean : Bytes)
      → clean_workspace_name c t name ≡ ok clean
      → (c.contains clean slash ≡ false) × IsNamed t clean
  unfolding clean_workspace_name all_names is_name
  clean_workspace_name-IsNamed name clean e = let one = L.split_one clean in ground (arith, one)

  join_root : (root : Bytes) → IsNamed t root → join_medium_subpaths c t (root ∷ [] ∷ []) ≡ root
  unfolding join_medium_subpaths filtered
  join_root root h = rw (IsNamed-not_empty root h) (L.path_join_one root h)

  pub join_base : (name : Bytes) → IsNamed t name → join_medium_subpaths c t ([] ∷ name ∷ []) ≡ name
  unfolding join_medium_subpaths filtered
  join_base name h = rw (IsNamed-not_empty name h) (L.path_join_one name h)

  pub join_below :
      (root path : Bytes)
      → IsNamed t root
      → IsNamed t path
      → join_medium_subpaths c t (root ∷ path ∷ []) ≡ root ++ (slash ++ path)
  unfolding join_medium_subpaths filtered
  join_below root path h k =
      rw (IsNamed-not_empty root h, IsNamed-not_empty path k) (L.path_join_two root path h k)

  -- What `scopedPath` gives is the root or below it, and its parts are names.
  pub scoped_path-IsInside :
      (medium : ScopedMedium) (entry_path path : Bytes) (allow_root : Bool)
      → IsNamed t medium.root
      → scoped_path c t medium entry_path allow_root ≡ ok path
      → IsInside t medium.root path
  unfolding scoped_path
  scoped_path-IsInside medium entry_path path allow_root h e =
      elim (Result-cases (clean_medium_subpath c t entry_path allow_root)) [
        | inr (x, failed) ↦ absurd (ground (arith, failed))
        | inl (clean, done) ↦
            let joined : join_medium_subpaths c t (medium.root ∷ clean ∷ []) ≡ path =
              ground (arith, done) in
            elim (clean_medium_subpath-IsNamed entry_path clean allow_root done) [
              | inl empty ↦
                  let is_root = join_root medium.root h in
                  let same : path ≡ medium.root = cc in (inl same, rw (same) h)
              | inr named ↦
                  let below : path ≡ medium.root ++ (slash ++ clean) =
                    sym joined ∙ join_below medium.root clean h named in
                  (
                    inr (clean, below),
                    rw (below, L.split-append medium.root clean)
                        (all_names-append (t.split medium.root slash) (t.split clean slash) h
                          named),
                  )
            ]
      ]

  pub scoped_path-IsWithin :
      (medium : ScopedMedium) (entry_path path : Bytes) (allow_root : Bool)
      → IsNamed t medium.root
      → scoped_path c t medium entry_path allow_root ≡ ok path
      → IsWithin medium.root path
  scoped_path-IsWithin medium entry_path path allow_root h e =
      (scoped_path-IsInside medium entry_path path allow_root h e).0
