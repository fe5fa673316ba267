-- ===== src/Local/Links/Validated.antt =====
-- go/local/medium.go: a path that is validated has no symbolic link in it.
use native.Mathlib.Omega.{arith}
use mathlib.Core.Path.{subst}
use go_io.Common.{ℕ, ◌≡◌, ◌≢◌, ◌⊎◌, inl, inr, refl, ap, Bool-cases, List, [], ◌∷◌}
use go_io.Common.Bytes.{Bytes, str_eq, str_eq_iff}
use go_io.Common.Results.{Result, ok, err, Result-cases, not_exist}
use go_io.CoreText.{CoreText}
use go_io.PathText.{PathText}
use go_io.Local.{
  Platform, System, is_not_exist, dir_separator, split_path_parts, absolute_path, is_within_root,
  clean_sandbox_path,
}
use go_io.Local.Links.{resolve_symlinks_path, validate_part, validate_parts, validate_path}
use go_io.Local.Links.Real.{
  IsReal, IsParted, IsSteady, is_not_exist-only, resolve_symlinks_recursive-IsResolving,
}

module _ (c : CoreText) (t : PathText) (p : Platform) (o : System) (rounds : ℕ)
    (s : o.storage.State) (D : IsParted c t p o) (S : IsSteady c t p o rounds s) (depth : ℕ) where
  validate_part-IsReal :
      (root next q : Bytes) (r : Result Bytes)
      → ((x : Bytes) → r ≡ ok x → IsReal c t p o s x)
      → r ≢ err not_exist
      → validate_part c t p o rounds depth root next r ≡ ok q
      → IsReal c t p o s q
  validate_part-IsReal root next q (ok real) all some_there e =
      elim (Bool-cases (is_within_root c t p root real)) [
        | inl within ↦
            let same : real ≡ q = ground (arith, within, e) in
            subst (IsReal c t p o s) same (all real refl)
        | inr outside ↦ absurd (ground (arith, outside, e))
      ]
  validate_part-IsReal root next q (err x) all some_there e = elim (Bool-cases (is_not_exist x)) [
    | inl gone ↦ absurd (some_there (ap err (is_not_exist-only x gone)))
    | inr other ↦ absurd (ground (arith, other, e))
  ]

  validate_parts-IsReal :
      (root current q : Bytes) (parts : List Bytes)
      → (current ≡ root) ⊎ IsReal c t p o s current
      → validate_parts c t p o rounds depth s root current parts ≡ ok q
      → (q ≡ root) ⊎ IsReal c t p o s q
  unfolding validate_parts resolve_symlinks_path
  validate_parts-IsReal root current q [] real e =
      let same : current ≡ q = cc in subst (λ x. (x ≡ root) ⊎ IsReal c t p o s x) same real
  validate_parts-IsReal root current q (part ∷ parts) real e =
      let next = p.path (current ∷ part ∷ []) in
      let found = resolve_symlinks_path c t p o rounds depth s next in
      let R = resolve_symlinks_recursive-IsResolving c t p o rounds s D S depth in
      elim (Result-cases (validate_part c t p o rounds depth root next found)) [
        | inr (x, failed) ↦ absurd (ground (arith, failed, e))
        | inl (step, done) ↦
            validate_parts-IsReal root step q parts
              (inr (
                validate_part-IsReal root next step found
                  (λ x h. R.0 (absolute_path c t p next) [] x h)
                  (λ h. R.1 (absolute_path c t p next) [] h) done))
              (ground (arith, done, e))
      ]

  -- A path that is validated is the root, or it has no link in it, unless the root is that of
  -- the file system.
  pub validate_path-IsReal :
      (root path q : Bytes)
      → validate_path c t p o rounds depth s root path ≡ ok q
      → (root ≡ dir_separator c t p) ⊎ ((q ≡ root) ⊎ IsReal c t p o s q)
  unfolding validate_path
  validate_path-IsReal root path q e = elim (Bool-cases (str_eq root (dir_separator c t p))) [
    | inl is_top ↦ inl ((str_eq_iff root (dir_separator c t p)).0 is_top)
    | inr under ↦ inr (
        validate_parts-IsReal root root q (split_path_parts c t p (clean_sandbox_path c t p path))
          (inl refl) (ground (arith, under, e)))
  ]
