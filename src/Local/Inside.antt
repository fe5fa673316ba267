-- ===== src/Local/Inside.antt =====
-- Validated paths are inside the root.
use native.Mathlib.Omega.{arith}
use mathlib.Core.Path.{subst}
use mathlib.Core.List.{append_assoc}
use go_io.Common.{
  ℕ, ◌≡◌, ◌↔◌, ◌⊎◌, inl, inr, refl, sym, ap, ◌∙◌, Bool-cases, true, false, List, [], ◌∷◌, ◌++◌,
  if◌then◌else◌,
}
use go_io.Common.Bytes.{Bytes, str_eq, str_eq_iff, str_eq_refl}
use go_io.Common.Results.{Result, ok, err, Result-cases}
use go_io.CoreText
use go_io.CoreText.{CoreText}
use go_io.PathText.{PathText}
use go_io.Local.{
  Platform, System, is_not_exist, member, dir_separator, normalise_path, split_path_parts,
  clean_sandbox_path, is_within_root,
}
use go_io.Local.Links.{validate_part, validate_parts, validate_path, resolve_symlinks_path}

-- What `core.Path` does: the separator is clean, and a part of a clean path is put below a path.
pub record IsCleaning (c : CoreText) (t : PathText) (p : Platform) : Type 0 where
  pub path_root : p.path (dir_separator c t p ∷ []) ≡ dir_separator c t p
  pub path_child :
      (segments : List Bytes) (current part : Bytes)
      → member part (split_path_parts c t p (p.path segments)) ≡ true
      → p.path (p.path (current ∷ part ∷ []) ∷ []) ≡ (
          if str_eq (p.path (current ∷ [])) (dir_separator c t p)
          then dir_separator c t p ++ part
          else p.path (current ∷ []) ++ (dir_separator c t p ++ part))

module _ (c : CoreText) (K : CoreText.IsLawful c) (t : PathText) (p : Platform)
    (P : IsCleaning c t p) where
  -- A prefix that ends in a separator stays one when more is appended.
  below_append :
      (path root sep more : Bytes)
      → c.has_prefix path (root ++ sep) ≡ true
      → c.has_prefix (path ++ more) (root ++ sep) ≡ true
  below_append path root sep more h =
      let (rest, e) = (K.has_prefix_iff path (root ++ sep)).0 h in
      (K.has_prefix_iff (path ++ more) (root ++ sep)).1
        (rest ++ more, ap (λ x. x ++ more) e ∙ append_assoc (root ++ sep) rest more)

  below_child : (root sep part : Bytes) → c.has_prefix (root ++ (sep ++ part)) (root ++ sep) ≡ true
  below_child root sep part =
      (K.has_prefix_iff (root ++ (sep ++ part)) (root ++ sep)).1
        (part, sym (append_assoc root sep part))

  -- The three ways to be inside.
  abbrev Inside : Bytes → Bytes → Type 0
  Inside root target =
      (p.path (root ∷ []) ≡ dir_separator c t p)
      ⊎ ((p.path (target ∷ []) ≡ p.path (root ∷ []))
          ⊎ (c.has_prefix (p.path (target ∷ [])) (p.path (root ∷ []) ++ dir_separator c t p)
              ≡ true))

  is_within_root_iff :
      (root target : Bytes) → (is_within_root c t p root target ≡ true) ↔ Inside root target
  unfolding is_within_root
  is_within_root_iff root target =
      let top = str_eq_iff (p.path (root ∷ [])) (dir_separator c t p) in
      let same = str_eq_iff (p.path (target ∷ [])) (p.path (root ∷ [])) in ground (arith, top, same)

  -- A target in a root: the root is the whole file system, or the target is the root, or it is the
  -- root, a separator and more.
  abbrev pub IsUnder : Bytes → Bytes → Type 0
  IsUnder root target =
      (p.path (root ∷ []) ≡ dir_separator c t p)
      ⊎ ((p.path (target ∷ []) ≡ p.path (root ∷ []))
          ⊎ ((rest : Bytes) × (p.path (target ∷ [])
                ≡ (p.path (root ∷ []) ++ dir_separator c t p) ++ rest)))

  pub is_within_root-IsUnder :
      (root target : Bytes) → is_within_root c t p root target ≡ true → IsUnder root target
  is_within_root-IsUnder root target h = elim ((is_within_root_iff root target).0 h) [
    | inl top ↦ inl top
    | inr (inl same) ↦ inr (inl same)
    | inr (inr below) ↦ inr (
        inr (
          (K.has_prefix_iff (p.path (target ∷ [])) (p.path (root ∷ []) ++ dir_separator c t p)).0
            below))
  ]

  is_within_root_child :
      (segments : List Bytes) (root current part : Bytes)
      → member part (split_path_parts c t p (p.path segments)) ≡ true
      → is_within_root c t p root current ≡ true
      → is_within_root c t p root (p.path (current ∷ part ∷ [])) ≡ true
  is_within_root_child segments root current part known inside =
      let sep = dir_separator c t p in
      let at = p.path (current ∷ []) in
      let child = P.path_child segments current part known in
      (is_within_root_iff root (p.path (current ∷ part ∷ []))).1
        (elim ((is_within_root_iff root current).0 inside) [
          | inl top ↦ inl top
          | inr (inl same) ↦ elim (Bool-cases (str_eq at sep)) [
            | inl top ↦ inl (sym same ∙ (str_eq_iff at sep).0 top)
            | inr under ↦
                let put : p.path (p.path (current ∷ part ∷ []) ∷ [])
                    ≡ p.path (root ∷ []) ++ (sep ++ part) =
                  rw (child, under, same) refl in
                inr (inr (rw (put) (below_child (p.path (root ∷ [])) sep part)))
          ]
          | inr (inr below) ↦ elim (Bool-cases (str_eq at sep)) [
            | inl top ↦
                let put : p.path (p.path (current ∷ part ∷ []) ∷ []) ≡ at ++ part =
                  rw (child, top) (ap (λ x. x ++ part) (sym ((str_eq_iff at sep).0 top))) in
                inr (inr (rw (put) (below_append at (p.path (root ∷ [])) sep part below)))
            | inr under ↦ inr (
                inr (
                  rw (child, under) (below_append at (p.path (root ∷ [])) sep (sep ++ part) below)))
          ]
        ])

  clean_sandbox_path_segments :
      (path : Bytes)
      → clean_sandbox_path c t p path
        ≡ p.path ((dir_separator c t p ++ normalise_path c t p path) ∷ [])
  unfolding clean_sandbox_path
  clean_sandbox_path_segments path = refl

  is_within_root_self : (root : Bytes) → is_within_root c t p root root ≡ true
  is_within_root_self root = (is_within_root_iff root root).1 (inr (inl refl))

  is_within_root_top :
      (root target : Bytes)
      → str_eq root (dir_separator c t p) ≡ true
      → is_within_root c t p root target ≡ true
  is_within_root_top root target h =
      let top : root ≡ dir_separator c t p = (str_eq_iff root (dir_separator c t p)).0 h in
      (is_within_root_iff root target).1 (inl (ap (λ r. p.path (r ∷ [])) top ∙ P.path_root))

  module _ (o : System) (rounds depth : ℕ) where
    validate_part_inside :
        (segments : List Bytes) (root current part resolved : Bytes) (r : Result Bytes)
        → member part (split_path_parts c t p (p.path segments)) ≡ true
        → is_within_root c t p root current ≡ true
        → validate_part c t p o rounds depth root (p.path (current ∷ part ∷ [])) r ≡ ok resolved
        → is_within_root c t p root resolved ≡ true
    validate_part_inside segments root current part resolved (ok real) known inside e =
        elim (Bool-cases (is_within_root c t p root real)) [
          | inl within ↦
              let same : real ≡ resolved = ground (arith, within, e) in
              subst (λ r. is_within_root c t p root r ≡ true) same within
          | inr outside ↦ absurd (ground (arith, outside, e))
        ]
    validate_part_inside segments root current part resolved (err x) known inside e =
        elim (Bool-cases (is_not_exist x)) [
          | inl gone ↦
              let same : p.path (current ∷ part ∷ []) ≡ resolved = ground (arith, gone, e) in
              subst (λ r. is_within_root c t p root r ≡ true) same
                (is_within_root_child segments root current part known inside)
          | inr other ↦ absurd (ground (arith, other, e))
        ]

    validate_parts_inside :
        (s : o.storage.State) (segments : List Bytes) (root current resolved : Bytes)
        (parts : List Bytes)
        → ((part : Bytes)
            → member part parts ≡ true
            → member part (split_path_parts c t p (p.path segments)) ≡ true)
        → is_within_root c t p root current ≡ true
        → validate_parts c t p o rounds depth s root current parts ≡ ok resolved
        → is_within_root c t p root resolved ≡ true
    unfolding validate_parts member
    validate_parts_inside s segments root current resolved [] known inside e =
        let same : current ≡ resolved = cc in
        subst (λ r. is_within_root c t p root r ≡ true) same inside
    validate_parts_inside s segments root current resolved (part ∷ parts) known inside e =
        let next = p.path (current ∷ part ∷ []) in
        let real = resolve_symlinks_path c t p o rounds depth s next in
        elim (Result-cases (validate_part c t p o rounds depth root next real)) [
          | inr (x, failed) ↦ absurd (ground (arith, failed, e))
          | inl (step, done) ↦
              validate_parts_inside s segments root step resolved parts
                (λ q m. known q (ground (arith, m)))
                (validate_part_inside segments root current part step real
                  (known part (ground (arith, str_eq_refl part))) inside done)
                (ground (arith, done, e))
        ]

    validate_path_parts :
        (s : o.storage.State) (root path : Bytes)
        → str_eq root (dir_separator c t p) ≡ false
        → validate_path c t p o rounds depth s root path
          ≡ validate_parts c t p o rounds depth s root root
              (split_path_parts c t p (clean_sandbox_path c t p path))
    unfolding validate_path
    validate_path_parts s root path under = ground (arith, under)

    -- A path that is validated is inside the root, whatever links the file system has.
    pub validate_path_inside :
        (s : o.storage.State) (root path resolved : Bytes)
        → validate_path c t p o rounds depth s root path ≡ ok resolved
        → is_within_root c t p root resolved ≡ true
    validate_path_inside s root path resolved e =
        elim (Bool-cases (str_eq root (dir_separator c t p))) [
          | inl top ↦ is_within_root_top root resolved top
          | inr under ↦
              let parts = split_path_parts c t p (clean_sandbox_path c t p path) in
              validate_parts_inside s ((dir_separator c t p ++ normalise_path c t p path) ∷ []) root
                root resolved parts
                (λ part m.
                  subst (λ x. member part (split_path_parts c t p x) ≡ true)
                    (clean_sandbox_path_segments path) m)
                (is_within_root_self root) (sym (validate_path_parts s root path under) ∙ e)
        ]
