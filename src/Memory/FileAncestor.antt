-- ===== src/Memory/FileAncestor.antt =====
-- The walk of `WriteMode` finds an ancestor that is stored as a file, if there is one.
use native.Mathlib.Omega.{arith}
use mathlib.Core.Path.{subst}
use go_io.Common.{ℕ, zero, suc, ◌<◌, ◌≡◌, ◌↔◌, refl, true, false, inl, inr, Bool-cases}
use go_io.Common.Lists.{length}
use go_io.Common.Bytes.{Bytes, str_eq, str_eq_iff}
use go_io.Common.GoMap.{GoMap, has_key}
use go_io.CoreText
use go_io.CoreText.{CoreText}
use go_io.Memory.{is_top, ancestor_is_file}
use go_io.Memory.Ancestors.{Reaches, here, up, Reaches-below, Reaches-root, Reaches-split, shorter}

-- An ancestor, or the path itself, is a key of the files.
abbrev pub FileOn : CoreText → Bytes → GoMap Bytes → Type 0
FileOn c p files = (a : Bytes) × Reaches c p a × (has_key a files ≡ true)

module _ (c : CoreText) (fuel : ℕ) (p : Bytes) (files : GoMap Bytes) where
  walk_top : is_top p ≡ true → ancestor_is_file c (suc fuel) p files ≡ false
  unfolding ancestor_is_file
  walk_top top = ground arith

  walk_found :
      is_top p ≡ false → has_key p files ≡ true → ancestor_is_file c (suc fuel) p files ≡ true
  unfolding ancestor_is_file
  walk_found below found = ground arith

  walk_stay :
      is_top p ≡ false
      → has_key p files ≡ false
      → str_eq (c.path_dir p) p ≡ true
      → ancestor_is_file c (suc fuel) p files ≡ false
  unfolding ancestor_is_file
  walk_stay below absent stay = ground arith

  walk_go :
      is_top p ≡ false
      → has_key p files ≡ false
      → str_eq (c.path_dir p) p ≡ false
      → ancestor_is_file c (suc fuel) p files ≡ ancestor_is_file c fuel (c.path_dir p) files
  unfolding ancestor_is_file
  walk_go below absent go = ground arith

module _ (c : CoreText) where
  ancestor_is_file_sound :
      (fuel : ℕ) (p : Bytes) (files : GoMap Bytes)
      → ancestor_is_file c fuel p files ≡ true
      → FileOn c p files
  ancestor_is_file_sound zero p files h = absurd (unfold ancestor_is_file in cc)
  ancestor_is_file_sound (suc fuel) p files h =
      let ih = ancestor_is_file_sound fuel (c.path_dir p) files in
      elim (Bool-cases (is_top p)) [
        | inl top ↦ absurd (cc (walk_top c fuel p files top))
        | inr below ↦ elim (Bool-cases (has_key p files)) [
          | inl found ↦ (p, here below, found)
          | inr absent ↦ elim (Bool-cases (str_eq (c.path_dir p) p)) [
            | inl stay ↦ absurd (cc (walk_stay c fuel p files below absent stay))
            | inr go ↦
                let (a, r, found) = ih (rw (walk_go c fuel p files below absent go) at h) in
                (a, up below r, found)
          ]
        ]
      ]

  ancestor_is_file_complete :
      (fuel : ℕ) (p a : Bytes) (files : GoMap Bytes)
      → CoreText.IsLawful c
      → length p < fuel
      → Reaches c p a
      → has_key a files ≡ true
      → ancestor_is_file c fuel p files ≡ true
  ancestor_is_file_complete zero p a files L lt r found = absurd (omega arith)
  ancestor_is_file_complete (suc fuel) p a files L lt r found =
      let below = Reaches-below c p a r in
      let ih = ancestor_is_file_complete fuel (c.path_dir p) a files L in
      elim (Bool-cases (has_key p files)) [
        | inl own ↦ walk_found c fuel p files below own
        | inr absent ↦ elim (Bool-cases (str_eq (c.path_dir p) p)) [
          | inl stay ↦
              let root = (str_eq_iff (c.path_dir p) p).0 stay in
              let same : a ≡ p = Reaches-root c p p a r refl root in
              let own : has_key p files ≡ true = subst (λ k. has_key k files ≡ true) same found in
              absurd (cc own)
          | inr go ↦ rw (walk_go c fuel p files below absent go) (elim (Reaches-split c p a r) [
            | inl same ↦
                let own : has_key p files ≡ true = subst (λ k. has_key k files ≡ true) same found in
                absurd (cc own)
            | inr r' ↦ ih (shorter c p a L r' lt go) r' found
          ])
        ]
      ]

  -- With fuel for the length of the path the walk decides whether an ancestor is a file.
  pub ancestor_is_file_iff :
      (fuel : ℕ) (p : Bytes) (files : GoMap Bytes)
      → CoreText.IsLawful c
      → length p < fuel
      → (ancestor_is_file c fuel p files ≡ true) ↔ FileOn c p files
  ancestor_is_file_iff fuel p files L lt = (
    ancestor_is_file_sound fuel p files,
    λ (a, r, found). ancestor_is_file_complete fuel p a files L lt r found,
  )
