-- ===== src/Memory/Listing/Shown.antt =====
-- When a path shows a name in a directory, by the functions of go/io.go and by itself.
use native.Mathlib.Omega.{arith}
use go_io.Common.{
  ◌≡◌, ◌↔◌, refl, sym, ap, ◌∙◌, inl, inr, Bool, Bool-cases, true, false, not, ◌&&◌, [], ◌∷◌, ◌++◌,
}
use go_io.Common.Bytes.{Bytes, str_eq, str_eq_iff, str_eq_refl}
use go_io.CoreText
use go_io.CoreText.{CoreText, slash}
use go_io.Entries.Parts.{IsSlashFree, IsPart, first_slash}
use go_io.CoreText.Prefixes.{append-trim_prefix}
use mathlib.Core.Path.{subst}
use go_io.Memory.Listing.{first_of_two}

-- The path has the prefix, more follows, and the part of it up to the next slash is the name.
abbrev pub shows : CoreText → Bytes → Bytes → Bytes → Bool
shows c prefix name path =
    c.has_prefix path prefix
    && (not (str_eq (c.trim_prefix path prefix) [])
        && str_eq
            (first_of_two (c.split_first (c.trim_prefix path prefix) slash)
              (c.trim_prefix path prefix))
            name)

pub not_empty : (s a b : Bytes) → s ≡ a ++ (slash ++ b) → str_eq s [] ≡ false
unfolding str_eq
not_empty [] [] b e = absurd (cc)
not_empty [] (x ∷ a) b e = absurd (cc)
not_empty (x ∷ s) a b e = refl

module _ (c : CoreText) (L : CoreText.IsLawful c) (prefix x k : Bytes) where
  slash_free : (s : Bytes) → c.contains s slash ≡ false → IsSlashFree s
  slash_free s free held = let has = (L.contains_iff s slash).1 held in cc

  free_of_slash : (s : Bytes) → IsSlashFree s → c.contains s slash ≡ false
  free_of_slash s free = elim (Bool-cases (c.contains s slash)) [
    | inl held ↦ absurd (free ((L.contains_iff s slash).0 held))
    | inr none_held ↦ none_held
  ]

  shows-IsPart : shows c prefix x k ≡ true → IsPart prefix x k
  shows-IsPart h =
      let rest = c.trim_prefix k prefix in
      let below : c.has_prefix k prefix ≡ true = ground (arith, h) in
      let whole : k ≡ prefix ++ rest = append-trim_prefix c L k prefix below in
      let full : str_eq rest [] ≡ false = ground (arith, h) in
      let first : str_eq (first_of_two (c.split_first rest slash) rest) x ≡ true =
        ground (arith, h) in
      elim (Bool-cases (c.contains rest slash)) [
        | inl nested ↦
            let (a, b, parts, split, free) = L.split_first_two rest nested in
            let same : a ≡ x =
              (str_eq_iff a x).0 (ap (λ ps. str_eq (first_of_two ps rest) x) (sym parts) ∙ first) in
            (
              subst IsSlashFree same (slash_free a free),
              inr (b, whole ∙ ap (λ t. prefix ++ t) (split ∙ ap (λ t. t ++ (slash ++ b)) same)),
            )
        | inr flat ↦
            let parts = L.split_first_one rest flat in
            let same : rest ≡ x =
              (str_eq_iff rest x).0
                (ap (λ ps. str_eq (first_of_two ps rest) x) (sym parts) ∙ first) in
            (
              subst IsSlashFree same (slash_free rest flat),
              inl (
                (λ e. let empty = (str_eq_iff rest []).1 (same ∙ e) in cc),
                whole ∙ ap (λ t. prefix ++ t) same,
              ),
            )
      ]

  IsPart-shows : IsPart prefix x k → shows c prefix x k ≡ true
  IsPart-shows (free, inl (named, e)) =
      let below : c.has_prefix k prefix ≡ true = (L.has_prefix_iff k prefix).1 (x, e) in
      let rest : c.trim_prefix k prefix ≡ x =
        ap (λ t. c.trim_prefix t prefix) e ∙ L.trim_prefix-append prefix x in
      let parts = L.split_first_one x (free_of_slash x free) in
      let full : str_eq x [] ≡ false = elim (Bool-cases (str_eq x [])) [
        | inl empty ↦ absurd (named ((str_eq_iff x []).0 empty))
        | inr full ↦ full
      ] in
      rw (below, rest, full, parts, str_eq_refl x) refl
  IsPart-shows (free, inr (more, e)) =
      let tail = x ++ (slash ++ more) in
      let below : c.has_prefix k prefix ≡ true = (L.has_prefix_iff k prefix).1 (tail, e) in
      let rest : c.trim_prefix k prefix ≡ tail =
        ap (λ t. c.trim_prefix t prefix) e ∙ L.trim_prefix-append prefix tail in
      let nested = (L.contains_iff tail slash).1 (x, more, refl) in
      let (a, b, parts, split, clean) = L.split_first_two tail nested in
      let same : a ≡ x = first_slash a b x more (slash_free a clean) free (sym split) in
      let full = not_empty tail x more refl in
      rw (below, rest, full, parts, same, str_eq_refl x) refl

  pub shows_iff : (shows c prefix x k ≡ true) ↔ IsPart prefix x k
  shows_iff = (shows-IsPart, IsPart-shows)
