-- ===== src/CoreText/Prefixes.antt =====
-- What a path with a prefix is once the prefix is replaced.
use mathlib.Core.List.{append-nil}
use go_io.Common.{◌≡◌, refl, sym, ap, ◌∙◌, true, [], ◌∷◌, ◌++◌}
use go_io.Common.Bytes.{Bytes}
use go_io.CoreText.{CoreText, IsLawful}

module _ (c : CoreText) (L : IsLawful c) where
  pub concat-trim_prefix : (o n r : Bytes) → c.concat (n ∷ c.trim_prefix (o ++ r) o ∷ []) ≡ n ++ r
  concat-trim_prefix o n r =
      L.concat-cons n (c.trim_prefix (o ++ r) o ∷ [])
      ∙ ap (λ t. n ++ t)
          (L.concat-cons (c.trim_prefix (o ++ r) o) []
            ∙ ap (λ t. c.trim_prefix (o ++ r) o ++ t) L.concat-nil
            ∙ append-nil (c.trim_prefix (o ++ r) o)
            ∙ L.trim_prefix-append o r)

  pub has_prefix-append : (p r : Bytes) → c.has_prefix (p ++ r) p ≡ true
  has_prefix-append p r = (L.has_prefix_iff (p ++ r) p).1 (r, refl)

  -- A path with a prefix is the prefix and what is left without it.
  pub append-trim_prefix :
      (path prefix : Bytes)
      → c.has_prefix path prefix ≡ true
      → path ≡ prefix ++ c.trim_prefix path prefix
  append-trim_prefix path prefix below =
      let (r, e) = (L.has_prefix_iff path prefix).0 below in
      e
      ∙ ap (λ t. prefix ++ t)
          (sym (ap (λ t. c.trim_prefix t prefix) e ∙ L.trim_prefix-append prefix r))
