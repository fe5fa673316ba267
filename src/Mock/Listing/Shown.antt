-- ===== src/Mock/Listing/Shown.antt =====
-- When a path shows a name in a directory, by the functions of go/mock.go and by itself.
use native.Mathlib.Omega.{arith}
use go_io.Common.{
  ◌≡◌, ◌≢◌, ◌⊎◌, ◌++◌, ◌==◌, refl, sym, ap, ◌∙◌, inl, inr, Bool, Bool-cases, Option, true, false,
  not, ◌&&◌, none, some, [], ◌∷◌,
}
use mathlib.Core.Path.{subst}
use go_io.Common.Lists.{
  length, take, drop, length-append, take-append, drop-append, take-append-drop,
}
use go_io.Common.Bytes.{Bytes, str_eq, str_eq_iff}
use go_io.CoreText.{slash, dot}
use go_io.Entries.Parts.{IsSlashFree, IsPart, first_slash, cons-IsSlashFree, nil-IsSlashFree}
use go_io.Mock.Listing.{is_below, first_path_component, mock_list_prefix}

-- The first component of a path below the prefix.
abbrev pub or_whole : Option Bytes → Bytes → Bytes
or_whole none rest = rest
or_whole (some name) rest = name

abbrev pub component : Bytes → Bytes → Bytes
component prefix path =
    or_whole (first_path_component (drop (length prefix) path)) (drop (length prefix) path)

-- The path is below the prefix and its first component, which is not empty, is the name.
abbrev pub shows : Bytes → Bytes → Bytes → Bool
shows prefix name path =
    is_below prefix path
    && (not (str_eq (component prefix path) []) && str_eq (component prefix path) name)

-- The paths below `path` start with `start`: the empty path and the dot are the root.
abbrev pub IsMockStart : Bytes → Bytes → Type 0
IsMockStart path start =
    (((path ≡ []) ⊎ (path ≡ dot)) × (start ≡ []))
    ⊎ ((path ≢ []) × (path ≢ dot) × (start ≡ path ++ slash))

pub mock_list_prefix-start :
    (path start : Bytes) → IsMockStart path start → start ≡ mock_list_prefix path
mock_list_prefix-start path start (inl (root, e)) = elim root [
  | inl empty ↦ let same = (str_eq_iff path []).1 empty in ground (arith, same, e)
  | inr dotted ↦ let same = (str_eq_iff path dot).1 dotted in ground (arith, same, e)
]
mock_list_prefix-start path start (inr (full, undotted, e)) = elim (Bool-cases (str_eq path [])) [
  | inl empty ↦ absurd (full ((str_eq_iff path []).0 empty))
  | inr named ↦ elim (Bool-cases (str_eq path dot)) [
    | inl dotted ↦ absurd (undotted ((str_eq_iff path dot).0 dotted))
    | inr other ↦ ground (arith, named, other, e)
  ]
]

first_path_component-cases :
    (s : Bytes)
    → ((first_path_component s ≡ none) × IsSlashFree s)
      ⊎ ((a : Bytes) × (b : Bytes) × (first_path_component s ≡ some a)
          × (s ≡ a ++ (slash ++ b))
          × IsSlashFree a)
unfolding first_path_component
first_path_component-cases [] = inl (refl, nil-IsSlashFree)
first_path_component-cases (x ∷ s) = elim (Bool-cases (x == b'/')) [
  | inl here ↦
      inr ([], s, ground (arith, here), ap (λ b. b ∷ s) (ground (arith, here)), nil-IsSlashFree)
  | inr later ↦
      let other : x ≢ b'/' = λ e. absurd (ground (arith, later, e)) in
      elim (first_path_component-cases s) [
        | inl (nothing, free) ↦
            inl (rw (nothing) (ground (arith, later)), cons-IsSlashFree x s other free)
        | inr (a, b, found, split, free) ↦ inr (
          x ∷ a,
          b,
          rw (found) (ground (arith, later)),
          ap (λ t. x ∷ t) split,
          cons-IsSlashFree x a other free,
        )
      ]
]

below_split :
    (prefix path : Bytes) → is_below prefix path ≡ true → path ≡ prefix ++ drop (length prefix) path
unfolding is_below
below_split prefix path h =
    let same : take (length prefix) path ≡ prefix =
      (str_eq_iff (take (length prefix) path) prefix).0 (ground (arith, h)) in
    sym (take-append-drop (length prefix) path) ∙ ap (λ t. t ++ drop (length prefix) path) same

append-below : (prefix rest : Bytes) → rest ≢ [] → is_below prefix (prefix ++ rest) ≡ true
unfolding is_below
append-below prefix [] full = absurd (full refl)
append-below prefix (x ∷ rest) full =
    let same =
      (str_eq_iff (take (length prefix) (prefix ++ x ∷ rest)) prefix).1
        (take-append prefix (x ∷ rest)) in
    ground (arith, same, length-append prefix (x ∷ rest))

module _ (prefix x path : Bytes) where
  pub shows-IsPart : shows prefix x path ≡ true → (x ≢ []) × IsPart prefix x path
  shows-IsPart h =
      let rest = drop (length prefix) path in
      let whole = below_split prefix path (ground (arith, h)) in
      let same : component prefix path ≡ x =
        (str_eq_iff (component prefix path) x).0 (ground (arith, h)) in
      let named : str_eq (component prefix path) [] ≡ false = ground (arith, h) in
      let full : x ≢ [] =
        λ e. let empty = (str_eq_iff (component prefix path) []).1 (same ∙ e) in cc in
      elim (first_path_component-cases rest) [
        | inl (nothing, free) ↦
            let is_x : rest ≡ x = ap (λ o. or_whole o rest) (sym nothing) ∙ same in
            (full, (subst IsSlashFree is_x free, inl (full, whole ∙ ap (λ t. prefix ++ t) is_x)))
        | inr (a, b, found, split, free) ↦
            let is_x : a ≡ x = ap (λ o. or_whole o rest) (sym found) ∙ same in
            (
              full,
              (
                subst IsSlashFree is_x free,
                inr (b, whole ∙ ap (λ t. prefix ++ t) (split ∙ ap (λ t. t ++ (slash ++ b)) is_x)),
              ),
            )
      ]

  -- The component of a path that is put together.
  component-append :
      (rest : Bytes)
      → path ≡ prefix ++ rest
      → component prefix path ≡ or_whole (first_path_component rest) rest
  component-append rest e =
      let tail : drop (length prefix) path ≡ rest =
        ap (drop (length prefix)) e ∙ drop-append prefix rest in
      ap (λ r. or_whole (first_path_component r) r) tail

  shown :
      (rest : Bytes)
      → path ≡ prefix ++ rest
      → rest ≢ []
      → x ≢ []
      → or_whole (first_path_component rest) rest ≡ x
      → shows prefix x path ≡ true
  shown rest e full named first =
      let below : is_below prefix path ≡ true =
        ap (is_below prefix) e ∙ append-below prefix rest full in
      let same = (str_eq_iff (component prefix path) x).1 (component-append rest e ∙ first) in
      elim (Bool-cases (str_eq (component prefix path) [])) [
        | inl empty ↦
            let is_empty = (str_eq_iff (component prefix path) []).0 empty in
            absurd (named (sym ((str_eq_iff (component prefix path) x).0 same) ∙ is_empty))
        | inr some_text ↦ ground (arith, below, same, some_text)
      ]

  pub IsPart-shows : x ≢ [] → IsPart prefix x path → shows prefix x path ≡ true
  IsPart-shows named (free, inl (_, e)) = elim (first_path_component-cases x) [
    | inl (nothing, _) ↦ shown x e named named (ap (λ o. or_whole o x) nothing)
    | inr (a, b, found, split, _) ↦ absurd (free (a, b, split))
  ]
  IsPart-shows named (free, inr (more, e)) =
      let rest = x ++ (slash ++ more) in
      let full : rest ≢ [] = λ h. nil-IsSlashFree (x, more, sym h) in
      elim (first_path_component-cases rest) [
        | inl (nothing, slashless) ↦ absurd (slashless (x, more, refl))
        | inr (a, b, found, split, clean) ↦
            shown rest e full named
              (ap (λ o. or_whole o rest) found ∙ first_slash a b x more clean free (sym split))
      ]
