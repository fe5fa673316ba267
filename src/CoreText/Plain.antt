-- ===== src/CoreText/Plain.antt =====
-- A `CoreText` that meets the assumptions: plain functions over bytes, for runs and for witnesses.
-- Its `path_dir` cuts at the last slash and does not clean the path; its `clean_path` keeps a `..`.
use native.Mathlib.Omega.{arith}
use mathlib.Core.Path.{subst}
use mathlib.Core.List.{flatten}
use go_io.Common.{
  Bool-cases, ℕ, suc, ◌+◌, ◌-◌, ◌<◌, ◌≡◌, ◌↔◌, ◌⊎◌, inl, inr, refl, sym, ap, ◌∙◌, Bool, true, false,
  ◌&&◌, ◌||◌, Option, none, some, List, [], ◌∷◌, ◌++◌, ◌==◌, leb, if◌then◌else◌, Option-cases,
}
use go_io.Common.Lists.{length, take, drop, length-append, drop-append, take-append-drop}
use go_io.Common.Bytes.{Bytes, str_eq, str_eq_iff}
use go_io.CoreText.{CoreText, IsLawful, slash, dot}
use go_io.CoreText.Parts.{clean}

unfoldable pub starts : Bytes → Bytes → Bool
starts s [] = true
starts [] (y ∷ p) = false
starts (x ∷ s) (y ∷ p) = x == y && starts s p

unfoldable pub ends : Bytes → Bytes → Bool
unfolding str_eq
ends s p = leb (length p) (length s) && str_eq (drop (length s - length p) s) p

unfoldable pub holds : Bytes → Bytes → Bool
unfolding starts
holds [] part = starts [] part
holds (x ∷ s) part = starts (x ∷ s) part || holds s part

unfoldable pub trim : Bytes → Bytes → Bytes
unfolding starts
trim s p = if starts s p then drop (length p) s else s

abbrev prepend : ℕ → List Bytes → List Bytes
prepend x [] = []
prepend x (s ∷ parts) = (x ∷ s) ∷ parts

-- At the first separator.
unfoldable pub split_once : Bytes → Bytes → List Bytes
unfolding starts
split_once [] separator = [] ∷ []
split_once (x ∷ s) separator =
    let rest = prepend x (split_once s separator) in
    if starts (x ∷ s) separator then [] ∷ drop (length separator) (x ∷ s) ∷ [] else rest

-- What stands before the last slash, and after it.
unfoldable pub before_slash : Bytes → Option Bytes
before_slash [] = none
before_slash (x ∷ s) = elim (before_slash s) [
  | some p ↦ some (x ∷ p)
  | none ↦ if x == b'/' then some [] else none
]

abbrev directory : Option Bytes → Bytes
directory none = dot
directory (some []) = slash
directory (some (x ∷ p)) = x ∷ p

unfoldable pub after_slash : Bytes → Bytes
unfolding before_slash
after_slash s = elim (before_slash s) [ none ↦ s | some p ↦ drop (suc (length p)) s ]

abbrev pub plain : CoreText
plain = record {
  has_prefix = starts;
  has_suffix = ends;
  contains = holds;
  trim_prefix = trim;
  split_first = split_once;
  path_dir = λ s. directory (before_slash s);
  path_base = after_slash;
  clean_path = clean;
  concat = flatten;
}

starts_iff : (s p : Bytes) → (starts s p ≡ true) ↔ ((r : Bytes) × (s ≡ p ++ r))
unfolding starts
starts_iff s [] = (λ _. (s, refl), λ _. refl)
starts_iff [] (y ∷ p) = (λ h. absurd (cc), λ (r, e). absurd (cc))
starts_iff (x ∷ s) (y ∷ p) = (
  λ h.
      let (r, e) = (starts_iff s p).0 (ground arith) in
      let same : x ≡ y = ground arith in (r, ground arith),
  λ (r, e).
      let tails : s ≡ p ++ r = cc in
      let heads : x ≡ y = cc in ground (arith, (starts_iff s p).1 (r, tails)),
)

trim-append : (p r : Bytes) → trim (p ++ r) p ≡ r
unfolding trim
trim-append p r = ground (arith, (starts_iff (p ++ r) p).1 (r, refl), drop-append p r)

ends_iff : (s p : Bytes) → (ends s p ≡ true) ↔ ((r : Bytes) × (s ≡ r ++ p))
unfolding ends
ends_iff s p = (
  λ h.
      let k = length s - length p in
      let same : drop k s ≡ p = ground (arith, str_eq_iff (drop k s) p) in
      (take k s, sym (take-append-drop k s) ∙ ap (λ t. take k s ++ t) same),
  λ (r, e).
      let width : length s ≡ length r + length p = ap length e ∙ length-append r p in
      let k : length s - length p ≡ length r = omega arith in
      let tail : drop (length s - length p) s ≡ p =
        ap (λ n. drop n s) k ∙ ap (drop (length r)) e ∙ drop-append r p in
      ground (arith, tail, width, str_eq_iff (drop (length s - length p) s) p),
)

before_slash-shorter : (s p : Bytes) → before_slash s ≡ some p → length p < length s
unfolding before_slash
before_slash-shorter [] p e = absurd (cc)
before_slash-shorter (x ∷ s) p e = elim (Option-cases (before_slash s)) [
  | inr (q, found) ↦
      let is_p : p ≡ x ∷ q = ground arith in
      let size : length p ≡ suc (length q) = ap length is_p in
      omega (arith, before_slash-shorter s q found)
  | inl absent ↦
      let is_p : p ≡ [] = ground arith in let size : length p ≡ 0 = ap length is_p in omega arith
]

abbrev IsShorter : Bytes → Bytes → Type 0
IsShorter d s = (length d < length s) ⊎ ((d ≡ s) ⊎ (d ≡ dot))

root-IsShorter : (s : Bytes) → before_slash s ≡ some [] → IsShorter slash s
unfolding before_slash
root-IsShorter [] e = absurd (cc)
root-IsShorter (x ∷ []) e =
    let is_slash : x ≡ b'/' = ground arith in inr (inl (ap (λ b. b ∷ []) (sym is_slash)))
root-IsShorter (x ∷ y ∷ s) e = inl (omega arith)

directory-IsShorter : (s : Bytes) → IsShorter (directory (before_slash s)) s
directory-IsShorter s = by_cases (before_slash s) refl
  where
    by_cases : (o : Option Bytes) → before_slash s ≡ o → IsShorter (directory (before_slash s)) s
    by_cases none e = inr (inr (ap directory e))
    by_cases (some []) e = subst (λ d. IsShorter d s) (sym (ap directory e)) (root-IsShorter s e)
    by_cases (some (x ∷ p)) e =
        subst (λ d. IsShorter d s) (sym (ap directory e)) (inl (before_slash-shorter s (x ∷ p) e))

starts-holds : (s p : Bytes) → starts s p ≡ true → holds s p ≡ true
unfolding holds
starts-holds [] p h = h
starts-holds (x ∷ s) p h = ground (arith, h)

holds-append : (a p b : Bytes) → holds (a ++ (p ++ b)) p ≡ true
unfolding holds
holds-append [] p b = starts-holds (p ++ b) p ((starts_iff (p ++ b) p).1 (b, refl))
holds-append (x ∷ a) p b = ground (arith, holds-append a p b)

holds_split : (s p : Bytes) → holds s p ≡ true → (a : Bytes) × (b : Bytes) × (s ≡ a ++ (p ++ b))
unfolding holds
holds_split [] p h = let (r, e) = (starts_iff [] p).0 h in ([], r, e)
holds_split (x ∷ s) p h = elim (Bool-cases (starts (x ∷ s) p)) [
  | inl here ↦ let (r, e) = (starts_iff (x ∷ s) p).0 here in ([], r, e)
  | inr later ↦
      let (a, b, e) = holds_split s p (ground (arith, h, later)) in (x ∷ a, b, ap (λ t. x ∷ t) e)
]

holds_iff : (s p : Bytes) → (holds s p ≡ true) ↔ ((a : Bytes) × (b : Bytes) × (s ≡ a ++ (p ++ b)))
holds_iff s p = (holds_split s p, λ (a, b, e). ap (λ t. holds t p) e ∙ holds-append a p b)

split_one : (s : Bytes) → holds s slash ≡ false → split_once s slash ≡ s ∷ []
unfolding holds split_once
split_one [] h = refl
split_one (x ∷ s) h = ground (arith, split_one s)

split_two :
    (s : Bytes)
    → holds s slash ≡ true
    → (a : Bytes) × (b : Bytes) × (split_once s slash ≡ a ∷ b ∷ [])
      × (s ≡ a ++ (slash ++ b))
      × (holds a slash ≡ false)
unfolding holds split_once starts
split_two [] h = absurd (cc)
split_two (x ∷ s) h = elim (Bool-cases (x == b'/')) [
  | inl here ↦ ([], s, ground arith, ap (λ b. b ∷ s) (ground arith), refl)
  | inr later ↦
      let (a, b, parts, whole, none_before) = split_two s (ground arith) in
      (x ∷ a, b, ground (arith, parts), ap (λ t. x ∷ t) whole, ground (arith, none_before))
]

before_slash-none : (r : Bytes) → holds r slash ≡ false → before_slash r ≡ none
unfolding holds before_slash starts
before_slash-none [] h = refl
before_slash-none (x ∷ r) h = ground (arith, before_slash-none r)

before_slash-some :
    (p r : Bytes) → before_slash r ≡ none → before_slash (p ++ (slash ++ r)) ≡ some p
unfolding before_slash
before_slash-some [] r h = rw (h) refl
before_slash-some (x ∷ p) r h = rw (before_slash-some p r h) refl

drop_past : (p r : Bytes) → drop (suc (length p)) (p ++ (slash ++ r)) ≡ r
drop_past [] r = refl
drop_past (x ∷ p) r = drop_past p r

after_slash-last : (p r : Bytes) → holds r slash ≡ false → after_slash (p ++ (slash ++ r)) ≡ r
unfolding after_slash
after_slash-last p r h =
    ground (arith, before_slash-some p r (before_slash-none r h), drop_past p r)

-- The plain functions behave as documented.
pub plain-IsLawful : IsLawful plain
unfolding flatten
plain-IsLawful = record {
  has_prefix_iff = starts_iff;
  has_suffix_iff = ends_iff;
  contains_iff = holds_iff;
  trim_prefix-append = trim-append;
  trim_prefix_other = λ s p h. unfold trim in ground arith;
  path_dir_shorter = directory-IsShorter;
  concat-nil = refl;
  concat-cons = λ s parts. refl;
  split_first_one = split_one;
  split_first_two = split_two;
  path_base_last = λ p r h named. after_slash-last p r h;
  path_base_whole = λ r h named. unfold after_slash in ground (arith, before_slash-none r h);
}
