-- ===== src/PathText/Plain.antt =====
-- A `PathText` that meets the assumptions, for runs and for witnesses. Its `trim` knows the ASCII
-- space, and its separators and replaced texts are single bytes.
use native.Mathlib.Omega.{arith}
use go_io.Common.{
  ℕ, ◌≡◌, ◌⊎◌, refl, ap, ap₂, sym, ◌∙◌, inl, inr, Bool-cases, Bool, true, false, not, ◌&&◌, ◌||◌,
  List, [], ◌∷◌, ◌++◌, ◌==◌, ltb, ◌+◌, if◌then◌else◌,
}
use go_io.Common.Bytes.{Bytes, str_eq}
use go_io.CoreText.{slash, dot}
use go_io.CoreText.Plain.{plain, starts, holds}
use go_io.CoreText.Parts.{split_on, join_on, is_kept, kept, starts_with_slash, clean}
use go_io.PathText.{PathText, IsLawful, is_name, all_names, any_dot_dot, all_names-append}

unfoldable pub trim_left : Bytes → Bytes
trim_left [] = []
trim_left (x ∷ s) = let rest = trim_left s in if x == b' ' then rest else x ∷ s

unfoldable pub trim_right : Bytes → Bytes
trim_right [] = []
trim_right (x ∷ s) = elim (trim_right s) [
  | [] ↦ if x == b' ' then [] else x ∷ []
  | y ∷ rest ↦ x ∷ y ∷ rest
]

unfoldable pub lower : Bytes → Bytes
lower [] = []
lower (x ∷ s) = let rest = lower s in if ltb x b'A' || ltb b'Z' x then x ∷ rest else (x + 32) ∷ rest

abbrev replace_byte : Bytes → ℕ → Bytes → Bytes
replace_byte [] b new = []
replace_byte (x ∷ s) b new =
    let rest = replace_byte s b new in if x == b then new ++ rest else x ∷ rest

abbrev replace : Bytes → Bytes → Bytes → Bytes
replace s [] new = s
replace s (b ∷ old) new = replace_byte s b new

abbrev split : Bytes → Bytes → List Bytes
split s [] = s ∷ []
split s (b ∷ separator) = split_on b s

unfoldable pub non_empty : List Bytes → List Bytes
non_empty [] = []
non_empty ([] ∷ parts) = non_empty parts
non_empty ((x ∷ part) ∷ parts) = (x ∷ part) ∷ non_empty parts

abbrev pub plain_paths : PathText
plain_paths = record {
  trim = λ s. trim_right (trim_left s);
  lower = lower;
  replace = replace;
  split = split;
  path_join = λ parts. clean (join_on b'/' (non_empty parts));
}

split_one : (s : Bytes) → holds s slash ≡ false → split_on b'/' s ≡ s ∷ []
unfolding holds starts split_on
split_one [] h = refl
split_one (x ∷ s) h = ground (arith, split_one s)

split_on-cons : (b : ℕ) (s : Bytes) → (p : Bytes) × (ps : List Bytes) × (split_on b s ≡ p ∷ ps)
unfolding split_on
split_on-cons b [] = ([], [], refl)
split_on-cons b (x ∷ s) =
    let (p, ps, e) = split_on-cons b s in
    elim (Bool-cases (x == b)) [
      | inl here ↦ ([], split_on b s, ground arith)
      | inr there ↦ (x ∷ p, ps, ground (arith, e))
    ]

pub split-append :
    (a b : Bytes) → split_on b'/' (a ++ (slash ++ b)) ≡ split_on b'/' a ++ split_on b'/' b
unfolding split_on
split-append [] b = refl
split-append (x ∷ a) b =
    let (p, ps, e) = split_on-cons b'/' a in ground (arith, split-append a b, e)

-- No part of a path has a slash.
unfoldable pub slash_free : List Bytes → Bool
unfolding holds starts
slash_free [] = true
slash_free (part ∷ parts) = not (holds part slash) && slash_free parts

pub split_on-slash_free : (s : Bytes) → slash_free (split_on b'/' s) ≡ true
unfolding split_on slash_free holds starts
split_on-slash_free [] = refl
split_on-slash_free (x ∷ s) =
    let (p, ps, e) = split_on-cons b'/' s in ground (arith, split_on-slash_free s, e)

pub kept-slash_free :
    (parts : List Bytes) → slash_free parts ≡ true → slash_free (kept parts) ≡ true
unfolding kept slash_free
kept-slash_free [] h = refl
kept-slash_free (part ∷ parts) h = ground (arith, kept-slash_free parts)

pub split_on-join_on :
    (part : Bytes) (parts : List Bytes)
    → slash_free (part ∷ parts) ≡ true
    → split_on b'/' (join_on b'/' (part ∷ parts)) ≡ part ∷ parts
unfolding slash_free join_on
split_on-join_on part [] h = split_one part (ground arith)
split_on-join_on part (next ∷ parts) h =
    split-append part (join_on b'/' (next ∷ parts))
    ∙ ap₂ (λ a b. a ++ b) (split_one part (ground arith))
        (split_on-join_on next parts (ground arith))

join_on-cons :
    (x : ℕ) (part : Bytes) (parts : List Bytes)
    → join_on b'/' ((x ∷ part) ∷ parts) ≡ x ∷ join_on b'/' (part ∷ parts)
unfolding join_on
join_on-cons x part [] = refl
join_on-cons x part (next ∷ parts) = refl

join_on-split_on : (s : Bytes) → join_on b'/' (split_on b'/' s) ≡ s
unfolding split_on join_on
join_on-split_on [] = refl
join_on-split_on (x ∷ s) =
    let (p, ps, e) = split_on-cons b'/' s in
    let whole : join_on b'/' (p ∷ ps) ≡ s = ap (join_on b'/') (sym e) ∙ join_on-split_on s in
    elim (Bool-cases (x == b'/')) [
      | inl here ↦ ground (arith, whole, e)
      | inr there ↦ ground (arith, join_on-cons x p ps, whole, e)
    ]

kept-all_names : (parts : List Bytes) → any_dot_dot parts ≡ false → all_names (kept parts) ≡ true
unfolding kept is_kept any_dot_dot all_names is_name
kept-all_names [] h = refl
kept-all_names (part ∷ parts) h = ground (arith, kept-all_names parts)

kept_names : (parts : List Bytes) → all_names parts ≡ true → kept parts ≡ parts
unfolding kept is_kept all_names is_name
kept_names [] h = refl
kept_names (part ∷ parts) h = ground (arith, kept_names parts)

names_relative : (s : Bytes) → all_names (split_on b'/' s) ≡ true → starts_with_slash s ≡ false
unfolding split_on all_names starts_with_slash is_name str_eq
names_relative [] h = refl
names_relative (x ∷ s) h = ground arith

-- What has names is not the empty path.
or_dot_names :
    (s : Bytes) → all_names (split_on b'/' s) ≡ true → (x : ℕ) × (r : Bytes) × (s ≡ x ∷ r)
unfolding split_on all_names is_name str_eq
or_dot_names [] h = absurd (cc)
or_dot_names (x ∷ s) h = (x, s, refl)

clean_names : (s : Bytes) → all_names (split_on b'/' s) ≡ true → clean s ≡ s
unfolding clean
clean_names s h =
    let relative = names_relative s h in
    let (x, r, e) = or_dot_names s h in
    let same : join_on b'/' (kept (split_on b'/' s)) ≡ s =
      ap (join_on b'/') (kept_names (split_on b'/' s) h) ∙ join_on-split_on s in
    rw (relative, same, e) refl

clean_relative :
    (s : Bytes) (parts : List Bytes)
    → starts_with_slash s ≡ false
    → kept (split_on b'/' s) ≡ parts
    → slash_free parts ≡ true
    → all_names parts ≡ true
    → (clean s ≡ dot) ⊎ (all_names (split_on b'/' (clean s)) ≡ true)
unfolding clean join_on
clean_relative s [] relative e free names = inl (rw (relative, e) refl)
clean_relative s (part ∷ parts) relative e free names =
    let back = split_on-join_on part parts free in
    let named : all_names (split_on b'/' (join_on b'/' (part ∷ parts))) ≡ true = rw (back) names in
    let (x, r, first) = or_dot_names (join_on b'/' (part ∷ parts)) named in
    let cleaned : clean s ≡ join_on b'/' (part ∷ parts) = rw (relative, e, first) refl in
    inr (rw (cleaned) named)

starts-slash : (s : Bytes) → starts s slash ≡ false → starts_with_slash s ≡ false
unfolding starts starts_with_slash
starts-slash [] h = refl
starts-slash (x ∷ s) h = ground arith

clean-all_names :
    (s : Bytes)
    → starts s slash ≡ false
    → any_dot_dot (split_on b'/' s) ≡ false
    → (clean s ≡ dot) ⊎ (all_names (split_on b'/' (clean s)) ≡ true)
clean-all_names s relative h =
    clean_relative s (kept (split_on b'/' s)) (starts-slash s relative) refl
      (kept-slash_free (split_on b'/' s) (split_on-slash_free s))
      (kept-all_names (split_on b'/' s) h)

non_empty_names :
    (s : Bytes) (rest : List Bytes)
    → all_names (split_on b'/' s) ≡ true
    → non_empty (s ∷ rest) ≡ s ∷ non_empty rest
unfolding non_empty split_on all_names is_name str_eq
non_empty_names [] rest h = absurd (cc)
non_empty_names (x ∷ s) rest h = refl

join_one : (s : Bytes) → all_names (split_on b'/' s) ≡ true → plain_paths.path_join (s ∷ []) ≡ s
unfolding join_on non_empty
join_one s h = rw (non_empty_names s [] h) (clean_names s h)

join_two :
    (a b : Bytes)
    → all_names (split_on b'/' a) ≡ true
    → all_names (split_on b'/' b) ≡ true
    → plain_paths.path_join (a ∷ b ∷ []) ≡ a ++ (slash ++ b)
unfolding join_on non_empty
join_two a b ha hb =
    let names : all_names (split_on b'/' (a ++ (slash ++ b))) ≡ true =
      rw (split-append a b) (all_names-append (split_on b'/' a) (split_on b'/' b) ha hb) in
    rw (non_empty_names a (b ∷ []) ha, non_empty_names b [] hb)
      (clean_names (a ++ (slash ++ b)) names)

-- The plain functions behave as documented.
pub plain_paths-IsLawful : IsLawful plain plain_paths
plain_paths-IsLawful = record {
  split_one = split_one;
  split-append = split-append;
  clean_path_names = clean-all_names;
  path_join_one = join_one;
  path_join_two = join_two;
}
