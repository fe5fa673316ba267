-- ===== src/Local/Plain.antt =====
-- A `Platform` with slashes and no variables that meets the assumptions, for runs and witnesses.
use native.Mathlib.Omega.{arith}
use mathlib.Core.Path.{subst}
use mathlib.Core.List.{append_assoc}
use go_io.Common.{
  ◌≡◌, inl, inr, refl, sym, ap, ◌∙◌, Bool-cases, Bool, true, false, ◌&&◌, List, [], ◌∷◌, ◌++◌,
  if◌then◌else◌,
}
use go_io.Common.Bytes.{Bytes, str_eq, str_eq_iff}
use go_io.CoreText.{slash}
use go_io.CoreText.Parts.{split_on, join_on, is_kept, kept, starts_with_slash, clean}
use go_io.CoreText.Plain.{plain, starts, trim}
use go_io.PathText.Plain.{
  plain_paths, split-append, slash_free, split_on-slash_free, kept-slash_free, split_on-join_on,
}
use go_io.Local.{System, Platform, member, non_empty, dir_separator, split_path_parts}
use go_io.Local.Links.Real.{IsParted}
use go_io.Local.Inside.{IsCleaning}

abbrev pub plain_platform : Platform
plain_platform = record {
  env = λ name. [];
  path_is_abs = λ path. starts path slash;
  path = λ segments. clean (b'/' ∷ join_on b'/' segments);
}

unfoldable all_kept : List Bytes → Bool
unfolding is_kept
all_kept [] = true
all_kept (part ∷ parts) = is_kept part && all_kept parts

kept-all_kept : (parts : List Bytes) → all_kept (kept parts) ≡ true
unfolding kept all_kept
kept-all_kept [] = refl
kept-all_kept (part ∷ parts) = ground (arith, kept-all_kept parts)

all_kept-kept : (parts : List Bytes) → all_kept parts ≡ true → kept parts ≡ parts
unfolding kept all_kept
all_kept-kept [] h = refl
all_kept-kept (part ∷ parts) h = ground (arith, all_kept-kept parts)

kept-append : (xs ys : List Bytes) → kept (xs ++ ys) ≡ kept xs ++ kept ys
unfolding kept
kept-append [] ys = refl
kept-append (x ∷ xs) ys = ground (arith, kept-append xs ys)

kept-kept : (parts : List Bytes) → kept (kept parts) ≡ kept parts
kept-kept parts = all_kept-kept (kept parts) (kept-all_kept parts)

-- The path of one segment has the parts of the segment.
path_one : (s : Bytes) → plain_platform.path (s ∷ []) ≡ b'/' ∷ join_on b'/' (kept (split_on b'/' s))
unfolding clean join_on split_on kept starts_with_slash is_kept str_eq
path_one s = refl

path_two :
    (s q : Bytes)
    → plain_platform.path (s ∷ q ∷ [])
      ≡ b'/' ∷ join_on b'/' (kept (split_on b'/' s) ++ kept (split_on b'/' q))
unfolding clean join_on starts_with_slash
path_two s q =
    ap (λ parts. b'/' ∷ join_on b'/' parts)
      (ap kept (split-append s q) ∙ kept-append (split_on b'/' s) (split_on b'/' q))

all_kept-append :
    (xs ys : List Bytes) → all_kept xs ≡ true → all_kept ys ≡ true → all_kept (xs ++ ys) ≡ true
unfolding all_kept
all_kept-append [] ys hx hy = hy
all_kept-append (x ∷ xs) ys hx hy = ground (arith, all_kept-append xs ys)

slash_free-append :
    (xs ys : List Bytes)
    → slash_free xs ≡ true
    → slash_free ys ≡ true
    → slash_free (xs ++ ys) ≡ true
unfolding slash_free
slash_free-append [] ys hx hy = hy
slash_free-append (x ∷ xs) ys hx hy = ground (arith, slash_free-append xs ys)

-- A list of kept parts is what the path of its join has.
kept-split_on-join_on :
    (parts : List Bytes)
    → slash_free parts ≡ true
    → all_kept parts ≡ true
    → kept (split_on b'/' (join_on b'/' parts)) ≡ parts
unfolding join_on
kept-split_on-join_on [] free h = unfold split_on kept is_kept str_eq in refl
kept-split_on-join_on (part ∷ parts) free h =
    ap kept (split_on-join_on part parts free) ∙ all_kept-kept (part ∷ parts) h

kept-skip : (parts : List Bytes) → kept ([] ∷ parts) ≡ kept parts
unfolding kept is_kept str_eq
kept-skip parts = refl

-- The path of a clean path is that path.
path_clean :
    (parts : List Bytes)
    → slash_free parts ≡ true
    → all_kept parts ≡ true
    → plain_platform.path ((b'/' ∷ join_on b'/' parts) ∷ []) ≡ b'/' ∷ join_on b'/' parts
unfolding split_on
path_clean parts free h =
    path_one (b'/' ∷ join_on b'/' parts)
    ∙ ap (λ ps. b'/' ∷ join_on b'/' ps)
        (kept-skip (split_on b'/' (join_on b'/' parts)) ∙ kept-split_on-join_on parts free h)

-- What is known of a part of a clean path.
abbrev IsPart : Bytes → Type 0
IsPart part = (slash_free (part ∷ []) ≡ true) × (all_kept (part ∷ []) ≡ true)

member-IsPart :
    (part : Bytes) (parts : List Bytes)
    → slash_free parts ≡ true
    → all_kept parts ≡ true
    → member part (non_empty parts) ≡ true
    → IsPart part
unfolding member non_empty slash_free all_kept
member-IsPart part [] free h m = absurd (cc)
member-IsPart part (x ∷ parts) free h m =
    ground (arith, str_eq_iff part x, member-IsPart part parts)

split_path_parts_rooted :
    (s : Bytes)
    → split_path_parts plain plain_paths plain_platform (b'/' ∷ s)
      ≡ (if str_eq s [] then [] else non_empty (split_on b'/' s))
unfolding split_path_parts trim starts dir_separator str_eq
split_path_parts_rooted s = refl

parts-IsPart :
    (part : Bytes) (parts : List Bytes)
    → slash_free parts ≡ true
    → all_kept parts ≡ true
    → member part (split_path_parts plain plain_paths plain_platform (b'/' ∷ join_on b'/' parts))
      ≡ true
    → IsPart part
unfolding member join_on
parts-IsPart part [] free h m = absurd (ground (arith, m, split_path_parts_rooted []))
parts-IsPart part (first ∷ parts) free h m =
    let s = join_on b'/' (first ∷ parts) in
    let whole = split_path_parts_rooted s in
    let back = split_on-join_on first parts free in
    elim (Bool-cases (str_eq s [])) [
      | inl empty ↦ absurd (ground (arith, m, whole, empty))
      | inr full ↦
          let known : member part (non_empty (first ∷ parts)) ≡ true =
            subst (λ ps. member part (non_empty ps) ≡ true) back (ground (arith, m, whole, full)) in
          member-IsPart part (first ∷ parts) free h known
    ]

join_on-append :
    (x : Bytes) (xs : List Bytes) (part : Bytes)
    → join_on b'/' ((x ∷ xs) ++ (part ∷ [])) ≡ join_on b'/' (x ∷ xs) ++ b'/' ∷ part
unfolding join_on
join_on-append x [] part = refl
join_on-append x (y ∷ xs) part =
    ap (λ rest. x ++ b'/' ∷ rest) (join_on-append y xs part)
    ∙ sym (append_assoc x (b'/' ∷ join_on b'/' (y ∷ xs)) (b'/' ∷ part))

join_on_full :
    (k : Bytes) (ks : List Bytes)
    → all_kept (k ∷ ks) ≡ true
    → str_eq (join_on b'/' (k ∷ ks)) [] ≡ false
unfolding join_on all_kept is_kept str_eq
join_on_full [] ks h = absurd (cc)
join_on_full (x ∷ k) [] h = refl
join_on_full (x ∷ k) (y ∷ ks) h = refl

child :
    (ks : List Bytes) (part : Bytes)
    → all_kept ks ≡ true
    → b'/' ∷ join_on b'/' (ks ++ (part ∷ [])) ≡ (
        if str_eq (b'/' ∷ join_on b'/' ks) slash
        then slash ++ part
        else (b'/' ∷ join_on b'/' ks) ++ (slash ++ part))
unfolding join_on str_eq
child [] part h = refl
child (k ∷ ks) part h =
    rw (join_on_full k ks h) (ap (λ rest. b'/' ∷ rest) (join_on-append k ks part))

path-IsPart :
    (segments : List Bytes) (part : Bytes)
    → member part (split_path_parts plain plain_paths plain_platform (plain_platform.path segments))
      ≡ true
    → IsPart part
unfolding join_on
path-IsPart segments part known =
    let whole = split_on b'/' (join_on b'/' segments) in
    parts-IsPart part (kept whole)
      (kept-slash_free whole (split_on-slash_free (join_on b'/' segments))) (kept-all_kept whole)
      (subst (λ s. member part (split_path_parts plain plain_paths plain_platform s) ≡ true)
        (path_one (join_on b'/' segments)) known)

path_child :
    (segments : List Bytes) (current part : Bytes)
    → member part (split_path_parts plain plain_paths plain_platform (plain_platform.path segments))
      ≡ true
    → plain_platform.path (plain_platform.path (current ∷ part ∷ []) ∷ []) ≡ (
        if str_eq
          (plain_platform.path (current ∷ []))
          (dir_separator plain plain_paths plain_platform)
        then dir_separator plain plain_paths plain_platform ++ part
        else plain_platform.path (current ∷ [])
          ++ (dir_separator plain plain_paths plain_platform ++ part))
unfolding dir_separator join_on
path_child segments current part known =
    let (free, is_kept_part) = path-IsPart segments part known in
    let ks = kept (split_on b'/' current) in
    let ks_free = kept-slash_free (split_on b'/' current) (split_on-slash_free current) in
    let ks_kept = kept-all_kept (split_on b'/' current) in
    let one : kept (split_on b'/' part) ≡ part ∷ [] =
      kept-split_on-join_on (part ∷ []) free is_kept_part in
    let two : plain_platform.path (current ∷ part ∷ []) ≡ b'/' ∷ join_on b'/' (ks ++ (part ∷ [])) =
      path_two current part ∙ ap (λ x. b'/' ∷ join_on b'/' (ks ++ x)) one in
    ap (λ s. plain_platform.path (s ∷ [])) two
    ∙ path_clean (ks ++ (part ∷ [])) (slash_free-append ks (part ∷ []) ks_free free)
        (all_kept-append ks (part ∷ []) ks_kept is_kept_part)
    ∙ child ks part ks_kept
    ∙ rw (path_one current) refl

pub plain_platform-IsCleaning : IsCleaning plain plain_paths plain_platform
plain_platform-IsCleaning = record {
  path_root =
      unfold dir_separator clean join_on split_on kept is_kept starts_with_slash str_eq in refl;
  path_child = path_child;
}

pub plain_platform-IsParted : (o : System) → IsParted plain plain_paths plain_platform o
plain_platform-IsParted o = record {
  part_free = λ segments part known.
      let (free, _) = path-IsPart segments part known in
      unfold slash_free dir_separator str_eq in ground (arith, free);
}
