-- ===== src/Memory/Move/Contents.antt =====
-- The contents after the loop of `renameFilesWithPrefix`, in whatever order it visits the keys.
use native.Mathlib.Omega.{arith}
use mathlib.Core.Path.{subst}
use go_io.Common.{◌≡◌, refl, ap, ◌∙◌, true, false, none, some, List, [], ◌∷◌, ◌++◌, if◌then◌else◌}
use go_io.Common.Bytes.{Bytes, str_eq, str_eq_iff, str_eq_refl, str_eq-append}
use go_io.Common.GoMap.{GoMap, lookup, insert, lookup-insert, lookup-remove}
use go_io.CoreText
use go_io.CoreText.{CoreText}
use go_io.CoreText.Prefixes.{concat-trim_prefix}
use go_io.Memory.{MemoryMedium}
use go_io.Memory.Move.{content_at, move_content, renamed, rename_files, occurs, Distinct}

pub lookup-move_content :
    (old new q : Bytes) (m : GoMap Bytes)
    → lookup q (move_content old new m) ≡ (
        if str_eq old q
        then none
        else if str_eq new q
        then some (content_at (lookup old m))
        else lookup q m)
unfolding move_content
lookup-move_content old new q m = ground (
  arith,
  lookup-remove old q (insert new (content_at (lookup old m)) m),
  lookup-insert new q (content_at (lookup old m)) m,
)

-- A text with the prefix and one without it differ.
module _ (c : CoreText) (a b p : Bytes) (has : c.has_prefix a p ≡ true)
    (lacks : c.has_prefix b p ≡ false) where
  pub differ_left : str_eq a b ≡ false
  differ_left = ground (arith, str_eq_iff a b, λ (e : a ≡ b). ap (λ t. c.has_prefix t p) e)

  pub differ_right : str_eq b a ≡ false
  differ_right = ground (arith, str_eq_iff b a, λ (e : b ≡ a). ap (λ t. c.has_prefix t p) e)

module _ (c : CoreText) (L : CoreText.IsLawful c) (o n : Bytes) where
  -- The loop, over the contents alone.
  pub move_all : List Bytes → GoMap Bytes → GoMap Bytes
  move_all [] f = f
  move_all (k ∷ keys) f = move_all keys (move_content k (renamed c o n k) f)

  pub file_contents-rename_files :
      (keys : List Bytes) (m : MemoryMedium)
      → (rename_files c o n keys m).file_contents ≡ move_all keys m.file_contents
  unfolding rename_files move_all
  file_contents-rename_files [] m = refl
  file_contents-rename_files (k ∷ keys) m = file_contents-rename_files keys _

  pub renamed-append : (r : Bytes) → renamed c o n (o ++ r) ≡ n ++ r
  unfolding renamed
  renamed-append r = concat-trim_prefix c L o n r

  abbrev pub Under : List Bytes → Type 0
  Under keys = (k : Bytes) → occurs k keys ≡ true → c.has_prefix k o ≡ true

  -- No new name starts with the old prefix.
  abbrev pub Apart : Type 0
  Apart = (r : Bytes) → c.has_prefix (n ++ r) o ≡ false

  pub has_prefix-append : (r : Bytes) → c.has_prefix (o ++ r) o ≡ true
  has_prefix-append r = (L.has_prefix_iff (o ++ r) o).1 (r, refl)

  pub has_prefix-append_new : (r : Bytes) → c.has_prefix (n ++ r) n ≡ true
  has_prefix-append_new r = (L.has_prefix_iff (n ++ r) n).1 (r, refl)

  -- The first key of a visit, taken apart.
  pub head_of : (k : Bytes) (keys : List Bytes) → Under (k ∷ keys) → (t : Bytes) × (k ≡ o ++ t)
  head_of k keys under = (L.has_prefix_iff k o).0 (under k (ground (arith, str_eq_refl k)))

  pub tail-Under : (k : Bytes) (keys : List Bytes) → Under (k ∷ keys) → Under keys
  tail-Under k keys under j h = under j (ground arith)

  -- One round, at an old name, at a new name, and elsewhere.
  step_old :
      (t r : Bytes) (f : GoMap Bytes)
      → Apart
      → lookup (o ++ r) (move_content (o ++ t) (n ++ t) f)
        ≡ (if str_eq (o ++ t) (o ++ r) then none else lookup (o ++ r) f)
  step_old t r f apart = ground (
    arith,
    lookup-move_content (o ++ t) (n ++ t) (o ++ r) f,
    differ_right c (o ++ r) (n ++ t) o (has_prefix-append r) (apart t),
  )

  step_new :
      (t r : Bytes) (f : GoMap Bytes)
      → Apart
      → lookup (n ++ r) (move_content (o ++ t) (n ++ t) f) ≡ (
          if str_eq (o ++ t) (o ++ r)
          then some (content_at (lookup (o ++ t) f))
          else lookup (n ++ r) f)
  step_new t r f apart = ground (
    arith,
    lookup-move_content (o ++ t) (n ++ t) (n ++ r) f,
    differ_left c (o ++ t) (n ++ r) o (has_prefix-append t) (apart r),
    str_eq-append o t r,
    str_eq-append n t r,
  )

  step_other :
      (t q : Bytes) (f : GoMap Bytes)
      → c.has_prefix q o ≡ false
      → c.has_prefix q n ≡ false
      → lookup q (move_content (o ++ t) (n ++ t) f) ≡ lookup q f
  step_other t q f not_old not_new = ground (
    arith,
    lookup-move_content (o ++ t) (n ++ t) q f,
    differ_left c (o ++ t) q o (has_prefix-append t) not_old,
    differ_left c (n ++ t) q n (has_prefix-append_new t) not_new,
  )

  round :
      (t : Bytes) (keys : List Bytes) (f : GoMap Bytes)
      → move_all ((o ++ t) ∷ keys) f ≡ move_all keys (move_content (o ++ t) (n ++ t) f)
  unfolding move_all
  round t keys f = ap (λ w. move_all keys (move_content (o ++ t) w f)) (renamed-append t)

  pub lookup-move_all_old :
      (keys : List Bytes) (f : GoMap Bytes) (r : Bytes)
      → Apart
      → Under keys
      → lookup (o ++ r) (move_all keys f)
        ≡ (if occurs (o ++ r) keys then none else lookup (o ++ r) f)
  lookup-move_all_old [] f r apart under = unfold move_all in refl
  lookup-move_all_old (k ∷ keys) f r apart under =
      let (t, e) = head_of k keys under in
      let ih =
        lookup-move_all_old keys (move_content (o ++ t) (n ++ t) f) r apart
          (tail-Under k keys under) in
      rw (e, round t keys f) (ground (arith, ih, step_old t r f apart))

  pub lookup-move_all_new :
      (keys : List Bytes) (f : GoMap Bytes) (r : Bytes)
      → Apart
      → Under keys
      → Distinct keys
      → lookup (n ++ r) (move_all keys f) ≡ (
          if occurs (o ++ r) keys then some (content_at (lookup (o ++ r) f)) else lookup (n ++ r) f)
  lookup-move_all_new [] f r apart under d = unfold move_all in refl
  lookup-move_all_new (k ∷ keys) f r apart under (fresh, d) =
      let (t, e) = head_of k keys under in
      let ih =
        lookup-move_all_new keys (move_content (o ++ t) (n ++ t) f) r apart
          (tail-Under k keys under) d in
      let new : occurs (o ++ t) keys ≡ false = subst (λ j. occurs j keys ≡ false) e fresh in
      rw (e, round t keys f)
        (ground (
          arith,
          ih,
          step_new t r f apart,
          step_old t r f apart,
          new,
          str_eq_iff (o ++ t) (o ++ r),
          λ (q : o ++ t ≡ o ++ r). ap (λ j. occurs j keys) q,
          λ (q : o ++ t ≡ o ++ r). ap (λ j. content_at (lookup j f)) q,
        ))

  pub lookup-move_all_other :
      (keys : List Bytes) (f : GoMap Bytes) (q : Bytes)
      → Under keys
      → c.has_prefix q o ≡ false
      → c.has_prefix q n ≡ false
      → lookup q (move_all keys f) ≡ lookup q f
  lookup-move_all_other [] f q under not_old not_new = unfold move_all in refl
  lookup-move_all_other (k ∷ keys) f q under not_old not_new =
      let (t, e) = head_of k keys under in
      let next = move_content (o ++ t) (n ++ t) f in
      rw (e, round t keys f)
        (lookup-move_all_other keys next q (tail-Under k keys under) not_old not_new
          ∙ step_other t q f not_old not_new)
