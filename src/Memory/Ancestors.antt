-- ===== src/Memory/Ancestors.antt =====
-- The walks over the ancestors of a path, in `ensureAncestorDirectories` and in `WriteMode`, visit
-- each ancestor, and nothing else.
use mathlib.Core.Path.{subst}
use native.Mathlib.Omega.{arith}
use go_io.Common.{
  ℕ, zero, suc, ◌<◌, ◌≡◌, ◌⊎◌, refl, ap, ◌∙◌, inl, inr, Bool, true, false, ◌||◌, Bool-cases,
}
use go_io.Common.Lists.{length}
use go_io.Common.Bytes.{Bytes, str_eq, str_eq_iff, str_eq_refl}
use go_io.Common.GoMap.{GoMap, insert, has_key, lookup-insert}
use go_io.CoreText
use go_io.CoreText.{CoreText, dot}
use go_io.Memory.{is_top, mark_ancestors}

-- `a` is the path `p` or an ancestor of it: `PathDir` leads from `p` to `a` through paths that are
-- neither "." nor empty, as `a` is.
pub data Reaches (c : CoreText) : Bytes → Bytes → Type 0 where
  here : {p : Bytes} → is_top p ≡ false → Reaches c p p
  up : {p a : Bytes} → is_top p ≡ false → Reaches c (c.path_dir p) a → Reaches c p a

module _ (c : CoreText) where
  pub Reaches-below : (p a : Bytes) → Reaches c p a → is_top p ≡ false
  Reaches-below p a (here t) = t
  Reaches-below p a (up t r) = t

  -- From a path that is its own parent only that path is reached.
  pub Reaches-root : (q p a : Bytes) → Reaches c q a → q ≡ p → c.path_dir p ≡ p → a ≡ p
  Reaches-root q p a (here t) e s = e
  Reaches-root q p a (up t r) e s = Reaches-root (c.path_dir q) p a r (ap c.path_dir e ∙ s) s

  pub Reaches-split : (p a : Bytes) → Reaches c p a → (a ≡ p) ⊎ Reaches c (c.path_dir p) a
  Reaches-split p a (here t) = inl refl
  Reaches-split p a (up t r) = inr r

  -- A proper parent from which something is reached is shorter.
  pub shorter :
      {n : ℕ} (p a : Bytes)
      → CoreText.IsLawful c
      → Reaches c (c.path_dir p) a
      → length p < suc n
      → str_eq (c.path_dir p) p ≡ false
      → length (c.path_dir p) < n
  shorter p a L r lt go = elim (L.path_dir_shorter p) [
    | inl less ↦ omega arith
    | inr (inl same) ↦ absurd (ground (arith, str_eq_iff (c.path_dir p) p))
    | inr (inr top) ↦
        absurd (ground (arith, Reaches-below (c.path_dir p) a r, str_eq_refl dot, ap is_top top))
  ]

pub has_key-insert {ℓ} :
    {V : Type ℓ} (k j : Bytes) (v : V) (m : GoMap V)
    → has_key j (insert k v m) ≡ (str_eq k j || has_key j m)
has_key-insert k j v m = ground (arith, lookup-insert k j v m)

-- The three outcomes of one round of the marking walk.
module _ (c : CoreText) (fuel : ℕ) (p : Bytes) (d : GoMap Bool) where
  mark_top : is_top p ≡ true → mark_ancestors c (suc fuel) p d ≡ d
  unfolding mark_ancestors
  mark_top top = ground arith

  mark_stay :
      is_top p ≡ false
      → str_eq (c.path_dir p) p ≡ true
      → mark_ancestors c (suc fuel) p d ≡ insert p true d
  unfolding mark_ancestors
  mark_stay below stay = ground arith

  mark_go :
      is_top p ≡ false
      → str_eq (c.path_dir p) p ≡ false
      → mark_ancestors c (suc fuel) p d ≡ mark_ancestors c fuel (c.path_dir p) (insert p true d)
  unfolding mark_ancestors
  mark_go below go = ground arith

module _ (c : CoreText) where
  marked-Reaches :
      (p k : Bytes) (d : GoMap Bool)
      → is_top p ≡ false
      → has_key k (insert p true d) ≡ true
      → (has_key k d ≡ true) ⊎ Reaches c p k
  marked-Reaches p k d below h = elim (Bool-cases (str_eq p k)) [
    | inl same ↦ inr (subst (Reaches c p) ((str_eq_iff p k).0 same) (here below))
    | inr other ↦ inl (ground (arith, has_key-insert p k true d))
  ]

  -- What is marked was marked before, or is an ancestor.
  pub mark_ancestors-Reaches :
      (fuel : ℕ) (p k : Bytes) (d : GoMap Bool)
      → has_key k (mark_ancestors c fuel p d) ≡ true
      → (has_key k d ≡ true) ⊎ Reaches c p k
  mark_ancestors-Reaches zero p k d h = inl (unfold mark_ancestors in h)
  mark_ancestors-Reaches (suc fuel) p k d h =
      let ih = mark_ancestors-Reaches fuel (c.path_dir p) k (insert p true d) in
      elim (Bool-cases (is_top p)) [
        | inl top ↦ inl (rw (mark_top c fuel p d top) at h)
        | inr below ↦ elim (Bool-cases (str_eq (c.path_dir p) p)) [
          | inl stay ↦ marked-Reaches p k d below (rw (mark_stay c fuel p d below stay) at h)
          | inr go ↦ elim (ih (rw (mark_go c fuel p d below go) at h)) [
            | inl old ↦ marked-Reaches p k d below old
            | inr r ↦ inr (up below r)
          ]
        ]
      ]

  pub has_key-mark_ancestors :
      (fuel : ℕ) (p k : Bytes) (d : GoMap Bool)
      → has_key k d ≡ true
      → has_key k (mark_ancestors c fuel p d) ≡ true
  unfolding mark_ancestors
  has_key-mark_ancestors zero p k d h = h
  has_key-mark_ancestors (suc fuel) p k d h =
      let old : has_key k (insert p true d) ≡ true = ground (arith, has_key-insert p k true d) in
      ground (arith, old, has_key-mark_ancestors fuel (c.path_dir p) k (insert p true d))

  -- With fuel for the length of the path each ancestor is marked.
  pub Reaches-mark_ancestors :
      (fuel : ℕ) (p k : Bytes) (d : GoMap Bool)
      → CoreText.IsLawful c
      → length p < fuel
      → Reaches c p k
      → has_key k (mark_ancestors c fuel p d) ≡ true
  Reaches-mark_ancestors zero p k d L lt r = absurd (omega arith)
  Reaches-mark_ancestors (suc fuel) p k d L lt r =
      let below = Reaches-below c p k r in
      let own : has_key p (insert p true d) ≡ true =
        ground (arith, has_key-insert p p true d, str_eq_refl p) in
      let ih = Reaches-mark_ancestors fuel (c.path_dir p) k (insert p true d) L in
      elim (Bool-cases (str_eq (c.path_dir p) p)) [
        | inl stay ↦
            let root = (str_eq_iff (c.path_dir p) p).0 stay in
            let same : k ≡ p = Reaches-root c p p k r refl root in
            rw (mark_stay c fuel p d below stay, same) own
        | inr go ↦ rw (mark_go c fuel p d below go) (elim (Reaches-split c p k r) [
          | inl same ↦ rw same (has_key-mark_ancestors fuel (c.path_dir p) p (insert p true d) own)
          | inr r' ↦ ih (shorter c p k L r' lt go) r'
        ])
      ]
