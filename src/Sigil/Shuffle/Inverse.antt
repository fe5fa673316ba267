-- ===== src/Sigil/Shuffle/Inverse.antt =====
-- `ShuffleMaskObfuscator.Deobfuscate` undoes `Obfuscate`: scattering undoes gathering along a slice
-- that names every index, and the mask undoes itself.
use native.Mathlib.Omega.{arith}
use native.Mathlib.Decide.{ℕ_discrete}
use mathlib.Core.Path.{subst}
use go_io.Common.{ℕ, zero, suc, ◌<◌, ◌≡◌, refl, sym, ap, ap₂, ◌∙◌, some, List, [], ◌∷◌}
use go_io.Common.Lists.{
  length, set, get_or, get_elem?, replicate, length-set, get_elem?-set_self, get_elem?-set_ne,
  get_elem?-is_some, get_or-get_elem?, eq_of_get_elem?, length-replicate,
}
use go_io.Common.Bytes.{Bytes}
use go_io.Sigil.Digest.{Digest}
use go_io.Sigil.Xor.{xor_bytes, derive_mask}
use go_io.Sigil.Xor.Stream.{length-derive_mask}
use go_io.Sigil.Xor.Involution.{xor_bytes_twice, length-xor_bytes}
use go_io.Sigil.Shuffle.{gather, scatter, generate_permutation, obfuscate, deobfuscate}
use go_io.Sigil.Shuffle.Permutation.{IsIndexing, generate_permutation-IsIndexing}

length-gather : (xs : Bytes) (p : List ℕ) → length (gather xs p) ≡ length p
unfolding gather
length-gather xs [] = refl
length-gather xs (s ∷ p) = ap suc (length-gather xs p)

length-scatter : (xs : Bytes) (p : List ℕ) (r : Bytes) → length (scatter xs p r) ≡ length r
unfolding scatter
length-scatter xs [] r = refl
length-scatter [] (s ∷ p) r = refl
length-scatter (b ∷ xs) (s ∷ p) r = length-scatter xs p (set r s b) ∙ length-set r s b

module _ (xs : Bytes) (j : ℕ) where
  abbrev Within : List ℕ → Type 0
  Within p = (d k : ℕ) → get_elem? p d ≡ some k → k < length xs

  -- A write puts the value of `xs` at its index.
  write_at :
      (s : ℕ) (r : Bytes)
      → s < length xs
      → length r ≡ length xs
      → get_elem? (set r s (get_or xs s 0)) s ≡ get_elem? xs s
  write_at s r lt size =
      let (a, e) = get_elem?-is_some xs s lt in
      get_elem?-set_self r s (get_or xs s 0) (omega arith)
      ∙ ap some (get_or-get_elem? xs s a 0 e)
      ∙ sym e

  write_keeps :
      (s : ℕ) (r : Bytes)
      → s < length xs
      → length r ≡ length xs
      → get_elem? r j ≡ get_elem? xs j
      → get_elem? (set r s (get_or xs s 0)) j ≡ get_elem? xs j
  write_keeps s r lt size same = elim (ℕ_discrete s j) [
    | yes e ↦
        ap (get_elem? (set r s (get_or xs s 0))) (sym e)
        ∙ write_at s r lt size
        ∙ ap (get_elem? xs) e
    | no ne ↦ get_elem?-set_ne r s j (get_or xs s 0) ne ∙ same
  ]

  scatter_keeps :
      (p : List ℕ) (r : Bytes)
      → Within p
      → length r ≡ length xs
      → get_elem? r j ≡ get_elem? xs j
      → get_elem? (scatter (gather xs p) p r) j ≡ get_elem? xs j
  unfolding scatter gather
  scatter_keeps [] r w size same = same
  scatter_keeps (s ∷ p) r w size same =
      scatter_keeps p (set r s (get_or xs s 0)) (λ d k e. w (suc d) k e) (length-set r s _ ∙ size)
        (write_keeps s r (w 0 s refl) size same)

  scatter_covers :
      (p : List ℕ) (r : Bytes) (d : ℕ)
      → Within p
      → length r ≡ length xs
      → get_elem? p d ≡ some j
      → get_elem? (scatter (gather xs p) p r) j ≡ get_elem? xs j
  unfolding scatter gather
  scatter_covers [] r d w size e = cc
  scatter_covers (s ∷ p) r zero w size e =
      let same : s ≡ j = ground arith in
      let start : get_elem? (set r s (get_or xs s 0)) j ≡ get_elem? xs j =
        ap (get_elem? (set r s (get_or xs s 0))) (sym same)
        ∙ write_at s r (w 0 s refl) size
        ∙ ap (get_elem? xs) same in
      scatter_keeps p (set r s (get_or xs s 0)) (λ d k q. w (suc d) k q) (length-set r s _ ∙ size)
        start
  scatter_covers (s ∷ p) r (suc d) w size e =
      scatter_covers p (set r s (get_or xs s 0)) d (λ i k q. w (suc i) k q)
        (length-set r s _ ∙ size) e

pub scatter-gather :
    (xs : Bytes) (p : List ℕ) (r : Bytes)
    → IsIndexing (length xs) p
    → length r ≡ length xs
    → scatter (gather xs p) p r ≡ xs
scatter-gather xs p r v size =
    eq_of_get_elem? (scatter (gather xs p) p r) xs (length-scatter (gather xs p) p r ∙ size) λ j lt.
      let (d, e) = v.covers j (omega (arith, length-scatter (gather xs p) p r)) in
      scatter_covers xs j p r d v.within size e

module _ (h : Digest) (entropy : Bytes) where
  obfuscate-gather :
      (payload : Bytes)
      → obfuscate h payload entropy
        ≡ gather
            (xor_bytes payload (derive_mask h entropy (length payload)))
            (generate_permutation h entropy (length payload))
  unfolding obfuscate
  obfuscate-gather [] = refl
  obfuscate-gather (b ∷ rest) = ground arith

  deobfuscate-scatter :
      (payload : Bytes)
      → deobfuscate h payload entropy
        ≡ xor_bytes
            (scatter payload
              (generate_permutation h entropy (length payload))
              (replicate (length payload) 0))
            (derive_mask h entropy (length payload))
  unfolding deobfuscate
  deobfuscate-scatter [] = refl
  deobfuscate-scatter (b ∷ rest) = ground arith

module _ (h : Digest) (payload entropy : Bytes) where
  abbrev mask : Bytes
  mask = derive_mask h entropy (length payload)

  abbrev permutation : List ℕ
  permutation = generate_permutation h entropy (length payload)

  mask_width : length payload ≡ length mask
  mask_width = sym (length-derive_mask h entropy (length payload))

  pub length-obfuscate : length (obfuscate h payload entropy) ≡ length payload
  length-obfuscate =
      ap length (obfuscate-gather h entropy payload)
      ∙ length-gather (xor_bytes payload mask) permutation
      ∙ (generate_permutation-IsIndexing h entropy (length payload)).size

  restored :
      scatter
        (gather (xor_bytes payload mask) permutation)
        permutation
        (replicate (length payload) 0)
      ≡ xor_bytes payload mask
  restored =
      let width = length-xor_bytes payload mask mask_width in
      scatter-gather (xor_bytes payload mask) permutation (replicate (length payload) 0)
        (subst (λ n. IsIndexing n permutation) (sym width)
          (generate_permutation-IsIndexing h entropy (length payload)))
        (length-replicate (length payload) 0 ∙ sym width)

  -- `Deobfuscate` with the entropy of `Obfuscate` gives the data back, for every hash, slice and entropy.
  pub deobfuscate-obfuscate : deobfuscate h (obfuscate h payload entropy) entropy ≡ payload
  deobfuscate-obfuscate =
      deobfuscate-scatter h entropy (obfuscate h payload entropy)
      ∙ ap₂
          (λ s n.
            xor_bytes (scatter s (generate_permutation h entropy n) (replicate n 0))
              (derive_mask h entropy n))
          (obfuscate-gather h entropy payload) length-obfuscate
      ∙ ap (λ s. xor_bytes s mask) restored
      ∙ xor_bytes_twice payload mask mask_width
