-- ===== src/Sigil/Shuffle/Permutation.antt =====
-- `generatePermutation` permutes the indices: each index below the length stands in its result, at
-- some place, and nothing else does.
use native.Mathlib.Omega.{arith}
use native.Mathlib.Decide.{ℕ_discrete}
use go_io.Common.{ℕ, zero, suc, ◌+◌, ◌<◌, ◌≡◌, ◌≢◌, refl, sym, ap, ap₂, ◌∙◌, some, List, ◌++◌}
use go_io.Common.Lists.{
  length, set, get_elem?, length-set, get_elem?-set_self, get_elem?-set_ne, get_elem?-is_some,
  get_elem?-lt, get_or-get_elem?,
}
use go_io.Common.Bytes.{Bytes, bytes}
use go_io.Sigil.Digest.{Digest}
use go_io.Sigil.Shuffle.{iota, swap, draw, shuffle_from, generate_permutation}

-- The entries are indices below `n`, and each index below `n` is an entry.
pub record IsIndexing (n : ℕ) (p : List ℕ) : Type 0 where
  pub size : length p ≡ n
  pub within : (d j : ℕ) → get_elem? p d ≡ some j → j < n
  pub covers : (j : ℕ) → j < n → (d : ℕ) × (get_elem? p d ≡ some j)

length-iota : (start n : ℕ) → length (iota start n) ≡ n
unfolding iota
length-iota start zero = refl
length-iota start (suc n) = ap suc (length-iota (start + 1) n)

get_elem?-iota : (start n i : ℕ) → i < n → get_elem? (iota start n) i ≡ some (start + i)
unfolding iota
get_elem?-iota start zero i h = elim h [ ]
get_elem?-iota start (suc n) zero h = ap some (omega arith)
get_elem?-iota start (suc n) (suc i) h =
    get_elem?-iota (start + 1) n i (omega arith) ∙ ap some (omega arith)

iota-IsIndexing : (n : ℕ) → IsIndexing n (iota 0 n)
iota-IsIndexing n = record {
  size = length-iota 0 n;
  within = λ d j e.
      let lt = get_elem?-lt (iota 0 n) d j e in
      let below : d < n = omega (arith, length-iota 0 n) in
      let same : some (0 + d) ≡ some j = sym (get_elem?-iota 0 n d below) ∙ e in ground arith;
  covers = λ j h. (j, get_elem?-iota 0 n j h ∙ ap some (omega arith));
}

module _ (p : List ℕ) (i j a b : ℕ) (at_i : get_elem? p i ≡ some a)
    (at_j : get_elem? p j ≡ some b) where
  abbrev swapped : List ℕ
  swapped = set (set p i b) j a

  swap-eq : swap p i j ≡ swapped
  unfolding swap
  swap-eq =
      ap₂ (λ x y. set (set p i x) j y) (get_or-get_elem? p j b 0 at_j)
        (get_or-get_elem? p i a 0 at_i)

  at_second : get_elem? swapped j ≡ some a
  at_second =
      get_elem?-set_self (set p i b) j a (omega (arith, get_elem?-lt p j b at_j, length-set p i b))

  at_first : get_elem? swapped i ≡ some b
  at_first = elim (ℕ_discrete i j) [
    | yes e ↦ ap (get_elem? swapped) e ∙ at_second ∙ sym at_i ∙ ap (get_elem? p) e ∙ at_j
    | no ne ↦
        get_elem?-set_ne (set p i b) j i a (λ e. ne (sym e))
        ∙ get_elem?-set_self p i b (get_elem?-lt p i a at_i)
  ]

  at_other : (d : ℕ) → i ≢ d → j ≢ d → get_elem? swapped d ≡ get_elem? p d
  at_other d ne_i ne_j = get_elem?-set_ne (set p i b) j d a ne_j ∙ get_elem?-set_ne p i d b ne_i

  swap-IsIndexing : (n : ℕ) → IsIndexing n p → IsIndexing n swapped
  swap-IsIndexing n v = record {
    size = length-set (set p i b) j a ∙ length-set p i b ∙ v.size;
    within = λ d k e. elim (ℕ_discrete j d) [
      | yes q ↦ v.within i k (at_i ∙ sym at_second ∙ ap (get_elem? swapped) q ∙ e)
      | no ne_j ↦ elim (ℕ_discrete i d) [
        | yes q ↦ v.within j k (at_j ∙ sym at_first ∙ ap (get_elem? swapped) q ∙ e)
        | no ne_i ↦ v.within d k (sym (at_other d ne_i ne_j) ∙ e)
      ]
    ];
    covers = λ k lt.
        let (d, e) = v.covers k lt in
        elim (ℕ_discrete j d) [
          | yes q ↦ (i, at_first ∙ sym at_j ∙ ap (get_elem? p) q ∙ e)
          | no ne_j ↦ elim (ℕ_discrete i d) [
            | yes q ↦ (j, at_second ∙ sym at_i ∙ ap (get_elem? p) q ∙ e)
            | no ne_i ↦ (d, at_other d ne_i ne_j ∙ e)
          ]
        ];
  }

module _ (h : Digest) (seed : Bytes) (n : ℕ) where
  shuffle_from-IsIndexing :
      (i : ℕ) (p : List ℕ)
      → IsIndexing n p
      → (0 < i → i < n)
      → IsIndexing n (shuffle_from h seed i p)
  unfolding shuffle_from
  shuffle_from-IsIndexing zero p v below = v
  shuffle_from-IsIndexing (suc i) p v below =
      let j = draw h seed (suc i) in
      let lt : suc i < n = below (omega arith) in
      let drawn : j < n = unfold draw in omega arith in
      let (a, at_i) = get_elem?-is_some p (suc i) (omega (arith, v.size)) in
      let (b, at_j) = get_elem?-is_some p j (omega (arith, v.size)) in
      let next : IsIndexing n (swap p (suc i) j) =
        rw (swap-eq p (suc i) j a b at_i at_j) (swap-IsIndexing p (suc i) j a b at_i at_j n v) in
      shuffle_from-IsIndexing i (swap p (suc i) j) next (λ _. omega arith)

-- For every hash, entropy and length, the entries of the generated slice are the indices below the
-- length, and each index below the length is an entry.
pub generate_permutation-IsIndexing :
    (h : Digest) (entropy : Bytes) (n : ℕ) → IsIndexing n (generate_permutation h entropy n)
unfolding generate_permutation
generate_permutation-IsIndexing h entropy zero = iota-IsIndexing 0
generate_permutation-IsIndexing h entropy (suc n) =
    shuffle_from-IsIndexing h (h.sum (entropy ++ bytes "permutation")) (suc n) n (iota 0 (suc n))
      (iota-IsIndexing (suc n)) (λ _. omega arith)
