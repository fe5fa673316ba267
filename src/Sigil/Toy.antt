-- ===== src/Sigil/Toy.antt =====
-- Stand-ins for the hash, the AEAD and the random source, for runs and witnesses.
use native.Mathlib.Omega.{arith}
use go_io.Common.{
  ℕ, zero, suc, ◌*◌, ◌+◌, ◌-◌, ◌%◌, ◌<◌, ◌≡◌, refl, ap, ◌∙◌, none, some, [], ◌∷◌, ◌++◌, ltb,
  if◌then◌else◌,
}
use go_io.Common.Lists.{length, take, replicate, length-append, take-append}
use go_io.Common.Bytes.{Bytes, IsBytes}
use go_io.Common.Results.{ok}
use go_io.Sigil.Digest
use go_io.Sigil.Digest.{Digest}
use go_io.Sigil.Cipher.{ChaCha, standard, extended, Reader}
use go_io.Sigil.Cipher.RoundTrip

abbrev pub total : Bytes → ℕ
total [] = 0
total (b ∷ s) = b + 3 * total s

-- A stand-in for SHA-256: 32 bytes that depend on the text.
abbrev pub toy_digest : Digest
toy_digest = record { sum = λ s. replicate 32 (total s % 256) }

replicate-IsBytes : (n b : ℕ) → b < 256 → IsBytes (replicate n b)
replicate-IsBytes zero b h = tt
replicate-IsBytes (suc n) b h = (h, replicate-IsBytes n b h)

pub toy_digest-IsLawful : Digest.IsLawful toy_digest
toy_digest-IsLawful = record {
  length-sum = λ s. refl;
  sum-IsBytes = λ s. replicate-IsBytes 32 (total s % 256) (omega arith);
}

-- A stand-in for the AEAD: it appends a tag of zeros.
abbrev tag : Bytes
tag = replicate 16 0

abbrev pub toy_chacha : ChaCha
toy_chacha = record {
  nonce_size = λ v. elim v [ standard ↦ 12 | extended ↦ 24 ];
  overhead = 16;
  accept = λ v key. ok tt;
  seal = λ v key nonce s. s ++ tag;
  open_sealed = λ v key nonce c. if ltb (length c) 16 then none else some (take (length c - 16) c);
}

open_tagged :
    (s : Bytes)
    → (if ltb (length (s ++ tag)) 16 then none else some (take (length (s ++ tag) - 16) (s ++ tag)))
      ≡ some s
open_tagged s =
    let width : length (s ++ tag) - 16 ≡ length s = omega (arith, length-append s tag) in
    let cut : take (length (s ++ tag) - 16) (s ++ tag) ≡ s =
      ap (λ n. take n (s ++ tag)) width ∙ take-append s tag in
    ground (arith, cut, length-append s tag)

pub toy_chacha-IsLawful : RoundTrip.IsLawful toy_chacha
toy_chacha-IsLawful = record {
  size_standard = refl;
  size_extended = refl;
  size_overhead = refl;
  accepts = λ v key h. refl;
  length-seal = λ v key nonce s. length-append s tag;
  open-seal = λ v key nonce s. open_tagged s;
}

abbrev pub toy_reader : Reader
toy_reader n = ok (replicate n 7)

abbrev pub toy_key : Bytes
toy_key = replicate 32 1
