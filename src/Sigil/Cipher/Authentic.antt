-- ===== src/Sigil/Cipher/Authentic.antt =====
-- What a `ChaChaPolySigil` refuses: keys and nonces at construction, and ciphertexts in `Out`.
use native.Mathlib.Omega.{arith}
use native.Mathlib.Decide.{dec_lt}
use go_io.Common.{
  ◌≤◌, ◌<◌, ◌≡◌, ◌≢◌, ◌↔◌, ◌⊎◌, ap, ◌∙◌, Option, none, some, inl, inr, ◌==◌, if◌then◌else◌,
  Bool-cases, Option-cases,
}
use go_io.Common.Lists.{length, take, drop}
use go_io.Common.Bytes.{Bytes}
use go_io.Common.Results.{
  Result, Error, ok, err, invalid_key, invalid_nonce, ciphertext_too_short, decryption_failed,
}
use go_io.Sigil.Digest.{Digest}
use go_io.Sigil.Cipher.{
  PreObfuscator, xor_obfuscator, extended, ChaCha, Reader, ChaChaPolySigil, NonceArgument,
  nil_nonce, fixed_nonce, pre_obfuscator, other_nonce, undo_obfuscator, new_cha_cha_poly_sigil,
  open_with, outward,
}
use go_io.Sigil.Cipher.RoundTrip.{IsLawful, IsReady, IsReady-new, outward_step}

-- The arguments `nonce any` that the constructor takes: nil or a `PreObfuscator`.
abbrev pub IsAccepted : NonceArgument → Type 0
IsAccepted nil_nonce = Unit
IsAccepted (pre_obfuscator o) = Unit
IsAccepted _ = ⊥

module _ (chacha : ChaCha) (h : Digest) (rand_reader : Reader) where
  rejected :
      (key : Bytes) (arg : NonceArgument) (e : Error)
      → ¬ IsAccepted arg
      → ◌≡◌ {A = Result ChaChaPolySigil}
          (if length key == 32 then err invalid_nonce else err invalid_key)
          (err e)
      → ((length key ≢ 32) × (e ≡ invalid_key))
        ⊎ ((length key ≡ 32) × (¬ IsAccepted arg) × (e ≡ invalid_nonce))
  rejected key arg e no_nonce q = elim (Bool-cases (length key == 32)) [
    | inl same ↦ inr (ground arith, no_nonce, ground arith)
    | inr other ↦ inl (ground arith, ground arith)
  ]

  abbrev constructed : Bytes → PreObfuscator → ChaChaPolySigil
  constructed key o = record {
    key = some key;
    nonce_size = chacha.nonce_size extended;
    obfuscator = some o;
    random_reader = some rand_reader;
  }

  -- The constructor succeeds exactly on a key of 32 bytes with nil or a `PreObfuscator`. Its error is
  -- `InvalidKeyError` exactly for any other key; it is `InvalidNonceError` exactly for a key of 32
  -- bytes with a fixed nonce or a value of another type; and it has no other error.
  new_accepts :
      (key : Bytes) (arg : NonceArgument) (e : Error)
      → (((s : ChaChaPolySigil) × (new_cha_cha_poly_sigil chacha h rand_reader key arg ≡ ok s))
          ↔ ((length key ≡ 32) × IsAccepted arg))
        × ((new_cha_cha_poly_sigil chacha h rand_reader key arg ≡ err e) ↔ (
            ((length key ≢ 32) × (e ≡ invalid_key))
            ⊎ ((length key ≡ 32) × (¬ IsAccepted arg) × (e ≡ invalid_nonce))))
  unfolding new_cha_cha_poly_sigil
  new_accepts key nil_nonce e = (
    (λ (s, q). (ground arith, tt), λ (q, _). (constructed key (xor_obfuscator h), ground arith)),
    (
      λ q. inl (ground arith),
      λ r. elim r [ inl (n, q) ↦ ground arith | inr (n, no_nonce, q) ↦ absurd (no_nonce tt) ],
    ),
  )
  new_accepts key (fixed_nonce b) e = (
    (λ (s, q). absurd (ground arith), λ (q, a). absurd a),
    (λ q. rejected key (fixed_nonce b) e (λ x. x) (ground arith), λ r. ground arith),
  )
  new_accepts key (pre_obfuscator o) e = (
    (λ (s, q). (ground arith, tt), λ (q, _). (constructed key o, ground arith)),
    (
      λ q. inl (ground arith),
      λ r. elim r [ inl (n, q) ↦ ground arith | inr (n, no_nonce, q) ↦ absurd (no_nonce tt) ],
    ),
  )
  new_accepts key other_nonce e = (
    (λ (s, q). absurd (ground arith), λ (q, a). absurd a),
    (λ q. rejected key other_nonce e (λ x. x) (ground arith), λ r. ground arith),
  )

module _ (chacha : ChaCha) (A : IsLawful chacha) (s : ChaChaPolySigil) (key c : Bytes)
    (v : IsReady chacha key s) where
  outward_short : length c < 40 → outward chacha s (some c) ≡ err ciphertext_too_short
  unfolding open_with
  outward_short short =
      outward_step chacha A key s c v ∙ ground (arith, A.size_extended, A.size_overhead)

  outward_long :
      40 ≤ length c
      → outward chacha s (some c) ≡ elim (chacha.open_sealed extended key (take 24 c) (drop 24 c)) [
        | some q ↦ ok (some (undo_obfuscator s.obfuscator q (take 24 c)))
        | none ↦ err decryption_failed
      ]
  unfolding open_with
  outward_long long =
      let head = ap (λ n. take n c) A.size_extended in
      let rest = ap (λ n. drop n c) A.size_extended in
      outward_step chacha A key s c v ∙ ground (arith, A.size_extended, A.size_overhead, head, rest)

module _ (chacha : ChaCha) (h : Digest) (rand_reader : Reader) where
  -- What `Out` of a constructed value does with a ciphertext that is not nil. It returns p exactly if
  -- there are 40 bytes at least, those behind the first 24 authenticate under the first 24 as the
  -- nonce, and p is what they open to with the obfuscation undone. Its error is
  -- `CiphertextTooShortError` exactly below 40 bytes and `DecryptionFailedError` exactly if 40 bytes
  -- or more do not authenticate, and it has no other error.
  pub outward_authentic :
      (key c : Bytes) (arg : NonceArgument) (s : ChaChaPolySigil) (p : Option Bytes) (e : Error)
      → IsLawful chacha
      → new_cha_cha_poly_sigil chacha h rand_reader key arg ≡ ok s
      → ((outward chacha s (some c) ≡ ok p) ↔ (
          (40 ≤ length c)
          × ((q : Bytes) × (chacha.open_sealed extended key (take 24 c) (drop 24 c) ≡ some q)
              × (p ≡ some (undo_obfuscator s.obfuscator q (take 24 c))))))
        × ((outward chacha s (some c) ≡ err e) ↔ (
            ((length c < 40) × (e ≡ ciphertext_too_short))
            ⊎ ((40 ≤ length c)
                × (chacha.open_sealed extended key (take 24 c) (drop 24 c) ≡ none)
                × (e ≡ decryption_failed))))
  outward_authentic key c arg s p e A made =
      let v = IsReady-new chacha rand_reader h key arg s A made in
      let short = outward_short chacha A s key c v in
      let long = outward_long chacha A s key c v in
      elim (dec_lt (length c) 40) [
        | yes few ↦
            let is = short few in
            (
              (λ x. absurd (ground (arith, is)), λ (x, y). absurd (omega arith)),
              (λ x. inl (few, ground (arith, is)), λ r. ground (arith, is)),
            )
        | no many ↦
            let is = long (omega arith) in
            elim (Option-cases (chacha.open_sealed extended key (take 24 c) (drop 24 c))) [
              | inl closed ↦ (
                (λ x. absurd (ground (arith, is)), λ (x, (q, y, z)). absurd (cc)),
                (λ x. inr (omega arith, closed, ground (arith, is)), λ r. ground (arith, is)),
              )
              | inr (q, opened) ↦ (
                (
                  λ x. (omega arith, (q, opened, ground (arith, is))),
                  λ (x, (q, y, z)). ground (arith, is),
                ),
                (λ x. absurd (ground (arith, is)), λ r. absurd (ground arith)),
              )
            ]
      ]
