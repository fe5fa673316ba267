-- ===== src/Sigil/Cipher/RoundTrip.antt =====
-- What a `ChaChaPolySigil` promises: what it seals it opens, and it returns no bytes that the AEAD
-- did not authenticate.
use native.Mathlib.Omega.{arith}
use go_io.Common.{◌+◌, ◌≡◌, sym, ap, ◌∙◌, some, ◌++◌}
use go_io.Common.Lists.{length, take, drop, length-append, take-append, drop-append}
use go_io.Common.Bytes.{Bytes}
use go_io.Common.Results.{ok}
use go_io.Sigil.Digest.{Digest}
use go_io.Sigil.Xor.Involution
use go_io.Sigil.Shuffle.Inverse
use go_io.Sigil.Cipher.{
  PreObfuscator, xor_obfuscator, shuffle_mask_obfuscator, Variant, standard, extended, ChaCha,
  Reader, ChaChaPolySigil, NonceArgument, nil_nonce, fixed_nonce, pre_obfuscator, other_nonce,
  apply_obfuscator, undo_obfuscator, new_cha_cha_poly_sigil, new_aead, seal_with, inward, open_with,
  outward, nonce_from_ciphertext,
}

-- The documented behaviour of `chacha20poly1305`.
pub record IsLawful (c : ChaCha) : Type 0 where
  pub size_standard : c.nonce_size standard ≡ 12
  pub size_extended : c.nonce_size extended ≡ 24
  pub size_overhead : c.overhead ≡ 16
  pub accepts : (v : Variant) (key : Bytes) → length key ≡ 32 → c.accept v key ≡ ok tt
  pub length-seal :
      (v : Variant) (key nonce s : Bytes) → length (c.seal v key nonce s) ≡ length s + 16
  pub open-seal :
      (v : Variant) (key nonce s : Bytes)
      → c.open_sealed v key nonce (c.seal v key nonce s) ≡ some s

-- `Deobfuscate` undoes `Obfuscate`, and the length stays.
pub record IsReversible (o : PreObfuscator) : Type 0 where
  pub undoes : (payload nonce : Bytes) → o.deobfuscate (o.obfuscate payload nonce) nonce ≡ payload
  pub length-obfuscate :
      (payload nonce : Bytes) → length (o.obfuscate payload nonce) ≡ length payload

-- The repository's two obfuscators undo themselves and keep the length, for every hash.
pub obfuscators-IsReversible :
    (h : Digest) → IsReversible (xor_obfuscator h) × IsReversible (shuffle_mask_obfuscator h)
obfuscators-IsReversible h = (
  record {
    undoes = Involution.deobfuscate-obfuscate h;
    length-obfuscate = Involution.length-obfuscate h;
  },
  record {
    undoes = Inverse.deobfuscate-obfuscate h;
    length-obfuscate = Inverse.length-obfuscate h;
  },
)

-- The obfuscator that an argument `nonce any` selects is reversible.
abbrev pub IsReversibleArgument : NonceArgument → Type 0
IsReversibleArgument (pre_obfuscator o) = IsReversible o
IsReversibleArgument _ = Unit

-- Of a value that the constructor returned: its key has 32 bytes, its nonces 24.
pub record IsReady (chacha : ChaCha) (key : Bytes) (s : ChaChaPolySigil) : Type 0 where
  pub key_size : length key ≡ 32
  pub has_key : s.key ≡ some key
  pub nonce_size : s.nonce_size ≡ 24

module _ (chacha : ChaCha) (A : IsLawful chacha) where
  new_aead_lem :
      (key : Bytes) (s : ChaChaPolySigil)
      → IsReady chacha key s
      → new_aead chacha s key ≡ ok extended
  unfolding new_aead
  new_aead_lem key s v = ground (arith, A.size_standard, A.size_extended, A.accepts extended key)

  pub outward_step :
      (key : Bytes) (s : ChaChaPolySigil) (bytes : Bytes)
      → IsReady chacha key s
      → outward chacha s (some bytes) ≡ open_with chacha s key bytes extended
  unfolding outward
  outward_step key s bytes v = ground (arith, v.has_key, new_aead_lem key s v)

  pub outward-seal :
      (key : Bytes) (s : ChaChaPolySigil) (nonce payload : Bytes)
      → IsReady chacha key s
      → length nonce ≡ 24
      → outward chacha s (some (nonce ++ chacha.seal extended key nonce payload))
        ≡ ok (some (undo_obfuscator s.obfuscator payload nonce))
  unfolding open_with
  outward-seal key s nonce payload v size =
      let sealed = chacha.seal extended key nonce payload in
      let at : chacha.nonce_size extended ≡ length nonce = A.size_extended ∙ sym size in
      let head : take (chacha.nonce_size extended) (nonce ++ sealed) ≡ nonce =
        ap (λ n. take n (nonce ++ sealed)) at ∙ take-append nonce sealed in
      let rest : drop (chacha.nonce_size extended) (nonce ++ sealed) ≡ sealed =
        ap (λ n. drop n (nonce ++ sealed)) at ∙ drop-append nonce sealed in
      outward_step key s (nonce ++ sealed) v
      ∙ ground (
        arith,
        head,
        rest,
        at,
        length-append nonce sealed,
        A.length-seal extended key nonce payload,
        A.size_overhead,
        A.open-seal extended key nonce payload,
      )

module _ (chacha : ChaCha) (rand_reader : Reader) where
  pub inward-seal :
      (key : Bytes) (s : ChaChaPolySigil) (nonce payload : Bytes)
      → IsLawful chacha
      → IsReady chacha key s
      → s.random_reader ≡ some rand_reader
      → rand_reader 24 ≡ ok nonce
      → inward chacha rand_reader s (some payload)
        ≡ ok (
            some (
              nonce
              ++ chacha.seal extended key nonce (apply_obfuscator s.obfuscator payload nonce)))
  unfolding inward seal_with
  inward-seal key s nonce payload A v reader drawn =
      ground (arith, v.has_key, new_aead_lem chacha A key s v, A.size_extended)

  pub IsReady-new :
      (h : Digest) (key : Bytes) (arg : NonceArgument) (s : ChaChaPolySigil)
      → IsLawful chacha
      → new_cha_cha_poly_sigil chacha h rand_reader key arg ≡ ok s
      → IsReady chacha key s
  unfolding new_cha_cha_poly_sigil
  IsReady-new h key nil_nonce s A e = ground (arith, A.size_extended)
  IsReady-new h key _ s A e = ground (arith, A.size_extended)

  pub reader-new :
      (h : Digest) (key : Bytes) (arg : NonceArgument) (s : ChaChaPolySigil)
      → new_cha_cha_poly_sigil chacha h rand_reader key arg ≡ ok s
      → s.random_reader ≡ some rand_reader
  unfolding new_cha_cha_poly_sigil
  reader-new h key nil_nonce s e = ground arith
  reader-new h key _ s e = ground arith

  obfuscator-new :
      (h : Digest) (key : Bytes) (arg : NonceArgument) (s : ChaChaPolySigil)
      → new_cha_cha_poly_sigil chacha h rand_reader key arg ≡ ok s
      → IsReversibleArgument arg
      → (o : PreObfuscator) × (s.obfuscator ≡ some o) × IsReversible o
  unfolding new_cha_cha_poly_sigil
  obfuscator-new h key nil_nonce s e r =
      (xor_obfuscator h, ground arith, (obfuscators-IsReversible h).0)
  obfuscator-new h key (fixed_nonce b) s e r = absurd (ground arith)
  obfuscator-new h key (pre_obfuscator o) s e r = (o, ground arith, r)
  obfuscator-new h key other_nonce s e r = absurd (ground arith)

module _ (chacha : ChaCha) (h : Digest) (rand_reader : Reader) where
  -- For a value that `NewChaChaPolySigil` returned, whose obfuscator (the default one included)
  -- undoes itself, and whose reader delivers a nonce of 24 bytes: `In` succeeds on every slice,
  -- `Out` gives the slice back, `NonceFromCiphertext` finds the nonce that was drawn, and the
  -- ciphertext is 40 bytes longer than the slice.
  pub outward-inward :
      (key payload nonce : Bytes) (arg : NonceArgument) (s : ChaChaPolySigil)
      → IsLawful chacha
      → IsReversibleArgument arg
      → new_cha_cha_poly_sigil chacha h rand_reader key arg ≡ ok s
      → rand_reader 24 ≡ ok nonce
      → length nonce ≡ 24
      → (c : Bytes) × (inward chacha rand_reader s (some payload) ≡ ok (some c))
        × (outward chacha s (some c) ≡ ok (some payload))
        × (nonce_from_ciphertext chacha c ≡ ok nonce)
        × (length c ≡ length payload + 40)
  outward-inward key payload nonce arg s A r made drawn size =
      let v = IsReady-new chacha rand_reader h key arg s A made in
      let (o, is_o, undo) = obfuscator-new chacha rand_reader h key arg s made r in
      let hidden = o.obfuscate payload nonce in
      let sealed = chacha.seal extended key nonce hidden in
      let at : chacha.nonce_size extended ≡ length nonce = A.size_extended ∙ sym size in
      let head : take (chacha.nonce_size extended) (nonce ++ sealed) ≡ nonce =
        ap (λ n. take n (nonce ++ sealed)) at ∙ take-append nonce sealed in
      let long = length-append nonce sealed in
      let width = A.length-seal extended key nonce hidden in
      (
        nonce ++ sealed,
        inward-seal chacha rand_reader key s nonce payload A v
              (reader-new chacha rand_reader h key arg s made) drawn
            ∙ unfold apply_obfuscator in ground arith,
        outward-seal chacha A key s nonce hidden v size
            ∙ unfold undo_obfuscator in ground (arith, undo.undoes payload nonce),
        unfold nonce_from_ciphertext in ground (arith, head, long, at),
        omega (arith, long, width, undo.length-obfuscate payload nonce),
      )
