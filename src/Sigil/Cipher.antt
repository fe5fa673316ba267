-- ===== src/Sigil/Cipher.antt =====
-- go/sigil/crypto_sigil.go: `ChaChaPolySigil`. The AEAD of `golang.org/x/crypto/chacha20poly1305`
-- and the source of random bytes are parameters.
pub mod RoundTrip
pub mod Authentic
use go_io.Common.{ℕ, ◌+◌, Option, none, some, [], ◌++◌, ltb, ◌==◌, if◌then◌else◌}
use go_io.Common.Lists.{length, take, drop}
use go_io.Common.Bytes.{Bytes}
use go_io.Common.Results.{
  Result, ok, err, invalid_key, invalid_nonce, ciphertext_too_short, decryption_failed,
  no_key_configured,
}
use go_io.Sigil.{Sigil}
use go_io.Sigil.Digest.{Digest}
use go_io.Sigil.Xor
use go_io.Sigil.Shuffle

-- `type PreObfuscator interface`
pub record PreObfuscator : Type 0 where
  pub obfuscate : Bytes → Bytes → Bytes
  pub deobfuscate : Bytes → Bytes → Bytes

-- `&XORObfuscator{}` and `&ShuffleMaskObfuscator{}`
abbrev pub xor_obfuscator : Digest → PreObfuscator
xor_obfuscator h = record { obfuscate = Xor.obfuscate h; deobfuscate = Xor.deobfuscate h }

abbrev pub shuffle_mask_obfuscator : Digest → PreObfuscator
shuffle_mask_obfuscator h = record {
  obfuscate = Shuffle.obfuscate h;
  deobfuscate = Shuffle.deobfuscate h;
}

-- `chacha20poly1305.New` and `NewX`.
pub data Variant : Type 0 where
  standard extended : Variant

-- The package `chacha20poly1305`: its constants, whether a constructor accepts a key, and the
-- methods `Seal(nil, nonce, plaintext, nil)` and `Open(nil, nonce, ciphertext, nil)`.
pub record ChaCha : Type 0 where
  pub nonce_size : Variant → ℕ
  pub overhead : ℕ
  pub accept : Variant → Bytes → Result (Unit {0})
  pub seal : Variant → Bytes → Bytes → Bytes → Bytes
  pub open_sealed : Variant → Bytes → Bytes → Bytes → Option Bytes

-- `goio.ReadFull(reader, nonce)` at the next call: the bytes read into a slice of that length.
abbrev pub Reader : Type 0
Reader = ℕ → Result Bytes

-- `type ChaChaPolySigil struct`
pub record ChaChaPolySigil : Type 0 where
  pub key : Option Bytes
  pub nonce_size : ℕ
  pub obfuscator : Option PreObfuscator
  pub random_reader : Option Reader

-- The dynamic types of the argument `nonce any` that the type switch tells apart.
pub data NonceArgument : Type 0 where
  nil_nonce : NonceArgument
  fixed_nonce : Bytes → NonceArgument
  pre_obfuscator : PreObfuscator → NonceArgument
  other_nonce : NonceArgument

-- `Key`, a copy; `Nonce`, which is always nil; `Obfuscator` and `SetObfuscator`
abbrev pub key_of : ChaChaPolySigil → Bytes
key_of s = elim s.key [ none ↦ [] | some key ↦ key ]

abbrev pub nonce_of : ChaChaPolySigil → Option Bytes
nonce_of s = none

abbrev pub obfuscator_of : ChaChaPolySigil → Option PreObfuscator
obfuscator_of s = s.obfuscator

abbrev pub set_obfuscator : ChaChaPolySigil → Option PreObfuscator → ChaChaPolySigil
set_obfuscator s obfuscator = record s { obfuscator = obfuscator }

-- `if s.obfuscator != nil`
unfoldable pub apply_obfuscator : Option PreObfuscator → Bytes → Bytes → Bytes
apply_obfuscator none payload nonce = payload
apply_obfuscator (some o) payload nonce = o.obfuscate payload nonce

unfoldable pub undo_obfuscator : Option PreObfuscator → Bytes → Bytes → Bytes
undo_obfuscator none payload nonce = payload
undo_obfuscator (some o) payload nonce = o.deobfuscate payload nonce

module _ (chacha : ChaCha) where
  -- `activeNonceSize`
  unfoldable pub active_nonce_size : ChaChaPolySigil → ℕ
  active_nonce_size s = if s.nonce_size == 0 then chacha.nonce_size extended else s.nonce_size

  -- `newAEAD`
  unfoldable pub new_aead : ChaChaPolySigil → Bytes → Result Variant
  unfolding active_nonce_size
  new_aead s key =
      if active_nonce_size s == chacha.nonce_size standard
      then elim (chacha.accept standard key) [ ok _ ↦ ok standard | err e ↦ err e ]
      else if active_nonce_size s == chacha.nonce_size extended
      then elim (chacha.accept extended key) [ ok _ ↦ ok extended | err e ↦ err e ]
      else err invalid_nonce

  -- `Out`, after the construction of the AEAD: an empty result is `[]byte{}`, never nil
  unfoldable pub open_with : ChaChaPolySigil → Bytes → Bytes → Variant → Result (Option Bytes)
  unfolding undo_obfuscator
  open_with s key bytes aead =
      let size = chacha.nonce_size aead in
      let nonce = take size bytes in
      if ltb (length bytes) (size + chacha.overhead)
      then err ciphertext_too_short
      else elim (chacha.open_sealed aead key nonce (drop size bytes)) [
        | some obfuscated ↦ ok (some (undo_obfuscator s.obfuscator obfuscated nonce))
        | none ↦ err decryption_failed
      ]

  unfoldable pub outward : ChaChaPolySigil → Option Bytes → Result (Option Bytes)
  outward s payload = elim s.key [
    | none ↦ err no_key_configured
    | some key ↦ elim payload [
      | none ↦ ok none
      | some bytes ↦ elim (new_aead s key) [ ok aead ↦ open_with s key bytes aead | err e ↦ err e ]
    ]
  ]

  -- `NonceFromCiphertext`
  unfoldable pub nonce_from_ciphertext : Bytes → Result Bytes
  nonce_from_ciphertext ciphertext =
      let size = chacha.nonce_size extended in
      if ltb (length ciphertext) size then err ciphertext_too_short else ok (take size ciphertext)

module _ (chacha : ChaCha) (rand_reader : Reader) where
  -- `reader := s.randomReader`, or `rand.Reader` for nil
  abbrev pub active_reader : ChaChaPolySigil → Reader
  active_reader s = elim s.random_reader [ some reader ↦ reader | none ↦ rand_reader ]

  -- `In`, on data that is not nil and with a key
  unfoldable pub seal_with : ChaChaPolySigil → Bytes → Bytes → Variant → Result (Option Bytes)
  unfolding apply_obfuscator
  seal_with s key payload aead = elim (active_reader s (chacha.nonce_size aead)) [
    | ok nonce ↦
        ok
          (some (nonce ++ chacha.seal aead key nonce (apply_obfuscator s.obfuscator payload nonce)))
    | err e ↦ err e
  ]

  unfoldable pub inward : ChaChaPolySigil → Option Bytes → Result (Option Bytes)
  inward s payload = elim s.key [
    | none ↦ err no_key_configured
    | some key ↦ elim payload [
      | none ↦ ok none
      | some bytes ↦ elim (new_aead chacha s key) [
        | ok aead ↦ seal_with s key bytes aead
        | err e ↦ err e
      ]
    ]
  ]

  -- The value as a `Sigil`.
  abbrev pub cipher_sigil : ChaChaPolySigil → Sigil
  cipher_sigil s = record { inward = inward s; outward = outward chacha s }

module _ (chacha : ChaCha) (h : Digest) (rand_reader : Reader) where
  -- `NewChaChaPolySigil`, after its test of the key
  with_nonce : Bytes → NonceArgument → Result ChaChaPolySigil
  with_nonce key nil_nonce = ok (record {
    key = some key;
    nonce_size = chacha.nonce_size extended;
    obfuscator = some (xor_obfuscator h);
    random_reader = some rand_reader;
  })
  with_nonce key (fixed_nonce bytes) = err invalid_nonce
  with_nonce key (pre_obfuscator o) = ok (record {
    key = some key;
    nonce_size = chacha.nonce_size extended;
    obfuscator = some o;
    random_reader = some rand_reader;
  })
  with_nonce key other_nonce = err invalid_nonce

  unfoldable pub new_cha_cha_poly_sigil : Bytes → NonceArgument → Result ChaChaPolySigil
  unfolding with_nonce
  new_cha_cha_poly_sigil key nonce =
      if length key == 32 then with_nonce key nonce else err invalid_key
