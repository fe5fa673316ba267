-- ===== src/Sigil/Codec.antt =====
-- go/sigil/sigils.go: the sigils that need no key, and `NewSigil`. Base64, gzip, the JSON reader and
-- printer and the hash functions are parameters; hexadecimal text is written out.
pub mod Reversible
use mathlib.Core.List.{reverse}
use go_io.Common.{
  ℕ, ◌+◌, ◌-◌, ◌*◌, ◌/◌, ◌%◌, Bool, true, false, ◌&&◌, Option, none, some, List, [], ◌∷◌, ◌++◌, ltb,
  leb, if◌then◌else◌,
}
use go_io.Common.Bytes.{Bytes, bytes, str_eq}
use go_io.Common.Results.{Result, ok, err, Error, invalid, failure, ◌>>=◌}
use go_io.Common.GoMap.{GoMap, lookup}
use go_io.Sigil.{Sigil}
use go_io.Sigil.Json.{indent_json}

-- `crypto.Hash`: the values that `HashSigil.In` knows, and any other.
pub data Hash : Type 0 where
  md4 md5 sha1 sha224 sha256 sha384 sha512 ripemd160 : Hash
  sha3_224 sha3_256 sha3_384 sha3_512 sha512_224 sha512_256 : Hash
  blake2s_256 blake2b_256 blake2b_384 blake2b_512 : Hash
  other_hash : ℕ → Hash

-- Code outside the repository: `encoding/base64`, `compress/gzip`, JSON decoding followed by
-- `core.JSONMarshalString`, and the sums of the hash functions.
pub record Codecs : Type 0 where
  pub base64_encode : Bytes → Bytes
  pub base64_decode : Bytes → Result Bytes
  pub gzip_compress : Bytes → Result Bytes
  pub gzip_expand : Bytes → Result Bytes
  pub json_compact : Bytes → Result Bytes
  pub sum : Hash → Bytes → Bytes

-- `if data == nil { return nil, nil }` before a transformation.
unfoldable pub on_data : (Bytes → Result Bytes) → Option Bytes → Result (Option Bytes)
on_data f none = ok none
on_data f (some payload) = do result ← f payload; ok (some result)

-- `ReverseSigil`
abbrev pub reverse_sigil : Sigil
reverse_sigil = record {
  inward = on_data (λ payload. ok (reverse payload));
  outward = on_data (λ payload. ok (reverse payload));
}

-- `encoding/hex`: the digits 0 to 9 and a to f.
unfoldable pub hex_digit : ℕ → ℕ
hex_digit n = if ltb n 10 then n + b'0' else n - 10 + b'a'

unfoldable pub hex_encode : Bytes → Bytes
unfolding hex_digit
hex_encode [] = []
hex_encode (b ∷ payload) = hex_digit (b / 16) ∷ hex_digit (b % 16) ∷ hex_encode payload

-- Upper-case digits are read too.
unfoldable pub hex_value : ℕ → Option ℕ
hex_value c =
    if leb b'0' c && leb c b'9'
    then some (c - b'0')
    else if leb b'a' c && leb c b'f'
    then some (c - b'a' + 10)
    else if leb b'A' c && leb c b'F'
    then some (c - b'A' + 10)
    else none

abbrev pub invalid_byte : Error
invalid_byte = failure 1

abbrev pub odd_length : Error
odd_length = failure 2

abbrev pub from_digits : Option ℕ → Option ℕ → Result ℕ
from_digits none low = err invalid_byte
from_digits (some high) none = err invalid_byte
from_digits (some high) (some low) = ok (high * 16 + low)

-- A last digit with no partner is an invalid byte, or else an odd length.
unfoldable pub hex_decode : Bytes → Result Bytes
unfolding hex_value
hex_decode [] = ok []
hex_decode (p ∷ []) = elim (hex_value p) [ none ↦ err invalid_byte | some _ ↦ err odd_length ]
hex_decode (p ∷ q ∷ rest) = do
  byte ← from_digits (hex_value p) (hex_value q)
  decoded ← hex_decode rest
  ok (byte ∷ decoded)

-- `HexSigil`. The bytes that `Out` returns beside an error are dropped: its callers ignore them.
abbrev pub hex_sigil : Sigil
hex_sigil = record {
  inward = on_data (λ payload. ok (hex_encode payload));
  outward = on_data hex_decode;
}

abbrev pub known_hash : Hash → Bool
known_hash (other_hash n) = false
known_hash _ = true

-- A nil slice is hashed as an empty one.
abbrev pub written : Option Bytes → Bytes
written none = []
written (some payload) = payload

module _ (codecs : Codecs) where
  -- `Base64Sigil`
  abbrev pub base64_sigil : Sigil
  base64_sigil = record {
    inward = on_data (λ payload. ok (codecs.base64_encode payload));
    outward = on_data codecs.base64_decode;
  }

  -- `GzipSigil` with no `outputWriter`, as `NewSigil` makes it
  abbrev pub gzip_sigil : Sigil
  gzip_sigil = record {
    inward = on_data codecs.gzip_compress;
    outward = on_data codecs.gzip_expand;
  }

  -- `JSONSigil.In`, on data that is not nil
  unfoldable pub json_in : Bool → Bytes → Result Bytes
  json_in indent payload = do
    compact ← codecs.json_compact payload
    ok (if indent then indent_json compact else compact)

  abbrev pub json_sigil : Bool → Sigil
  json_sigil indent = record { inward = on_data (json_in indent); outward = λ payload. ok payload }

  -- `HashSigil.In`
  unfoldable pub hash_in : Hash → Option Bytes → Result (Option Bytes)
  hash_in hash payload =
      if known_hash hash then ok (some (codecs.sum hash (written payload))) else err invalid

  abbrev pub hash_sigil : Hash → Sigil
  hash_sigil hash = record { inward = hash_in hash; outward = λ payload. ok payload }

  -- The switch of `NewSigil`.
  unfoldable pub schemes : GoMap Sigil
  schemes =
      (bytes "reverse", reverse_sigil)
      ∷ (bytes "hex", hex_sigil)
      ∷ (bytes "base64", base64_sigil)
      ∷ (bytes "gzip", gzip_sigil)
      ∷ (bytes "json", json_sigil false)
      ∷ (bytes "json-indent", json_sigil true)
      ∷ (bytes "md4", hash_sigil md4)
      ∷ (bytes "md5", hash_sigil md5)
      ∷ (bytes "sha1", hash_sigil sha1)
      ∷ (bytes "sha224", hash_sigil sha224)
      ∷ (bytes "sha256", hash_sigil sha256)
      ∷ (bytes "sha384", hash_sigil sha384)
      ∷ (bytes "sha512", hash_sigil sha512)
      ∷ (bytes "ripemd160", hash_sigil ripemd160)
      ∷ (bytes "sha3-224", hash_sigil sha3_224)
      ∷ (bytes "sha3-256", hash_sigil sha3_256)
      ∷ (bytes "sha3-384", hash_sigil sha3_384)
      ∷ (bytes "sha3-512", hash_sigil sha3_512)
      ∷ (bytes "sha512-224", hash_sigil sha512_224)
      ∷ (bytes "sha512-256", hash_sigil sha512_256)
      ∷ (bytes "blake2s-256", hash_sigil blake2s_256)
      ∷ (bytes "blake2b-256", hash_sigil blake2b_256)
      ∷ (bytes "blake2b-384", hash_sigil blake2b_384)
      ∷ (bytes "blake2b-512", hash_sigil blake2b_512)
      ∷ []

  -- `NewSigil`
  unfoldable pub new_sigil : Bytes → Result Sigil
  unfolding schemes lookup
  new_sigil sigil_name =
      if str_eq sigil_name (bytes "chacha20poly1305")
      then err invalid
      else elim (lookup sigil_name schemes) [ some sigil ↦ ok sigil | none ↦ err invalid ]
