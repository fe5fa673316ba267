-- ===== src/Sigil/Xor.antt =====
-- go/sigil/crypto_sigil.go: the key stream of `deriveKeyStream` and `deriveMask`, and
-- `XORObfuscator`. Slices have a length below 2^63; `blockNum` is a `uint64` and wraps.
pub mod Stream
pub mod Involution
use go_io.Common.{ℕ, zero, suc, ◌+◌, ◌-◌, ◌%◌, ◌^◌, min, bit_xor, true, false, List, [], ◌∷◌, ◌++◌}
use go_io.Common.{ltb, ◌==◌, if◌then◌else◌}
use go_io.Common.Lists.{length, take, drop, replicate}
use go_io.Common.Bytes.{Bytes, bytes}
use go_io.Sigil.Digest.{Digest, put_uint64}

-- `copy(dst[offset:], src)`: as much of `src` as fits.
unfoldable pub copy_at {ℓ} : {A : Type ℓ} → List A → ℕ → List A → List A
copy_at dst offset src =
    take offset dst ++ (take (length dst - offset) src ++ drop (offset + length src) dst)

-- The loop `for offset < length` of both functions over the buffer `stream`; `prefix` is what is
-- hashed before the block number. Each round writes a byte at least: `length` rounds are enough.
unfoldable pub fill_blocks : Digest → Bytes → ℕ → ℕ → ℕ → Bytes → Bytes
fill_blocks h prefix zero offset block_num stream = stream
fill_blocks h prefix (suc fuel) offset block_num stream = elim (ltb offset (length stream)) [
  | true ↦
      let block = h.sum (prefix ++ put_uint64 block_num) in
      let copy_len = min (length block) (length stream - offset) in
      fill_blocks h prefix fuel (offset + copy_len) ((block_num + 1) % 2 ^ 64)
        (copy_at stream offset (take copy_len block))
  | false ↦ stream
]

-- `deriveKeyStream`
unfoldable pub derive_key_stream : Digest → Bytes → ℕ → Bytes
unfolding fill_blocks copy_at
derive_key_stream h entropy size = fill_blocks h entropy size 0 0 (replicate size 0)

-- `deriveMask`
unfoldable pub derive_mask : Digest → Bytes → ℕ → Bytes
unfolding fill_blocks copy_at
derive_mask h entropy size = fill_blocks h (entropy ++ bytes "mask") size 0 0 (replicate size 0)

-- `for i := range data { result[i] = data[i] ^ keyStream[i] }`, for slices of one length.
unfoldable pub xor_bytes : Bytes → Bytes → Bytes
xor_bytes [] stream = []
xor_bytes (b ∷ payload) [] = []
xor_bytes (b ∷ payload) (k ∷ stream) = bit_xor b k ∷ xor_bytes payload stream

-- `XORObfuscator.transform`
unfoldable pub transform : Digest → Bytes → Bytes → Bytes
unfolding derive_key_stream xor_bytes
transform h payload entropy = xor_bytes payload (derive_key_stream h entropy (length payload))

-- `XORObfuscator.Obfuscate`; `Deobfuscate` calls it.
unfoldable pub obfuscate : Digest → Bytes → Bytes → Bytes
unfolding transform
obfuscate h payload entropy = if length payload == 0 then payload else transform h payload entropy

unfoldable pub deobfuscate : Digest → Bytes → Bytes → Bytes
unfolding obfuscate
deobfuscate h payload entropy = obfuscate h payload entropy
