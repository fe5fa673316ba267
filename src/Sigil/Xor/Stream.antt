-- ===== src/Sigil/Xor/Stream.antt =====
-- The key stream, byte for byte: byte i is byte i mod 32 of the hash of block i / 32.
use native.Mathlib.Omega.{arith}
use native.Mathlib.Decide.{dec_lt}
use go_io.Common.{
  ℕ, zero, suc, ◌+◌, ◌-◌, ◌*◌, ◌/◌, ◌%◌, ◌^◌, ◌≤◌, ◌<◌, min, ◌≡◌, refl, ◌∙◌, ap, ap₂, inl, inr,
}
use go_io.Common.{Option, List, [], ◌++◌, ltb, Bool-cases, ltb→lt, ltb→le}
use go_io.Common.Lists.{
  length, take, drop, replicate, get_elem?, length-append, length-take, length-drop,
  length-replicate, get_elem?-append_left, get_elem?-append_right, get_elem?-take,
}
use go_io.Common.Bytes.{Bytes, bytes}
use go_io.Sigil.Digest
use go_io.Sigil.Digest.{Digest, put_uint64}
use go_io.Sigil.Xor.{copy_at, fill_blocks, derive_key_stream, derive_mask}

module _ {ℓ} {A : Type ℓ} (dst : List A) (offset : ℕ) (src : List A) where
  length-copy_at : offset ≤ length dst → length (copy_at dst offset src) ≡ length dst
  unfolding copy_at
  length-copy_at h = omega (
    arith,
    length-append (take offset dst)
        (take (length dst - offset) src ++ drop (offset + length src) dst),
    length-append (take (length dst - offset) src) (drop (offset + length src) dst),
    length-take offset dst,
    length-take (length dst - offset) src,
    length-drop (offset + length src) dst,
  )

  get_elem?-copy_at_before :
      (i : ℕ)
      → offset ≤ length dst
      → i < offset
      → get_elem? (copy_at dst offset src) i ≡ get_elem? dst i
  unfolding copy_at
  get_elem?-copy_at_before i h lt =
      get_elem?-append_left (take offset dst) _ i (omega (arith, length-take offset dst))
      ∙ get_elem?-take offset dst i lt

  get_elem?-copy_at_inside :
      (i : ℕ)
      → offset + length src ≤ length dst
      → i < length src
      → get_elem? (copy_at dst offset src) (offset + i) ≡ get_elem? src i
  unfolding copy_at
  get_elem?-copy_at_inside i h lt =
      let e : offset ≡ length (take offset dst) = omega (arith, length-take offset dst) in
      ap (λ k. get_elem? (copy_at dst offset src) (k + i)) e
      ∙ get_elem?-append_right (take offset dst) _ i
      ∙ get_elem?-append_left (take (length dst - offset) src) _ i
          (omega (arith, length-take (length dst - offset) src))
      ∙ get_elem?-take (length dst - offset) src i (omega arith)

module _ (h : Digest) (prefix : Bytes) where
  -- Byte i of the stream.
  abbrev pub stream_byte : ℕ → Option ℕ
  stream_byte i = get_elem? (h.sum (prefix ++ put_uint64 (i / 32))) (i % 32)

  abbrev Filled : ℕ → Bytes → Type 0
  Filled n stream = (i : ℕ) → i < n → get_elem? stream i ≡ stream_byte i

-- One round, over the block that it copies.
module _ (block stream : Bytes) (offset : ℕ) (fits : offset < length stream) where
  abbrev copy_len : ℕ
  copy_len = min (length block) (length stream - offset)

  abbrev next_stream : Bytes
  next_stream = copy_at stream offset (take copy_len block)

  length-next_stream : length next_stream ≡ length stream
  length-next_stream = length-copy_at stream offset (take copy_len block) (omega arith)

  next_stream_old : (i : ℕ) → i < offset → get_elem? next_stream i ≡ get_elem? stream i
  next_stream_old i lt =
      get_elem?-copy_at_before stream offset (take copy_len block) i (omega arith) lt

  next_stream_new : (r : ℕ) → r < copy_len → get_elem? next_stream (offset + r) ≡ get_elem? block r
  next_stream_new r lt =
      get_elem?-copy_at_inside stream offset (take copy_len block) r
        (omega (arith, length-take copy_len block)) (omega (arith, length-take copy_len block))
      ∙ get_elem?-take copy_len block r lt

module _ (h : Digest) (prefix : Bytes) where
  fill_blocks_end :
      (fuel n offset : ℕ) (stream : Bytes)
      → length stream ≤ offset
      → fill_blocks h prefix fuel offset n stream ≡ stream
  unfolding fill_blocks
  fill_blocks_end zero n offset stream le = refl
  fill_blocks_end (suc fuel) n offset stream le = ground arith

  fill_blocks_more :
      (fuel n offset : ℕ) (stream : Bytes) (fits : offset < length stream)
      → fill_blocks h prefix (suc fuel) offset n stream
        ≡ fill_blocks h prefix fuel
            (offset + copy_len (h.sum (prefix ++ put_uint64 n)) stream offset fits)
            ((n + 1) % 2 ^ 64)
            (next_stream (h.sum (prefix ++ put_uint64 n)) stream offset fits)
  unfolding fill_blocks
  fill_blocks_more fuel n offset stream fits = ground arith

module _ (h : Digest) (L : Digest.IsLawful h) (prefix : Bytes) where
  abbrev block_at : ℕ → Bytes
  block_at n = h.sum (prefix ++ put_uint64 n)

  Filled-step :
      (n : ℕ) (stream : Bytes) (fits : 32 * n < length stream)
      → Filled h prefix (32 * n) stream
      → Filled h prefix
          (32 * n + copy_len (block_at n) stream (32 * n) fits)
          (next_stream (block_at n) stream (32 * n) fits)
  Filled-step n stream fits old i below = elim (Bool-cases (ltb i (32 * n))) [
    | inl before ↦
        next_stream_old (block_at n) stream (32 * n) fits i (ltb→lt i (32 * n) before)
        ∙ old i (ltb→lt i (32 * n) before)
    | inr after ↦
        let from : 32 * n ≤ i = ltb→le i (32 * n) after in
        let width : length (block_at n) ≡ 32 = L.length-sum (prefix ++ put_uint64 n) in
        let place : i ≡ 32 * n + (i - 32 * n) = omega arith in
        let number : n ≡ i / 32 = omega arith in
        let rest : i - 32 * n ≡ i % 32 = omega arith in
        ap (get_elem? (next_stream (block_at n) stream (32 * n) fits)) place
        ∙ next_stream_new (block_at n) stream (32 * n) fits (i - 32 * n) (omega arith)
        ∙ ap₂ (λ q r. get_elem? (block_at q) r) number rest
  ]

  -- The loop fills the buffer to its end, and keeps its length.
  abbrev FilledWhole : Bytes → Bytes → Type 0
  FilledWhole stream result =
      (length result ≡ length stream) × Filled h prefix (length stream) result

  fill_blocks_lem :
      (fuel n : ℕ) (stream : Bytes)
      → 32 * n < length stream
      → length stream < 2 ^ 63
      → length stream ≤ fuel + 32 * n
      → Filled h prefix (32 * n) stream
      → FilledWhole stream (fill_blocks h prefix fuel (32 * n) n stream)
  fill_blocks_lem zero n stream fits small enough done = absurd (omega arith)
  fill_blocks_lem (suc fuel) n stream fits small enough done =
      let block = block_at n in
      let width : length block ≡ 32 = L.length-sum (prefix ++ put_uint64 n) in
      let next = next_stream block stream (32 * n) fits in
      let size : length next ≡ length stream = length-next_stream block stream (32 * n) fits in
      let filled = Filled-step n stream fits done in
      rw (fill_blocks_more h prefix fuel n (32 * n) stream fits)
        (elim (dec_lt (32 * n + 32) (length stream)) [
          | yes later ↦
              let offset : 32 * n + copy_len block stream (32 * n) fits ≡ 32 * (n + 1) =
                omega arith in
              let number : (n + 1) % 2 ^ 64 ≡ n + 1 = omega arith in
              let all =
                fill_blocks_lem fuel (n + 1) next (omega arith) (omega arith) (omega arith)
                  (λ i lt. filled i (omega arith)) in
              rw (offset, number) (all.0 ∙ size, λ i lt. all.1 i (omega arith))
          | no last ↦
              rw
                (fill_blocks_end h prefix fuel ((n + 1) % 2 ^ 64)
                  (32 * n + copy_len block stream (32 * n) fits) next (omega arith))
                (size, λ i lt. filled i (omega arith))
        ])

  fill_blocks_start :
      (size : ℕ)
      → size < 2 ^ 63
      → FilledWhole (replicate size 0) (fill_blocks h prefix size 0 0 (replicate size 0))
  fill_blocks_start zero small =
      rw (fill_blocks_end h prefix 0 0 0 [] (omega arith)) (refl, λ i lt. elim lt [ ])
  fill_blocks_start (suc size) small =
      fill_blocks_lem (suc size) 0 (replicate (suc size) 0) (omega arith)
        (omega (arith, length-replicate {0} {A = ℕ} size 0))
        (omega (arith, length-replicate {0} {A = ℕ} size 0)) (λ i lt. elim lt [ ])

-- The loop writes in place, however often the block number wraps.
module _ (h : Digest) where
  length-fill_blocks :
      (prefix : Bytes) (fuel n offset : ℕ) (stream : Bytes)
      → length (fill_blocks h prefix fuel offset n stream) ≡ length stream
  unfolding fill_blocks
  length-fill_blocks prefix zero n offset stream = refl
  length-fill_blocks prefix (suc fuel) n offset stream = elim (dec_lt offset (length stream)) [
    | yes fits ↦ rw (fill_blocks_more h prefix fuel n offset stream fits) (
        length-fill_blocks prefix fuel ((n + 1) % 2 ^ 64) _ _
        ∙ length-next_stream (h.sum (prefix ++ put_uint64 n)) stream offset fits)
    | no full ↦ ap length (fill_blocks_end h prefix (suc fuel) n offset stream (omega arith))
  ]

  pub length-derive_key_stream :
      (entropy : Bytes) (size : ℕ) → length (derive_key_stream h entropy size) ≡ size
  unfolding derive_key_stream
  length-derive_key_stream entropy size =
      length-fill_blocks entropy size 0 0 (replicate size 0) ∙ length-replicate size 0

  pub length-derive_mask : (entropy : Bytes) (size : ℕ) → length (derive_mask h entropy size) ≡ size
  unfolding derive_mask
  length-derive_mask entropy size =
      length-fill_blocks (entropy ++ bytes "mask") size 0 0 (replicate size 0)
      ∙ length-replicate size 0

module _ (h : Digest) (L : Digest.IsLawful h) (entropy : Bytes) (size : ℕ)
    (small : size < 2 ^ 63) where
  pub get_elem?-derive_key_stream :
      (i : ℕ) → i < size → get_elem? (derive_key_stream h entropy size) i ≡ stream_byte h entropy i
  unfolding derive_key_stream
  get_elem?-derive_key_stream i lt =
      (fill_blocks_start h L entropy size small).1 i
        (omega (arith, length-replicate {0} {A = ℕ} size 0))

  pub get_elem?-derive_mask :
      (i : ℕ)
      → i < size
      → get_elem? (derive_mask h entropy size) i ≡ stream_byte h (entropy ++ bytes "mask") i
  unfolding derive_mask
  get_elem?-derive_mask i lt =
      (fill_blocks_start h L (entropy ++ bytes "mask") size small).1 i
        (omega (arith, length-replicate {0} {A = ℕ} size 0))

  -- The buffer has the length that was asked for, below 2^63, and its byte i is byte i mod 32 of the
  -- SHA-256 sum of the entropy followed by the eight big-endian bytes of i / 32.
  pub derive_key_stream_bytes :
      (i : ℕ)
      → i < size
      → (length (derive_key_stream h entropy size) ≡ size)
        × (get_elem? (derive_key_stream h entropy size) i
            ≡ get_elem? (h.sum (entropy ++ put_uint64 (i / 32))) (i % 32))
  derive_key_stream_bytes i lt =
      (length-derive_key_stream h entropy size, get_elem?-derive_key_stream i lt)
