-- ===== src/Sigil/Xor/Involution.antt =====
-- `XORObfuscator` undoes itself: exclusive or at every width, then over slices.
use Prim.Native.Nat.{digits, differ, bit_xor-bitwise}
use native.Mathlib.Omega.{arith}
use go_io.Common.{
  ℕ, zero, suc, ◌+◌, ◌*◌, ◌/◌, ◌%◌, ◌≤◌, ◌<◌, bit_xor, ◌≡◌, refl, sym, ap, ap₂, ◌∙◌, [], ◌∷◌,
}
use go_io.Common.Lists.{length}
use go_io.Common.Bytes.{Bytes}
use go_io.Sigil.Digest.{Digest}
use go_io.Sigil.Xor.Stream.{length-derive_key_stream}
use go_io.Sigil.Xor.{derive_key_stream, xor_bytes, obfuscate, deobfuscate}

abbrev xor_digits : ℕ → ℕ → ℕ → ℕ
xor_digits n a b = digits (λ b. b) differ n a b

xor_digits_fuel : (n m a b : ℕ) → a ≤ n → a ≤ m → xor_digits n a b ≡ xor_digits m a b
xor_digits_fuel zero zero a b p q = refl
xor_digits_fuel zero (suc m) zero b p q = refl
xor_digits_fuel zero (suc m) (suc a) b p q = absurd (omega arith)
xor_digits_fuel (suc n) zero zero b p q = refl
xor_digits_fuel (suc n) zero (suc a) b p q = absurd (omega arith)
xor_digits_fuel (suc n) (suc m) zero b p q = refl
xor_digits_fuel (suc n) (suc m) (suc a) b p q =
    let ih = xor_digits_fuel n m (suc a / 2) (b / 2) (omega arith) (omega arith) in
    ap (λ (t : ℕ). t * 2 + differ (suc a % 2) (b % 2)) ih

zero-bit_xor : (b : ℕ) → bit_xor 0 b ≡ b
zero-bit_xor b = bit_xor-bitwise 0 b

differ_bits : (p q : ℕ) → p < 2 → q < 2 → (differ p q < 2) × (differ (differ p q) q ≡ p)
differ_bits zero zero h k = (omega arith, refl)
differ_bits zero (suc zero) h k = (omega arith, refl)
differ_bits (suc zero) zero h k = (omega arith, refl)
differ_bits (suc zero) (suc zero) h k = (omega arith, refl)
differ_bits zero (suc (suc q)) h k = absurd (omega arith)
differ_bits (suc zero) (suc (suc q)) h k = absurd (omega arith)
differ_bits (suc (suc p)) q h k = absurd (omega arith)

-- The law for the lowest digit.
bit_xor_step : (a b : ℕ) → bit_xor a b ≡ bit_xor (a / 2) (b / 2) * 2 + differ (a % 2) (b % 2)
bit_xor_step zero b = omega (arith, zero-bit_xor b, zero-bit_xor (b / 2))
bit_xor_step (suc a) b = omega (
  arith,
  bit_xor-bitwise (suc a) b,
  bit_xor-bitwise (suc a / 2) (b / 2),
  xor_digits_fuel a (suc a / 2) (suc a / 2) (b / 2) (omega arith) (omega arith),
)

bit_xor_twice_fuel : (n a b : ℕ) → a ≤ n → b ≤ n → bit_xor (bit_xor a b) b ≡ a
bit_xor_twice_fuel zero zero zero h k = refl
bit_xor_twice_fuel zero (suc a) b h k = absurd (omega arith)
bit_xor_twice_fuel zero zero (suc b) h k = absurd (omega arith)
bit_xor_twice_fuel (suc n) a b h k =
    let x = bit_xor a b in
    let bits = differ_bits (a % 2) (b % 2) (omega arith) (omega arith) in
    let high : x / 2 ≡ bit_xor (a / 2) (b / 2) = omega (arith, bit_xor_step a b, bits.0) in
    let low : x % 2 ≡ differ (a % 2) (b % 2) = omega (arith, bit_xor_step a b, bits.0) in
    let ih : bit_xor (bit_xor (a / 2) (b / 2)) (b / 2) ≡ a / 2 =
      bit_xor_twice_fuel n (a / 2) (b / 2) (omega arith) (omega arith) in
    let upper : bit_xor (x / 2) (b / 2) ≡ a / 2 = ap (λ (t : ℕ). bit_xor t (b / 2)) high ∙ ih in
    let lower : differ (x % 2) (b % 2) ≡ a % 2 = ap (λ (t : ℕ). differ t (b % 2)) low ∙ bits.1 in
    omega (arith, bit_xor_step x b, upper, lower)

pub bit_xor_twice : (a b : ℕ) → bit_xor (bit_xor a b) b ≡ a
bit_xor_twice a b = bit_xor_twice_fuel (a + b) a b (omega arith) (omega arith)

pub xor_bytes_twice : (s k : Bytes) → length s ≡ length k → xor_bytes (xor_bytes s k) k ≡ s
unfolding xor_bytes
xor_bytes_twice [] k h = refl
xor_bytes_twice (b ∷ s) [] h = absurd (omega arith)
xor_bytes_twice (b ∷ s) (c ∷ k) h =
    ap₂ (λ x xs. x ∷ xs) (bit_xor_twice b c) (xor_bytes_twice s k (omega arith))

pub length-xor_bytes : (s k : Bytes) → length s ≡ length k → length (xor_bytes s k) ≡ length s
unfolding xor_bytes
length-xor_bytes [] k h = refl
length-xor_bytes (b ∷ s) [] h = absurd (omega arith)
length-xor_bytes (b ∷ s) (c ∷ k) h = ap suc (length-xor_bytes s k (omega arith))

obfuscate-xor :
    (h : Digest) (payload entropy : Bytes)
    → obfuscate h payload entropy ≡ xor_bytes payload (derive_key_stream h entropy (length payload))
unfolding obfuscate
obfuscate-xor h [] entropy = refl
obfuscate-xor h (b ∷ rest) entropy = ground arith

module _ (h : Digest) (payload entropy : Bytes) where
  key_width : length payload ≡ length (derive_key_stream h entropy (length payload))
  key_width = sym (length-derive_key_stream h entropy (length payload))

  pub length-obfuscate : length (obfuscate h payload entropy) ≡ length payload
  length-obfuscate =
      ap length (obfuscate-xor h payload entropy) ∙ length-xor_bytes payload _ key_width

  -- `Deobfuscate` with the entropy of `Obfuscate` gives the data back, for every hash, slice and entropy.
  pub deobfuscate-obfuscate : deobfuscate h (obfuscate h payload entropy) entropy ≡ payload
  unfolding deobfuscate
  deobfuscate-obfuscate =
      obfuscate-xor h (obfuscate h payload entropy) entropy
      ∙ ap₂ (λ s n. xor_bytes s (derive_key_stream h entropy n)) (obfuscate-xor h payload entropy)
          length-obfuscate
      ∙ xor_bytes_twice payload (derive_key_stream h entropy (length payload)) key_width
