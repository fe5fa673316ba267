-- ===== src/Sigil/Digest.antt =====
-- What go/sigil uses of `crypto/sha256` and `encoding/binary`. The hash is a parameter: the code
-- relies on its block length and on its result being bytes, and on nothing else.
use go_io.Common.{ℕ, ◌/◌, ◌%◌, ◌^◌, ◌*◌, ◌+◌, ◌≡◌, [], ◌∷◌}
use go_io.Common.Lists.{length}
use go_io.Common.Bytes.{Bytes, IsBytes}

-- `sha256.New()`, `Write(data)`, `Sum(nil)` on the whole of what was written.
pub record Digest : Type 0 where
  pub sum : Bytes → Bytes

pub record IsLawful (h : Digest) : Type 0 where
  pub length-sum : (s : Bytes) → length (h.sum s) ≡ 32
  pub sum-IsBytes : (s : Bytes) → IsBytes (h.sum s)

-- `binary.BigEndian.PutUint64` into a block of eight bytes.
unfoldable pub put_uint64 : ℕ → Bytes
put_uint64 n =
    n / 2 ^ 56 % 256
    ∷ n / 2 ^ 48 % 256
    ∷ n / 2 ^ 40 % 256
    ∷ n / 2 ^ 32 % 256
    ∷ n / 2 ^ 24 % 256
    ∷ n / 2 ^ 16 % 256
    ∷ n / 2 ^ 8 % 256
    ∷ n % 256
    ∷ []

-- `binary.BigEndian.Uint64` of the first eight bytes.
unfoldable pub uint64 : Bytes → ℕ
uint64 (a ∷ b ∷ c ∷ d ∷ e ∷ f ∷ g ∷ h ∷ rest) =
    a * 2 ^ 56 + b * 2 ^ 48 + c * 2 ^ 40 + d * 2 ^ 32 + e * 2 ^ 24 + f * 2 ^ 16 + g * 2 ^ 8 + h
uint64 _ = 0
