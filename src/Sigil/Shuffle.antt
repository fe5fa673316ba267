-- ===== src/Sigil/Shuffle.antt =====
-- go/sigil/crypto_sigil.go: `ShuffleMaskObfuscator`, which masks the data and permutes it.
pub mod Permutation
pub mod Inverse
use go_io.Common.{ℕ, zero, suc, ◌+◌, ◌%◌, List, [], ◌∷◌, ◌++◌, ◌==◌, if◌then◌else◌}
use go_io.Common.Lists.{length, set, get_or, replicate}
use go_io.Common.Bytes.{Bytes, bytes}
use go_io.Sigil.Digest.{Digest, put_uint64, uint64}
use go_io.Sigil.Xor.{xor_bytes, derive_mask}

-- `for i := range permutation { permutation[i] = i }`
unfoldable pub iota : ℕ → ℕ → List ℕ
iota start zero = []
iota start (suc n) = start ∷ iota (start + 1) n

-- `permutation[i], permutation[j] = permutation[j], permutation[i]`
unfoldable pub swap : List ℕ → ℕ → ℕ → List ℕ
swap permutation i j = set (set permutation i (get_or permutation j 0)) j (get_or permutation i 0)

-- The index that round i draws: the first eight bytes of a hash, modulo i + 1.
unfoldable pub draw : Digest → Bytes → ℕ → ℕ
draw h seed i = uint64 (h.sum (seed ++ put_uint64 i)) % (i + 1)

-- `for i := length - 1; i > 0; i--`
unfoldable pub shuffle_from : Digest → Bytes → ℕ → List ℕ → List ℕ
unfolding swap
shuffle_from h seed zero permutation = permutation
shuffle_from h seed (suc i) permutation =
    shuffle_from h seed i (swap permutation (suc i) (draw h seed (suc i)))

abbrev pub last_index : ℕ → ℕ
last_index zero = zero
last_index (suc n) = n

-- `generatePermutation`
unfoldable pub generate_permutation : Digest → Bytes → ℕ → List ℕ
unfolding shuffle_from iota draw put_uint64 uint64
generate_permutation h entropy size =
    shuffle_from h (h.sum (entropy ++ bytes "permutation")) (last_index size) (iota 0 size)

-- `shuffled[destinationIndex] = result[sourceIndex]`
unfoldable pub gather : Bytes → List ℕ → Bytes
gather result [] = []
gather result (source ∷ permutation) = get_or result source 0 ∷ gather result permutation

-- `result[sourceIndex] = data[destinationIndex]`, one write after the other.
unfoldable pub scatter : Bytes → List ℕ → Bytes → Bytes
scatter payload [] result = result
scatter [] (source ∷ permutation) result = result
scatter (b ∷ payload) (source ∷ permutation) result =
    scatter payload permutation (set result source b)

-- `ShuffleMaskObfuscator.Obfuscate`
unfoldable pub obfuscate : Digest → Bytes → Bytes → Bytes
unfolding generate_permutation gather xor_bytes derive_mask
obfuscate h payload entropy =
    let size = length payload in
    if size == 0
    then payload
    else gather (xor_bytes payload (derive_mask h entropy size))
        (generate_permutation h entropy size)

-- `ShuffleMaskObfuscator.Deobfuscate`
unfoldable pub deobfuscate : Digest → Bytes → Bytes → Bytes
unfolding generate_permutation scatter xor_bytes derive_mask
deobfuscate h payload entropy =
    let size = length payload in
    if size == 0
    then payload
    else xor_bytes (scatter payload (generate_permutation h entropy size) (replicate size 0))
        (derive_mask h entropy size)
