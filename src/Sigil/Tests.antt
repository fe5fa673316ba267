-- ===== src/Sigil/Tests.antt =====
-- Runs of go/sigil over stand-ins for the hash, the AEAD, the random source and the codecs, and the
-- theorems at concrete inputs.
use native.Mathlib.Omega.{arith}
use go_io.Common.{
  ◌+◌, ◌/◌, ◌%◌, ◌<◌, ◌≤◌, ◌≡◌, ◌↔◌, ◌⊎◌, refl, none, some, List, [], ◌∷◌, ◌++◌, inl, inr,
}
use go_io.Common.Lists.{length, take, drop, replicate, get_elem?}
use go_io.Common.Bytes.{Bytes, bytes, str_eq}
use go_io.Common.Results.{ok, err, failure, ciphertext_too_short, decryption_failed}
use go_io.Sigil.{transmute, untransmute}
use go_io.Sigil.Digest.{put_uint64, uint64}
use go_io.Sigil.Xor
use go_io.Sigil.Xor.Stream.{derive_key_stream_bytes}
use go_io.Sigil.Shuffle
use go_io.Sigil.Shuffle.Permutation.{IsIndexing, generate_permutation-IsIndexing}
use go_io.Sigil.Cipher
use go_io.Sigil.Cipher.{
  ChaCha, Variant, standard, extended, Reader, NonceArgument, nil_nonce, pre_obfuscator,
  ChaChaPolySigil,
}
use go_io.Sigil.Cipher.RoundTrip.{outward-inward, obfuscators-IsReversible}
use go_io.Sigil.Cipher.Authentic.{outward_authentic}
use go_io.Sigil.Json.{indent_json}
use go_io.Sigil.Json.Whitespace.{between, strip, strip-indent_json}
use go_io.Sigil.Codec.{Codecs, new_sigil, hex_sigil, reverse_sigil, hex_encode, hex_decode, on_data}
use go_io.Sigil.Codec.Reversible
use go_io.Sigil.Codec.Reversible.{Built, untransmute-transmute_named}
use go_io.Sigil.Toy.{
  total, toy_digest, toy_digest-IsLawful, toy_chacha, toy_chacha-IsLawful, toy_reader, toy_key,
}

abbrev toy_codecs : Codecs
toy_codecs = record {
  base64_encode = λ s. s;
  base64_decode = λ s. ok s;
  gzip_compress = λ s. ok (31 ∷ s);
  gzip_expand = λ s. elim s [ [] ↦ err (failure 3) | b ∷ t ↦ ok t ];
  json_compact = λ s. ok s;
  sum = λ hash s. replicate 4 (total s % 256);
}

toy_codecs-IsLawful : Reversible.IsLawful toy_codecs
toy_codecs-IsLawful = record {
  base64_IsBytes = λ s h. h;
  base64_decodes = λ s h. refl;
  gzip_IsBytes = λ s t h e. let is_t : t ≡ 31 ∷ s = cc in rw is_t (omega arith, h);
  gzip_expands = λ s t e. let is_t : t ≡ 31 ∷ s = cc in rw is_t;
}

-- Everything that a run computes with.
sigil_code : Unit {0}
unfolding transmute untransmute new_sigil str_eq Xor.obfuscate Xor.deobfuscate Shuffle.obfuscate
    Shuffle.deobfuscate Cipher.inward Cipher.outward Cipher.new_aead Cipher.seal_with
    Cipher.open_with Cipher.nonce_from_ciphertext Cipher.new_cha_cha_poly_sigil put_uint64 uint64
    indent_json strip hex_encode hex_decode on_data Shuffle.generate_permutation
    Xor.derive_key_stream Xor.derive_mask
sigil_code = tt

hex_test : hex_encode (bytes "Hi!") ≡ bytes "486921"
unfolding sigil_code
hex_test = refl

indent_test : indent_json (bytes "{}") ≡ bytes "{}"
unfolding sigil_code
indent_test = refl

abbrev toy_sigil : ChaChaPolySigil
toy_sigil = record {
  key = some toy_key;
  nonce_size = 24;
  obfuscator = some (Cipher.shuffle_mask_obfuscator toy_digest);
  random_reader = some toy_reader;
}

abbrev shuffling : NonceArgument
shuffling = pre_obfuscator (Cipher.shuffle_mask_obfuscator toy_digest)

made :
    Cipher.new_cha_cha_poly_sigil toy_chacha toy_digest toy_reader toy_key shuffling ≡ ok toy_sigil
unfolding sigil_code
made = refl

shuffle_test :
    Shuffle.deobfuscate toy_digest
      (Shuffle.obfuscate toy_digest (bytes "payload") (bytes "n"))
      (bytes "n")
    ≡ bytes "payload"
unfolding sigil_code
shuffle_test = refl

outward-inward_example :
    (c : Bytes) × (Cipher.inward toy_chacha toy_reader toy_sigil (some (bytes "hi")) ≡ ok (some c))
    × (Cipher.outward toy_chacha toy_sigil (some c) ≡ ok (some (bytes "hi")))
    × (Cipher.nonce_from_ciphertext toy_chacha c ≡ ok (replicate 24 7))
    × (length c ≡ length (bytes "hi") + 40)
outward-inward_example =
    outward-inward toy_chacha toy_digest toy_reader toy_key (bytes "hi") (replicate 24 7) shuffling
      toy_sigil toy_chacha-IsLawful (obfuscators-IsReversible toy_digest).1 made refl refl

outward_authentic_example :
    ((Cipher.outward toy_chacha toy_sigil (some (bytes "short")) ≡ ok none) ↔ (
      (40 ≤ length (bytes "short"))
      × ((q : Bytes) × (toy_chacha.open_sealed extended toy_key
              (take 24 (bytes "short"))
              (drop 24 (bytes "short"))
            ≡ some q)
          × (none
              ≡ some (Cipher.undo_obfuscator toy_sigil.obfuscator q (take 24 (bytes "short")))))))
    × ((Cipher.outward toy_chacha toy_sigil (some (bytes "short")) ≡ err ciphertext_too_short) ↔ (
        ((length (bytes "short") < 40) × (ciphertext_too_short ≡ ciphertext_too_short))
        ⊎ ((40 ≤ length (bytes "short"))
            × (toy_chacha.open_sealed extended toy_key
                  (take 24 (bytes "short"))
                  (drop 24 (bytes "short"))
                ≡ none)
            × (ciphertext_too_short ≡ decryption_failed))))
outward_authentic_example =
    outward_authentic toy_chacha toy_digest toy_reader toy_key (bytes "short") shuffling toy_sigil
      none ciphertext_too_short toy_chacha-IsLawful made

generate_permutation-IsIndexing_example :
    IsIndexing 5 (Shuffle.generate_permutation toy_digest (bytes "n") 5)
generate_permutation-IsIndexing_example = generate_permutation-IsIndexing toy_digest (bytes "n") 5

derive_key_stream_bytes_example :
    (length (Xor.derive_key_stream toy_digest (bytes "n") 40) ≡ 40)
    × (get_elem? (Xor.derive_key_stream toy_digest (bytes "n") 40) 33
        ≡ get_elem? (toy_digest.sum (bytes "n" ++ put_uint64 (33 / 32))) (33 % 32))
derive_key_stream_bytes_example =
    derive_key_stream_bytes toy_digest toy_digest-IsLawful (bytes "n") 40 (omega arith) 33
      (omega arith)

abbrev names : List Bytes
names = bytes "hex" ∷ bytes "reverse" ∷ []

names-Built : Built toy_codecs names (hex_sigil ∷ reverse_sigil ∷ [])
unfolding sigil_code
names-Built = (inr (inl refl), refl, (inl refl, refl, tt))

names_run : transmute (some (bytes "J")) (hex_sigil ∷ reverse_sigil ∷ []) ≡ ok (some (bytes "a4"))
unfolding sigil_code
names_run = refl

untransmute-transmute_named_example :
    untransmute (some (bytes "a4")) (hex_sigil ∷ reverse_sigil ∷ []) ≡ ok (some (bytes "J"))
untransmute-transmute_named_example =
    untransmute-transmute_named toy_codecs names (hex_sigil ∷ reverse_sigil ∷ []) (some (bytes "J"))
      (some (bytes "a4")) toy_codecs-IsLawful names-Built (omega arith, tt) names_run

strip-indent_json_example :
    strip between (indent_json (bytes "{\"a\\\"\":[1]}")) ≡ strip between (bytes "{\"a\\\"\":[1]}")
strip-indent_json_example = strip-indent_json (bytes "{\"a\\\"\":[1]}")
