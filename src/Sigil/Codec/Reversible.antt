-- ===== src/Sigil/Codec/Reversible.antt =====
-- The encodings undo themselves: reversal, hexadecimal, and base64 and gzip as far as the libraries
-- behind them do.
use mathlib.Core.Path.{subst}
use mathlib.Core.List.{reverse, reverse-reverse, reverse_aux}
use native.Mathlib.Omega.{arith}
use go_io.Common.{
  ℕ, ◌/◌, ◌%◌, ◌<◌, ◌≡◌, refl, sym, ap, ◌∙◌, Option, none, some, List, [], ◌∷◌, ◌⊎◌, inl, inr,
}
use go_io.Common.Bytes.{Bytes, bytes, IsBytes, All, str_eq}
use go_io.Common.Results.{Result, ok, err, Result-cases}
use go_io.Sigil.{Sigil, transmute, untransmute}
use go_io.Sigil.Pipeline.{IsData, IsReversible, untransmute-transmute}
use go_io.Sigil.Codec.{
  Codecs, on_data, reverse_sigil, hex_digit, hex_encode, hex_value, hex_decode, hex_sigil,
  base64_sigil, gzip_sigil, new_sigil,
}

-- The documented round trips of `encoding/base64` and `compress/gzip`, whose results are bytes.
pub record IsLawful (c : Codecs) : Type 0 where
  pub base64_IsBytes : (s : Bytes) → IsBytes s → IsBytes (c.base64_encode s)
  pub base64_decodes : (s : Bytes) → IsBytes s → c.base64_decode (c.base64_encode s) ≡ ok s
  pub gzip_IsBytes : (s t : Bytes) → IsBytes s → c.gzip_compress s ≡ ok t → IsBytes t
  pub gzip_expands : (s t : Bytes) → c.gzip_compress s ≡ ok t → c.gzip_expand t ≡ ok s

-- A transformation and its inverse, lifted over nil.
on_data-IsReversible :
    (f g : Bytes → Result Bytes)
    → ((s t : Bytes) → IsBytes s → f s ≡ ok t → (g t ≡ ok s) × IsBytes t)
    → IsReversible (record { inward = on_data f; outward = on_data g })
unfolding on_data
on_data-IsReversible f g h none none d e = (refl, tt)
on_data-IsReversible f g h none (some t) d e = absurd (cc)
on_data-IsReversible f g h (some s) y d e = elim (Result-cases (f s)) [
  | inl (t, p) ↦
      let out : ok (some t) ≡ ok y = rw p at e in
      let is_t : y ≡ some t = cc in
      let undone = h s t d p in rw is_t (ground (arith, undone.0), undone.1)
  | inr (x, p) ↦ let out : err x ≡ ok y = rw p at e in absurd (cc)
]

hex_value-digit : (n : ℕ) → n < 16 → hex_value (hex_digit n) ≡ some n
unfolding hex_value hex_digit
hex_value-digit n h = ground arith

hex_digit-lt : (n : ℕ) → n < 16 → hex_digit n < 256
unfolding hex_digit
hex_digit-lt n h = ground arith

hex_decode-encode : (s : Bytes) → IsBytes s → hex_decode (hex_encode s) ≡ ok s
unfolding hex_encode hex_decode
hex_decode-encode [] h = refl
hex_decode-encode (b ∷ s) (lt, h) = ground (
  arith,
  hex_value-digit (b / 16) (omega arith),
  hex_value-digit (b % 16) (omega arith),
  hex_decode-encode s h,
)

hex_encode-IsBytes : (s : Bytes) → IsBytes s → IsBytes (hex_encode s)
unfolding hex_encode
hex_encode-IsBytes [] h = tt
hex_encode-IsBytes (b ∷ s) (lt, h) = (
  hex_digit-lt (b / 16) (omega arith),
  (hex_digit-lt (b % 16) (omega arith), hex_encode-IsBytes s h),
)

All-reverse_aux {ℓ κ} :
    {A : Type ℓ} (P : A → Type κ) (xs ys : List A) → All P xs → All P ys → All P (reverse_aux xs ys)
All-reverse_aux P [] ys h k = k
All-reverse_aux P (x ∷ xs) ys (p, h) k = All-reverse_aux P xs (x ∷ ys) h (p, k)

reverse_sigil-IsReversible : IsReversible reverse_sigil
reverse_sigil-IsReversible =
    on_data-IsReversible (λ s. ok (reverse s)) (λ s. ok (reverse s))
      λ s t d e.
        let is_t : t ≡ reverse s = cc in
        rw is_t (ap ok (reverse-reverse s), All-reverse_aux (λ b. b < 256) s [] d tt)

hex_sigil-IsReversible : IsReversible hex_sigil
hex_sigil-IsReversible =
    on_data-IsReversible (λ s. ok (hex_encode s)) hex_decode
      λ s t d e.
        let is_t : t ≡ hex_encode s = cc in rw is_t (hex_decode-encode s d, hex_encode-IsBytes s d)

base64_sigil-IsReversible : (c : Codecs) → IsLawful c → IsReversible (base64_sigil c)
base64_sigil-IsReversible c A =
    on_data-IsReversible (λ s. ok (c.base64_encode s)) c.base64_decode
      λ s t d e.
        let is_t : t ≡ c.base64_encode s = cc in
        rw is_t (A.base64_decodes s d, A.base64_IsBytes s d)

gzip_sigil-IsReversible : (c : Codecs) → IsLawful c → IsReversible (gzip_sigil c)
gzip_sigil-IsReversible c A =
    on_data-IsReversible c.gzip_compress c.gzip_expand
      λ s t d e. (A.gzip_expands s t e, A.gzip_IsBytes s t d e)

-- The names of the sigils that lose nothing.
abbrev pub encodings : List Bytes
encodings = bytes "reverse" ∷ bytes "hex" ∷ bytes "base64" ∷ bytes "gzip" ∷ []

abbrev pub OneOf : Bytes → List Bytes → Type 0
OneOf name [] = ⊥
OneOf name (n ∷ names) = (name ≡ n) ⊎ OneOf name names

module _ (c : Codecs) where
  IsReversible-at :
      (name key : Bytes) (sigil s : Sigil)
      → name ≡ key
      → new_sigil c key ≡ ok s
      → new_sigil c name ≡ ok sigil
      → IsReversible s
      → IsReversible sigil
  IsReversible-at name key sigil s n is_s e r =
      let same : ok sigil ≡ ok s = sym e ∙ ap (new_sigil c) n ∙ is_s in
      let is_sigil : sigil ≡ s = cc in subst IsReversible (sym is_sigil) r

  -- Each encoding that `NewSigil` makes by name undoes itself.
  new_sigil-IsReversible :
      (name : Bytes) (sigil : Sigil)
      → IsLawful c
      → OneOf name encodings
      → new_sigil c name ≡ ok sigil
      → IsReversible sigil
  unfolding new_sigil str_eq
  new_sigil-IsReversible name sigil A (inl n) e =
      IsReversible-at name (bytes "reverse") sigil reverse_sigil n refl e reverse_sigil-IsReversible
  new_sigil-IsReversible name sigil A (inr (inl n)) e =
      IsReversible-at name (bytes "hex") sigil hex_sigil n refl e hex_sigil-IsReversible
  new_sigil-IsReversible name sigil A (inr (inr (inl n))) e =
      IsReversible-at name (bytes "base64") sigil (base64_sigil c) n refl e
        (base64_sigil-IsReversible c A)
  new_sigil-IsReversible name sigil A (inr (inr (inr (inl n)))) e =
      IsReversible-at name (bytes "gzip") sigil (gzip_sigil c) n refl e
        (gzip_sigil-IsReversible c A)
  new_sigil-IsReversible name sigil A (inr (inr (inr (inr x)))) e = absurd x

  -- The sigils that `NewSigil` makes for the names, each the name of an encoding.
  abbrev pub Built : List Bytes → List Sigil → Type 0
  Built [] [] = Unit
  Built [] (sigil ∷ sigils) = ⊥
  Built (name ∷ names) [] = ⊥
  Built (name ∷ names) (sigil ∷ sigils) =
      OneOf name encodings × (new_sigil c name ≡ ok sigil) × Built names sigils

  Built-IsReversible :
      (names : List Bytes) (sigils : List Sigil)
      → IsLawful c
      → Built names sigils
      → All IsReversible sigils
  Built-IsReversible [] [] A h = tt
  Built-IsReversible [] (sigil ∷ sigils) A h = absurd h
  Built-IsReversible (name ∷ names) [] A h = absurd h
  Built-IsReversible (name ∷ names) (sigil ∷ sigils) A (n, e, h) =
      (new_sigil-IsReversible name sigil A n e, Built-IsReversible names sigils A h)

  -- A pipeline of sigils that `NewSigil` makes for any of the names reverse, hex, base64 and gzip, in
  -- any order and number: what `Transmute` encodes, nil included, `Untransmute` decodes.
  pub untransmute-transmute_named :
      (names : List Bytes) (sigils : List Sigil) (x y : Option Bytes)
      → IsLawful c
      → Built names sigils
      → IsData x
      → transmute x sigils ≡ ok y
      → untransmute y sigils ≡ ok x
  untransmute-transmute_named names sigils x y A h d e =
      untransmute-transmute sigils x y (Built-IsReversible names sigils A h) d e
