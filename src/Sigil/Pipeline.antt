-- ===== src/Sigil/Pipeline.antt =====
-- What a pipeline of sigils promises: `Untransmute` undoes `Transmute` where each sigil's `Out`
-- undoes its `In`.
use go_io.Common.{◌≡◌, refl, Option, none, some, List, [], ◌∷◌, ◌++◌, inl, inr}
use go_io.Common.Bytes.{Bytes, All, IsBytes}
use go_io.Common.Results.{ok, err, ◌>>=◌, Result-cases}
use go_io.Sigil.{Sigil, transmute, untransmute}

-- A slice of bytes, or nil.
abbrev pub IsData : Option Bytes → Type 0
IsData none = Unit
IsData (some payload) = IsBytes payload

-- `Out` undoes `In` on whatever `In` accepts, and `In` returns bytes.
abbrev pub IsReversible : Sigil → Type 0
IsReversible sigil =
    (x y : Option Bytes) → IsData x → sigil.inward x ≡ ok y → (sigil.outward y ≡ ok x) × IsData y

-- Whatever a pipeline of reversible sigils encodes, the same pipeline decodes to the input.
pub untransmute-transmute :
    (sigils : List Sigil) (x y : Option Bytes)
    → All IsReversible sigils
    → IsData x
    → transmute x sigils ≡ ok y
    → untransmute y sigils ≡ ok x
unfolding transmute untransmute
untransmute-transmute [] x y h d e = cc
untransmute-transmute (sigil ∷ sigils) x y (here, there) d e =
    elim (Result-cases (sigil.inward x)) [
      | inl (z, p) ↦
          let undone = here x z d p in
          rw (untransmute-transmute sigils z y there undone.1 (rw p at e)) undone.0
      | inr (f, p) ↦ let bad : err f ≡ ok y = rw p at e in cc
    ]

-- A pipeline runs in sequence: its parts can be run one after the other, errors included.
transmute-append :
    (xs ys : List Sigil) (x : Option Bytes)
    → transmute x (xs ++ ys) ≡ (transmute x xs >>= λ y. transmute y ys)
unfolding transmute
transmute-append [] ys x = refl
transmute-append (sigil ∷ xs) ys x = elim (Result-cases (sigil.inward x)) [
  | inl (z, p) ↦ rw p (transmute-append xs ys z)
  | inr (f, p) ↦ rw p
]
