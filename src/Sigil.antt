-- ===== src/Sigil.antt =====
-- go/sigil/sigil.go: the `Sigil` interface and the pipelines `Transmute` and `Untransmute`.
-- A sigil transforms a byte slice; `none` is the nil slice.
pub mod Pipeline
pub mod Toy
mod Tests
pub mod Digest
pub mod Xor
pub mod Shuffle
pub mod Cipher
pub mod Json
pub mod Codec
use go_io.Common.{Option, List, [], ◌∷◌}
use go_io.Common.Bytes.{Bytes}
use go_io.Common.Results.{Result, ok, err}

-- `type Sigil interface`: the methods `In` and `Out`.
pub record Sigil : Type 0 where
  pub inward : Option Bytes → Result (Option Bytes)
  pub outward : Option Bytes → Result (Option Bytes)

-- `Transmute`: the sigils in order; the first error ends the loop.
unfoldable pub transmute : Option Bytes → List Sigil → Result (Option Bytes)
transmute payload [] = ok payload
transmute payload (sigil ∷ sigils) = elim (sigil.inward payload) [
  | ok next ↦ transmute next sigils
  | err e ↦ err e
]

-- `Untransmute`: from the last sigil to the first. The loop over the index is a fold from the right
-- end: what the later sigils return is what this one is given.
unfoldable pub untransmute : Option Bytes → List Sigil → Result (Option Bytes)
untransmute payload [] = ok payload
untransmute payload (sigil ∷ sigils) = elim (untransmute payload sigils) [
  | ok next ↦ sigil.outward next
  | err e ↦ err e
]
