-- ===== src/Local/Links/Reading.antt =====
-- go/local/medium.go: the text of a link, read into a buffer that is doubled until it is large enough.
use native.Mathlib.Omega.{arith}
use go_io.Common.{ℕ, zero, suc, ◌+◌, ◌*◌, ◌<◌, ◌≡◌, inl, inr, refl, Bool-cases, false, ltb}
use go_io.Common.Lists.{length, take, take-all, length-take}
use go_io.Common.Bytes.{Bytes}
use go_io.Common.Results.{ok}
use go_io.Local.{System, readlink, readlink_from}

-- What `readlink(2)` does for a link: it fills the buffer as far as the text goes.
pub record IsLink (o : System) (s : o.storage.State) (path content : Bytes) : Type 0 where
  pub fills : (size : ℕ) → o.syscall_readlink s path size ≡ ok (take size content)

readlink_from_whole :
    (o : System) (s : o.storage.State) (path content : Bytes) (fuel size : ℕ)
    → IsLink o s path content
    → 0 < size
    → length content < size + fuel
    → readlink_from o (suc fuel) size s path ≡ ok content
unfolding readlink_from
readlink_from_whole o s path content zero size L pos fits =
    let all = take-all size content (omega arith) in rw (L.fills size, all) (ground arith)
readlink_from_whole o s path content (suc fuel) size L pos fits =
    elim (Bool-cases (ltb (length content) size)) [
      | inl short ↦
          let all = take-all size content (ground arith) in rw (L.fills size, all, short) refl
      | inr long ↦
          let again =
            readlink_from_whole o s path content fuel (size * 2) L (omega arith) (omega arith) in
          let full : ltb (length (take size content)) size ≡ false =
            rw (length-take size content) (ground arith) in
          rw (L.fills size, full) again
    ]

-- `readlink` gives the whole text of a link, however often it has to double its buffer.
pub readlink_whole :
    (o : System) (rounds : ℕ) (s : o.storage.State) (path content : Bytes)
    → IsLink o s path content
    → length content < 256 + rounds
    → readlink o (suc rounds) s path ≡ ok content
unfolding readlink
readlink_whole o rounds s path content L short =
    readlink_from_whole o s path content rounds 256 L (omega arith) (omega arith)
