-- ===== src/Cube/Keeping.antt =====
-- The encrypting medium keeps files as the medium below it does, in plain text.
use native.Mathlib.Omega.{arith}
use go_io.Common.{
  ◌≡◌, ◌⊎◌, inl, inr, refl, sym, ap, ap₂, ◌∙◌, Bool, true, false, ◌&&◌, Option, none, some, [], ◌∷◌,
  if◌then◌else◌,
}
use go_io.Common.Lists.{length}
use go_io.Common.Bytes.{Bytes, str_eq}
use go_io.Common.Results.{ok, Result-cases}
use go_io.Common.GoMap.{is_some}
use go_io.CoreText.{CoreText}
use go_io.Medium.{Mode, Time, file_mode}
use go_io.Sigil.{transmute, untransmute}
use go_io.Sigil.Digest.{Digest}
use go_io.Sigil.Cipher.{ChaCha, Reader, cipher_sigil, new_cha_cha_poly_sigil, nil_nonce}
use go_io.Sigil.Cipher.RoundTrip
use go_io.Sigil.Cipher.RoundTrip.{outward-inward}
use go_io.Storage.{Storage}
use go_io.Storage.Contract
use go_io.Storage.Contract.{content_at, found, is_ok, written, removed, moved}
use go_io.Cube
use go_io.Cube.{CubeMedium, new, decrypted, read, write_mode, cube}

module _ (c : CoreText) (chacha : ChaCha) (A : RoundTrip.IsLawful chacha) (h : Digest)
    (rand_reader : Reader) (inner : Storage) (now : Time) where
  new_sigil :
      (S : Type 0) (s : S) (key : Bytes) (medium : CubeMedium)
      → new chacha h rand_reader (some s) key ≡ ok medium
      → new_cha_cha_poly_sigil chacha h rand_reader key nil_nonce ≡ ok medium.sigil
  unfolding new
  new_sigil S s key medium e =
      elim (Result-cases (new_cha_cha_poly_sigil chacha h rand_reader key nil_nonce)) [
        | inl (made, done) ↦ ground (arith, done, e)
        | inr (x, failed) ↦ absurd (ground (arith, failed, e))
      ]

  -- What a path reads as: the content below, decrypted.
  opened : CubeMedium → Option Bytes → Option Bytes
  opened medium none = none
  opened medium (some ciphertext) =
      found (decrypted c chacha rand_reader inner now medium ciphertext)

  content_at-cube :
      (medium : CubeMedium) (s : inner.State) (q : Bytes)
      → content_at (cube c chacha rand_reader inner now medium) s q
        ≡ opened medium (content_at inner s q)
  unfolding read opened
  content_at-cube medium s q = elim (Result-cases (inner.read s q)) [
    | inl (ciphertext, done) ↦ rw (done) refl
    | inr (e, failed) ↦ rw (failed) refl
  ]

  sealed :
      (S : Type 0) (s : S) (key nonce content : Bytes) (medium : CubeMedium)
      → new chacha h rand_reader (some s) key ≡ ok medium
      → rand_reader 24 ≡ ok nonce
      → length nonce ≡ 24
      → (ciphertext : Bytes) × (transmute
            (some content)
            (cipher_sigil chacha rand_reader medium.sigil ∷ [])
          ≡ ok (some ciphertext))
        × (decrypted c chacha rand_reader inner now medium ciphertext ≡ ok content)
  unfolding transmute untransmute decrypted
  sealed S s key nonce content medium made drawn size =
      let (ciphertext, inwards, outwards, _, _) =
        outward-inward chacha h rand_reader key content nonce nil_nonce medium.sigil A tt
          (new_sigil S s key medium made) drawn size in
      (ciphertext, ground (arith, inwards), ground (arith, outwards))

  module _ (S : Type 0) (s0 : S) (key nonce : Bytes) (medium : CubeMedium)
      (made : new chacha h rand_reader (some s0) key ≡ ok medium)
      (drawn : rand_reader 24 ≡ ok nonce) (size : length nonce ≡ 24)
      (B : Contract.IsKeeping inner) where
    abbrev outer : Storage
    outer = cube c chacha rand_reader inner now medium

    opened-if :
        (b : Bool) (ciphertext content : Bytes) (o : Option Bytes)
        → decrypted c chacha rand_reader inner now medium ciphertext ≡ ok content
        → opened medium (if b then some ciphertext else o)
          ≡ (if b then some content else opened medium o)
    unfolding opened
    opened-if true ciphertext content o e = ap found e
    opened-if false ciphertext content o e = refl

    cube_write_mode :
        (s : inner.State) (path content ciphertext : Bytes) (mode : Mode)
        → transmute (some content) (cipher_sigil chacha rand_reader medium.sigil ∷ [])
          ≡ ok (some ciphertext)
        → outer.write_mode s path content mode ≡ inner.write_mode s path ciphertext mode
    unfolding write_mode
    cube_write_mode s path content ciphertext mode e = rw (e) refl

    keeps_write_mode :
        (s : inner.State) (path content : Bytes) (mode : Mode) (q : Bytes)
        → content_at outer (outer.write_mode s path content mode).1 q
          ≡ written
              (is_ok (outer.write_mode s path content mode).0)
              path
              content
              (content_at outer s)
              q
    keeps_write_mode s path content mode q =
        let (ciphertext, enc, dec) = sealed S s0 key nonce content medium made drawn size in
        let same = cube_write_mode s path content ciphertext mode enc in
        let r = inner.write_mode s path ciphertext mode in
        let inside = B.write_mode s path ciphertext mode q in
        let run : content_at outer r.1 q ≡ written (is_ok r.0) path content (content_at outer s) q =
          content_at-cube medium r.1 q
          ∙ ap (opened medium) inside
          ∙ opened-if (is_ok r.0 && str_eq path q) ciphertext content (content_at inner s q) dec
          ∙ ap (λ o. if is_ok r.0 && str_eq path q then some content else o)
              (sym (content_at-cube medium s q)) in
        rw (same) run

    opened-none :
        (b : Bool) (o : Option Bytes)
        → opened medium (if b then none else o) ≡ (if b then none else opened medium o)
    unfolding opened
    opened-none true o = refl
    opened-none false o = refl

    keeps_ensure_dir :
        (s : inner.State) (path q : Bytes)
        → content_at outer (outer.ensure_dir s path).1 q ≡ content_at outer s q
    keeps_ensure_dir s path q =
        content_at-cube medium (inner.ensure_dir s path).1 q
        ∙ ap (opened medium) (B.ensure_dir s path q)
        ∙ sym (content_at-cube medium s q)

    keeps_delete :
        (s : inner.State) (path q : Bytes)
        → content_at outer (outer.delete s path).1 q
          ≡ removed (is_ok (outer.delete s path).0) path (content_at outer s) q
    keeps_delete s path q =
        let b = is_ok (inner.delete s path).0 && str_eq path q in
        content_at-cube medium (inner.delete s path).1 q
        ∙ ap (opened medium) (B.delete s path q)
        ∙ opened-none b (content_at inner s q)
        ∙ ap (λ o. if b then none else o) (sym (content_at-cube medium s q))

    opened_moved :
        (done at_old at_new : Bool) (old other : Option Bytes)
        → opened medium (if done && at_old then none else if done && at_new then old else other) ≡ (
            if done && at_old
            then none
            else if done && at_new
            then opened medium old
            else opened medium other)
    unfolding opened
    opened_moved true true at_new old other = refl
    opened_moved true false true old other = refl
    opened_moved true false false old other = refl
    opened_moved false at_old at_new old other = refl

    -- A path that the inner medium cannot read cannot be opened.
    opened_found : (o : Option Bytes) → is_some o ≡ false → is_some (opened medium o) ≡ false
    unfolding opened
    opened_found none h = refl
    opened_found (some x) h = absurd (cc)

    keeps_rename :
        (s : inner.State) (old new q : Bytes)
        → (is_some (content_at outer s old) ≡ false)
          ⊎ (content_at outer (outer.rename s old new).1 q
              ≡ moved (is_ok (outer.rename s old new).0) old new (content_at outer s) q)
    keeps_rename s old new q = elim (B.rename s old new q) [
      | inl absent ↦
          inl (
            ap is_some (content_at-cube medium s old)
            ∙ opened_found (content_at inner s old) absent)
      | inr inside ↦
          let done = is_ok (inner.rename s old new).0 in
          inr (
            content_at-cube medium (inner.rename s old new).1 q
            ∙ ap (opened medium) inside
            ∙ opened_moved done (str_eq old q) (str_eq new q) (content_at inner s old)
                (content_at inner s q)
            ∙ ap₂
                (λ x y.
                  if done && str_eq old q then none else if done && str_eq new q then x else y)
                (sym (content_at-cube medium s old)) (sym (content_at-cube medium s q)))
    ]

    keeps_write :
        (s : inner.State) (path content q : Bytes)
        → content_at outer (outer.write s path content).1 q
          ≡ written (is_ok (outer.write s path content).0) path content (content_at outer s) q
    unfolding Cube.write
    keeps_write s path content q = keeps_write_mode s path content file_mode q

  -- A medium that `New` makes with a key keeps its files as promised if the medium that it encrypts
  -- to does, for a random source that gives nonces of 24 bytes: what is written is read back in
  -- plain text, and the other paths read as before.
  pub cube-IsKeeping :
      (S : Type 0) (s0 : S) (key nonce : Bytes) (medium : CubeMedium)
      → new chacha h rand_reader (some s0) key ≡ ok medium
      → rand_reader 24 ≡ ok nonce
      → length nonce ≡ 24
      → Contract.IsKeeping inner
      → Contract.IsKeeping (cube c chacha rand_reader inner now medium)
  cube-IsKeeping S s0 key nonce medium made drawn size B = record {
    write = keeps_write S s0 key nonce medium made drawn size B;
    write_mode = keeps_write_mode S s0 key nonce medium made drawn size B;
    ensure_dir = keeps_ensure_dir S s0 key nonce medium made drawn size B;
    delete = keeps_delete S s0 key nonce medium made drawn size B;
    rename = keeps_rename S s0 key nonce medium made drawn size B;
  }
