-- ===== src/Workspace/Encrypted/Keeping.antt =====
-- go/workspace/service.go: what is written to an encrypted workspace is read back.
use native.Mathlib.Omega.{arith}
use go_io.Common.{◌≡◌, inl, inr, refl, sym, ap, ◌∙◌, false, ◌&&◌, some, [], ◌∷◌, if◌then◌else◌}
use go_io.Common.Lists.{length}
use go_io.Common.Bytes.{Bytes, bytes, str_eq, str_eq_refl}
use go_io.Common.Results.{Result, ok, err, Result-cases, ◌>>=◌}
use go_io.CoreText
use go_io.CoreText.{CoreText}
use go_io.Cube.{text}
use go_io.Local.{Platform}
use go_io.Sigil.{transmute, untransmute}
use go_io.Sigil.Digest.{Digest}
use go_io.Sigil.Cipher.{
  ChaCha, ChaChaPolySigil, Reader, cipher_sigil, new_cha_cha_poly_sigil, nil_nonce,
}
use go_io.Sigil.Cipher.RoundTrip
use go_io.Sigil.Cipher.RoundTrip.{outward-inward}
use go_io.Storage.{Storage}
use go_io.Storage.Contract
use go_io.Storage.Contract.{content_at, found, is_ok}
use go_io.Workspace.Encrypted.{
  Service, Hkdf, key_path, resolve_active_workspace_file_path, workspace_hash,
}
use go_io.Workspace.Encrypted.Methods.{
  workspace_cipher_sigil, encrypted, write_workspace_file, read_workspace_file,
}
use go_io.Workspace.Encrypted.Below.{IsJoining, not_key}

found_ok : (r : Result Bytes) (a : Bytes) → found r ≡ some a → r ≡ ok a
found_ok (ok b) a h = cc
found_ok (err e) a h = absurd (cc)

found-bind :
    (f : Bytes → Result Bytes) (r r' : Result Bytes)
    → found r ≡ found r'
    → found (r >>= f) ≡ found (r' >>= f)
found-bind f (ok a) (ok b) h = let same : a ≡ b = cc in ap (λ x. found (f x)) same
found-bind f (ok a) (err e) h = absurd (cc)
found-bind f (err e) (ok b) h = absurd (cc)
found-bind f (err e) (err x) h = refl

module _ (c : CoreText) (K : CoreText.IsLawful c) (p : Platform) (chacha : ChaCha)
    (A : RoundTrip.IsLawful chacha) (h : Digest) (rand_reader : Reader) (hkdf : Hkdf) (M : Storage)
    (B : Contract.IsKeeping M) where
  -- The decryption in `ReadWorkspaceFile`.
  abbrev opened : ChaChaPolySigil → Bytes → Result Bytes
  opened sigil encoded =
      untransmute (some encoded) (cipher_sigil chacha rand_reader sigil ∷ []) >>= λ plaintext.
      ok (text plaintext)

  made_sigil :
      (service : Service) (s : M.State) (sigil : ChaChaPolySigil)
      → workspace_cipher_sigil c p chacha h rand_reader hkdf M service s ≡ ok sigil
      → (raw : Bytes) × (derived : Bytes) × (M.read s (key_path c p service) ≡ ok raw)
        × (hkdf (workspace_hash h) raw [] (bytes "workspace-cipher-key") 32 ≡ ok derived)
        × (new_cha_cha_poly_sigil chacha h rand_reader derived nil_nonce ≡ ok sigil)
  unfolding workspace_cipher_sigil
  made_sigil service s sigil e = elim (Result-cases (M.read s (key_path c p service))) [
    | inr (x, failed) ↦ absurd (ground (arith, failed, e))
    | inl (raw, got) ↦
        elim (Result-cases (hkdf (workspace_hash h) raw [] (bytes "workspace-cipher-key") 32)) [
          | inr (x, failed) ↦ absurd (ground (arith, got, failed, e))
          | inl (derived, done) ↦ (raw, derived, got, done, ground (arith, got, done, e))
        ]
  ]

  -- The sigil depends on the key file only.
  sigil_kept :
      (service : Service) (s u : M.State) (sigil : ChaChaPolySigil)
      → workspace_cipher_sigil c p chacha h rand_reader hkdf M service s ≡ ok sigil
      → content_at M u (key_path c p service) ≡ content_at M s (key_path c p service)
      → workspace_cipher_sigil c p chacha h rand_reader hkdf M service u ≡ ok sigil
  unfolding workspace_cipher_sigil
  sigil_kept service s u sigil e same =
      let (raw, derived, got, done, made) = made_sigil service s sigil e in
      let again : M.read u (key_path c p service) ≡ ok raw =
        found_ok (M.read u (key_path c p service)) raw (same ∙ ap found got) in
      ground (arith, again, done, made, got, e)

  read_with :
      (service : Service) (s : M.State) (sigil : ChaChaPolySigil) (path file_path : Bytes)
      → resolve_active_workspace_file_path c p service path ≡ ok file_path
      → workspace_cipher_sigil c p chacha h rand_reader hkdf M service s ≡ ok sigil
      → read_workspace_file c p chacha h rand_reader hkdf M service s path
        ≡ (M.read s file_path >>= opened sigil)
  unfolding read_workspace_file
  read_with service s sigil path file_path at made = rw (at, made) refl

  sealed :
      (service : Service) (s : M.State) (sigil : ChaChaPolySigil) (content nonce : Bytes)
      → workspace_cipher_sigil c p chacha h rand_reader hkdf M service s ≡ ok sigil
      → rand_reader 24 ≡ ok nonce
      → length nonce ≡ 24
      → (ciphertext : Bytes) × (transmute
            (some content)
            (cipher_sigil chacha rand_reader sigil ∷ [])
          ≡ ok (some ciphertext))
        × (opened sigil ciphertext ≡ ok content)
  unfolding transmute untransmute
  sealed service s sigil content nonce e drawn size =
      let (raw, derived, got, done, made) = made_sigil service s sigil e in
      let (ciphertext, inwards, outwards, _, _) =
        outward-inward chacha h rand_reader derived content nonce nil_nonce sigil A tt made drawn
          size in
      (ciphertext, ground (arith, inwards), ground (arith, outwards))

  -- What a successful write does.
  wrote :
      (service : Service) (s u : M.State) (path content nonce file_path : Bytes)
      → rand_reader 24 ≡ ok nonce
      → length nonce ≡ 24
      → resolve_active_workspace_file_path c p service path ≡ ok file_path
      → write_workspace_file c p chacha h rand_reader hkdf M service s path content ≡ (ok tt, u)
      → (sigil : ChaChaPolySigil) × (ciphertext : Bytes) × (workspace_cipher_sigil c p chacha h
            rand_reader hkdf M service s
          ≡ ok sigil)
        × (opened sigil ciphertext ≡ ok content)
        × (M.write s file_path ciphertext ≡ (ok tt, u))
  unfolding write_workspace_file encrypted
  wrote service s u path content nonce file_path drawn size at e =
      elim (Result-cases (workspace_cipher_sigil c p chacha h rand_reader hkdf M service s)) [
        | inr (x, failed) ↦ absurd (ground (arith, at, failed, e))
        | inl (sigil, made) ↦
            let (ciphertext, enc, dec) = sealed service s sigil content nonce made drawn size in
            (sigil, ciphertext, made, dec, ground (arith, at, made, enc, e))
      ]

  -- A successful `WriteWorkspaceFile` over a medium that keeps its files, if `core.Path` joins names
  -- and nonces have 24 bytes: `ReadWorkspaceFile` then gives the content, decrypted with the key that
  -- is derived again, and every other file of the workspace has the content that it had, or none.
  pub read-write_workspace_file :
      (service : Service) (s u : M.State) (path content nonce file_path other other_path : Bytes)
      → IsJoining c K p service
      → rand_reader 24 ≡ ok nonce
      → length nonce ≡ 24
      → resolve_active_workspace_file_path c p service path ≡ ok file_path
      → resolve_active_workspace_file_path c p service other ≡ ok other_path
      → str_eq file_path other_path ≡ false
      → write_workspace_file c p chacha h rand_reader hkdf M service s path content ≡ (ok tt, u)
      → (read_workspace_file c p chacha h rand_reader hkdf M service u path ≡ ok content)
        × (found (read_workspace_file c p chacha h rand_reader hkdf M service u other)
            ≡ found (read_workspace_file c p chacha h rand_reader hkdf M service s other))
  read-write_workspace_file service s u path content nonce file_path other other_path joining drawn
        size at other_at differ e =
      let (sigil, ciphertext, made, dec, run) =
        wrote service s u path content nonce file_path drawn size at e in
      let kept : (q : Bytes)
          → content_at M u q ≡ (if str_eq file_path q then some ciphertext else content_at M s q) =
        λ q.
          sym (ap (λ o. content_at M o.1 q) run)
          ∙ B.write s file_path ciphertext q
          ∙ ap (λ o. if is_ok o.0 && str_eq file_path q then some ciphertext else content_at M s q)
              run in
      let still : workspace_cipher_sigil c p chacha h rand_reader hkdf M service u ≡ ok sigil =
        sigil_kept service s u sigil made (
          kept (key_path c p service)
          ∙ rw (not_key c K p service path file_path joining at) refl) in
      let here : M.read u file_path ≡ ok ciphertext =
        found_ok (M.read u file_path) ciphertext
          (kept file_path ∙ rw (str_eq_refl file_path) refl) in
      let there : content_at M u other_path ≡ content_at M s other_path =
        kept other_path ∙ rw (differ) refl in
      (
        read_with service u sigil path file_path at still ∙ rw (here) dec,
        ap found (read_with service u sigil other other_path other_at still)
            ∙ found-bind (opened sigil) (M.read u other_path) (M.read s other_path) there
            ∙ ap found (sym (read_with service s sigil other other_path other_at made)),
      )
