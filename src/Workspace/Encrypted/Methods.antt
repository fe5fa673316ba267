-- ===== src/Workspace/Encrypted/Methods.antt =====
-- go/workspace/service.go: the constructor and the methods of the service.
use go_io.Common.{Bool, not, ◌||◌, Option, none, some, List, [], ◌∷◌, if◌then◌else◌}
use go_io.Common.Bytes.{Bytes, bytes, str_eq}
use go_io.Common.Results.{Result, ok, err, ◌>>=◌, invalid, exist, not_exist}
use go_io.CoreText.{CoreText}
use go_io.Cube.{text}
use go_io.Local.{Platform}
use go_io.Sigil.{transmute, untransmute}
use go_io.Sigil.Digest.{Digest}
use go_io.Sigil.Cipher.{
  ChaCha, ChaChaPolySigil, Reader, cipher_sigil, new_cha_cha_poly_sigil, nil_nonce,
}
use go_io.Storage.{Storage, Outcome, on_path}
use go_io.Workspace.Service.{WorkspaceCommand, workspace_name}
use go_io.Workspace.Encrypted.{
  KeyPairProvider, Hkdf, workspace_hash, sha256_hex, Service, home_directory,
  resolve_workspace_directory, key_path, resolve_active_workspace_file_path,
}

-- The value of a `core.Result` that is Ok.
pub data Reply : Type 0 where
  made : Bytes → Reply
  nothing : Reply

abbrev pub directory_names : List Bytes
directory_names = bytes "config" ∷ bytes "log" ∷ bytes "data" ∷ bytes "files" ∷ bytes "keys" ∷ []

module _ (c : CoreText) (p : Platform) (chacha : ChaCha) (h : Digest) (rand_reader : Reader)
    (hkdf : Hkdf) (M : Storage) where
  abbrev pub ensured : Service → Outcome M.State Unit → Outcome (Option M.State) Service
  ensured service (ok done, s) = (ok service, some s)
  ensured service (err e, s) = (err e, some s)

  abbrev pub on_medium :
      Option KeyPairProvider → Option M.State → Bytes → Outcome (Option M.State) Service
  on_medium none s root = (err invalid, s)
  on_medium (some provider) none root = (err invalid, none)
  on_medium (some provider) (some s) root =
      ensured
        (record { key_pair_provider = some provider; active_workspace_id = []; root_path = root })
        (M.ensure_dir s root)

  abbrev pub or_else : Option M.State → Option M.State → Option M.State
  or_else none local = local
  or_else (some s) local = some s

  -- `New`, less the registration; a medium is `none` for nil, and `local` is `io.Local`.
  unfoldable pub new :
      Option KeyPairProvider
      → Bytes
      → Option M.State
      → Option M.State
      → Outcome (Option M.State) Service
  unfolding home_directory str_eq
  new provider root_path medium local =
      let at = or_else medium local in
      let home = home_directory c p in
      if not (str_eq root_path [])
      then on_medium provider at root_path
      else if str_eq home []
      then (err not_exist, at)
      else on_medium provider at (p.path (home ∷ bytes ".core" ∷ bytes "workspaces" ∷ []))

  -- An operation that goes on if the call before succeeds.
  abbrev pub after_call :
      {A : Type 0} → Outcome M.State Unit → (M.State → Outcome M.State A) → Outcome M.State A
  after_call (ok done, s) run = run s
  after_call (err e, s) run = (err e, s)

  -- The loop of `CreateWorkspace` over the directories.
  unfoldable pub ensure_directories : Bytes → List Bytes → M.State → Outcome M.State Unit
  ensure_directories directory [] s = (ok tt, s)
  ensure_directories directory (name ∷ names) s =
      after_call (M.ensure_dir s (p.path (directory ∷ name ∷ [])))
        (ensure_directories directory names)

  abbrev save_key : Bytes → Bytes → M.State → Result Bytes → Outcome M.State Bytes
  save_key directory workspace_id s (err e) = (err e, s)
  save_key directory workspace_id s (ok private_key) =
      after_call
        (M.write_mode s (p.path (directory ∷ bytes "keys" ∷ bytes "private.key" ∷ [])) private_key
          384)
        (λ s'. (ok workspace_id, s'))

  abbrev create_with : KeyPairProvider → Service → M.State → Bytes → Bytes → Outcome M.State Bytes
  create_with provider service s identifier passphrase =
      let workspace_id = sha256_hex h identifier in
      on_path (resolve_workspace_directory c p service workspace_id) s (λ directory.
        if M.exists s directory
        then (err exist, s)
        else after_call (ensure_directories directory directory_names s) (λ s'.
          save_key directory workspace_id s' (provider.create_key_pair identifier passphrase)))

  -- `CreateWorkspace`
  unfoldable pub create_workspace : Service → M.State → Bytes → Bytes → Outcome M.State Bytes
  unfolding resolve_workspace_directory sha256_hex ensure_directories
  create_workspace service s identifier passphrase = elim service.key_pair_provider [
    | none ↦ (err invalid, s)
    | some provider ↦ create_with provider service s identifier passphrase
  ]

  abbrev pub activated : Service → M.State → Result Bytes → Outcome Service Unit
  activated service s (err e) = (err e, service)
  activated service s (ok directory) =
      if M.is_dir s directory
      then (ok tt, record service { active_workspace_id = c.path_base directory })
      else (err not_exist, service)

  -- `SwitchWorkspace`
  unfoldable pub switch_workspace : Service → M.State → Bytes → Outcome Service Unit
  unfolding resolve_workspace_directory
  switch_workspace service s workspace_id =
      activated service s (resolve_workspace_directory c p service workspace_id)

  -- `workspaceCipherSigil`
  unfoldable pub workspace_cipher_sigil : Service → M.State → Result ChaChaPolySigil
  unfolding workspace_hash new_cha_cha_poly_sigil str_eq
  workspace_cipher_sigil service s =
      if str_eq service.active_workspace_id []
      then err not_exist
      else (M.read s (key_path c p service) >>= λ raw_key.
          hkdf (workspace_hash h) raw_key [] (bytes "workspace-cipher-key") 32 >>= λ derived.
          new_cha_cha_poly_sigil chacha h rand_reader derived nil_nonce)

  -- `ReadWorkspaceFile`
  unfoldable pub read_workspace_file : Service → M.State → Bytes → Result Bytes
  unfolding resolve_active_workspace_file_path workspace_cipher_sigil untransmute
  read_workspace_file service s path =
      resolve_active_workspace_file_path c p service path >>= λ file_path.
      workspace_cipher_sigil service s >>= λ sigil. M.read s file_path >>= λ encoded.
      untransmute (some encoded) (cipher_sigil chacha rand_reader sigil ∷ []) >>= λ plaintext.
      ok (text plaintext)

  -- What `WriteWorkspaceFile` writes, and where.
  unfoldable pub encrypted : Service → M.State → Bytes → Bytes → Result (Bytes × Bytes)
  unfolding resolve_active_workspace_file_path workspace_cipher_sigil transmute
  encrypted service s path content =
      resolve_active_workspace_file_path c p service path >>= λ file_path.
      workspace_cipher_sigil service s >>= λ sigil.
      transmute (some content) (cipher_sigil chacha rand_reader sigil ∷ []) >>= λ ciphertext.
      ok (file_path, text ciphertext)

  abbrev pub written : M.State → Result (Bytes × Bytes) → Outcome M.State Unit
  written s (err e) = (err e, s)
  written s (ok (file_path, ciphertext)) = M.write s file_path ciphertext

  -- `WriteWorkspaceFile`
  unfoldable pub write_workspace_file : Service → M.State → Bytes → Bytes → Outcome M.State Unit
  unfolding encrypted
  write_workspace_file service s path content = written s (encrypted service s path content)

  abbrev is_action : Bytes → Bytes → Bytes → Bool
  is_action action name legacy = str_eq action name || str_eq action legacy

  abbrev identified : Service × M.State → Outcome M.State Bytes → Outcome (Service × M.State) Reply
  identified (service, s) (r, s') = (r >>= λ id. ok (made id), (service, s'))

  abbrev pub switched_to : M.State → Outcome Service Unit → Outcome (Service × M.State) Reply
  switched_to s (r, service) = (r >>= λ done. ok nothing, (service, s))

  -- `HandleWorkspaceCommand`
  unfoldable pub handle_workspace_command :
      Service → M.State → WorkspaceCommand → Outcome (Service × M.State) Reply
  unfolding create_workspace switch_workspace workspace_name str_eq
  handle_workspace_command service s command =
      let name = workspace_name command in
      let created = create_workspace service s name command.password in
      let moved = switch_workspace service s name in
      if is_action command.action (bytes "create") (bytes "workspace.create")
      then (if str_eq name [] then (err invalid, (service, s)) else identified (service, s) created)
      else if is_action command.action (bytes "switch") (bytes "workspace.switch")
      then (if str_eq name [] then (err invalid, (service, s)) else switched_to s moved)
      else (err invalid, (service, s))

  -- `HandleWorkspaceMessage`; a message that is no `WorkspaceCommand` is `none`.
  unfoldable pub handle_workspace_message :
      Service → M.State → Option WorkspaceCommand → Outcome (Service × M.State) Reply
  unfolding handle_workspace_command
  handle_workspace_message service s none = (err invalid, (service, s))
  handle_workspace_message service s (some command) = handle_workspace_command service s command
