-- ===== src/Workspace/Encrypted.antt =====
-- go/workspace/service.go: the service that keeps workspaces with encrypted files in a medium. Its
-- key pairs and HKDF are parameters; the hash that it hands to HKDF is its own. The lock is left
-- out: a method holds it from start to end.
pub mod Methods
pub mod Below
pub mod Keeping
pub mod Active
mod Tests
use go_io.Common.{
  ℕ, Bool, true, false, not, ◌||◌, Option, none, some, List, [], ◌∷◌, ◌++◌, if◌then◌else◌,
}
use go_io.Common.Lists.{length}
use go_io.Common.Bytes.{Bytes, bytes, str_eq}
use go_io.Common.Results.{Result, ok, err, ◌>>=◌, invalid, exist, not_exist, permission}
use go_io.CoreText.{CoreText, slash}
use go_io.Cube.{text}
use go_io.Local.{Platform}
use go_io.Sigil.{transmute, untransmute}
use go_io.Sigil.Digest.{Digest}
use go_io.Sigil.Cipher.{
  ChaCha, ChaChaPolySigil, Reader, cipher_sigil, new_cha_cha_poly_sigil, nil_nonce,
}
use go_io.Sigil.Codec.{hex_encode}
use go_io.Storage.{Storage, Outcome, on_path}
use go_io.Workspace.Service.{WorkspaceCommand, workspace_name}

-- `type KeyPairProvider interface`
pub record KeyPairProvider : Type 0 where
  pub create_key_pair : Bytes → Bytes → Result Bytes

-- `type Hash interface` of the package `hash`.
pub record Hash : Type 1 where
  pub State : Type 0
  pub fresh : State
  pub write : State → Bytes → State × ℕ
  pub sum : State → Bytes → Bytes
  pub reset : State → State
  pub size : ℕ
  pub block_size : ℕ

-- `io.ReadFull(hkdf.New(hash, secret, salt, info), buffer)` for a buffer of that length.
abbrev pub Hkdf : Type 1
Hkdf = Hash → Bytes → Bytes → Bytes → ℕ → Result Bytes

-- `newWorkspaceSHA256Hash`, and the methods of `workspaceSHA256Hash`
unfoldable pub workspace_hash : Digest → Hash
workspace_hash h = record {
  State = Bytes;
  fresh = [];
  write = λ held more. (held ++ more, length more);
  sum = λ held prefix. prefix ++ h.sum held;
  reset = λ held. [];
  size = 32;
  block_size = 64;
}

-- `workspaceSHA256Hex`
unfoldable pub sha256_hex : Digest → Bytes → Bytes
sha256_hex h payload = hex_encode (h.sum payload)

-- `type Service struct`; the medium is the parameter `M`.
pub record Service : Type 0 where
  pub key_pair_provider : Option KeyPairProvider
  pub active_workspace_id : Bytes
  pub root_path : Bytes

module _ (c : CoreText) (p : Platform) where
  -- `resolveWorkspaceHomeDirectory`
  unfoldable pub home_directory : Bytes
  unfolding str_eq
  home_directory =
      if not (str_eq (p.env (bytes "CORE_HOME")) [])
      then p.env (bytes "CORE_HOME")
      else if not (str_eq (p.env (bytes "HOME")) [])
      then p.env (bytes "HOME")
      else p.env (bytes "DIR_HOME")

  -- The separator in `joinPathWithinRoot`.
  unfoldable pub separator : Bytes
  unfolding str_eq
  separator =
      let core = p.env (bytes "CORE_PATH_SEPARATOR") in
      let ds = p.env (bytes "DS") in
      let first = if str_eq core [] then ds else core in if str_eq first [] then slash else first

  -- `joinPathWithinRoot`
  unfoldable pub join_path_within_root : Bytes → List Bytes → Result Bytes
  unfolding separator str_eq
  join_path_within_root root parts =
      let candidate = p.path (root ∷ parts) in
      if str_eq candidate root || c.has_prefix candidate (root ++ separator)
      then ok candidate
      else err permission

  -- `resolveWorkspaceDirectory`
  unfoldable pub resolve_workspace_directory : Service → Bytes → Result Bytes
  unfolding join_path_within_root str_eq
  resolve_workspace_directory service workspace_id =
      if str_eq workspace_id []
      then err invalid
      else (join_path_within_root service.root_path (workspace_id ∷ []) >>= λ directory.
          if str_eq (c.path_dir directory) service.root_path then ok directory else err permission)

  abbrev pub files_root : Service → Bytes
  files_root service = p.path (service.root_path ∷ service.active_workspace_id ∷ bytes "files" ∷ [])

  abbrev pub key_path : Service → Bytes
  key_path service =
      p.path
        (service.root_path ∷ service.active_workspace_id ∷ bytes "keys" ∷ bytes "private.key" ∷ [])

  abbrev refuse : {A : Type 0} → Result A → Result A
  refuse (ok a) = ok a
  refuse (err e) = err permission

  -- `resolveActiveWorkspaceFilePath`
  unfoldable pub resolve_active_workspace_file_path : Service → Bytes → Result Bytes
  unfolding join_path_within_root str_eq
  resolve_active_workspace_file_path service path =
      if str_eq service.active_workspace_id []
      then err not_exist
      else (refuse (join_path_within_root (files_root service) (path ∷ [])) >>= λ file_path.
          if str_eq file_path (files_root service) then err invalid else ok file_path)
