-- ===== src/Workspace/Encrypted/Active.antt =====
-- go/workspace/service.go: which workspace is active in a service.
use native.Mathlib.Omega.{arith}
use go_io.Common.{
  ◌∷◌, ◌≡◌, ◌⊎◌, inl, inr, refl, sym, ap, ◌∙◌, Bool-cases, Bool, true, false, ◌||◌, Option, none,
  some, [], if◌then◌else◌,
}
use go_io.Common.Bytes.{Bytes, bytes, str_eq, str_eq_iff}
use go_io.Common.Results.{ok, err, Result-cases, invalid}
use go_io.CoreText.{CoreText}
use go_io.Local.{Platform}
use go_io.Sigil.Digest.{Digest}
use go_io.Sigil.Cipher.{ChaCha, Reader}
use go_io.Storage.{Storage, Outcome}
use go_io.Workspace.Service.{WorkspaceCommand, workspace_name}
use go_io.Workspace.Encrypted.{
  Service, KeyPairProvider, Hkdf, home_directory, resolve_workspace_directory,
  join_path_within_root,
}
use go_io.Workspace.Encrypted.Methods.{
  ensured, on_medium, or_else, new, switch_workspace, switched_to, handle_workspace_command,
  handle_workspace_message,
}

module _ (c : CoreText) (p : Platform) where
  -- No workspace is active, or one whose directory is a direct child of the root.
  unfoldable pub IsActive : Service → Type 0
  IsActive service =
      (service.active_workspace_id ≡ [])
      ⊎ ((workspace_id : Bytes) × (directory : Bytes) × (resolve_workspace_directory c p service
              workspace_id
            ≡ ok directory)
          × (c.path_dir directory ≡ service.root_path)
          × (service.active_workspace_id ≡ c.path_base directory))

  resolve_workspace_directory_child :
      (service : Service) (workspace_id directory : Bytes)
      → resolve_workspace_directory c p service workspace_id ≡ ok directory
      → c.path_dir directory ≡ service.root_path
  unfolding resolve_workspace_directory
  resolve_workspace_directory_child service workspace_id directory e =
      elim (Bool-cases (str_eq workspace_id [])) [
        | inl empty ↦ absurd (ground (arith, empty, e))
        | inr named ↦
            elim (Result-cases (join_path_within_root c p service.root_path (workspace_id ∷ []))) [
              | inr (x, failed) ↦ absurd (ground (arith, named, failed, e))
              | inl (joined, done) ↦
                  elim (Bool-cases (str_eq (c.path_dir joined) service.root_path)) [
                    | inr other ↦ absurd (ground (arith, named, done, other, e))
                    | inl child ↦
                        let same : joined ≡ directory = ground (arith, named, done, child, e) in
                        sym (ap c.path_dir same)
                        ∙ (str_eq_iff (c.path_dir joined) service.root_path).0 child
                  ]
            ]
      ]

module _ (c : CoreText) (p : Platform) (chacha : ChaCha) (h : Digest) (rand_reader : Reader)
    (hkdf : Hkdf) (M : Storage) where
  -- The services that `New` makes, and those that switches and commands make of them. Other users
  -- of the medium may change it between two calls.
  pub data Reachable : Service → Type 0 where
    started :
        (provider : Option KeyPairProvider) (root : Bytes) (medium local s : Option M.State)
        (service : Service)
        → new c p chacha h rand_reader hkdf M provider root medium local ≡ (ok service, s)
        → Reachable service
    switched :
        (service : Service) (s : M.State) (workspace_id : Bytes)
        → Reachable service
        → Reachable (switch_workspace c p chacha h rand_reader hkdf M service s workspace_id).1
    handled :
        (service : Service) (s : M.State) (message : Option WorkspaceCommand)
        → Reachable service
        → Reachable
            ((handle_workspace_message c p chacha h rand_reader hkdf M service s message).1).0

  switch_workspace-IsActive :
      (service : Service) (s : M.State) (workspace_id : Bytes)
      → IsActive c p service
      → IsActive c p (switch_workspace c p chacha h rand_reader hkdf M service s workspace_id).1
  unfolding switch_workspace IsActive
  switch_workspace-IsActive service s workspace_id before =
      elim (Result-cases (resolve_workspace_directory c p service workspace_id)) [
        | inr (x, failed) ↦ rw (failed) before
        | inl (directory, done) ↦ elim (Bool-cases (M.is_dir s directory)) [
          | inr missing ↦ rw (done, missing) before
          | inl there ↦
              rw (done, there)
                (inr (
                  workspace_id,
                  directory,
                  done,
                  resolve_workspace_directory_child c p service workspace_id directory done,
                  refl,
                ))
        ]
      ]

  switched_to-IsActive :
      (service : Service) (s : M.State) (empty : Bool) (o : Outcome Service Unit)
      → IsActive c p service
      → IsActive c p o.1
      → IsActive c p
          (((if empty
              then (err invalid, (service, s))
              else switched_to c p chacha h rand_reader hkdf M s o)).1
            ).0
  switched_to-IsActive service s true o before after = before
  switched_to-IsActive service s false o before after = after

  handle_workspace_command-IsActive :
      (service : Service) (s : M.State) (command : WorkspaceCommand)
      → IsActive c p service
      → IsActive c p
          ((handle_workspace_command c p chacha h rand_reader hkdf M service s command).1).0
  unfolding handle_workspace_command
  handle_workspace_command-IsActive service s command before =
      let name = workspace_name command in
      let create =
        str_eq command.action (bytes "create")
        || str_eq command.action (bytes "workspace.create") in
      let switch =
        str_eq command.action (bytes "switch")
        || str_eq command.action (bytes "workspace.switch") in
      elim (Bool-cases create) [
        | inl creates ↦ elim (Bool-cases (str_eq name [])) [
          | inl empty ↦ rw (creates, empty) before
          | inr named ↦ rw (creates, named) before
        ]
        | inr other ↦ elim (Bool-cases switch) [
          | inr neither ↦ rw (other, neither) before
          | inl switches ↦
              rw (other, switches)
                (switched_to-IsActive service s (str_eq name [])
                  (switch_workspace c p chacha h rand_reader hkdf M service s name) before
                  (switch_workspace-IsActive service s name before))
        ]
      ]

  handle_workspace_message-IsActive :
      (service : Service) (s : M.State) (message : Option WorkspaceCommand)
      → IsActive c p service
      → IsActive c p
          ((handle_workspace_message c p chacha h rand_reader hkdf M service s message).1).0
  unfolding handle_workspace_message
  handle_workspace_message-IsActive service s none before = before
  handle_workspace_message-IsActive service s (some command) before =
      handle_workspace_command-IsActive service s command before

  ensured_inactive :
      (made : Service) (o : Outcome M.State Unit) (service : Service) (s : Option M.State)
      → ensured c p chacha h rand_reader hkdf M made o ≡ (ok service, s)
      → service ≡ made
  ensured_inactive made (ok done, u) service s e =
      let same : ok made ≡ ok service = ap (λ o. o.0) e in cc
  ensured_inactive made (err x, u) service s e =
      let same : err x ≡ ok service = ap (λ o. o.0) e in absurd (cc)

  on_medium_inactive :
      (provider : Option KeyPairProvider) (medium : Option M.State) (root : Bytes)
      (service : Service) (s : Option M.State)
      → on_medium c p chacha h rand_reader hkdf M provider medium root ≡ (ok service, s)
      → service.active_workspace_id ≡ []
  on_medium_inactive none medium root service s e =
      let same : err invalid ≡ ok service = ap (λ o. o.0) e in absurd (cc)
  on_medium_inactive (some provider) none root service s e =
      let same : err invalid ≡ ok service = ap (λ o. o.0) e in absurd (cc)
  on_medium_inactive (some provider) (some u) root service s e =
      ap (λ v. v.active_workspace_id)
        (ensured_inactive
          (record { key_pair_provider = some provider; active_workspace_id = []; root_path = root })
          (M.ensure_dir u root) service s e)

  new_inactive :
      (provider : Option KeyPairProvider) (root : Bytes) (medium local s : Option M.State)
      (service : Service)
      → new c p chacha h rand_reader hkdf M provider root medium local ≡ (ok service, s)
      → service.active_workspace_id ≡ []
  unfolding new
  new_inactive provider root medium local s service e =
      let at = or_else c p chacha h rand_reader hkdf M medium local in
      let home = home_directory c p in
      elim (Bool-cases (str_eq root [])) [
        | inr given ↦ on_medium_inactive provider at root service s (ground (arith, given, e))
        | inl empty ↦ elim (Bool-cases (str_eq home [])) [
          | inl homeless ↦ absurd (ground (arith, empty, homeless, e))
          | inr housed ↦
              on_medium_inactive provider at
                (p.path (home ∷ bytes ".core" ∷ bytes "workspaces" ∷ [])) service s
                (ground (arith, empty, housed, e))
        ]
      ]

  -- In every reachable service no workspace is active, or one whose directory is a direct child of
  -- the root, by its last part.
  pub Reachable-IsActive : (service : Service) → Reachable service → IsActive c p service
  unfolding IsActive
  Reachable-IsActive _ (started provider root medium local s service e) =
      inl (new_inactive provider root medium local s service e)
  Reachable-IsActive _ (switched service s workspace_id before) =
      switch_workspace-IsActive service s workspace_id (Reachable-IsActive service before)
  Reachable-IsActive _ (handled service s message before) =
      handle_workspace_message-IsActive service s message (Reachable-IsActive service before)
