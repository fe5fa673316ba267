-- ===== src/Workspace/Encrypted/Tests.antt =====
-- The theorems on encrypted workspaces at concrete inputs, over the memory medium, the plain
-- functions and stand-ins for the cipher and for HKDF.
use go_io.Common.{◌≡◌, ◌%◌, refl, some, none, Option, [], ◌∷◌}
use go_io.Common.Lists.{replicate}
use go_io.Common.Bytes.{Bytes, bytes, str_eq}
use go_io.Common.GoMap
use go_io.Common.Results.{ok, err, not_exist, invalid, permission}
use go_io.CoreText.Parts
use go_io.CoreText.Plain
use go_io.CoreText.Plain.{plain, plain-IsLawful}
use go_io.Local.Plain.{plain_platform}
use go_io.Memory
use go_io.Memory.{MemoryMedium, new_memory_medium}
use go_io.Memory.Keeping.{memory_storage-IsKeeping}
use go_io.Memory.Whole.{memory_storage}
use go_io.Sigil
use go_io.Sigil.Cipher
use go_io.Sigil.Codec
use go_io.Sigil.Toy.{total, toy_digest, toy_chacha, toy_chacha-IsLawful, toy_reader}
use go_io.Storage.{Storage}
use go_io.Storage.Contract.{found}
use go_io.Workspace.Encrypted
use go_io.Workspace.Encrypted.{KeyPairProvider, Hkdf, Service, resolve_active_workspace_file_path}
use go_io.Workspace.Encrypted.Methods
use go_io.Workspace.Encrypted.Methods.{
  new, read_workspace_file, write_workspace_file, create_workspace, switch_workspace,
}
use go_io.Workspace.Encrypted.Active.{IsActive, started, switched, Reachable-IsActive}
use go_io.Workspace.Encrypted.Keeping.{read-write_workspace_file}

abbrev M : Storage
M = memory_storage plain 7 (λ m. []) (λ m. [])

abbrev toy_hkdf : Hkdf
toy_hkdf = λ hash secret salt info size. ok (replicate size (total secret % 256))

abbrev provider : KeyPairProvider
provider = record { create_key_pair = λ identifier passphrase. ok passphrase }

abbrev service : Service
service = record {
  key_pair_provider = some provider;
  active_workspace_id = bytes "0a";
  root_path = bytes "/srv";
}

abbrev key_file : Bytes
key_file = bytes "/srv/0a/keys/private.key"

abbrev with_key : MemoryMedium
with_key = record new_memory_medium {
  file_contents = (key_file, bytes "k") ∷ [];
  file_modes = (key_file, 384) ∷ [];
  modification_times = (key_file, 7) ∷ [];
}

resolved :
    resolve_active_workspace_file_path plain plain_platform service (bytes "a")
    ≡ ok (bytes "/srv/0a/files/a")
resolved =
    unfold resolve_active_workspace_file_path Encrypted.join_path_within_root Encrypted.separator
      Parts.clean Plain.starts str_eq in
    refl

other_resolved :
    resolve_active_workspace_file_path plain plain_platform service (bytes "b")
    ≡ ok (bytes "/srv/0a/files/b")
other_resolved =
    unfold resolve_active_workspace_file_path Encrypted.join_path_within_root Encrypted.separator
      Parts.clean Plain.starts str_eq in
    refl

nothing_named : resolve_active_workspace_file_path plain plain_platform service [] ≡ err invalid
nothing_named =
    unfold resolve_active_workspace_file_path Encrypted.join_path_within_root Encrypted.separator
      Parts.clean Plain.starts str_eq in
    refl

run :
    read_workspace_file plain plain_platform toy_chacha toy_digest toy_reader toy_hkdf M service
      with_key
      (bytes "a")
    ≡ err not_exist
run =
    unfold read_workspace_file resolve_active_workspace_file_path Encrypted.join_path_within_root
      Encrypted.separator Methods.workspace_cipher_sigil Cipher.new_cha_cha_poly_sigil Parts.clean
      Plain.starts Memory.read GoMap.lookup str_eq in
    refl

abbrev with_file : MemoryMedium
with_file =
    (write_workspace_file plain plain_platform toy_chacha toy_digest toy_reader toy_hkdf M service
      with_key (bytes "a") (bytes "hi")).1

write_run :
    write_workspace_file plain plain_platform toy_chacha toy_digest toy_reader toy_hkdf M service
      with_key
      (bytes "a")
      (bytes "hi")
    ≡ (ok tt, with_file)
write_run =
    unfold write_workspace_file Methods.encrypted resolve_active_workspace_file_path
      Encrypted.join_path_within_root Encrypted.separator Methods.workspace_cipher_sigil
      Cipher.new_cha_cha_poly_sigil Cipher.inward Cipher.new_aead Cipher.seal_with
      Cipher.apply_obfuscator Sigil.transmute Parts.clean Plain.starts Memory.read Memory.write
      Memory.write_mode Memory.put_file Memory.ancestor_is_file Memory.ensure_ancestor_directories
      Memory.mark_ancestors GoMap.lookup GoMap.insert Plain.before_slash str_eq in
    refl

read-write_workspace_file_example :
    (read_workspace_file plain plain_platform toy_chacha toy_digest toy_reader toy_hkdf M service
        with_file
        (bytes "a")
      ≡ ok (bytes "hi"))
    × (found (
          read_workspace_file plain plain_platform toy_chacha toy_digest toy_reader toy_hkdf M
            service with_file
            (bytes "b"))
        ≡ found (
            read_workspace_file plain plain_platform toy_chacha toy_digest toy_reader toy_hkdf M
              service with_key
              (bytes "b")))
read-write_workspace_file_example =
    read-write_workspace_file plain plain-IsLawful plain_platform toy_chacha toy_chacha-IsLawful
      toy_digest toy_reader toy_hkdf M
      (memory_storage-IsKeeping plain plain-IsLawful 7 (λ m. []) (λ m. [])) service with_key
      with_file (bytes "a") (bytes "hi") (replicate 24 7) (bytes "/srv/0a/files/a") (bytes "b")
      (bytes "/srv/0a/files/b")
      (record {
        directory = bytes "/srv/0a";
        between = bytes "/";
        files = unfold Parts.clean in refl;
        key = unfold Parts.clean in refl;
      })
      refl refl resolved other_resolved (unfold str_eq in refl) write_run

abbrev fresh : Service
fresh = record service { active_workspace_id = [] }

abbrev at_root : Option MemoryMedium
at_root =
    (new plain plain_platform toy_chacha toy_digest toy_reader toy_hkdf M (some provider)
      (bytes "/srv") (some new_memory_medium) none).1

new_run :
    new plain plain_platform toy_chacha toy_digest toy_reader toy_hkdf M
      (some provider)
      (bytes "/srv")
      (some new_memory_medium)
      none
    ≡ (ok fresh, at_root)
new_run =
    unfold new Encrypted.home_directory Memory.ensure_dir Memory.mark_ancestors GoMap.lookup
      GoMap.insert Parts.clean Plain.before_slash Plain.starts str_eq in
    refl

switch_run :
    switch_workspace plain plain_platform toy_chacha toy_digest toy_reader toy_hkdf M fresh with_key
      (bytes "0a")
    ≡ (ok tt, service)
switch_run =
    unfold switch_workspace Encrypted.resolve_workspace_directory Encrypted.join_path_within_root
      Encrypted.separator Memory.is_dir GoMap.any_key Plain.ends Plain.after_slash Parts.clean
      Plain.starts Plain.before_slash GoMap.lookup str_eq in
    refl

Reachable-IsActive_example :
    IsActive plain plain_platform
      (switch_workspace plain plain_platform toy_chacha toy_digest toy_reader toy_hkdf M fresh
        with_key
        (bytes "0a")).1
Reachable-IsActive_example =
    Reachable-IsActive plain plain_platform toy_chacha toy_digest toy_reader toy_hkdf M
      (switch_workspace plain plain_platform toy_chacha toy_digest toy_reader toy_hkdf M fresh
        with_key (bytes "0a")).1
      (switched fresh with_key (bytes "0a") (
        started (some provider) (bytes "/srv") (some new_memory_medium) none at_root fresh new_run))

-- With a root that ends in a slash no workspace can be created.
trailing_slash :
    create_workspace plain plain_platform toy_chacha toy_digest toy_reader toy_hkdf M
      (record fresh { root_path = bytes "/srv/" })
      new_memory_medium
      (bytes "alice")
      (bytes "secret")
    ≡ (err permission, new_memory_medium)
trailing_slash =
    unfold create_workspace Encrypted.resolve_workspace_directory Encrypted.join_path_within_root
      Encrypted.separator Encrypted.sha256_hex Codec.hex_encode Codec.hex_digit Parts.clean
      Plain.starts str_eq in
    refl

created_run :
    (create_workspace plain plain_platform toy_chacha toy_digest toy_reader toy_hkdf M fresh
      new_memory_medium
      (bytes "alice")
      (bytes "secret")).0
    ≡ ok (Encrypted.sha256_hex toy_digest (bytes "alice"))
created_run =
    unfold create_workspace Encrypted.resolve_workspace_directory Encrypted.join_path_within_root
      Encrypted.separator Methods.ensure_directories Encrypted.sha256_hex Codec.hex_encode
      Codec.hex_digit Memory.exists Memory.ensure_dir Memory.mark_ancestors Memory.write_mode
      Memory.put_file Memory.ancestor_is_file Memory.ensure_ancestor_directories GoMap.lookup
      GoMap.insert GoMap.any_key Plain.ends Plain.after_slash Plain.before_slash Parts.clean
      Plain.starts str_eq in
    refl
