-- ===== src/Local/Links.antt =====
-- go/local/medium.go: symbolic links resolved part by part, protected paths, and the check that a
-- path stays inside the root. The set `seen` of the targets that are being resolved is a list: what
-- a call adds to it, it takes away when it returns.
pub mod Reading
pub mod Returning
pub mod Real
pub mod Validated
use go_io.Common.{
  ℕ, zero, suc, Bool, true, false, not, ◌&&◌, ◌||◌, List, [], ◌∷◌, ◌++◌, if◌then◌else◌,
}
use go_io.Common.Bytes.{Bytes, bytes, str_eq}
use go_io.Common.Results.{
  Result, ok, err, Error, ◌>>=◌, invalid, permission, not_exist, out_of_fuel,
}
use go_io.CoreText.{CoreText}
use go_io.PathText.{PathText}
use go_io.Storage.{Storage}
use go_io.Local.{
  Platform, System, is_not_exist, member, dir_separator, normalise_path, absolute_path,
  split_path_parts, clean_sandbox_path, is_within_root, sandboxed_path, readlink,
}

module _ (c : CoreText) (t : PathText) (p : Platform) (o : System) (rounds : ℕ) where
  abbrev pub State : Type 0
  State = o.storage.State

  -- The target of a link as an absolute path: relative ones start where the link stands.
  unfoldable pub link_target : Bytes → Bytes → Bytes
  unfolding normalise_path
  link_target current target =
      if not (p.path_is_abs (normalise_path c t p target))
      then p.path (current ∷ normalise_path c t p target ∷ [])
      else p.path (normalise_path c t p target ∷ [])

  -- The resolution of paths that the loops below call for the target of a link.
  abbrev pub Resolver : Type 0
  Resolver = Bytes → List Bytes → Result Bytes

  -- `resolveSymlinkTarget`
  unfoldable pub resolve_symlink_target :
      Resolver → State → Bytes → Bytes → List Bytes → Result Bytes
  unfolding readlink link_target member
  resolve_symlink_target resolver s current next seen = readlink o rounds s next >>= λ target.
      if member (link_target current target) seen
      then err invalid
      else resolver (link_target current target) (link_target current target ∷ seen)

  -- The round of the loop of `resolveSymlinksRecursive` for one part.
  abbrev pub resolve_part :
      Resolver → State → List Bytes → Bytes → Bytes → Result Bool → Result Bytes
  resolve_part resolver s seen current next (err e) = if is_not_exist e then ok next else err e
  resolve_part resolver s seen current next (ok false) = ok next
  resolve_part resolver s seen current next (ok true) =
      resolve_symlink_target resolver s current next seen

  -- The loop of `resolveSymlinksRecursive`.
  unfoldable pub resolve_parts : Resolver → State → List Bytes → Bytes → List Bytes → Result Bytes
  unfolding resolve_symlink_target
  resolve_parts resolver s seen current [] = ok current
  resolve_parts resolver s seen current (part ∷ parts) =
      let next = p.path (current ∷ part ∷ []) in
      resolve_part resolver s seen current next (o.lstat s next) >>= λ resolved.
      resolve_parts resolver s seen resolved parts

  -- `resolveSymlinksRecursive`; fuel bounds how deep links lead to links.
  unfoldable pub resolve_symlinks_recursive : ℕ → State → Bytes → List Bytes → Result Bytes
  unfolding resolve_parts split_path_parts dir_separator str_eq
  resolve_symlinks_recursive zero s path seen = err out_of_fuel
  resolve_symlinks_recursive (suc depth) s path seen =
      let resolver = resolve_symlinks_recursive depth s in
      let clean = p.path (path ∷ []) in
      let separator = dir_separator c t p in
      if str_eq clean separator
      then ok clean
      else resolve_parts resolver s seen separator (split_path_parts c t p clean)

  module _ (depth : ℕ) where
    -- `resolveSymlinksPath`
    unfoldable pub resolve_symlinks_path : State → Bytes → Result Bytes
    unfolding resolve_symlinks_recursive absolute_path
    resolve_symlinks_path s path = resolve_symlinks_recursive depth s (absolute_path c t p path) []

    abbrev canonical_or : Bytes → Result Bytes → Bytes
    canonical_or path (ok resolved) = resolved
    canonical_or path (err e) = absolute_path c t p path

    -- `canonicalPath`
    unfoldable pub canonical_path : State → Bytes → Bytes
    unfolding resolve_symlinks_path str_eq
    canonical_path s path =
        if str_eq path [] then [] else canonical_or path (resolve_symlinks_path s path)

    -- The directories of `isProtectedPath` that are set, as canonical paths.
    unfoldable pub protected_homes : State → List Bytes → List Bytes
    unfolding canonical_path str_eq
    protected_homes s [] = []
    protected_homes s (home ∷ homes) =
        let rest = protected_homes s homes in
        if str_eq home [] then rest else canonical_path s home ∷ rest

    -- `isProtectedPath`
    unfoldable pub is_protected_path : State → Bytes → Bool
    unfolding canonical_path protected_homes member dir_separator
    is_protected_path s full_path = member (canonical_path s full_path) (
        canonical_path s (dir_separator c t p)
        ∷ protected_homes s (p.env (bytes "HOME") ∷ p.env (bytes "DIR_HOME") ∷ []))

    -- `New`: the root of the medium.
    unfoldable pub new : State → Bytes → Bytes
    unfolding resolve_symlinks_path absolute_path
    new s root = elim (resolve_symlinks_path s (absolute_path c t p root)) [
      | ok resolved ↦ resolved
      | err e ↦ absolute_path c t p root
    ]

    -- What `validatePath` makes of the resolution of one part.
    abbrev pub validate_part : Bytes → Bytes → Result Bytes → Result Bytes
    validate_part root next (err e) = if is_not_exist e then ok next else err e
    validate_part root next (ok real_next) =
        if not (is_within_root c t p root real_next) then err permission else ok real_next

    -- The loop of `validatePath`.
    unfoldable pub validate_parts : State → Bytes → Bytes → List Bytes → Result Bytes
    unfolding resolve_symlinks_path is_within_root
    validate_parts s root current [] = ok current
    validate_parts s root current (part ∷ parts) =
        let next = p.path (current ∷ part ∷ []) in
        validate_part root next (resolve_symlinks_path s next) >>= λ resolved.
        validate_parts s root resolved parts

    -- `validatePath`
    unfoldable pub validate_path : State → Bytes → Bytes → Result Bytes
    unfolding validate_parts clean_sandbox_path split_path_parts sandboxed_path dir_separator str_eq
    validate_path s root path =
        if str_eq root (dir_separator c t p)
        then ok (sandboxed_path c t p root path)
        else validate_parts s root root (split_path_parts c t p (clean_sandbox_path c t p path))
