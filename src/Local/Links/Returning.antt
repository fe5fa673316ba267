-- ===== src/Local/Links/Returning.antt =====
-- Links that lead to links, and in circles, are resolved in bounded depth.
use native.Mathlib.Omega.{arith}
use go_io.Common.{
  ℕ, zero, suc, ◌≤◌, ◌<◌, ◌≡◌, ◌≢◌, inl, inr, Bool-cases, Bool, true, false, List, [], ◌∷◌,
  if◌then◌else◌,
}
use go_io.Common.Lists.{length}
use go_io.Common.Bytes.{Bytes, str_eq, str_eq_iff, str_eq_refl}
use go_io.Common.Results.{Result, ok, err, Result-cases, out_of_fuel}
use go_io.CoreText.{CoreText}
use go_io.PathText.{PathText}
use go_io.Local.{
  Platform, System, is_not_exist, member, dir_separator, split_path_parts, absolute_path, readlink,
  clean_sandbox_path, is_within_root,
}
use go_io.Local.Links.{
  Resolver, link_target, resolve_symlink_target, resolve_part, resolve_parts,
  resolve_symlinks_recursive, resolve_symlinks_path, validate_part, validate_parts, validate_path,
}

-- How many of the targets are not being resolved.
unfoldable unseen : List Bytes → List Bytes → ℕ
unfolding member
unseen [] seen = 0
unseen (x ∷ targets) seen =
    let rest = unseen targets seen in if member x seen then rest else suc rest

unseen_le :
    (targets seen : List Bytes) (x : Bytes) → unseen targets (x ∷ seen) ≤ unseen targets seen
unfolding unseen member
unseen_le [] seen x = omega arith
unseen_le (y ∷ targets) seen x = ground (arith, unseen_le targets seen x)

unseen_less :
    (targets seen : List Bytes) (x : Bytes)
    → member x targets ≡ true
    → member x seen ≡ false
    → unseen targets (x ∷ seen) < unseen targets seen
unfolding unseen member
unseen_less [] seen x h new = absurd (cc)
unseen_less (y ∷ targets) seen x h new =
    ground
      (arith, str_eq_iff x y, str_eq_iff y x, unseen_less targets seen x, unseen_le targets seen x)

unseen-nil : (targets : List Bytes) → unseen targets [] ≤ length targets
unfolding unseen member
unseen-nil [] = omega arith
unseen-nil (x ∷ targets) = ground (arith, unseen-nil targets)

module _ (c : CoreText) (t : PathText) (p : Platform) (o : System) (rounds : ℕ) where
  -- A file system with finitely many targets of links, whose calls do not run out of fuel.
  pub record IsFinite (s : o.storage.State) (targets : List Bytes) : Type 0 where
    pub lstat_returns : (path : Bytes) → o.lstat s path ≢ err out_of_fuel
    pub readlink_returns : (path : Bytes) → readlink o rounds s path ≢ err out_of_fuel
    pub targets_known :
        (path current part target : Bytes)
        → member part (split_path_parts c t p (p.path (path ∷ []))) ≡ true
        → readlink o rounds s (p.path (current ∷ part ∷ [])) ≡ ok target
        → member (link_target c t p o rounds current target) targets ≡ true

  module _ (s : o.storage.State) (targets : List Bytes) (F : IsFinite s targets) where
    resolve_symlink_target_returns :
        (resolver : Resolver c t p o rounds) (path current part : Bytes) (seen : List Bytes)
        → ((inner : Bytes) (more : List Bytes)
            → unseen targets more < unseen targets seen
            → resolver inner more ≢ err out_of_fuel)
        → member part (split_path_parts c t p (p.path (path ∷ []))) ≡ true
        → resolve_symlink_target c t p o rounds resolver s current
            (p.path (current ∷ part ∷ []))
            seen
          ≢ err out_of_fuel
    unfolding resolve_symlink_target
    resolve_symlink_target_returns resolver path current part seen deeper known e =
        let next = p.path (current ∷ part ∷ []) in
        elim (Result-cases (readlink o rounds s next)) [
          | inr (x, failed) ↦ F.readlink_returns next (ground (arith, failed, e))
          | inl (target, found) ↦
              let goal = link_target c t p o rounds current target in
              let is_known = F.targets_known path current part target known found in
              elim (Bool-cases (member goal seen)) [
                | inl again ↦ absurd (ground (arith, found, again, e))
                | inr new ↦
                    deeper goal (goal ∷ seen) (unseen_less targets seen goal is_known new)
                      (ground (arith, found, new, e))
              ]
        ]

    resolve_part_returns :
        (resolver : Resolver c t p o rounds) (path current part : Bytes) (seen : List Bytes)
        (info : Result Bool)
        → ((inner : Bytes) (more : List Bytes)
            → unseen targets more < unseen targets seen
            → resolver inner more ≢ err out_of_fuel)
        → member part (split_path_parts c t p (p.path (path ∷ []))) ≡ true
        → info ≢ err out_of_fuel
        → resolve_part c t p o rounds resolver s seen current (p.path (current ∷ part ∷ [])) info
          ≢ err out_of_fuel
    resolve_part_returns resolver path current part seen (ok false) deeper known h e = absurd (cc)
    resolve_part_returns resolver path current part seen (ok true) deeper known h e =
        resolve_symlink_target_returns resolver path current part seen deeper known e
    resolve_part_returns resolver path current part seen (err x) deeper known h e =
        elim (Bool-cases (is_not_exist x)) [
          | inl gone ↦ absurd (ground (arith, gone, e))
          | inr other ↦ h (ground (arith, other, e))
        ]

    resolve_parts_returns :
        (resolver : Resolver c t p o rounds) (path current : Bytes) (parts seen : List Bytes)
        → ((inner : Bytes) (more : List Bytes)
            → unseen targets more < unseen targets seen
            → resolver inner more ≢ err out_of_fuel)
        → ((part : Bytes)
            → member part parts ≡ true
            → member part (split_path_parts c t p (p.path (path ∷ []))) ≡ true)
        → resolve_parts c t p o rounds resolver s seen current parts ≢ err out_of_fuel
    unfolding resolve_parts member
    resolve_parts_returns resolver path current [] seen deeper known e = absurd (cc)
    resolve_parts_returns resolver path current (part ∷ parts) seen deeper known e =
        let next = p.path (current ∷ part ∷ []) in
        let first = resolve_part c t p o rounds resolver s seen current next (o.lstat s next) in
        let here : member part (split_path_parts c t p (p.path (path ∷ []))) ≡ true =
          known part (ground (arith, str_eq_refl part)) in
        elim (Result-cases first) [
          | inr (x, failed) ↦
              resolve_part_returns resolver path current part seen (o.lstat s next) deeper here
                (F.lstat_returns next) (ground (arith, failed, e))
          | inl (resolved, done) ↦
              resolve_parts_returns resolver path resolved parts seen deeper
                (λ q m. known q (ground (arith, m))) (ground (arith, done, e))
        ]

    resolve_symlinks_recursive_returns :
        (depth : ℕ) (path : Bytes) (seen : List Bytes)
        → unseen targets seen < depth
        → resolve_symlinks_recursive c t p o rounds depth s path seen ≢ err out_of_fuel
    unfolding resolve_symlinks_recursive
    resolve_symlinks_recursive_returns zero path seen h e = absurd (omega arith)
    resolve_symlinks_recursive_returns (suc depth) path seen h e =
        elim (Bool-cases (str_eq (p.path (path ∷ [])) (dir_separator c t p))) [
          | inl top ↦ absurd (ground (arith, top, e))
          | inr under ↦
              resolve_parts_returns (resolve_symlinks_recursive c t p o rounds depth s) path
                (dir_separator c t p) (split_path_parts c t p (p.path (path ∷ []))) seen
                (λ inner more less.
                  resolve_symlinks_recursive_returns depth inner more (omega arith))
                (λ part m. m) (ground (arith, under, e))
        ]

    module _ (depth : ℕ) (deep : length targets < depth) where
      resolve_symlinks_path_returns :
          (path : Bytes) → resolve_symlinks_path c t p o rounds depth s path ≢ err out_of_fuel
      unfolding resolve_symlinks_path
      resolve_symlinks_path_returns path =
          resolve_symlinks_recursive_returns depth (absolute_path c t p path) []
            (omega (arith, unseen-nil targets))

      validate_part_returns :
          (root next : Bytes) (r : Result Bytes)
          → r ≢ err out_of_fuel
          → validate_part c t p o rounds depth root next r ≢ err out_of_fuel
      validate_part_returns root next (ok real_next) h e =
          elim (Bool-cases (is_within_root c t p root real_next)) [
            | inl inside ↦ absurd (ground (arith, inside, e))
            | inr outside ↦ absurd (ground (arith, outside, e))
          ]
      validate_part_returns root next (err x) h e = elim (Bool-cases (is_not_exist x)) [
        | inl gone ↦ absurd (ground (arith, gone, e))
        | inr other ↦ h (ground (arith, other, e))
      ]

      validate_parts_returns :
          (root current : Bytes) (parts : List Bytes)
          → validate_parts c t p o rounds depth s root current parts ≢ err out_of_fuel
      unfolding validate_parts
      validate_parts_returns root current [] e = absurd (cc)
      validate_parts_returns root current (part ∷ parts) e =
          let next = p.path (current ∷ part ∷ []) in
          let real = resolve_symlinks_path c t p o rounds depth s next in
          elim (Result-cases (validate_part c t p o rounds depth root next real)) [
            | inr (x, failed) ↦
                validate_part_returns root next real (resolve_symlinks_path_returns next)
                  (ground (arith, failed, e))
            | inl (resolved, done) ↦
                validate_parts_returns root resolved parts (ground (arith, done, e))
          ]

      -- Paths are validated in bounded depth: with more fuel than there are targets of links the
      -- search for links ends, also when links lead to each other in a circle.
      pub validate_path_returns :
          (root path : Bytes) → validate_path c t p o rounds depth s root path ≢ err out_of_fuel
      unfolding validate_path
      validate_path_returns root path e = elim (Bool-cases (str_eq root (dir_separator c t p))) [
        | inl top ↦ absurd (ground (arith, top, e))
        | inr under ↦
            validate_parts_returns root root
              (split_path_parts c t p (clean_sandbox_path c t p path)) (ground (arith, under, e))
      ]
