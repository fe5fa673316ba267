-- ===== src/Local/Links/Real.antt =====
-- go/local/medium.go: what paths are resolved to has no symbolic link in it.
use native.Mathlib.Omega.{arith}
use mathlib.Core.Path.{subst}
use go_io.Common.{
  ℕ, zero, suc, ◌≡◌, ◌≢◌, ◌⊎◌, inl, inr, refl, sym, ap, ◌∙◌, Bool-cases, Bool, true, false, List,
  [], ◌∷◌,
}
use go_io.Common.Bytes.{Bytes, str_eq, str_eq_iff, str_eq_refl}
use go_io.Common.Results.{
  Result, ok, err, Error, Result-cases, not_exist, exist, invalid, permission, invalid_key,
  invalid_nonce, ciphertext_too_short, decryption_failed, no_key_configured, refused, out_of_fuel,
  failure,
}
use go_io.CoreText.{CoreText}
use go_io.PathText.{PathText}
use go_io.Local.{Platform, System, is_not_exist, member, dir_separator, split_path_parts, readlink}
use go_io.Local.Links.{
  Resolver, link_target, resolve_symlink_target, resolve_part, resolve_parts,
  resolve_symlinks_recursive,
}

pub is_not_exist-only : (e : Error) → is_not_exist e ≡ true → e ≡ not_exist
is_not_exist-only not_exist h = refl
is_not_exist-only exist h = absurd (cc)
is_not_exist-only invalid h = absurd (cc)
is_not_exist-only permission h = absurd (cc)
is_not_exist-only invalid_key h = absurd (cc)
is_not_exist-only invalid_nonce h = absurd (cc)
is_not_exist-only ciphertext_too_short h = absurd (cc)
is_not_exist-only decryption_failed h = absurd (cc)
is_not_exist-only no_key_configured h = absurd (cc)
is_not_exist-only refused h = absurd (cc)
is_not_exist-only out_of_fuel h = absurd (cc)
is_not_exist-only (failure n) h = absurd (cc)

-- The file system has no symbolic link at the path: something else, or nothing.
abbrev pub IsNoLink : (o : System) → o.storage.State → Bytes → Type 0
IsNoLink o s path = (o.lstat s path ≡ ok false) ⊎ (o.lstat s path ≡ err not_exist)

module _ (c : CoreText) (t : PathText) (p : Platform) (o : System) where
  -- The root of the file system, or a path with no link, one name below such a path.
  pub data IsReal (s : o.storage.State) : Bytes → Type 0 where
    top : IsReal s (dir_separator c t p)
    child :
        (current part : Bytes)
        → IsReal s current
        → c.contains part (dir_separator c t p) ≡ false
        → IsNoLink o s (p.path (current ∷ part ∷ []))
        → IsReal s (p.path (current ∷ part ∷ []))

  -- `core.Path` gives paths whose parts have no separator.
  pub record IsParted : Type 0 where
    pub part_free :
        (segments : List Bytes) (part : Bytes)
        → member part (split_path_parts c t p (p.path segments)) ≡ true
        → c.contains part (dir_separator c t p) ≡ false

  module _ (rounds : ℕ) where
    -- What `lstat` gives as a link, `readlink` finds.
    pub record IsSteady (s : o.storage.State) : Type 0 where
      pub link_there :
          (path : Bytes) → o.lstat s path ≡ ok true → readlink o rounds s path ≢ err not_exist

    module _ (s : o.storage.State) (D : IsParted) (S : IsSteady s) where
      -- A resolution that gives real paths, and never `fs.ErrNotExist`.
      abbrev pub IsResolving : Resolver c t p o rounds → Type 0
      IsResolving resolver =
          ((path : Bytes) (seen : List Bytes) (q : Bytes) → resolver path seen ≡ ok q → IsReal s q)
          × ((path : Bytes) (seen : List Bytes) → resolver path seen ≢ err not_exist)

      resolve_symlink_target-IsReal :
          (resolver : Resolver c t p o rounds) (current next q : Bytes) (seen : List Bytes)
          → IsResolving resolver
          → resolve_symlink_target c t p o rounds resolver s current next seen ≡ ok q
          → IsReal s q
      unfolding resolve_symlink_target
      resolve_symlink_target-IsReal resolver current next q seen R e =
          elim (Result-cases (readlink o rounds s next)) [
            | inr (x, failed) ↦ absurd (ground (arith, failed, e))
            | inl (target, found) ↦
                let goal = link_target c t p o rounds current target in
                elim (Bool-cases (member goal seen)) [
                  | inl again ↦ absurd (ground (arith, found, again, e))
                  | inr new ↦ R.0 goal (goal ∷ seen) q (ground (arith, found, new, e))
                ]
          ]

      resolve_symlink_target-exists :
          (resolver : Resolver c t p o rounds) (current next : Bytes) (seen : List Bytes)
          → IsResolving resolver
          → o.lstat s next ≡ ok true
          → resolve_symlink_target c t p o rounds resolver s current next seen ≢ err not_exist
      unfolding resolve_symlink_target
      resolve_symlink_target-exists resolver current next seen R linked e =
          elim (Result-cases (readlink o rounds s next)) [
            | inr (x, failed) ↦ S.link_there next linked (ground (arith, failed, e))
            | inl (target, found) ↦
                let goal = link_target c t p o rounds current target in
                elim (Bool-cases (member goal seen)) [
                  | inl again ↦ absurd (ground (arith, found, again, e))
                  | inr new ↦ R.1 goal (goal ∷ seen) (ground (arith, found, new, e))
                ]
          ]

      resolve_part-IsReal :
          (resolver : Resolver c t p o rounds) (current part q : Bytes) (seen : List Bytes)
          (info : Result Bool)
          → IsResolving resolver
          → IsReal s current
          → c.contains part (dir_separator c t p) ≡ false
          → o.lstat s (p.path (current ∷ part ∷ [])) ≡ info
          → resolve_part c t p o rounds resolver s seen current (p.path (current ∷ part ∷ [])) info
            ≡ ok q
          → IsReal s q
      resolve_part-IsReal resolver current part q seen (ok false) R real free seen_as e =
          let same : p.path (current ∷ part ∷ []) ≡ q = cc in
          subst (IsReal s) same (child current part real free (inl seen_as))
      resolve_part-IsReal resolver current part q seen (ok true) R real free seen_as e =
          resolve_symlink_target-IsReal resolver current (p.path (current ∷ part ∷ [])) q seen R e
      resolve_part-IsReal resolver current part q seen (err x) R real free seen_as e =
          elim (Bool-cases (is_not_exist x)) [
            | inr other ↦ absurd (ground (arith, other, e))
            | inl gone ↦
                let same : p.path (current ∷ part ∷ []) ≡ q = ground (arith, gone, e) in
                let missing = seen_as ∙ ap err (is_not_exist-only x gone) in
                subst (IsReal s) same (child current part real free (inr missing))
          ]

      resolve_part-exists :
          (resolver : Resolver c t p o rounds) (current next : Bytes) (seen : List Bytes)
          (info : Result Bool)
          → IsResolving resolver
          → o.lstat s next ≡ info
          → resolve_part c t p o rounds resolver s seen current next info ≢ err not_exist
      resolve_part-exists resolver current next seen (ok false) R seen_as e = absurd (cc)
      resolve_part-exists resolver current next seen (ok true) R seen_as e =
          resolve_symlink_target-exists resolver current next seen R seen_as e
      resolve_part-exists resolver current next seen (err x) R seen_as e =
          elim (Bool-cases (is_not_exist x)) [
            | inl gone ↦ absurd (ground (arith, gone, e))
            | inr other ↦
                let is_it : x ≡ not_exist = ground (arith, other, e) in
                let yes : is_not_exist x ≡ true = ap is_not_exist is_it in cc
          ]

      resolve_parts-IsReal :
          (resolver : Resolver c t p o rounds) (segments : List Bytes) (current q : Bytes)
          (parts seen : List Bytes)
          → IsResolving resolver
          → ((part : Bytes)
              → member part parts ≡ true
              → member part (split_path_parts c t p (p.path segments)) ≡ true)
          → IsReal s current
          → resolve_parts c t p o rounds resolver s seen current parts ≡ ok q
          → IsReal s q
      unfolding resolve_parts member
      resolve_parts-IsReal resolver segments current q [] seen R known real e =
          let same : current ≡ q = cc in subst (IsReal s) same real
      resolve_parts-IsReal resolver segments current q (part ∷ parts) seen R known real e =
          let next = p.path (current ∷ part ∷ []) in
          let first = resolve_part c t p o rounds resolver s seen current next (o.lstat s next) in
          let here = D.part_free segments part (known part (ground (arith, str_eq_refl part))) in
          elim (Result-cases first) [
            | inr (x, failed) ↦ absurd (ground (arith, failed, e))
            | inl (resolved, done) ↦
                resolve_parts-IsReal resolver segments resolved q parts seen R
                  (λ r m. known r (ground (arith, m)))
                  (resolve_part-IsReal resolver current part resolved seen (o.lstat s next) R real
                    here refl done)
                  (ground (arith, done, e))
          ]

      resolve_parts-exists :
          (resolver : Resolver c t p o rounds) (current : Bytes) (parts seen : List Bytes)
          → IsResolving resolver
          → resolve_parts c t p o rounds resolver s seen current parts ≢ err not_exist
      unfolding resolve_parts
      resolve_parts-exists resolver current [] seen R e = absurd (cc)
      resolve_parts-exists resolver current (part ∷ parts) seen R e =
          let next = p.path (current ∷ part ∷ []) in
          let first = resolve_part c t p o rounds resolver s seen current next (o.lstat s next) in
          elim (Result-cases first) [
            | inr (x, failed) ↦
                resolve_part-exists resolver current next seen (o.lstat s next) R refl
                  (ground (arith, failed, e))
            | inl (resolved, done) ↦
                resolve_parts-exists resolver resolved parts seen R (ground (arith, done, e))
          ]

      pub resolve_symlinks_recursive-IsResolving :
          (depth : ℕ) → IsResolving (resolve_symlinks_recursive c t p o rounds depth s)
      unfolding resolve_symlinks_recursive
      resolve_symlinks_recursive-IsResolving zero =
          ((λ path seen q e. absurd (cc)), λ path seen e. absurd (cc))
      resolve_symlinks_recursive-IsResolving (suc depth) =
          let R = resolve_symlinks_recursive-IsResolving depth in
          let resolver = resolve_symlinks_recursive c t p o rounds depth s in
          let sep = dir_separator c t p in
          (
            (λ path seen q e.
                let clean = p.path (path ∷ []) in
                elim (Bool-cases (str_eq clean sep)) [
                  | inl is_top ↦
                      let same : clean ≡ q = ground (arith, is_top, e) in
                      subst (IsReal s) (sym ((str_eq_iff clean sep).0 is_top) ∙ same) top
                  | inr under ↦
                      resolve_parts-IsReal resolver (path ∷ []) sep q (split_path_parts c t p clean)
                        seen R (λ part m. m) top (ground (arith, under, e))
                ]),
            λ path seen e.
                let clean = p.path (path ∷ []) in
                elim (Bool-cases (str_eq clean sep)) [
                  | inl is_top ↦ absurd (ground (arith, is_top, e))
                  | inr under ↦
                      resolve_parts-exists resolver sep (split_path_parts c t p clean) seen R
                        (ground (arith, under, e))
                ],
          )
