-- ===== src/Datanode/Rooted.antt =====
-- When `ensureDirsLocked` comes to an end, and a path for which it does not.
use native.Mathlib.Omega.{arith}
use go_io.Common.{
  ℕ, zero, suc, ◌≡◌, ◌≢◌, ◌⊎◌, ◌<◌, sym, ◌↔◌, inl, inr, refl, Bool-cases, Bool, true, false, [],
}
use go_io.Common.Bytes.{Bytes, str_eq, str_eq_iff}
use go_io.Common.GoMap.{GoMap, insert, has_key, lookup-insert}
use go_io.Common.Results.{ok, err, out_of_fuel}
use go_io.Borg.{Borg}
use mathlib.Core.Path.{subst}
use go_io.Common.Lists.{length}
use go_io.CoreText
use go_io.CoreText.{CoreText, dot}
use go_io.Memory.{is_top}
use go_io.Datanode.{normalise_entry_path, ensure_dirs}
use go_io.Datanode.Methods.{DataNodeMedium, write}

-- The path or one of the directories above it, up to the one below "." or the empty path.
pub data IsAbove (c : CoreText) : Bytes → Bytes → Type 0 where
  here : (path : Bytes) → path ≢ dot → path ≢ [] → IsAbove c path path
  up : (path q : Bytes) → path ≢ dot → path ≢ [] → IsAbove c (c.path_dir path) q → IsAbove c path q

module _ (c : CoreText) where
  stuck :
      (fuel : ℕ) (path : Bytes) (set : GoMap Bool)
      → c.path_dir path ≡ path
      → is_top path ≡ false
      → ensure_dirs c fuel path set ≡ err out_of_fuel
  unfolding ensure_dirs
  stuck zero path set same under = refl
  stuck (suc fuel) path set same under =
      let no_dot : str_eq (c.path_dir path) dot ≡ false = rw (same) (ground (arith, under)) in
      let rest : ensure_dirs c fuel (c.path_dir path) (insert path true set) ≡ err out_of_fuel =
        rw (same) (stuck fuel path (insert path true set) same under) in
      ground (arith, under, no_dot, rest)

  IsAbove-not_top : (path q : Bytes) → IsAbove c path q → is_top path ≡ false
  IsAbove-not_top path q (here _ undotted full) =
      ground (arith, str_eq_iff path dot, str_eq_iff path [])
  IsAbove-not_top path q (up _ _ undotted full above) =
      ground (arith, str_eq_iff path dot, str_eq_iff path [])

  not_top : (path : Bytes) → is_top path ≡ false → (path ≢ dot) × (path ≢ [])
  not_top path under = (
    (λ e. let same = (str_eq_iff path dot).1 e in absurd (ground (arith, same, under))),
    λ e. let same = (str_eq_iff path []).1 e in absurd (ground (arith, same, under)),
  )

  below_of : (path q : Bytes) → IsAbove c path q → (q ≡ path) ⊎ IsAbove c (c.path_dir path) q
  below_of path q (here _ undotted full) = inl refl
  below_of path q (up _ _ undotted full above) = inr above

  longer :
      (path : Bytes) (set : GoMap Bool)
      → is_top path ≡ false
      → str_eq (c.path_dir path) dot ≡ false
      → ((fuel : ℕ) → ensure_dirs c fuel (c.path_dir path) (insert path true set) ≡ err out_of_fuel)
      → (fuel : ℕ) → ensure_dirs c fuel path set ≡ err out_of_fuel
  unfolding ensure_dirs
  longer path set under other endless zero = refl
  longer path set under other endless (suc fuel) = ground (arith, under, other, endless fuel)

  -- What is in the set after one round.
  inserted :
      (path q : Bytes) (set : GoMap Bool)
      → (has_key q (insert path true set) ≡ true) ↔ ((has_key q set ≡ true) ⊎ (q ≡ path))
  inserted path q set = (
    λ h. elim (Bool-cases (str_eq path q)) [
      | inl same ↦ inr (sym ((str_eq_iff path q).0 same))
      | inr other ↦ inl (ground (arith, lookup-insert path q true set, other, h))
    ],
    λ h. elim h [
      | inl there ↦ ground (arith, lookup-insert path q true set, there)
      | inr same ↦
          let equal = (str_eq_iff path q).1 (sym same) in
          ground (arith, lookup-insert path q true set, equal)
    ],
  )

  abbrev IsMade : Bytes → Bytes → GoMap Bool → GoMap Bool → Type 0
  IsMade path q set made = (has_key q made ≡ true) ↔ ((has_key q set ≡ true) ⊎ IsAbove c path q)

  IsMade-at_top : (path q : Bytes) (set : GoMap Bool) → is_top path ≡ true → IsMade path q set set
  IsMade-at_top path q set top = (
    (λ h. inl h),
    λ h. elim h [
      | inl there ↦ there
      | inr above ↦ let under = IsAbove-not_top path q above in absurd (cc)
    ],
  )

  -- The set of the parent's round, as one of this round.
  IsMade-below :
      (path q : Bytes) (set made : GoMap Bool)
      → is_top path ≡ false
      → IsMade (c.path_dir path) q (insert path true set) made
      → IsMade path q set made
  IsMade-below path q set made under m =
      let (undotted, full) = not_top path under in
      let marked = inserted path q set in
      (
        λ h. elim (m.0 h) [
          | inr above ↦ inr (up path q undotted full above)
          | inl there ↦ elim (marked.0 there) [
            | inl before ↦ inl before
            | inr same ↦ inr (subst (IsAbove c path) (sym same) (here path undotted full))
          ]
        ],
        λ h. elim h [
          | inl before ↦ m.1 (inl (marked.1 (inl before)))
          | inr above ↦ elim (below_of path q above) [
            | inl same ↦ m.1 (inl (marked.1 (inr same)))
            | inr higher ↦ m.1 (inr higher)
          ]
        ],
      )

  -- The loop over the parents of a path, with more rounds than the path has bytes: it comes to an
  -- end, and what it adds to the set are the path and the directories above it; or one of these is
  -- its own parent, and then no number of rounds is enough.
  pub ensure_dirs_outcome :
      CoreText.IsLawful c
      → (rounds : ℕ) (path q : Bytes) (set : GoMap Bool) → length path < rounds
      → ((made : GoMap Bool) × (ensure_dirs c rounds path set ≡ ok made)
          × ((has_key q made ≡ true) ↔ ((has_key q set ≡ true) ⊎ IsAbove c path q)))
        ⊎ ((stuck : Bytes) × IsAbove c path stuck
            × (c.path_dir stuck ≡ stuck)
            × ((fuel : ℕ) → ensure_dirs c fuel path set ≡ err out_of_fuel))
  unfolding ensure_dirs
  ensure_dirs_outcome L zero path q set short = absurd (omega arith)
  ensure_dirs_outcome L (suc rounds) path q set short = elim (Bool-cases (is_top path)) [
    | inl top ↦ inl (set, ground (arith, top), IsMade-at_top path q set top)
    | inr under ↦
        let (undotted, full) = not_top path under in
        let parent = c.path_dir path in
        let marked = insert path true set in
        elim (Bool-cases (str_eq parent dot)) [
          | inl is_dot ↦ inl (
            marked,
            ground (arith, under, is_dot),
            IsMade-below path q set marked under
                (IsMade-at_top parent q marked (ground (arith, is_dot))),
          )
          | inr other ↦ elim (L.path_dir_shorter path) [
            | inr (inr dotted) ↦
                let same = (str_eq_iff parent dot).1 dotted in absurd (ground (arith, same, other))
            | inr (inl own) ↦
                inr (path, here path undotted full, own, λ fuel. stuck fuel path set own under)
            | inl shorter ↦ elim (ensure_dirs_outcome L rounds parent q marked (omega arith)) [
              | inl (made, done, m) ↦
                  inl
                    (made, ground (arith, under, other, done), IsMade-below path q set made under m)
              | inr (last, above, own, endless) ↦
                  inr (
                    last,
                    up path last undotted full above,
                    own,
                    longer path set under other endless,
                  )
            ]
          ]
        ]
  ]

  -- A write to a path whose parent is its own parent, as "/" is: it never returns, and holds the
  -- lock of the medium.
  pub write_endless :
      (B : Borg) (fuel : ℕ) (medium : DataNodeMedium B) (path content : Bytes)
      → str_eq (normalise_entry_path c path) [] ≡ false
      → c.path_dir (c.path_dir (normalise_entry_path c path))
        ≡ c.path_dir (normalise_entry_path c path)
      → is_top (c.path_dir (normalise_entry_path c path)) ≡ false
      → (write c B fuel medium path content).0 ≡ err out_of_fuel
  unfolding write
  write_endless B fuel medium path content full same under =
      let loops =
        stuck fuel (c.path_dir (normalise_entry_path c path)) medium.directory_set same under in
      ground (arith, full, loops)
