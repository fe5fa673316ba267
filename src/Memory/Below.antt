-- ===== src/Memory/Below.antt =====
-- Paths below a path, without the code's own tests: the text that they start with, and the loops of
-- go/io.go that look for it.
use native.Mathlib.Omega.{arith}
use go_io.Common.{◌≡◌, ◌≢◌, ◌⊎◌, inl, inr, Bool-cases, [], ◌++◌}
use go_io.Common.Bytes.{Bytes, str_eq, str_eq_iff}
use go_io.CoreText
use go_io.CoreText.{CoreText, slash}
use go_io.Memory.{memory_child_prefix, with_slash}

-- A path with a slash at its end.
abbrev pub IsSlashed : Bytes → Type 0
IsSlashed path = (dir : Bytes) × (path ≡ dir ++ slash)

-- The paths below `path` start with `start`: the path itself if it ends in a slash, else the path
-- and a slash.
abbrev pub IsStart : Bytes → Bytes → Type 0
IsStart path start =
    (IsSlashed path × (start ≡ path)) ⊎ ((¬ IsSlashed path) × (start ≡ path ++ slash))

-- The same where the empty path is the root, and every path is below it.
abbrev pub IsListStart : Bytes → Bytes → Type 0
IsListStart path start = ((path ≡ []) × (start ≡ [])) ⊎ ((path ≢ []) × IsStart path start)

abbrev pub IsBelow : Bytes → Bytes → Type 0
IsBelow start path = (rest : Bytes) × (path ≡ start ++ rest)

module _ (c : CoreText) (L : CoreText.IsLawful c) (path start : Bytes) where
  pub with_slash-start : IsStart path start → start ≡ with_slash c path
  unfolding with_slash
  with_slash-start (inl (slashed, e)) =
      let ends = (L.has_suffix_iff path slash).1 slashed in rw (ends) e
  with_slash-start (inr (bare, e)) = elim (Bool-cases (c.has_suffix path slash)) [
    | inl ends ↦ absurd (bare ((L.has_suffix_iff path slash).0 ends))
    | inr unended ↦ rw (unended) e
  ]

  pub memory_child_prefix-start : IsListStart path start → start ≡ memory_child_prefix c path
  unfolding memory_child_prefix str_eq
  memory_child_prefix-start (inl (empty, e)) = rw (empty) e
  memory_child_prefix-start (inr (named, (inl (slashed, e)))) =
      let ends = (L.has_suffix_iff path slash).1 slashed in ground (arith, ends, e)
  memory_child_prefix-start (inr (named, (inr (bare, e)))) =
      elim (Bool-cases (c.has_suffix path slash)) [
        | inl ends ↦ absurd (bare ((L.has_suffix_iff path slash).0 ends))
        | inr unended ↦ elim (Bool-cases (str_eq path [])) [
          | inl empty ↦ absurd (named ((str_eq_iff path []).0 empty))
          | inr full ↦ ground (arith, unended, full, e)
        ]
      ]
