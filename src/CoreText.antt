-- ===== src/CoreText.antt =====
-- The text and path functions of the package `dappco.re/go` (imported as `core`) that the mediums
-- call. They are not part of the repository: `CoreText` is a parameter, and `IsLawful` states their
-- documented behaviour.
pub mod Plain
pub mod Parts
pub mod Prefixes
use go_io.Common.{◌<◌, ◌≡◌, ◌↔◌, ◌⊎◌, Bool, true, false, List, [], ◌∷◌, ◌++◌}
use go_io.Common.Lists.{length}
use go_io.Common.Bytes.{Bytes, str_eq}

abbrev pub slash : Bytes
slash = b'/' ∷ []

abbrev pub dot : Bytes
dot = b'.' ∷ []

pub record CoreText : Type 0 where
  -- `core.HasPrefix(s, prefix)`, `core.HasSuffix(s, suffix)`, `core.Contains(s, part)`
  pub has_prefix : Bytes → Bytes → Bool
  pub has_suffix : Bytes → Bytes → Bool
  pub contains : Bytes → Bytes → Bool
  -- `core.TrimPrefix(s, prefix)`
  pub trim_prefix : Bytes → Bytes → Bytes
  -- `core.SplitN(s, separator, 2)` at the first separator: what stands before it, and what follows
  pub split_first : Bytes → Bytes → List Bytes
  -- `core.PathDir(path)`, `core.PathBase(path)`
  pub path_dir : Bytes → Bytes
  pub path_base : Bytes → Bytes
  -- `core.CleanPath(path, "/")`
  pub clean_path : Bytes → Bytes
  -- `core.Concat(parts...)`
  pub concat : List Bytes → Bytes

pub record IsLawful (c : CoreText) : Type 0 where
  pub has_prefix_iff : (s p : Bytes) → (c.has_prefix s p ≡ true) ↔ ((r : Bytes) × (s ≡ p ++ r))
  pub has_suffix_iff : (s p : Bytes) → (c.has_suffix s p ≡ true) ↔ ((r : Bytes) × (s ≡ r ++ p))
  pub contains_iff :
      (s p : Bytes) → (c.contains s p ≡ true) ↔ ((a : Bytes) × (b : Bytes) × (s ≡ a ++ (p ++ b)))
  pub trim_prefix-append : (p r : Bytes) → c.trim_prefix (p ++ r) p ≡ r
  pub trim_prefix_other : (s p : Bytes) → c.has_prefix s p ≡ false → c.trim_prefix s p ≡ s
  -- The parent of a path is shorter, or the path is its own parent, or it has none.
  pub path_dir_shorter :
      (s : Bytes) → (length (c.path_dir s) < length s) ⊎ ((c.path_dir s ≡ s) ⊎ (c.path_dir s ≡ dot))
  pub concat-nil : c.concat [] ≡ []
  pub concat-cons : (s : Bytes) (parts : List Bytes) → c.concat (s ∷ parts) ≡ s ++ c.concat parts
  -- A text with no slash is one part; else the parts are what stands before the first slash and what
  -- follows it.
  pub split_first_one : (s : Bytes) → c.contains s slash ≡ false → c.split_first s slash ≡ s ∷ []
  pub split_first_two :
      (s : Bytes)
      → c.contains s slash ≡ true
      → (a : Bytes) × (b : Bytes) × (c.split_first s slash ≡ a ∷ b ∷ [])
        × (s ≡ a ++ (slash ++ b))
        × (c.contains a slash ≡ false)
  -- The last part of a path.
  pub path_base_last :
      (p r : Bytes)
      → c.contains r slash ≡ false
      → str_eq r [] ≡ false
      → c.path_base (p ++ (slash ++ r)) ≡ r
  pub path_base_whole :
      (r : Bytes) → c.contains r slash ≡ false → str_eq r [] ≡ false → c.path_base r ≡ r
