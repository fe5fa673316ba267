-- ===== src/PathText.antt =====
-- The functions of the package `dappco.re/go` (imported as `core`) that take a path apart and put
-- one together. They are not part of the repository: `PathText` is a parameter, and `IsLawful`
-- states their documented behaviour.
pub mod Plain
use native.Mathlib.Omega.{arith}
use go_io.Common.{◌≡◌, ◌⊎◌, Bool, true, false, not, ◌&&◌, ◌||◌, List, [], ◌∷◌, ◌++◌}
use go_io.Common.Bytes.{Bytes, str_eq}
use go_io.CoreText.{CoreText, slash, dot}

abbrev pub dot_dot : Bytes
dot_dot = b'.' ∷ b'.' ∷ []

abbrev pub backslash : Bytes
backslash = b'\\' ∷ []

pub record PathText : Type 0 where
  -- `core.Trim(s)`, `core.Lower(s)`
  pub trim : Bytes → Bytes
  pub lower : Bytes → Bytes
  -- `core.Replace(s, old, new)`
  pub replace : Bytes → Bytes → Bytes → Bytes
  -- `core.Split(s, separator)`
  pub split : Bytes → Bytes → List Bytes
  -- `core.PathJoin(parts...)`
  pub path_join : List Bytes → Bytes

-- A part of a path that names an entry.
unfoldable pub is_name : Bytes → Bool
unfolding str_eq
is_name part = not (str_eq part []) && (not (str_eq part dot) && not (str_eq part dot_dot))

unfoldable pub all_names : List Bytes → Bool
unfolding is_name
all_names [] = true
all_names (part ∷ parts) = is_name part && all_names parts

pub all_names-append :
    (xs ys : List Bytes) → all_names xs ≡ true → all_names ys ≡ true → all_names (xs ++ ys) ≡ true
unfolding all_names
all_names-append [] ys hx hy = hy
all_names-append (x ∷ xs) ys hx hy = ground (arith, all_names-append xs ys)

unfoldable pub any_dot_dot : List Bytes → Bool
unfolding str_eq
any_dot_dot [] = false
any_dot_dot (part ∷ parts) = str_eq part dot_dot || any_dot_dot parts

pub record IsLawful (c : CoreText) (t : PathText) : Type 0 where
  -- A text with no slash is one part, and a slash ends a part.
  pub split_one : (s : Bytes) → c.contains s slash ≡ false → t.split s slash ≡ s ∷ []
  pub split-append :
      (a b : Bytes) → t.split (a ++ (slash ++ b)) slash ≡ t.split a slash ++ t.split b slash
  -- Of a relative path with no `..` there is left what has a name, or the dot.
  pub clean_path_names :
      (s : Bytes)
      → c.has_prefix s slash ≡ false
      → any_dot_dot (t.split s slash) ≡ false
      → (c.clean_path s ≡ dot) ⊎ (all_names (t.split (c.clean_path s) slash) ≡ true)
  -- The join of paths that are clean.
  pub path_join_one : (s : Bytes) → all_names (t.split s slash) ≡ true → t.path_join (s ∷ []) ≡ s
  pub path_join_two :
      (a b : Bytes)
      → all_names (t.split a slash) ≡ true
      → all_names (t.split b slash) ≡ true
      → t.path_join (a ∷ b ∷ []) ≡ a ++ (slash ++ b)
