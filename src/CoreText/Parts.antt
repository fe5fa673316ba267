-- ===== src/CoreText/Parts.antt =====
-- The parts of a path between its slashes, and the path that is left without empty parts and dots,
-- for the plain functions.
use go_io.Common.{ℕ, Bool, false, not, ◌&&◌, List, [], ◌∷◌, ◌++◌, ◌==◌, if◌then◌else◌}
use go_io.Common.Bytes.{Bytes, str_eq}

abbrev prepend : ℕ → List Bytes → List Bytes
prepend x [] = (x ∷ []) ∷ []
prepend x (part ∷ parts) = (x ∷ part) ∷ parts

unfoldable pub split_on : ℕ → Bytes → List Bytes
split_on b [] = [] ∷ []
split_on b (x ∷ s) = let rest = split_on b s in if x == b then [] ∷ rest else prepend x rest

unfoldable pub join_on : ℕ → List Bytes → Bytes
join_on b [] = []
join_on b (part ∷ []) = part
join_on b (part ∷ next ∷ parts) = part ++ b ∷ join_on b (next ∷ parts)

-- Neither empty nor a dot.
unfoldable pub is_kept : Bytes → Bool
unfolding str_eq
is_kept part = not (str_eq part []) && not (str_eq part (b'.' ∷ []))

unfoldable pub kept : List Bytes → List Bytes
unfolding is_kept
kept [] = []
kept (part ∷ parts) = let rest = kept parts in if is_kept part then part ∷ rest else rest

unfoldable pub starts_with_slash : Bytes → Bool
starts_with_slash [] = false
starts_with_slash (x ∷ s) = x == b'/'

abbrev or_dot : Bytes → Bytes
or_dot [] = b'.' ∷ []
or_dot (x ∷ s) = x ∷ s

-- A `..` stays.
unfoldable pub clean : Bytes → Bytes
unfolding kept split_on join_on starts_with_slash
clean s =
    let rest = join_on b'/' (kept (split_on b'/' s)) in
    if starts_with_slash s then b'/' ∷ rest else or_dot rest
