-- ===== src/Workspace.antt =====
-- go/workspace/workspace.go: named workspaces in a directory of a medium, and the medium that is
-- scoped to one of them. A `*Workspace` is an `Option`, `none` for nil, whose methods give its
-- result and the new state. The lock is left out: a method holds it from start to end.
pub mod Scoped
pub mod Service
pub mod Encrypted
pub mod Within
pub mod Steps
pub mod Apart
pub mod Confined
pub mod Isolated
mod Tests
use go_io.Common.{Bool, true, false, ◌||◌, Option, none, some, List, [], ◌∷◌, if◌then◌else◌}
use go_io.Common.Bytes.{Bytes, bytes, str_eq}
use go_io.Common.Results.{Result, ok, err, Error, ◌>>=◌, invalid, exist, not_exist, permission}
use go_io.CoreText.{CoreText, slash, dot}
use go_io.Medium.{DirEntry}
use go_io.PathText.{PathText, backslash, dot_dot, any_dot_dot}
use go_io.Storage.{Storage, Outcome}

-- The loop of `joinMediumSubpaths`.
unfoldable pub filtered : List Bytes → List Bytes
unfolding str_eq
filtered [] = []
filtered (part ∷ parts) = let rest = filtered parts in if str_eq part [] then rest else part ∷ rest

module _ (c : CoreText) (t : PathText) where
  -- `cleanWorkspaceName`
  unfoldable pub clean_workspace_name : Bytes → Result Bytes
  unfolding str_eq
  clean_workspace_name name =
      let trimmed = t.trim name in
      if str_eq trimmed [] || (str_eq trimmed dot || str_eq trimmed dot_dot)
      then err invalid
      else if c.contains trimmed slash || c.contains trimmed backslash
      then err permission
      else ok trimmed

  -- The result for a path that names no entry.
  abbrev empty_path : Bool → Result Bytes
  empty_path true = ok []
  empty_path false = err invalid

  -- `cleanMediumSubpath`
  unfoldable pub clean_medium_subpath : Bytes → Bool → Result Bytes
  unfolding str_eq any_dot_dot
  clean_medium_subpath subpath allow_empty =
      let trimmed = t.trim (t.replace subpath backslash slash) in
      let cleaned = c.clean_path trimmed in
      if str_eq trimmed [] || str_eq trimmed dot
      then empty_path allow_empty
      else if c.has_prefix trimmed slash
      then err permission
      else if any_dot_dot (t.split trimmed slash)
      then err permission
      else if str_eq cleaned dot
      then empty_path allow_empty
      else ok cleaned

  -- `joinMediumSubpaths`
  abbrev join_filtered : List Bytes → Bytes
  join_filtered [] = []
  join_filtered (part ∷ parts) = t.path_join (part ∷ parts)

  unfoldable pub join_medium_subpaths : List Bytes → Bytes
  unfolding filtered
  join_medium_subpaths parts = join_filtered (filtered parts)
