-- ===== src/Node/Reading/Names.antt =====
-- `ReadDir` names each file and directory below the path once, in order.
use go_io.Common.{◌≡◌, ◌⊎◌, Bool, ◌&&◌, List, [], ◌++◌}
use go_io.Common.Bytes.{Bytes, str_eq}
use go_io.Common.GoMap.{GoMap}
use go_io.CoreText
use go_io.CoreText.{CoreText, slash}
use go_io.Medium.{Time}
use go_io.Node.{Node, resolved}
use go_io.Node.Reading.{first_part, directory_prefix}

-- The path has the prefix, and the part of it up to the next slash is the name.
abbrev pub shows : CoreText → Bytes → Bytes → Bytes → Bool
shows c prefix name path =
    c.has_prefix path prefix
    && str_eq (first_part (c.split_first (c.trim_prefix path prefix) slash)) name

abbrev IsDirectoryPrefix : Bytes → Type 0
IsDirectoryPrefix prefix = (prefix ≡ []) ⊎ ((p : Bytes) × (prefix ≡ p ++ slash))

module _ (c : CoreText) (L : CoreText.IsLawful c) (now : Time) (node : Node) (path x : Bytes) where
  abbrev pub prefix : Bytes
  prefix = directory_prefix c (resolved c path)
