-- ===== src/Entries.antt =====
-- What the `List` methods of go/io.go and go/mock.go keep while they collect: the entries so far
-- and the map `seen` of their names.
pub mod Distinct
pub mod Parts
use mathlib.Core.List.{map}
use go_io.Common.{Bool, true, List, [], ◌∷◌, ◌++◌, if◌then◌else◌}
use go_io.Common.Bytes.{Bytes}
use go_io.Common.GoMap.{GoMap, insert, has_key}
use go_io.Medium.{DirEntry}

pub record Listed : Type 0 where
  pub entries : List DirEntry
  pub seen : GoMap Bool

abbrev pub nothing_listed : Listed
nothing_listed = record { entries = []; seen = [] }

-- `seen[name] = true; entries = append(entries, entry)`
abbrev pub add_entry : Listed → DirEntry → Listed
add_entry s entry = record {
  entries = s.entries ++ (entry ∷ []);
  seen = insert entry.name true s.seen;
}

-- The same after `if seen[name] { continue }`.
unfoldable pub add_unseen : Listed → DirEntry → Listed
add_unseen s entry = if has_key entry.name s.seen then s else add_entry s entry

abbrev pub names : List DirEntry → List Bytes
names = map (λ e. e.name)
