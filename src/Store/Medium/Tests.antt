-- ===== src/Store/Medium/Tests.antt =====
-- A table as nested maps, and the theorems on `Medium` at concrete inputs.
use go_io.Common.{Option, none, some, List, [], ◌∷◌}
use go_io.Common.Lists.{length}
use go_io.Common.Bytes.{Bytes, bytes}
use go_io.Common.Results.{ok}
use go_io.Common.GoMap.{GoMap, lookup, insert, remove}
use go_io.Store
use go_io.Store.{Table}
use go_io.Store.Medium
use go_io.Store.Medium.{group_of, key_of, same_entry, delete_all, rename}
use go_io.Store.Medium.Refinement
use go_io.Store.Medium.Refinement.{Operation, write, append_write}

abbrev Groups : Type 0
Groups = GoMap (GoMap Bytes)

abbrev group_or_empty : Option (GoMap Bytes) → GoMap Bytes
group_or_empty none = []
group_or_empty (some group) = group

abbrev group_in : Groups → Bytes → GoMap Bytes
group_in s group = group_or_empty (lookup group s)

-- The groups with an entry. The stand-in does not sort them.
abbrev group_names : Groups → List Bytes
group_names [] = []
group_names ((name, []) ∷ s) = group_names s
group_names ((name, entry ∷ entries) ∷ s) = name ∷ group_names s

abbrev toy_table : Table
toy_table = record {
  State = Groups;
  select_value = λ s group key. ok (lookup key (group_in s group));
  upsert = λ s group key content. ok (insert group (insert key content (group_in s group)) s);
  delete_entry = λ s group key. ok (insert group (remove key (group_in s group)) s);
  delete_entries = λ s group. ok (remove group s);
  select_count = λ s group. ok (length (group_in s group));
  select_groups = λ s. ok (group_names s);
  select_group = λ s group. ok (group_in s group);
}

abbrev settings : Groups
settings = (bytes "app", (bytes "theme", bytes "dark") ∷ []) ∷ []

abbrev renamed : Groups
renamed = (bytes "app", (bytes "look", bytes "dark") ∷ []) ∷ []

abbrev changes : List Operation
changes =
    write (bytes "app/theme") (bytes "x")
    ∷ Refinement.rename (bytes "app/theme") (bytes "/app/look")
    ∷ append_write (bytes "app/look") (bytes "y")
    ∷ []
