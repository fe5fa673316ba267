-- ===== src/Fsutil.antt =====
-- go/internal/fsutil/direntry.go: `SortDirEntriesByName`, and the byte order of Go's strings.
pub mod Sorted
use go_io.Common.{Bool, true, false, List, [], ◌∷◌, ltb, ◌==◌, if◌then◌else◌}
use mathlib.Core.List.{reverse}
use go_io.Common.Bytes.{Bytes}
use go_io.Medium.{DirEntry}

-- `s < t` on strings.
unfoldable pub str_less : Bytes → Bytes → Bool
str_less s [] = false
str_less [] (y ∷ t) = true
str_less (x ∷ s) (y ∷ t) =
    let rest = str_less s t in if ltb x y then true else if x == y then rest else false

-- The inner loop: the entries before index i, from the last to the first, give way to the entry
-- while their names are greater.
unfoldable pub sink : DirEntry → List DirEntry → List DirEntry
unfolding str_less
sink entry [] = entry ∷ []
sink entry (last ∷ before) =
    let moved = sink entry before in
    if str_less entry.name last.name then last ∷ moved else entry ∷ last ∷ before

-- The outer loop; the entries that are sorted already stand in reverse.
unfoldable pub sort_from : List DirEntry → List DirEntry → List DirEntry
unfolding sink
sort_from before [] = reverse before
sort_from before (entry ∷ entries) = sort_from (sink entry before) entries

-- `SortDirEntriesByName`
unfoldable pub sort_dir_entries_by_name : List DirEntry → List DirEntry
unfolding sort_from
sort_dir_entries_by_name entries = sort_from [] entries
