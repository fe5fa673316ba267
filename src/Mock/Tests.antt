-- ===== src/Mock/Tests.antt =====
-- Runs of `MockMedium`, and the theorems at concrete inputs.
use mathlib.Core.List.{Mem, Nodup}
use go_io.Common.{◌≢◌, refl, inr, ◌↔◌, true, [], ◌∷◌}
use go_io.Common.Bytes.{Bytes, bytes}
use go_io.Medium.{file_mode}
use go_io.Fsutil.Sorted.{IsAscending}
use go_io.Mock.{MockMedium}
use go_io.Mock.Listing.{list}
use go_io.Entries.{names}
use go_io.Mock.Listing.Names.{IsStored, list-names}
use go_io.Entries.Parts.{IsPart}

abbrev mock : MockMedium
mock = record {
  files = (bytes "a/1", bytes "x") ∷ (bytes "a/b/1", bytes "y") ∷ [];
  meta = (bytes "a/1", record { mode = file_mode; mod_time = 3 }) ∷ [];
  dirs = (bytes "a", true) ∷ [];
}

list-names_example :
    IsAscending (list 5 mock (bytes "a"))
    × Nodup (names (list 5 mock (bytes "a")))
    × (Mem (bytes "b") (names (list 5 mock (bytes "a"))) ↔ (
        (k : Bytes) × IsStored 5 mock (bytes "a") k
        × ((bytes "b" ≢ []) × IsPart (bytes "a/") (bytes "b") k)))
list-names_example =
    list-names 5 mock (bytes "a") (bytes "a/") (bytes "b") (inr ((λ e. cc), (λ e. cc), refl))
