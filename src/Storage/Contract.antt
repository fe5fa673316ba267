-- ===== src/Storage/Contract.antt =====
-- What the mediums promise of the files that they keep: a medium as a partial function from paths to
-- contents, and what each method makes of it.
use go_io.Common.{◌≡◌, ◌⊎◌, Bool, true, false, ◌&&◌, Option, none, some, if◌then◌else◌}
use go_io.Common.Bytes.{Bytes, str_eq}
use go_io.Common.Results.{Result, ok, err}
use go_io.Common.GoMap.{is_some}
use go_io.Medium.{Mode}
use go_io.Storage.{Storage}

abbrev pub is_ok : {A : Type 0} → Result A → Bool
is_ok (ok a) = true
is_ok (err e) = false

abbrev pub found : Result Bytes → Option Bytes
found (ok content) = some content
found (err e) = none

-- The abstract view: the content that a path reads as, if it can be read.
abbrev pub content_at : (M : Storage) → M.State → Bytes → Option Bytes
content_at M s path = found (M.read s path)

-- A write that succeeds gives its path the content; a write that fails gives it to none.
abbrev pub written : Bool → Bytes → Bytes → (Bytes → Option Bytes) → Bytes → Option Bytes
written done path content before q = if done && str_eq path q then some content else before q

abbrev pub removed : Bool → Bytes → (Bytes → Option Bytes) → Bytes → Option Bytes
removed done path before q = if done && str_eq path q then none else before q

abbrev pub moved : Bool → Bytes → Bytes → (Bytes → Option Bytes) → Bytes → Option Bytes
moved done old new before q =
    if done && str_eq old q then none else if done && str_eq new q then before old else before q

pub record IsKeeping (M : Storage) : Type 0 where
  pub write :
      (s : M.State) (path content q : Bytes)
      → content_at M (M.write s path content).1 q
        ≡ written (is_ok (M.write s path content).0) path content (content_at M s) q
  pub write_mode :
      (s : M.State) (path content : Bytes) (mode : Mode) (q : Bytes)
      → content_at M (M.write_mode s path content mode).1 q
        ≡ written (is_ok (M.write_mode s path content mode).0) path content (content_at M s) q
  pub ensure_dir :
      (s : M.State) (path q : Bytes) → content_at M (M.ensure_dir s path).1 q ≡ content_at M s q
  pub delete :
      (s : M.State) (path q : Bytes)
      → content_at M (M.delete s path).1 q
        ≡ removed (is_ok (M.delete s path).0) path (content_at M s) q
  -- The renaming of a file; that of a directory is not part of the contract.
  pub rename :
      (s : M.State) (old new q : Bytes)
      → (is_some (content_at M s old) ≡ false)
        ⊎ (content_at M (M.rename s old new).1 q
            ≡ moved (is_ok (M.rename s old new).0) old new (content_at M s) q)
