-- ===== src/Node/Tests/Archives.antt =====
-- A stand-in for archive/tar, and runs of `ToTar` and `FromTar`.
use native.Mathlib.Omega.{arith}
use go_io.Common.{
  ℕ, zero, suc, ◌+◌, ◌*◌, ◌/◌, ◌≤◌, ◌≡◌, sym, ap, ◌∙◌, refl, true, List, [], ◌∷◌, ◌++◌,
}
use go_io.Common.Lists.{length, take, drop, get_or, length-append, take-append, drop-append}
use go_io.Common.Bytes.{Bytes, All, bytes, str_eq}
use go_io.Common.Results.{ok}
use go_io.Common.GoMap.{lookup, insert}
use go_io.CoreText.Plain
use go_io.CoreText.Plain.{plain, plain-IsLawful}
use go_io.Node
use go_io.Node.{
  Node, DataFile, new, stored, trimmed, resolved, write, delete, delete_all, deleted, rename,
  is_file, read, stat,
}
use go_io.Medium.{Time}
use go_io.Node.Archive
use go_io.Node.Archive.{Tar, TarEntry, IsRegular, rounded_entries, to_tar, from_tar}
use go_io.Node.Archive.Restored.{restored, from_tar-to_tar}
use go_io.Node.Reachable.{start, next, writes, IsNamed, Reachable-IsNamed}
use go_io.Node.Tests.{drafts, drafts-IsPortable}

-- A stand-in for archive/tar: lengths before the texts, and times in tens.
abbrev tens : Time → Time
tens t = t / 10 * 10

unfoldable encode : List TarEntry → Bytes
encode [] = []
encode (e ∷ es) =
    length e.name ∷ (e.name ++ (length e.content ∷ (e.content ++ (tens e.mod_time ∷ encode es))))

abbrev decode_stamp : Bytes → Bytes → Bytes → TarEntry
decode_stamp name content rest = record {
  name = name;
  content = content;
  mod_time = get_or rest 0 0;
  is_regular = true;
}

unfoldable decode : ℕ → Bytes → List TarEntry
decode zero s = []
decode (suc k) [] = []
decode (suc k) (n ∷ s) =
    let after_name = drop n s in
    let m = get_or after_name 0 0 in
    let after_content = drop m (drop 1 after_name) in
    decode_stamp (take n s) (take m (drop 1 after_name)) after_content
    ∷ decode k (drop 1 after_content)

abbrev toy_tar : Tar
toy_tar = record {
  archive = λ es. ok (encode es);
  entries = λ s. ok (decode (length s) s);
  rounded = tens;
}

decode-encode :
    (k : ℕ) (es : List TarEntry)
    → All (IsRegular plain) es
    → length (encode es) ≤ k
    → decode k (encode es) ≡ rounded_entries toy_tar es
unfolding encode decode
decode-encode zero [] all enough = refl
decode-encode (suc k) [] all enough = refl
decode-encode zero (e ∷ es) all enough = absurd (omega arith)
decode-encode (suc k) (e ∷ es) (r, all) enough =
    let rest = tens e.mod_time ∷ encode es in
    let middle = length e.content ∷ (e.content ++ rest) in
    let width : length (e.name ++ middle)
        ≡ length e.name + suc (length e.content + suc (length (encode es))) =
      length-append e.name middle
      ∙ ap (λ n. length e.name + suc n) (length-append e.content rest) in
    let ih = decode-encode k es all (omega arith) in
    rw
      (
        take-append e.name middle,
        drop-append e.name middle,
        take-append e.content rest,
        drop-append e.content rest,
        ih,
        sym r.regular,
      )
      refl

toy_tar-IsLawful : Archive.IsLawful plain toy_tar
toy_tar-IsLawful = record {
  entries-archive = λ es bytes all e.
      let same : encode es ≡ bytes = cc in
      ap (λ s. ok (decode (length s) s)) (sym same)
      ∙ ap ok (decode-encode (length (encode es)) es all (omega arith));
}

from_tar-to_tar_example :
    (node' : Node) × (from_tar plain toy_tar (encode (Archive.headers drafts.files)) ≡ ok node')
    × (lookup (bytes "a/1") node'.files ≡ restored toy_tar (lookup (bytes "a/1") drafts.files))
from_tar-to_tar_example =
    from_tar-to_tar plain plain-IsLawful toy_tar drafts (encode (Archive.headers drafts.files))
      (bytes "a/1") toy_tar-IsLawful drafts-IsPortable (unfold to_tar in refl)

abbrev single : Node
single = record {
  files = (bytes "c", record { name = bytes "c"; content = bytes "z"; mod_time = 5 }) ∷ [];
}

single-written : write plain 5 new (bytes "/c") (bytes "z") ≡ ok single
unfolding write Node.add_data Node.put_data insert str_eq Plain.trim Plain.starts Plain.ends
single-written = refl

Reachable-IsNamed_example : IsNamed single.files
Reachable-IsNamed_example =
    Reachable-IsNamed plain toy_tar (next start (writes 5 (bytes "/c") (bytes "z") single-written))
