-- ===== src/Local/Tests.antt =====
-- The theorems on the local medium at concrete inputs, over a file system in memory with a link to
-- itself and a link out of the root.
use native.Mathlib.Omega.{arith}
use mathlib.Core.Path.{subst}
use go_io.Common.{
  Bool-cases, ℕ, ◌<◌, ◌≡◌, ◌≢◌, ◌⊎◌, inl, inr, refl, sym, ◌∙◌, true, Option, none, some, [], ◌∷◌,
  Option-cases,
}
use go_io.Common.Lists.{length, take}
use go_io.Common.Bytes.{Bytes, bytes, str_eq}
use go_io.Common.GoMap
use go_io.Common.GoMap.{GoMap, lookup, has_key}
use go_io.Common.Results.{Result, ok, err, invalid, permission, not_exist, out_of_fuel}
use go_io.CoreText.Parts
use go_io.CoreText.Plain
use go_io.CoreText.Plain.{plain, plain-IsLawful}
use go_io.PathText.Plain.{plain_paths}
use go_io.Memory.{MemoryMedium, new_memory_medium}
use go_io.Memory.Whole.{memory_storage}
use go_io.Storage.{Storage, Run, stop, next, Step, Agree}
use go_io.Local
use go_io.Local.{System, member, readlink, readlink_from}
use go_io.Local.Links
use go_io.Local.Links.{validate_path, link_target}
use go_io.Local.Links.Reading.{IsLink, readlink_whole}
use go_io.Local.Links.Real.{IsSteady}
use go_io.Local.Links.Returning.{IsFinite, validate_path_returns}
use go_io.Local.Methods.{LocalMedium, local}
use go_io.Local.Confined.{IsInside, local-Run}
use go_io.Local.Plain.{plain_platform, plain_platform-IsCleaning, plain_platform-IsParted}

abbrev links : GoMap Bytes
links = (bytes "/srv/loop", bytes "/srv/loop") ∷ (bytes "/srv/out", bytes "/etc") ∷ []

abbrev read_link : Option Bytes → ℕ → Result Bytes
read_link none size = err invalid
read_link (some content) size = ok (take size content)

abbrev disk : System
disk = record {
  storage = memory_storage plain 7 (λ m. []) (λ m. []);
  lstat = λ s path. ok (has_key path links);
  syscall_readlink = λ s path size. read_link (lookup path links) size;
}

abbrev s0 : MemoryMedium
s0 = new_memory_medium

validate : Bytes → Result Bytes
validate path = validate_path plain plain_paths plain_platform disk 1 3 s0 (bytes "/srv") path

validate_loop : validate (bytes "loop/x") ≡ err invalid
unfolding validate
validate_loop =
    unfold validate_path Links.resolve_symlinks_path Links.validate_parts
      Links.resolve_symlinks_recursive Links.resolve_parts Links.resolve_symlink_target Local.member
      Local.readlink Local.readlink_from Local.split_path_parts Local.dir_separator
      Local.clean_sandbox_path Local.is_within_root Local.normalise_path Local.absolute_path
      Local.non_empty Parts.clean Plain.starts Plain.trim GoMap.lookup str_eq in
    refl

validate_out : validate (bytes "out/passwd") ≡ err permission
unfolding validate
validate_out =
    unfold validate_path Links.resolve_symlinks_path Links.validate_parts
      Links.resolve_symlinks_recursive Links.resolve_parts Links.resolve_symlink_target Local.member
      Local.readlink Local.readlink_from Local.split_path_parts Local.dir_separator
      Local.clean_sandbox_path Local.is_within_root Local.normalise_path Local.absolute_path
      Local.non_empty Parts.clean Plain.starts Plain.trim GoMap.lookup str_eq in
    refl

validate_inside : validate (bytes "a\\b") ≡ ok (bytes "/srv/a/b")
unfolding validate
validate_inside =
    unfold validate_path Links.resolve_symlinks_path Links.validate_parts
      Links.resolve_symlinks_recursive Links.resolve_parts Links.resolve_symlink_target Local.member
      Local.readlink Local.readlink_from Local.split_path_parts Local.dir_separator
      Local.clean_sandbox_path Local.is_within_root Local.normalise_path Local.absolute_path
      Local.non_empty Parts.clean Plain.starts Plain.trim GoMap.lookup str_eq in
    refl

-- Every link has a short text.
links_short :
    (path content : Bytes)
    → lookup path links ≡ some content
    → (length content < 256) × ((content ≡ bytes "/srv/loop") ⊎ (content ≡ bytes "/etc"))
unfolding lookup
links_short path content e = elim (Bool-cases (str_eq (bytes "/srv/loop") path)) [
  | inl first ↦
      let is_loop : content ≡ bytes "/srv/loop" = ground (arith, first, e) in
      (rw (is_loop) (omega arith), inl is_loop)
  | inr later ↦ elim (Bool-cases (str_eq (bytes "/srv/out") path)) [
    | inl second ↦
        let is_etc : content ≡ bytes "/etc" = ground (arith, later, second, e) in
        (rw (is_etc) (omega arith), inr is_etc)
    | inr neither ↦ absurd (ground (arith, later, neither, e))
  ]
]

-- What `readlink` finds is the text of a link.
readlink_found :
    (path : Bytes)
    → (readlink disk 1 s0 path ≡ err invalid)
      ⊎ ((content : Bytes) × (lookup path links ≡ some content)
          × (readlink disk 1 s0 path ≡ ok content))
unfolding readlink readlink_from
readlink_found path = elim (Option-cases (lookup path links)) [
  | inl absent ↦ inl (rw (absent) refl)
  | inr (content, found) ↦
      let whole : IsLink disk s0 path content = record { fills = λ size. rw (found) refl } in
      inr (
        content,
        found,
        readlink_whole disk 0 s0 path content whole
            (omega (arith, (links_short path content found).0)),
      )
]

known :
    (current target : Bytes)
    → (target ≡ bytes "/srv/loop") ⊎ (target ≡ bytes "/etc")
    → member
        (link_target plain plain_paths plain_platform disk 1 current target)
        (bytes "/srv/loop" ∷ bytes "/etc" ∷ [])
      ≡ true
unfolding member
known current target (inl e) = rw (e) (
    unfold link_target Local.normalise_path Local.dir_separator Parts.clean Plain.starts str_eq in
    refl)
known current target (inr e) = rw (e) (
    unfold link_target Local.normalise_path Local.dir_separator Parts.clean Plain.starts str_eq in
    refl)

disk-IsFinite :
    IsFinite plain plain_paths plain_platform disk 1 s0 (bytes "/srv/loop" ∷ bytes "/etc" ∷ [])
disk-IsFinite = record {
  lstat_returns = λ path e. cc;
  readlink_returns = λ path e. elim (readlink_found path) [
    | inl none_there ↦ cc
    | inr (content, found, read) ↦ cc
  ];
  targets_known = λ path current part target in_path read.
      elim (readlink_found (plain_platform.path (current ∷ part ∷ []))) [
        | inl none_there ↦ absurd (cc)
        | inr (content, found, got) ↦
            let same : content ≡ target = cc in
            known current target (
              subst (λ x. (x ≡ bytes "/srv/loop") ⊎ (x ≡ bytes "/etc")) same
                (links_short (plain_platform.path (current ∷ part ∷ [])) content found).1)
      ];
}

validate_path_returns_example :
    validate_path plain plain_paths plain_platform disk 1 3 s0 (bytes "/srv") (bytes "loop/x")
    ≢ err out_of_fuel
validate_path_returns_example =
    validate_path_returns plain plain_paths plain_platform disk 1 s0
      (bytes "/srv/loop" ∷ bytes "/etc" ∷ []) disk-IsFinite 3 (omega arith) (bytes "/srv")
      (bytes "loop/x")

-- The links do not depend on the files.
disk-IsSteady : (u : MemoryMedium) → IsSteady plain plain_paths plain_platform disk 1 u
unfolding readlink readlink_from
disk-IsSteady u = record {
  link_there = λ path linked e. elim (readlink_found path) [
    | inl none_there ↦ let same : err invalid ≡ err not_exist = sym none_there ∙ e in absurd (cc)
    | inr (content, found, got) ↦ let same : ok content ≡ err not_exist = sym got ∙ e in absurd (cc)
  ];
}

abbrev srv : LocalMedium
srv = record { filesystem_root = bytes "/srv" }

abbrev srv_storage : Storage
srv_storage = local plain plain_paths plain_platform disk 1 3 srv

local-Run_example :
    Run disk.storage
      (IsInside plain plain-IsLawful plain_paths plain_platform plain_platform-IsCleaning disk 1 3
        (plain_platform-IsParted disk)
        disk-IsSteady
        srv)
      s0
      (srv_storage.rename
        (srv_storage.write s0 (bytes "a") (bytes "hi")).1
        (bytes "a")
        (bytes "out/passwd")).1
    × Agree srv_storage (λ path. Unit) s0 s0
local-Run_example =
    local-Run plain plain-IsLawful plain_paths plain_platform plain_platform-IsCleaning disk 1 3
      (plain_platform-IsParted disk) disk-IsSteady srv
      (next (next stop (Step.write s0 (bytes "a") (bytes "hi") tt)) (
        Step.rename (srv_storage.write s0 (bytes "a") (bytes "hi")).1 (bytes "a")
          (bytes "out/passwd") tt tt))
      s0 s0 (λ q. refl)
      (record {
        read = λ q inside. refl;
        is_file = λ q inside. refl;
        list = λ q inside. refl;
        stat = λ q inside. refl;
        open_file = λ q inside. refl;
        read_stream = λ q inside. refl;
        exists = λ q inside. refl;
        is_dir = λ q inside. refl;
      })

readlink_whole_example : readlink disk 1 s0 (bytes "/srv/out") ≡ ok (bytes "/etc")
readlink_whole_example =
    readlink_whole disk 0 s0 (bytes "/srv/out") (bytes "/etc")
      (record { fills = λ size. unfold lookup str_eq in refl }) (omega arith)
