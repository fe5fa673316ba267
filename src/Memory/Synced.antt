-- ===== src/Memory/Synced.antt =====
-- The three maps over files of a `MemoryMedium` have the same keys, whatever operations succeed.
use mathlib.Core.Path.{subst}
use native.Mathlib.Omega.{arith}
use go_io.Common.{◌≡◌, sym, ap, true, false, some, inl, inr, Option-cases, List, [], ◌∷◌}
use go_io.Common.Bytes.{Bytes, str_eq, str_eq_iff, str_eq_refl}
use go_io.Common.GoMap.{GoMap, lookup, insert, remove, has_key, lookup-insert, lookup-remove}
use go_io.CoreText.{CoreText}
use go_io.Medium.{Mode, Time}
use go_io.Memory.{MemoryMedium, put_file, delete_file, memory_child_prefix}
use go_io.Memory.Move.{
  move_key, move_content, content_at, rename_file, rename_files, rename_directory, renamed, IsRange,
  occurs, Distinct,
}

pub record IsSynced (m : MemoryMedium) : Type 0 where
  pub modes : (k : Bytes) → has_key k m.file_modes ≡ has_key k m.file_contents
  pub times : (k : Bytes) → has_key k m.modification_times ≡ has_key k m.file_contents

pub put_file-IsSynced :
    (path content : Bytes) (mode : Mode) (now : Time) (m : MemoryMedium)
    → IsSynced m
    → IsSynced (put_file path content mode now m)
unfolding put_file
put_file-IsSynced path content mode now m v = record {
  modes = λ k. ground (
    arith,
    v.modes k,
    lookup-insert path k mode m.file_modes,
    lookup-insert path k content m.file_contents,
  );
  times = λ k. ground (
    arith,
    v.times k,
    lookup-insert path k now m.modification_times,
    lookup-insert path k content m.file_contents,
  );
}

pub delete_file-IsSynced :
    (path : Bytes) (m : MemoryMedium) → IsSynced m → IsSynced (delete_file path m)
unfolding delete_file
delete_file-IsSynced path m v = record {
  modes = λ k.
      ground
        (arith, v.modes k, lookup-remove path k m.file_modes, lookup-remove path k m.file_contents);
  times = λ k. ground (
    arith,
    v.times k,
    lookup-remove path k m.modification_times,
    lookup-remove path k m.file_contents,
  );
}

-- Moving a key that is there, in contents and in the values beside them.
has_key-move {ℓ} :
    {V : Type ℓ} (old new k : Bytes) (f : GoMap Bytes) (m : GoMap V)
    → has_key old f ≡ true
    → ((j : Bytes) → has_key j m ≡ has_key j f)
    → has_key k (move_key old new m) ≡ has_key k (move_content old new f)
unfolding move_key move_content
has_key-move old new k f m there same = elim (Option-cases (lookup old m)) [
  | inl absent ↦ absurd (ground (arith, same old))
  | inr (v, e) ↦ ground (
    arith,
    e,
    same k,
    lookup-remove old k (insert new v m),
    lookup-insert new k v m,
    lookup-remove old k (insert new (content_at (lookup old f)) f),
    lookup-insert new k (content_at (lookup old f)) f,
  )
]

moved : Bytes → Bytes → MemoryMedium → MemoryMedium
moved old new m = record m {
  file_contents = move_content old new m.file_contents;
  file_modes = move_key old new m.file_modes;
  modification_times = move_key old new m.modification_times;
}

moved-IsSynced :
    (m : MemoryMedium) (old new : Bytes)
    → has_key old m.file_contents ≡ true
    → IsSynced m
    → IsSynced (moved old new m)
unfolding moved
moved-IsSynced m old new there v = record {
  modes = λ k. has_key-move old new k m.file_contents m.file_modes there v.modes;
  times = λ k. has_key-move old new k m.file_contents m.modification_times there v.times;
}

pub rename_file-IsSynced :
    (m m' : MemoryMedium) (old new : Bytes)
    → rename_file m old new ≡ some m'
    → IsSynced m
    → IsSynced m'
unfolding rename_file
rename_file-IsSynced m m' old new e v = elim (Option-cases (lookup old m.file_contents)) [
  | inl absent ↦ absurd (ground arith)
  | inr (content, there) ↦
      let is_m' : m' ≡ moved old new m = unfold moved move_content in ground arith in
      subst IsSynced (sym is_m') (moved-IsSynced m old new (ground arith) v)
]

has_key-move_content :
    (old new k : Bytes) (f : GoMap Bytes)
    → str_eq old k ≡ false
    → has_key k f ≡ true
    → has_key k (move_content old new f) ≡ true
unfolding move_content
has_key-move_content old new k f other there = ground (
  arith,
  lookup-remove old k (insert new (content_at (lookup old f)) f),
  lookup-insert new k (content_at (lookup old f)) f,
)

rename_files-IsSynced :
    (c : CoreText) (o n : Bytes) (keys : List Bytes) (m : MemoryMedium)
    → Distinct keys
    → ((k : Bytes) → occurs k keys ≡ true → has_key k m.file_contents ≡ true)
    → IsSynced m
    → IsSynced (rename_files c o n keys m)
unfolding rename_files moved
rename_files-IsSynced c o n [] m d there v = v
rename_files-IsSynced c o n (k ∷ keys) m (fresh, d) there v =
    let new = renamed c o n k in
    rename_files-IsSynced c o n keys (moved k new m) d
      (λ j h.
        has_key-move_content k new j m.file_contents
          (ground (arith, str_eq_iff k j, fresh, λ (e : k ≡ j). ap (λ i. occurs i keys) e))
          (there j (ground arith)))
      (moved-IsSynced m k new (there k (ground (arith, str_eq_refl k))) v)

pub rename_directory-IsSynced :
    (c : CoreText) (m : MemoryMedium) (old new : Bytes) (keys directories : List Bytes)
    → IsRange (λ k. c.has_prefix k (memory_child_prefix c old)) m.file_contents keys
    → IsSynced m
    → IsSynced (rename_directory c m old new keys directories)
unfolding rename_directory
rename_directory-IsSynced c m old new keys directories r v =
    let start : MemoryMedium = record m {
      directories = remove old (insert new true m.directories);
    } in
    let done =
      rename_files-IsSynced c (memory_child_prefix c old) (memory_child_prefix c new) keys start
        r.distinct (λ k h. ground (arith, r.exact k))
        (record { modes = v.modes; times = v.times }) in
    record { modes = done.modes; times = done.times }
