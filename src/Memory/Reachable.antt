-- ===== src/Memory/Reachable.antt =====
-- What holds of every `MemoryMedium` that operations and closed writers have built from an empty one.
use mathlib.Core.Path.{subst}
use native.Mathlib.Omega.{arith}
use go_io.Common.{◌≡◌, refl, sym, true, inl, inr, Option-cases, Bool-cases, List}
use go_io.Common.Bytes.{Bytes}
use go_io.Common.Results.{ok}
use go_io.Common.GoMap.{lookup, insert, remove, has_key, lookup-remove_where}
use go_io.CoreText.{CoreText}
use go_io.Medium.{Mode, Time}
use go_io.Memory.{
  MemoryMedium, new_memory_medium, put_file, delete_file, write_mode, ensure_dir, delete,
  delete_all, deleted, deleted_file, ensure_ancestor_directories, stat, memory_child_prefix,
}
use go_io.Memory.Removal.{delete_all_ok}
use go_io.Memory.Move.{rename_file, rename_directory, rename, IsRange}
use go_io.Memory.Stream.{MemoryWriteCloser, writer_close}
use go_io.Memory.Synced.{
  IsSynced, put_file-IsSynced, delete_file-IsSynced, rename_file-IsSynced,
  rename_directory-IsSynced,
}

-- One successful operation.
pub data Step (c : CoreText) (m m' : MemoryMedium) : Type 0 where
  writes :
      (now : Time) (path content : Bytes) (mode : Mode)
      → write_mode c now m path content mode ≡ ok m'
      → Step c m m'
  ensures : (path : Bytes) → ensure_dir c m path ≡ ok m' → Step c m m'
  deletes : (path : Bytes) → delete c m path ≡ ok m' → Step c m m'
  deletes_all : (path : Bytes) → delete_all c m path ≡ ok m' → Step c m m'
  renames :
      (old new : Bytes) (keys directories : List Bytes)
      → IsRange (λ k. c.has_prefix k (memory_child_prefix c old)) m.file_contents keys
      → rename c m old new keys directories ≡ ok m'
      → Step c m m'
  closes :
      (now : Time) (writer : MemoryWriteCloser) → writer_close c now m writer ≡ ok m' → Step c m m'

pub data Reachable (c : CoreText) : MemoryMedium → Type 0 where
  start : Reachable c new_memory_medium
  next : {m m' : MemoryMedium} → Reachable c m → Step c m m' → Reachable c m'

module _ (c : CoreText) where
  -- Marking directories changes no map over files.
  marked-IsSynced :
      (path : Bytes) (m : MemoryMedium)
      → IsSynced m
      → IsSynced (ensure_ancestor_directories c path m)
  unfolding ensure_ancestor_directories
  marked-IsSynced path m v = record { modes = v.modes; times = v.times }

  delete_all-IsSynced :
      (path : Bytes) (m m' : MemoryMedium) → delete_all c m path ≡ ok m' → IsSynced m → IsSynced m'
  unfolding deleted_file
  delete_all-IsSynced path m m' e v = subst IsSynced (sym (delete_all_ok c m m' path e)) (record {
    modes = λ k. ground (
      arith,
      v.modes k,
      lookup-remove_where (deleted_file c path m) k m.file_modes,
      lookup-remove_where (deleted c path) k m.file_contents,
    );
    times = λ k. ground (
      arith,
      v.times k,
      lookup-remove_where (deleted_file c path m) k m.modification_times,
      lookup-remove_where (deleted c path) k m.file_contents,
    );
  })

  delete-IsSynced :
      (path : Bytes) (m m' : MemoryMedium) → delete c m path ≡ ok m' → IsSynced m → IsSynced m'
  unfolding delete
  delete-IsSynced path m m' e v = elim (Bool-cases (has_key path m.file_contents)) [
    | inl file ↦
        let is_m' : m' ≡ delete_file path m = ground arith in
        subst IsSynced (sym is_m') (delete_file-IsSynced path m v)
    | inr no_file ↦
        let left : MemoryMedium = record m { directories = remove path m.directories } in
        let is_m' : m' ≡ left = ground arith in
        subst IsSynced (sym is_m') (record { modes = v.modes; times = v.times })
  ]

  Step-IsSynced : {m m' : MemoryMedium} → Step c m m' → IsSynced m → IsSynced m'
  unfolding write_mode writer_close ensure_dir rename
  Step-IsSynced {m} {m'} (writes now path content mode e) v =
      let marked = ensure_ancestor_directories c path m in
      let is_m' : m' ≡ put_file path content mode now marked = ground arith in
      subst IsSynced (sym is_m')
        (put_file-IsSynced path content mode now marked (marked-IsSynced path m v))
  Step-IsSynced {m} {m'} (ensures path e) v =
      let marked = ensure_ancestor_directories c path m in
      let made : MemoryMedium = record marked {
        directories = insert path true marked.directories;
      } in
      let is_m' : m' ≡ made = ground arith in
      let w = marked-IsSynced path m v in
      subst IsSynced (sym is_m') (record { modes = w.modes; times = w.times })
  Step-IsSynced {m} {m'} (deletes path e) v = delete-IsSynced path m m' e v
  Step-IsSynced {m} {m'} (deletes_all path e) v = delete_all-IsSynced path m m' e v
  Step-IsSynced {m} {m'} (renames old new keys directories r e) v =
      elim (Option-cases (rename_file m old new)) [
        | inr (m1, file) ↦
            let is_m' : m' ≡ m1 = ground arith in
            subst IsSynced (sym is_m') (rename_file-IsSynced m m1 old new file v)
        | inl no_file ↦
            let is_m' : m' ≡ rename_directory c m old new keys directories = ground arith in
            subst IsSynced (sym is_m') (rename_directory-IsSynced c m old new keys directories r v)
      ]
  Step-IsSynced {m} {m'} (closes now writer e) v =
      let marked = ensure_ancestor_directories c writer.path m in
      let is_m' : m' ≡ put_file writer.path writer.buffer writer.mode now marked = ground arith in
      subst IsSynced (sym is_m') (
        put_file-IsSynced writer.path writer.buffer writer.mode now marked
          (marked-IsSynced writer.path m v))

  -- In every reachable medium exactly the stored files have a mode, and exactly they have a
  -- modification time.
  pub Reachable-IsSynced : {m : MemoryMedium} → Reachable c m → IsSynced m
  unfolding lookup
  Reachable-IsSynced start = record { modes = λ k. refl; times = λ k. refl }
  Reachable-IsSynced (next r s) = Step-IsSynced s (Reachable-IsSynced r)

  -- In a reachable medium `Stat` gives the same answer at any two times: it never falls back on the
  -- clock.
  stat_clock :
      (m : MemoryMedium) (path : Bytes) (now later : Time)
      → Reachable c m
      → stat c now m path ≡ stat c later m path
  unfolding stat
  stat_clock m path now later r = ground (arith, (Reachable-IsSynced r).times path)
