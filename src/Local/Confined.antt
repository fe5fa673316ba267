-- ===== src/Local/Confined.antt =====
-- The local medium touches the file system only inside its root.
use go_io.Fsutil.{sort_dir_entries_by_name}
use go_io.Common.{[], ap, ◌∙◌, ℕ, ◌≡◌, ◌⊎◌, Bool, true, false, if◌then◌else◌}
use go_io.Common.Bytes.{Bytes, str_eq}
use go_io.Common.Results.{ok, err, refused, ◌>>=◌}
use go_io.CoreText
use go_io.CoreText.{CoreText}
use go_io.PathText.{PathText}
use go_io.Medium.{file_mode}
use go_io.Storage.{
  Storage, Outcome, Run, stop, next, Step, on_path, on_path-Run, IsAny, Agree, on_test, bind-Agree,
  on_test-Agree,
}
use go_io.Local.{Platform, System, dir_separator}
use go_io.Local.Links.Real.{IsReal, IsParted, IsSteady}
use go_io.Local.Links.Validated.{validate_path-IsReal}
use go_io.Local.Links.{is_protected_path}
use go_io.Local.Methods
use go_io.Local.Methods.{LocalMedium, local, validated}
use go_io.Local.Inside.{IsCleaning, IsUnder, is_within_root-IsUnder, validate_path_inside}

module _ (c : CoreText) (K : CoreText.IsLawful c) (t : PathText) (p : Platform)
    (P : IsCleaning c t p) where
  module _ (o : System) (rounds depth : ℕ) (D : IsParted c t p o)
      (S : (u : o.storage.State) → IsSteady c t p o rounds u) where
    if_Run :
        {M : Storage} {Q : M.State → Bytes → Type 0} {s : M.State} (b : Bool)
        (x y : Outcome M.State Unit)
        → Run M Q s x.1
        → Run M Q s y.1
        → let outcome : Outcome M.State Unit = if b then x else y in Run M Q s outcome.1
    if_Run true x y before after = before
    if_Run false x y before after = after

    module _ (medium : LocalMedium) where
      -- A path of the file system inside the root: it lies there, and unless the root is the whole
      -- file system it is the root or has no symbolic link in it.
      abbrev pub IsInside : o.storage.State → Bytes → Type 0
      IsInside u path =
          IsUnder c K t p P medium.filesystem_root path
          × ((medium.filesystem_root ≡ dir_separator c t p)
              ⊎ ((path ≡ medium.filesystem_root) ⊎ IsReal c t p o u path))

      inside :
          (u : o.storage.State) (path resolved : Bytes)
          → validated c t p o rounds depth medium u path ≡ ok resolved
          → IsInside u resolved
      inside u path resolved e = (
        is_within_root-IsUnder c K t p P medium.filesystem_root resolved (
            validate_path_inside c K t p P o rounds depth u medium.filesystem_root path resolved e),
        validate_path-IsReal c t p o rounds u D (S u) depth medium.filesystem_root path resolved e,
      )

      step :
          {s u v : o.storage.State}
          → Run o.storage IsInside s u
          → Step (local c t p o rounds depth medium) IsAny u v
          → Run o.storage IsInside s v
      unfolding Methods.write Methods.write_mode Methods.ensure_dir Methods.delete
          Methods.delete_all Methods.rename Methods.create Methods.append Methods.write_stream
      step before (Step.write u q content _) =
          on_path-Run o.storage (validated c t p o rounds depth medium u q)
            (λ path. o.storage.write_mode u path content file_mode) before
            (λ path e. next before (Step.write_mode u path content file_mode (inside u q path e)))
      step before (Step.write_mode u q content mode _) =
          on_path-Run o.storage (validated c t p o rounds depth medium u q)
            (λ path. o.storage.write_mode u path content mode) before
            (λ path e. next before (Step.write_mode u path content mode (inside u q path e)))
      step before (Step.ensure_dir u q _) =
          on_path-Run o.storage (validated c t p o rounds depth medium u q)
            (λ path. o.storage.ensure_dir u path) before
            (λ path e. next before (Step.ensure_dir u path (inside u q path e)))
      step before (Step.create u q _) =
          on_path-Run o.storage (validated c t p o rounds depth medium u q)
            (λ path. o.storage.create u path) before
            (λ path e. next before (Step.create u path (inside u q path e)))
      step before (Step.append u q _) =
          on_path-Run o.storage (validated c t p o rounds depth medium u q)
            (λ path. o.storage.append u path) before
            (λ path e. next before (Step.append u path (inside u q path e)))
      step before (Step.write_stream u q _) =
          on_path-Run o.storage (validated c t p o rounds depth medium u q)
            (λ path. o.storage.create u path) before
            (λ path e. next before (Step.create u path (inside u q path e)))
      step before (Step.delete u q _) =
          on_path-Run o.storage (validated c t p o rounds depth medium u q)
            (λ path.
              if str_eq path medium.filesystem_root
              then (err refused, u)
              else if is_protected_path c t p o rounds depth u path
              then (err refused, u)
              else o.storage.delete u path)
            before
            (λ path e.
              if_Run (str_eq path medium.filesystem_root) (err refused, u)
                (if is_protected_path c t p o rounds depth u path
                  then (err refused, u)
                  else o.storage.delete u path)
                before
                (if_Run (is_protected_path c t p o rounds depth u path) (err refused, u)
                  (o.storage.delete u path) before
                  (next before (Step.delete u path (inside u q path e)))))
      step before (Step.delete_all u q _) =
          on_path-Run o.storage (validated c t p o rounds depth medium u q)
            (λ path.
              if str_eq path medium.filesystem_root
              then (err refused, u)
              else if is_protected_path c t p o rounds depth u path
              then (err refused, u)
              else o.storage.delete_all u path)
            before
            (λ path e.
              if_Run (str_eq path medium.filesystem_root) (err refused, u)
                (if is_protected_path c t p o rounds depth u path
                  then (err refused, u)
                  else o.storage.delete_all u path)
                before
                (if_Run (is_protected_path c t p o rounds depth u path) (err refused, u)
                  (o.storage.delete_all u path) before
                  (next before (Step.delete_all u path (inside u q path e)))))
      step before (Step.rename u q r _ _) =
          on_path-Run o.storage (validated c t p o rounds depth medium u q)
            (λ old. on_path (validated c t p o rounds depth medium u r) u (o.storage.rename u old))
            before
            (λ old e.
              on_path-Run o.storage (validated c t p o rounds depth medium u r)
                (o.storage.rename u old) before
                (λ new f.
                  next before (Step.rename u old new (inside u q old e) (inside u r new f))))

      changes :
          {s u : o.storage.State}
          → Run (local c t p o rounds depth medium) IsAny s u
          → Run o.storage IsInside s u
      changes stop = stop
      changes (next before st) = step (changes before) st

      reads :
          (y z : o.storage.State)
          → ((q : Bytes)
              → validated c t p o rounds depth medium y q
                ≡ validated c t p o rounds depth medium z q)
          → Agree o.storage (IsInside y) y z
          → Agree (local c t p o rounds depth medium) (λ path. Unit) y z
      unfolding Methods.read Methods.is_file Methods.list Methods.stat Methods.open_file
          Methods.read_stream Methods.exists Methods.is_dir
      reads y z same A =
          let at = validated c t p o rounds depth medium y in
          let opened : (q : Bytes)
              → Methods.open_file c t p o rounds depth medium y q
                ≡ Methods.open_file c t p o rounds depth medium z q =
            λ q.
              bind-Agree (at q) (o.storage.open_file y) (o.storage.open_file z)
                (λ path e. A.open_file path (inside y q path e))
              ∙ ap (λ r. r >>= o.storage.open_file z) (same q) in
          let files : (q : Bytes)
              → on_test (at q) (o.storage.is_file y)
                ≡ on_test (validated c t p o rounds depth medium z q) (o.storage.is_file z) =
            λ q.
              on_test-Agree (at q) (o.storage.is_file y) (o.storage.is_file z)
                (λ path e. A.is_file path (inside y q path e))
              ∙ ap (λ r. on_test r (o.storage.is_file z)) (same q) in
          let directories : (q : Bytes)
              → on_test (at q) (o.storage.is_dir y)
                ≡ on_test (validated c t p o rounds depth medium z q) (o.storage.is_dir z) =
            λ q.
              on_test-Agree (at q) (o.storage.is_dir y) (o.storage.is_dir z)
                (λ path e. A.is_dir path (inside y q path e))
              ∙ ap (λ r. on_test r (o.storage.is_dir z)) (same q) in
          record {
            read = λ q any.
                bind-Agree (at q) (o.storage.read y) (o.storage.read z)
                  (λ path e. A.read path (inside y q path e))
                ∙ ap (λ r. r >>= o.storage.read z) (same q);
            is_file = λ q any. ap (λ b. if str_eq q [] then false else b) (files q);
            list = λ q any.
                ap (λ r. r >>= λ entries. ok (sort_dir_entries_by_name entries))
                  (bind-Agree (at q) (o.storage.list y) (o.storage.list z)
                      (λ path e. A.list path (inside y q path e))
                    ∙ ap (λ r. r >>= o.storage.list z) (same q));
            stat = λ q any.
                bind-Agree (at q) (o.storage.stat y) (o.storage.stat z)
                  (λ path e. A.stat path (inside y q path e))
                ∙ ap (λ r. r >>= o.storage.stat z) (same q);
            open_file = λ q any. opened q;
            read_stream = λ q any. opened q;
            exists = λ q any.
                on_test-Agree (at q) (o.storage.exists y) (o.storage.exists z)
                  (λ path e. A.exists path (inside y q path e))
                ∙ ap (λ r. on_test r (o.storage.exists z)) (same q);
            is_dir = λ q any. ap (λ b. if str_eq q [] then false else b) (directories q);
          }

      -- If `core.Path` cleans and joins paths, and `readlink` finds what `lstat` gives as a link: what
      -- changes the file system through the local medium is done at the root or at paths inside it,
      -- which, unless the root is the whole file system, have no symbolic link in them at the time,
      -- whatever links there are. What is read through it is the same in two states in which paths
      -- validate to the same and that agree on those paths.
      pub local-Run :
          {s u : o.storage.State}
          → Run (local c t p o rounds depth medium) IsAny s u
          → (y z : o.storage.State)
          → ((q : Bytes)
              → validated c t p o rounds depth medium y q
                ≡ validated c t p o rounds depth medium z q)
          → Agree o.storage (IsInside y) y z
          → Run o.storage IsInside s u
            × Agree (local c t p o rounds depth medium) (λ path. Unit) y z
      local-Run runs y z same A = (changes runs, reads y z same A)
