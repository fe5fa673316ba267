-- ===== src/Workspace/Steps.antt =====
-- go/workspace/workspace.go: the operations of a scoped medium as operations of the one it wraps.
use go_io.Common.{◌≡◌, Bool, true, false}
use go_io.Common.Bytes.{Bytes}
use go_io.Common.Results.{ok}
use go_io.CoreText
use go_io.CoreText.{CoreText, slash}
use go_io.PathText
use go_io.PathText.{PathText, all_names, all_names-append}
use go_io.Medium.{file_mode}
use go_io.Storage.{
  Storage, Run, stop, next, Step, on_path, on_path-Run, IsAny, Agree, bind-Agree, on_test-Agree,
}
use go_io.Workspace.Scoped
use go_io.Workspace.Scoped.{ScopedMedium, scoped_path, scoped}
use go_io.Workspace.Within.{IsInside, IsNamed, scoped_path-IsInside}

module _ (c : CoreText) (K : CoreText.IsLawful c) (t : PathText) (L : PathText.IsLawful c t)
    (M : Storage) where
  module _ (medium : ScopedMedium) (named : IsNamed t medium.root) where
    below :
        (entry_path path : Bytes) (allow_root : Bool)
        → scoped_path c t medium entry_path allow_root ≡ ok path
        → IsInside t medium.root path
    below entry_path path allow_root =
        scoped_path-IsInside c K t L medium entry_path path allow_root named

    step :
        {s u v : M.State}
        → Run M (λ at. IsInside t medium.root) s u
        → Step (scoped c t M medium) IsAny u v
        → Run M (λ at. IsInside t medium.root) s v
    unfolding Scoped.write Scoped.write_mode Scoped.ensure_dir Scoped.delete Scoped.delete_all
        Scoped.rename Scoped.create Scoped.append Scoped.write_stream
    step before (Step.write u p content _) =
        on_path-Run M (scoped_path c t medium p false)
          (λ path. M.write_mode u path content file_mode) before
          (λ path e. next before (Step.write_mode u path content file_mode (below p path false e)))
    step before (Step.write_mode u p content mode _) =
        on_path-Run M (scoped_path c t medium p false) (λ path. M.write_mode u path content mode)
          before
          (λ path e. next before (Step.write_mode u path content mode (below p path false e)))
    step before (Step.ensure_dir u p _) =
        on_path-Run M (scoped_path c t medium p true) (M.ensure_dir u) before
          (λ path e. next before (Step.ensure_dir u path (below p path true e)))
    step before (Step.delete u p _) =
        on_path-Run M (scoped_path c t medium p false) (M.delete u) before
          (λ path e. next before (Step.delete u path (below p path false e)))
    step before (Step.delete_all u p _) =
        on_path-Run M (scoped_path c t medium p false) (M.delete_all u) before
          (λ path e. next before (Step.delete_all u path (below p path false e)))
    step before (Step.rename u p q _ _) =
        on_path-Run M (scoped_path c t medium p false)
          (λ old. on_path (scoped_path c t medium q false) u (λ new. M.rename u old new)) before
          (λ old e.
            on_path-Run M (scoped_path c t medium q false) (λ new. M.rename u old new) before
              (λ new f.
                next before (Step.rename u old new (below p old false e) (below q new false f))))
    step before (Step.create u p _) =
        on_path-Run M (scoped_path c t medium p false) (M.create u) before
          (λ path e. next before (Step.create u path (below p path false e)))
    step before (Step.append u p _) =
        on_path-Run M (scoped_path c t medium p false) (M.append u) before
          (λ path e. next before (Step.append u path (below p path false e)))
    step before (Step.write_stream u p _) =
        on_path-Run M (scoped_path c t medium p false) (M.write_stream u) before
          (λ path e. next before (Step.write_stream u path (below p path false e)))

    -- What is done through a scoped medium is done to the wrapped one at paths within the root.
    pub scoped-Run :
        {s u : M.State}
        → Run (scoped c t M medium) IsAny s u
        → Run M (λ v. IsInside t medium.root) s u
    scoped-Run stop = stop
    scoped-Run (next before st) = step (scoped-Run before) st

    -- What is read through a scoped medium depends on the paths within the root only.
    pub scoped-Agree :
        (y z : M.State)
        → Agree M (IsInside t medium.root) y z
        → Agree (scoped c t M medium) (λ path. Unit) y z
    unfolding Scoped.read Scoped.is_file Scoped.list Scoped.stat Scoped.open_file Scoped.read_stream
        Scoped.exists Scoped.is_dir
    scoped-Agree y z A = record {
      read = λ p any.
          bind-Agree (scoped_path c t medium p false) (M.read y) (M.read z)
            (λ path e. A.read path (below p path false e));
      is_file = λ p any.
          on_test-Agree (scoped_path c t medium p false) (M.is_file y) (M.is_file z)
            (λ path e. A.is_file path (below p path false e));
      list = λ p any.
          bind-Agree (scoped_path c t medium p true) (M.list y) (M.list z)
            (λ path e. A.list path (below p path true e));
      stat = λ p any.
          bind-Agree (scoped_path c t medium p true) (M.stat y) (M.stat z)
            (λ path e. A.stat path (below p path true e));
      open_file = λ p any.
          bind-Agree (scoped_path c t medium p false) (M.open_file y) (M.open_file z)
            (λ path e. A.open_file path (below p path false e));
      read_stream = λ p any.
          bind-Agree (scoped_path c t medium p false) (M.read_stream y) (M.read_stream z)
            (λ path e. A.read_stream path (below p path false e));
      exists = λ p any.
          on_test-Agree (scoped_path c t medium p true) (M.exists y) (M.exists z)
            (λ path e. A.exists path (below p path true e));
      is_dir = λ p any.
          on_test-Agree (scoped_path c t medium p true) (M.is_dir y) (M.is_dir z)
            (λ path e. A.is_dir path (below p path true e));
    }
