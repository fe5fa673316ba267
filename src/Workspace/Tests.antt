-- ===== src/Workspace/Tests.antt =====
-- The theorems on workspaces at concrete inputs, over the memory medium and the plain functions.
use go_io.Common.{◌≡◌, refl, true, false, inr, some, List, [], ◌∷◌}
use go_io.Common.Bytes.{Bytes, bytes, str_eq}
use go_io.Common.GoMap
use go_io.Common.Results.{ok}
use go_io.CoreText.Parts
use go_io.CoreText.Plain
use go_io.CoreText.Plain.{plain, plain-IsLawful}
use go_io.PathText
use go_io.PathText.Plain as Paths
use go_io.PathText.Plain.{plain_paths, plain_paths-IsLawful}
use go_io.Memory
use go_io.Memory.{MemoryMedium, new_memory_medium}
use go_io.Memory.Whole.{memory_storage}
use go_io.Storage.{Storage, Run, stop, next, Step, IsAny, Agree}
use go_io.Workspace
use go_io.Workspace.Scoped.{ScopedMedium, scoped}
use go_io.Workspace.Service
use go_io.Workspace.Service.{
  Workspace, at_base, new_workspace, create_workspace, workspace_name_and_path,
}
use go_io.Workspace.Within.{IsWithin, IsInside}
use go_io.Workspace.Apart.{workspace_paths_disjoint}
use go_io.Workspace.Confined.{create_workspace-confined}
use go_io.Workspace.Isolated.{write_workspace_file-isolated}

abbrev M : Storage
M = memory_storage plain 7 (λ m. []) (λ m. [])

abbrev desk : Workspace
desk = at_base (bytes "desks")

-- The medium with the directories of the base and of two workspaces.
abbrev with_directories : List Bytes → MemoryMedium
with_directories [] = new_memory_medium
with_directories (path ∷ paths) = record new_memory_medium {
  directories = (path, true) ∷ (with_directories paths).directories;
}

abbrev started : MemoryMedium
started = with_directories (bytes "desks" ∷ [])

new_workspace_run :
    new_workspace plain plain_paths M (some new_memory_medium) (bytes "desks")
    ≡ (ok desk, some started)
new_workspace_run =
    unfold new_workspace Workspace.clean_medium_subpath Memory.ensure_dir Memory.mark_ancestors
      Parts.clean Plain.starts Paths.trim_left Paths.trim_right GoMap.insert GoMap.lookup
      Plain.before_slash str_eq in
    refl

abbrev alpha : ScopedMedium
alpha = record { root = bytes "desks/alpha" }

abbrev created : MemoryMedium
created = with_directories (bytes "desks" ∷ bytes "desks/alpha" ∷ [])

abbrev two : MemoryMedium
two = with_directories (bytes "desks" ∷ bytes "desks/alpha" ∷ bytes "desks/beta" ∷ [])

create_workspace_run :
    create_workspace plain plain_paths M (some desk) started (bytes " alpha") ≡ (ok alpha, created)
create_workspace_run =
    unfold create_workspace Workspace.clean_workspace_name Service.workspace_name_and_path
      Service.workspace_path Workspace.join_medium_subpaths Workspace.filtered Memory.ensure_dir
      Memory.mark_ancestors Memory.is_dir Memory.exists Memory.directory_exists Memory.other_below
      Memory.with_slash GoMap.any_key Parts.clean Plain.starts Plain.ends Plain.holds
      Paths.trim_left Paths.trim_right Paths.non_empty GoMap.insert GoMap.lookup Plain.before_slash
      str_eq in
    refl

write_through :
    Run
      (scoped plain plain_paths M alpha)
      IsAny
      created
      ((scoped plain plain_paths M alpha).write created (bytes "a/../b") (bytes "hi")).1
write_through = next stop (Step.write created (bytes "a/../b") (bytes "hi") tt)

create_workspace-confined_example :
    (M.exists started (bytes "desks/alpha") ≡ false)
    × Run M
        (λ at. IsInside plain_paths (bytes "desks/alpha"))
        created
        ((scoped plain plain_paths M alpha).write created (bytes "a/../b") (bytes "hi")).1
    × Agree (scoped plain plain_paths M alpha) (λ path. Unit) created created
create_workspace-confined_example =
    create_workspace-confined plain plain-IsLawful plain_paths plain_paths-IsLawful M
      (some new_memory_medium) (some started) (bytes "desks") (bytes " alpha") desk started created
      created ((scoped plain plain_paths M alpha).write created (bytes "a/../b") (bytes "hi")).1
      created created alpha new_workspace_run create_workspace_run write_through
      (record {
        read = λ p inside. refl;
        is_file = λ p inside. refl;
        list = λ p inside. refl;
        stat = λ p inside. refl;
        open_file = λ p inside. refl;
        read_stream = λ p inside. refl;
        exists = λ p inside. refl;
        is_dir = λ p inside. refl;
      })

workspace_paths_disjoint_example : ¬ IsWithin (bytes "desks/beta") (bytes "desks/alpha/b")
workspace_paths_disjoint_example =
    workspace_paths_disjoint plain plain-IsLawful plain_paths plain_paths-IsLawful M
      (some new_memory_medium) (some started) (bytes "desks") desk (bytes "alpha") (bytes "beta ")
      (bytes "alpha") (bytes "beta") (bytes "desks/alpha") (bytes "desks/beta")
      (bytes "desks/alpha/b") new_workspace_run
      (unfold Service.workspace_name_and_path Workspace.clean_workspace_name
          Workspace.join_medium_subpaths Workspace.filtered Parts.clean Plain.starts Plain.holds
          Paths.trim_left Paths.trim_right Paths.non_empty str_eq in
        refl)
      (unfold Service.workspace_name_and_path Workspace.clean_workspace_name
          Workspace.join_medium_subpaths Workspace.filtered Parts.clean Plain.starts Plain.holds
          Paths.trim_left Paths.trim_right Paths.non_empty str_eq in
        refl)
      (λ same. cc) (inr (bytes "b", refl))

abbrev written : MemoryMedium
written = record two {
  file_contents = (bytes "desks/alpha/a", bytes "hi") ∷ [];
  file_modes = (bytes "desks/alpha/a", 0o644) ∷ [];
  modification_times = (bytes "desks/alpha/a", 7) ∷ [];
  directories =
      (bytes "desks", true) ∷ (bytes "desks/alpha", true) ∷ (bytes "desks/beta", true) ∷ [];
}

write_workspace_file-isolated_example :
    (Memory.read written (bytes "desks/alpha/a") ≡ ok (bytes "hi"))
    × (Memory.read written (bytes "desks/beta/a") ≡ Memory.read two (bytes "desks/beta/a"))
write_workspace_file-isolated_example =
    write_workspace_file-isolated plain plain-IsLawful plain_paths plain_paths-IsLawful 7 (λ m. [])
      (λ m. []) (some new_memory_medium) (some started) (bytes "desks") desk two written
      (bytes "alpha") (bytes "a") (bytes "hi") (bytes "beta") (bytes "a") (bytes "desks/alpha/a")
      (bytes "desks/beta/a") (bytes "alpha") (bytes "beta") new_workspace_run
      (unfold Service.write_workspace_file Memory.write Memory.write_mode
          Memory.ensure_ancestor_directories Memory.mark_ancestors Memory.ancestor_is_file
          Memory.put_file GoMap.insert Plain.before_slash Service.workspace_file_path
          Service.workspace_path Workspace.clean_medium_subpath Memory.is_dir
          Memory.directory_exists Memory.other_below Memory.with_slash GoMap.any_key GoMap.lookup
          PathText.any_dot_dot Plain.ends Service.workspace_name_and_path
          Workspace.clean_workspace_name Workspace.join_medium_subpaths Workspace.filtered
          Parts.clean Plain.starts Plain.holds Paths.trim_left Paths.trim_right Paths.non_empty
          str_eq in
        refl)
      (unfold Service.workspace_file_path Service.workspace_path Workspace.clean_medium_subpath
          Memory.is_dir Memory.directory_exists Memory.other_below Memory.with_slash GoMap.any_key
          GoMap.lookup PathText.any_dot_dot Plain.ends Service.workspace_name_and_path
          Workspace.clean_workspace_name Workspace.join_medium_subpaths Workspace.filtered
          Parts.clean Plain.starts Plain.holds Paths.trim_left Paths.trim_right Paths.non_empty
          str_eq in
        refl)
      (unfold Service.workspace_file_path Service.workspace_path Workspace.clean_medium_subpath
          Memory.is_dir Memory.directory_exists Memory.other_below Memory.with_slash GoMap.any_key
          GoMap.lookup PathText.any_dot_dot Plain.ends Service.workspace_name_and_path
          Workspace.clean_workspace_name Workspace.join_medium_subpaths Workspace.filtered
          Parts.clean Plain.starts Plain.holds Paths.trim_left Paths.trim_right Paths.non_empty
          str_eq in
        refl)
      (unfold Workspace.clean_workspace_name Plain.holds Plain.starts Paths.trim_left
          Paths.trim_right str_eq in
        refl)
      (unfold Workspace.clean_workspace_name Plain.holds Plain.starts Paths.trim_left
          Paths.trim_right str_eq in
        refl)
      (unfold str_eq in refl)
