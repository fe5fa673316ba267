-- ===== src/Workspace/Service.antt =====
-- go/workspace/workspace.go and go/workspace/command.go: the methods of `*Workspace`.
use go_io.Common.{Bool, true, false, ◌||◌, Option, none, some, List, [], ◌∷◌, if◌then◌else◌}
use go_io.Common.Bytes.{Bytes, bytes, str_eq}
use go_io.Common.Results.{Result, ok, err, ◌>>=◌, invalid, exist, not_exist}
use go_io.CoreText.{CoreText}
use go_io.Medium.{DirEntry}
use go_io.PathText.{PathText}
use go_io.Storage.{Storage, Outcome, on_path}
use go_io.Workspace.{clean_workspace_name, clean_medium_subpath, join_medium_subpaths}
use go_io.Workspace.Scoped.{ScopedMedium}

-- `type Workspace struct`; the medium is the parameter `M`.
pub record Workspace : Type 0 where
  pub base : Bytes
  pub current : Bytes

abbrev pub at_base : Bytes → Workspace
at_base base = record { base = base; current = [] }

-- `type WorkspaceCommand struct`
pub record WorkspaceCommand : Type 0 where
  pub action : Bytes
  pub workspace : Bytes
  pub path : Bytes
  pub content : Bytes
  pub identifier : Bytes
  pub password : Bytes
  pub workspace_id : Bytes

-- `workspaceName`
unfoldable pub workspace_name : WorkspaceCommand → Bytes
unfolding str_eq
workspace_name command =
    if str_eq command.workspace []
    then (if str_eq command.workspace_id [] then command.identifier else command.workspace_id)
    else command.workspace

-- The value of a `core.Result` that is Ok.
pub data Reply : Type 0 where
  medium : ScopedMedium → Reply
  nothing : Reply
  text : Bytes → Reply
  listing : List DirEntry → Reply

-- `CurrentWorkspace`
unfoldable pub current_workspace : Option Workspace → Bytes
current_workspace none = []
current_workspace (some workspace) = workspace.current

abbrev pub replied : {A : Type 0} → (A → Reply) → Result A → Result Reply
replied f r = r >>= λ a. ok (f a)

module _ (c : CoreText) (t : PathText) where
  -- `workspaceNameAndPath`
  unfoldable pub workspace_name_and_path : Option Workspace → Bytes → Result (Bytes × Bytes)
  unfolding clean_workspace_name join_medium_subpaths
  workspace_name_and_path none name = err invalid
  workspace_name_and_path (some workspace) name = clean_workspace_name c t name >>= λ clean_name.
      ok (clean_name, join_medium_subpaths c t (workspace.base ∷ clean_name ∷ []))

  -- `workspacePath`
  unfoldable pub workspace_path : Option Workspace → Bytes → Result Bytes
  unfolding workspace_name_and_path
  workspace_path workspace name = workspace_name_and_path workspace name >>= λ named. ok named.1

module _ (c : CoreText) (t : PathText) (M : Storage) where
  abbrev pub made : Bytes → Outcome M.State Unit → Outcome (Option M.State) Workspace
  made base (ok done, s) = (ok (at_base base), some s)
  made base (err e, s) = (err e, some s)

  -- The call of `EnsureDir` in `NewWorkspace`.
  abbrev pub based : M.State → Result Bytes → Outcome (Option M.State) Workspace
  based s (err e) = (err e, some s)
  based s (ok base) =
      if str_eq base [] then (ok (at_base base), some s) else made base (M.ensure_dir s base)

  -- `NewWorkspace`; the medium is `none` for nil.
  unfoldable pub new_workspace : Option M.State → Bytes → Outcome (Option M.State) Workspace
  unfolding clean_medium_subpath str_eq
  new_workspace none base_subpath = (err invalid, none)
  new_workspace (some s) base_subpath = based s (clean_medium_subpath c t base_subpath true)

  abbrev pub created : Bytes → Outcome M.State Unit → Outcome M.State ScopedMedium
  created path (ok done, s) = (ok (record { root = path }), s)
  created path (err e, s) = (err e, s)

  -- `CreateWorkspace`
  unfoldable pub create_workspace :
      Option Workspace → M.State → Bytes → Outcome M.State ScopedMedium
  unfolding workspace_path
  create_workspace workspace s name = on_path (workspace_path c t workspace name) s (λ path.
      if M.is_dir s path
      then (err exist, s)
      else if M.exists s path
      then (err exist, s)
      else created path (M.ensure_dir s path))

  abbrev pub switched : Workspace → M.State → Result (Bytes × Bytes) → Outcome Workspace Unit
  switched workspace s (err e) = (err e, workspace)
  switched workspace s (ok (name, path)) =
      if M.is_dir s path
      then (ok tt, record workspace { current = name })
      else (err not_exist, workspace)

  -- `SwitchWorkspace`
  unfoldable pub switch_workspace :
      Option Workspace → M.State → Bytes → Outcome (Option Workspace) Unit
  unfolding workspace_name_and_path
  switch_workspace none s name = (err invalid, none)
  switch_workspace (some workspace) s name =
      let (r, w) = switched workspace s (workspace_name_and_path c t (some workspace) name) in
      (r, some w)

  -- `workspaceFilePath`
  unfoldable pub workspace_file_path :
      Option Workspace → M.State → Bytes → Bytes → Bool → Result Bytes
  unfolding workspace_name_and_path clean_medium_subpath join_medium_subpaths
  workspace_file_path workspace s name file_path allow_empty =
      workspace_path c t workspace name >>= λ path.
      if M.is_dir s path
      then (clean_medium_subpath c t file_path allow_empty >>= λ clean_file_path.
          ok (join_medium_subpaths c t (path ∷ clean_file_path ∷ [])))
      else err not_exist

  -- `ReadWorkspaceFile`
  unfoldable pub read_workspace_file : Option Workspace → M.State → Bytes → Bytes → Result Bytes
  unfolding workspace_file_path
  read_workspace_file workspace s name file_path =
      workspace_file_path workspace s name file_path false >>= M.read s

  -- `WriteWorkspaceFile`
  unfoldable pub write_workspace_file :
      Option Workspace → M.State → Bytes → Bytes → Bytes → Outcome M.State Unit
  unfolding workspace_file_path
  write_workspace_file workspace s name file_path content =
      on_path (workspace_file_path workspace s name file_path false) s
        (λ path. M.write s path content)

  -- `ListWorkspaceFiles`
  unfoldable pub list_workspace_files :
      Option Workspace → M.State → Bytes → Bytes → Result (List DirEntry)
  unfolding workspace_file_path
  list_workspace_files workspace s name directory_path =
      workspace_file_path workspace s name directory_path true >>= M.list s

  abbrev is_action : Bytes → Bytes → Bytes → Bool
  is_action action short long = str_eq action short || str_eq action long

  -- `HandleWorkspaceCommand`
  unfoldable pub handle_workspace_command :
      Option Workspace → M.State → WorkspaceCommand → Outcome (Option Workspace × M.State) Reply
  unfolding create_workspace switch_workspace read_workspace_file write_workspace_file
      list_workspace_files workspace_name
  handle_workspace_command workspace s command =
      let action = t.lower (t.trim command.action) in
      let name = workspace_name command in
      let (made, s') = create_workspace workspace s name in
      let (switched, w') = switch_workspace workspace s name in
      let (written, s'') = write_workspace_file workspace s name command.path command.content in
      if is_action action (bytes "create") (bytes "workspace.create")
      then (replied Reply.medium made, (workspace, s'))
      else if is_action action (bytes "switch") (bytes "workspace.switch")
      then (replied (λ _. nothing) switched, (w', s))
      else if str_eq action (bytes "read")
      then (replied text (read_workspace_file workspace s name command.path), (workspace, s))
      else if str_eq action (bytes "write")
      then (replied (λ _. nothing) written, (workspace, s''))
      else if str_eq action (bytes "list")
      then (replied listing (list_workspace_files workspace s name command.path), (workspace, s))
      else (err invalid, (workspace, s))
