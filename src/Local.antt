-- ===== src/Local.antt =====
-- go/local/medium.go and go/local/medium_link.go: paths of the local file system kept inside the
-- root of a medium. `Platform` has the functions of the package `dappco.re/go` that depend on the
-- operating system, and `System` the operating system itself over a state.
pub mod Links
pub mod Methods
pub mod Inside
pub mod Confined
pub mod Plain
mod Tests
use go_io.Common.{
  ℕ, zero, suc, ◌+◌, ◌*◌, Bool, true, false, not, ◌&&◌, ◌||◌, ltb, List, [], ◌∷◌, ◌++◌,
  if◌then◌else◌,
}
use go_io.Common.Lists.{length}
use go_io.Common.Bytes.{Bytes, bytes, str_eq}
use go_io.Common.Results.{
  Result, ok, err, Error, ◌>>=◌, invalid, permission, not_exist, out_of_fuel,
}
use go_io.CoreText.{CoreText, slash, dot}
use go_io.PathText.{PathText, backslash}
use go_io.Storage.{Storage}

pub record Platform : Type 0 where
  -- `core.Env(name)`, empty for a variable that is not set
  pub env : Bytes → Bytes
  -- `core.PathIsAbs(path)`
  pub path_is_abs : Bytes → Bool
  -- `core.Path(segments...)`
  pub path : List Bytes → Bytes

pub record System : Type 1 where
  -- `core.Fs` without a root
  pub storage : Storage
  -- `core.Lstat(path)`: is it a symbolic link?
  pub lstat : storage.State → Bytes → Result Bool
  -- `syscall.Readlink(path, buffer)` with a buffer of that length: what it puts in the buffer
  pub syscall_readlink : storage.State → Bytes → ℕ → Result Bytes

-- `core.Is(err, syscall.ENOENT)`
abbrev pub is_not_exist : Error → Bool
is_not_exist not_exist = true
is_not_exist _ = false

-- `_, ok := seen[target]`
unfoldable pub member : Bytes → List Bytes → Bool
unfolding str_eq
member x [] = false
member x (y ∷ ys) = str_eq x y || member x ys

-- The loop of `splitPathParts`.
unfoldable pub non_empty : List Bytes → List Bytes
unfolding str_eq
non_empty [] = []
non_empty (part ∷ parts) =
    let rest = non_empty parts in if str_eq part [] then rest else part ∷ rest

module _ (c : CoreText) (t : PathText) (p : Platform) where
  -- `dirSeparator`
  unfoldable pub dir_separator : Bytes
  unfolding str_eq
  dir_separator =
      if not (str_eq (p.env (bytes "CORE_PATH_SEPARATOR")) [])
      then p.env (bytes "CORE_PATH_SEPARATOR")
      else if not (str_eq (p.env (bytes "DS")) [])
      then p.env (bytes "DS")
      else slash

  -- `normalisePath`
  unfoldable pub normalise_path : Bytes → Bytes
  unfolding dir_separator str_eq
  normalise_path path =
      if str_eq dir_separator slash
      then t.replace path backslash dir_separator
      else t.replace path slash dir_separator

  -- `currentWorkingDir`
  unfoldable pub current_working_dir : Bytes
  unfolding str_eq
  current_working_dir =
      if not (str_eq (p.env (bytes "CORE_WORKING_DIRECTORY")) [])
      then p.env (bytes "CORE_WORKING_DIRECTORY")
      else if not (str_eq (p.env (bytes "DIR_CWD")) [])
      then p.env (bytes "DIR_CWD")
      else dot

  -- `absolutePath`
  unfoldable pub absolute_path : Bytes → Bytes
  unfolding normalise_path current_working_dir
  absolute_path path =
      if p.path_is_abs (normalise_path path)
      then p.path (normalise_path path ∷ [])
      else p.path (current_working_dir ∷ normalise_path path ∷ [])

  -- `cleanSandboxPath`
  unfoldable pub clean_sandbox_path : Bytes → Bytes
  unfolding normalise_path dir_separator
  clean_sandbox_path path = p.path ((dir_separator ++ normalise_path path) ∷ [])

  -- `splitPathParts`
  unfoldable pub split_path_parts : Bytes → List Bytes
  unfolding non_empty dir_separator str_eq
  split_path_parts path =
      let trimmed = c.trim_prefix path dir_separator in
      if str_eq trimmed [] then [] else non_empty (t.split trimmed dir_separator)

  -- `isWithinRoot`
  unfoldable pub is_within_root : Bytes → Bytes → Bool
  unfolding dir_separator str_eq
  is_within_root root target =
      let clean_root = p.path (root ∷ []) in
      let clean_target = p.path (target ∷ []) in
      if str_eq clean_root dir_separator
      then true
      else str_eq clean_target clean_root || c.has_prefix clean_target (clean_root ++ dir_separator)

  -- `sandboxedPath`
  unfoldable pub sandboxed_path : Bytes → Bytes → Bytes
  unfolding clean_sandbox_path normalise_path current_working_dir dir_separator str_eq
  sandboxed_path filesystem_root path =
      if str_eq path []
      then filesystem_root
      else if str_eq filesystem_root dir_separator && not (p.path_is_abs (normalise_path path))
      then p.path (current_working_dir ∷ normalise_path path ∷ [])
      else if str_eq filesystem_root dir_separator
      then clean_sandbox_path path
      else p.path (filesystem_root ∷ c.trim_prefix (clean_sandbox_path path) dir_separator ∷ [])

-- The loop of `readlink` from a buffer of a size, which it doubles until the link fits. Fuel bounds
-- the number of rounds.
module _ (o : System) where
  unfoldable pub readlink_from : ℕ → ℕ → o.storage.State → Bytes → Result Bytes
  readlink_from zero size s path = err out_of_fuel
  readlink_from (suc fuel) size s path =
      let again = readlink_from fuel (size * 2) s path in
      o.syscall_readlink s path size >>= λ read. if ltb (length read) size then ok read else again

  -- `readlink`
  unfoldable pub readlink : ℕ → o.storage.State → Bytes → Result Bytes
  unfolding readlink_from
  readlink rounds s path = readlink_from rounds 256 s path
