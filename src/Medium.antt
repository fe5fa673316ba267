-- ===== src/Medium.antt =====
-- go/io.go: the `Medium` interface as far as `Copy` and `Node.CopyTo` use it, `FileInfo`, `DirEntry` and `Copy`.
-- Times are numbers; `time.Now()` is an argument `now` of the operations that read the clock.
use go_io.Common.{ℕ, ◌+◌, ◌^◌, Bool}
use go_io.Common.Bytes.{Bytes}
use go_io.Common.Results.{Result, ok, err}

-- `fs.FileMode`; `fs.ModeDir` is bit 31.
abbrev pub Mode : Type 0
Mode = ℕ

abbrev pub Time : Type 0
Time = ℕ

abbrev pub mode_dir : Mode
mode_dir = 2 ^ 31

-- 0644 and 0755
abbrev pub file_mode : Mode
file_mode = 0o644

abbrev pub directory_mode : Mode
directory_mode = mode_dir + 0o755

-- `time.Time{}`
abbrev pub zero_time : Time
zero_time = 0

-- `type FileInfo struct`
pub record FileInfo : Type 0 where
  pub name : Bytes
  pub size : ℕ
  pub mode : Mode
  pub mod_time : Time
  pub is_dir : Bool

-- `type DirEntry struct`
pub record DirEntry : Type 0 where
  pub name : Bytes
  pub is_dir : Bool
  pub mode : Mode
  pub info : FileInfo

-- `NewFileInfo`
abbrev pub new_file_info : Bytes → ℕ → Mode → Time → Bool → FileInfo
new_file_info name size mode mod_time is_dir = record {
  name = name;
  size = size;
  mode = mode;
  mod_time = mod_time;
  is_dir = is_dir;
}

-- `NewDirEntry`
abbrev pub new_dir_entry : Bytes → Bool → Mode → FileInfo → DirEntry
new_dir_entry name is_dir mode info = record {
  name = name;
  is_dir = is_dir;
  mode = mode;
  info = info;
}

-- A medium over some state. An operation that fails leaves the state as it was.
pub record Medium : Type 1 where
  pub State : Type 0
  pub read : State → Bytes → Result Bytes
  pub stat : Time → State → Bytes → Result FileInfo
  pub write : Time → State → Bytes → Bytes → Result State
  pub write_mode : Time → State → Bytes → Bytes → Mode → Result State

-- `mode := fs.FileMode(0644)`, or the mode of the source if it has one.
abbrev pub mode_of : Result FileInfo → Mode
mode_of (ok info) = info.mode
mode_of (err e) = file_mode

-- `Copy`: the new state of the destination. The clock is read by the write, and by the `Stat` of a
-- medium that has no time for a file.
module _ (source destination : Medium) (now : Time) where
  unfoldable pub copy : source.State → Bytes → destination.State → Bytes → Result destination.State
  copy s source_path d destination_path = elim (source.read s source_path) [
    | err e ↦ err e
    | ok content ↦
        destination.write_mode now d destination_path content
          (mode_of (source.stat now s source_path))
  ]
