-- ===== src/Borg.antt =====
-- `*borgdatanode.DataNode` of the package Borg, which the mediums of go/datanode and go/cube use. It
-- is not part of the repository: a parameter, with its documented behaviour in `IsLawful`.
use go_io.Common.{Bool, List}
use go_io.Common.Bytes.{Bytes}
use go_io.Common.Results.{Result}
use go_io.Medium.{FileInfo, DirEntry}

pub record Borg : Type 1 where
  pub DataNode : Type 0
  pub File : Type 0
  -- `New`, `AddData`
  pub new : DataNode
  pub add_data : DataNode → Bytes → Bytes → DataNode
  -- `Open`, and `Stat`, `goio.ReadAll` and `Close` on what it gives
  pub open_file : DataNode → Bytes → Result File
  pub file_stat : File → Result FileInfo
  pub read_all : File → Result Bytes
  pub close : File → Result (Unit {0})
  -- `Stat`, `ReadDir`
  pub stat : DataNode → Bytes → Result FileInfo
  pub read_dir : DataNode → Bytes → Result (List DirEntry)
  -- `fs.WalkDir` from ".": the paths that are visited, and whether they are directories
  pub walk : DataNode → Result (List (Bytes × Bool))
  -- `FromTar`, `ToTar`
  pub from_tar : Bytes → Result DataNode
  pub to_tar : DataNode → Result Bytes
