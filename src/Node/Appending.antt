-- ===== src/Node/Appending.antt =====
-- Writers of a `Node`: what is written is stored when the writer is closed.
use native.Mathlib.Omega.{arith}
use go_io.Common.{
  ◌≡◌, ◌⊎◌, inl, inr, ap, ◌∙◌, Bool-cases, true, false, [], ◌++◌, ◌||◌, if◌then◌else◌,
}
use go_io.Common.Bytes.{Bytes, str_eq}
use go_io.Common.Results.{Result, ok, err, invalid}
use go_io.Common.GoMap.{lookup}
use go_io.CoreText.{CoreText, dot}
use go_io.Medium.{Time}
use go_io.Node.{Node, stored, trimmed, put_data}
use go_io.Node.Writing.{stored-put_data}
use go_io.Node.Streams.{NodeWriter, content_or_empty, append, writer_write, writer_close}

-- The content that an append starts from.
abbrev pub content_before : Result Bytes → Bytes
content_before (ok content) = content
content_before (err e) = []

module _ (c : CoreText) (now : Time) (node : Node) (path first second q : Bytes) where
  abbrev pub appended : NodeWriter
  appended = (writer_write (writer_write (append c node path) first).0 second).0

  -- `Append`, two writes and `Close`: the close fails, with `fs.ErrInvalid`, if the path is empty or
  -- "." once a leading slash is off. Else the path has its content before, empty if there was none,
  -- followed by what was written, and every other path has what it had.
  pub append_outcome :
      (((str_eq (trimmed c path) [] || str_eq (trimmed c path) dot) ≡ true)
        × (writer_close now node appended ≡ err invalid))
      ⊎ (((str_eq (trimmed c path) [] || str_eq (trimmed c path) dot) ≡ false)
          × ((node' : Node) × (writer_close now node appended ≡ ok node')
              × (stored node' q ≡ (
                  if str_eq (trimmed c path) q
                  then ok ((content_before (stored node (trimmed c path)) ++ first) ++ second)
                  else stored node q))))
  unfolding append writer_write writer_close
  append_outcome = elim (Bool-cases (str_eq (trimmed c path) [] || str_eq (trimmed c path) dot)) [
    | inl refused ↦ inl (refused, ground arith)
    | inr fine ↦
        let start : content_or_empty c (lookup (trimmed c path) node.files)
            ≡ content_before (stored node (trimmed c path)) =
          unfold stored in ground arith in
        inr (
          fine,
          (
            put_data now (trimmed c path) appended.buffer node,
            ground arith,
            stored-put_data now (trimmed c path) appended.buffer q node
                ∙ ap
                    (λ s.
                      if str_eq (trimmed c path) q
                      then ok ((s ++ first) ++ second)
                      else stored node q)
                    start,
          ),
        )
  ]
