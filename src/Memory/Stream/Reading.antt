-- ===== src/Memory/Stream/Reading.antt =====
-- A `MemoryFile` delivers its content once, in order, whatever the sizes of the buffers.
use native.Mathlib.Omega.{arith}
use native.Mathlib.Decide.{dec_lt}
use go_io.Common.{
  ℕ, ◌+◌, ◌<◌, ◌≤◌, ◌≡◌, ap, ◌∙◌, Option, none, some, List, [], ◌∷◌, ◌++◌, Option-cases, inl, inr,
}
use go_io.Common.Lists.{
  length, take, drop, length-take, length-drop, drop-all, drop-drop, take-drop_rest,
}
use go_io.Common.Bytes.{Bytes, All}
use go_io.Common.Results.{ok}
use go_io.Common.GoMap.{lookup}
use go_io.CoreText.{CoreText}
use go_io.Memory.{MemoryMedium, read}
use go_io.Memory.Stream.{MemoryFile, file_read, open_file}

-- A reader that asks for one buffer after the other until `io.EOF`: `sizes` are the lengths of the
-- buffers. It returns the bytes in order, and none if the buffers run out before the end.
unfoldable pub drain : MemoryFile → List ℕ → Option Bytes
drain file [] = none
drain file (size ∷ sizes) =
    let rest = drain (file_read file size).0 sizes in
    elim (file_read file size).1 [
      | none ↦ some []
      | some chunk ↦ elim rest [ none ↦ none | some bytes ↦ some (chunk ++ bytes) ]
    ]

module _ (file : MemoryFile) (size : ℕ) where
  file_read_end : length file.content ≤ file.offset → file_read file size ≡ (file, none)
  unfolding file_read
  file_read_end h = ground arith

  abbrev chunk : Bytes
  chunk = take size (drop file.offset file.content)

  file_read_more :
      file.offset < length file.content
      → file_read file size ≡ (record file { offset = file.offset + length chunk }, some chunk)
  unfolding file_read
  file_read_more h = ground arith

  chunk-rest :
      chunk ++ drop (file.offset + length chunk) file.content ≡ drop file.offset file.content
  chunk-rest =
      ap (λ t. chunk ++ t) (drop-drop file.offset (length chunk) file.content)
      ∙ take-drop_rest size (drop file.offset file.content)

drain_lem :
    (file : MemoryFile) (sizes : List ℕ)
    → All (λ n. 0 < n) sizes
    → length file.content < length sizes + file.offset
    → file.offset ≤ length file.content
    → drain file sizes ≡ some (drop file.offset file.content)
unfolding drain
drain_lem file [] h enough le = absurd (omega arith)
drain_lem file (size ∷ sizes) (pos, h) enough le = elim (dec_lt file.offset (length file.content)) [
  | yes more ↦
      let next : MemoryFile = record file { offset = file.offset + length (chunk file size) } in
      let some_bytes : 0 < length (chunk file size) = omega (
        arith,
        length-take size (drop file.offset file.content),
        length-drop file.offset file.content,
      ) in
      let short : file.offset + length (chunk file size) ≤ length file.content = omega (
        arith,
        length-take size (drop file.offset file.content),
        length-drop file.offset file.content,
      ) in
      let ih = drain_lem next sizes h (omega arith) short in
      ground (arith, file_read_more file size more, ih, chunk-rest file size)
  | no done ↦
      let full : length file.content ≤ file.offset = omega arith in
      ground (arith, file_read_end file size full, drop-all file.offset file.content full)
]

-- Reading an opened file with more buffers than it has bytes, none of them empty, gives what `Read`
-- gives.
pub drain-open_file :
    (c : CoreText) (m : MemoryMedium) (path : Bytes) (file : MemoryFile) (sizes : List ℕ)
    → open_file c m path ≡ ok file
    → All (λ n. 0 < n) sizes
    → length file.content < length sizes
    → (content : Bytes) × (read m path ≡ ok content) × (drain file sizes ≡ some content)
unfolding open_file read
drain-open_file c m path file sizes e h enough = elim (Option-cases (lookup path m.file_contents)) [
  | inl absent ↦ absurd (ground arith)
  | inr (content, found) ↦
      let at : file.offset ≡ 0 = ground arith in
      let same : file.content ≡ content = ground arith in
      let run = drain_lem file sizes h (omega arith) (omega arith) in
      (content, ground arith, run ∙ ap (λ n. some (drop n file.content)) at ∙ ap some same)
]
