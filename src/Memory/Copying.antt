-- ===== src/Memory/Copying.antt =====
-- `MemoryMedium` as a `Medium`, and what `Copy` does with it.
use native.Mathlib.Omega.{arith}
use go_io.Common.{◌≡◌, ap, ◌∙◌, inl, inr, ◌⊎◌, if◌then◌else◌}
use go_io.Common.Bytes.{Bytes, str_eq}
use go_io.Common.Results.{Error, ok, err, Result-cases}
use go_io.CoreText
use go_io.CoreText.{CoreText}
use go_io.Medium.{Medium, Time, mode_of, copy}
use go_io.Memory.{MemoryMedium, read, stat, write, write_mode, mode_for_path}
use go_io.Memory.Writing.{write_mode_effect}

-- The methods of `*MemoryMedium` that `Copy` and `Node.CopyTo` call.
abbrev pub memory : CoreText → Medium
memory c = record {
  State = MemoryMedium;
  read = read;
  stat = stat c;
  write = write c;
  write_mode = write_mode c;
}

module _ (c : CoreText) (L : CoreText.IsLawful c) where
  mode_of-stat :
      (now : Time) (m : MemoryMedium) (path content : Bytes)
      → read m path ≡ ok content
      → mode_of (stat c now m path) ≡ mode_for_path m path
  unfolding stat read
  mode_of-stat now m path content e = ground arith

  copy_found :
      (now : Time) (s d : MemoryMedium) (source_path destination_path content : Bytes)
      → read s source_path ≡ ok content
      → copy (memory c) (memory c) now s source_path d destination_path
        ≡ write_mode c now d destination_path content (mode_of (stat c now s source_path))
  unfolding copy
  copy_found now s d source_path destination_path content e = ground arith

  copy_absent :
      (now : Time) (s d : MemoryMedium) (source_path destination_path : Bytes) (e : Error)
      → read s source_path ≡ err e
      → copy (memory c) (memory c) now s source_path d destination_path ≡ err e
  unfolding copy
  copy_absent now s d source_path destination_path e h = ground arith

  -- A successful `Copy` between memory mediums: the source has the file, the destination path reads
  -- as its content in its mode, and every other path of the destination reads as before. Without the
  -- file `Copy` fails as `Read` does.
  pub copy_effect :
      (now : Time) (s d : MemoryMedium) (source_path destination_path q : Bytes)
      → ((d' : MemoryMedium) × (content : Bytes) × (copy
              (memory c)
              (memory c)
              now
              s
              source_path
              d
              destination_path
            ≡ ok d')
          × (read s source_path ≡ ok content)
          × (read d' q ≡ (if str_eq destination_path q then ok content else read d q))
          × (mode_for_path d' q ≡ (
              if str_eq destination_path q
              then mode_for_path s source_path
              else mode_for_path d q)))
        ⊎ ((e : Error) × (copy (memory c) (memory c) now s source_path d destination_path ≡ err e)
            × ((read s source_path ≡ err e)
                ⊎ ((content : Bytes) × (read s source_path ≡ ok content)
                    × (write_mode c now d destination_path content (mode_for_path s source_path)
                        ≡ err e))))
  copy_effect now s d source_path destination_path q = elim (Result-cases (read s source_path)) [
    | inr (e, absent) ↦
        inr (e, copy_absent now s d source_path destination_path e absent, inl absent)
    | inl (content, found) ↦
        let mode = mode_of-stat now s source_path content found in
        let written = write_mode c now d destination_path content (mode_for_path s source_path) in
        let run : copy (memory c) (memory c) now s source_path d destination_path ≡ written =
          copy_found now s d source_path destination_path content found
          ∙ ap (write_mode c now d destination_path content) mode in
        elim (Result-cases written) [
          | inr (e, refused) ↦ inr (e, run ∙ refused, inr (content, found, refused))
          | inl (d', done) ↦
              let effect =
                write_mode_effect c L now d d' destination_path content q
                  (mode_for_path s source_path) done in
              inl (d', content, run ∙ done, found, effect.0, effect.1)
        ]
  ]
