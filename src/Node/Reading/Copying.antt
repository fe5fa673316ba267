-- ===== src/Node/Reading/Copying.antt =====
-- `CopyTo` of a directory.
use native.Mathlib.Omega.{arith}
use mathlib.Core.List.{append-nil}
use go_io.Common.{
  ◌≡◌, refl, sym, ap, ◌∙◌, inl, inr, Bool-cases, true, false, not, ◌&&◌, ◌||◌, Option, none, some,
  [], ◌∷◌, ◌++◌, if◌then◌else◌,
}
use go_io.Common.Bytes.{Bytes, str_eq, str_eq_iff, str_eq-append}
use go_io.Common.Results.{Result-cases, Error, ok, err}
use go_io.Common.GoMap.{GoMap, lookup, has_key}
use go_io.CoreText
use go_io.CoreText.{CoreText, slash}
use go_io.CoreText.Prefixes.{has_prefix-append, append-trim_prefix}
use go_io.Medium.{Time, Medium}
use go_io.Node.{Node, DataFile, stored, resolved, is_dir}
use go_io.Node.Archive.Restored.{IsPortable}
use go_io.Node.Reading.{copy_files, copy_to}

-- What `Write` of a target leaves, if it succeeds.
pub record IsWritable (target : Medium) : Type 0 where
  pub read-write :
      (now : Time) (t t' : target.State) (path content q : Bytes)
      → target.write now t path content ≡ ok t'
      → target.read t' q ≡ (if str_eq path q then ok content else target.read t q)

abbrev content_or {ℓ} : {A : Type ℓ} → Option DataFile → (Bytes → A) → A → A
content_or none f d = d
content_or (some file) f d = f file.content

module _ (c : CoreText) (L : CoreText.IsLawful c) (target : Medium) (W : IsWritable target)
    (now : Time) (prefix source_path destination_path : Bytes) where
  joined :
      (t : Bytes) → c.concat (destination_path ∷ slash ∷ t ∷ []) ≡ destination_path ++ (slash ++ t)
  joined t =
      L.concat-cons destination_path (slash ∷ t ∷ [])
      ∙ ap (λ s. destination_path ++ s)
          (L.concat-cons slash (t ∷ [])
            ∙ ap (λ s. slash ++ s)
                (L.concat-cons t [] ∙ ap (λ s. t ++ s) L.concat-nil ∙ append-nil t))

  -- Where a file goes, by what its path is behind the prefix.
  abbrev target_path : Bytes → Bytes
  target_path rest =
      if str_eq rest [] then destination_path else c.concat (destination_path ∷ slash ∷ rest ∷ [])

  str_eq-longer : (p : Bytes) (b : _) (r : Bytes) → str_eq p (p ++ (b ∷ r)) ≡ false
  unfolding str_eq
  str_eq-longer [] b r = refl
  str_eq-longer (x ∷ p) b r = ground (arith, str_eq-longer p b r)

  str_eq-target_path :
      (t r : Bytes)
      → str_eq r [] ≡ false
      → str_eq (target_path t) (destination_path ++ (slash ++ r)) ≡ str_eq t r
  str_eq-target_path t r named = elim (Bool-cases (str_eq t [])) [
    | inl empty ↦
        let apart : str_eq t r ≡ false = ground (
          arith,
          str_eq_iff t r,
          str_eq_iff t [],
          str_eq_iff r [],
          λ (e : t ≡ r). ap (λ s. str_eq s []) e,
        ) in
        rw (empty) (str_eq-longer destination_path b'/' r ∙ sym apart)
    | inr some_text ↦ rw (some_text) (
        ap (λ s. str_eq s (destination_path ++ (slash ++ r))) (joined t)
        ∙ str_eq-append destination_path (slash ++ t) (slash ++ r)
        ∙ str_eq-append slash t r)
  ]

  step_end :
      (t : target.State)
      → copy_files c target now prefix source_path destination_path [] t ≡ (t, none)
  unfolding copy_files
  step_end t = refl

  -- One round that goes on: nothing is written, or the file is.
  step_other :
      (path : Bytes) (file : DataFile) (files : GoMap DataFile) (t : target.State)
      → (c.has_prefix path prefix || str_eq path source_path) ≡ false
      → copy_files c target now prefix source_path destination_path ((path, file) ∷ files) t
        ≡ copy_files c target now prefix source_path destination_path files t
  unfolding copy_files
  step_other path file files t h = ground arith

  step_written :
      (path : Bytes) (file : DataFile) (files : GoMap DataFile) (t written : target.State)
      → (c.has_prefix path prefix || str_eq path source_path) ≡ true
      → target.write now t (target_path (c.trim_prefix path prefix)) file.content ≡ ok written
      → copy_files c target now prefix source_path destination_path ((path, file) ∷ files) t
        ≡ copy_files c target now prefix source_path destination_path files written
  unfolding copy_files
  step_written path file files t written h e = ground arith

  step_failed :
      (path : Bytes) (file : DataFile) (files : GoMap DataFile) (t : target.State) (e : Error)
      → (c.has_prefix path prefix || str_eq path source_path) ≡ true
      → target.write now t (target_path (c.trim_prefix path prefix)) file.content ≡ err e
      → copy_files c target now prefix source_path destination_path ((path, file) ∷ files) t
        ≡ (t, some e)
  unfolding copy_files
  step_failed path file files t e h f = ground arith

  copied :
      (files : GoMap DataFile) (t t' : target.State) (r : Bytes)
      → IsPortable c files
      → has_key source_path files ≡ false
      → str_eq r [] ≡ false
      → copy_files c target now prefix source_path destination_path files t ≡ (t', none)
      → target.read t' (destination_path ++ (slash ++ r))
        ≡ content_or
            (lookup (prefix ++ r) files)
            ok
            (target.read t (destination_path ++ (slash ++ r)))
  unfolding lookup
  copied [] t t' r ps absent named e =
      ap (λ o. target.read o.0 (destination_path ++ (slash ++ r))) (sym e ∙ step_end t)
  copied ((path, file) ∷ files) t t' r (p, fresh, ps) absent named e =
      elim (Bool-cases (c.has_prefix path prefix)) [
        | inr outside ↦
            let differs : str_eq path (prefix ++ r) ≡ false = ground (
              arith,
              str_eq_iff path (prefix ++ r),
              has_prefix-append c L prefix r,
              λ (q : path ≡ prefix ++ r). ap (λ s. c.has_prefix s prefix) q,
            ) in
            let skip = step_other path file files t (ground arith) in
            let ih = copied files t t' r ps (ground arith) named (sym skip ∙ e) in
            ground (arith, ih, differs)
        | inl below ↦
            elim (Result-cases
              (target.write now t (target_path (c.trim_prefix path prefix)) file.content)) [
                | inr (f, failed) ↦ absurd (
                    ground (
                      arith,
                      ap (λ o. o.1)
                          (sym (step_failed path file files t f (ground arith) failed) ∙ e),
                    ))
                | inl (written, done) ↦
                    let rest = c.trim_prefix path prefix in
                    let q = destination_path ++ (slash ++ r) in
                    let go = step_written path file files t written (ground arith) done in
                    let ih = copied files written t' r ps (ground arith) named (sym go ∙ e) in
                    let same : str_eq path (prefix ++ r) ≡ str_eq rest r =
                      ap (λ s. str_eq s (prefix ++ r)) (append-trim_prefix c L path prefix below)
                      ∙ str_eq-append prefix rest r in
                    ground (
                      arith,
                      ih,
                      same,
                      fresh,
                      str_eq_iff path (prefix ++ r),
                      W.read-write now t written (target_path rest) file.content q done,
                      str_eq-target_path rest r named,
                      λ (d : path ≡ prefix ++ r). ap (λ k. has_key k files) d,
                    )
              ]
      ]

module _ (c : CoreText) (L : CoreText.IsLawful c) (target : Medium) (W : IsWritable target)
    (now : Time) (node : Node) (path destination_path : Bytes) where
  -- The prefix of the paths that are copied.
  abbrev pub source_prefix : Bytes
  source_prefix =
      if not (str_eq (resolved c path) []) && not (c.has_suffix (resolved c path) slash)
      then resolved c path ++ slash
      else resolved c path

  copy_to_directory :
      (t : target.State)
      → is_dir c now node (resolved c path) ≡ true
      → copy_to c target now node t path destination_path
        ≡ copy_files c target now source_prefix (resolved c path) destination_path node.files t
  unfolding copy_to is_dir
  copy_to_directory t h = ground arith

  -- A `CopyTo` of a directory that ends with no error, from a node whose files stand under their own
  -- names, not empty and with no slash at an end, to a medium whose `Write` stores: the target has
  -- each file of the directory below the destination, under its name relative to the directory, and
  -- any other path below the destination reads as before.
  pub copy_to_effect :
      (t t' : target.State) (r : Bytes)
      → IsPortable c node.files
      → has_key (resolved c path) node.files ≡ false
      → is_dir c now node (resolved c path) ≡ true
      → str_eq r [] ≡ false
      → copy_to c target now node t path destination_path ≡ (t', none)
      → target.read t' (destination_path ++ (slash ++ r)) ≡ (
          if has_key (source_prefix ++ r) node.files
          then stored node (source_prefix ++ r)
          else target.read t (destination_path ++ (slash ++ r)))
  unfolding stored
  copy_to_effect t t' r p absent directory named e =
      let run = sym (copy_to_directory t directory) ∙ e in
      ground (
        arith,
        copied c L target W now source_prefix (resolved c path) destination_path node.files t t' r p
            absent named run,
      )
