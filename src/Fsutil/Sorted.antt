-- ===== src/Fsutil/Sorted.antt =====
-- `SortDirEntriesByName` sorts: the result ascends by name and is a permutation of the entries.
use native.Mathlib.Omega.{arith}
use mathlib.Core.Path.{subst}
use mathlib.Core.List.{reverse, reverse-cons, append-nil, perm_middle, Perm}
use mathlib.Core.List.Perm
use go_io.Common.{◌≡◌, refl, sym, inl, inr, Bool-cases, true, false, List, [], ◌∷◌, ◌++◌}
use go_io.Common.Bytes.{Bytes, All}
use go_io.Medium.{DirEntry}
use go_io.Fsutil.{str_less, sink, sort_from, sort_dir_entries_by_name}

str_less-asym : (s t : Bytes) → str_less s t ≡ true → str_less t s ≡ false
unfolding str_less
str_less-asym [] [] h = refl
str_less-asym (x ∷ s) [] h = absurd (cc)
str_less-asym [] (y ∷ t) h = refl
str_less-asym (x ∷ s) (y ∷ t) h = ground (arith, str_less-asym s t)

-- At most is transitive.
at_most_trans : (s t u : Bytes) → str_less t s ≡ false → str_less u t ≡ false → str_less u s ≡ false
unfolding str_less
at_most_trans [] t [] h k = refl
at_most_trans [] t (z ∷ u) h k = refl
at_most_trans (x ∷ s) [] u h k = absurd (cc)
at_most_trans (x ∷ s) (y ∷ t) [] h k = absurd (cc)
at_most_trans (x ∷ s) (y ∷ t) (z ∷ u) h k = ground (arith, at_most_trans s t u)

abbrev pub AtMost : DirEntry → DirEntry → Type 0
AtMost a b = str_less b.name a.name ≡ false

abbrev pub IsAscending : List DirEntry → Type 0
IsAscending [] = Unit
IsAscending (x ∷ xs) = All (AtMost x) xs × IsAscending xs

abbrev IsDescending : List DirEntry → Type 0
IsDescending [] = Unit
IsDescending (x ∷ xs) = All (λ y. AtMost y x) xs × IsDescending xs

All-sink :
    (P : DirEntry → Type 0) (e : DirEntry) (l : List DirEntry) → P e → All P l → All P (sink e l)
unfolding sink
All-sink P e [] p ps = (p, tt)
All-sink P e (x ∷ l) p (q, ps) = elim (Bool-cases (str_less e.name x.name)) [
  | inl less ↦ rw (less) (q, All-sink P e l p ps)
  | inr more ↦ rw (more) (p, (q, ps))
]

All-below :
    (e x : DirEntry) (l : List DirEntry)
    → AtMost x e
    → All (λ y. AtMost y x) l
    → All (λ y. AtMost y e) l
All-below e x [] h ps = tt
All-below e x (y ∷ l) h (p, ps) = (at_most_trans y.name x.name e.name p h, All-below e x l h ps)

sink-IsDescending : (e : DirEntry) (l : List DirEntry) → IsDescending l → IsDescending (sink e l)
unfolding sink
sink-IsDescending e [] d = (tt, tt)
sink-IsDescending e (x ∷ l) (ps, d) = elim (Bool-cases (str_less e.name x.name)) [
  | inl less ↦ rw (less) (
    All-sink (λ y. AtMost y x) e l (str_less-asym e.name x.name less) ps,
    sink-IsDescending e l d,
  )
  | inr more ↦ rw (more) ((more, All-below e x l more ps), (ps, d))
]

All-append :
    (P : DirEntry → Type 0) (l : List DirEntry) (e : DirEntry)
    → All P l
    → P e
    → All P (l ++ (e ∷ []))
All-append P [] e ps p = (p, tt)
All-append P (x ∷ l) e (q, ps) p = (q, All-append P l e ps p)

All-reverse : (P : DirEntry → Type 0) (l : List DirEntry) → All P l → All P (reverse l)
All-reverse P [] ps = tt
All-reverse P (x ∷ l) (p, ps) =
    subst (All P) (sym (reverse-cons x l)) (All-append P (reverse l) x (All-reverse P l ps) p)

append-IsAscending :
    (l : List DirEntry) (e : DirEntry)
    → IsAscending l
    → All (λ y. AtMost y e) l
    → IsAscending (l ++ (e ∷ []))
append-IsAscending [] e a ps = (tt, tt)
append-IsAscending (x ∷ l) e (q, a) (p, ps) =
    (All-append (AtMost x) l e q p, append-IsAscending l e a ps)

reverse-IsAscending : (l : List DirEntry) → IsDescending l → IsAscending (reverse l)
reverse-IsAscending [] d = tt
reverse-IsAscending (x ∷ l) (ps, d) = subst IsAscending (sym (reverse-cons x l)) (
    append-IsAscending (reverse l) x (reverse-IsAscending l d) (All-reverse (λ y. AtMost y x) l ps))

sink-Perm : (e : DirEntry) (l : List DirEntry) → Perm (sink e l) (e ∷ l)
unfolding sink
sink-Perm e [] = Perm.refl (e ∷ [])
sink-Perm e (x ∷ l) = elim (Bool-cases (str_less e.name x.name)) [
  | inl less ↦ rw (less) (Perm.trans (Perm.cons x (sink-Perm e l)) (Perm.swap e x l))
  | inr more ↦ rw (more) (Perm.refl (e ∷ x ∷ l))
]

reverse-Perm : (l : List DirEntry) → Perm (reverse l) l
reverse-Perm [] = Perm.refl []
reverse-Perm (x ∷ l) =
    subst (λ t. Perm t (x ∷ l)) (sym (reverse-cons x l))
      (Perm.trans (perm_middle (reverse l) [])
        (Perm.cons x (subst (λ t. Perm t l) (sym (append-nil (reverse l))) (reverse-Perm l))))

sort_from-Perm :
    (before entries : List DirEntry) → Perm (sort_from before entries) (before ++ entries)
unfolding sort_from
sort_from-Perm before [] =
    subst (Perm (reverse before)) (sym (append-nil before)) (reverse-Perm before)
sort_from-Perm before (e ∷ entries) = Perm.trans (sort_from-Perm (sink e before) entries) (
    Perm.trans (Perm.append_right entries (sink-Perm e before))
      (Perm.symm (perm_middle before entries)))

sort_from-IsAscending :
    (before entries : List DirEntry) → IsDescending before → IsAscending (sort_from before entries)
unfolding sort_from
sort_from-IsAscending before [] d = reverse-IsAscending before d
sort_from-IsAscending before (e ∷ entries) d =
    sort_from-IsAscending (sink e before) entries (sink-IsDescending e before d)

-- `SortDirEntriesByName` leaves a permutation of the entries, in which no entry has a greater name,
-- byte by byte, than one after it.
pub sort_dir_entries_by_name-IsAscending :
    (entries : List DirEntry)
    → IsAscending (sort_dir_entries_by_name entries)
      × Perm (sort_dir_entries_by_name entries) entries
unfolding sort_dir_entries_by_name
sort_dir_entries_by_name-IsAscending entries =
    (sort_from-IsAscending [] entries tt, sort_from-Perm [] entries)
