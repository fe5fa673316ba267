-- ===== src/Entries/Distinct.antt =====
-- Entries that are added with the map `seen` have distinct names, and sorted they keep them.
use mathlib.Core.Path.{subst}
use mathlib.Core.List.{Mem, Nodup, Perm, mem-cons, not-mem-nil, mem-cons_self, mem-cons_of_mem}
use mathlib.Core.Logic.Or
use mathlib.Core.Bool.{Bool-set}
use mathlib.Core.List.Perm
use mathlib.Core.List.Pairwise
use native.Mathlib.Omega.{arith}
use go_io.Common.{◌≡◌, ◌↔◌, sym, ap, inl, inr, Bool-cases, true, false, ◌||◌, List, [], ◌∷◌, ◌++◌}
use go_io.Common.Bytes.{Bytes, str_eq, str_eq_iff}
use go_io.Common.GoMap.{lookup, insert, has_key, lookup-insert}
use go_io.Medium.{DirEntry}
use go_io.Fsutil.{sort_dir_entries_by_name}
use go_io.Fsutil.Sorted.{IsAscending, sort_dir_entries_by_name-IsAscending}
use go_io.Entries.{Listed, nothing_listed, add_entry, add_unseen, names}

pub record IsListed (s : Listed) : Type 0 where
  pub nodup : Nodup (names s.entries)
  pub same : (x : Bytes) → Mem x (names s.entries) ↔ (has_key x s.seen ≡ true)

names-append :
    (es : List DirEntry) (e : DirEntry) → Perm (names (es ++ (e ∷ []))) (e.name ∷ names es)
names-append [] e = Perm.refl (e.name ∷ [])
names-append (f ∷ es) e =
    Perm.trans (Perm.cons f.name (names-append es e)) (Perm.swap e.name f.name (names es))

pub add_entry-IsListed :
    (s : Listed) (e : DirEntry)
    → has_key e.name s.seen ≡ false
    → IsListed s
    → IsListed (add_entry s e)
add_entry-IsListed s e fresh v = record {
  nodup = Perm.nodup (Perm.symm (names-append s.entries e)) (
      Pairwise.cons
        (λ x m eq. absurd (ground (arith, (v.same x).0 m, ap (λ k. has_key k s.seen) eq))) v.nodup);
  same = λ x.
      let moved = Perm.mem_iff {a = x} (names-append s.entries e) in
      let seen = lookup-insert e.name x true s.seen in
      (
        λ m.
            Or.elim (Bool-set (has_key x (insert e.name true s.seen)) true) (mem-cons.0 (moved.0 m))
              (λ eq. ground (arith, seen, str_eq_iff e.name x, sym eq))
              (λ old. ground (arith, seen, (v.same x).0 old)),
        λ h. elim (Bool-cases (str_eq e.name x)) [
          | inl eq ↦ moved.1 (
              subst (λ k. Mem k (e.name ∷ names s.entries)) ((str_eq_iff e.name x).0 eq)
                mem-cons_self)
          | inr other ↦
              moved.1 (mem-cons_of_mem e.name ((v.same x).1 (ground (arith, seen, other))))
        ],
      );
}

pub nothing_listed-IsListed : IsListed nothing_listed
unfolding lookup
nothing_listed-IsListed = record {
  nodup = Pairwise.nil;
  same = λ x. (λ h. absurd (not-mem-nil h), λ h. absurd (cc));
}

pub add_unseen-IsListed : (s : Listed) (e : DirEntry) → IsListed s → IsListed (add_unseen s e)
unfolding add_unseen
add_unseen-IsListed s e v = elim (Bool-cases (has_key e.name s.seen)) [
  | inl known ↦ rw (known) v
  | inr fresh ↦ rw (fresh) (add_entry-IsListed s e fresh v)
]

pub seen-add_unseen :
    (s : Listed) (e : DirEntry) (x : Bytes)
    → has_key x (add_unseen s e).seen ≡ (has_key x s.seen || str_eq e.name x)
unfolding add_unseen
seen-add_unseen s e x =
    let same : str_eq e.name x ≡ true → has_key e.name s.seen ≡ has_key x s.seen =
      λ h. ap (λ k. has_key k s.seen) ((str_eq_iff e.name x).0 h) in
    ground (arith, lookup-insert e.name x true s.seen, same)

-- The entries in order: ascending, with distinct names, and named as what was seen.
pub sorted_names :
    (s : Listed) (x : Bytes)
    → IsListed s
    → IsAscending (sort_dir_entries_by_name s.entries)
      × Nodup (names (sort_dir_entries_by_name s.entries))
      × (Mem x (names (sort_dir_entries_by_name s.entries)) ↔ (has_key x s.seen ≡ true))
sorted_names s x v =
    let (ascends, perm) = sort_dir_entries_by_name-IsAscending s.entries in
    let named = Perm.map (λ e. e.name) perm in
    let moved = Perm.mem_iff {a = x} named in
    (
      ascends,
      Perm.nodup (Perm.symm named) v.nodup,
      (λ h. (v.same x).0 (moved.0 h), λ h. moved.1 ((v.same x).1 h)),
    )
