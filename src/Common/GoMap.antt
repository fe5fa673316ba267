-- ===== src/Common/GoMap.antt =====
-- Go's `map[string]V` as an association list. The order of the entries stands for the order in
-- which one `range` visits the keys; `delete` in a `range` over the map itself is a filter.
use mathlib.Core.Path.{◌≡◌, refl}
use mathlib.Core.Logic.{◌↔◌, inl, inr}
use mathlib.Core.Bool.{Bool, true, false, ◌||◌}
use mathlib.Core.Option.{Option, none, some}
use mathlib.Core.List.{List, [], ◌∷◌}
use native.Mathlib.Omega.{arith}
use go_io.Common.Tests.{if◌then◌else◌, Bool-cases, Option-cases}
use go_io.Common.Bytes.{Bytes, str_eq, str_eq_iff}

abbrev pub GoMap {ℓ} : Type ℓ → Type ℓ
GoMap V = List (Bytes × V)

module _ {ℓ} {V : Type ℓ} where
  -- `v, ok := m[k]`
  unfoldable pub lookup : Bytes → GoMap V → Option V
  lookup k [] = none
  lookup k ((j, v) ∷ m) = if str_eq j k then some v else lookup k m

  -- `m[k] = v`
  unfoldable pub insert : Bytes → V → GoMap V → GoMap V
  insert k v [] = (k, v) ∷ []
  insert k v ((j, w) ∷ m) = if str_eq j k then (k, v) ∷ m else (j, w) ∷ insert k v m

  -- `for k := range m { if p(k) { delete(m, k) } }`
  unfoldable pub remove_where : (Bytes → Bool) → GoMap V → GoMap V
  remove_where p [] = []
  remove_where p ((j, v) ∷ m) = let rest = remove_where p m in if p j then rest else (j, v) ∷ rest

  -- `delete(m, k)`
  unfoldable pub remove : Bytes → GoMap V → GoMap V
  unfolding remove_where
  remove k m = remove_where (λ j. str_eq j k) m

  -- `for k := range m { if p(k) { return true } }; return false`
  unfoldable pub any_key : (Bytes → Bool) → GoMap V → Bool
  any_key p [] = false
  any_key p ((j, v) ∷ m) = p j || any_key p m

  -- `_, ok := m[k]`
  abbrev pub is_some : Option V → Bool
  is_some none = false
  is_some (some v) = true

  abbrev pub has_key : Bytes → GoMap V → Bool
  has_key k m = is_some (lookup k m)

  pub lookup-insert :
      (k j : Bytes) (v : V) (m : GoMap V)
      → lookup j (insert k v m) ≡ (if str_eq k j then some v else lookup j m)
  unfolding lookup insert
  lookup-insert k j v [] = refl
  lookup-insert k j v ((i, w) ∷ m) =
      ground (arith, str_eq_iff k j, str_eq_iff i k, str_eq_iff i j, lookup-insert k j v m)

  pub lookup-remove_where :
      (p : Bytes → Bool) (k : Bytes) (m : GoMap V)
      → lookup k (remove_where p m) ≡ (if p k then none else lookup k m)
  unfolding lookup remove_where
  lookup-remove_where p k [] = ground arith
  lookup-remove_where p k ((j, v) ∷ m) = ground (arith, str_eq_iff j k, lookup-remove_where p k m)

  pub lookup-remove :
      (j k : Bytes) (m : GoMap V)
      → lookup k (remove j m) ≡ (if str_eq j k then none else lookup k m)
  unfolding remove
  lookup-remove j k m =
      ground (arith, lookup-remove_where (λ i. str_eq i j) k m, str_eq_iff j k, str_eq_iff k j)

  pub any_key_intro :
      (p : Bytes → Bool) (k : Bytes) (v : V) (m : GoMap V)
      → lookup k m ≡ some v
      → p k ≡ true
      → any_key p m ≡ true
  unfolding lookup any_key
  any_key_intro p k v [] h q = cc
  any_key_intro p k v ((j, w) ∷ m) h q = ground (arith, str_eq_iff j k, any_key_intro p k v m)

  pub any_key_elim :
      (p : Bytes → Bool) (m : GoMap V)
      → any_key p m ≡ true
      → (k : Bytes) × (v : V) × (lookup k m ≡ some v) × (p k ≡ true)
  unfolding any_key lookup
  any_key_elim p [] h = absurd (cc)
  any_key_elim p ((j, v) ∷ m) h = elim (Bool-cases (p j)) [
    | inl here ↦ (j, v, rw ((str_eq_iff j j).1 refl), here)
    | inr there ↦
        let (k, w, found, q) = any_key_elim p m (ground arith) in
        (k, w, ground (arith, str_eq_iff j k), q)
  ]

-- A key that satisfies a test.
abbrev pub HasKey {ℓ} : {V : Type ℓ} → (Bytes → Bool) → GoMap V → Type 0
HasKey p m = (k : Bytes) × (has_key k m ≡ true) × (p k ≡ true)

pub any_key_iff {ℓ} :
    {V : Type ℓ} (p : Bytes → Bool) (m : GoMap V) → (any_key p m ≡ true) ↔ HasKey p m
any_key_iff p m = (
  λ h. let (k, v, found, q) = any_key_elim p m h in (k, ground arith, q),
  λ (k, found, q). elim (Option-cases (lookup k m)) [
    | inl absent ↦ absurd (ground arith)
    | inr (v, e) ↦ any_key_intro p k v m e q
  ],
)

pub ruleset map_laws = (lookup-insert, lookup-remove, lookup-remove_where)
