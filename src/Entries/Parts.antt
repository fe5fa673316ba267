-- ===== src/Entries/Parts.antt =====
-- The first part of a path below a directory, without the code's own functions.
use go_io.Common.{ℕ, ◌≡◌, ◌≢◌, ◌⊎◌, refl, ap, [], ◌∷◌, ◌++◌}
use go_io.Common.Bytes.{Bytes}
use go_io.CoreText.{slash}

abbrev pub IsSlashFree : Bytes → Type 0
IsSlashFree name = ¬ ((a : Bytes) × (b : Bytes) × (name ≡ a ++ (slash ++ b)))

-- What follows `start` in the path is the name, which is not empty, or the name, a slash and more.
abbrev pub IsPart : Bytes → Bytes → Bytes → Type 0
IsPart start name path =
    IsSlashFree name
    × (((name ≢ []) × (path ≡ start ++ name))
        ⊎ ((more : Bytes) × (path ≡ start ++ (name ++ (slash ++ more)))))

-- The text before the first slash is the only one with no slash.
pub first_slash :
    (a b x y : Bytes)
    → IsSlashFree a
    → IsSlashFree x
    → a ++ (slash ++ b) ≡ x ++ (slash ++ y)
    → a ≡ x
first_slash [] b [] y fa fx e = refl
first_slash [] b (v ∷ x) y fa fx e =
    let head : b'/' ≡ v = cc in absurd (fx ([], x, ap (λ w. w ∷ x) (cc)))
first_slash (u ∷ a) b [] y fa fx e =
    let head : u ≡ b'/' = cc in absurd (fa ([], a, ap (λ w. w ∷ a) head))
first_slash (u ∷ a) b (v ∷ x) y fa fx e =
    let heads : u ≡ v = cc in
    let tails : a ++ (slash ++ b) ≡ x ++ (slash ++ y) = cc in
    let same =
      first_slash a b x y (λ (p, q, h). fa (u ∷ p, q, ap (λ t. u ∷ t) h))
        (λ (p, q, h). fx (v ∷ p, q, ap (λ t. v ∷ t) h)) tails in
    cc

-- A text behind a byte that is no slash.
pub cons-IsSlashFree : (x : ℕ) (s : Bytes) → x ≢ b'/' → IsSlashFree s → IsSlashFree (x ∷ s)
cons-IsSlashFree x s other free ([], b, e) = other (cc)
cons-IsSlashFree x s other free (y ∷ a, b, e) = free (a, b, cc)

pub nil-IsSlashFree : IsSlashFree []
nil-IsSlashFree ([], b, e) = absurd (cc)
nil-IsSlashFree (y ∷ a, b, e) = absurd (cc)
