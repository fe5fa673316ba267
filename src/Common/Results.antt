-- ===== src/Common/Results.antt =====
-- Go's `(value, error)` results. An error is known by the sentinel that `errors.Is` finds in it;
-- `failure` stands for an error that code outside the repository returns.

use Prim.Native.Nat.{ℕ}
use mathlib.Core.Path.{◌≡◌, refl}
use mathlib.Core.Logic.{◌⊎◌, inl, inr}

pub data Error : Type 0 where
  not_exist exist invalid permission : Error
  invalid_key invalid_nonce ciphertext_too_short decryption_failed no_key_configured : Error
  -- An error with no cause.
  refused : Error
  -- No error of the code: a loop ran out of fuel, which the theorems on termination exclude.
  out_of_fuel : Error
  failure : ℕ → Error

pub data Result {ℓ} (A : Type ℓ) : Type ℓ where
  ok : A → Result A
  err : Error → Result A

infixl 5 ◌>>=◌
abbrev pub ◌>>=◌ {ℓ κ} : {A : Type ℓ} {B : Type κ} → Result A → (A → Result B) → Result B
ok a >>= f = f a
err e >>= f = err e

pub Result-cases {ℓ} :
    {A : Type ℓ} (r : Result A) → ((a : A) × (r ≡ ok a)) ⊎ ((e : Error) × (r ≡ err e))
Result-cases (ok a) = inl (a, refl)
Result-cases (err e) = inr (e, refl)
