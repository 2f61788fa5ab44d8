-- ===== src/Prelude/Throws.antt =====
-- The outcome of code that may throw: a value, or the error that was thrown.
use mathlib.Core.Bool.{Bool, true, false}
use mathlib.Core.Path.{◌≡◌, refl}
use native.Mathlib.Omega.{arith}

-- The classes of error that the code throws; `lifecycle_abort` is the reason of the worker's aborted
-- signal. `unfinished` is none of them: it ends a loop of the model whose fuel has run out.
pub data Thrown : Type 0 where
  type_error range_error plain_error conflict_error aggregate_error lifecycle_abort unfinished :
      Thrown

pub data Outcome {ℓ} (A : Type ℓ) : Type ℓ where
  ok : A → Outcome A
  throw : Thrown → Outcome A

infixl 5 ◌>>=◌ ◌>>◌
abbrev pub ◌>>=◌ {ℓ κ} : {A : Type ℓ} {B : Type κ} → Outcome A → (A → Outcome B) → Outcome B
ok a >>= f = f a
throw e >>= f = throw e

abbrev pub ◌>>◌ {ℓ} : {B : Type ℓ} → Outcome (Unit {0}) → Outcome B → Outcome B
m >> k = m >>= λ _. k

-- `if (!b) throw e`
abbrev pub guard : Bool → Thrown → Outcome (Unit {0})
guard true e = ok tt
guard false e = throw e

-- To prove something of a chain that ends well, take its first part and the rest.
pub bind_ok :
    {A B P : Type 0} {m : Outcome A} {f : A → Outcome B} {b : B}
    → (m >>= f) ≡ ok b
    → ((a : A) → m ≡ ok a → f a ≡ ok b → P)
    → P
bind_ok {m = ok a} h goal = goal a refl h
bind_ok {m = throw e} h goal = ground arith
