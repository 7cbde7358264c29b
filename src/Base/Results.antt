-- ===== src/Base/Results.antt =====
-- The result of C++ code that can stop the process or leave defined behaviour.
use mathlib.Core.Bool.{Bool, true, false}

-- `aborted` is a failed `assert` or an `exit(1)`; `fault` is undefined behaviour: an access outside
-- a buffer, a dangling or null pointer, a signed overflow.
pub data Outcome {ℓ} (A : Type ℓ) : Type ℓ where
  ok : A → Outcome A
  aborted : Outcome A
  fault : Outcome A

infixl 5 ◌>>=◌ ◌>>◌
abbrev pub ◌>>=◌ {ℓ κ} : {A : Type ℓ} {B : Type κ} → Outcome A → (A → Outcome B) → Outcome B
ok a >>= f = f a
aborted >>= f = aborted
fault >>= f = fault

abbrev pub ◌>>◌ {ℓ} : {B : Type ℓ} → Outcome (Unit {0}) → Outcome B → Outcome B
m >> k = m >>= λ _. k

-- `assert(b)`, and `if (!b) exit(1)`.
abbrev pub check : Bool → Outcome (Unit {0})
check true = ok tt
check false = aborted

-- What the language requires and nothing tests: that an access is in range, that an `int` sum fits.
abbrev pub require : Bool → Outcome (Unit {0})
require true = ok tt
require false = fault
