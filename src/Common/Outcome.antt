-- ===== src/Common/Outcome.antt =====
-- What a C function does: it returns a value, it returns its error code, or its behaviour is
-- undefined (a null pointer is read, an access lies outside of an array).
use mathlib.Core.Option.{Option, none, some}

pub data Outcome {ℓ} (A : Type ℓ) : Type ℓ where
  ok : A → Outcome A
  error : Outcome A
  fault : Outcome A

infixl 5 ◌>>=◌ ◌>>◌
abbrev pub ◌>>=◌ {ℓ κ} : {A : Type ℓ} {B : Type κ} → Outcome A → (A → Outcome B) → Outcome B
ok a >>= f = f a
error >>= f = error
fault >>= f = fault

abbrev pub ◌>>◌ {ℓ} : {B : Type ℓ} → Outcome (Unit {0}) → Outcome B → Outcome B
m >> k = m >>= λ _. k

-- `return -1` where a call failed.
abbrev pub or_error {ℓ} : {A : Type ℓ} → Option A → Outcome A
or_error none = error
or_error (some a) = ok a

abbrev pub or_fault {ℓ} : {A : Type ℓ} → Option A → Outcome A
or_fault none = fault
or_fault (some a) = ok a
