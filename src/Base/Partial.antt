-- ===== src/Base/Partial.antt =====
-- The outcome of code that may read out of range or loop for ever.
use mathlib.Core.Option.{Option, none, some}

-- `fault` is undefined behaviour in C, such as a read out of range; `out_of_fuel` is a loop
-- that has not ended in the rounds given.
pub data Outcome {ℓ} (A : Type ℓ) : Type ℓ where
  done : A → Outcome A
  fault : Outcome A
  out_of_fuel : Outcome A

infixl 5 ◌>>=◌
abbrev pub ◌>>=◌ {ℓ κ} : {A : Type ℓ} {B : Type κ} → Outcome A → (A → Outcome B) → Outcome B
done a >>= f = f a
fault >>= f = fault
out_of_fuel >>= f = out_of_fuel

-- A value that is there, or undefined behaviour.
abbrev pub need {ℓ} : {A : Type ℓ} → Option A → Outcome A
need none = fault
need (some a) = done a
