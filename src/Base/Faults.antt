-- ===== src/Base/Faults.antt =====
-- What a routine of the driver comes to: a value, or one of the faults that the code does not check
-- for. `bugcheck` is a division by zero, or memory that is freed twice. `out_of_fuel` is a loop that has not ended within the rounds given to it.
pub data Outcome {ℓ} (A : Type ℓ) : Type ℓ where
  done : A → Outcome A
  null_pointer : Outcome A
  overrun : Outcome A
  out_of_fuel : Outcome A
  bugcheck : Outcome A

infixl 5 ◌>>=◌
abbrev pub ◌>>=◌ {ℓ κ} : {A : Type ℓ} {B : Type κ} → Outcome A → (A → Outcome B) → Outcome B
done a >>= f = f a
null_pointer >>= f = null_pointer
overrun >>= f = overrun
out_of_fuel >>= f = out_of_fuel
bugcheck >>= f = bugcheck
