-- ===== src/Common/Outcome.antt =====
-- What a call of a C function comes to, for the parts of src/ that can fail or go wrong.
use mathlib.Core.Bool.{Bool, true, false}

-- `err` is the failure that the function reports (NULL, or a length of -1). `fault` is undefined
-- behaviour: an access out of bounds or through NULL, or an overflow of a signed number. `stuck` is
-- no behaviour of the code: a loop of the model ran out of fuel.
pub data Outcome {ℓ} (A : Type ℓ) : Type ℓ where
  ok : A → Outcome A
  err fault stuck : Outcome A

infixl 5 ◌>>=◌
abbrev pub ◌>>=◌ {ℓ κ} : {A : Type ℓ} {B : Type κ} → Outcome A → (A → Outcome B) → Outcome B
ok a >>= f = f a
err >>= f = err
fault >>= f = fault
stuck >>= f = stuck

-- `if(!ok) goto error;` before the rest.
abbrev pub checked {ℓ} : {A : Type ℓ} → Bool → Outcome A → Outcome A
checked true m = m
checked false m = err

-- What must hold for the rest to be defined.
abbrev pub defined {ℓ} : {A : Type ℓ} → Bool → Outcome A → Outcome A
defined true m = m
defined false m = fault
