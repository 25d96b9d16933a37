-- ===== src/Format/Outcome.antt =====
-- How a step of r4nv_vformat ends. `undefined` is undefined behaviour of C: an argument that was not passed,
-- or a digit past the end of the `digits` array. `rejected` is `out.failed = 1; break`.
use r4os_driver_nvidia.Base.{List, [], ◌∷◌, ℕ}

pub data Outcome {ℓ} (A : Type ℓ) : Type ℓ where
  undefined : Outcome A
  rejected : Outcome A
  ok : A → Outcome A

infixl 5 ◌>>=◌
abbrev pub ◌>>=◌ {ℓ κ} : {A : Type ℓ} {B : Type κ} → Outcome A → (A → Outcome B) → Outcome B
undefined >>= f = undefined
rejected >>= f = rejected
ok a >>= f = f a

-- The arguments behind a va_list: the 8-byte slots in which x86_64 passes integers and pointers.
abbrev pub VaList : Type 0
VaList = List ℕ

pub record Popped : Type 0 where
  pub slot : ℕ
  pub args : VaList

-- va_arg(args, T), before the slot is cut to the width of T.
abbrev pub va_arg : VaList → Outcome Popped
va_arg [] = undefined
va_arg (slot ∷ args) = ok (record { slot = slot; args = args })
