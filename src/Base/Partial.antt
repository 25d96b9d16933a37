-- ===== src/Base/Partial.antt =====
-- `Option` as the result of code that may be undefined: `none` is undefined behaviour of C, and a
-- `do` block stops there.
use mathlib.Core.Option.{Option, none, some}

infixl 5 ◌>>=◌
abbrev pub ◌>>=◌ {ℓ κ} : {A : Type ℓ} {B : Type κ} → Option A → (A → Option B) → Option B
none >>= f = none
some a >>= f = f a
