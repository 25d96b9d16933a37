-- ===== src/Base/Word.antt =====
-- Words of the machine (x86_64): a value is a native number below the word's modulus, and the
-- wrap-around of each operation is written out.
use Prim.Native.Nat.{ℕ, ◌+◌, ◌-◌, ◌%◌, ◌^◌}
use mathlib.Core.Bool.{Bool}
use r4os_driver_nvidia.Base.Tests.{leb}

abbrev pub u8 : ℕ → ℕ
u8 n = n % 2 ^ 8

abbrev pub u16 : ℕ → ℕ
u16 n = n % 2 ^ 16

abbrev pub u32 : ℕ → ℕ
u32 n = n % 2 ^ 32

abbrev pub u64 : ℕ → ℕ
u64 n = n % 2 ^ 64

-- NV_U64_MAX, UINT64_MAX.
abbrev pub u64_max : ℕ
u64_max = 2 ^ 64 - 1

-- (unsigned)INT_MAX, also the largest value of an int.
abbrev pub int_max : ℕ
int_max = 2 ^ 31 - 1

-- a - b in 64 bits, for a and b below 2 ^ 64.
abbrev pub sub64 : ℕ → ℕ → ℕ
sub64 a b = (a + 2 ^ 64 - b) % 2 ^ 64

-- `x < 0` for an int and an int64_t given by its bit pattern.
abbrev pub is_negative32 : ℕ → Bool
is_negative32 x = leb (2 ^ 31) x

abbrev pub is_negative64 : ℕ → Bool
is_negative64 x = leb (2 ^ 63) x
