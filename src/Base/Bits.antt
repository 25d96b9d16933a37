-- ===== src/Base/Bits.antt =====
-- Binary digits of native numbers: `|` sets a digit where either operand has it.
use Prim.Native.Nat.{
  ℕ, zero, suc, ◌+◌, ◌*◌, ◌/◌, ◌%◌, ◌^◌, ◌≤◌, ◌<◌, max, digits, bit_or, bit_or-bitwise,
}
use native.Mathlib.Omega.{arith}
use mathlib.Core.Path.{◌≡◌, refl, ◌∙◌, ap}
use mathlib.Core.Bool.{Bool, false, ◌||◌}
use r4os_driver_nvidia.Base.Tests.{◌==◌}

-- (m >> i) & 1
abbrev pub has_bit : ℕ → ℕ → Bool
has_bit zero m = m % 2 == 1
has_bit (suc i) m = has_bit i (m / 2)

module _ (f : ℕ → ℕ → ℕ) where
  more_fuel : (n m a b : ℕ) → a ≤ n → a ≤ m → digits (λ y. y) f n a b ≡ digits (λ y. y) f m a b
  more_fuel zero zero a b p q = refl
  more_fuel zero (suc m) zero b p q = refl
  more_fuel zero (suc m) (suc a) b p q = absurd (omega arith)
  more_fuel (suc n) zero zero b p q = refl
  more_fuel (suc n) zero (suc a) b p q = absurd (omega arith)
  more_fuel (suc n) (suc m) zero b p q = refl
  more_fuel (suc n) (suc m) (suc a) b p q =
      rw (more_fuel n m (suc a / 2) (b / 2) (omega arith) (omega arith))

bit_or_digit : (a b : ℕ) → bit_or a b ≡ bit_or (a / 2) (b / 2) * 2 + max (a % 2) (b % 2)
bit_or_digit zero b = simp bit_or-bitwise (omega arith)
bit_or_digit (suc a) b =
    simp bit_or-bitwise
      (omega (arith, more_fuel max a (suc a / 2) (suc a / 2) (b / 2) (omega arith) (omega arith)))

pub bit_or_half : (a b : ℕ) → bit_or a b / 2 ≡ bit_or (a / 2) (b / 2)
bit_or_half a b = omega (arith, bit_or_digit a b)

low_digit : (x y : ℕ) → x < 2 → y < 2 → (max x y == 1) ≡ ((x == 1) || (y == 1))
low_digit zero zero p q = refl
low_digit zero (suc zero) p q = refl
low_digit (suc zero) zero p q = refl
low_digit (suc zero) (suc zero) p q = refl
low_digit zero (suc (suc y)) p q = absurd (omega arith)
low_digit (suc zero) (suc (suc y)) p q = absurd (omega arith)
low_digit (suc (suc x)) y p q = absurd (omega arith)

pub has_bit-bit_or : (i a b : ℕ) → has_bit i (bit_or a b) ≡ (has_bit i a || has_bit i b)
has_bit-bit_or zero a b =
    ap (λ d. d == 1) {x = bit_or a b % 2} {y = max (a % 2) (b % 2)}
      (omega (arith, bit_or_digit a b))
    ∙ low_digit (a % 2) (b % 2) (omega arith) (omega arith)
has_bit-bit_or (suc i) a b = ap (has_bit i) (bit_or_half a b) ∙ has_bit-bit_or i (a / 2) (b / 2)

pub has_bit-zero : (i : ℕ) → has_bit i 0 ≡ false
has_bit-zero zero = refl
has_bit-zero (suc i) = ap (has_bit i) {x = 0 / 2} {y = 0} (omega arith) ∙ has_bit-zero i

zero_suc : (j : ℕ) → false ≡ (0 == suc j)
zero_suc j = ground arith

suc_zero : (i : ℕ) → false ≡ (suc i == 0)
suc_zero i = ground arith

numeral_next : (i j : ℕ) → (i == j) ≡ (suc i == suc j)
numeral_next i j = ground arith

pub has_bit-power : (i j : ℕ) → has_bit i (2 ^ j) ≡ (i == j)
has_bit-power zero zero = refl
has_bit-power zero (suc j) = ap (λ d. d == 1) {x = 2 ^ suc j % 2} {y = 0} (omega arith) ∙ zero_suc j
has_bit-power (suc i) zero =
    ap (has_bit i) {x = 1 / 2} {y = 0} (omega arith) ∙ has_bit-zero i ∙ suc_zero i
has_bit-power (suc i) (suc j) =
    ap (has_bit i) {x = 2 ^ suc j / 2} {y = 2 ^ j} (omega arith)
    ∙ has_bit-power i j
    ∙ numeral_next i j

-- Numbers below 2 ^ k stay there.
pub bit_or_bound : (k a b : ℕ) → a < 2 ^ k → b < 2 ^ k → bit_or a b < 2 ^ k
bit_or_bound zero zero zero p q = omega (arith, bit_or_digit 0 0)
bit_or_bound zero (suc a) b p q = absurd (omega arith)
bit_or_bound zero zero (suc b) p q = absurd (omega arith)
bit_or_bound (suc k) a b p q =
    omega (arith, bit_or_half a b, bit_or_bound k (a / 2) (b / 2) (omega arith) (omega arith))

pub bit_or-zero_left : (b : ℕ) → bit_or 0 b ≡ b
bit_or-zero_left b = simp bit_or-bitwise refl

zero_bounded : (k a : ℕ) → a ≤ k → bit_or a 0 ≡ a
zero_bounded k zero h = bit_or-zero_left 0
zero_bounded zero (suc a) h = absurd (omega arith)
zero_bounded (suc k) (suc a) h =
    omega (arith, bit_or_digit (suc a) 0, zero_bounded k (suc a / 2) (omega arith))

pub bit_or-zero : (a : ℕ) → bit_or a 0 ≡ a
bit_or-zero a = zero_bounded a a (omega arith)

bit_or_digits : (x y : ℕ) → x < 2 → y < 2 → max x y ≡ bit_or x y
bit_or_digits x y h k =
    omega (arith, bit_or_digit x y, ap2_zero (x / 2) (y / 2) (omega arith) (omega arith))
  where
    ap2_zero : (p q : ℕ) → p ≡ 0 → q ≡ 0 → bit_or p q ≡ 0
    ap2_zero p q e f = rw (e, f) (bit_or-zero 0)

pub bit_or_low : (a b : ℕ) → bit_or a b % 2 ≡ bit_or (a % 2) (b % 2)
bit_or_low a b =
    omega (arith, bit_or_digit a b, bit_or_digits (a % 2) (b % 2) (omega arith) (omega arith))
