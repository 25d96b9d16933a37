-- ===== src/Format/Parse/Widths.antt =====
-- r4nv_fmt_decimal of src/rm/format.h: the widths and precisions of a directive.
use r4os_driver_nvidia.Base.{
  ℕ, ◌+◌, ◌-◌, ◌*◌, ◌/◌, ◌≤◌, ◌<◌, ◌≡◌, ◌⊎◌, inl, inr, refl, arith, Bool, true, false, ◌&&◌, List,
  [], ◌∷◌, ◌++◌, ltb, int_max, Bool-cases, ltb→lt, ltb→le,
}
use r4os_driver_nvidia.Format.Parse.{Decimal, fmt_decimal, is_digit}
use r4os_driver_nvidia.Format.Number.Digits.{digit_value, numeral_value}

abbrev pub are_digits : List ℕ → Bool
are_digits [] = true
are_digits (c ∷ digits) = is_digit c && are_digits digits

abbrev pub starts_with_digit : List ℕ → Bool
starts_with_digit [] = false
starts_with_digit (c ∷ format) = is_digit c

-- What is read of a numeral of the value `v` with `rest` behind it: the value, or an error if no int
-- holds it.
abbrev pub IsRead : ℕ → List ℕ → Decimal → Type 0
IsRead v rest d =
    ((v ≤ int_max) × (d ≡ record { value = v; rest = rest; failed = false }))
    ⊎ ((int_max < v) × (d.failed ≡ true) × (d.value ≡ 0))

numeral_value-ge : (n : ℕ) (digits : List ℕ) → n ≤ numeral_value 10 n digits
numeral_value-ge n [] = omega arith
numeral_value-ge n (c ∷ digits) =
    let more = numeral_value-ge (n * 10 + digit_value c) digits in omega (arith, more)

digit_value_is : (c : ℕ) → is_digit c ≡ true → digit_value c ≡ c - b'0'
digit_value_is c h = ground arith

first_digit : (a b : Bool) → (a && b) ≡ true → a ≡ true
first_digit true b h = refl
first_digit false b h = h

next_digits : (a b : Bool) → (a && b) ≡ true → b ≡ true
next_digits true b h = h
next_digits false b h = ground arith

fmt_decimal_from :
    (digits rest : List ℕ) (n : ℕ)
    → are_digits digits ≡ true
    → starts_with_digit rest ≡ false
    → n ≤ int_max
    → IsRead (numeral_value 10 n digits) rest (fmt_decimal (digits ++ rest) n)
unfolding fmt_decimal
fmt_decimal_from [] [] n all end h = inl (h, refl)
fmt_decimal_from [] (c ∷ rest) n all end h = rw end (inl (h, refl))
fmt_decimal_from (c ∷ digits) rest n all end h =
    let digit = first_digit (is_digit c) (are_digits digits) all in
    let value = digit_value_is c digit in
    let more = numeral_value-ge (n * 10 + (c - b'0')) digits in
    elim (Bool-cases (ltb ((int_max - (c - b'0')) / 10) n)) [
      | inl over ↦ rw (digit, over, value) (inr (too_large c n (ltb→lt _ _ over) more, refl, refl))
      | inr fits ↦
          rw (digit, fits, value)
            (fmt_decimal_from digits rest (n * 10 + (c - b'0'))
              (next_digits (is_digit c) (are_digits digits) all) end
              (small c n digit (ltb→le _ _ fits)))
    ]
  where
    too_large :
        (c n : ℕ) {v : ℕ} → (int_max - (c - b'0')) / 10 < n → n * 10 + (c - b'0') ≤ v → int_max < v
    too_large c n over more = omega arith

    small :
        (c n : ℕ)
        → is_digit c ≡ true
        → n ≤ (int_max - (c - b'0')) / 10
        → n * 10 + (c - b'0') ≤ int_max
    small c n digit fits = ground arith

-- Before a numeral with no digit behind it, r4nv_fmt_decimal gives the numeral's value and leaves
-- the format behind it where an int holds the value, and else reports an error and gives 0.
pub fmt_decimal_lem :
    (digits rest : List ℕ)
    → are_digits digits ≡ true
    → starts_with_digit rest ≡ false
    → IsRead (numeral_value 10 0 digits) rest (fmt_decimal (digits ++ rest) 0)
fmt_decimal_lem digits rest all end = fmt_decimal_from digits rest 0 all end (omega arith)
