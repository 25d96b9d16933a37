-- ===== src/Format/Number/Digits.antt =====
-- The digit loop of r4nv_vformat (src/rm/format.h): it stays in its 64-byte array and writes the
-- numeral of the value.
use mathlib.Core.List.{reverse-append}
use native.Mathlib.Nat.{pow-succ', pow-zero, div-lt_iff_lt-mul, div-add-mod, mod-lt}
use r4os_driver_nvidia.Base.{
  ℕ, zero, suc, ◌+◌, ◌-◌, ◌*◌, ◌/◌, ◌%◌, ◌^◌, ◌≤◌, ◌<◌, ◌≡◌, ◌≢◌, refl, ap, arith, Bool, true,
  false, not, ◌||◌, List, [], ◌∷◌, ◌++◌, ◌==◌, leb, if◌then◌else◌, length, get_or, reverse,
  Bool-cases, inl, inr, eqb→eq, eqb→ne,
}
use r4os_driver_nvidia.Format.Outcome.{ok}
use r4os_driver_nvidia.Format.Number.{digit_char, digit_loop}

-- The value of a digit character in either alphabet.
abbrev pub digit_value : ℕ → ℕ
digit_value c = if leb c b'9' then c - b'0' else if leb c b'F' then c - b'A' + 10 else c - b'a' + 10

-- Reading a numeral from left to right, behind `n`.
abbrev pub numeral_value : ℕ → ℕ → List ℕ → ℕ
numeral_value radix n [] = n
numeral_value radix n (c ∷ s) = numeral_value radix (n * radix + digit_value c) s

-- The test succeeds on every digit under `top`.
holds_under : (ℕ → Bool) → ℕ → Bool
holds_under test zero = true
holds_under test (suc top) = if test top then holds_under test top else false

holds_under-at :
    (test : ℕ → Bool) (top i : ℕ) → i < top → holds_under test top ≡ true → test i ≡ true
unfolding holds_under
holds_under-at test zero i lt h = absurd (omega arith)
holds_under-at test (suc top) i lt h = ground (arith, holds_under-at test top i)

digit_table : (upper : Bool) → holds_under (λ i. digit_value (digit_char upper i) == i) 16 ≡ true
unfolding holds_under digit_char
digit_table true = refl
digit_table false = refl

zero_table :
    (upper : Bool) → holds_under (λ i. i == 0 || not (digit_char upper i == b'0')) 16 ≡ true
unfolding holds_under digit_char
zero_table true = refl
zero_table false = refl

pub digit_value-digit_char : (upper : Bool) (i : ℕ) → i < 16 → digit_value (digit_char upper i) ≡ i
digit_value-digit_char upper i h = eqb→eq _ _ (holds_under-at _ 16 i h (digit_table upper))

digit_char-ne-zero : (upper : Bool) (i : ℕ) → i < 16 → i ≢ 0 → digit_char upper i ≢ b'0'
digit_char-ne-zero upper i h ne e =
    let t =
      holds_under-at (λ i. i == 0 || not (digit_char upper i == b'0')) 16 i h (zero_table upper) in
    ground (arith, t)

numeral_value-append :
    (radix n : ℕ) (s r : List ℕ)
    → numeral_value radix n (s ++ r) ≡ numeral_value radix (numeral_value radix n s) r
numeral_value-append radix n [] r = refl
numeral_value-append radix n (c ∷ s) r = numeral_value-append radix (n * radix + digit_value c) s r

-- `digits`, lowest first, is the numeral of `value`: at most `k` characters that read as the value, and no
-- leading zero but for 0 itself.
pub record IsNumeral (radix value k : ℕ) (digits : List ℕ) : Type 0 where
  pub reads : numeral_value radix 0 (reverse digits) ≡ value
  pub short : length digits ≤ k
  pub nonempty : 0 < length digits
  pub leading : value ≢ 0 → get_or digits (length digits - 1) 0 ≢ b'0'

quotient_lt : (v r b p : ℕ) → b ≤ r → 0 < b → v < b * p → v / r < p
quotient_lt v r b p h pos lt = (div-lt_iff_lt-mul (omega arith)).1 (grind arith)

module _ (upper : Bool) (radix value k : ℕ) (two : 1 < radix) (small : radix ≤ 16) where
  abbrev low_digit : ℕ
  low_digit = digit_char upper (value % radix)

  low_lt : value % radix < 16
  low_lt = grind (arith, mod-lt)

  low_digit_value : digit_value low_digit ≡ value % radix
  low_digit_value = digit_value-digit_char upper (value % radix) low_lt

  quotient_whole : value / radix * radix + value % radix ≡ value
  quotient_whole = grind (arith, div-add-mod)

  IsNumeral-one : value / radix ≡ 0 → IsNumeral radix value (suc k) (low_digit ∷ [])
  IsNumeral-one done = record {
    reads = omega (arith, low_digit_value, quotient_whole, ap (λ (t : ℕ). t * radix) done);
    short = omega arith;
    nonempty = omega arith;
    leading = λ ne.
        digit_char-ne-zero upper (value % radix) low_lt
          λ z. ne (omega (arith, quotient_whole, ap (λ (t : ℕ). t * radix) done));
  }

  IsNumeral-cons :
      (digits : List ℕ)
      → value / radix ≢ 0
      → IsNumeral radix (value / radix) k digits
      → IsNumeral radix value (suc k) (low_digit ∷ digits)
  IsNumeral-cons digits more n = record {
    reads =
        rw
          (
            reverse-append (low_digit ∷ []) digits,
            numeral_value-append radix 0 (reverse digits) (low_digit ∷ []),
            n.reads,
            low_digit_value,
          )
          quotient_whole;
    short = omega (arith, n.short);
    nonempty = omega arith;
    leading = λ ne.
        let e : suc (length digits) - 1 ≡ suc (length digits - 1) = omega (arith, n.nonempty) in
        rw e (n.leading more);
  }

-- With `b` at most the radix, `k` rounds are enough for a value below `b ^ k`, and the loop needs
-- no more room.
pub digit_loop_lem :
    (k room : ℕ) (upper : Bool) (b radix value : ℕ)
    → k ≤ room
    → 1 < b
    → b ≤ radix
    → radix ≤ 16
    → value < b ^ k
    → 0 < k
    → (digits : List ℕ) × (digit_loop room upper radix value ≡ ok digits)
      × IsNumeral radix value k digits
unfolding digit_loop
digit_loop_lem zero room upper b radix value fits two base small lt pos = absurd (omega arith)
digit_loop_lem (suc k) zero upper b radix value fits two base small lt pos = absurd (omega arith)
digit_loop_lem (suc k) (suc room) upper b radix value fits two base small lt pos =
    elim (Bool-cases (value / radix == 0)) [
      | inl done ↦ rw done (
        digit_char upper (value % radix) ∷ [],
        refl,
        IsNumeral-one upper radix value k (omega arith) small (eqb→eq _ _ done),
      )
      | inr more ↦
          let ne : value / radix ≢ 0 = eqb→ne _ _ more in
          let lower = quotient_lt value radix b (b ^ k) base (omega arith) (rw (← power) lt) in
          let (digits, run, n) =
            digit_loop_lem k room upper b radix (value / radix) (omega arith) two base small lower
              (positive k lower ne) in
          rw (more, run)
            (
              digit_char upper (value % radix) ∷ digits,
              refl,
              IsNumeral-cons upper radix value k (omega arith) small digits ne n,
            )
    ]
  where
    power : b ^ suc k ≡ b * b ^ k
    power = pow-succ' b k

    positive : (k : ℕ) → value / radix < b ^ k → value / radix ≢ 0 → 0 < k
    positive zero h ne = absurd (ne (omega (arith, pow-zero b)))
    positive (suc k) h ne = omega arith

-- For a value below 2 ^ 64 and a radix from 8 to 16, the digit loop ends within its array of 64
-- bytes, with 22 digits at most; read from left to right they give the value back, and they have
-- no leading zero unless the value is 0.
pub digit_loop_64 :
    (upper : Bool) (radix value : ℕ)
    → 8 ≤ radix
    → radix ≤ 16
    → value < 2 ^ 64
    → (digits : List ℕ) × (digit_loop 64 upper radix value ≡ ok digits)
      × IsNumeral radix value 22 digits
digit_loop_64 upper radix value base small h =
    digit_loop_lem 22 64 upper 8 radix value (omega arith) (omega arith) base small (omega arith)
      (omega arith)
