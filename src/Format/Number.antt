-- ===== src/Format/Number.antt =====
-- The conversions `d i u o x X p` of r4nv_vformat (src/rm/format.h), with r4nv_fmt_unsigned and
-- r4nv_fmt_signed. A 64-bit value is its bit pattern.
pub mod Digits
use r4os_driver_nvidia.Base.{
  ℕ, zero, suc, ◌+◌, ◌-◌, ◌*◌, ◌/◌, ◌%◌, ◌^◌, Bool, true, false, not, ◌||◌, ◌&&◌, List, [], ◌∷◌,
  ◌==◌, ltb, leb, if◌then◌else◌, length, get_or, reverse, codes, u8, u16, u32, u64, int_max,
  is_negative64,
}
use r4os_driver_nvidia.Format.Outcome.{Outcome, undefined, rejected, ok, ◌>>=◌, VaList, va_arg}
use r4os_driver_nvidia.Format.Output.{Output, fmt_repeat, fmt_bytes}
use r4os_driver_nvidia.Format.Parse.{
  Directive, Length, int_length, char_length, short_length, long_length, llong_length, size_length,
  ptrdiff_length, maxint_length, is_digit,
}
use r4os_driver_nvidia.Format.Text.{Converted, is_int_length}

unfoldable pub fmt_unsigned : ℕ → Length → ℕ
fmt_unsigned slot char_length = u8 slot
fmt_unsigned slot short_length = u16 slot
fmt_unsigned slot long_length = u64 slot
fmt_unsigned slot llong_length = u64 slot
fmt_unsigned slot size_length = u64 slot
fmt_unsigned slot ptrdiff_length = u64 slot
fmt_unsigned slot maxint_length = u64 slot
fmt_unsigned slot int_length = u32 slot

-- The int64_t of a signed value whose low `2 ^ w` part is `x`: `half` is 2 ^ (w - 1).
abbrev pub sign_extend : ℕ → ℕ → ℕ
sign_extend half x = if ltb x half then x else x + 2 ^ 64 - 2 * half

unfoldable pub fmt_signed : ℕ → Length → ℕ
fmt_signed slot char_length = sign_extend (2 ^ 7) (u8 slot)
fmt_signed slot short_length = sign_extend (2 ^ 15) (u16 slot)
fmt_signed slot long_length = u64 slot
fmt_signed slot llong_length = u64 slot
fmt_signed slot size_length = u64 slot
fmt_signed slot ptrdiff_length = u64 slot
fmt_signed slot maxint_length = u64 slot
fmt_signed slot int_length = sign_extend (2 ^ 31) (u32 slot)

-- What the conversion decides before the digits are made. `sign` is '\0' for none; `prefix` holds
-- prefix_bytes bytes.
pub record Number : Type 0 where
  pub value : ℕ
  pub radix : ℕ
  pub sign : ℕ
  pub prefix : List ℕ
  pub precise : Bool
  pub precision : ℕ

abbrev pub is_alphanumeric : List ℕ → Bool
is_alphanumeric [] = false
is_alphanumeric (c ∷ format) =
    (leb b'A' c && leb c b'Z') || ((leb b'a' c && leb c b'z') || is_digit c)

abbrev pub hex_prefix : Bool → ℕ → List ℕ
hex_prefix true x = b'0' ∷ x ∷ []
hex_prefix false x = []

-- %p: the raw address in 16 digits, unless a precision is given.
unfoldable pub pointer_number : Directive → ℕ → Number
pointer_number d slot = record {
  value = u64 slot;
  radix = 16;
  sign = 0;
  prefix = hex_prefix d.flags.alternate b'x';
  precise = true;
  precision = if d.precise then d.precision else 16;
}

unfoldable pub signed_number : Directive → ℕ → Number
unfolding fmt_signed
signed_number d slot =
    let value = fmt_signed slot d.size in
    record {
      value = if is_negative64 value then (2 ^ 64 - value) % 2 ^ 64 else value;
      radix = 10;
      sign =
          if is_negative64 value
          then b'-'
          else if d.flags.plus
          then b'+'
          else if d.flags.space
          then b' '
          else 0;
      prefix = [];
      precise = d.precise;
      precision = d.precision;
    }

abbrev pub is_hex : ℕ → Bool
is_hex conversion = conversion == b'x' || conversion == b'X'

unfoldable pub unsigned_number : ℕ → Directive → ℕ → Number
unfolding fmt_unsigned
unsigned_number conversion d slot =
    let value = fmt_unsigned slot d.size in
    record {
      value = value;
      radix = if conversion == b'o' then 8 else if is_hex conversion then 16 else 10;
      sign = 0;
      prefix = hex_prefix (is_hex conversion && (d.flags.alternate && not (value == 0))) conversion;
      precise = d.precise;
      precision = d.precision;
    }

abbrev pub is_signed_conversion : ℕ → Bool
is_signed_conversion c = c == b'd' || c == b'i'

abbrev pub is_unsigned_conversion : ℕ → Bool
is_unsigned_conversion c = c == b'u' || (c == b'o' || is_hex c)

pub record Chosen : Type 0 where
  pub number : Number
  pub args : VaList

-- The chain of conversions; `d.rest` is the format behind the conversion character.
unfoldable pub choose_number : ℕ → Directive → Outcome Chosen
unfolding pointer_number signed_number unsigned_number
choose_number conversion d =
    if conversion == b'p'
    then (if not (is_int_length d.size) || is_alphanumeric d.rest then rejected else (do
      p ← va_arg d.args
      ok (record { number = pointer_number d p.slot; args = p.args })))
    else if is_signed_conversion conversion
    then (do p ← va_arg d.args; ok (record { number = signed_number d p.slot; args = p.args }))
    else if is_unsigned_conversion conversion
    then (do
      p ← va_arg d.args
      ok (record { number = unsigned_number conversion d p.slot; args = p.args }))
    else rejected

-- alphabet[i]
unfoldable pub digit_char : Bool → ℕ → ℕ
digit_char true i = get_or (codes "0123456789ABCDEF") i 0
digit_char false i = get_or (codes "0123456789abcdef") i 0

-- do { digits[digit_count++] = alphabet[value % radix]; value /= radix; } while (value != 0);
-- `room` is what is left of the array `digits`; a write past it is undefined. The lowest digit
-- comes first.
unfoldable pub digit_loop : ℕ → Bool → ℕ → ℕ → Outcome (List ℕ)
digit_loop zero upper radix value = undefined
digit_loop (suc room) upper radix value =
    let more = digit_loop room upper radix (value / radix) in
    let digit = digit_char upper (value % radix) in
    if value / radix == 0 then ok (digit ∷ []) else (do r ← more; ok (digit ∷ r))

unfoldable pub make_digits : ℕ → Number → Outcome (List ℕ)
unfolding digit_loop digit_char
make_digits conversion n =
    if not (n.value == 0) || (not n.precise || not (n.precision == 0))
    then digit_loop 64 (conversion == b'X') n.radix n.value
    else ok []

-- digit_count == 0 || digits[digit_count - 1] != '0'
abbrev pub lacks_leading_zero : List ℕ → Bool
lacks_leading_zero digits = length digits == 0 || not (get_or digits (length digits - 1) 0 == b'0')

unfoldable pub leading_zeroes : ℕ → Directive → Number → List ℕ → ℕ
leading_zeroes conversion d n digits =
    let zeroes =
      if n.precise && ltb (length digits) n.precision then n.precision - length digits else 0 in
    if (conversion == b'o' && d.flags.alternate) && (zeroes == 0 && lacks_leading_zero digits)
    then 1
    else zeroes

-- while (digit_count != 0) r4nv_fmt_repeat(&out, digits[--digit_count], 1); the list is the array
-- read from its end.
unfoldable pub put_digits : List ℕ → Output → Output
put_digits [] out = out
put_digits (c ∷ digits) out = put_digits digits (fmt_repeat out c 1)

-- The emission: padding, sign, prefix, zeros, digits.
unfoldable pub put_number : Directive → Number → ℕ → List ℕ → ℕ → Output → Output
put_number d n zeroes digits padding out =
    let left = d.flags.left in
    let zero_fill = d.flags.zero_pad && not n.precise in
    let out1 = if not left && not zero_fill then fmt_repeat out b' ' padding else out in
    let out2 = if not (n.sign == 0) then fmt_repeat out1 n.sign 1 else out1 in
    let out3 = fmt_bytes out2 n.prefix in
    let out4 = if not left && zero_fill then fmt_repeat out3 b'0' padding else out3 in
    let out5 = fmt_repeat out4 b'0' zeroes in
    let out6 = put_digits (reverse digits) out5 in
    if left then fmt_repeat out6 b' ' padding else out6

abbrev pub total_bytes : Number → ℕ → List ℕ → ℕ
total_bytes n zeroes digits =
    length digits + zeroes + length n.prefix + (if n.sign == 0 then 0 else 1)

unfoldable pub convert_number : ℕ → Directive → Output → Outcome Converted
unfolding choose_number make_digits leading_zeroes put_digits put_number
convert_number conversion d out = do
  c ← choose_number conversion d
  digits ← make_digits conversion c.number
  let zeroes = leading_zeroes conversion d c.number digits
  let total = total_bytes c.number zeroes digits
  let padding = if ltb total d.width then d.width - total else 0
  if ltb int_max total
      then rejected
      else ok (record { out = put_number d c.number zeroes digits padding out; args = c.args })
