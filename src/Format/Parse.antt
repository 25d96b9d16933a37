-- ===== src/Format/Parse.antt =====
-- The part of r4nv_vformat (src/rm/format.h) that reads a directive up to its conversion character,
-- with r4nv_fmt_decimal. A format is the list of its bytes before the NUL, so `[]` stands for '\0'.
pub mod Shrinks
pub mod Widths
use r4os_driver_nvidia.Base.{
  ℕ, zero, suc, ◌+◌, ◌-◌, ◌*◌, ◌/◌, ◌%◌, ◌^◌, Bool, true, false, ◌||◌, ◌&&◌, List, [], ◌∷◌, ◌==◌,
  ltb, leb, if◌then◌else◌, int_max, u32, is_negative32,
}
use r4os_driver_nvidia.Format.Outcome.{Outcome, undefined, rejected, ok, ◌>>=◌, VaList, va_arg}

pub record Flags : Type 0 where
  pub left : Bool
  pub plus : Bool
  pub space : Bool
  pub alternate : Bool
  pub zero_pad : Bool

abbrev pub no_flags : Flags
no_flags = record { left = false; plus = false; space = false; alternate = false; zero_pad = false }

abbrev pub is_flag : ℕ → Bool
is_flag c = c == b'-' || (c == b'+' || (c == b' ' || (c == b'#' || c == b'0')))

abbrev pub set_flag : ℕ → Flags → Flags
set_flag c f =
    if c == b'-'
    then record f { left = true }
    else if c == b'+'
    then record f { plus = true }
    else if c == b' '
    then record f { space = true }
    else if c == b'#'
    then record f { alternate = true }
    else record f { zero_pad = true }

pub record FlagsRead : Type 0 where
  pub flags : Flags
  pub rest : List ℕ

-- The `for (;;)` over the flag characters.
unfoldable pub read_flags : List ℕ → Flags → FlagsRead
read_flags [] f = record { flags = f; rest = [] }
read_flags (c ∷ format) f =
    if is_flag c then read_flags format (set_flag c f) else record { flags = f; rest = c ∷ format }

pub record Decimal : Type 0 where
  pub value : ℕ
  pub rest : List ℕ
  pub failed : Bool

abbrev pub is_digit : ℕ → Bool
is_digit c = leb b'0' c && leb c b'9'

-- The loop of r4nv_fmt_decimal, with `result` so far. On overflow the pointer stays at the digit.
unfoldable pub fmt_decimal : List ℕ → ℕ → Decimal
fmt_decimal [] result = record { value = result; rest = []; failed = false }
fmt_decimal (c ∷ format) result =
    let digit = c - b'0' in
    let next = fmt_decimal format (result * 10 + digit) in
    if is_digit c
    then (if ltb ((int_max - digit) / 10) result
        then record { value = 0; rest = c ∷ format; failed = true }
        else next)
    else record { value = result; rest = c ∷ format; failed = false }

pub data Length : Type 0 where
  int_length char_length short_length long_length llong_length : Length
  size_length ptrdiff_length maxint_length : Length

-- What has been read of a directive, with the rest of the format and of the arguments.
pub record Directive : Type 0 where
  pub flags : Flags
  pub width : ℕ
  pub precise : Bool
  pub precision : ℕ
  pub size : Length
  pub failed : Bool
  pub rest : List ℕ
  pub args : VaList

-- `*format == '*'` and the like.
abbrev pub starts : ℕ → List ℕ → Bool
starts c [] = false
starts c (x ∷ format) = x == c

abbrev pub tail : List ℕ → List ℕ
tail [] = []
tail (x ∷ format) = format

abbrev pub directive_start : Flags → List ℕ → VaList → Directive
directive_start flags rest args = record {
  flags = flags;
  width = 0;
  precise = false;
  precision = 0;
  size = int_length;
  failed = false;
  rest = rest;
  args = args;
}

-- The width given by `*`: INT_MIN is rejected, another negative int sets `left` and is negated.
abbrev pub width_argument : Directive → ℕ → Outcome Directive
width_argument d value =
    if value == 2 ^ 31
    then rejected
    else if is_negative32 value
    then ok (record d { flags = record (d.flags) { left = true }; width = 2 ^ 32 - value })
    else ok (record d { width = value })

unfoldable pub read_width : Directive → Outcome Directive
unfolding fmt_decimal
read_width d =
    if starts b'*' d.rest
    then (do
      p ← va_arg d.args
      width_argument (record d { rest = tail d.rest; args = p.args }) (u32 p.slot))
    else (let n = fmt_decimal d.rest 0 in
        ok (record d { width = n.value; rest = n.rest; failed = n.failed }))

-- The precision given by `*`: a negative int is none.
abbrev pub precision_argument : Directive → ℕ → Directive
precision_argument d value =
    if is_negative32 value then record d { precise = false } else record d { precision = value }

unfoldable pub read_precision : Directive → Outcome Directive
unfolding fmt_decimal
read_precision d =
    if starts b'.' d.rest
    then (let d1 = record d { rest = tail d.rest; precise = true } in
        if starts b'*' d1.rest
        then (do
          p ← va_arg d1.args
          ok (precision_argument (record d1 { rest = tail d1.rest; args = p.args }) (u32 p.slot)))
        else (let n = fmt_decimal d1.rest 0 in
            ok (record d1 { precision = n.value; rest = n.rest; failed = d1.failed || n.failed })))
    else ok d

abbrev pub with_size : Directive → Length → List ℕ → Directive
with_size d size rest = record d { size = size; rest = rest }

unfoldable pub read_length : Directive → Directive
read_length d =
    let r = tail d.rest in
    if starts b'h' d.rest
    then (if starts b'h' r then with_size d char_length (tail r) else with_size d short_length r)
    else if starts b'l' d.rest
    then (if starts b'l' r then with_size d llong_length (tail r) else with_size d long_length r)
    else if starts b'z' d.rest
    then with_size d size_length r
    else if starts b't' d.rest
    then with_size d ptrdiff_length r
    else if starts b'j' d.rest
    then with_size d maxint_length r
    else d

-- From behind the '%' up to the conversion character.
unfoldable pub read_directive : List ℕ → VaList → Outcome Directive
unfolding read_flags read_width read_precision read_length
read_directive format args = do
  let f = read_flags format no_flags
  d ← read_width (directive_start f.flags f.rest args)
  e ← read_precision d
  ok (read_length e)
