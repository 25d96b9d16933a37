-- ===== src/Format/Text.antt =====
-- The conversions `s` and `c` of r4nv_vformat (src/rm/format.h). A text argument is an address into the
-- memory, which the output buffer does not overlap.
use r4os_driver_nvidia.Base.{
  ℕ, zero, suc, ◌+◌, ◌-◌, Bool, true, false, not, ◌&&◌, List, [], ◌∷◌, ◌==◌, ltb, if◌then◌else◌,
  length, get_or, codes, u8,
}
use r4os_driver_nvidia.Memory.{Memory}
use r4os_driver_nvidia.Format.Outcome.{Outcome, rejected, ok, ◌>>=◌, VaList, va_arg}
use r4os_driver_nvidia.Format.Output.{Output, fmt_repeat, fmt_bytes}
use r4os_driver_nvidia.Format.Parse.{Directive, Length, int_length}

-- R4NV_FORMAT_LIMIT.
abbrev pub format_limit : ℕ
format_limit = 65536

-- The characters found, and `out.scanned` after them.
pub record Scan : Type 0 where
  pub text : List ℕ
  pub scanned : ℕ

-- while (!precise || bytes < precision) { ... }, where `left` is R4NV_FORMAT_LIMIT - out.scanned:
-- at 0 the limit is reached. A failure leaves the directive without output, like `rejected`.
unfoldable pub scan_text : ℕ → (ℕ → ℕ) → ℕ → Bool → ℕ → ℕ → Outcome Scan
scan_text zero text bytes precise precision scanned =
    if precise && not (ltb bytes precision)
    then ok (record { text = []; scanned = scanned })
    else rejected
scan_text (suc left) text bytes precise precision scanned =
    let more = scan_text left text (bytes + 1) precise precision (scanned + 1) in
    if precise && not (ltb bytes precision)
    then ok (record { text = []; scanned = scanned })
    else if text bytes == 0
    then ok (record { text = []; scanned = scanned + 1 })
    else (do r ← more; ok (record { text = text bytes ∷ r.text; scanned = r.scanned }))

-- text = va_arg(args, const char *); if (text == NULL) text = "(null)";
abbrev pub text_at : Memory → ℕ → ℕ → ℕ
text_at m pointer i = if pointer == 0 then get_or (codes "(null)") i 0 else m (pointer + i)

-- Padding on the side that `left` says, round the text.
unfoldable pub put_field : Directive → Output → List ℕ → Output
put_field d out text =
    let padding = if ltb (length text) d.width then d.width - length text else 0 in
    let out1 = if d.flags.left then out else fmt_repeat out b' ' padding in
    let out2 = fmt_bytes out1 text in if d.flags.left then fmt_repeat out2 b' ' padding else out2

pub record Converted : Type 0 where
  pub out : Output
  pub args : VaList

abbrev pub is_int_length : Length → Bool
is_int_length int_length = true
is_int_length _ = false

abbrev pub character_field : Directive → Output → ℕ → VaList → Converted
character_field d out slot args = record { out = put_field d out (u8 slot ∷ []); args = args }

abbrev pub string_field : Memory → Directive → Output → ℕ → VaList → Outcome Converted
string_field m d out pointer args = do
  r ← scan_text (format_limit - out.scanned) (text_at m pointer) 0 d.precise d.precision out.scanned
  ok (record { out = put_field d (record out { scanned = r.scanned }) r.text; args = args })

unfoldable pub convert_text : Memory → ℕ → Directive → Output → Outcome Converted
unfolding scan_text put_field
convert_text m conversion d out =
    if is_int_length d.size
    then (do
      p ← va_arg d.args
      if conversion == b'c'
          then ok (character_field d out p.slot p.args)
          else string_field m d out p.slot p.args)
    else rejected
