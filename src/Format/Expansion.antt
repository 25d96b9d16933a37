-- ===== src/Format/Expansion.antt =====
-- What a format stands for, apart from any buffer: the text that snprintf would write with
-- unlimited room. The directives are read as the formatter reads them (Format/Parse), and a
-- conversion is the concatenation of its padding, sign, prefix, zeros and digits. The text of a
-- format is the concatenation of its parts, and one that passes INT_MAX bytes is rejected.
use r4os_driver_nvidia.Base.{
  ℕ, zero, suc, ◌+◌, ◌-◌, Bool, not, ◌||◌, ◌&&◌, List, [], ◌∷◌, ◌++◌, some, none, ◌==◌, ltb,
  if◌then◌else◌, length, replicate, reverse, int_max, u8,
}
use r4os_driver_nvidia.Memory.{Memory}
use r4os_driver_nvidia.Format.Outcome.{Outcome, undefined, rejected, ok, ◌>>=◌, VaList, va_arg}
use r4os_driver_nvidia.Format.Output.Document.{append_document}
use r4os_driver_nvidia.Format.Parse.{Directive, read_directive, starts, tail}
use r4os_driver_nvidia.Format.Text.{is_int_length, scan_text, text_at, format_limit}
use r4os_driver_nvidia.Format.Number.{
  Number, choose_number, make_digits, leading_zeroes, total_bytes,
}
use r4os_driver_nvidia.Format.Vformat.{is_text_conversion, conversion_at}

-- `n` times `ch` if the test holds.
abbrev pub fill_if : Bool → ℕ → ℕ → List ℕ
fill_if b ch n = if b then replicate n ch else []

-- A text in its field.
unfoldable pub field_text : Directive → List ℕ → List ℕ
field_text d text =
    let padding = if ltb (length text) d.width then d.width - length text else 0 in
    fill_if (not d.flags.left) b' ' padding ++ (text ++ fill_if d.flags.left b' ' padding)

-- A number in its field. The digits come with the lowest first.
unfoldable pub number_text : Directive → Number → ℕ → List ℕ → ℕ → List ℕ
number_text d n zeroes digits padding =
    let left = d.flags.left in
    let zero_fill = d.flags.zero_pad && not n.precise in
    fill_if (not left && not zero_fill) b' ' padding
    ++ (fill_if (not (n.sign == 0)) n.sign 1
        ++ (n.prefix
            ++ (fill_if (not left && zero_fill) b'0' padding
                ++ (replicate zeroes b'0' ++ (reverse digits ++ fill_if left b' ' padding)))))

-- The text of one round of the format, with what is left behind it.
pub record Chunk : Type 0 where
  pub text : List ℕ
  pub format : List ℕ
  pub scanned : ℕ
  pub args : VaList

abbrev pub string_chunk : Memory → Directive → ℕ → ℕ → VaList → Outcome Chunk
string_chunk m d scanned pointer args = do
  r ← scan_text (format_limit - scanned) (text_at m pointer) 0 d.precise d.precision scanned
  ok (record { text = field_text d r.text; format = d.rest; scanned = r.scanned; args = args })

unfoldable pub text_chunk : Memory → ℕ → Directive → ℕ → Outcome Chunk
unfolding field_text
text_chunk m conversion d scanned =
    if is_int_length d.size
    then (do
      p ← va_arg d.args
      if conversion == b'c'
          then ok (record {
            text = field_text d (u8 p.slot ∷ []);
            format = d.rest;
            scanned = scanned;
            args = p.args;
          })
          else string_chunk m d scanned p.slot p.args)
    else rejected

unfoldable pub number_chunk : ℕ → Directive → ℕ → Outcome Chunk
unfolding number_text
number_chunk conversion d scanned = do
  c ← choose_number conversion d
  digits ← make_digits conversion c.number
  let zeroes = leading_zeroes conversion d c.number digits
  let total = total_bytes c.number zeroes digits
  let padding = if ltb total d.width then d.width - total else 0
  if ltb int_max total
      then rejected
      else ok (record {
        text = number_text d c.number zeroes digits padding;
        format = d.rest;
        scanned = scanned;
        args = c.args;
      })

unfoldable pub directive_chunk : Memory → Directive → ℕ → Outcome Chunk
unfolding text_chunk number_chunk
directive_chunk m d scanned =
    if d.failed || length d.rest == 0
    then rejected
    else (let conversion = conversion_at d.rest in
        let d' = record d { rest = tail d.rest } in
        if is_text_conversion conversion
        then text_chunk m conversion d' scanned
        else number_chunk conversion d' scanned)

unfoldable pub next_chunk : Memory → ℕ → List ℕ → ℕ → VaList → Outcome Chunk
unfolding directive_chunk
next_chunk m c rest scanned args =
    if not (c == b'%')
    then ok (record { text = c ∷ []; format = rest; scanned = scanned; args = args })
    else if starts b'%' rest
    then ok (record { text = b'%' ∷ []; format = tail rest; scanned = scanned; args = args })
    else (do d ← read_directive rest args; directive_chunk m d scanned)

-- The whole text, behind `t`.
unfoldable pub expand : ℕ → Memory → List ℕ → List ℕ → ℕ → VaList → Outcome (List ℕ)
expand zero m format t scanned args = undefined
expand (suc fuel) m [] t scanned args = ok t
expand (suc fuel) m (c ∷ rest) t scanned args = elim (next_chunk m c rest scanned args) [
  | undefined ↦ undefined
  | rejected ↦ rejected
  | ok ch ↦ elim (append_document (some t) (ch.text)) [
    | none ↦ rejected
    | some t' ↦ expand fuel m (ch.format) t' (ch.scanned) (ch.args)
  ]
]

-- The text of a format, with the scan budget that its own bytes have used.
unfoldable pub expansion : Memory → List ℕ → VaList → Outcome (List ℕ)
unfolding expand
expansion m format args = expand (length format + 1) m format [] (length format + 1) args
