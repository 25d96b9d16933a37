-- ===== src/Format/Vformat.antt =====
-- r4nv_vformat of src/rm/format.h, and the calls of it in src/rm/os_format.c and
-- src/rm/nvkms_format.c.
pub mod Contract
pub mod NumberShrinks
pub mod Shrinks
pub mod Loop
pub mod Snprintf
pub mod Guarantees
pub mod Sizes
pub mod SignedText
use r4os_driver_nvidia.Base.{
  ℕ, zero, suc, ◌+◌, Bool, true, false, not, ◌||◌, ◌&&◌, List, [], ◌∷◌, Option, some, none, ◌==◌,
  ltb, if◌then◌else◌, length, set, ℤ, pos, negsuc,
}
use r4os_driver_nvidia.Memory.{Memory}
use r4os_driver_nvidia.Format.Outcome.{Outcome, undefined, rejected, ok, ◌>>=◌, VaList}
use r4os_driver_nvidia.Format.Output.{Output, fmt_repeat, fmt_bytes}
use r4os_driver_nvidia.Format.Parse.{Directive, read_directive, starts, tail}
use r4os_driver_nvidia.Format.Text.{Converted, convert_text, format_limit}
use r4os_driver_nvidia.Format.Number.{convert_number}

-- The format, the output and the arguments between two rounds of the loop.
pub record Round : Type 0 where
  pub format : List ℕ
  pub out : Output
  pub args : VaList

abbrev pub is_text_conversion : ℕ → Bool
is_text_conversion c = c == b's' || c == b'c'

abbrev pub conversion_at : List ℕ → ℕ
conversion_at [] = 0
conversion_at (c ∷ rest) = c

-- From the test of `out.failed || *format == '\0'` behind the length.
unfoldable pub convert : Memory → Directive → Output → Outcome Round
unfolding convert_text convert_number
convert m d out =
    if d.failed || length d.rest == 0
    then rejected
    else (let conversion = conversion_at d.rest in
        let d' = record d { rest = tail d.rest } in
        do
          r ←
              if is_text_conversion conversion
              then convert_text m conversion d' out
              else convert_number conversion d' out
          ok (record { format = tail d.rest; out = r.out; args = r.args }))

-- One round of `while (*format != '\0' && !out.failed)`, at the character `c`.
unfoldable pub format_round : Memory → ℕ → List ℕ → Output → VaList → Outcome Round
unfolding convert read_directive
format_round m c rest out args =
    if not (c == b'%')
    then ok (record { format = rest; out = fmt_repeat out c 1; args = args })
    else if starts b'%' rest
    then ok (record { format = tail rest; out = fmt_repeat out b'%' 1; args = args })
    else (do d ← read_directive rest args; convert m d out)

-- The loop. Each round reads at least one character, so a fuel above the format's length is
-- enough; running out counts as `undefined`.
unfoldable pub format_loop : ℕ → Memory → List ℕ → Output → VaList → Outcome Output
format_loop zero m format out args = undefined
format_loop (suc fuel) m [] out args = ok out
format_loop (suc fuel) m (c ∷ rest) out args =
    if out.failed then ok out else elim (format_round m c rest out args) [
      | undefined ↦ undefined
      | rejected ↦ ok (record out { failed = true })
      | ok r ↦ format_loop fuel m (r.format) (r.out) (r.args)
    ]

-- The returned int, and the caller's array `data` of `capacity` bytes.
pub record Formatted : Type 0 where
  pub status : ℤ
  pub buffer : List ℕ

abbrev pub start_output : List ℕ → ℕ → ℕ → Output
start_output buffer capacity format_bytes = record {
  buffer = buffer;
  capacity = capacity;
  used = 0;
  scanned = format_bytes + 1;
  count = 0;
  failed = false;
}

-- if (capacity != 0) data[i] = '\0';
abbrev pub terminate : ℕ → ℕ → List ℕ → List ℕ
terminate capacity i buffer = if capacity == 0 then buffer else set buffer i 0

unfoldable pub format_end : Output → Formatted
format_end out = record {
  status = if out.failed then negsuc 0 else pos out.count;
  buffer = terminate out.capacity (if out.failed then 0 else out.used) out.buffer;
}

unfoldable pub vformat_text : Memory → List ℕ → ℕ → List ℕ → VaList → Outcome Formatted
unfolding format_loop format_end
vformat_text m buffer capacity format args =
    if not (ltb (length format) format_limit)
    then ok (record { status = negsuc 0; buffer = buffer })
    else (do
      out ←
          format_loop (length format + 1) m format (start_output buffer capacity (length format))
            args
      ok (format_end out))

-- r4nv_vformat for a `data` that is not NULL; `none` is a format that is NULL.
unfoldable pub vformat_at : Memory → List ℕ → ℕ → Option (List ℕ) → VaList → Outcome Formatted
unfolding vformat_text
vformat_at m buffer capacity none args =
    ok (record { status = negsuc 0; buffer = terminate capacity 0 buffer })
vformat_at m buffer capacity (some format) args =
    let start = terminate capacity 0 buffer in
    if ltb format_limit capacity
    then ok (record { status = negsuc 0; buffer = start })
    else vformat_text m start capacity format args

-- `none` is a `data` that is NULL: with a capacity it is refused, and without one nothing is written.
unfoldable pub r4nv_vformat :
    Memory → Option (List ℕ) → ℕ → Option (List ℕ) → VaList → Outcome Formatted
unfolding vformat_at
r4nv_vformat m (some buffer) capacity format args = vformat_at m buffer capacity format args
r4nv_vformat m none zero format args = vformat_at m [] 0 format args
r4nv_vformat m none (suc capacity) format args = ok (record { status = negsuc 0; buffer = [] })

unfoldable pub os_vsnprintf :
    Memory → Option (List ℕ) → ℕ → Option (List ℕ) → VaList → Outcome Formatted
unfolding r4nv_vformat
os_vsnprintf m buffer bytes format args = r4nv_vformat m buffer bytes format args

-- The variadic arguments are the list.
unfoldable pub os_snprintf :
    Memory → Option (List ℕ) → ℕ → Option (List ℕ) → VaList → Outcome Formatted
unfolding os_vsnprintf
os_snprintf m buffer bytes format args = os_vsnprintf m buffer bytes format args

unfoldable pub nvkms_vsnprintf :
    Memory → Option (List ℕ) → ℕ → Option (List ℕ) → VaList → Outcome Formatted
unfolding r4nv_vformat
nvkms_vsnprintf m buffer bytes format args = r4nv_vformat m buffer bytes format args

unfoldable pub nvkms_snprintf :
    Memory → Option (List ℕ) → ℕ → Option (List ℕ) → VaList → Outcome Formatted
unfolding nvkms_vsnprintf
nvkms_snprintf m buffer bytes format args = nvkms_vsnprintf m buffer bytes format args
