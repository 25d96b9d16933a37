-- ===== src/FormatTests.antt =====
-- Runs of the formatter that Tests and cpu_probe.c make too.
use r4os_driver_nvidia.Base.{
  ℕ, none, drop, ◌≡◌, ◌^◌, arith, refl, false, List, [], ◌∷◌, ◌++◌, Option, some, replicate, codes,
  pos, negsuc,
}
use r4os_driver_nvidia.Memory.{Memory}
use r4os_driver_nvidia.Format.Outcome.{ok, rejected}
use r4os_driver_nvidia.Format.Output.{Output, fmt_repeat, fmt_bytes}
use r4os_driver_nvidia.Format.Output.Document.{Refines, append_document}
use r4os_driver_nvidia.Format.Output.Appends.{fmt_bytes-Refines}
use r4os_driver_nvidia.Format.Number.{
  digit_loop, choose_number, convert_number, make_digits, leading_zeroes,
}
use r4os_driver_nvidia.Format.Parse.{char_length, read_directive, fmt_decimal}
use r4os_driver_nvidia.Format.Parse.Widths.{IsRead, fmt_decimal_lem}
use r4os_driver_nvidia.Format.Number.Digits.{IsNumeral, digit_loop_64}
use r4os_driver_nvidia.Format.Expansion.{expansion, next_chunk}
use r4os_driver_nvidia.Format.Vformat.Snprintf.{displayed, IsRefused}
use r4os_driver_nvidia.Format.Vformat.Sizes.{r4nv_vformat-sizes}
use r4os_driver_nvidia.Format.Vformat.SignedText.{plain, Prints, convert_number-Prints}
use r4os_driver_nvidia.Format.Vformat.Guarantees.{
  IsResult, r4nv_vformat-displays, r4nv_vformat-rejects, r4nv_vformat-total,
}
use r4os_driver_nvidia.Format.Vformat.{Formatted, r4nv_vformat, format_round, start_output}

abbrev no_memory : Memory
no_memory p = 0

abbrev room : ℕ → Option (List ℕ)
room n = some (replicate n 7)

signed_and_hex :
    r4nv_vformat no_memory
      (room 48)
      48
      (some (codes "%lld/%#llx"))
      (2 ^ 63 ∷ 0xfedcba9876543210 ∷ [])
    ≡ ok (record {
      status = pos 39;
      buffer = codes "-9223372036854775808/0xfedcba9876543210" ++ 0 ∷ replicate 8 7;
    })
unfolding r4nv_vformat fmt_repeat fmt_bytes format_round
signed_and_hex = refl

truncated :
    r4nv_vformat no_memory (room 8) 5 (some (codes "%08x")) (0x79 ∷ [])
    ≡ ok (record { status = pos 8; buffer = codes "0000" ++ 0 ∷ replicate 3 7 })
unfolding r4nv_vformat fmt_repeat fmt_bytes format_round
truncated = refl

star_arguments :
    r4nv_vformat no_memory (room 9) 9 (some (codes "%*.*d")) (0xfffffff8 ∷ 4 ∷ 0xfffffff4 ∷ [])
    ≡ ok (record { status = pos 8; buffer = codes "-0012   " ++ 0 ∷ [] })
unfolding r4nv_vformat fmt_repeat fmt_bytes format_round
star_arguments = refl

percent_n :
    r4nv_vformat no_memory (room 4) 4 (some (codes "%n")) (5 ∷ [])
    ≡ ok (record { status = negsuc 0; buffer = 0 ∷ replicate 3 7 })
unfolding r4nv_vformat fmt_repeat fmt_bytes format_round
percent_n = refl

signed_text : expansion no_memory (codes "%5d|") (0xffffffff ∷ []) ≡ ok (codes "   -1|")
unfolding expansion next_chunk read_directive choose_number make_digits leading_zeroes
signed_text = refl

r4nv_vformat-displays_example :
    r4nv_vformat no_memory (room 6) 4 (some (codes "%5d|")) (0xffffffff ∷ [])
    ≡ ok (record { status = pos 6; buffer = displayed (codes "   -1|") 4 (replicate 6 7) })
r4nv_vformat-displays_example =
    r4nv_vformat-displays no_memory (replicate 6 7) 4 (codes "%5d|") (0xffffffff ∷ [])
      (codes "   -1|") (omega arith) (omega arith) (omega arith) signed_text

percent_n_refused : expansion no_memory (codes "a%n") (5 ∷ []) ≡ rejected
unfolding expansion next_chunk read_directive choose_number make_digits leading_zeroes
percent_n_refused = refl

r4nv_vformat-rejects_example :
    (r : Formatted) × (r4nv_vformat no_memory (room 4) 3 (some (codes "a%n")) (5 ∷ []) ≡ ok r)
    × IsRefused 3 (replicate 4 7) r
r4nv_vformat-rejects_example =
    r4nv_vformat-rejects no_memory (replicate 4 7) 3 (codes "a%n") (5 ∷ []) (omega arith)
      (omega arith) (omega arith) percent_n_refused

r4nv_vformat-total_example :
    (r : Formatted) × (r4nv_vformat no_memory (room 4) 3 (some (codes "%d")) (5 ∷ 6 ∷ []) ≡ ok r)
    × IsResult 3 (replicate 4 7) r
r4nv_vformat-total_example =
    r4nv_vformat-total no_memory (replicate 4 7) 3 (codes "%d") (5 ∷ 6 ∷ []) (omega arith)
      (omega arith)

digit_loop_64_example :
    (digits : List ℕ) × (digit_loop 64 false 16 0xbeef ≡ ok digits) × IsNumeral 16 0xbeef 22 digits
digit_loop_64_example = digit_loop_64 false 16 0xbeef (omega arith) (omega arith) (omega arith)

-- An output with three of its four bytes to write.
abbrev fresh : Output
fresh = start_output (replicate 4 7) 4 0

fresh-Refines : Refines (replicate 4 7) 4 (some []) fresh
fresh-Refines = record {
  alive = refl;
  capacity = refl;
  room = omega arith;
  count = refl;
  fits = omega arith;
  used = refl;
  written = refl;
}

fmt_bytes-Refines_example :
    Refines
      (replicate 4 7)
      4
      (append_document (some []) (codes "abcdef"))
      (fmt_bytes fresh (codes "abcdef"))
fmt_bytes-Refines_example =
    fmt_bytes-Refines (replicate 4 7) 4 (some []) fresh (codes "abcdef") fresh-Refines

fmt_decimal_lem_example : IsRead 2147483647 (codes "d") (fmt_decimal (codes "2147483647d") 0)
fmt_decimal_lem_example = fmt_decimal_lem (codes "2147483647") (codes "d") refl refl

r4nv_vformat-sizes_example :
    (r4nv_vformat no_memory none 0 (some (codes "%5d|")) (0xffffffff ∷ [])
      ≡ ok (record { status = pos 6; buffer = [] }))
    × (r4nv_vformat no_memory (room 9) 7 (some (codes "%5d|")) (0xffffffff ∷ [])
        ≡ ok (record { status = pos 6; buffer = codes "   -1|" ++ 0 ∷ drop 7 (replicate 9 7) }))
r4nv_vformat-sizes_example =
    r4nv_vformat-sizes no_memory (replicate 9 7) 7 (codes "%5d|") (0xffffffff ∷ []) (codes "   -1|")
      (omega arith) signed_text (omega arith) (omega arith) (omega arith)

-- "%hhd" prints 0x185 as -123.
convert_number-Prints_example :
    Prints
      (replicate 4 7)
      4
      (some [])
      8
      0x85
      []
      (convert_number b'd' (plain char_length [] (0x185 ∷ [])) fresh)
convert_number-Prints_example =
    convert_number-Prints (replicate 4 7) 4 (some []) fresh char_length 0x185 [] [] fresh-Refines
