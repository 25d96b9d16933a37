-- ===== src/Format/Vformat/SignedText.antt =====
-- The text that the conversion d puts out (r4nv_vformat of src/rm/format.h): the argument in two's
-- complement.
use mathlib.Core.Path.{subst}
use r4os_driver_nvidia.Base.{
  ℕ, ◌+◌, ◌-◌, ◌*◌, ◌%◌, ◌^◌, ◌≤◌, ◌<◌, ◌≡◌, ◌⊎◌, inl, inr, refl, ◌∙◌, ap, arith, Bool, true, false,
  not, ◌||◌, List, [], ◌∷◌, ◌++◌, append-nil, ◌==◌, ltb, if◌then◌else◌, length, reverse, int_max,
  le→ltb,
}
use r4os_driver_nvidia.Format.Outcome.{Outcome, undefined, rejected, ok, VaList}
use r4os_driver_nvidia.Format.Output.{Output}
use r4os_driver_nvidia.Format.Output.Document.{Document, append_document, Refines}
use r4os_driver_nvidia.Format.Parse.{
  Directive, Length, int_length, char_length, short_length, long_length, llong_length, size_length,
  ptrdiff_length, maxint_length, directive_start, no_flags,
}
use r4os_driver_nvidia.Format.Text.{Converted}
use r4os_driver_nvidia.Format.Number.{
  Number, fmt_signed, signed_number, choose_number, digit_loop, make_digits, leading_zeroes,
  convert_number,
}
use r4os_driver_nvidia.Format.Number.Digits.{IsNumeral, digit_loop_64}
use r4os_driver_nvidia.Format.Expansion.{fill_if, Chunk, number_text, number_chunk}
use r4os_driver_nvidia.Format.Vformat.Contract.{AgreesIn, number-AgreesIn}

-- The bits of an argument, from its length modifier.
abbrev pub bits_of : Length → ℕ
bits_of int_length = 32
bits_of char_length = 8
bits_of short_length = 16
bits_of long_length = 64
bits_of llong_length = 64
bits_of size_length = 64
bits_of ptrdiff_length = 64
bits_of maxint_length = 64

-- The directive of a plain d with a length modifier.
abbrev pub plain : Length → List ℕ → VaList → Directive
plain l rest args = record (directive_start no_flags rest args) { size = l }

-- A text is that of the `w`-bit pattern `x` as a signed number: its shortest decimal digits, or a minus
-- and the digits of the distance to 2 ^ w.
abbrev pub IsSignedText : ℕ → ℕ → List ℕ → Type 0
IsSignedText w x text =
    (digits : List ℕ) × (magnitude : ℕ) × IsNumeral 10 magnitude 22 digits
    × (((2 * x < 2 ^ w) × (magnitude ≡ x) × (text ≡ reverse digits))
        ⊎ ((2 ^ w ≤ 2 * x) × (magnitude + x ≡ 2 ^ w) × (text ≡ b'-' ∷ reverse digits)))

or_true : (b : Bool) → (b || true) ≡ true
or_true true = refl
or_true false = refl

no_padding : (total : ℕ) → (if ltb total 0 then 0 - total else 0) ≡ 0
no_padding total = ground arith

sign_byte : (s : ℕ) → (if s == 0 then 0 else 1) ≤ 1
sign_byte s = ground arith

sign_text : (b : Bool) (s : ℕ) → fill_if (not b) s 1 ≡ (if b then [] else s ∷ [])
sign_text true s = refl
sign_text false s = refl

abbrev plain_number : ℕ → ℕ → Number
plain_number value sign = record {
  value = value;
  radix = 10;
  sign = sign;
  prefix = [];
  precise = false;
  precision = 0;
}

-- Sign and value of the number that is chosen.
chosen_sign :
    (l : Length) (slot : ℕ) (rest : List ℕ) (args : VaList)
    → let n = signed_number (plain l rest args) slot in
      let x = slot % 2 ^ bits_of l in
      ((2 * x < 2 ^ bits_of l) × (n.value ≡ x) × (n.sign ≡ 0) × (n.value < 2 ^ 64))
      ⊎ ((2 ^ bits_of l ≤ 2 * x)
          × (n.value + x ≡ 2 ^ bits_of l)
          × (n.sign ≡ b'-')
          × (n.value < 2 ^ 64))
unfolding signed_number fmt_signed
chosen_sign int_length slot rest args = ground arith
chosen_sign char_length slot rest args = ground arith
chosen_sign short_length slot rest args = ground arith
chosen_sign long_length slot rest args = ground arith
chosen_sign llong_length slot rest args = ground arith
chosen_sign size_length slot rest args = ground arith
chosen_sign ptrdiff_length slot rest args = ground arith
chosen_sign maxint_length slot rest args = ground arith

choose_number-plain :
    (l : Length) (slot : ℕ) (rest : List ℕ) (args : VaList)
    → let n = signed_number (plain l rest (slot ∷ args)) slot in
      choose_number b'd' (plain l rest (slot ∷ args))
      ≡ ok (record { number = plain_number n.value n.sign; args = args })
unfolding choose_number signed_number
choose_number-plain l slot rest args = refl

-- The chunk of a number without prefix, precision and width.
plain_chunk :
    (l : Length) (value sign slot : ℕ) (rest : List ℕ) (args : VaList) (sc : ℕ) (digits : List ℕ)
    → choose_number b'd' (plain l rest (slot ∷ args))
      ≡ ok (record { number = plain_number value sign; args = args })
    → digit_loop 64 false 10 value ≡ ok digits
    → length digits ≤ 22
    → number_chunk b'd' (plain l rest (slot ∷ args)) sc
      ≡ ok (record {
        text = (if sign == 0 then [] else sign ∷ []) ++ reverse digits;
        format = rest;
        scanned = sc;
        args = args;
      })
unfolding number_chunk make_digits leading_zeroes number_text
plain_chunk l value sign slot rest args sc digits chosen run short =
    let total = length digits + 0 + 0 + (if sign == 0 then 0 else 1) in
    rw (chosen, or_true (not (value == 0)), run)
      (rw (no_padding total, le→ltb int_max total (omega (arith, short, sign_byte sign)))
        (rw (append-nil (reverse digits)) (
          ap
            (λ t.
              ok (record { text = t ++ reverse digits; format = rest; scanned = sc; args = args }))
            (sign_text (sign == 0) sign))))

signed_chunk :
    (l : Length) (slot : ℕ) (rest : List ℕ) (args : VaList) (sc : ℕ)
    → (text : List ℕ) × IsSignedText (bits_of l) (slot % 2 ^ bits_of l) text
      × (number_chunk b'd' (plain l rest (slot ∷ args)) sc
          ≡ ok (record { text = text; format = rest; scanned = sc; args = args }))
signed_chunk l slot rest args sc =
    let n = signed_number (plain l rest (slot ∷ args)) slot in
    let chunk =
      λ (digits : List ℕ) (run : digit_loop 64 false 10 n.value ≡ ok digits)
          (short : length digits ≤ 22).
        plain_chunk l n.value n.sign slot rest args sc digits (choose_number-plain l slot rest args)
          run short in
    let with_sign : List ℕ → ℕ → Outcome Chunk = λ digits s. ok (record {
      text = (if s == 0 then [] else s ∷ []) ++ reverse digits;
      format = rest;
      scanned = sc;
      args = args;
    }) in
    elim (chosen_sign l slot rest (slot ∷ args)) [
      | inl (low, same, none_sign, small) ↦
          let (digits, run, num) =
            digit_loop_64 false 10 n.value (omega arith) (omega arith) small in
          (
            reverse digits,
            (digits, n.value, num, inl (low, same, refl)),
            chunk digits run num.short ∙ ap (with_sign digits) none_sign,
          )
      | inr (high, sum, minus, small) ↦
          let (digits, run, num) =
            digit_loop_64 false 10 n.value (omega arith) (omega arith) small in
          (
            b'-' ∷ reverse digits,
            (digits, n.value, num, inr (high, sum, refl)),
            chunk digits run num.short ∙ ap (with_sign digits) minus,
          )
    ]

-- How a conversion ends: with the argument consumed and an output that stands for the text so far and
-- the signed text behind it.
abbrev pub Prints : List ℕ → ℕ → Document → ℕ → ℕ → VaList → Outcome Converted → Type 0
Prints start cap d w x args undefined = ⊥
Prints start cap d w x args rejected = ⊥
Prints start cap d w x args (ok r) =
    (text : List ℕ) × IsSignedText w x text
    × (r.args ≡ args)
    × Refines start cap (append_document d text) r.out

-- The conversion d with a length modifier, without flags, width and precision, consumes one argument
-- and prints its low 8, 16, 32 or 64 bits as a signed number: the shortest decimal digits where the
-- top bit is clear, and else a minus and the digits of the distance to the power of two. The output
-- then stands for what was printed before with this text behind it, cut where the buffer ends.
pub convert_number-Prints :
    (start : List ℕ) (cap : ℕ) (d : Document) (out : Output) (l : Length) (slot : ℕ) (rest : List ℕ)
    (args : VaList)
    → Refines start cap d out
    → Prints start cap d
        (bits_of l)
        (slot % 2 ^ bits_of l)
        args
        (convert_number b'd' (plain l rest (slot ∷ args)) out)
convert_number-Prints start cap d out l slot rest args refines =
    let (text, signed, run) = signed_chunk l slot rest args out.scanned in
    let agrees =
      number-AgreesIn start cap {sc = out.scanned} b'd' (plain l rest (slot ∷ args)) d out
        (refines, refl) in
    cases text signed _ _ run agrees
  where
    cases :
        (text : List ℕ)
        → IsSignedText (bits_of l) (slot % 2 ^ bits_of l) text
        → (o : Outcome Chunk) (p : Outcome Converted)
        → o ≡ ok (record { text = text; format = rest; scanned = out.scanned; args = args })
        → AgreesIn start cap rest d o p
        → Prints start cap d (bits_of l) (slot % 2 ^ bits_of l) args p
    cases text signed undefined p e h = absurd (cc)
    cases text signed rejected p e h = absurd (cc)
    cases text signed (ok ch) undefined e h = h
    cases text signed (ok ch) rejected e h = h
    cases text signed (ok ch) (ok r) e h =
        let same : ch ≡ record { text = text; format = rest; scanned = out.scanned; args = args } =
          cc in
        (
          text,
          signed,
          h.1 ∙ ap (λ c. c.args) same,
          subst (λ t. Refines start cap (append_document d t) r.out) (ap (λ c. c.text) same) h.2.0,
        )
