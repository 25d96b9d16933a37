-- ===== src/Format/Vformat/NumberShrinks.antt =====
-- The integer conversions of r4nv_vformat (src/rm/format.h) read one argument and leave the format.
use r4os_driver_nvidia.Base.{
  ℕ, suc, ◌-◌, ◌≤◌, ◌<◌, ◌≡◌, refl, arith, not, ◌||◌, List, [], ◌∷◌, ◌==◌, ltb, if◌then◌else◌,
  int_max, length, Bool-cases, inl, inr, ◌^◌,
}
use r4os_driver_nvidia.Format.Outcome.{Outcome, undefined, rejected, ok, ◌>>=◌, VaList, va_arg}
use r4os_driver_nvidia.Format.Parse.{Directive, int_length, char_length, short_length, Length}
use r4os_driver_nvidia.Format.Parse.Shrinks.{Consumes}
use r4os_driver_nvidia.Format.Text.{is_int_length}
use r4os_driver_nvidia.Format.Number.{
  is_alphanumeric, is_signed_conversion, is_unsigned_conversion, Number, Chosen, choose_number,
  make_digits, leading_zeroes, total_bytes, fmt_signed, fmt_unsigned, pointer_number, signed_number,
  unsigned_number,
}
use r4os_driver_nvidia.Format.Number.Digits.{digit_loop_64}
use r4os_driver_nvidia.Format.Expansion.{Chunk, number_text, number_chunk}

-- A chunk is undefined only if there are fewer arguments than characters.
abbrev pub ChunkShrinks : ℕ → ℕ → Outcome Chunk → Type 0
ChunkShrinks before passed undefined = passed < before
ChunkShrinks before passed rejected = Unit
ChunkShrinks before passed (ok ch) = Consumes before passed (length ch.format) (length ch.args)

-- What the digit loop needs of a number.
abbrev IsSane : Number → Type 0
IsSane n = (8 ≤ n.radix) × (n.radix ≤ 16) × (n.value < 2 ^ 64)

make_digits-total :
    (c : ℕ) (n : Number) → IsSane n → (digits : List ℕ) × (make_digits c n ≡ ok digits)
unfolding make_digits
make_digits-total c n h =
    elim (Bool-cases (not (n.value == 0) || (not n.precise || not (n.precision == 0)))) [
      | inl t ↦
          let (digits, run, _) = digit_loop_64 (c == b'X') n.radix n.value h.0 h.1 h.2 in
          simp t (digits, run)
      | inr t ↦ simp t ([], refl)
    ]

fmt_signed-lt : (slot : ℕ) (l : Length) → fmt_signed slot l < 2 ^ 64
unfolding fmt_signed
fmt_signed-lt slot int_length = ground arith
fmt_signed-lt slot char_length = ground arith
fmt_signed-lt slot short_length = ground arith
fmt_signed-lt slot _ = omega arith

fmt_unsigned-lt : (slot : ℕ) (l : Length) → fmt_unsigned slot l < 2 ^ 64
unfolding fmt_unsigned
fmt_unsigned-lt slot int_length = omega arith
fmt_unsigned-lt slot _ = omega arith

signed_number-IsSane : (d : Directive) (slot : ℕ) → IsSane (signed_number d slot)
unfolding signed_number
signed_number-IsSane d slot = ground (arith, fmt_signed-lt slot d.size)

unsigned_number-IsSane : (c : ℕ) (d : Directive) (slot : ℕ) → IsSane (unsigned_number c d slot)
unfolding unsigned_number
unsigned_number-IsSane c d slot = ground (arith, fmt_unsigned-lt slot d.size)

pointer_number-IsSane : (d : Directive) (slot : ℕ) → IsSane (pointer_number d slot)
unfolding pointer_number
pointer_number-IsSane d slot = omega arith

-- A conversion takes one argument, and has a number for the digit loop.
abbrev ChosenShrinks : VaList → Outcome Chosen → Type 0
ChosenShrinks args undefined = length args < 1
ChosenShrinks args rejected = Unit
ChosenShrinks args (ok c) = IsSane c.number × (suc (length c.args) ≡ length args)

take_number-ChosenShrinks :
    (args : VaList) (f : ℕ → Number)
    → ((slot : ℕ) → IsSane (f slot))
    → ChosenShrinks args (va_arg args >>= λ p. ok (record { number = f p.slot; args = p.args }))
take_number-ChosenShrinks [] f h = omega arith
take_number-ChosenShrinks (slot ∷ args) f h = (h slot, refl)

choose_number-ChosenShrinks : (c : ℕ) (d : Directive) → ChosenShrinks d.args (choose_number c d)
unfolding choose_number
choose_number-ChosenShrinks c d = elim (Bool-cases (c == b'p')) [
  | inl p ↦ elim (Bool-cases (not (is_int_length d.size) || is_alphanumeric d.rest)) [
    | inl bad ↦ simp (p, bad) tt
    | inr good ↦
        simp (p, good)
          (take_number-ChosenShrinks d.args (pointer_number d) (pointer_number-IsSane d))
  ]
  | inr p ↦ elim (Bool-cases (is_signed_conversion c)) [
    | inl s ↦
        simp (p, s) (take_number-ChosenShrinks d.args (signed_number d) (signed_number-IsSane d))
    | inr s ↦ elim (Bool-cases (is_unsigned_conversion c)) [
      | inl u ↦
          simp (p, s, u)
            (take_number-ChosenShrinks d.args (unsigned_number c d) (unsigned_number-IsSane c d))
      | inr u ↦ simp (p, s, u) tt
    ]
  ]
]

pub number_chunk-Shrinks :
    (c : ℕ) (d : Directive) (sc : ℕ)
    → ChunkShrinks (suc (length d.rest)) (length d.args) (number_chunk c d sc)
unfolding number_chunk
number_chunk-Shrinks c d sc = cases (choose_number c d) (choose_number-ChosenShrinks c d)
  where
    rest_of : Chosen → List ℕ → Outcome Chunk
    rest_of ch digits =
        let z = leading_zeroes c d ch.number digits in
        let total = total_bytes ch.number z digits in
        let p = if ltb total d.width then d.width - total else 0 in
        if ltb int_max total
        then rejected
        else ok (record {
          text = number_text d ch.number z digits p;
          format = d.rest;
          scanned = sc;
          args = ch.args;
        })

    emission :
        (ch : Chosen) (digits : List ℕ)
        → suc (length ch.args) ≡ length d.args
        → ChunkShrinks (suc (length d.rest)) (length d.args) (rest_of ch digits)
    emission ch digits e =
        elim (Bool-cases
          (ltb int_max (total_bytes ch.number (leading_zeroes c d ch.number digits) digits))) [
            | inl t ↦ rw t tt
            | inr t ↦ rw t (omega arith)
          ]

    cases :
        (o : Outcome Chosen)
        → ChosenShrinks d.args o
        → ChunkShrinks
            (suc (length d.rest))
            (length d.args)
            (o >>= λ ch. make_digits c ch.number >>= λ digits. rest_of ch digits)
    cases undefined h = omega arith
    cases rejected h = tt
    cases (ok ch) h =
        let (digits, run) = make_digits-total c ch.number h.0 in rw run (emission ch digits h.1)
