-- ===== src/Format/Parse/Shrinks.antt =====
-- Reading a directive (src/rm/format.h) consumes a character for each argument that it takes.
use r4os_driver_nvidia.Base.{
  ℕ, suc, ◌+◌, ◌-◌, ◌*◌, ◌≤◌, ◌<◌, ◌≡◌, refl, arith, true, List, [], ◌∷◌, length, Bool-cases, inl,
  inr, u32,
}
use r4os_driver_nvidia.Format.Outcome.{
  Outcome, undefined, rejected, ok, ◌>>=◌, VaList, Popped, va_arg,
}
use r4os_driver_nvidia.Format.Parse.{
  Flags, Directive, is_flag, set_flag, read_flags, fmt_decimal, starts, tail, read_width,
  read_precision, read_length, read_directive, width_argument, precision_argument, directive_start,
  no_flags,
}

-- Of `before` characters and `passed` arguments, `after` and `left` remain.
abbrev pub Consumes : ℕ → ℕ → ℕ → ℕ → Type 0
Consumes before passed after left = (after ≤ before) × (passed + after ≤ before + left)

-- A step from `format` and `args` is undefined only if there are fewer arguments than characters.
abbrev pub Shrinks : List ℕ → VaList → Outcome Directive → Type 0
Shrinks format args undefined = length args < length format
Shrinks format args rejected = Unit
Shrinks format args (ok d) = Consumes (length format) (length args) (length d.rest) (length d.args)

pub Shrinks-bind :
    (format : List ℕ) (args : VaList) (o : Outcome Directive) (f : Directive → Outcome Directive)
    → Shrinks format args o
    → ((d : Directive) → Shrinks d.rest d.args (f d))
    → Shrinks format args (o >>= f)
Shrinks-bind format args undefined f h k = h
Shrinks-bind format args rejected f h k = tt
Shrinks-bind format args (ok d) f h k = weaken (f d) (k d)
  where
    weaken : (o : Outcome Directive) → Shrinks d.rest d.args o → Shrinks format args o
    weaken undefined s = omega (arith, h)
    weaken rejected s = tt
    weaken (ok e) s = omega (arith, h)

Shrinks-va_arg :
    (format : List ℕ) (args : VaList) (f : Popped → Outcome Directive)
    → 0 < length format
    → ((p : Popped) → suc (length p.args) ≡ length args → Shrinks format args (f p))
    → Shrinks format args (va_arg args >>= f)
Shrinks-va_arg format [] f pos h = pos
Shrinks-va_arg format (slot ∷ args) f pos h = h _ refl

pub starts-tail :
    (c : ℕ) (format : List ℕ) → starts c format ≡ true → suc (length (tail format)) ≡ length format
starts-tail c [] h = cc
starts-tail c (x ∷ format) h = refl

pub tail-le : (format : List ℕ) → length (tail format) ≤ length format
tail-le [] = omega arith
tail-le (x ∷ format) = omega arith

read_flags-Shrinks :
    (format : List ℕ) (f : Flags) → length (read_flags format f).rest ≤ length format
unfolding read_flags
read_flags-Shrinks [] f = omega arith
read_flags-Shrinks (c ∷ format) f = elim (Bool-cases (is_flag c)) [
  | inl t ↦ rw t (omega (arith, read_flags-Shrinks format (set_flag c f)))
  | inr t ↦ rw t (omega arith)
]

fmt_decimal-Shrinks : (format : List ℕ) (n : ℕ) → length (fmt_decimal format n).rest ≤ length format
unfolding fmt_decimal
fmt_decimal-Shrinks [] n = omega arith
fmt_decimal-Shrinks (c ∷ format) n =
    ground (arith, fmt_decimal-Shrinks format (n * 10 + (c - b'0')))

read_width-Shrinks : (d : Directive) → Shrinks d.rest d.args (read_width d)
unfolding read_width
read_width-Shrinks d = elim (Bool-cases (starts b'*' d.rest)) [
  | inl t ↦ simp t (
      Shrinks-va_arg d.rest d.args _ (omega (arith, starts-tail b'*' d.rest t)) λ p e.
        argument (record d { rest = tail d.rest; args = p.args }) (u32 p.slot)
          (omega (arith, starts-tail b'*' d.rest t, e)))
  | inr t ↦ simp t (omega (arith, fmt_decimal-Shrinks d.rest 0))
]
  where
    argument :
        (e : Directive) (value : ℕ)
        → Consumes (length d.rest) (length d.args) (length e.rest) (length e.args)
        → Shrinks d.rest d.args (width_argument e value)
    argument e value h = ground arith

read_precision-Shrinks : (d : Directive) → Shrinks d.rest d.args (read_precision d)
unfolding read_precision
read_precision-Shrinks d = elim (Bool-cases (starts b'.' d.rest)) [
  | inl t ↦ elim (Bool-cases (starts b'*' (tail d.rest))) [
    | inl s ↦
        simp (t, s)
          (Shrinks-va_arg d.rest d.args _ (omega (arith, starts-tail b'.' d.rest t)) λ p e.
            argument (record d { rest = tail (tail d.rest); args = p.args; precise = true })
              (u32 p.slot)
              (omega (arith, starts-tail b'.' d.rest t, starts-tail b'*' (tail d.rest) s, e)))
    | inr s ↦
        simp (t, s) (omega (arith, starts-tail b'.' d.rest t, fmt_decimal-Shrinks (tail d.rest) 0))
  ]
  | inr t ↦ simp t (omega arith)
]
  where
    argument :
        (e : Directive) (value : ℕ)
        → Consumes (length d.rest) (length d.args) (length e.rest) (length e.args)
        → Shrinks d.rest d.args (ok (precision_argument e value))
    argument e value h = ground arith

read_length-Consumes :
    (d : Directive)
    → Consumes
        (length d.rest)
        (length d.args)
        (length (read_length d).rest)
        (length (read_length d).args)
unfolding read_length
read_length-Consumes d = ground (arith, tail-le d.rest, tail-le (tail d.rest))

-- Up to the conversion character, the format shrinks by at least the arguments taken.
pub read_directive-Shrinks :
    (format : List ℕ) (args : VaList) → Shrinks format args (read_directive format args)
unfolding read_directive
read_directive-Shrinks format args =
    Shrinks-bind format args (read_width first) (λ d. read_precision d >>= ending)
      (widen (read_width first) (read_width-Shrinks first))
      λ d.
        Shrinks-bind d.rest d.args (read_precision d) ending (read_precision-Shrinks d)
          read_length-Consumes
  where
    ending : Directive → Outcome Directive
    ending e = ok (read_length e)

    first : Directive
    first =
        directive_start (read_flags format no_flags).flags (read_flags format no_flags).rest args

    widen :
        (o : Outcome Directive)
        → Shrinks (read_flags format no_flags).rest args o
        → Shrinks format args o
    widen undefined s = omega (arith, read_flags-Shrinks format no_flags)
    widen rejected s = tt
    widen (ok e) s = omega (arith, read_flags-Shrinks format no_flags)
