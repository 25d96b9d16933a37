-- ===== src/Format/Vformat/Shrinks.antt =====
-- Each round of r4nv_vformat (src/rm/format.h) reads at least a character, and no more arguments
-- than characters.
use r4os_driver_nvidia.Base.{
  ℕ, zero, suc, ◌+◌, ◌-◌, ◌≡◌, refl, ap, arith, Bool, false, not, ◌||◌, ◌&&◌, List, [], ◌∷◌, ◌==◌,
  ltb, if◌then◌else◌, u8, length, Bool-cases, inl, inr,
}
use r4os_driver_nvidia.Memory.{Memory}
use r4os_driver_nvidia.Format.Outcome.{Outcome, undefined, rejected, ok, ◌>>=◌, VaList, va_arg}
use r4os_driver_nvidia.Format.Parse.{Directive, read_directive, starts, tail}
use r4os_driver_nvidia.Format.Parse.Shrinks.{Consumes, Shrinks, read_directive-Shrinks, tail-le}
use r4os_driver_nvidia.Format.Text.{is_int_length, scan_text, text_at, format_limit, Scan}
use r4os_driver_nvidia.Format.Vformat.{is_text_conversion, conversion_at}
use r4os_driver_nvidia.Format.Expansion.{
  Chunk, string_chunk, field_text, text_chunk, directive_chunk, next_chunk,
}
use r4os_driver_nvidia.Format.Vformat.NumberShrinks.{ChunkShrinks, number_chunk-Shrinks}

abbrev pub IsDefined {ℓ} : {A : Type ℓ} → Outcome A → Type 0
IsDefined undefined = ⊥
IsDefined _ = Unit

scan_text-IsDefined :
    (left : ℕ) (text : ℕ → ℕ) (i : ℕ) (precise : Bool) (precision sc : ℕ)
    → IsDefined (scan_text left text i precise precision sc)
unfolding scan_text
scan_text-IsDefined zero text i precise precision sc =
    elim (Bool-cases (precise && not (ltb i precision))) [ inl t ↦ rw t tt | inr t ↦ rw t tt ]
scan_text-IsDefined (suc left) text i precise precision sc =
    elim (Bool-cases (precise && not (ltb i precision))) [
      | inl t ↦ rw t tt
      | inr t ↦ elim (Bool-cases (text i == 0)) [
        | inl z ↦ rw (t, z) tt
        | inr z ↦
            rw (t, z)
              (more (scan_text left text (i + 1) precise precision (sc + 1))
                (scan_text-IsDefined left text (i + 1) precise precision (sc + 1)))
      ]
    ]
  where
    more :
        (o : Outcome Scan)
        → IsDefined o
        → IsDefined {A = Scan}
            (o >>= λ r. ok (record { text = text i ∷ r.text; scanned = r.scanned }))
    more undefined h = h
    more rejected h = tt
    more (ok r) h = tt

string_chunk-Shrinks :
    (m : Memory) (d : Directive) (sc pointer : ℕ) (args : VaList)
    → suc (length args) ≡ length d.args
    → ChunkShrinks (suc (length d.rest)) (length d.args) (string_chunk m d sc pointer args)
string_chunk-Shrinks m d sc pointer args e =
    cases (scan_text (format_limit - sc) (text_at m pointer) 0 d.precise d.precision sc)
      (scan_text-IsDefined (format_limit - sc) (text_at m pointer) 0 d.precise d.precision sc)
  where
    cases :
        (o : Outcome Scan)
        → IsDefined o
        → ChunkShrinks (suc (length d.rest)) (length d.args) (
            o >>= λ r. ok (record {
              text = field_text d r.text;
              format = d.rest;
              scanned = r.scanned;
              args = args;
            }))
    cases undefined h = absurd h
    cases rejected h = tt
    cases (ok r) h = omega arith

text_chunk-Shrinks :
    (m : Memory) (c : ℕ) (d : Directive) (sc : ℕ)
    → ChunkShrinks (suc (length d.rest)) (length d.args) (text_chunk m c d sc)
unfolding text_chunk
text_chunk-Shrinks m c d sc = elim (Bool-cases (is_int_length d.size)) [
  | inl t ↦ simp t (taken (d.args) refl)
  | inr t ↦ simp t tt
]
  where
    taken :
        (args : VaList)
        → args ≡ d.args
        → ChunkShrinks (suc (length d.rest)) (length d.args) (
            va_arg args >>= λ p.
            if c == b'c'
            then ok (record {
              text = field_text d (u8 p.slot ∷ []);
              format = d.rest;
              scanned = sc;
              args = p.args;
            })
            else string_chunk m d sc p.slot p.args)
    taken [] e = omega (arith, ap (length {0} {A = ℕ}) e)
    taken (slot ∷ args) e = elim (Bool-cases (c == b'c')) [
      | inl t ↦ rw t (omega (arith, ap (length {0} {A = ℕ}) e))
      | inr t ↦ rw t (string_chunk-Shrinks m d sc slot args (ap length e))
    ]

tail_as :
    (d : Directive) → (length d.rest == 0) ≡ false → suc (length (tail d.rest)) ≡ length d.rest
tail_as d h = cases d.rest h
  where
    cases : (l : List ℕ) → (length l == 0) ≡ false → suc (length (tail l)) ≡ length l
    cases [] h = cc
    cases (c ∷ l) h = refl

directive_chunk-Shrinks :
    (m : Memory) (d : Directive) (sc : ℕ)
    → ChunkShrinks (length d.rest) (length d.args) (directive_chunk m d sc)
unfolding directive_chunk
directive_chunk-Shrinks m d sc = elim (Bool-cases (d.failed || length d.rest == 0)) [
  | inl t ↦ simp t tt
  | inr t ↦
      let e : suc (length (tail d.rest)) ≡ length d.rest = tail_as d (ground (arith, t)) in
      elim (Bool-cases (is_text_conversion (conversion_at d.rest))) [
        | inl x ↦
            simp (t, x, ← e)
              (text_chunk-Shrinks m (conversion_at d.rest) (record d { rest = tail d.rest }) sc)
        | inr x ↦
            simp (t, x, ← e)
              (number_chunk-Shrinks (conversion_at d.rest) (record d { rest = tail d.rest }) sc)
      ]
]

-- Each round reads at least the character it starts at, and one for each argument. It is
-- undefined only if fewer arguments than characters are left.
pub next_chunk-Shrinks :
    (m : Memory) (c : ℕ) (rest : List ℕ) (sc : ℕ) (args : VaList)
    → ChunkShrinks (length rest) (length args) (next_chunk m c rest sc args)
unfolding next_chunk
next_chunk-Shrinks m c rest sc args = elim (Bool-cases (not (c == b'%'))) [
  | inl t ↦ rw t (omega arith)
  | inr t ↦ elim (Bool-cases (starts b'%' rest)) [
    | inl p ↦ rw (t, p) (omega (arith, tail-le rest))
    | inr p ↦ rw (t, p) (cases (read_directive rest args) (read_directive-Shrinks rest args))
  ]
]
  where
    weaken :
        (d : Directive) (o : Outcome Chunk)
        → Consumes (length rest) (length args) (length d.rest) (length d.args)
        → ChunkShrinks (length d.rest) (length d.args) o
        → ChunkShrinks (length rest) (length args) o
    weaken d undefined h s = omega arith
    weaken d rejected h s = tt
    weaken d (ok ch) h s = omega arith

    cases :
        (o : Outcome Directive)
        → Shrinks rest args o
        → ChunkShrinks (length rest) (length args) (o >>= λ d. directive_chunk m d sc)
    cases undefined h = h
    cases rejected h = tt
    cases (ok d) h = weaken d (directive_chunk m d sc) h (directive_chunk-Shrinks m d sc)
