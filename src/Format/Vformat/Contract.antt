-- ===== src/Format/Vformat/Contract.antt =====
-- One round of r4nv_vformat (src/rm/format.h) emits its chunk of the format's text.
use r4os_driver_nvidia.Base.{
  ℕ, ◌+◌, ◌-◌, ◌≡◌, refl, ◌∙◌, arith, Bool, true, false, not, ◌&&◌, List, [], ◌∷◌, ◌++◌, some, none,
  ◌==◌, ltb, if◌then◌else◌, length, replicate, reverse, int_max, u8, append_assoc, append-nil,
  length-append, le→ltb,
}
use r4os_driver_nvidia.Memory.{Memory}
use r4os_driver_nvidia.Format.Outcome.{Outcome, undefined, rejected, ok, ◌>>=◌, va_arg}
use r4os_driver_nvidia.Format.Output.{Output, fmt_repeat, fmt_bytes}
use r4os_driver_nvidia.Format.Output.Document.{
  Document, append_document, Refines, fmt_repeat-fmt_bytes,
}
use r4os_driver_nvidia.Format.Output.Appends.{fmt_bytes-Refines, fmt_bytes-scanned}
use r4os_driver_nvidia.Format.Parse.{Directive}
use r4os_driver_nvidia.Format.Text.{
  Converted, put_field, convert_text, is_int_length, scan_text, text_at, format_limit,
}
use r4os_driver_nvidia.Format.Number.{
  Number, choose_number, make_digits, leading_zeroes, total_bytes, put_digits, put_number,
  convert_number,
}
use r4os_driver_nvidia.Format.Vformat.{Round}
use r4os_driver_nvidia.Format.Expansion.{
  fill_if, field_text, number_text, Chunk, text_chunk, number_chunk,
}

append_document-append :
    (d : Document) (a b : List ℕ)
    → append_document (append_document d a) b ≡ append_document d (a ++ b)
append_document-append none a b = refl
append_document-append (some t) a b =
    ground (arith, append_assoc t a b, length-append t a, length-append a b)

module _ (start : List ℕ) (cap : ℕ) where
  -- The output follows the document and has scanned `sc` bytes.
  abbrev pub Follows : Document → ℕ → Output → Type 0
  Follows d sc out = Refines start cap d out × (out.scanned ≡ sc)

  bytes-Follows :
      {sc : ℕ} (d : Document) (out : Output) (text : List ℕ)
      → Follows d sc out
      → Follows (append_document d text) sc (fmt_bytes out text)
  bytes-Follows d out text f =
      (fmt_bytes-Refines start cap d out text f.0, fmt_bytes-scanned out text ∙ f.1)

  nil-Follows :
      {sc : ℕ} (d : Document) (out : Output)
      → Follows d sc out
      → Follows (append_document d []) sc out
  nil-Follows none out f = f
  nil-Follows (some t) out f =
      rw (le→ltb int_max (length t + 0) (omega (arith, f.0.fits)), append-nil t) f

  pub repeat-Follows :
      {sc : ℕ} (d : Document) (out : Output) (ch n : ℕ)
      → Follows d sc out
      → Follows (append_document d (replicate n ch)) sc (fmt_repeat out ch n)
  repeat-Follows d out ch n f =
      rw (fmt_repeat-fmt_bytes out ch n) (bytes-Follows d out (replicate n ch) f)

  fill_if-Follows :
      {sc : ℕ} (b : Bool) (d : Document) (out : Output) (ch n : ℕ)
      → Follows d sc out
      → Follows (append_document d (fill_if b ch n)) sc (if b then fmt_repeat out ch n else out)
  fill_if-Follows true d out ch n f = repeat-Follows d out ch n f
  fill_if-Follows false d out ch n f = nil-Follows d out f

  put_digits-Follows :
      {sc : ℕ} (digits : List ℕ) (d : Document) (out : Output)
      → Follows d sc out
      → Follows (append_document d digits) sc (put_digits digits out)
  unfolding put_digits
  put_digits-Follows [] d out f = nil-Follows d out f
  put_digits-Follows (c ∷ digits) d out f =
      rw (← append_document-append d (c ∷ []) digits)
        (put_digits-Follows digits _ _ (repeat-Follows d out c 1 f))

  unless-Follows :
      {sc : ℕ} (b : Bool) (d : Document) (out : Output) (ch n : ℕ)
      → Follows d sc out
      → Follows
          (append_document d (fill_if (not b) ch n))
          sc
          (if b then out else fmt_repeat out ch n)
  unless-Follows true d out ch n f = nil-Follows d out f
  unless-Follows false d out ch n f = repeat-Follows d out ch n f

  put_field-Follows :
      {sc : ℕ} (e : Directive) (d : Document) (out : Output) (text : List ℕ)
      → Follows d sc out
      → Follows (append_document d (field_text e text)) sc (put_field e out text)
  unfolding put_field field_text
  put_field-Follows e d out text f =
      let p = if ltb (length text) e.width then e.width - length text else 0 in
      let pre = unless-Follows e.flags.left d out b' ' p f in
      let mid = bytes-Follows _ _ text pre in
      let post = fill_if-Follows e.flags.left _ _ b' ' p mid in
      rw
        (
          ← append_document-append d (fill_if (not e.flags.left) b' ' p)
              (text ++ fill_if e.flags.left b' ' p),
          ← append_document-append (append_document d (fill_if (not e.flags.left) b' ' p)) text
              (fill_if e.flags.left b' ' p),
        )
        post

  put_number-Follows :
      {sc : ℕ} (e : Directive) (n : Number) (z : ℕ) (digits : List ℕ) (p : ℕ) (d : Document)
      (out : Output)
      → Follows d sc out
      → Follows (append_document d (number_text e n z digits p)) sc (put_number e n z digits p out)
  unfolding put_number number_text
  put_number-Follows e n z digits p d out f =
      let left = e.flags.left in
      let zf = e.flags.zero_pad && not n.precise in
      let f1 = fill_if-Follows (not left && not zf) d out b' ' p f in
      let f2 = fill_if-Follows (not (n.sign == 0)) _ _ n.sign 1 f1 in
      let f3 = bytes-Follows _ _ n.prefix f2 in
      let f4 = fill_if-Follows (not left && zf) _ _ b'0' p f3 in
      let f5 = repeat-Follows _ _ b'0' z f4 in
      let f6 = put_digits-Follows (reverse digits) _ _ f5 in
      let f7 = fill_if-Follows left _ _ b' ' p f6 in
      simp (append_document-append, append_assoc) at f7

  rescan-Refines :
      (d : Document) (out : Output) (sc : ℕ)
      → Refines start cap d out
      → Refines start cap d (record out { scanned = sc })
  rescan-Refines none out sc b = record {
    dead = b.dead;
    capacity = b.capacity;
    room = b.room;
    same_length = b.same_length;
    beyond = b.beyond;
  }
  rescan-Refines (some t) out sc h = record {
    alive = h.alive;
    capacity = h.capacity;
    room = h.room;
    count = h.count;
    fits = h.fits;
    used = h.used;
    written = h.written;
  }

  -- A round ends as its chunk does, and a result has emitted the chunk's text on top of `d`.
  abbrev pub Agrees : Document → Outcome Chunk → Outcome Round → Type 0
  Agrees d undefined undefined = Unit
  Agrees d rejected rejected = Unit
  Agrees d (ok ch) (ok r) =
      (r.format ≡ ch.format)
      × (r.args ≡ ch.args)
      × Follows (append_document d ch.text) ch.scanned r.out
  Agrees _ _ _ = ⊥

  -- The same for a conversion, whose rest of the format is the directive's.
  abbrev pub AgreesIn : List ℕ → Document → Outcome Chunk → Outcome Converted → Type 0
  AgreesIn rest d undefined undefined = Unit
  AgreesIn rest d rejected rejected = Unit
  AgreesIn rest d (ok ch) (ok r) =
      (rest ≡ ch.format) × (r.args ≡ ch.args) × Follows (append_document d ch.text) ch.scanned r.out
  AgreesIn _ _ _ _ = ⊥

  AgreesIn-bind :
      {A : Type 0} (rest : List ℕ) (d : Document) (o : Outcome A) (f : A → Outcome Chunk)
      (g : A → Outcome Converted)
      → ((a : A) → AgreesIn rest d (f a) (g a))
      → AgreesIn rest d (o >>= f) (o >>= g)
  AgreesIn-bind rest d undefined f g h = tt
  AgreesIn-bind rest d rejected f g h = tt
  AgreesIn-bind rest d (ok a) f g h = h a

  AgreesIn-if :
      (rest : List ℕ) (d : Document) (b : Bool) (o1 o2 : Outcome Chunk) (p1 p2 : Outcome Converted)
      → AgreesIn rest d o1 p1
      → AgreesIn rest d o2 p2
      → AgreesIn rest d (if b then o1 else o2) (if b then p1 else p2)
  AgreesIn-if rest d true o1 o2 p1 p2 h k = h
  AgreesIn-if rest d false o1 o2 p1 p2 h k = k

  pub text-AgreesIn :
      {sc : ℕ} (m : Memory) (c : ℕ) (e : Directive) (d : Document) (out : Output)
      → Follows d sc out
      → AgreesIn e.rest d (text_chunk m c e sc) (convert_text m c e out)
  unfolding text_chunk convert_text
  text-AgreesIn {sc} m c e d out f =
      AgreesIn-if e.rest d (is_int_length e.size) _ _ _ _
        (AgreesIn-bind e.rest d (va_arg e.args) _ _ λ p.
          AgreesIn-if e.rest d (c == b'c') _ _ _ _
            (refl, refl, put_field-Follows e d out (u8 p.slot ∷ []) f)
            (rw f.1 (
              AgreesIn-bind e.rest d
                (scan_text (format_limit - sc) (text_at m p.slot) 0 e.precise e.precision sc) _ _
                λ r. (
                  refl,
                  refl,
                  put_field-Follows e d (record out { scanned = r.scanned }) r.text
                      (rescan-Refines d out r.scanned f.0, refl),
                ))))
        tt

  pub number-AgreesIn :
      {sc : ℕ} (c : ℕ) (e : Directive) (d : Document) (out : Output)
      → Follows d sc out
      → AgreesIn e.rest d (number_chunk c e sc) (convert_number c e out)
  unfolding number_chunk convert_number
  number-AgreesIn {sc} c e d out f = AgreesIn-bind e.rest d (choose_number c e) _ _ λ ch.
      AgreesIn-bind e.rest d (make_digits c ch.number) _ _ λ digits.
        let z = leading_zeroes c e ch.number digits in
        let total = total_bytes ch.number z digits in
        let p = if ltb total e.width then e.width - total else 0 in
        AgreesIn-if e.rest d (ltb int_max total) _ _ _ _ tt
          (refl, refl, put_number-Follows e ch.number z digits p d out f)

  pub lift-Agrees :
      (rest : List ℕ) (d : Document) (o : Outcome Chunk) (p : Outcome Converted)
      → AgreesIn rest d o p
      → Agrees d o (p >>= λ r. ok (record { format = rest; out = r.out; args = r.args }))
  lift-Agrees rest d undefined undefined h = h
  lift-Agrees rest d undefined rejected h = h
  lift-Agrees rest d undefined (ok r) h = h
  lift-Agrees rest d rejected undefined h = h
  lift-Agrees rest d rejected rejected h = h
  lift-Agrees rest d rejected (ok r) h = h
  lift-Agrees rest d (ok ch) undefined h = h
  lift-Agrees rest d (ok ch) rejected h = h
  lift-Agrees rest d (ok ch) (ok r) h = h
