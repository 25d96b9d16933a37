-- ===== src/Format/Output/Appends.antt =====
-- r4nv_fmt_bytes of src/rm/format.h: what one more text does to an output.
use Prim.Native.Nat.{min}
use r4os_driver_nvidia.Base.{
  ℕ, ◌+◌, ◌-◌, ◌≤◌, ◌≡◌, refl, sym, ◌∙◌, ap, arith, false, List, [], ◌∷◌, ◌++◌, ◌==◌, ltb,
  if◌then◌else◌, length, take, drop, int_max, none, some, inl, inr, append_assoc, take_all, dec_le,
  length-append, Bool-cases, length-take, take-append, ltb→le,
}
use r4os_driver_nvidia.Format.Output.{
  Output, put_bytes, fmt_bytes, is_too_long, available, copied_part,
}
use r4os_driver_nvidia.Format.Output.Document.{
  Document, append_document, shown, overlay, Holds, put_bytes_lem, Refines, overlay-length,
  overlay-beyond, length-shown,
}

-- The space left, as the code computes it.
copied_part_lem :
    (t : List ℕ) (n cap start_used : ℕ)
    → start_used ≡ shown (length t) cap
    → copied_part n (if cap == 0 then 0 else cap - 1 - start_used)
      ≡ shown (length t + n) cap - length t
copied_part_lem t n cap start_used e = ground arith

take_more :
    (t text : List ℕ) (cap : ℕ)
    → take (shown (length t) cap) t ++ take (shown (length t + length text) cap - length t) text
      ≡ take (shown (length (t ++ text)) cap) (t ++ text)
take_more t text cap =
    rw (length-append t text, take-append (shown (length t + length text) cap) t text)
      (ap (λ a. a ++ take (shown (length t + length text) cap - length t) text) same)
  where
    same : take (shown (length t) cap) t ≡ take (shown (length t + length text) cap) t
    same = elim (dec_le (length t) (cap - 1)) [
      | yes p ↦
          take_all (shown (length t) cap) t (omega arith)
          ∙ sym (take_all (shown (length t + length text) cap) t (omega arith))
      | no p ↦
          ap (λ k. take k t) {x = shown (length t) cap} {y = shown (length t + length text) cap}
            (omega arith)
    ]

-- What the writing loop does to an output that holds `t`.
Holds-put :
    (start : List ℕ) (cap : ℕ) (t : List ℕ) (out : Output) (text : List ℕ)
    → Holds start cap t out
    → length t + length text ≤ int_max
    → Holds start cap (t ++ text) (
        put_bytes
          (take (copied_part (length text) (available out)) text)
          (record out { count = out.count + length text; failed = false }))
Holds-put start cap t out text h fits =
    rw (part, run)
      (record {
        alive = refl;
        capacity = h.capacity;
        room = h.room;
        count = omega (arith, h.count, length-append {0} t text);
        fits = omega (arith, length-append {0} t text);
        used = total;
        written = whole _ total;
      })
  where
    a : List ℕ
    a = take (shown (length t) cap) t

    k : ℕ
    k = shown (length t + length text) cap - length t

    part : copied_part (length text) (available out) ≡ k
    part = rw (h.capacity) (copied_part_lem t (length text) cap out.used h.used)

    len_a : length a ≡ shown (length t) cap
    len_a = length-shown t cap

    len_k : length (take k text) ≡ min k (length text)
    len_k = length-take k text

    total : length a + length (take k text) ≡ shown (length (t ++ text)) cap
    total = omega (arith, len_a, len_k, length-append {0} t text)

    run :
        put_bytes (take k text) (record out { count = out.count + length text; failed = false })
        ≡ record out {
          buffer = a ++ (take k text ++ drop (length a + length (take k text)) start);
          used = length a + length (take k text);
          count = out.count + length text;
          failed = false;
        }
    run =
        put_bytes_lem (take k text) a start
          (record out { count = out.count + length text; failed = false }) (h.used ∙ sym len_a)
          (rw len_a h.written) (omega (arith, len_a, len_k, h.room))

    whole :
        (u : ℕ)
        → u ≡ shown (length (t ++ text)) cap
        → a ++ (take k text ++ drop u start) ≡ overlay (t ++ text) cap start
    whole u e = rw e (
        sym (append_assoc a (take k text) _)
        ∙ ap (λ b. b ++ drop (shown (length (t ++ text)) cap) start) (take_more t text cap))

-- Where an output stands for a document (the text emitted so far, of which the buffer holds what
-- fits before the NUL, or none after an error), r4nv_fmt_bytes makes it stand for that document
-- with the bytes behind it, which is none if it passes INT_MAX bytes or was none before.
pub fmt_bytes-Refines :
    (start : List ℕ) (cap : ℕ) (d : Document) (out : Output) (text : List ℕ)
    → Refines start cap d out
    → Refines start cap (append_document d text) (fmt_bytes out text)
unfolding fmt_bytes
fmt_bytes-Refines start cap none out text b = simp b.dead b
fmt_bytes-Refines start cap (some t) out text h =
    simp (h.alive, too_long)
      (elim (Bool-cases (ltb int_max (length t + length text))) [
        | inl long ↦ rw long (record {
          dead = refl;
          capacity = h.capacity;
          room = h.room;
          same_length = rw h.written (overlay-length t start cap h.room);
          beyond = rw h.written (overlay-beyond t start cap);
        })
        | inr short ↦ rw short (Holds-put start cap t out text h (omega (arith, ltb→le _ _ short)))
      ])
  where
    too_long : is_too_long (length text) out ≡ ltb int_max (length t + length text)
    too_long = ground (arith, h.count, h.fits)

put_bytes-scanned : (text : List ℕ) (out : Output) → (put_bytes text out).scanned ≡ out.scanned
unfolding put_bytes
put_bytes-scanned [] out = refl
put_bytes-scanned (c ∷ text) out = put_bytes-scanned text _

pub fmt_bytes-scanned : (out : Output) (text : List ℕ) → (fmt_bytes out text).scanned ≡ out.scanned
unfolding fmt_bytes
fmt_bytes-scanned out text = elim (Bool-cases out.failed) [
  | inl dead ↦ simp dead refl
  | inr alive ↦ elim (Bool-cases (is_too_long (length text) out)) [
    | inl long ↦ simp (alive, long) refl
    | inr short ↦
        simp (alive, short)
          (put_bytes-scanned (take (copied_part (length text) (available out)) text) _)
  ]
]
