-- ===== src/Format/Vformat/Loop.antt =====
-- The loop of r4nv_vformat (src/rm/format.h) emits the whole text of the format, and ends.
use r4os_driver_nvidia.Base.{
  ℕ, zero, suc, ◌<◌, ◌≡◌, refl, arith, Bool, true, false, not, ◌||◌, List, [], ◌∷◌, some, none,
  ◌==◌, if◌then◌else◌, length, Bool-cases, inl, inr,
}
use r4os_driver_nvidia.Memory.{Memory}
use r4os_driver_nvidia.Format.Outcome.{Outcome, undefined, rejected, ok, ◌>>=◌, VaList}
use r4os_driver_nvidia.Format.Output.{Output}
use r4os_driver_nvidia.Format.Output.Document.{
  Document, append_document, Holds, IsBroken, overlay-length, overlay-beyond,
}
use r4os_driver_nvidia.Format.Parse.{Directive, read_directive, starts, tail}
use r4os_driver_nvidia.Format.Vformat.{
  Round, is_text_conversion, conversion_at, convert, format_round, format_loop,
}
use r4os_driver_nvidia.Format.Vformat.NumberShrinks.{ChunkShrinks}
use r4os_driver_nvidia.Format.Vformat.Shrinks.{next_chunk-Shrinks}
use r4os_driver_nvidia.Format.Vformat.Contract.{
  Follows, Agrees, text-AgreesIn, number-AgreesIn, lift-Agrees, repeat-Follows,
}
use r4os_driver_nvidia.Format.Expansion.{Chunk, directive_chunk, next_chunk, expand}

if-false {ℓ} : {A : Type ℓ} {b : Bool} (x y : A) → b ≡ false → (if b then x else y) ≡ y
if-false x y e = rw e

module _ (start : List ℕ) (cap : ℕ) where
  Agrees-if :
      (d : Document) (b : Bool) (o1 o2 : Outcome Chunk) (p1 p2 : Outcome Round)
      → Agrees start cap d o1 p1
      → Agrees start cap d o2 p2
      → Agrees start cap d (if b then o1 else o2) (if b then p1 else p2)
  Agrees-if d true o1 o2 p1 p2 h k = h
  Agrees-if d false o1 o2 p1 p2 h k = k

  convert-Agrees :
      (d : Document) (sc : ℕ) (m : Memory) (e : Directive) (out : Output)
      → Follows start cap d sc out
      → Agrees start cap d (directive_chunk m e sc) (convert m e out)
  unfolding directive_chunk convert
  convert-Agrees d sc m e out f = elim (Bool-cases (e.failed || length e.rest == 0)) [
    | inl t ↦ simp t tt
    | inr t ↦ elim (Bool-cases (is_text_conversion (conversion_at e.rest))) [
      | inl x ↦
          simp (t, x)
            (lift-Agrees start cap (tail e.rest) d _ _ (
              text-AgreesIn start cap m (conversion_at e.rest) (record e { rest = tail e.rest }) d
                out f))
      | inr x ↦
          simp (t, x)
            (lift-Agrees start cap (tail e.rest) d _ _ (
              number-AgreesIn start cap (conversion_at e.rest) (record e { rest = tail e.rest }) d
                out f))
    ]
  ]

  round-Agrees :
      (d : Document) (sc : ℕ) (m : Memory) (c : ℕ) (rest : List ℕ) (args : VaList) (out : Output)
      → Follows start cap d sc out
      → Agrees start cap d (next_chunk m c rest sc args) (format_round m c rest out args)
  unfolding next_chunk format_round
  round-Agrees d sc m c rest args out f =
      Agrees-if d (not (c == b'%')) _ _ _ _ (refl, refl, repeat-Follows start cap d out c 1 f)
        (Agrees-if d (starts b'%' rest) _ _ _ _
          (refl, refl, repeat-Follows start cap d out b'%' 1 f) (cases (read_directive rest args)))
    where
      cases :
          (o : Outcome Directive)
          → Agrees start cap d (o >>= λ e. directive_chunk m e sc) (o >>= λ e. convert m e out)
      cases undefined = tt
      cases rejected = tt
      cases (ok e) = convert-Agrees d sc m e out f

  -- The loop ends as the expansion does: with the whole text emitted, or failed.
  abbrev pub LoopAgrees : Outcome (List ℕ) → Outcome Output → Type 0
  LoopAgrees undefined undefined = Unit
  LoopAgrees rejected (ok out) = IsBroken start cap out
  LoopAgrees (ok t) (ok out) = Holds start cap t out
  LoopAgrees _ _ = ⊥

  -- A failed output ends the loop.
  broken-LoopAgrees :
      (fuel : ℕ) (m : Memory) (format : List ℕ) (args : VaList) (out : Output)
      → 0 < fuel
      → IsBroken start cap out
      → LoopAgrees rejected (format_loop fuel m format out args)
  unfolding format_loop
  broken-LoopAgrees zero m format args out pos b = absurd (omega arith)
  broken-LoopAgrees (suc fuel) m [] args out pos b = b
  broken-LoopAgrees (suc fuel) m (c ∷ rest) args out pos b = simp b.dead b

  rejected-IsBroken :
      (t : List ℕ) (out : Output)
      → Holds start cap t out
      → IsBroken start cap (record out { failed = true })
  rejected-IsBroken t out h = record {
    dead = refl;
    capacity = h.capacity;
    room = h.room;
    same_length = rw h.written (overlay-length t start cap h.room);
    beyond = rw h.written (overlay-beyond t start cap);
  }

  -- With fuel above the format's length, the loop emits the format's expansion.
  pub loop-LoopAgrees :
      (fuel : ℕ) (m : Memory) (format t : List ℕ) (sc : ℕ) (args : VaList) (out : Output)
      → length format < fuel
      → Follows start cap (some t) sc out
      → LoopAgrees (expand fuel m format t sc args) (format_loop fuel m format out args)
  unfolding expand format_loop
  loop-LoopAgrees zero m format t sc args out h f = absurd (omega arith)
  loop-LoopAgrees (suc fuel) m [] t sc args out h f = f.0
  loop-LoopAgrees (suc fuel) m (c ∷ rest) t sc args out h f = rw (if-false _ _ f.0.alive) (
      cases (next_chunk m c rest sc args) (format_round m c rest out args)
        (round-Agrees (some t) sc m c rest args out f) (next_chunk-Shrinks m c rest sc args)
        (λ ch r t' fits g. loop-LoopAgrees fuel m ch.format t' ch.scanned ch.args r.out fits g))
    where
      cases :
          (o : Outcome Chunk) (p : Outcome Round)
          → Agrees start cap (some t) o p
          → ChunkShrinks (length rest) (length args) o
          → ((ch : Chunk) (r : Round) (t' : List ℕ)
              → length ch.format < fuel
              → Follows start cap (some t') ch.scanned r.out
              → LoopAgrees
                  (expand fuel m ch.format t' ch.scanned ch.args)
                  (format_loop fuel m ch.format r.out ch.args))
          → LoopAgrees
              (elim o [
                | undefined ↦ undefined
                | rejected ↦ rejected
                | ok ch ↦ elim (append_document (some t) (ch.text)) [
                  | none ↦ rejected
                  | some t' ↦ expand fuel m (ch.format) t' (ch.scanned) (ch.args)
                ]
              ])
              (elim p [
                | undefined ↦ undefined
                | rejected ↦ ok (record out { failed = true })
                | ok r ↦ format_loop fuel m (r.format) (r.out) (r.args)
              ])
      cases undefined undefined a s ih = tt
      cases undefined rejected a s ih = absurd a
      cases undefined (ok r) a s ih = absurd a
      cases rejected undefined a s ih = absurd a
      cases rejected rejected a s ih = rejected-IsBroken t out f.0
      cases rejected (ok r) a s ih = absurd a
      cases (ok ch) undefined a s ih = absurd a
      cases (ok ch) rejected a s ih = absurd a
      cases (ok ch) (ok r) a s ih = rw (a.0, a.1) (document (append_document (some t) ch.text) a.2)
        where
          document :
              (d : Document)
              → Follows start cap d ch.scanned r.out
              → LoopAgrees
                  (elim d [
                    | none ↦ rejected
                    | some t' ↦ expand fuel m (ch.format) t' (ch.scanned) (ch.args)
                  ])
                  (format_loop fuel m (ch.format) (r.out) (ch.args))
          document none g = broken-LoopAgrees fuel m ch.format ch.args r.out (omega (arith, s)) g.0
          document (some t') g = ih ch r t' (omega (arith, s)) g
