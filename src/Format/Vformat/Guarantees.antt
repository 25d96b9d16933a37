-- ===== src/Format/Vformat/Guarantees.antt =====
-- What a caller of r4nv_vformat (src/rm/format.h) may rely on.
use r4os_driver_nvidia.Base.{
  ℕ, zero, suc, ◌+◌, ◌≤◌, ◌<◌, ◌≡◌, refl, ap, arith, List, [], ◌∷◌, some, none, ltb, length,
  int_max, Bool-cases, inl, inr, ◌⊎◌, pos, le→ltb, ltb→lt,
}
use r4os_driver_nvidia.Memory.{Memory}
use r4os_driver_nvidia.Format.Outcome.{Outcome, undefined, rejected, ok, VaList}
use r4os_driver_nvidia.Format.Output.Document.{Document, append_document}
use r4os_driver_nvidia.Format.Text.{format_limit}
use r4os_driver_nvidia.Format.Vformat.{Formatted, terminate, vformat_text, r4nv_vformat}
use r4os_driver_nvidia.Format.Vformat.NumberShrinks.{ChunkShrinks}
use r4os_driver_nvidia.Format.Vformat.Shrinks.{IsDefined, next_chunk-Shrinks}
use r4os_driver_nvidia.Format.Vformat.Snprintf.{
  displayed, IsRefused, Contract, vformat_text-Contract, terminate-IsRefused,
}
use r4os_driver_nvidia.Format.Expansion.{Chunk, next_chunk, expand, expansion}

-- The call behind its tests of the pointers and of the capacity.
admitted :
    (m : Memory) (b : List ℕ) (c : ℕ) (format : List ℕ) (args : VaList)
    → c ≤ format_limit
    → r4nv_vformat m (some b) c (some format) args ≡ vformat_text m (terminate c 0 b) c format args
unfolding r4nv_vformat
admitted m b c format args h = rw (le→ltb format_limit c h)

accepted-Contract :
    (m : Memory) (b : List ℕ) (c : ℕ) (format : List ℕ) (args : VaList)
    → c ≤ length b
    → c ≤ format_limit
    → length format < format_limit
    → Contract c b (expansion m format args) (r4nv_vformat m (some b) c (some format) args)
accepted-Contract m b c format args room h short =
    rw (admitted m b c format args h) (vformat_text-Contract m b c format args room short)

-- With a buffer at least as long as the capacity, a capacity of at most 65536 and a format
-- shorter than that: where the expansion of the format is a text, r4nv_vformat returns the length
-- of the whole text and leaves in the buffer as much of it as fits before a NUL, with the old
-- bytes behind.
pub r4nv_vformat-displays :
    (m : Memory) (b : List ℕ) (c : ℕ) (format : List ℕ) (args : VaList) (t : List ℕ)
    → c ≤ length b
    → c ≤ format_limit
    → length format < format_limit
    → expansion m format args ≡ ok t
    → r4nv_vformat m (some b) c (some format) args
      ≡ ok (record { status = pos (length t); buffer = displayed t c b })
r4nv_vformat-displays m b c format args t room h short e =
    cases (r4nv_vformat m (some b) c (some format) args)
      (rw e at (accepted-Contract m b c format args room h short))
  where
    cases :
        (o : Outcome Formatted)
        → Contract c b (ok t) o
        → o ≡ ok (record { status = pos (length t); buffer = displayed t c b })
    cases undefined k = absurd k
    cases rejected k = absurd k
    cases (ok r) k = ap ok k.0

-- With a buffer at least as long as the capacity, a capacity of at most 65536 and a format
-- shorter than that: where the expansion is rejected, r4nv_vformat returns -1 with an empty
-- string in the buffer (if the capacity is not 0), and nothing at or behind the capacity has
-- changed.
pub r4nv_vformat-rejects :
    (m : Memory) (b : List ℕ) (c : ℕ) (format : List ℕ) (args : VaList)
    → c ≤ length b
    → c ≤ format_limit
    → length format < format_limit
    → expansion m format args ≡ rejected
    → (r : Formatted) × (r4nv_vformat m (some b) c (some format) args ≡ ok r) × IsRefused c b r
r4nv_vformat-rejects m b c format args room h short e =
    cases (r4nv_vformat m (some b) c (some format) args)
      (rw e at (accepted-Contract m b c format args room h short))
  where
    cases :
        (o : Outcome Formatted)
        → Contract c b rejected o
        → (r : Formatted) × (o ≡ ok r) × IsRefused c b r
    cases undefined k = absurd k
    cases rejected k = absurd k
    cases (ok r) k = (r, refl, k)

expand-IsDefined :
    (fuel : ℕ) (m : Memory) (format t : List ℕ) (sc : ℕ) (args : VaList)
    → length format < fuel
    → length format ≤ length args
    → IsDefined (expand fuel m format t sc args)
unfolding expand
expand-IsDefined zero m format t sc args h k = absurd (omega arith)
expand-IsDefined (suc fuel) m [] t sc args h k = tt
expand-IsDefined (suc fuel) m (c ∷ rest) t sc args h k =
    cases (next_chunk m c rest sc args) (next_chunk-Shrinks m c rest sc args)
      λ ch t' short enough. expand-IsDefined fuel m ch.format t' ch.scanned ch.args short enough
  where
    cases :
        (o : Outcome Chunk)
        → ChunkShrinks (length rest) (length args) o
        → ((ch : Chunk) (t' : List ℕ)
            → length ch.format < fuel
            → length ch.format ≤ length ch.args
            → IsDefined (expand fuel m ch.format t' ch.scanned ch.args))
        → IsDefined (elim o [
          | undefined ↦ undefined
          | rejected ↦ rejected
          | ok ch ↦ elim (append_document (some t) (ch.text)) [
            | none ↦ rejected
            | some t' ↦ expand fuel m (ch.format) t' (ch.scanned) (ch.args)
          ]
        ])
    cases undefined s ih = absurd (omega arith)
    cases rejected s ih = tt
    cases (ok ch) s ih = document (append_document (some t) ch.text)
      where
        document :
            (d : Document)
            → IsDefined (elim d [
              | none ↦ rejected
              | some t' ↦ expand fuel m (ch.format) t' (ch.scanned) (ch.args)
            ])
        document none = tt
        document (some t') = ih ch t' (omega (arith, s)) (omega (arith, s))

-- A result that is an error, or the length of a text that an int can hold.
abbrev pub IsResult : ℕ → List ℕ → Formatted → Type 0
IsResult c b r = IsRefused c b r ⊎ ((n : ℕ) × (r.status ≡ pos n) × (n ≤ int_max))

-- With a buffer at least as long as the capacity, and as many arguments as the format has bytes,
-- r4nv_vformat always returns: it ends, reads no missing argument and writes no digit past its
-- array. It returns -1 with an empty string, or a length of at most INT_MAX.
pub r4nv_vformat-total :
    (m : Memory) (b : List ℕ) (c : ℕ) (format : List ℕ) (args : VaList)
    → c ≤ length b
    → length format ≤ length args
    → (r : Formatted) × (r4nv_vformat m (some b) c (some format) args ≡ ok r) × IsResult c b r
unfolding r4nv_vformat
r4nv_vformat-total m b c format args room enough = elim (Bool-cases (ltb format_limit c)) [
  | inl large ↦ rw large (_, refl, inl (terminate-IsRefused c b room))
  | inr fits ↦ elim (Bool-cases (ltb (length format) format_limit)) [
    | inl short ↦ rw (fits) (
        cases (expansion m format args) (vformat_text m (terminate c 0 b) c format args)
          (unfold expansion in
            expand-IsDefined (length format + 1) m format [] (length format + 1) args (omega arith)
              enough)
          (vformat_text-Contract m b c format args room (ltb→lt _ _ short)))
    | inr long ↦ rw (fits, long) (_, refl, inl (terminate-IsRefused c b room))
  ]
]
  where
    cases :
        (o : Outcome (List ℕ)) (p : Outcome Formatted)
        → IsDefined o
        → Contract c b o p
        → (r : Formatted) × (p ≡ ok r) × IsResult c b r
    cases undefined p d k = absurd d
    cases rejected undefined d k = absurd k
    cases rejected rejected d k = absurd k
    cases rejected (ok r) d k = (r, refl, inl k)
    cases (ok t) undefined d k = absurd k
    cases (ok t) rejected d k = absurd k
    cases (ok t) (ok r) d k = (r, refl, inr (length t, ap (λ q. q.status) k.0, k.1))
