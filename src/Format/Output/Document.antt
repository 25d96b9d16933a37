-- ===== src/Format/Output/Document.antt =====
-- The contract of snprintf for r4nv_fmt_repeat and r4nv_fmt_bytes (src/rm/format.h): the output
-- stands for the whole text emitted so far, of which the buffer holds what fits.
use Prim.Native.Nat.{min}
use r4os_driver_nvidia.Base.{
  ℕ, zero, suc, ◌+◌, ◌-◌, ◌≤◌, ◌≡◌, refl, ◌∙◌, ap, arith, true, false, List, [], ◌∷◌, ◌++◌, ltb,
  if◌then◌else◌, length, set, take, drop, replicate, int_max, Option, none, some, append_assoc,
  append-nil, drop_all, length-append-drop, set-append-drop, length-append, length-replicate,
  take-replicate, length-take,
}
use r4os_driver_nvidia.Format.Output.{
  Output, put_repeat, put_bytes, fmt_repeat, fmt_bytes, is_too_long, available, copied_part,
}

-- The text emitted so far; `none` when it passed INT_MAX bytes.
abbrev pub Document : Type 0
Document = Option (List ℕ)

abbrev pub append_document : Document → List ℕ → Document
append_document none text = none
append_document (some t) text =
    if ltb int_max (length t + length text) then none else some (t ++ text)

-- How many bytes of a text of length `n` a buffer of capacity `cap` shows before its NUL.
abbrev pub shown : ℕ → ℕ → ℕ
shown n cap = min n (cap - 1)

-- The buffer `start` after the part of `t` that fits was written to its beginning.
abbrev pub overlay : List ℕ → ℕ → List ℕ → List ℕ
overlay t cap start = take (shown (length t) cap) t ++ drop (shown (length t) cap) start

pub record Holds (start : List ℕ) (cap : ℕ) (t : List ℕ) (out : Output) : Type 0 where
  pub alive : out.failed ≡ false
  pub capacity : out.capacity ≡ cap
  pub room : cap ≤ length start
  pub count : out.count ≡ length t
  pub fits : length t ≤ int_max
  pub used : out.used ≡ shown (length t) cap
  pub written : out.buffer ≡ overlay t cap start

-- The writing loop, from a buffer that holds `a`.
pub put_bytes_lem :
    (text a start : List ℕ) (out : Output)
    → out.used ≡ length a
    → out.buffer ≡ a ++ drop (length a) start
    → length a + length text ≤ length start
    → put_bytes text out ≡ record out {
      buffer = a ++ (text ++ drop (length a + length text) start);
      used = length a + length text;
    }
unfolding put_bytes
put_bytes_lem [] a start out u w h =
    let e : length a + 0 ≡ length a = omega arith in rw (e, ← w, ← u)
put_bytes_lem (c ∷ text) a start out u w h =
    put_bytes_lem text (a ++ c ∷ []) start _ (omega (arith, last)) (rw (u, w) next)
      (omega (arith, last))
    ∙ λ i. record out { buffer = whole i; used = total i }
  where
    last : length (a ++ c ∷ []) ≡ suc (length a)
    last = omega (arith, length-append {0} a (c ∷ []))

    next :
        set (a ++ drop (length a) start) (length a) c
        ≡ (a ++ c ∷ []) ++ drop (length (a ++ c ∷ [])) start
    next =
        rw (last, append_assoc a (c ∷ []) (drop (suc (length a)) start))
          (set-append-drop a start c (omega arith))

    total : length (a ++ c ∷ []) + length text ≡ length a + suc (length text)
    total = omega (arith, last)

    whole :
        (a ++ c ∷ []) ++ (text ++ drop (length (a ++ c ∷ []) + length text) start)
        ≡ a ++ c ∷ (text ++ drop (length a + suc (length text)) start)
    whole = rw total (append_assoc a (c ∷ []) _)

put_repeat_lem : (n ch : ℕ) (out : Output) → put_repeat n ch out ≡ put_bytes (replicate n ch) out
unfolding put_repeat put_bytes
put_repeat_lem zero ch out = refl
put_repeat_lem (suc n) ch out = put_repeat_lem n ch _

copied_replicate :
    (n room ch : ℕ) → replicate (copied_part n room) ch ≡ take (copied_part n room) (replicate n ch)
copied_replicate n room ch =
    let e : min (copied_part n room) n ≡ copied_part n room = ground arith in
    rw (take-replicate (copied_part n room) n ch, e)

pub fmt_repeat-fmt_bytes :
    (out : Output) (ch n : ℕ) → fmt_repeat out ch n ≡ fmt_bytes out (replicate n ch)
unfolding fmt_repeat fmt_bytes
fmt_repeat-fmt_bytes out ch n =
    rw (length-replicate n ch, put_repeat_lem (copied_part n (available out)) ch)
      (ap
        (λ t.
          if out.failed
          then out
          else if is_too_long n out
          then record out { failed = true }
          else put_bytes t (record out { count = out.count + n }))
        (copied_replicate n (available out) ch))

-- After a failure the output is left alone; nothing was written at or behind the capacity.
pub record IsBroken (start : List ℕ) (cap : ℕ) (out : Output) : Type 0 where
  pub dead : out.failed ≡ true
  pub capacity : out.capacity ≡ cap
  pub room : cap ≤ length start
  pub same_length : length out.buffer ≡ length start
  pub beyond : drop cap out.buffer ≡ drop cap start

abbrev pub Refines : List ℕ → ℕ → Document → Output → Type 0
Refines start cap none out = IsBroken start cap out
Refines start cap (some t) out = Holds start cap t out

pub length-shown :
    (t : List ℕ) (cap : ℕ) → length (take (shown (length t) cap) t) ≡ shown (length t) cap
length-shown t cap = omega (arith, length-take {0} (shown (length t) cap) t)

pub shown_le :
    (t start : List ℕ) (cap : ℕ) → cap ≤ length start → shown (length t) cap ≤ length start
shown_le t start cap h = omega arith

pub overlay-length :
    (t start : List ℕ) (cap : ℕ) → cap ≤ length start → length (overlay t cap start) ≡ length start
overlay-length t start cap h = at _ (length-shown t cap) (shown_le t start cap h)
  where
    at :
        (k : ℕ)
        → length (take (shown (length t) cap) t) ≡ k
        → k ≤ length start
        → length (take (shown (length t) cap) t ++ drop k start) ≡ length start
    at k e h = rw (← e) (length-append-drop (take (shown (length t) cap) t) start (rw e h))

drop_behind :
    (a start : List ℕ) (cap : ℕ)
    → length a ≤ cap
    → drop cap (a ++ drop (length a) start) ≡ drop cap start
drop_behind [] start cap h = refl
drop_behind (x ∷ a) start zero h = absurd (omega arith)
drop_behind (x ∷ a) [] (suc cap) h = rw append-nil (drop_all cap a (omega arith))
drop_behind (x ∷ a) (y ∷ start) (suc cap) h = drop_behind a start cap (omega arith)

pub overlay-beyond : (t start : List ℕ) (cap : ℕ) → drop cap (overlay t cap start) ≡ drop cap start
overlay-beyond t start cap = at _ (length-shown t cap)
  where
    at :
        (k : ℕ)
        → length (take (shown (length t) cap) t) ≡ k
        → drop cap (take (shown (length t) cap) t ++ drop k start) ≡ drop cap start
    at k e =
        rw (← e) (
          drop_behind (take (shown (length t) cap) t) start cap (omega (arith, length-shown t cap)))
