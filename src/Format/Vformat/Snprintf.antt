-- ===== src/Format/Vformat/Snprintf.antt =====
-- The contract of snprintf for r4nv_vformat (src/rm/format.h), against the expansion of the format.
use r4os_driver_nvidia.Base.{
  ℕ, zero, suc, ◌+◌, ◌≤◌, ◌<◌, ◌≡◌, refl, ◌∙◌, ap, arith, false, List, [], ◌∷◌, ◌++◌, ◌==◌,
  if◌then◌else◌, length, set, take, drop, get_or, int_max, Bool-cases, inl, inr, ◌⊎◌, pos, negsuc,
  lt→ltb, set-append-drop, drop-set_inside, length-set, get_or-set_self,
}
use r4os_driver_nvidia.Memory.{Memory}
use r4os_driver_nvidia.Format.Outcome.{Outcome, undefined, rejected, ok, ◌>>=◌, VaList}
use r4os_driver_nvidia.Format.Output.{Output}
use r4os_driver_nvidia.Format.Output.Document.{Holds, IsBroken, shown, overlay, length-shown}
use r4os_driver_nvidia.Format.Text.{format_limit}
use r4os_driver_nvidia.Format.Vformat.{
  Formatted, format_loop, format_end, start_output, terminate, vformat_text,
}
use r4os_driver_nvidia.Format.Vformat.Loop.{LoopAgrees, loop-LoopAgrees}
use r4os_driver_nvidia.Format.Expansion.{expand, expansion}

-- What a caller finds in `buffer` for the text `t`: with a capacity, as much of the text as fits
-- before a NUL, and behind it the old bytes.
abbrev pub displayed : List ℕ → ℕ → List ℕ → List ℕ
displayed t capacity buffer =
    if capacity == 0
    then buffer
    else take (shown (length t) capacity) t ++ 0 ∷ drop (suc (shown (length t) capacity)) buffer

start-Holds :
    (start : List ℕ) (capacity n : ℕ)
    → capacity ≤ length start
    → Holds start capacity [] (start_output start capacity n)
start-Holds start capacity n h = record {
  alive = refl;
  capacity = refl;
  room = h;
  count = refl;
  fits = omega arith;
  used = omega arith;
  written = nothing _ (omega arith);
}
  where
    nothing : (k : ℕ) → k ≡ 0 → start ≡ take k [] ++ drop k start
    nothing k e = rw e

-- A failed call leaves an empty string, and nothing behind the capacity has changed.
pub record IsRefused (capacity : ℕ) (buffer : List ℕ) (r : Formatted) : Type 0 where
  pub status : r.status ≡ negsuc 0
  pub empty : (capacity ≡ 0) ⊎ (get_or r.buffer 0 1 ≡ 0)
  pub same_length : length r.buffer ≡ length buffer
  pub beyond : drop capacity r.buffer ≡ drop capacity buffer

suc-eqb : (c : ℕ) → (suc c == 0) ≡ false
suc-eqb c = ground arith

terminate-length : (c i : ℕ) (b : List ℕ) → length (terminate c i b) ≡ length b
terminate-length c i b = elim (Bool-cases (c == 0)) [
  | inl z ↦ rw z refl
  | inr z ↦ rw z (length-set b i 0)
]

terminate-beyond : (c : ℕ) (b : List ℕ) → drop c (terminate c 0 b) ≡ drop c b
terminate-beyond zero b = refl
terminate-beyond (suc c) b = rw (suc-eqb c) (drop-set_inside (suc c) 0 b 0 (omega arith))

terminate-empty : (c : ℕ) (b : List ℕ) → c ≤ length b → (c ≡ 0) ⊎ (get_or (terminate c 0 b) 0 1 ≡ 0)
terminate-empty zero b h = inl refl
terminate-empty (suc c) b h = inr (rw (suc-eqb c) (get_or-set_self b 0 0 1 (omega arith)))

pub terminate-IsRefused :
    (c : ℕ) (b : List ℕ)
    → c ≤ length b
    → IsRefused c b (record { status = negsuc 0; buffer = terminate c 0 b })
terminate-IsRefused c b h = record {
  status = refl;
  empty = terminate-empty c b h;
  same_length = terminate-length c 0 b;
  beyond = terminate-beyond c b;
}

broken-IsRefused :
    (c : ℕ) (b : List ℕ) (out : Output)
    → c ≤ length b
    → IsBroken (terminate c 0 b) c out
    → IsRefused c b (format_end out)
unfolding format_end
broken-IsRefused c b out h k =
    simp (k.dead, k.capacity)
      (record {
        status = refl;
        empty = terminate-empty c out.buffer (omega (arith, k.same_length, terminate-length c 0 b));
        same_length = terminate-length c 0 out.buffer ∙ k.same_length ∙ terminate-length c 0 b;
        beyond = terminate-beyond c out.buffer ∙ k.beyond ∙ terminate-beyond c b;
      })

display :
    (c : ℕ) (t b : List ℕ)
    → c ≤ length b
    → terminate c (shown (length t) c) (overlay t c (terminate c 0 b)) ≡ displayed t c b
display zero t b h = let nothing : shown (length t) 0 ≡ 0 = omega arith in rw nothing
display (suc c) t b h =
    rw (suc-eqb c) (at (shown (length t) (suc c)) (length-shown t (suc c)) (omega arith))
  where
    at :
        (k : ℕ)
        → length (take (shown (length t) (suc c)) t) ≡ k
        → k < length b
        → set (take (shown (length t) (suc c)) t ++ drop k (set b 0 0)) k 0
          ≡ take (shown (length t) (suc c)) t ++ 0 ∷ drop (suc k) b
    at k e lt = rw (← e) (
        set-append-drop (take (shown (length t) (suc c)) t) (set b 0 0) 0
          (omega (arith, length-set {0} b 0 0))
        ∙ ap (λ l. take (shown (length t) (suc c)) t ++ 0 ∷ l)
            (drop-set_inside (suc (length (take (shown (length t) (suc c)) t))) 0 b 0
              (omega arith)))

Holds-display :
    (c : ℕ) (t b : List ℕ) (out : Output)
    → c ≤ length b
    → Holds (terminate c 0 b) c t out
    → format_end out ≡ record { status = pos (length t); buffer = displayed t c b }
unfolding format_end
Holds-display c t b out h k =
    simp (k.alive, k.capacity, k.count, k.used, k.written)
      (ap (λ l. record { status = pos (length t); buffer = l }) (display c t b h))

-- r4nv_vformat behind its first tests, as the expansion goes.
abbrev pub Contract : ℕ → List ℕ → Outcome (List ℕ) → Outcome Formatted → Type 0
Contract c b undefined undefined = Unit
Contract c b rejected (ok r) = IsRefused c b r
Contract c b (ok t) (ok r) =
    (r ≡ record { status = pos (length t); buffer = displayed t c b }) × (length t ≤ int_max)
Contract _ _ _ _ = ⊥

pub vformat_text-Contract :
    (m : Memory) (b : List ℕ) (c : ℕ) (format : List ℕ) (args : VaList)
    → c ≤ length b
    → length format < format_limit
    → Contract c b (expansion m format args) (vformat_text m (terminate c 0 b) c format args)
unfolding vformat_text expansion
vformat_text-Contract m b c format args h short = rw (lt→ltb _ _ short) (
    cases (expand (length format + 1) m format [] (length format + 1) args)
      (format_loop (length format + 1) m format (start_output (terminate c 0 b) c (length format))
        args)
      (loop-LoopAgrees (terminate c 0 b) c (length format + 1) m format [] (length format + 1) args
        (start_output (terminate c 0 b) c (length format)) (omega arith)
        (start-Holds (terminate c 0 b) c (length format) (rw (terminate-length c 0 b) h), refl)))
  where
    cases :
        (o : Outcome (List ℕ)) (p : Outcome Output)
        → LoopAgrees (terminate c 0 b) c o p
        → Contract c b o (p >>= λ out. ok (format_end out))
    cases undefined undefined a = tt
    cases undefined rejected a = absurd a
    cases undefined (ok out) a = absurd a
    cases rejected undefined a = absurd a
    cases rejected rejected a = absurd a
    cases rejected (ok out) a = broken-IsRefused c b out h a
    cases (ok t) undefined a = absurd a
    cases (ok t) rejected a = absurd a
    cases (ok t) (ok out) a = (Holds-display c t b out h a, a.fits)
