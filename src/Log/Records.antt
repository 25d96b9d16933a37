-- ===== src/Log/Records.antt =====
-- The log records of src/rm/os_log.c, against the text that the format stands for.
use r4os_driver_nvidia.Base.{
  ℕ, zero, suc, ◌+◌, ◌/◌, ◌%◌, ◌≤◌, ◌<◌, ◌≡◌, refl, ◌∙◌, ap, arith, true, false, List, [], ◌∷◌,
  ◌++◌, some, ◌||◌, ltb, leb, if◌then◌else◌, length, set, take, drop, ℤ, pos, negsuc, append-nil,
  drop_all, take_all, dec_le, le→ltb, lt→ltb, length-append, length-take,
}
use r4os_driver_nvidia.Memory.{Memory}
use r4os_driver_nvidia.Format.Outcome.{rejected, ok, VaList}
use r4os_driver_nvidia.Format.Text.{format_limit}
use r4os_driver_nvidia.Format.Vformat.{os_vsnprintf}
use r4os_driver_nvidia.Format.Output.Document.{shown}
use r4os_driver_nvidia.Format.Expansion.{expansion}
use r4os_driver_nvidia.Format.Vformat.Snprintf.{displayed}
use r4os_driver_nvidia.Format.Vformat.Guarantees.{r4nv_vformat-displays, r4nv_vformat-rejects}
use r4os_driver_nvidia.Log.{
  put_at, log_finish, log_bytes, marker, invalid_format, Logged, is_negative, os_record, severity,
  nv_printf,
}

le→leb : (a b : ℕ) → a ≤ b → leb a b ≡ true
le→leb a b h = ground arith

lt→leb : (a b : ℕ) → b < a → leb a b ≡ false
lt→leb a b h = ground arith

put_at-suc :
    (i x : ℕ) (text buffer : List ℕ) → put_at (suc i) text (x ∷ buffer) ≡ x ∷ put_at i text buffer
unfolding put_at
put_at-suc i x [] buffer = refl
put_at-suc i x (c ∷ text) buffer =
    let e : suc i + 1 ≡ suc (i + 1) = omega arith in
    rw e (put_at-suc (i + 1) x text (set buffer i c))

put_at-nil : (i : ℕ) (buffer : List ℕ) → put_at i [] buffer ≡ buffer
unfolding put_at
put_at-nil i buffer = refl

put_at-cons :
    (c x : ℕ) (text buffer : List ℕ) → put_at 0 (c ∷ text) (x ∷ buffer) ≡ c ∷ put_at 0 text buffer
unfolding put_at
put_at-cons c x text buffer = put_at-suc 0 c text buffer

-- The loop overwrites one stretch of the buffer.
put_at_lem :
    (i : ℕ) (text buffer : List ℕ)
    → i + length text ≤ length buffer
    → put_at i text buffer ≡ take i buffer ++ (text ++ drop (i + length text) buffer)
put_at_lem zero [] buffer h = put_at-nil 0 buffer
put_at_lem zero (c ∷ text) [] h = absurd (omega arith)
put_at_lem zero (c ∷ text) (x ∷ buffer) h =
    let e : 0 + suc (length text) ≡ suc (0 + length text) = omega arith in
    rw e (put_at-cons c x text buffer ∙ ap (◌∷◌ c) (put_at_lem zero text buffer (omega arith)))
put_at_lem (suc i) [] [] h = absurd (omega arith)
put_at_lem (suc i) (c ∷ text) [] h = absurd (omega arith)
put_at_lem (suc i) text (x ∷ buffer) h =
    let e : suc i + length text ≡ suc (i + length text) = omega arith in
    rw e (put_at-suc i x text buffer ∙ ap (◌∷◌ x) (put_at_lem i text buffer (omega arith)))

-- What a log record holds for the text `t`: all of it with its NUL, or its first 499 bytes and the
-- marker.
abbrev pub recorded : List ℕ → List ℕ → List ℕ
recorded t buffer =
    if ltb (length t) log_bytes then t ++ 0 ∷ drop (suc (length t)) buffer else take 499 t ++ marker

take_prefix :
    (n k : ℕ) (t rest : List ℕ) → n ≤ k → k ≤ length t → take n (take k t ++ rest) ≡ take n t
take_prefix zero k t rest h l = refl
take_prefix (suc n) zero t rest h l = absurd (omega arith)
take_prefix (suc n) (suc k) [] rest h l = absurd (omega arith)
take_prefix (suc n) (suc k) (x ∷ t) rest h l =
    ap (◌∷◌ x) (take_prefix n k t rest (omega arith) (omega arith))

-- The marker `w` over the end of a full buffer.
mark :
    (w t buffer : List ℕ)
    → length w ≡ 13
    → length buffer ≡ log_bytes
    → log_bytes ≤ length t
    → put_at 499 w (take 511 t ++ 0 ∷ drop 512 buffer) ≡ take 499 t ++ w
mark w t buffer size room long =
    let whole : length (take 511 t ++ 0 ∷ drop 512 buffer) ≡ 512 =
      rw
        (
          length-append (take 511 t) (0 ∷ drop 512 buffer),
          length-take 511 t,
          drop_all 512 buffer (omega (arith, room)),
        )
        (omega arith) in
    let end : 499 + length w ≡ 512 = omega arith in
    put_at_lem 499 w _ (omega (arith, whole))
    ∙ rw
        (
          end,
          drop_all 512 (take 511 t ++ 0 ∷ drop 512 buffer) (omega (arith, whole)),
          take_prefix 499 511 t (0 ∷ drop 512 buffer) (omega arith) (omega arith),
          append-nil w,
        )
        refl

displayed-recorded :
    (t buffer : List ℕ)
    → length buffer ≡ log_bytes
    → log_finish (displayed t log_bytes buffer) (pos (length t)) ≡ recorded t buffer
unfolding log_finish
displayed-recorded t buffer room = elim (dec_le 512 (length t)) [
  | yes long ↦
      let full : shown (length t) 512 ≡ 511 = omega arith in
      rw (le→leb 512 (length t) long, le→ltb (length t) 512 long, full)
        (mark marker t buffer refl room long)
  | no short ↦
      let all : shown (length t) 512 ≡ length t = omega arith in
      rw
        (
          lt→leb 512 (length t) (omega arith),
          lt→ltb (length t) 512 (omega arith),
          all,
          take_all (length t) t (omega arith),
        )
        refl
]

-- For a buffer of 512 bytes and a format shorter than 65536 bytes whose expansion is a text, the
-- record of nv_printf and os_log_error is the whole text with its NUL if it is shorter than 512
-- bytes, and else its first 499 bytes and " [truncated]" with a NUL.
pub os_record-displays :
    (m : Memory) (buffer : List ℕ) (format : List ℕ) (args : VaList) (t : List ℕ)
    → length buffer ≡ log_bytes
    → length format < format_limit
    → expansion m format args ≡ ok t
    → os_record m buffer (some format) args
      ≡ ok (record { text = recorded t buffer; count = pos (length t) })
unfolding os_record os_vsnprintf
os_record-displays m buffer format args t room short e =
    rw
      (
        r4nv_vformat-displays m buffer log_bytes format args t (omega (arith, room)) (omega arith)
            short e,
        displayed-recorded t buffer room,
      )
      refl

refusal :
    (buffer : List ℕ)
    → length buffer ≡ log_bytes
    → log_finish buffer (negsuc 0) ≡ invalid_format ++ drop 49 buffer
unfolding log_finish
refusal buffer room = put_at_lem 0 invalid_format buffer (omega (arith, room))

-- For a buffer of 512 bytes and a format shorter than 65536 bytes whose expansion is rejected,
-- the record starts with the message that says so and its NUL, and the count is -1.
pub os_record-rejects :
    (m : Memory) (buffer : List ℕ) (format : List ℕ) (args : VaList)
    → length buffer ≡ log_bytes
    → length format < format_limit
    → expansion m format args ≡ rejected
    → (rest : List ℕ) × (os_record m buffer (some format) args
        ≡ ok (record { text = invalid_format ++ rest; count = negsuc 0 }))
unfolding os_record os_vsnprintf
os_record-rejects m buffer format args room short e =
    let (r, run, refused) =
      r4nv_vformat-rejects m buffer log_bytes format args (omega (arith, room)) (omega arith) short
        e in
    (drop 49 r.buffer, rw (run, refused.status, refusal r.buffer (refused.same_length ∙ room)) refl)

-- An error as -1.
abbrev pub at_least_minus_one : ℤ → ℤ
at_least_minus_one (pos n) = pos n
at_least_minus_one (negsuc n) = negsuc 0

returned_value : (v : ℤ) → (if false || is_negative v then negsuc 0 else v) ≡ at_least_minus_one v
returned_value (pos n) = refl
returned_value (negsuc n) = refl

-- For a buffer of 512 bytes, a format shorter than 65536 bytes whose expansion is a text, and a
-- level that is not below the threshold, nv_printf submits the text's record once, with the
-- severity of the level, and returns what the log returned, an error as -1.
pub nv_printf-submits {ℓ} :
    {S : Type ℓ} (r4nv_log : ℕ → List ℕ → S → Logged S) (debug_level level : ℕ) (m : Memory)
    (buffer format : List ℕ) (args : VaList) (t : List ℕ) (s : S)
    → debug_level / 16 % 4 ≤ level
    → length buffer ≡ log_bytes
    → length format < format_limit
    → expansion m format args ≡ ok t
    → nv_printf r4nv_log debug_level level m buffer (some format) args s
      ≡ ok (record {
        value = at_least_minus_one (r4nv_log (severity level) (recorded t buffer) s).value;
        state = (r4nv_log (severity level) (recorded t buffer) s).state;
      })
unfolding nv_printf
nv_printf-submits r4nv_log debug_level level m buffer format args t s high room short e =
    rw
      (
        le→ltb level (debug_level / 16 % 4) high,
        os_record-displays m buffer format args t room short e,
        returned_value (r4nv_log (severity level) (recorded t buffer) s).value,
      )
      refl
