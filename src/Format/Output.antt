-- ===== src/Format/Output.antt =====
-- struct r4nv_fmt_output, r4nv_fmt_repeat and r4nv_fmt_bytes of src/rm/format.h.
pub mod Document
pub mod Appends
use r4os_driver_nvidia.Base.{
  ℕ, zero, suc, ◌+◌, ◌-◌, ◌%◌, ◌^◌, Bool, true, false, List, [], ◌∷◌, ◌==◌, ltb, if◌then◌else◌,
  length, set, take, int_max, u32,
}

-- `buffer` is the caller's `data`, as long as `capacity`.
pub record Output : Type 0 where
  pub buffer : List ℕ
  pub capacity : ℕ
  pub used : ℕ
  pub scanned : ℕ
  pub count : ℕ
  pub failed : Bool

-- for (i = 0; i < copied; ++i) out->data[out->used++] = ch;
unfoldable pub put_repeat : ℕ → ℕ → Output → Output
put_repeat zero ch out = out
put_repeat (suc copied) ch out =
    put_repeat copied ch (record out { buffer = set out.buffer out.used ch; used = out.used + 1 })

-- for (i = 0; i < copied; ++i) out->data[out->used++] = text[i];
unfoldable pub put_bytes : List ℕ → Output → Output
put_bytes [] out = out
put_bytes (c ∷ text) out =
    put_bytes text (record out { buffer = set out.buffer out.used c; used = out.used + 1 })

-- out->capacity == 0 ? 0 : out->capacity - 1 - out->used
abbrev pub available : Output → ℕ
available out = if out.capacity == 0 then 0 else out.capacity - 1 - out.used

-- count < available ? count : available
abbrev pub copied_part : ℕ → ℕ → ℕ
copied_part count room = if ltb count room then count else room

-- count > (unsigned)INT_MAX - out->count
abbrev pub is_too_long : ℕ → Output → Bool
is_too_long count out = ltb (u32 (int_max + 2 ^ 32 - out.count)) count

unfoldable pub fmt_repeat : Output → ℕ → ℕ → Output
unfolding put_repeat
fmt_repeat out ch count =
    if out.failed
    then out
    else if is_too_long count out
    then record out { failed = true }
    else put_repeat (copied_part count (available out)) ch
        (record out { count = out.count + count })

-- `text` is the array and its length the argument `count`.
unfoldable pub fmt_bytes : Output → List ℕ → Output
unfolding put_bytes
fmt_bytes out text =
    if out.failed
    then out
    else if is_too_long (length text) out
    then record out { failed = true }
    else put_bytes (take (copied_part (length text) (available out)) text)
        (record out { count = out.count + length text })
