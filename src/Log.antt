-- ===== src/Log.antt =====
-- src/rm/log.h, src/rm/os_log.c and src/rm/nvkms_log.c, over the bridge r4nv_log: a parameter, a
-- function on a state, whose int result is an integer. A local buffer starts with any bytes, which
-- are an argument.
pub mod Records
use r4os_driver_nvidia.Base.{
  ℕ, zero, suc, ◌+◌, ◌-◌, ◌/◌, ◌%◌, Bool, true, false, not, ◌||◌, List, [], ◌∷◌, ◌++◌, Option, none,
  some, ◌==◌, ltb, leb, if◌then◌else◌, codes, length, set, ℤ, pos, negsuc,
}
use r4os_driver_nvidia.Memory.{Memory}
use r4os_driver_nvidia.Native.{Void}
use r4os_driver_nvidia.Format.Outcome.{Outcome, undefined, rejected, ok, ◌>>=◌, VaList}
use r4os_driver_nvidia.Format.Vformat.{Formatted, os_vsnprintf, nvkms_snprintf}

abbrev pub log_info : ℕ
log_info = 0

abbrev pub log_warn : ℕ
log_warn = 1

abbrev pub log_error : ℕ
log_error = 2

-- R4NV_LOG_BYTES.
abbrev pub log_bytes : ℕ
log_bytes = 512

-- message[], with its NUL.
abbrev pub invalid_format : List ℕ
invalid_format = codes "NVIDIA native log: invalid or unsupported format" ++ 0 ∷ []

-- marker[], with its NUL.
abbrev pub marker : List ℕ
marker = codes " [truncated]" ++ 0 ∷ []

-- for (i = 0; i < sizeof(text); ++i) buffer[start + i] = text[i];
unfoldable pub put_at : ℕ → List ℕ → List ℕ → List ℕ
put_at start [] buffer = buffer
put_at start (c ∷ text) buffer = put_at (start + 1) text (set buffer start c)

unfoldable pub log_finish : List ℕ → ℤ → List ℕ
log_finish buffer (negsuc n) = put_at 0 invalid_format buffer
log_finish buffer (pos formatted) =
    if leb log_bytes formatted then put_at (log_bytes - length marker) marker buffer else buffer

abbrev pub is_negative : ℤ → Bool
is_negative (pos n) = false
is_negative (negsuc n) = true

-- Of the NV_DBG_* levels 0 to 4: 2 is USERERRORS, 3 WARNINGS, and ERRORS is 4.
abbrev pub severity : ℕ → ℕ
severity level =
    if leb 4 level || level == 2 then log_error else if level == 3 then log_warn else log_info

-- The level at start, and what os_dbg_set_level makes of it.
abbrev pub debug_level_start : ℕ
debug_level_start = 0xffffffff

unfoldable pub os_dbg_set_level : ℕ → ℕ → ℕ
os_dbg_set_level value debug_level = value

-- The int that a call returns, and the state it leaves.
pub record Logged {ℓ} (S : Type ℓ) : Type ℓ where
  pub value : ℤ
  pub state : S

-- The bytes that a call hands on, and the result of the formatter.
pub record Record : Type 0 where
  pub text : List ℕ
  pub count : ℤ

-- The buffer of nv_printf and os_log_error after r4nv_log_finish.
unfoldable pub os_record : Memory → List ℕ → Option (List ℕ) → VaList → Outcome Record
os_record m buffer format args = do
  r ← os_vsnprintf m (some buffer) log_bytes format args
  ok (record { text = log_finish r.buffer r.status; count = r.status })

module _ {ℓ} {S : Type ℓ} (r4nv_log : ℕ → List ℕ → S → Logged S) where
  abbrev pub submit : ℕ → Record → S → Logged S
  submit level r s =
      let logged = r4nv_log (if is_negative r.count then log_error else severity level) r.text s in
      record {
        value = if is_negative r.count || is_negative logged.value then negsuc 0 else logged.value;
        state = logged.state;
      }

  -- level < ((debug_level >> 4) & 3U)
  unfoldable pub nv_printf :
      ℕ → ℕ → Memory → List ℕ → Option (List ℕ) → VaList → S → Outcome (Logged S)
  nv_printf debug_level level m buffer format args s =
      if ltb level (debug_level / 16 % 4)
      then ok (record { value = pos 0; state = s })
      else (do r ← os_record m buffer format args; ok (submit level r s))

  unfoldable pub out_string : List ℕ → S → S
  out_string text s = (r4nv_log log_info text s).state

  unfoldable pub os_log_error : Memory → List ℕ → Option (List ℕ) → VaList → S → Outcome S
  unfolding os_record
  os_log_error m buffer format args s = do
    r ← os_record m buffer format args
    ok ((r4nv_log log_error r.text s).state)

  -- `empty` and `null` are the addresses of the literals "" and "(null)".
  unfoldable pub nvkms_log : ℕ → ℕ → ℕ → ℕ → ℕ → Memory → List ℕ → S → Outcome S
  nvkms_log empty null level gpu_prefix message m buffer s = do
    r ← nvkms_snprintf m (some buffer) log_bytes (some (codes "NVIDIA modeset: %s%s")) (
        (if gpu_prefix == 0 then empty else gpu_prefix)
        ∷ (if message == 0 then null else message)
        ∷ [])
    let severity =
        if level == 2 || is_negative r.status
        then log_error
        else if level == 1
        then log_warn
        else log_info
    ok ((r4nv_log severity (log_finish r.buffer r.status) s).state)
