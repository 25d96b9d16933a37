-- ===== src/Wait.antt =====
-- src/rm/os_wait.c, src/rm/nvkms_wait.c, src/rm/os_clock.c and src/rm/nvkms_clock.c, over the
-- bridges that src/rm/wait.h and src/rm/clock.h declare: a parameter, a record of functions on a
-- state. A result is its bit pattern.
pub mod Elapsed
use r4os_driver_nvidia.Base.{ℕ, ◌*◌, ◌/◌, ◌%◌, ◌^◌, Bool, ◌==◌, ltb, if◌then◌else◌, u64, u64_max}
use r4os_driver_nvidia.Native.{
  Void, Ended, returned, faulted, NvStatus, nv_ok, nv_err_invalid_argument, nv_err_illegal_action,
  nv_err_signal_pending, nv_err_timeout, nv_err_invalid_state, fault_wait, fault_yield,
}

-- A result with the bridge's state after the call.
pub record Waited {ℓ} (S : Type ℓ) : Type ℓ where
  pub value : ℕ
  pub state : S

pub record Timed {ℓ} (S : Type ℓ) : Type ℓ where
  pub status : NvStatus
  pub state : S

pub record Bridge {ℓ} (S : Type ℓ) : Type ℓ where
  pub wait_ns : ℕ → ℕ → S → Waited S
  pub schedule : ℕ → S → Waited S
  pub clock_now_ns : S → ℕ
  pub clock_resolution_ns : S → ℕ

abbrev pub wait_ok : ℕ
wait_ok = 0

abbrev pub wait_invalid : ℕ
wait_invalid = 1

abbrev pub wait_busy : ℕ
wait_busy = 0

abbrev pub wait_adaptive : ℕ
wait_adaptive = 1

abbrev pub wait_sleep : ℕ
wait_sleep = 2

-- switch (value)
abbrev pub wait_status : ℕ → NvStatus
wait_status value =
    if value == 0
    then nv_ok
    else if value == 1
    then nv_err_invalid_argument
    else if value == 2
    then nv_err_illegal_action
    else if value == 3
    then nv_err_signal_pending
    else if value == 4
    then nv_err_timeout
    else nv_err_invalid_state

module _ {ℓ} {S : Type ℓ} (b : Bridge S) where
  abbrev pub timed : Waited S → Timed S
  timed r = record { status = wait_status r.value; state = r.state }

  -- (NvU64)microseconds * 1000
  unfoldable pub os_delay_us : ℕ → S → Timed S
  os_delay_us microseconds s = timed (b.wait_ns (u64 (microseconds * 1000)) wait_busy s)

  unfoldable pub os_delay : ℕ → S → Timed S
  os_delay milliseconds s = timed (b.wait_ns (u64 (milliseconds * 1000000)) wait_adaptive s)

  unfoldable pub os_schedule : S → Timed S
  os_schedule s = timed (b.schedule 1 s)

  -- if (result != R4NV_WAIT_OK) r4nv_native_fault(operation, result);
  abbrev pub expect_waited : ℕ → Waited S → Ended S Void
  expect_waited operation r =
      if r.value == wait_ok then returned tt r.state else faulted operation r.value r.state

  unfoldable pub nvkms_usleep : ℕ → S → Ended S Void
  nvkms_usleep usec s =
      if ltb (u64_max / 1000) usec
      then faulted fault_wait wait_invalid s
      else expect_waited fault_wait
          (b.wait_ns (u64 (usec * 1000)) (if ltb usec 1000 then wait_busy else wait_sleep) s)

  unfoldable pub nvkms_yield : S → Ended S Void
  nvkms_yield s = expect_waited fault_yield (b.schedule 0 s)

  unfoldable pub os_get_current_tick : S → ℕ
  os_get_current_tick s = b.clock_now_ns s

  unfoldable pub os_get_current_tick_hr : S → ℕ
  os_get_current_tick_hr s = b.clock_now_ns s

  unfoldable pub os_get_tick_resolution : S → ℕ
  os_get_tick_resolution s = b.clock_resolution_ns s

  unfoldable pub nvkms_get_usec : S → ℕ
  nvkms_get_usec s = let now = b.clock_now_ns s in if now == u64_max then u64_max else now / 1000
