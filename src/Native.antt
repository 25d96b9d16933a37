-- ===== src/Native.antt =====
-- src/rm/native_fault.h, and the NV_STATUS codes that the adapters under src/rm return.
use r4os_driver_nvidia.Base.{ℕ, Bool, ◌==◌}

-- r4nv_native_fault does not return: the callback ends there, and what has been done to the
-- provider's state remains.
pub data Ended {ℓ κ} (S : Type ℓ) (A : Type κ) : Type (ℓ ⊔ κ) where
  returned : A → S → Ended S A
  faulted : ℕ → ℕ → S → Ended S A

-- The result of a void function.
abbrev pub Void : Type 0
Void = Unit

-- The operations of R4NV_FAULT_*.
abbrev pub fault_semaphore_free : ℕ
fault_semaphore_free = 1

abbrev pub fault_semaphore_down : ℕ
fault_semaphore_down = 2

abbrev pub fault_semaphore_up : ℕ
fault_semaphore_up = 3

abbrev pub fault_wait : ℕ
fault_wait = 4

abbrev pub fault_yield : ℕ
fault_yield = 5

pub data NvStatus : Type 0 where
  nv_ok nv_err_invalid_argument nv_err_no_memory nv_err_invalid_request : NvStatus
  nv_err_invalid_state nv_err_timeout_retry nv_err_illegal_action : NvStatus
  nv_err_signal_pending nv_err_timeout : NvStatus

abbrev status_rank : NvStatus → ℕ
status_rank nv_ok = 0
status_rank nv_err_invalid_argument = 1
status_rank nv_err_no_memory = 2
status_rank nv_err_invalid_request = 3
status_rank nv_err_invalid_state = 4
status_rank nv_err_timeout_retry = 5
status_rank nv_err_illegal_action = 6
status_rank nv_err_signal_pending = 7
status_rank nv_err_timeout = 8

-- result == status
abbrev pub is_status : NvStatus → NvStatus → Bool
is_status result status = status_rank result == status_rank status
