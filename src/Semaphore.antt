-- ===== src/Semaphore.antt =====
-- src/rm/os_semaphore.c and src/rm/nvkms_semaphore.c, over the bridge that src/rm/semaphore.h
-- declares. The bridge is not C code of the driver: it is a parameter, a record of functions on a
-- state. A pointer is a number, NULL is 0, and a result is its bit pattern.
pub mod Ledger
use r4os_driver_nvidia.Base.{
  ℕ, ◌≡◌, Bool, true, false, not, Option, none, some, ◌==◌, if◌then◌else◌, bit_and, u64_max,
}
use r4os_driver_nvidia.Native.{
  Void, Ended, returned, faulted, NvStatus, nv_ok, nv_err_invalid_argument, nv_err_no_memory,
  nv_err_invalid_request, nv_err_invalid_state, nv_err_timeout_retry, fault_semaphore_free,
  fault_semaphore_down, fault_semaphore_up,
}

-- A result with the bridge's state after the call.
pub record Reply {ℓ κ} (S : Type ℓ) (A : Type κ) : Type (ℓ ⊔ κ) where
  pub value : A
  pub state : S

-- r4nv_semaphore_*.
pub record Bridge {ℓ} (S : Type ℓ) : Type ℓ where
  pub semaphore_create : ℕ → S → Reply S ℕ
  pub semaphore_free : ℕ → S → Reply S ℕ
  pub semaphore_acquire : ℕ → ℕ → S → Reply S ℕ
  pub semaphore_release : ℕ → S → Reply S ℕ
  pub semaphore_context_flags : S → ℕ

abbrev pub sema_ok : ℕ
sema_ok = 0

abbrev pub sema_retry : ℕ
sema_retry = 1

abbrev pub sema_context : ℕ
sema_context = 2

abbrev pub sema_invalid : ℕ
sema_invalid = 3

-- switch (result)
abbrev pub status : ℕ → NvStatus
status result =
    if result == sema_ok
    then nv_ok
    else if result == sema_retry
    then nv_err_timeout_retry
    else if result == sema_context
    then nv_err_invalid_request
    else nv_err_invalid_state

module _ {ℓ} {S : Type ℓ} (b : Bridge S) where
  abbrev pub os_semaphore_may_sleep : S → Bool
  os_semaphore_may_sleep s = not (bit_and (b.semaphore_context_flags s) 2 == 0)

  abbrev pub os_is_isr : S → Bool
  os_is_isr s = not (bit_and (b.semaphore_context_flags s) 1 == 0)

  -- The argument says whether `out` is not NULL; the result has what `*out` becomes.
  unfoldable pub os_alloc_mutex : Bool → S → Reply S (NvStatus × Option ℕ)
  os_alloc_mutex false s = record { value = (nv_err_invalid_argument, none); state = s }
  os_alloc_mutex true s =
      let r = b.semaphore_create 1 s in
      record {
        value = ((if r.value == 0 then nv_err_no_memory else nv_ok), some r.value);
        state = r.state;
      }

  unfoldable pub os_alloc_semaphore : ℕ → S → Reply S ℕ
  os_alloc_semaphore initial s = b.semaphore_create initial s

  -- if (result != R4NV_SEMA_OK) r4nv_native_fault(operation, result);
  abbrev pub expect_ok : ℕ → Reply S ℕ → Ended S Void
  expect_ok operation r =
      if r.value == sema_ok then returned tt r.state else faulted operation r.value r.state

  unfoldable pub os_free_semaphore : ℕ → S → Ended S Void
  os_free_semaphore sema s = expect_ok fault_semaphore_free (b.semaphore_free sema s)

  unfoldable pub os_free_mutex : ℕ → S → Ended S Void
  unfolding os_free_semaphore
  os_free_mutex sema s = os_free_semaphore sema s

  abbrev pub with_status : Reply S ℕ → Reply S NvStatus
  with_status r = record { value = status r.value; state = r.state }

  unfoldable pub os_acquire_semaphore : ℕ → S → Reply S NvStatus
  os_acquire_semaphore sema s =
      if not (os_semaphore_may_sleep s)
      then record { value = nv_err_invalid_request; state = s }
      else with_status (b.semaphore_acquire sema u64_max s)

  unfoldable pub os_acquire_mutex : ℕ → S → Reply S NvStatus
  unfolding os_acquire_semaphore
  os_acquire_mutex sema s = os_acquire_semaphore sema s

  unfoldable pub os_cond_acquire_semaphore : ℕ → S → Reply S NvStatus
  os_cond_acquire_semaphore sema s = with_status (b.semaphore_acquire sema 0 s)

  unfoldable pub os_cond_acquire_mutex : ℕ → S → Reply S NvStatus
  unfolding os_cond_acquire_semaphore
  os_cond_acquire_mutex sema s =
      if not (os_semaphore_may_sleep s)
      then record { value = nv_err_invalid_request; state = s }
      else os_cond_acquire_semaphore sema s

  unfoldable pub os_release_semaphore : ℕ → S → Reply S NvStatus
  os_release_semaphore sema s = with_status (b.semaphore_release sema s)

  unfoldable pub os_release_mutex : ℕ → S → Ended S Void
  os_release_mutex sema s = expect_ok fault_semaphore_up (b.semaphore_release sema s)

  unfoldable pub nvkms_sema_alloc : S → Reply S ℕ
  nvkms_sema_alloc s = b.semaphore_create 1 s

  unfoldable pub nvkms_sema_free : ℕ → S → Ended S Void
  nvkms_sema_free sema s = expect_ok fault_semaphore_free (b.semaphore_free sema s)

  unfoldable pub nvkms_sema_down : ℕ → S → Ended S Void
  nvkms_sema_down sema s = expect_ok fault_semaphore_down (b.semaphore_acquire sema u64_max s)

  unfoldable pub nvkms_sema_up : ℕ → S → Ended S Void
  nvkms_sema_up sema s = expect_ok fault_semaphore_up (b.semaphore_release sema s)
