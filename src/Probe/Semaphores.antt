-- ===== src/Probe/Semaphores.antt =====
-- src/rm/semaphore_probe.c with src/rm/semaphore_probe.h, over the semaphore and heap bridges. The
-- atomic stores are plain ones: each diagnostic is one sequence of steps.
pub mod Passes
pub mod Faults
pub mod Pattern
use r4os_driver_nvidia.Base.{
  ℕ, zero, suc, ◌+◌, ◌-◌, Bool, true, false, not, ◌&&◌, Option, none, some, ◌==◌, if◌then◌else◌, u8,
  bit_xor, ℤ, pos, negsuc, u64_max,
}
use r4os_driver_nvidia.Memory.{Memory, store}
use r4os_driver_nvidia.Native.{
  Void, Ended, NvStatus, is_status, nv_ok, nv_err_invalid_argument, nv_err_timeout_retry,
}
use r4os_driver_nvidia.Semaphore as Semaphore
use r4os_driver_nvidia.Semaphore.{
  Reply, os_semaphore_may_sleep, os_is_isr, os_alloc_mutex, os_alloc_semaphore, os_free_semaphore,
  os_free_mutex, os_acquire_semaphore, os_acquire_mutex, os_cond_acquire_semaphore,
  os_cond_acquire_mutex, os_release_semaphore, os_release_mutex, nvkms_sema_alloc, nvkms_sema_free,
  nvkms_sema_down, nvkms_sema_up,
}
use r4os_driver_nvidia.Heap as Heap
use r4os_driver_nvidia.Heap.{os_alloc_mem}
use r4os_driver_nvidia.Probe.{
  Attempt, done, failed, Probe, and_then, ◌>>=◌, ◌>>◌, give, modify, check, run_void,
}

-- R4NvSemaphoreProbe.
pub record SemaphoreProbe : Type 0 where
  pub memory : ℕ
  pub semaphore : ℕ
  pub after_fault : ℕ
  pub after_wait : ℕ
  pub permit_sent : ℕ

-- The structure, with the states of the two bridges.
pub record World {ℓ κ} (S : Type ℓ) (H : Type κ) : Type (ℓ ⊔ κ) where
  pub probe : SemaphoreProbe
  pub sema : S
  pub heap : Heap.Heap H

abbrev pub with_semaphore {ℓ κ} : {S : Type ℓ} {H : Type κ} → ℕ → S → World S H → World S H
with_semaphore pointer s w = record w { probe = record (w.probe) { semaphore = pointer }; sema = s }

abbrev pub pointer_or : Option ℕ → ℕ → ℕ
pointer_or none old = old
pointer_or (some pointer) old = pointer

-- (NvU8)(i ^ 0x79)
abbrev pub pattern_byte : ℕ → ℕ
pattern_byte i = u8 (bit_xor i 0x79)

-- for (NvU32 i = ...; i < 97; ++i) ((NvU8 *)s->memory)[i] = (NvU8)(i ^ 0x79), with `left` to go.
unfoldable pub pattern_loop : ℕ → ℕ → ℕ → Memory → Memory
pattern_loop zero i p m = m
pattern_loop (suc left) i p m = pattern_loop left (i + 1) p (store (p + i) (pattern_byte i) m)

-- for (NvU32 i = ...; i < 97; ++i) CHECK(((NvU8 *)s->memory)[i] == (NvU8)(i ^ 0x79))
unfoldable pub pattern_kept : ℕ → ℕ → ℕ → Memory → Bool
pattern_kept zero i p m = true
pattern_kept (suc left) i p m = m (p + i) == pattern_byte i && pattern_kept left (i + 1) p m

module _ {ℓ κ} {S : Type ℓ} {H : Type κ} (b : Semaphore.Bridge S) (a : Heap.Bridge H) where
  -- CHECK(call(s->semaphore) == expected)
  unfoldable pub sema_status : ℕ → NvStatus → (ℕ → S → Reply S NvStatus) → Probe (World S H) Void
  sema_status line expected call w =
      let r = call w.probe.semaphore w.sema in
      check line (is_status r.value expected) (record w { sema = r.state })

  -- call(s->semaphore), which is void.
  unfoldable pub sema_void : (ℕ → S → Ended S Void) → Probe (World S H) Void
  sema_void call w = run_void (λ s. record w { sema = s }) (call w.probe.semaphore w.sema)

  -- CHECK(os_semaphore_may_sleep() && !os_is_isr())
  unfoldable pub check_context : ℕ → Probe (World S H) Void
  check_context line w = check line (os_semaphore_may_sleep b w.sema && not (os_is_isr b w.sema)) w

  -- CHECK(os_alloc_mutex(NULL) == NV_ERR_INVALID_ARGUMENT)
  unfoldable pub check_null_mutex : ℕ → Probe (World S H) Void
  check_null_mutex line w =
      let r = os_alloc_mutex b false w.sema in
      check line (is_status r.value.0 nv_err_invalid_argument) (record w { sema = r.state })

  -- CHECK(os_alloc_mutex(&s->semaphore) == NV_OK)
  unfoldable pub make_mutex : ℕ → Probe (World S H) Void
  make_mutex line w =
      let r = os_alloc_mutex b true w.sema in
      check line (is_status r.value.0 nv_ok)
        (with_semaphore (pointer_or r.value.1 w.probe.semaphore) r.state w)

  -- s->semaphore = call(); CHECK(s->semaphore != NULL)
  unfoldable pub make_semaphore : ℕ → (S → Reply S ℕ) → Probe (World S H) Void
  make_semaphore line call w =
      let r = call w.sema in check line (not (r.value == 0)) (with_semaphore r.value r.state w)

  -- s->semaphore = NULL
  unfoldable pub clear_semaphore : Probe (World S H) Void
  clear_semaphore w = done tt (with_semaphore 0 w.sema w)

  unfoldable pub r4nv_semaphore_probe_healthy : Probe (World S H) ℤ
  r4nv_semaphore_probe_healthy = do
    check_context 10
    check_null_mutex 11
    make_mutex 12
    sema_status 13 nv_ok (os_cond_acquire_mutex b)
    sema_status 14 nv_err_timeout_retry (os_cond_acquire_mutex b)
    sema_void (os_release_mutex b)
    sema_status 16 nv_ok (os_acquire_mutex b)
    sema_void (os_release_mutex b)
    sema_void (os_free_mutex b)
    clear_semaphore
    make_semaphore 22 (os_alloc_semaphore b 2)
    sema_status 23 nv_ok (os_cond_acquire_semaphore b)
    sema_status 24 nv_ok (os_acquire_semaphore b)
    sema_status 25 nv_err_timeout_retry (os_cond_acquire_semaphore b)
    sema_status 26 nv_ok (os_release_semaphore b)
    sema_status 27 nv_ok (os_acquire_semaphore b)
    sema_void (os_free_semaphore b)
    clear_semaphore
    make_semaphore 32 (nvkms_sema_alloc b)
    sema_void (nvkms_sema_down b)
    sema_void (nvkms_sema_up b)
    sema_void (nvkms_sema_down b)
    sema_void (nvkms_sema_up b)
    sema_void (nvkms_sema_free b)
    clear_semaphore
    give (pos 0)

  -- CHECK(os_alloc_mem(&s->memory, 97) == NV_OK)
  unfoldable pub make_memory : ℕ → Probe (World S H) Void
  make_memory line w =
      let r = os_alloc_mem a true 97 w.heap in
      check line (is_status r.status nv_ok) (record w {
        probe = record (w.probe) { memory = pointer_or r.address w.probe.memory };
        heap = r.heap;
      })

  unfoldable pub fill_memory : Probe (World S H) Void
  fill_memory w = done tt (record w {
    heap = record (w.heap) { memory = pattern_loop 97 0 w.probe.memory w.heap.memory };
  })

  unfoldable pub r4nv_semaphore_probe_setup : Probe (World S H) ℤ
  r4nv_semaphore_probe_setup = do
    make_memory 44
    fill_memory
    make_semaphore 47 (os_alloc_semaphore b 0)
    give (pos 0)

  unfoldable pub r4nv_semaphore_probe_wait : Probe (World S H) ℤ
  r4nv_semaphore_probe_wait = do
    sema_void (nvkms_sema_down b)
    modify (λ w. record w { probe = record (w.probe) { after_wait = 1 } })
    give (pos 0)

  unfoldable pub r4nv_semaphore_probe_fault : Probe (World S H) ℤ
  r4nv_semaphore_probe_fault = do
    sema_void (nvkms_sema_free b)
    modify (λ w. record w { probe = record (w.probe) { after_fault = 1 } })
    give (negsuc 0)

  unfoldable pub r4nv_semaphore_probe_permit : Probe (World S H) ℤ
  r4nv_semaphore_probe_permit = do
    sema_void (nvkms_sema_up b)
    modify (λ w. record w { probe = record (w.probe) { permit_sent = 1 } })
    give (pos 0)

  unfoldable pub check_memory : ℕ → Probe (World S H) Void
  check_memory line w = check line (pattern_kept 97 0 w.probe.memory w.heap.memory) w

  unfoldable pub r4nv_semaphore_probe_cleanup : Probe (World S H) ℤ
  r4nv_semaphore_probe_cleanup = do
    check_memory 76
    sema_void (nvkms_sema_free b)
    clear_semaphore
    give (pos 0)
