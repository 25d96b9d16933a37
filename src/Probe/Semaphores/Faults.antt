-- ===== src/Probe/Semaphores/Faults.antt =====
-- The waiting and the faulting diagnostic of src/rm/semaphore_probe.c: what their flags stand for.
use r4os_driver_nvidia.Base.{
  ℕ, ◌+◌, ◌≡◌, ◌≢◌, refl, ◌==◌, Bool-cases, inl, inr, eqb→eq, eqb→ne, ℤ, pos, negsuc, u64_max,
}
use r4os_driver_nvidia.Native.{fault_semaphore_down, fault_semaphore_free}
use r4os_driver_nvidia.Semaphore as Semaphore
use r4os_driver_nvidia.Semaphore.{sema_ok, nvkms_sema_down, nvkms_sema_free, expect_ok}
use r4os_driver_nvidia.Semaphore.Ledger.{IsCounting}
use r4os_driver_nvidia.Heap as Heap
use r4os_driver_nvidia.Probe.{Attempt, done, failed, aborted}
use r4os_driver_nvidia.Probe.Semaphores.{
  World, sema_void, r4nv_semaphore_probe_wait, r4nv_semaphore_probe_fault,
}

module _ {ℓ κ} {S : Type ℓ} {H : Type κ} (b : Semaphore.Bridge S) (a : Heap.Bridge H) where
  -- The waiting diagnostic from `w`: it ends with its flag set and one permit taken, or it leaves
  -- by the fault of a failed down, with its structure as it was and no permit taken.
  abbrev pub IsWaited : (ℕ → S → ℕ) → World S H → Attempt (World S H) ℤ → Type 0
  IsWaited permits w (done result w') =
      (result ≡ pos 0)
      × (w'.probe ≡ record (w.probe) { after_wait = 1 })
      × (permits w.probe.semaphore w'.sema + 1 ≡ permits w.probe.semaphore w.sema)
  IsWaited permits w (failed line w') = ⊥
  IsWaited permits w (aborted operation result w') =
      (operation ≡ fault_semaphore_down)
      × (result ≢ sema_ok)
      × (w'.probe ≡ w.probe)
      × (permits w.probe.semaphore w'.sema ≡ permits w.probe.semaphore w.sema)

  -- Over a bridge that counts permits, r4nv_semaphore_probe_wait sets its flag only with a permit that
  -- it took; a failed wait leaves by the fault, and neither sets the flag nor takes a permit.
  pub r4nv_semaphore_probe_wait_lem :
      (permits : ℕ → S → ℕ) (w : World S H)
      → IsCounting b permits
      → IsWaited permits w (r4nv_semaphore_probe_wait b a w)
  unfolding r4nv_semaphore_probe_wait sema_void nvkms_sema_down
  r4nv_semaphore_probe_wait_lem permits w counting =
      let sema = w.probe.semaphore in
      elim (Bool-cases ((b.semaphore_acquire sema u64_max w.sema).value == sema_ok)) [
        | inl e ↦ rw e (refl, refl, counting.acquired sema u64_max w.sema (eqb→eq _ _ e))
        | inr e ↦
            rw e
              (refl, eqb→ne _ _ e, refl, counting.not_acquired sema u64_max w.sema (eqb→ne _ _ e))
      ]

  -- The faulting diagnostic from `w`: a free that succeeds is reported by -1 and the flag; one that
  -- does not leaves the callback, and the structure keeps both allocations.
  abbrev pub IsFaulted : World S H → Attempt (World S H) ℤ → Type 0
  IsFaulted w (done result w') =
      ((b.semaphore_free w.probe.semaphore w.sema).value ≡ sema_ok)
      × (result ≡ negsuc 0)
      × (w'.probe ≡ record (w.probe) { after_fault = 1 })
  IsFaulted w (failed line w') = ⊥
  IsFaulted w (aborted operation result w') =
      ((b.semaphore_free w.probe.semaphore w.sema).value ≢ sema_ok)
      × (operation ≡ fault_semaphore_free)
      × (w'.probe ≡ w.probe)
      × (w'.heap.memory ≡ w.heap.memory)

  -- r4nv_semaphore_probe_fault returns -1 with its flag set where the free succeeds, and else leaves by
  -- the fault of a failed free, with its structure and the memory as they were.
  pub r4nv_semaphore_probe_fault_lem :
      (w : World S H) → IsFaulted w (r4nv_semaphore_probe_fault b a w)
  unfolding r4nv_semaphore_probe_fault sema_void nvkms_sema_free
  r4nv_semaphore_probe_fault_lem w =
      elim (Bool-cases ((b.semaphore_free w.probe.semaphore w.sema).value == sema_ok)) [
        | inl e ↦ rw e (eqb→eq _ _ e, refl, refl)
        | inr e ↦ rw e (eqb→ne _ _ e, refl, refl, refl)
      ]
