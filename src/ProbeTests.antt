-- ===== src/ProbeTests.antt =====
-- The properties of the diagnostics of src/rm over the counting semaphores and the clock of
-- BridgeTests, and a heap that only grows.
use r4os_driver_nvidia.Base.{ℕ, suc, ◌+◌, ◌≡◌, ◌↔◌, refl, arith, ltb, if◌then◌else◌, u64_max, pos}
use r4os_driver_nvidia.Heap as Heap
use r4os_driver_nvidia.Wait as Wait
use r4os_driver_nvidia.BridgeTests.{Kernel, kernel_bridge, kernel-IsCounting, empty, clock_bridge}
use r4os_driver_nvidia.Probe.{Ensures}
use r4os_driver_nvidia.Probe.Semaphores.{
  World, r4nv_semaphore_probe_healthy, r4nv_semaphore_probe_wait,
}
use r4os_driver_nvidia.Probe.Semaphores.Passes.{
  Succeeds, Answers, script, r4nv_semaphore_probe_healthy_iff,
}
use r4os_driver_nvidia.Probe.Semaphores.Faults.{IsWaited, r4nv_semaphore_probe_wait_lem}
use r4os_driver_nvidia.Probe.Waits.{r4nv_wait_probe_healthy}
use r4os_driver_nvidia.Probe.Waits.Passes.{
  IsClock, Keeps, left_by, requests, r4nv_wait_probe_healthy_iff,
}

abbrev heap_bridge : Heap.Bridge ℕ
heap_bridge = record {
  heap_allocate =
      λ n h. record { pointer = suc h.state; state = suc h.state + n; memory = h.memory };
  heap_free = λ p h. h;
}

abbrev permits_of : ℕ → Kernel → ℕ
permits_of sema k = k.permits sema

abbrev world : World Kernel ℕ
world = record {
  probe = record { memory = 0; semaphore = 4; after_fault = 0; after_wait = 0; permit_sent = 0 };
  sema = empty;
  heap = record { state = 100; memory = λ p. 0 };
}

r4nv_semaphore_probe_healthy_iff_example :
    Ensures
      (Succeeds kernel_bridge heap_bridge (λ s. refl) world)
      (r4nv_semaphore_probe_healthy kernel_bridge heap_bridge world)
    ↔ Answers kernel_bridge script 4 empty
r4nv_semaphore_probe_healthy_iff_example =
    r4nv_semaphore_probe_healthy_iff kernel_bridge heap_bridge (λ s. refl) world

answered : Answers kernel_bridge script 4 empty
answered = (
  λ e. omega arith,
  (
    refl,
    (
      refl,
      (
        refl,
        (
          refl,
          (
            refl,
            (
              refl,
              (
                λ e. omega arith,
                (
                  refl,
                  (
                    refl,
                    (
                      refl,
                      (
                        refl,
                        (
                          refl,
                          (refl, (λ e. omega arith, (refl, (refl, (refl, (refl, (refl, tt))))))),
                        ),
                      ),
                    ),
                  ),
                ),
              ),
            ),
          ),
        ),
      ),
    ),
  ),
)

r4nv_semaphore_probe_wait_lem_example :
    IsWaited kernel_bridge heap_bridge permits_of world
      (r4nv_semaphore_probe_wait kernel_bridge heap_bridge world)
r4nv_semaphore_probe_wait_lem_example =
    r4nv_semaphore_probe_wait_lem kernel_bridge heap_bridge permits_of world kernel-IsCounting

-- The same clock, which stays at its last value.
abbrev last_bridge : Wait.Bridge ℕ
last_bridge = record clock_bridge { clock_now_ns = λ now. if ltb now u64_max then now else u64_max }

last-IsClock : IsClock last_bridge
last-IsClock = record { held = λ s. ground arith; forward = λ n mode s e. ground arith }

r4nv_wait_probe_healthy_iff_example :
    Ensures
      (λ result s. (result ≡ pos 0) × (s ≡ left_by last_bridge requests 7))
      (r4nv_wait_probe_healthy last_bridge 7)
    ↔ Keeps last_bridge requests 7
r4nv_wait_probe_healthy_iff_example = r4nv_wait_probe_healthy_iff last_bridge last-IsClock 7

kept : Keeps last_bridge requests 7
kept = (
  refl,
  (
    omega arith,
    (refl, (omega arith, (refl, (omega arith, (refl, (omega arith, (refl, (refl, tt)))))))),
  ),
)
