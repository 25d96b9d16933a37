-- ===== src/BridgeTests.antt =====
-- The adapters of src/rm over one simple bridge each: counting semaphores with no other caller, and
-- a clock that a wait moves by just the time asked for.
use r4os_driver_nvidia.Base.{
  ℕ, suc, ◌+◌, ◌-◌, ◌*◌, ◌^◌, ◌≤◌, ◌≡◌, refl, arith, true, List, [], ◌∷◌, some, ◌==◌, ltb,
  if◌then◌else◌,
}
use r4os_driver_nvidia.Native.{nv_ok}
use r4os_driver_nvidia.Semaphore.{Reply, os_alloc_mutex}
use r4os_driver_nvidia.Semaphore as Semaphore
use r4os_driver_nvidia.Semaphore.Ledger.{
  IsCounting, Call, acquire_mutex, cond_acquire_mutex, release_mutex, sema_down, sema_up, run,
  Balances, run-Balances, os_alloc_mutex-excludes,
}
use r4os_driver_nvidia.Wait.{Waited, os_delay_us, os_delay, nvkms_usleep, os_get_current_tick}
use r4os_driver_nvidia.Wait as Wait
use r4os_driver_nvidia.Wait.Elapsed.{
  IsMonotonic, IsSlept, os_delay_us_lem, os_delay_lem, nvkms_usleep_lem,
}

-- The permits of each semaphore, and the first pointer not given out.
pub record Kernel : Type 0 where
  pub permits : ℕ → ℕ
  pub next : ℕ

abbrev pub set_permits : ℕ → ℕ → Kernel → Kernel
set_permits sema n k = record k { permits = λ p. if p == sema then n else k.permits p }

abbrev pub kernel_acquire : ℕ → ℕ → Kernel → Reply Kernel ℕ
kernel_acquire sema ticks k =
    if k.permits sema == 0
    then record { value = 1; state = k }
    else record { value = 0; state = set_permits sema (k.permits sema - 1) k }

abbrev pub kernel_bridge : Semaphore.Bridge Kernel
kernel_bridge = record {
  semaphore_create = λ initial k. record {
    value = suc k.next;
    state = record (set_permits (suc k.next) initial k) { next = suc k.next };
  };
  semaphore_free = λ sema k. record { value = 0; state = k };
  semaphore_acquire = kernel_acquire;
  semaphore_release =
      λ sema k. record { value = 0; state = set_permits sema (k.permits sema + 1) k };
  semaphore_context_flags = λ k. 2;
}

pub kernel-IsCounting : IsCounting kernel_bridge (λ sema k. k.permits sema)
kernel-IsCounting = record {
  created = λ initial k ne. ground arith;
  acquired = λ sema ticks k e. ground arith;
  not_acquired = λ sema ticks k e. ground arith;
  released = λ sema k e. ground arith;
  not_released = λ sema k e. absurd (e refl);
}

abbrev pub empty : Kernel
empty = record { permits = λ p. 0; next = 0 }

abbrev calls : List Call
calls = sema_up ∷ acquire_mutex ∷ cond_acquire_mutex ∷ release_mutex ∷ sema_down ∷ sema_down ∷ []

run-Balances_example :
    Balances kernel_bridge
      (λ sema k. k.permits sema)
      kernel-IsCounting
      4
      empty
      (run kernel_bridge calls 4 empty)
run-Balances_example =
    run-Balances kernel_bridge (λ sema k. k.permits sema) kernel-IsCounting calls 4 empty

mutex_made : (os_alloc_mutex kernel_bridge true empty).value ≡ (nv_ok, some 1)
unfolding os_alloc_mutex
mutex_made = refl

os_alloc_mutex-excludes_example :
    (run kernel_bridge calls 1 (os_alloc_mutex kernel_bridge true empty).state).taken
    ≤ (run kernel_bridge calls 1 (os_alloc_mutex kernel_bridge true empty).state).given + 1
os_alloc_mutex-excludes_example =
    os_alloc_mutex-excludes kernel_bridge (λ sema k. k.permits sema) kernel-IsCounting empty 1 calls
      mutex_made

-- The clock counts nanoseconds; a wait past its end reports a clock fault.
abbrev pub clock_wait : ℕ → ℕ → ℕ → Waited ℕ
clock_wait n mode now =
    if ltb (now + n) (2 ^ 64 - 1)
    then record { value = 0; state = now + n }
    else record { value = 5; state = now }

abbrev pub clock_bridge : Wait.Bridge ℕ
clock_bridge = record {
  wait_ns = clock_wait;
  schedule = λ ticks now. record { value = 0; state = now };
  clock_now_ns = λ now. now;
  clock_resolution_ns = λ now. 1;
}

clock-IsMonotonic : IsMonotonic clock_bridge
clock-IsMonotonic n mode now e = ground arith

os_delay_us_lem_example :
    os_get_current_tick clock_bridge 7 + 250 * 1000
    ≤ os_get_current_tick clock_bridge (os_delay_us clock_bridge 250 7).state
os_delay_us_lem_example =
    os_delay_us_lem clock_bridge clock-IsMonotonic 250 7 (omega arith) (unfold os_delay_us in refl)

os_delay_lem_example :
    os_get_current_tick clock_bridge 7 + 25 * 1000000
    ≤ os_get_current_tick clock_bridge (os_delay clock_bridge 25 7).state
os_delay_lem_example =
    os_delay_lem clock_bridge clock-IsMonotonic 25 7 (omega arith) (unfold os_delay in refl)

nvkms_usleep_lem_example : IsSlept clock_bridge 4100000 7 (nvkms_usleep clock_bridge 4100000 7)
nvkms_usleep_lem_example = nvkms_usleep_lem clock_bridge clock-IsMonotonic 4100000 7
