-- ===== src/Probe/Waits.antt =====
-- src/rm/wait_probe.c, over the bridges of src/rm/wait.h and clock.h.
pub mod Passes
use r4os_driver_nvidia.Base.{
  ℕ, ◌*◌, ◌%◌, ◌^◌, ◌+◌, ◌-◌, Bool, ◌==◌, leb, if◌then◌else◌, sub64, ℤ, pos,
}
use r4os_driver_nvidia.Native.{Void, Ended, NvStatus, is_status, nv_ok}
use r4os_driver_nvidia.Wait.{
  Bridge, Timed, os_delay_us, os_delay, os_schedule, nvkms_usleep, nvkms_yield,
}
use r4os_driver_nvidia.Probe.{
  Attempt, done, failed, Probe, and_then, ◌>>=◌, ◌>>◌, give, check, run_void,
}

-- WaitProbe; the statuses are NV_STATUS values.
pub record WaitProbe : Type 0 where
  pub milliseconds : ℕ
  pub expected : NvStatus
  pub returned_flag : ℕ
  pub observed : NvStatus

-- The structure, with the state of the bridge.
pub record World {ℓ} (S : Type ℓ) : Type ℓ where
  pub probe : WaitProbe
  pub wait : S

module _ {ℓ} {S : Type ℓ} (b : Bridge S) where
  -- start = r4nv_clock_now_ns()
  unfoldable pub now : Probe S ℕ
  now s = done (b.clock_now_ns s) s

  -- CHECK(call() == NV_OK)
  unfoldable pub wait_status_ok : ℕ → (S → Timed S) → Probe S Void
  wait_status_ok line call s = check line (is_status (call s).status nv_ok) (call s).state

  -- CHECK(r4nv_clock_now_ns() - start >= interval)
  unfoldable pub check_elapsed : ℕ → ℕ → ℕ → Probe S Void
  check_elapsed line start interval s = check line (leb interval (sub64 (b.clock_now_ns s) start)) s

  -- A void call.
  unfoldable pub wait_void : (S → Ended S Void) → Probe S Void
  wait_void call s = run_void (λ t. t) (call s)

  unfoldable pub r4nv_wait_probe_healthy : Probe S ℤ
  r4nv_wait_probe_healthy = do
    start ← now
    wait_status_ok 11 (os_delay_us b 250)
    check_elapsed 12 start 250000
    start ← now
    wait_status_ok 14 (os_delay b 25)
    check_elapsed 15 start 25000000
    start ← now
    wait_void (nvkms_usleep b 250)
    check_elapsed 18 start 250000
    start ← now
    wait_void (nvkms_usleep b 4100000)
    check_elapsed 22 start 4100000000
    wait_status_ok 23 (os_schedule b)
    wait_void (nvkms_yield b)
    give (pos 0)

  -- result = os_delay(s->milliseconds); s->observed = result; s->returned = 1
  unfoldable pub observe_delay : Probe (World S) NvStatus
  observe_delay w =
      let r = os_delay b w.probe.milliseconds w.wait in
      done r.status (record w {
        probe = record (w.probe) { observed = r.status; returned_flag = 1 };
        wait = r.state;
      })

  unfoldable pub r4nv_wait_probe_delay : Probe (World S) ℤ
  r4nv_wait_probe_delay w =
      and_then (observe_delay w)
        λ result w'. and_then (check 33 (is_status result w'.probe.expected) w') λ _. give (pos 0)
