-- ===== src/Probe/Waits/Passes.antt =====
-- When the wait diagnostic (src/rm/wait_probe.c) passes.
use r4os_driver_nvidia.Base.{
  ℕ, ◌+◌, ◌^◌, ◌≤◌, ◌<◌, ◌≡◌, ◌↔◌, refl, arith, true, List, [], ◌∷◌, leb, sub64, pos,
}
use r4os_driver_nvidia.Native.{is_status, nv_ok}
use r4os_driver_nvidia.Wait.{
  Bridge, wait_ok, wait_status, os_delay_us, os_delay, os_schedule, nvkms_usleep, nvkms_yield,
}
use r4os_driver_nvidia.Probe.{Ensures, ends, Step, Step-bind, check-Step, run_void-Step}
use r4os_driver_nvidia.Probe.Waits.{
  now, wait_status_ok, check_elapsed, wait_void, r4nv_wait_probe_healthy,
}

-- What clock.h says: an NvU64 counts nanoseconds of one monotonic source, so no wait that succeeds
-- takes the clock back.
pub record IsClock {ℓ} {S : Type ℓ} (b : Bridge S) : Type ℓ where
  pub held : (s : S) → b.clock_now_ns s < 2 ^ 64
  pub forward :
      (n mode : ℕ) (s : S)
      → (b.wait_ns n mode s).value ≡ wait_ok
      → b.clock_now_ns s ≤ b.clock_now_ns (b.wait_ns n mode s).state

-- A call of the bridge: a wait of so many nanoseconds in a mode, or a yield for so many ticks.
pub data Request : Type 0 where
  wait : ℕ → ℕ → Request
  yields : ℕ → Request

-- The calls that the diagnostic is there to exercise: 250 us busy, 25 ms adaptive, 250 us busy,
-- 4.1 s asleep, which no NvU32 of nanoseconds holds, and the two yields.
abbrev pub requests : List Request
requests =
    wait 250000 0 ∷ wait 25000000 1 ∷ wait 250000 0 ∷ wait 4100000000 2 ∷ yields 1 ∷ yields 0 ∷ []

elapsed :
    (n start current : ℕ)
    → start ≤ current
    → current < 2 ^ 64
    → (leb n (sub64 current start) ≡ true) ↔ (start + n ≤ current)
elapsed n start current h small = (λ e. ground arith, λ e. ground arith)

ok_only : (value : ℕ) → (is_status (wait_status value) nv_ok ≡ true) ↔ (value ≡ wait_ok)
ok_only value = (λ e. ground arith, λ e. ground arith)

module _ {ℓ} {S : Type ℓ} (b : Bridge S) where
  -- Calls made one behind the other succeed, and the clock shows that no wait was too short.
  abbrev pub Keeps : List Request → S → Type 0
  Keeps [] s = Unit
  Keeps (wait n mode ∷ rest) s =
      let r = b.wait_ns n mode s in
      (r.value ≡ wait_ok) × ((b.clock_now_ns s + n ≤ b.clock_now_ns r.state) × Keeps rest r.state)
  Keeps (yields ticks ∷ rest) s =
      let r = b.schedule ticks s in (r.value ≡ wait_ok) × Keeps rest r.state

  -- The state that they leave.
  abbrev pub left_by : List Request → S → S
  left_by [] s = s
  left_by (wait n mode ∷ rest) s = left_by rest (b.wait_ns n mode s).state
  left_by (yields ticks ∷ rest) s = left_by rest (b.schedule ticks s).state

  delay_us :
      (line : ℕ) (s : S)
      → let r = b.wait_ns 250000 0 s in
        Step (r.value ≡ wait_ok) r.state (wait_status_ok b line (os_delay_us b 250) s)
  unfolding wait_status_ok os_delay_us
  delay_us line s =
      let r = b.wait_ns 250000 0 s in
      check-Step (is_status (wait_status r.value) nv_ok) line r.state (ok_only r.value)

  delay :
      (line : ℕ) (s : S)
      → let r = b.wait_ns 25000000 1 s in
        Step (r.value ≡ wait_ok) r.state (wait_status_ok b line (os_delay b 25) s)
  unfolding wait_status_ok os_delay
  delay line s =
      let r = b.wait_ns 25000000 1 s in
      check-Step (is_status (wait_status r.value) nv_ok) line r.state (ok_only r.value)

  schedules :
      (line : ℕ) (s : S)
      → let r = b.schedule 1 s in
        Step (r.value ≡ wait_ok) r.state (wait_status_ok b line (os_schedule b) s)
  unfolding wait_status_ok os_schedule
  schedules line s =
      let r = b.schedule 1 s in
      check-Step (is_status (wait_status r.value) nv_ok) line r.state (ok_only r.value)

  short_sleep :
      (s : S)
      → let r = b.wait_ns 250000 0 s in
        Step (r.value ≡ wait_ok) r.state (wait_void b (nvkms_usleep b 250) s)
  unfolding wait_void nvkms_usleep
  short_sleep s = run_void-Step (λ t. t) _ _ _

  long_sleep :
      (s : S)
      → let r = b.wait_ns 4100000000 2 s in
        Step (r.value ≡ wait_ok) r.state (wait_void b (nvkms_usleep b 4100000) s)
  unfolding wait_void nvkms_usleep
  long_sleep s = run_void-Step (λ t. t) _ _ _

  gives_way :
      (s : S)
      → let r = b.schedule 0 s in Step (r.value ≡ wait_ok) r.state (wait_void b (nvkms_yield b) s)
  unfolding wait_void nvkms_yield
  gives_way s = run_void-Step (λ t. t) _ _ _

  module _ (clock : IsClock b) where
    measured :
        (line n mode : ℕ) (s : S)
        → (b.wait_ns n mode s).value ≡ wait_ok
        → let t = (b.wait_ns n mode s).state in
          Step
            (b.clock_now_ns s + n ≤ b.clock_now_ns t)
            t
            (check_elapsed b line (b.clock_now_ns s) n t)
    unfolding check_elapsed
    measured line n mode s e =
        let t = (b.wait_ns n mode s).state in
        check-Step (leb n (sub64 (b.clock_now_ns t) (b.clock_now_ns s))) line t (
          elapsed n (b.clock_now_ns s) (b.clock_now_ns t) (clock.forward n mode s e) (clock.held t))

    -- Over a clock that a successful wait does not take back, the wait diagnostic ends with 0 exactly
    -- where its four waits and two yields, made one behind the other, all succeed and the clock shows
    -- each wait at least as long as asked for; the bridge is then as those six calls leave it.
    pub r4nv_wait_probe_healthy_iff :
        (s : S)
        → Ensures
            (λ result s'. (result ≡ pos 0) × (s' ≡ left_by requests s))
            (r4nv_wait_probe_healthy b s)
          ↔ Keeps requests s
    unfolding r4nv_wait_probe_healthy now
    r4nv_wait_probe_healthy_iff s0 =
        let s1 = (b.wait_ns 250000 0 s0).state in
        let s2 = (b.wait_ns 25000000 1 s1).state in
        let s3 = (b.wait_ns 250000 0 s2).state in
        let s4 = (b.wait_ns 4100000000 2 s3).state in
        let s5 = (b.schedule 1 s4).state in
        Step-bind _ (delay_us 11 s0) λ e0. Step-bind _ (measured 12 250000 0 s0 e0) λ _.
          Step-bind _ (delay 14 s1) λ e1. Step-bind _ (measured 15 25000000 1 s1 e1) λ _.
            Step-bind _ (short_sleep s2) λ e2. Step-bind _ (measured 18 250000 0 s2 e2) λ _.
              Step-bind _ (long_sleep s3) λ e3. Step-bind _ (measured 22 4100000000 2 s3 e3) λ _.
                Step-bind _ (schedules 23 s4)
                  λ _. Step-bind _ (gives_way s5) λ _. (λ _. tt, λ _. ends (pos 0) _ (refl, refl))
