-- ===== src/Wait/Elapsed.antt =====
-- What the waits of src/rm/os_wait.c and src/rm/nvkms_wait.c promise: success means that the time
-- asked for has passed on the monotonic clock.
use r4os_driver_nvidia.Base.{
  ℕ, ◌+◌, ◌*◌, ◌/◌, ◌%◌, ◌^◌, ◌≤◌, ◌<◌, ◌≡◌, ◌≢◌, ◌⊎◌, inl, inr, refl, arith, ◌==◌, ltb, Bool-cases,
  ltb→lt, ltb→le, eqb→eq, eqb→ne, u64, u64_max,
}
use r4os_driver_nvidia.Native.{Void, Ended, returned, faulted, nv_ok, fault_wait}
use r4os_driver_nvidia.Wait.{
  Bridge, wait_ok, wait_invalid, wait_busy, wait_status, os_delay_us, os_delay, nvkms_usleep,
  expect_waited, os_get_current_tick,
}

-- "Success requires the actual monotonic interval" (src/rm/wait.h).
abbrev pub IsMonotonic {ℓ} : {S : Type ℓ} → Bridge S → Type ℓ
IsMonotonic {S = S} b =
    (n mode : ℕ) (s : S)
    → (b.wait_ns n mode s).value ≡ wait_ok
    → b.clock_now_ns s + n ≤ b.clock_now_ns (b.wait_ns n mode s).state

wait_status-ok : (v : ℕ) → wait_status v ≡ nv_ok → v ≡ wait_ok
wait_status-ok v e = ground arith

usleep_fits : (usec : ℕ) → usec ≤ u64_max / 1000 → usec * 1000 < 2 ^ 64
usleep_fits usec h = omega arith

module _ {ℓ} {S : Type ℓ} (b : Bridge S) where
  -- How nvkms_usleep may end: it returns after at least the time asked for, it faults at once where
  -- the nanoseconds would pass 64 bits, or it faults with what the wait reported.
  abbrev pub IsSlept : ℕ → S → Ended S Void → Type 0
  IsSlept usec s (returned _ s') =
      (usec ≤ u64_max / 1000) × (b.clock_now_ns s + usec * 1000 ≤ b.clock_now_ns s')
  IsSlept usec s (faulted operation result s') =
      (operation ≡ fault_wait)
      × (((u64_max / 1000 < usec) × (result ≡ wait_invalid))
          ⊎ ((usec ≤ u64_max / 1000) × (result ≢ wait_ok)))

  module _ (monotonic : IsMonotonic b) where
    -- Over a bridge whose success means that the interval has passed, os_delay_us reports NV_OK
    -- only after that many microseconds, for every NvU32.
    pub os_delay_us_lem :
        (microseconds : ℕ) (s : S)
        → microseconds < 2 ^ 32
        → (os_delay_us b microseconds s).status ≡ nv_ok
        → os_get_current_tick b s + microseconds * 1000
          ≤ os_get_current_tick b (os_delay_us b microseconds s).state
    unfolding os_delay_us os_get_current_tick
    os_delay_us_lem us s h e =
        let fits : us * 1000 % 2 ^ 64 ≡ us * 1000 = omega arith in
        let passed = monotonic (u64 (us * 1000)) wait_busy s (wait_status-ok _ e) in
        omega (arith, fits, passed)

    -- Over a bridge whose success means that the interval has passed, os_delay reports NV_OK only
    -- after that many milliseconds, for every NvU32.
    pub os_delay_lem :
        (milliseconds : ℕ) (s : S)
        → milliseconds < 2 ^ 32
        → (os_delay b milliseconds s).status ≡ nv_ok
        → os_get_current_tick b s + milliseconds * 1000000
          ≤ os_get_current_tick b (os_delay b milliseconds s).state
    unfolding os_delay os_get_current_tick
    os_delay_lem ms s h e =
        let fits : ms * 1000000 % 2 ^ 64 ≡ ms * 1000000 = omega arith in
        let passed = monotonic (u64 (ms * 1000000)) 1 s (wait_status-ok _ e) in
        omega (arith, fits, passed)

    slept :
        (usec : ℕ) (s : S) (mode : ℕ)
        → usec ≤ u64_max / 1000
        → IsSlept usec s (expect_waited b fault_wait (b.wait_ns (u64 (usec * 1000)) mode s))
    slept usec s mode h =
        let fits : usec * 1000 % 2 ^ 64 ≡ usec * 1000 = omega arith in
        elim (Bool-cases ((b.wait_ns (u64 (usec * 1000)) mode s).value == wait_ok)) [
          | inl e ↦
              let passed = monotonic (u64 (usec * 1000)) mode s (eqb→eq _ _ e) in
              rw e (h, omega (arith, fits, passed))
          | inr e ↦ rw e (refl, inr (h, eqb→ne _ _ e))
        ]

    -- Over a bridge whose success means that the interval has passed, nvkms_usleep returns only
    -- after at least that many microseconds; where the nanoseconds would pass 64 bits it faults
    -- as invalid, and else it faults only with a result of the wait that is no success.
    pub nvkms_usleep_lem : (usec : ℕ) (s : S) → IsSlept usec s (nvkms_usleep b usec s)
    unfolding nvkms_usleep
    nvkms_usleep_lem usec s = elim (Bool-cases (ltb (u64_max / 1000) usec)) [
      | inl long ↦ rw long (refl, inl (ltb→lt _ _ long, refl))
      | inr short ↦ rw short (slept usec s _ (ltb→le _ _ short))
    ]
