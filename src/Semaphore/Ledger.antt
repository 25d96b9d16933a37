-- ===== src/Semaphore/Ledger.antt =====
-- What callers of src/rm/os_semaphore.c and src/rm/nvkms_semaphore.c may count on: each permit is
-- accounted for.
use r4os_driver_nvidia.Base.{
  ℕ, ◌+◌, ◌≤◌, ◌≡◌, ◌≢◌, inl, inr, refl, arith, Bool, true, false, not, Option, none, some, ap,
  List, [], ◌∷◌, ◌==◌, if◌then◌else◌, Bool-cases, eqb→eq, eqb→ne, u64_max,
}
use r4os_driver_nvidia.Native.{
  Void, Ended, returned, faulted, NvStatus, nv_ok, nv_err_no_memory, nv_err_invalid_request,
  fault_semaphore_up, fault_semaphore_down,
}
use r4os_driver_nvidia.Semaphore.{
  Bridge, Reply, os_alloc_mutex, expect_ok, with_status, sema_ok, status, os_semaphore_may_sleep,
  os_acquire_semaphore, os_acquire_mutex, os_cond_acquire_semaphore, os_cond_acquire_mutex,
  os_release_semaphore, os_release_mutex, nvkms_sema_down, nvkms_sema_up,
}

-- What src/rm/semaphore.h says of the bridge: `permits` counts the free permits of a semaphore, an
-- acquire that reports success has taken one, a release that reports success has given one back,
-- and a call that reports anything else has changed no count. A waiting call takes its place in
-- the order of calls where it gets its permit.
pub record IsCounting {ℓ} {S : Type ℓ} (b : Bridge S) (permits : ℕ → S → ℕ) : Type ℓ where
  pub created :
      (initial : ℕ) (s : S)
      → (b.semaphore_create initial s).value ≢ 0
      → permits (b.semaphore_create initial s).value (b.semaphore_create initial s).state ≡ initial
  pub acquired :
      (sema ticks : ℕ) (s : S)
      → (b.semaphore_acquire sema ticks s).value ≡ sema_ok
      → permits sema (b.semaphore_acquire sema ticks s).state + 1 ≡ permits sema s
  pub not_acquired :
      (sema ticks : ℕ) (s : S)
      → (b.semaphore_acquire sema ticks s).value ≢ sema_ok
      → permits sema (b.semaphore_acquire sema ticks s).state ≡ permits sema s
  pub released :
      (sema : ℕ) (s : S)
      → (b.semaphore_release sema s).value ≡ sema_ok
      → permits sema (b.semaphore_release sema s).state ≡ permits sema s + 1
  pub not_released :
      (sema : ℕ) (s : S)
      → (b.semaphore_release sema s).value ≢ sema_ok
      → permits sema (b.semaphore_release sema s).state ≡ permits sema s

-- The calls that take or give a permit.
pub data Call : Type 0 where
  acquire_semaphore acquire_mutex cond_acquire_semaphore cond_acquire_mutex : Call
  release_semaphore release_mutex sema_down sema_up : Call

-- What has been done by the callers' account, permits taken and given; `stopped` once a call has not
-- returned.
pub record Account {ℓ} (S : Type ℓ) : Type ℓ where
  pub taken : ℕ
  pub given : ℕ
  pub stopped : Bool
  pub state : S

abbrev is_nv_ok : NvStatus → Bool
is_nv_ok nv_ok = true
is_nv_ok _ = false

status-is_nv_ok : (r : ℕ) → is_nv_ok (status r) ≡ (r == sema_ok)
status-is_nv_ok r = ground arith

abbrev the_mutex : Option ℕ → ℕ
the_mutex none = 0
the_mutex (some sema) = sema

created_nonnull : (v : ℕ) → (if v == 0 then nv_err_no_memory else nv_ok) ≡ nv_ok → v ≢ 0
created_nonnull v e = ground arith

-- A status call that reports NV_OK has taken or given one permit, another has done nothing.
abbrev by_status {ℓ} : {S : Type ℓ} → ℕ → ℕ → Reply S NvStatus → Account S
by_status taken given r =
    if is_nv_ok r.value
    then record { taken = taken; given = given; stopped = false; state = r.state }
    else record { taken = 0; given = 0; stopped = false; state = r.state }

-- A void call that returns has taken or given one permit, one that does not return has done
-- nothing.
abbrev by_return {ℓ} : {S : Type ℓ} → ℕ → ℕ → Ended S Void → Account S
by_return taken given (returned _ s) = record {
  taken = taken;
  given = given;
  stopped = false;
  state = s;
}
by_return taken given (faulted operation result s) = record {
  taken = 0;
  given = 0;
  stopped = true;
  state = s;
}

module _ {ℓ} {S : Type ℓ} (b : Bridge S) where
  unfoldable pub perform : Call → ℕ → S → Account S
  perform acquire_semaphore sema s = by_status 1 0 (os_acquire_semaphore b sema s)
  perform acquire_mutex sema s = by_status 1 0 (os_acquire_mutex b sema s)
  perform cond_acquire_semaphore sema s = by_status 1 0 (os_cond_acquire_semaphore b sema s)
  perform cond_acquire_mutex sema s = by_status 1 0 (os_cond_acquire_mutex b sema s)
  perform release_semaphore sema s = by_status 0 1 (os_release_semaphore b sema s)
  perform release_mutex sema s = by_return 0 1 (os_release_mutex b sema s)
  perform sema_down sema s = by_return 1 0 (nvkms_sema_down b sema s)
  perform sema_up sema s = by_return 0 1 (nvkms_sema_up b sema s)

  -- A sequence of calls on one semaphore, which a fault ends; the account is the sum.
  unfoldable pub run : List Call → ℕ → S → Account S
  unfolding perform
  run [] sema s = record { taken = 0; given = 0; stopped = false; state = s }
  run (c ∷ calls) sema s =
      let first = perform c sema s in
      let rest = run calls sema first.state in
      if first.stopped
      then first
      else record rest { taken = first.taken + rest.taken; given = first.given + rest.given }

  module _ (permits : ℕ → S → ℕ) (counting : IsCounting b permits) where
    -- The permits of `sema` and the account make up for each other.
    abbrev pub Balances : ℕ → S → Account S → Type 0
    Balances sema s a = permits sema a.state + a.taken ≡ permits sema s + a.given

    -- A bridge call whose success moves `t` permits one way and `g` the other, behind a status.
    status-Balances :
        (t g sema : ℕ) (s : S) (r : Reply S ℕ)
        → (r.value ≡ sema_ok → permits sema r.state + t ≡ permits sema s + g)
        → (r.value ≢ sema_ok → permits sema r.state ≡ permits sema s)
        → Balances sema s (by_status t g (with_status b r))
    status-Balances t g sema s r good bad = elim (Bool-cases (r.value == sema_ok)) [
      | inl e ↦ rw (status-is_nv_ok r.value, e) (good (eqb→eq _ _ e))
      | inr e ↦ let same = bad (eqb→ne _ _ e) in rw (status-is_nv_ok r.value, e, same) refl
    ]

    -- The same behind a void function that faults on any other result.
    return-Balances :
        (t g operation sema : ℕ) (s : S) (r : Reply S ℕ)
        → (r.value ≡ sema_ok → permits sema r.state + t ≡ permits sema s + g)
        → (r.value ≢ sema_ok → permits sema r.state ≡ permits sema s)
        → Balances sema s (by_return t g (expect_ok b operation r))
    return-Balances t g operation sema s r good bad = elim (Bool-cases (r.value == sema_ok)) [
      | inl e ↦ rw e (good (eqb→eq _ _ e))
      | inr e ↦ let same = bad (eqb→ne _ _ e) in rw (e, same) refl
    ]

    acquire-taken :
        (sema ticks : ℕ) (s : S)
        → (b.semaphore_acquire sema ticks s).value ≡ sema_ok
        → permits sema (b.semaphore_acquire sema ticks s).state + 1 ≡ permits sema s + 0
    acquire-taken sema ticks s e = omega (arith, counting.acquired sema ticks s e)

    release-given :
        (sema : ℕ) (s : S)
        → (b.semaphore_release sema s).value ≡ sema_ok
        → permits sema (b.semaphore_release sema s).state + 0 ≡ permits sema s + 1
    release-given sema s e = omega (arith, counting.released sema s e)

    acquire-Balances :
        (sema ticks : ℕ) (s : S)
        → Balances sema s (by_status 1 0 (with_status b (b.semaphore_acquire sema ticks s)))
    acquire-Balances sema ticks s =
        status-Balances 1 0 sema s _ (acquire-taken sema ticks s)
          (counting.not_acquired sema ticks s)

    guarded-Balances :
        (sleepy : Bool) (sema ticks : ℕ) (s : S)
        → Balances sema s (
            by_status 1 0 (
              if not sleepy
              then record { value = nv_err_invalid_request; state = s }
              else with_status b (b.semaphore_acquire sema ticks s)))
    guarded-Balances true sema ticks s = acquire-Balances sema ticks s
    guarded-Balances false sema ticks s = refl

    perform-Balances : (c : Call) (sema : ℕ) (s : S) → Balances sema s (perform c sema s)
    unfolding perform os_acquire_semaphore os_acquire_mutex os_cond_acquire_semaphore
        os_cond_acquire_mutex os_release_semaphore os_release_mutex nvkms_sema_down nvkms_sema_up
    perform-Balances acquire_semaphore sema s =
        guarded-Balances (os_semaphore_may_sleep b s) sema u64_max s
    perform-Balances acquire_mutex sema s =
        guarded-Balances (os_semaphore_may_sleep b s) sema u64_max s
    perform-Balances cond_acquire_semaphore sema s = acquire-Balances sema 0 s
    perform-Balances cond_acquire_mutex sema s =
        guarded-Balances (os_semaphore_may_sleep b s) sema 0 s
    perform-Balances release_semaphore sema s =
        status-Balances 0 1 sema s _ (release-given sema s) (counting.not_released sema s)
    perform-Balances release_mutex sema s =
        return-Balances 0 1 fault_semaphore_up sema s _ (release-given sema s)
          (counting.not_released sema s)
    perform-Balances sema_down sema s =
        return-Balances 1 0 fault_semaphore_down sema s _ (acquire-taken sema u64_max s)
          (counting.not_acquired sema u64_max s)
    perform-Balances sema_up sema s =
        return-Balances 0 1 fault_semaphore_up sema s _ (release-given sema s)
          (counting.not_released sema s)

    -- Over a bridge that counts permits as semaphore.h says, and any sequence of the calls that
    -- take and give permits on one semaphore, a fault included: the free permits at the end and
    -- those that the callers were told they took add up to the permits at the start and those
    -- that the callers gave back.
    pub run-Balances : (calls : List Call) (sema : ℕ) (s : S) → Balances sema s (run calls sema s)
    unfolding run
    run-Balances [] sema s = refl
    run-Balances (c ∷ calls) sema s =
        let first = perform-Balances c sema s in
        let rest = run-Balances calls sema (perform c sema s).state in
        elim (Bool-cases (perform c sema s).stopped) [
          | inl e ↦ rw e first
          | inr e ↦ rw e (omega (arith, first, rest))
        ]

    -- Mutual exclusion, over a bridge that counts permits as semaphore.h says: after
    -- os_alloc_mutex has reported NV_OK with a mutex, any sequence of the calls on it has taken
    -- it at most once more often than it gave it back.
    pub os_alloc_mutex-excludes :
        (s : S) (sema : ℕ) (calls : List Call)
        → (os_alloc_mutex b true s).value ≡ (nv_ok, some sema)
        → (run calls sema (os_alloc_mutex b true s).state).taken
          ≤ (run calls sema (os_alloc_mutex b true s).state).given + 1
    unfolding os_alloc_mutex
    os_alloc_mutex-excludes s sema calls e =
        let here : (b.semaphore_create 1 s).value ≡ sema = ap (λ p. the_mutex p.1) e in
        let one = counting.created 1 s (created_nonnull _ (ap (λ p. p.0) e)) in
        let start : permits sema (b.semaphore_create 1 s).state ≡ 1 = rw (← here) one in
        omega (arith, start, run-Balances calls sema (b.semaphore_create 1 s).state)
