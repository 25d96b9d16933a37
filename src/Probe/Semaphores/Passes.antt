-- ===== src/Probe/Semaphores/Passes.antt =====
-- When the semaphore diagnostic (src/rm/semaphore_probe.c) passes.
use r4os_driver_nvidia.Base.{
  ℕ, ◌≡◌, ◌≢◌, ◌↔◌, refl, arith, true, not, List, [], ◌∷◌, ◌==◌, if◌then◌else◌, ℤ, pos, u64_max,
}
use r4os_driver_nvidia.Native.{
  Void, Ended, NvStatus, is_status, nv_ok, nv_err_timeout_retry, nv_err_no_memory,
}
use r4os_driver_nvidia.Semaphore as Semaphore
use r4os_driver_nvidia.Semaphore.{
  Reply, status, expect_ok, with_status, sema_ok, sema_retry, os_semaphore_may_sleep, os_is_isr,
  os_alloc_mutex, os_alloc_semaphore, os_free_semaphore, os_free_mutex, os_acquire_semaphore,
  os_acquire_mutex, os_cond_acquire_semaphore, os_cond_acquire_mutex, os_release_semaphore,
  os_release_mutex, nvkms_sema_alloc, nvkms_sema_free, nvkms_sema_down, nvkms_sema_up,
}
use r4os_driver_nvidia.Heap as Heap
use r4os_driver_nvidia.Probe.{done, Ensures, ends, Step, Step-bind, check-Step, run_void-Step}
use r4os_driver_nvidia.Probe.Semaphores.{
  World, with_semaphore, sema_status, sema_void, check_context, check_null_mutex, make_mutex,
  make_semaphore, clear_semaphore, r4nv_semaphore_probe_healthy,
}

-- A call of the bridge and the answer wanted: a semaphore made with so many permits, a permit taken
-- within so many ticks, a try that finds none, a permit given back, a semaphore freed.
pub data Wanted : Type 0 where
  made : ℕ → Wanted
  taken : ℕ → Wanted
  refused given freed : Wanted

-- A mutex has one permit, a semaphore of two has two, and one of NVKMS has one: each is taken until
-- none is left, tried in vain, given back, taken again, and freed.
abbrev pub script : List Wanted
script =
    made 1
    ∷ taken 0
    ∷ refused
    ∷ given
    ∷ taken u64_max
    ∷ given
    ∷ freed
    ∷ made 2
    ∷ taken 0
    ∷ taken u64_max
    ∷ refused
    ∷ given
    ∷ taken u64_max
    ∷ freed
    ∷ made 1
    ∷ taken u64_max
    ∷ given
    ∷ taken u64_max
    ∷ given
    ∷ freed
    ∷ []

ok_only : (value : ℕ) → (is_status (status value) nv_ok ≡ true) ↔ (value ≡ sema_ok)
ok_only value = (λ e. ground arith, λ e. ground arith)

retry_only :
    (value : ℕ) → (is_status (status value) nv_err_timeout_retry ≡ true) ↔ (value ≡ sema_retry)
retry_only value = (λ e. ground arith, λ e. ground arith)

made_only : (value : ℕ) → (not (value == 0) ≡ true) ↔ (value ≢ 0)
made_only value = (λ e. ground arith, λ e. ground arith)

mutex_only :
    (value : ℕ)
    → (is_status (if value == 0 then nv_err_no_memory else nv_ok) nv_ok ≡ true) ↔ (value ≢ 0)
mutex_only value = (λ e. ground arith, λ e. ground arith)

module _ {ℓ} {S : Type ℓ} (b : Semaphore.Bridge S) where
  -- From a semaphore and a state on, calls made one behind the other get the answers wanted; each is
  -- about the semaphore made last.
  abbrev pub Answers : List Wanted → ℕ → S → Type 0
  Answers [] p s = Unit
  Answers (made n ∷ rest) p s =
      let r = b.semaphore_create n s in (r.value ≢ 0) × Answers rest r.value r.state
  Answers (taken ticks ∷ rest) p s =
      let r = b.semaphore_acquire p ticks s in (r.value ≡ sema_ok) × Answers rest p r.state
  Answers (refused ∷ rest) p s =
      let r = b.semaphore_acquire p 0 s in (r.value ≡ sema_retry) × Answers rest p r.state
  Answers (given ∷ rest) p s =
      let r = b.semaphore_release p s in (r.value ≡ sema_ok) × Answers rest p r.state
  Answers (freed ∷ rest) p s =
      let r = b.semaphore_free p s in (r.value ≡ sema_ok) × Answers rest 0 r.state

  -- The state that the calls leave.
  abbrev pub left_by : List Wanted → ℕ → S → S
  left_by [] p s = s
  left_by (made n ∷ rest) p s = let r = b.semaphore_create n s in left_by rest r.value r.state
  left_by (taken ticks ∷ rest) p s = left_by rest p (b.semaphore_acquire p ticks s).state
  left_by (refused ∷ rest) p s = left_by rest p (b.semaphore_acquire p 0 s).state
  left_by (given ∷ rest) p s = left_by rest p (b.semaphore_release p s).state
  left_by (freed ∷ rest) p s = left_by rest 0 (b.semaphore_free p s).state

module _ {ℓ κ} {S : Type ℓ} {H : Type κ} (b : Semaphore.Bridge S) (a : Heap.Bridge H)
    (sleepable : (s : S) → b.semaphore_context_flags s ≡ 2) (w : World S H) where
  -- The structure with another semaphore and another state of the bridge.
  abbrev at : ℕ → S → World S H
  at p s = with_semaphore p s w

  may_sleep : (s : S) → os_semaphore_may_sleep b s ≡ true
  may_sleep s = rw (sleepable s) refl

  -- The ways to take a permit, and to try.
  abbrev Acquires : ℕ → (ℕ → S → Reply S NvStatus) → Type ℓ
  Acquires ticks call = (p : ℕ) (s : S) → call p s ≡ with_status b (b.semaphore_acquire p ticks s)

  os_acquire_semaphore-Acquires : Acquires u64_max (os_acquire_semaphore b)
  unfolding os_acquire_semaphore
  os_acquire_semaphore-Acquires p s = rw (may_sleep s) refl

  os_acquire_mutex-Acquires : Acquires u64_max (os_acquire_mutex b)
  unfolding os_acquire_mutex
  os_acquire_mutex-Acquires p s = os_acquire_semaphore-Acquires p s

  os_cond_acquire_semaphore-Acquires : Acquires 0 (os_cond_acquire_semaphore b)
  unfolding os_cond_acquire_semaphore
  os_cond_acquire_semaphore-Acquires p s = refl

  os_cond_acquire_mutex-Acquires : Acquires 0 (os_cond_acquire_mutex b)
  unfolding os_cond_acquire_mutex
  os_cond_acquire_mutex-Acquires p s = rw (may_sleep s) (os_cond_acquire_semaphore-Acquires p s)

  take :
      (line ticks : ℕ) (call : ℕ → S → Reply S NvStatus) (p : ℕ) (s : S)
      → Acquires ticks call
      → let r = b.semaphore_acquire p ticks s in
        Step (r.value ≡ sema_ok) (at p r.state) (sema_status b a line nv_ok call (at p s))
  unfolding sema_status
  take line ticks call p s e =
      let r = b.semaphore_acquire p ticks s in
      rw (e p s)
        (check-Step (is_status (status r.value) nv_ok) line (at p r.state) (ok_only r.value))

  refuse :
      (line : ℕ) (call : ℕ → S → Reply S NvStatus) (p : ℕ) (s : S)
      → Acquires 0 call
      → let r = b.semaphore_acquire p 0 s in
        Step
          (r.value ≡ sema_retry)
          (at p r.state)
          (sema_status b a line nv_err_timeout_retry call (at p s))
  unfolding sema_status
  refuse line call p s e =
      let r = b.semaphore_acquire p 0 s in
      rw (e p s) (
        check-Step (is_status (status r.value) nv_err_timeout_retry) line (at p r.state)
          (retry_only r.value))

  give_back :
      (line p : ℕ) (s : S)
      → let r = b.semaphore_release p s in
        Step
          (r.value ≡ sema_ok)
          (at p r.state)
          (sema_status b a line nv_ok (os_release_semaphore b) (at p s))
  unfolding sema_status os_release_semaphore
  give_back line p s =
      let r = b.semaphore_release p s in
      check-Step (is_status (status r.value) nv_ok) line (at p r.state) (ok_only r.value)

  -- A void call that faults with its operation where the bridge does not answer OK.
  abbrev Expects : (ℕ → S → Ended S Void) → (ℕ → S → Reply S ℕ) → Type ℓ
  Expects call inner =
      (p : ℕ) (s : S) → (operation : ℕ) × (call p s ≡ expect_ok b operation (inner p s))

  os_release_mutex-Expects : Expects (os_release_mutex b) b.semaphore_release
  unfolding os_release_mutex
  os_release_mutex-Expects p s = (_, refl)

  nvkms_sema_up-Expects : Expects (nvkms_sema_up b) b.semaphore_release
  unfolding nvkms_sema_up
  nvkms_sema_up-Expects p s = (_, refl)

  nvkms_sema_down-Expects : Expects (nvkms_sema_down b) (λ p s. b.semaphore_acquire p u64_max s)
  unfolding nvkms_sema_down
  nvkms_sema_down-Expects p s = (_, refl)

  os_free_semaphore-Expects : Expects (os_free_semaphore b) b.semaphore_free
  unfolding os_free_semaphore
  os_free_semaphore-Expects p s = (_, refl)

  os_free_mutex-Expects : Expects (os_free_mutex b) b.semaphore_free
  unfolding os_free_mutex
  os_free_mutex-Expects p s = os_free_semaphore-Expects p s

  nvkms_sema_free-Expects : Expects (nvkms_sema_free b) b.semaphore_free
  unfolding nvkms_sema_free
  nvkms_sema_free-Expects p s = (_, refl)

  void_call :
      (call : ℕ → S → Ended S Void) (inner : ℕ → S → Reply S ℕ) (p : ℕ) (s : S)
      → Expects call inner
      → let r = inner p s in Step (r.value ≡ sema_ok) (at p r.state) (sema_void b a call (at p s))
  unfolding sema_void
  void_call call inner p s h =
      let (operation, e) = h p s in
      let r = inner p s in rw e (run_void-Step (λ t. at p t) r.value operation r.state)

  make :
      (line n : ℕ) (call : S → Reply S ℕ) (p : ℕ) (s : S)
      → call s ≡ b.semaphore_create n s
      → let r = b.semaphore_create n s in
        Step (r.value ≢ 0) (at r.value r.state) (make_semaphore b a line call (at p s))
  unfolding make_semaphore
  make line n call p s e =
      let r = b.semaphore_create n s in
      rw e (check-Step (not (r.value == 0)) line (at r.value r.state) (made_only r.value))

  os_alloc_semaphore-creates : (n : ℕ) (s : S) → os_alloc_semaphore b n s ≡ b.semaphore_create n s
  unfolding os_alloc_semaphore
  os_alloc_semaphore-creates n s = refl

  nvkms_sema_alloc-creates : (s : S) → nvkms_sema_alloc b s ≡ b.semaphore_create 1 s
  unfolding nvkms_sema_alloc
  nvkms_sema_alloc-creates s = refl

  mutex :
      (line p : ℕ) (s : S)
      → let r = b.semaphore_create 1 s in
        Step (r.value ≢ 0) (at r.value r.state) (make_mutex b a line (at p s))
  unfolding make_mutex os_alloc_mutex
  mutex line p s =
      let r = b.semaphore_create 1 s in
      check-Step (is_status (if r.value == 0 then nv_err_no_memory else nv_ok) nv_ok) line
        (at r.value r.state) (mutex_only r.value)

  context : check_context b a 10 w ≡ done tt w
  unfolding check_context
  context = rw (sleepable w.sema) refl

  null_mutex : check_null_mutex b a 11 w ≡ done tt w
  unfolding check_null_mutex os_alloc_mutex
  null_mutex = refl

  -- The result 0, no semaphore in the structure, and the bridge as the calls leave it.
  abbrev pub Succeeds : ℤ → World S H → Type (ℓ ⊔ κ)
  Succeeds result w' =
      (result ≡ pos 0) × (w' ≡ with_semaphore 0 (left_by b script w.probe.semaphore w.sema) w)

  -- In a sleepable context that is no interrupt's, the semaphore diagnostic ends with 0 exactly where
  -- the bridge's twenty calls, made in their order, all get the answers wanted: what is created is
  -- not NULL, a free permit is taken, a try with none free asks to retry, and each release and free
  -- succeeds. The structure then holds no semaphore, and the bridge is as those calls leave it.
  pub r4nv_semaphore_probe_healthy_iff :
      Ensures Succeeds (r4nv_semaphore_probe_healthy b a w)
      ↔ Answers b script w.probe.semaphore w.sema
  unfolding r4nv_semaphore_probe_healthy clear_semaphore
  r4nv_semaphore_probe_healthy_iff =
      rw (context, null_mutex)
        (Step-bind _ (mutex 12 _ _) λ _.
          Step-bind _ (take 13 0 (os_cond_acquire_mutex b) _ _ os_cond_acquire_mutex-Acquires) λ _.
            Step-bind _ (refuse 14 (os_cond_acquire_mutex b) _ _ os_cond_acquire_mutex-Acquires)
              λ _. Step-bind _ (void_call (os_release_mutex b) _ _ _ os_release_mutex-Expects) λ _.
                Step-bind _ (take 16 u64_max (os_acquire_mutex b) _ _ os_acquire_mutex-Acquires)
                  λ _.
                    Step-bind _ (void_call (os_release_mutex b) _ _ _ os_release_mutex-Expects) λ _.
                      Step-bind _ (void_call (os_free_mutex b) _ _ _ os_free_mutex-Expects) λ _.
                        Step-bind _
                          (make 22 2 (os_alloc_semaphore b 2) _ _ (os_alloc_semaphore-creates 2 _))
                          λ _.
                            Step-bind _
                              (take 23 0 (os_cond_acquire_semaphore b) _ _
                                os_cond_acquire_semaphore-Acquires)
                              λ _.
                                Step-bind _
                                  (take 24 u64_max (os_acquire_semaphore b) _ _
                                    os_acquire_semaphore-Acquires)
                                  λ _.
                                    Step-bind _
                                      (refuse 25 (os_cond_acquire_semaphore b) _ _
                                        os_cond_acquire_semaphore-Acquires)
                                      λ _. Step-bind _ (give_back 26 _ _) λ _.
                                        Step-bind _
                                          (take 27 u64_max (os_acquire_semaphore b) _ _
                                            os_acquire_semaphore-Acquires)
                                          λ _.
                                            Step-bind _
                                              (void_call (os_free_semaphore b) _ _ _
                                                os_free_semaphore-Expects)
                                              λ _.
                                                Step-bind _
                                                  (make 32 1 (nvkms_sema_alloc b) _ _
                                                    (nvkms_sema_alloc-creates _))
                                                  λ _.
                                                    Step-bind _
                                                      (void_call (nvkms_sema_down b) _ _ _
                                                        nvkms_sema_down-Expects)
                                                      λ _.
                                                        Step-bind _
                                                          (void_call (nvkms_sema_up b) _ _ _
                                                            nvkms_sema_up-Expects)
                                                          λ _.
                                                            Step-bind _
                                                            (void_call (nvkms_sema_down b) _ _ _
                                                            nvkms_sema_down-Expects)
                                                            λ _.
                                                            Step-bind _
                                                            (void_call (nvkms_sema_up b) _ _ _
                                                            nvkms_sema_up-Expects)
                                                            λ _.
                                                            Step-bind _
                                                            (void_call (nvkms_sema_free b) _ _ _
                                                            nvkms_sema_free-Expects)
                                                            λ _. (
                                                            λ _. tt,
                                                            λ _. ends (pos 0) _ (refl, refl),
                                                            ))
