-- ===== src/Probe/Semaphores/Pattern.antt =====
-- The setting up and the cleaning up of src/rm/semaphore_probe.c: the pattern in the allocated memory.
use r4os_driver_nvidia.Base.{
  ℕ, zero, suc, ◌+◌, ◌≤◌, ◌<◌, ◌≡◌, ◌≢◌, inl, inr, refl, arith, Bool, true, false, ◌&&◌, ◌==◌,
  Bool-cases, ap, sym, eqb→ne, eqb→eq, eq→eqb, ne→eqb, ◌∙◌, dec_lt, ℤ, pos,
}
use r4os_driver_nvidia.Memory.{Memory, store}
use r4os_driver_nvidia.Semaphore as Semaphore
use r4os_driver_nvidia.Native.{fault_semaphore_free}
use r4os_driver_nvidia.Semaphore.{sema_ok, os_alloc_semaphore, nvkms_sema_free}
use r4os_driver_nvidia.Semaphore.Ledger.{IsCounting}
use r4os_driver_nvidia.Heap as Heap
use r4os_driver_nvidia.Heap.{os_alloc_mem}
use r4os_driver_nvidia.Probe.{Attempt, done, failed, aborted, Ensures, ends, Ensures-bind}
use r4os_driver_nvidia.Probe.Semaphores.{
  World, pattern_byte, pattern_loop, pattern_kept, sema_void, make_memory, fill_memory,
  make_semaphore, check_memory, clear_semaphore, r4nv_semaphore_probe_setup,
  r4nv_semaphore_probe_cleanup,
}

-- The `n` bytes from place `i` of the block at `p` are the pattern's.
abbrev pub HoldsPattern : ℕ → ℕ → ℕ → Memory → Type 0
HoldsPattern n i p m = (j : ℕ) → i ≤ j → j < i + n → m (p + j) ≡ pattern_byte j

store_self : (q v : ℕ) (m : Memory) → store q v m q ≡ v
store_self q v m = ground arith

pattern_loop-before : (n i p x : ℕ) (m : Memory) → x < p + i → pattern_loop n i p m x ≡ m x
unfolding pattern_loop
pattern_loop-before zero i p x m h = refl
pattern_loop-before (suc n) i p x m h =
    ground (arith, pattern_loop-before n (i + 1) p x (store (p + i) (pattern_byte i) m))

pattern_loop-HoldsPattern : (n i p : ℕ) (m : Memory) → HoldsPattern n i p (pattern_loop n i p m)
unfolding pattern_loop
pattern_loop-HoldsPattern zero i p m j low high = absurd (omega arith)
pattern_loop-HoldsPattern (suc n) i p m j low high = elim (dec_lt i j) [
  | yes later ↦
      pattern_loop-HoldsPattern n (i + 1) p (store (p + i) (pattern_byte i) m) j (omega arith)
        (omega arith)
  | no first ↦
      let same : j ≡ i = omega arith in
      rw same (
        pattern_loop-before n (i + 1) p (p + i) (store (p + i) (pattern_byte i) m) (omega arith)
        ∙ store_self (p + i) (pattern_byte i) m)
]

both : (x y : Bool) → (x && y) ≡ true → (x ≡ true) × (y ≡ true)
both x y h = ground arith

pattern_kept-HoldsPattern :
    (n i p : ℕ) (m : Memory) → pattern_kept n i p m ≡ true → HoldsPattern n i p m
unfolding pattern_kept
pattern_kept-HoldsPattern zero i p m h j low high = absurd (omega arith)
pattern_kept-HoldsPattern (suc n) i p m h j low high =
    let (now, later) = both (m (p + i) == pattern_byte i) (pattern_kept n (i + 1) p m) h in
    elim (dec_lt i j) [
      | yes behind ↦ pattern_kept-HoldsPattern n (i + 1) p m later j (omega arith) (omega arith)
      | no first ↦
          let same : j ≡ i = omega arith in rw same (eqb→eq (m (p + i)) (pattern_byte i) now)
    ]

HoldsPattern-pattern_kept :
    (n i p : ℕ) (m : Memory) → HoldsPattern n i p m → pattern_kept n i p m ≡ true
unfolding pattern_kept
HoldsPattern-pattern_kept zero i p m h = refl
HoldsPattern-pattern_kept (suc n) i p m h =
    let now = eq→eqb (m (p + i)) (pattern_byte i) (h i (omega arith) (omega arith)) in
    let later =
      HoldsPattern-pattern_kept n (i + 1) p m (λ j low high. h j (omega arith) (omega arith)) in
    rw (now, later) refl

module _ {ℓ κ} {S : Type ℓ} {H : Type κ} (b : Semaphore.Bridge S) (permits : ℕ → S → ℕ)
    (counting : IsCounting b permits) (a : Heap.Bridge H) where
  -- The block holds the pattern, and the semaphore is there with no free permit.
  abbrev pub IsSetUp : ℤ → World S H → Type 0
  IsSetUp result w =
      (result ≡ pos 0)
      × HoldsPattern 97 0 w.probe.memory w.heap.memory
      × (permits w.probe.semaphore w.sema ≡ 0)
      × (w.probe.memory ≢ 0)

  make_memory-Ensures :
      (line : ℕ) (w : World S H)
      → (a.heap_allocate 97 w.heap).pointer ≢ 0
      → Ensures (λ _ w'. (w'.probe.memory ≢ 0) × (w'.sema ≡ w.sema)) (make_memory b a line w)
  unfolding make_memory os_alloc_mem
  make_memory-Ensures line w block = rw (ne→eqb _ _ block) (ends tt _ (block, refl))

  fill_memory-Ensures :
      (w : World S H)
      → w.probe.memory ≢ 0
      → Ensures
          (λ _ w'.
            (w'.probe.memory ≢ 0)
            × HoldsPattern 97 0 w'.probe.memory w'.heap.memory
            × (w'.sema ≡ w.sema))
          (fill_memory b a w)
  unfolding fill_memory
  fill_memory-Ensures w block =
      ends tt _ (block, pattern_loop-HoldsPattern 97 0 w.probe.memory w.heap.memory, refl)

  make_semaphore-Ensures :
      (line : ℕ) (w : World S H)
      → w.probe.memory ≢ 0
      → HoldsPattern 97 0 w.probe.memory w.heap.memory
      → (b.semaphore_create 0 w.sema).value ≢ 0
      → Ensures (λ _ w'. IsSetUp (pos 0) w') (make_semaphore b a line (os_alloc_semaphore b 0) w)
  unfolding make_semaphore os_alloc_semaphore
  make_semaphore-Ensures line w block pattern made =
      rw (ne→eqb _ _ made) (ends tt _ (refl, pattern, counting.created 0 w.sema made, block))

  -- Where the heap has the 97 bytes and the bridge, which counts permits, a semaphore,
  -- r4nv_semaphore_probe_setup returns 0 with the pattern in its block and a semaphore with no permit.
  pub r4nv_semaphore_probe_setup_lem :
      (w : World S H)
      → (a.heap_allocate 97 w.heap).pointer ≢ 0
      → (b.semaphore_create 0 w.sema).value ≢ 0
      → Ensures IsSetUp (r4nv_semaphore_probe_setup b a w)
  unfolding r4nv_semaphore_probe_setup
  r4nv_semaphore_probe_setup_lem w0 block made =
      Ensures-bind _ (make_memory-Ensures 44 w0 block) λ _ w1 h1.
        Ensures-bind _ (fill_memory-Ensures w1 h1.0) λ _ w2 h2.
          Ensures-bind _
            (make_semaphore-Ensures 47 w2 h2.0 h2.1
              (λ e. made (ap (λ s. (b.semaphore_create 0 s).value) (sym (h2.2 ∙ h1.1)) ∙ e)))
            λ _ w3 h3. ends (pos 0) w3 h3

module _ {ℓ κ} {S : Type ℓ} {H : Type κ} (b : Semaphore.Bridge S) (a : Heap.Bridge H) where
  -- How the cleaning up ends: with 0 and the semaphore freed, at the CHECK of line 76 with nothing
  -- changed, or by the fault of a free that fails, which leaves the structure its semaphore.
  abbrev pub IsCleaned : World S H → Attempt (World S H) ℤ → Type ℓ
  IsCleaned w (done result w') =
      let freed = b.semaphore_free w.probe.semaphore w.sema in
      HoldsPattern 97 0 w.probe.memory w.heap.memory
      × (freed.value ≡ sema_ok)
      × (result ≡ pos 0)
      × (w'.probe ≡ record (w.probe) { semaphore = 0 })
      × (w'.sema ≡ freed.state)
  IsCleaned w (failed line w') =
      (¬ HoldsPattern 97 0 w.probe.memory w.heap.memory)
      × (line ≡ 76)
      × (w'.sema ≡ w.sema)
      × (w'.probe ≡ w.probe)
  IsCleaned w (aborted operation result w') =
      let freed = b.semaphore_free w.probe.semaphore w.sema in
      HoldsPattern 97 0 w.probe.memory w.heap.memory
      × (freed.value ≢ sema_ok)
      × (operation ≡ fault_semaphore_free)
      × (w'.probe ≡ w.probe)
      × (w'.sema ≡ freed.state)

  -- r4nv_semaphore_probe_cleanup returns 0 only where the block still holds all 97 bytes of the
  -- pattern and the semaphore was freed, and then forgets the semaphore. A lost pattern fails the CHECK
  -- of line 76, and nothing is freed; a free that fails leaves by its fault with the semaphore kept in
  -- the structure.
  pub r4nv_semaphore_probe_cleanup_lem :
      (w : World S H) → IsCleaned w (r4nv_semaphore_probe_cleanup b a w)
  unfolding r4nv_semaphore_probe_cleanup check_memory sema_void nvkms_sema_free clear_semaphore
  r4nv_semaphore_probe_cleanup_lem w =
      let freed = (b.semaphore_free w.probe.semaphore w.sema).value in
      let kept = pattern_kept-HoldsPattern 97 0 w.probe.memory w.heap.memory in
      elim (Bool-cases (pattern_kept 97 0 w.probe.memory w.heap.memory)) [
        | inl e ↦ elim (Bool-cases (freed == sema_ok)) [
          | inl f ↦ rw (e, f) (kept e, eqb→eq _ _ f, refl, refl, refl)
          | inr f ↦ rw (e, f) (kept e, eqb→ne _ _ f, refl, refl, refl)
        ]
        | inr e ↦ rw e (lost e, refl, refl, refl)
      ]
    where
      lost :
          pattern_kept 97 0 w.probe.memory w.heap.memory ≡ false
          → ¬ HoldsPattern 97 0 w.probe.memory w.heap.memory
      lost e h = let k = HoldsPattern-pattern_kept 97 0 w.probe.memory w.heap.memory h in cc
