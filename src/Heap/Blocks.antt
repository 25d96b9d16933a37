-- ===== src/Heap/Blocks.antt =====
-- What nvkms_alloc (src/rm/nvkms_memory.c) and os_alloc_mem (src/rm/os_memory.c) do to the blocks
-- of the heap.
use r4os_driver_nvidia.Base.{
  ℕ, ◌+◌, ◌≤◌, ◌<◌, ◌≡◌, ◌≢◌, ◌⊎◌, inl, inr, refl, ◌∙◌, arith, Bool, true, false, not, ◌&&◌, ◌==◌,
  if◌then◌else◌, Bool-cases, eqb→eq, eqb→ne,
}
use r4os_driver_nvidia.Memory.{Memory, r4nv_set}
use r4os_driver_nvidia.Memory.Fill.{filled, r4nv_set_lem}
use r4os_driver_nvidia.Heap.{Bridge, Heap, Allocated, nvkms_alloc}

-- What the heap promises, where `live` says which blocks (address and size) are in use: a block it
-- gives out lies apart from every block in use, which stays in use, and their bytes are kept.
pub record IsHeap {ℓ} {S : Type ℓ} (b : Bridge S) (live : S → ℕ → ℕ → Type 0) : Type ℓ where
  pub apart :
      (n : ℕ) (h : Heap S) (p k : ℕ)
      → live h.state p k
      → (b.heap_allocate n h).pointer ≢ 0
      → (p + k ≤ (b.heap_allocate n h).pointer) ⊎ ((b.heap_allocate n h).pointer + n ≤ p)
  pub kept :
      (n : ℕ) (h : Heap S) (p k i : ℕ)
      → live h.state p k
      → i < k
      → (b.heap_allocate n h).memory (p + i) ≡ h.memory (p + i)

abbrev request : ℕ → ℕ
request bytes = if bytes == 0 then 1 else bytes

request_ge : (bytes : ℕ) → bytes ≤ request bytes
request_ge bytes = ground arith

filled_inside : (d v n : ℕ) (m : Memory) (i : ℕ) → i < n → filled d v n m (d + i) ≡ v
filled_inside d v n m i h = ground arith

filled_outside : (d v n x : ℕ) (m : Memory) → (x < d) ⊎ (d + n ≤ x) → filled d v n m x ≡ m x
filled_outside d v n x m h = ground arith

outside :
    (p k q n r i : ℕ) → (p + k ≤ q) ⊎ (q + r ≤ p) → n ≤ r → i < k → (p + i < q) ⊎ (q + n ≤ p + i)
outside p k q n r i h le lt = omega arith

module _ {ℓ} {S : Type ℓ} (b : Bridge S) (live : S → ℕ → ℕ → Type 0) (heap : IsHeap b live) where
  abbrev answer : ℕ → Heap S → Allocated S
  answer bytes h = b.heap_allocate (request bytes) h

  -- What the code does with the block it got.
  abbrev cleared : ℕ → Bool → Allocated S → Allocated S
  cleared bytes zero r =
      if not (r.pointer == 0) && zero
      then record r { memory = (r4nv_set r.pointer 0 bytes r.memory).memory }
      else r

  clears :
      (bytes i : ℕ) (r : Allocated S)
      → (cleared bytes true r).pointer ≢ 0
      → i < bytes
      → (cleared bytes true r).memory ((cleared bytes true r).pointer + i) ≡ 0
  clears bytes i r ne lt = elim (Bool-cases (r.pointer == 0)) [
    | inl null ↦ absurd (rw null at ne (eqb→eq _ _ null))
    | inr block ↦
        rw (block, r4nv_set_lem r.pointer 0 bytes r.memory (omega arith))
          (filled_inside r.pointer 0 bytes r.memory i lt)
  ]

  -- A byte that lies outside a block given out is not cleared.
  keeps :
      (bytes : ℕ) (zero : Bool) (r : Allocated S) (x : ℕ)
      → (r.pointer ≢ 0 → (x < r.pointer) ⊎ (r.pointer + bytes ≤ x))
      → (cleared bytes zero r).memory x ≡ r.memory x
  keeps bytes false r x h = elim (Bool-cases (r.pointer == 0)) [
    | inl null ↦ rw null refl
    | inr block ↦ rw block refl
  ]
  keeps bytes true r x h = elim (Bool-cases (r.pointer == 0)) [
    | inl null ↦ rw null refl
    | inr block ↦
        rw (block, r4nv_set_lem r.pointer 0 bytes r.memory (omega arith))
          (filled_outside r.pointer 0 bytes x r.memory (h (eqb→ne _ _ block)))
  ]

  -- A block that nvkms_alloc is asked to clear holds zeros over the bytes asked for, if it is
  -- given out, on a heap that keeps the blocks in use apart and unchanged.
  pub nvkms_alloc-clears :
      (bytes i : ℕ) (h : Heap S)
      → (nvkms_alloc b bytes true h).pointer ≢ 0
      → i < bytes
      → (nvkms_alloc b bytes true h).memory ((nvkms_alloc b bytes true h).pointer + i) ≡ 0
  unfolding nvkms_alloc
  nvkms_alloc-clears bytes i h ne lt = clears bytes i (answer bytes h) ne lt

  -- On a heap that gives out blocks apart from those in use and keeps their bytes, nvkms_alloc,
  -- cleared or not, changes no byte of a block in use.
  pub nvkms_alloc-keeps :
      (bytes : ℕ) (zero : Bool) (h : Heap S) (p k i : ℕ)
      → live h.state p k
      → i < k
      → (nvkms_alloc b bytes zero h).memory (p + i) ≡ h.memory (p + i)
  unfolding nvkms_alloc
  nvkms_alloc-keeps bytes z h p k i l lt =
      keeps bytes z (answer bytes h) (p + i) (λ ne.
        outside p k (answer bytes h).pointer bytes (request bytes) i
          (heap.apart (request bytes) h p k l ne) (request_ge bytes) lt)
      ∙ heap.kept (request bytes) h p k i l lt
