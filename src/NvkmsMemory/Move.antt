-- ===== src/NvkmsMemory/Move.antt =====
-- nvkms_memmove of src/rm/nvkms_memory.c.
use r4os_driver_nvidia.Base.{
  ℕ, zero, suc, ◌+◌, ◌^◌, ◌≤◌, ◌<◌, ◌≡◌, ◌⊎◌, inl, inr, refl, ◌∙◌, fun_ext, ◌||◌, arith, leb, ltb,
  ◌==◌, true, false, Bool-cases, sub64,
}
use r4os_driver_nvidia.Memory.{Memory, store}
use r4os_driver_nvidia.Memory.Copy.{copied, IsForwardSafe, r4nv_copy_lem, r4nv_copy_value}
use r4os_driver_nvidia.NvkmsMemory.{backward_loop, nvkms_memmove}

copied-store :
    (n d s : ℕ) (m : Memory) (x : ℕ)
    → s ≤ d
    → copied d s n (store (d + n) (m (s + n)) m) x ≡ copied d s (suc n) m x
copied-store n d s m x h = ground arith

-- Falling order is safe where the source lies below the destination.
backward_loop_lem : (n d s : ℕ) (m : Memory) → s ≤ d → backward_loop n d s m ≡ copied d s n m
unfolding backward_loop
backward_loop_lem zero d s m h = fun_ext λ x. ground arith
backward_loop_lem (suc n) d s m h =
    backward_loop_lem n d s (store (d + n) (m (s + n)) m) h ∙ fun_ext λ x. copied-store n d s m x h

copied_self : (d n : ℕ) (m : Memory) (x : ℕ) → m x ≡ copied d d n m x
copied_self d n m x = ground arith

copied_none : (d s : ℕ) (m : Memory) (x : ℕ) → m x ≡ copied d s 0 m x
copied_none d s m x = ground arith

skipped : (d s n : ℕ) → (d == s || n == 0) ≡ true → (d ≡ s) ⊎ (n ≡ 0)
skipped d s n h = ground arith

unmoved : (d s n : ℕ) (m : Memory) → (d ≡ s) ⊎ (n ≡ 0) → (x : ℕ) → m x ≡ copied d s n m x
unmoved d s n m (inl e) x = rw e (copied_self s n m x)
unmoved d s n m (inr e) x = rw e (copied_none d s m x)

-- The test for a rising copy, in wrapping arithmetic, admits only safe ones.
rising :
    (d s n : ℕ)
    → d < 2 ^ 64
    → s < 2 ^ 64
    → (d == s || n == 0) ≡ false
    → (ltb d s || leb n (sub64 d s)) ≡ true
    → IsForwardSafe d s n
rising d s n hd hs move up = ground arith

falling : (d s n : ℕ) → (ltb d s || leb n (sub64 d s)) ≡ false → s ≤ d
falling d s n down = ground arith

-- For every overlap of spans in the 64-bit address space, nvkms_memmove returns the destination
-- and leaves there the source's bytes as they were before the call, and all other memory alone.
pub nvkms_memmove_lem :
    (d s n : ℕ) (m : Memory)
    → d < 2 ^ 64
    → s < 2 ^ 64
    → ((nvkms_memmove d s n m).value ≡ d) × ((nvkms_memmove d s n m).memory ≡ copied d s n m)
unfolding nvkms_memmove
nvkms_memmove_lem d s n m hd hs = elim (Bool-cases (d == s || n == 0)) [
  | inl skip ↦ rw skip (refl, fun_ext (unmoved d s n m (skipped d s n skip)))
  | inr move ↦ rw move (elim (Bool-cases (ltb d s || leb n (sub64 d s))) [
    | inl up ↦ rw up (r4nv_copy_value d s n m, r4nv_copy_lem d s n m (rising d s n hd hs move up))
    | inr down ↦ rw down (refl, backward_loop_lem n d s m (falling d s n down))
  ])
]
