-- ===== src/Memory/Copy.antt =====
-- r4nv_copy of src/rm/memory.h: what the two `rep movs` leave in memory.
use r4os_driver_nvidia.Base.{
  ℕ, zero, suc, ◌+◌, ◌-◌, ◌*◌, ◌/◌, ◌%◌, ◌≤◌, ◌≡◌, ◌⊎◌, refl, ◌∙◌, fun_ext, ap, sym, ◌&&◌, arith,
  leb, ltb, if◌then◌else◌,
}
use r4os_driver_nvidia.Memory.{Memory, store, load_bytes, store_bytes, rep_movs, r4nv_copy}

-- The memory after all of `[s, s + n)`, as it was, has been put at `d`.
abbrev pub copied : ℕ → ℕ → ℕ → Memory → Memory
copied d s n m x = if leb d x && ltb x (d + n) then m (s + (x - d)) else m x

-- A copy in rising order may overwrite only what it has already read.
abbrev pub IsForwardSafe : ℕ → ℕ → ℕ → Type 0
IsForwardSafe d s n = (d ≤ s) ⊎ (s + n ≤ d)

-- One unit: the loads come before the stores, so any overlap is harmless.
store-load :
    (k d s : ℕ) (m m' : Memory) (x : ℕ)
    → store_bytes (load_bytes k s m) d m' x
      ≡ (if leb d x && ltb x (d + k) then m (s + (x - d)) else m' x)
unfolding load_bytes store_bytes
store-load zero d s m m' x = ground arith
store-load (suc k) d s m m' x = ground (arith, store-load k (d + 1) (s + 1) m (store d (m s) m') x)

-- Two forward-safe pieces one after the other are one copy.
copied-copied :
    (d s a b : ℕ) (m : Memory) (x : ℕ)
    → IsForwardSafe d s (a + b)
    → copied (d + a) (s + a) b (copied d s a m) x ≡ copied d s (a + b) m x
copied-copied d s a b m x safe = ground arith

copied-zero : (d s : ℕ) (m : Memory) (x : ℕ) → copied d s 0 m x ≡ m x
copied-zero d s m x = ground arith

IsForwardSafe-prefix : (d s a b : ℕ) → IsForwardSafe d s (a + b) → IsForwardSafe d s a
IsForwardSafe-prefix d s a b h = omega arith

IsForwardSafe-suffix : (d s a b : ℕ) → IsForwardSafe d s (a + b) → IsForwardSafe (d + a) (s + a) b
IsForwardSafe-suffix d s a b h = omega arith

pub rep_movs_lem :
    (k count n d s : ℕ) (m : Memory)
    → n ≡ k * count
    → IsForwardSafe d s n
    → rep_movs k count d s m ≡ copied d s n m
unfolding rep_movs
rep_movs_lem k zero n d s m e safe = fun_ext λ x. ground arith
rep_movs_lem k (suc count) n d s m e safe =
    let split : n ≡ k + k * count = omega arith in
    let safe' : IsForwardSafe d s (k + k * count) = rw (← split) safe in
    rw
      (
        split,
        (fun_ext (store-load k d s m m)),
        rep_movs_lem k count (k * count) (d + k) (s + k) (copied d s k m) refl
            (IsForwardSafe-suffix d s k (k * count) safe'),
      )
      (fun_ext λ x. copied-copied d s k (k * count) m x safe')

-- Where the destination does not start inside the source span behind its first byte, r4nv_copy
-- leaves the source's bytes as they were at the destination, and all other memory alone.
pub r4nv_copy_lem :
    (d s n : ℕ) (m : Memory) → IsForwardSafe d s n → (r4nv_copy d s n m).memory ≡ copied d s n m
unfolding r4nv_copy
r4nv_copy_lem d s n m safe =
    let split : n ≡ 8 * (n / 8) + n % 8 = omega arith in
    let safe' : IsForwardSafe d s (8 * (n / 8) + n % 8) = omega arith in
    rep_movs_lem 1 (n % 8) (n % 8) (d + 8 * (n / 8)) (s + 8 * (n / 8)) (rep_movs 8 (n / 8) d s m)
      (omega arith) (IsForwardSafe-suffix d s (8 * (n / 8)) (n % 8) safe')
    ∙ ap (copied (d + 8 * (n / 8)) (s + 8 * (n / 8)) (n % 8)) (
        rep_movs_lem 8 (n / 8) (8 * (n / 8)) d s m refl
          (IsForwardSafe-prefix d s (8 * (n / 8)) (n % 8) safe'))
    ∙ (fun_ext λ x. copied-copied d s (8 * (n / 8)) (n % 8) m x safe')
    ∙ ap (λ k. copied d s k m) (sym split)

pub r4nv_copy_value : (d s n : ℕ) (m : Memory) → (r4nv_copy d s n m).value ≡ d
unfolding r4nv_copy
r4nv_copy_value d s n m = refl
