-- ===== src/Memory/Fill.antt =====
-- r4nv_set of src/rm/memory.h: what the two `rep stos` leave in memory.
use r4os_driver_nvidia.Base.{
  ℕ, zero, suc, ◌+◌, ◌*◌, ◌/◌, ◌%◌, ◌<◌, ◌≡◌, refl, fun_ext, ap, ◌&&◌, arith, leb, ltb,
  if◌then◌else◌, replicate, u64,
}
use r4os_driver_nvidia.Memory.{Memory, store, store_bytes, rep_stos, word_bytes, r4nv_set}

-- The memory after each byte of `[d, d + n)` has become `v`.
abbrev pub filled : ℕ → ℕ → ℕ → Memory → Memory
filled d v n m x = if leb d x && ltb x (d + n) then v else m x

store-replicate :
    (k d v : ℕ) (m : Memory) (x : ℕ) → store_bytes (replicate k v) d m x ≡ filled d v k m x
unfolding store_bytes
store-replicate zero d v m x = ground arith
store-replicate (suc k) d v m x = ground (arith, store-replicate k (d + 1) v (store d v m) x)

filled-filled :
    (d v a b : ℕ) (m : Memory) (x : ℕ)
    → filled (d + a) v b (filled d v a m) x ≡ filled d v (a + b) m x
filled-filled d v a b m x = ground arith

rep_stos_lem :
    (k count n d v : ℕ) (m : Memory)
    → n ≡ k * count
    → rep_stos (replicate k v) k count d m ≡ filled d v n m
unfolding rep_stos
rep_stos_lem k zero n d v m e = fun_ext λ x. ground arith
rep_stos_lem k (suc count) n d v m e =
    let split : n ≡ k + k * count = omega arith in
    rw
      (
        split,
        (fun_ext (store-replicate k d v m)),
        rep_stos_lem k count (k * count) (d + k) v (filled d v k m) refl,
      )
      (fun_ext λ x. filled-filled d v k (k * count) m x)

-- Every byte of the multiplied pattern is the fill value.
pattern_bytes : (v : ℕ) → v < 256 → word_bytes 8 (u64 (v * 0x0101010101010101)) ≡ replicate 8 v
unfolding word_bytes
pattern_bytes v h = ground arith

tail_bytes : (v : ℕ) → v < 256 → word_bytes 1 v ≡ replicate 1 v
unfolding word_bytes
tail_bytes v h = ground arith

-- For a value below 256, r4nv_set puts it in exactly the bytes asked for and leaves all other
-- memory alone.
pub r4nv_set_lem : (d v n : ℕ) (m : Memory) → v < 256 → (r4nv_set d v n m).memory ≡ filled d v n m
unfolding r4nv_set
r4nv_set_lem d v n m h =
    rw
      (
        pattern_bytes v h,
        tail_bytes v h,
        rep_stos_lem 8 (n / 8) (8 * (n / 8)) d v m refl,
        rep_stos_lem 1 (n % 8) (n % 8) (d + 8 * (n / 8)) v (filled d v (8 * (n / 8)) m)
            (omega arith),
        (fun_ext (filled-filled d v (8 * (n / 8)) (n % 8) m)),
      )
      (ap (λ k. filled d v k m) {x = 8 * (n / 8) + n % 8} {y = n} (omega arith))
