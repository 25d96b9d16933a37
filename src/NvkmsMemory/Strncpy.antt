-- ===== src/NvkmsMemory/Strncpy.antt =====
-- nvkms_strncpy of src/rm/nvkms_memory.c.
use Prim.Native.Nat.{min}
use r4os_driver_nvidia.Base.{
  ℕ, zero, suc, ◌+◌, ◌-◌, ◌≤◌, ◌<◌, ◌≡◌, ◌⊎◌, refl, ◌∙◌, fun_ext, ap, ◌&&◌, arith, leb, ltb,
  if◌then◌else◌, dec_lt, ne→eqb, eq→eqb, lt→ltb, le→ltb,
}
use r4os_driver_nvidia.Memory.{Memory, Return, store}
use r4os_driver_nvidia.Memory.Copy.{copied}
use r4os_driver_nvidia.Memory.Fill.{filled, r4nv_set_lem}
use r4os_driver_nvidia.Memory.Strings.{IsString}
use r4os_driver_nvidia.NvkmsMemory.{strncpy_loop, nvkms_strncpy}

-- The spans `[a, a + k)` and `[b, b + l)` have no byte in common.
abbrev pub AreDisjoint : ℕ → ℕ → ℕ → ℕ → Type 0
AreDisjoint a k b l = (a + k ≤ b) ⊎ (b + l ≤ a)

copied-store_next :
    (i d s : ℕ) (m : Memory) (x : ℕ)
    → copied d s i m (s + i) ≡ m (s + i)
    → store (d + i) (copied d s i m (s + i)) (copied d s i m) x ≡ copied d s (i + 1) m x
copied-store_next i d s m x same = rw same (ground arith)

-- The source is not overwritten while the spans are apart.
copied-source :
    (d s bytes n i : ℕ) (m : Memory)
    → AreDisjoint d bytes s (suc n)
    → i ≤ n
    → i < bytes
    → copied d s i m (s + i) ≡ m (s + i)
copied-source d s bytes n i m apart h lt = ground arith

abbrev after : ℕ → ℕ → ℕ → Memory → Return
after d s i m = record { value = i; memory = copied d s i m }

-- The loop at index `i`, when the first `i` characters are copied.
strncpy_loop_lem :
    (left i n bytes d s : ℕ) (m : Memory)
    → IsString s n m
    → AreDisjoint d bytes s (suc n)
    → i + left ≡ bytes
    → i ≤ n
    → strncpy_loop left i d s (copied d s i m) ≡ after d s (min n bytes) m
unfolding strncpy_loop
strncpy_loop_lem zero i n bytes d s m str apart e h =
    ap (λ k. after d s k m) {x = i} {y = min n bytes} (omega arith)
strncpy_loop_lem (suc left) i n bytes d s m str apart e h =
    let same = copied-source d s bytes n i m apart h (omega arith) in
    elim (dec_lt i n) [
      | yes lt ↦
          rw
            (
              ne→eqb (copied d s i m (s + i)) 0 (rw same (str.nonzero i lt)),
              (fun_ext λ x. copied-store_next i d s m x same),
            )
            (strncpy_loop_lem left (i + 1) n bytes d s m str apart (omega arith) (omega arith))
      | no ge ↦
          let end : i ≡ n = omega arith in
          rw (eq→eqb (copied d s i m (s + i)) 0 (rw (same, end) str.terminated))
            (ap (λ k. after d s k m) {x = i} {y = min n bytes} (omega arith))
    ]

strncpy_loop_start :
    (n bytes d s : ℕ) (m : Memory)
    → IsString s n m
    → AreDisjoint d bytes s (suc n)
    → strncpy_loop bytes 0 d s m ≡ after d s (min n bytes) m
strncpy_loop_start n bytes d s m str apart =
    ap (strncpy_loop bytes 0 d s) {x = m} {y = copied d s 0 m} (fun_ext λ x. ground arith)
    ∙ strncpy_loop_lem bytes 0 n bytes d s m str apart (omega arith) (omega arith)

-- What nvkms_strncpy leaves: the first `bytes` characters of the string of length `n` at `s`,
-- and zeros behind a shorter string, at `d`; all other memory as it was.
abbrev pub padded : ℕ → ℕ → ℕ → ℕ → Memory → Memory
padded d s n bytes m x =
    if leb d x && ltb x (d + bytes) then (if ltb (x - d) n then m (s + (x - d)) else 0) else m x

padded_long :
    (d s n bytes : ℕ) (m : Memory) (x : ℕ)
    → bytes ≤ n
    → copied d s (min n bytes) m x ≡ padded d s n bytes m x
padded_long d s n bytes m x h = ground arith

padded_short :
    (d s n bytes : ℕ) (m : Memory) (x : ℕ)
    → n < bytes
    → filled (d + min n bytes) 0 (bytes - min n bytes) (copied d s (min n bytes) m) x
      ≡ padded d s n bytes m x
padded_short d s n bytes m x h = ground arith

-- nvkms_strncpy returns the destination, copies at most `bytes` characters of a string that the
-- destination does not overlap, fills the rest of `bytes` with zeros and changes nothing else.
pub nvkms_strncpy_lem :
    (d s n bytes : ℕ) (m : Memory)
    → IsString s n m
    → AreDisjoint d bytes s (suc n)
    → ((nvkms_strncpy d s bytes m).value ≡ d)
      × ((nvkms_strncpy d s bytes m).memory ≡ padded d s n bytes m)
unfolding nvkms_strncpy
nvkms_strncpy_lem d s n bytes m str apart =
    rw (strncpy_loop_start n bytes d s m str apart) (elim (dec_lt n bytes) [
      | yes lt ↦
          let short : min n bytes < bytes = omega arith in
          rw (lt→ltb _ _ short) (
            refl,
            r4nv_set_lem (d + min n bytes) 0 (bytes - min n bytes) (copied d s (min n bytes) m)
                  (omega arith)
                ∙ fun_ext λ x. padded_short d s n bytes m x lt,
          )
      | no ge ↦
          let long : bytes ≤ min n bytes = omega arith in
          rw (le→ltb _ _ long) (refl, fun_ext λ x. padded_long d s n bytes m x (omega arith))
    ])
