-- ===== src/OsMemory/StringCopy.antt =====
-- os_string_copy and os_string_length of src/rm/os_memory.c.
use r4os_driver_nvidia.Base.{
  ℕ, zero, suc, ◌+◌, ◌-◌, ◌≤◌, ◌<◌, ◌≡◌, ◌⊎◌, ◌∙◌, fun_ext, ap, arith, dec_lt, ne→eqb, eq→eqb, some,
  ◌%◌, ◌^◌,
}
use r4os_driver_nvidia.Memory.{Memory, store}
use r4os_driver_nvidia.Memory.Copy.{copied}
use r4os_driver_nvidia.Memory.Strings.{IsString, r4nv_length_lem}
use r4os_driver_nvidia.OsMemory.{string_copy_loop, os_string_copy, os_string_length}

-- The memory after round `i`.
abbrev after : ℕ → ℕ → ℕ → Memory → Memory
after i d s m = store (d + i) (copied d s i m (s + i)) (copied d s i m)

succ : (p k : ℕ) → p + k + 1 ≡ p + (k + 1)
succ p k = omega arith

-- The destination lies below the string, or behind its NUL.
abbrev pub IsApart : ℕ → ℕ → ℕ → Type 0
IsApart d s n = (d < s) ⊎ (s + n < d)

kept : (i n d s : ℕ) (m : Memory) → IsApart d s n → i ≤ n → after i d s m (s + i) ≡ m (s + i)
kept i n d s m apart h = ground arith

stored :
    (i n d s : ℕ) (m : Memory)
    → IsApart d s n
    → i ≤ n
    → (x : ℕ) → after i d s m x ≡ copied d s (i + 1) m x
stored i n d s m apart h x = ground arith

-- The loop at index `i`.
string_copy_loop_lem :
    (fuel i n d s : ℕ) (m : Memory)
    → IsString s n m
    → IsApart d s n
    → i ≤ n
    → n - i < fuel
    → string_copy_loop fuel (d + i) (s + i) (copied d s i m) ≡ some (copied d s (n + 1) m)
unfolding string_copy_loop
string_copy_loop_lem zero i n d s m str apart h f = absurd (omega arith)
string_copy_loop_lem (suc fuel) i n d s m str apart h f = elim (dec_lt i n) [
  | yes lt ↦
      rw
        (
          ne→eqb (after i d s m (s + i)) 0 (rw (kept i n d s m apart h) (str.nonzero i lt)),
          (fun_ext (stored i n d s m apart h)),
          succ d i,
          succ s i,
        )
        (string_copy_loop_lem fuel (i + 1) n d s m str apart (omega arith) (omega arith))
  | no ge ↦
      let end : i ≡ n = omega arith in
      rw (eq→eqb (after i d s m (s + i)) 0 (rw (kept i n d s m apart h, end) str.terminated))
        (ap some (fun_ext (stored i n d s m apart h) ∙ ap (λ k. copied d s (k + 1) m) end))
]

-- With fuel above the length, os_string_copy returns the destination and copies the string with
-- its NUL, and nothing else, where the destination starts below the string or behind its NUL.
pub os_string_copy_lem :
    (fuel n d s : ℕ) (m : Memory)
    → IsString s n m
    → IsApart d s n
    → n < fuel
    → os_string_copy fuel d s m ≡ some (record { value = d; memory = copied d s (n + 1) m })
unfolding os_string_copy
os_string_copy_lem fuel n d s m str apart h =
    let go = string_copy_loop_lem fuel 0 n d s m str apart (omega arith) (omega arith) in
    let ed : d + 0 ≡ d = omega arith in
    let es : s + 0 ≡ s = omega arith in
    let em : copied d s 0 m ≡ m = fun_ext λ x. ground arith in
    let run : string_copy_loop fuel d s m ≡ some (copied d s (n + 1) m) = rw (ed, es, em) at go in
    rw run

-- On a string of `n` characters, with fuel above that, os_string_length returns `n` modulo 2 ^
-- 32.
pub os_string_length_lem :
    (fuel p n : ℕ) (m : Memory)
    → IsString p n m
    → n < fuel
    → os_string_length fuel p m ≡ some (n % 2 ^ 32)
unfolding os_string_length
os_string_length_lem fuel p n m str h = rw (r4nv_length_lem fuel p n m str h)
