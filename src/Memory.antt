-- ===== src/Memory.antt =====
-- src/rm/memory.h: copies, fills and comparisons of CPU memory on x86_64.
-- The memory is a function from addresses to bytes; a pointer is an address, and no span that the
-- routines are given wraps round the address space. A loop that a C string's NUL ends takes fuel,
-- and `none` is its running out; Memory/Strings shows which fuel is enough.
pub mod Copy
pub mod Fill
pub mod Compare
pub mod Strings
use r4os_driver_nvidia.Base.{
  ℕ, zero, suc, ◌+◌, ◌*◌, ◌/◌, ◌%◌, ◌^◌, Bool, not, List, [], ◌∷◌, Option, none, some, ◌==◌,
  if◌then◌else◌, u8, u64, ℤ, pos, sub_ℕ,
}

abbrev pub Memory : Type 0
Memory = ℕ → ℕ

abbrev pub store : ℕ → ℕ → Memory → Memory
store p v m q = if q == p then v else m q

-- The bytes that one instruction of width `k` loads, lowest address first.
unfoldable pub load_bytes : ℕ → ℕ → Memory → List ℕ
load_bytes zero p m = []
load_bytes (suc k) p m = m p ∷ load_bytes k (p + 1) m

pub store_bytes : List ℕ → ℕ → Memory → Memory
store_bytes [] p m = m
store_bytes (b ∷ bs) p m = store_bytes bs (p + 1) (store p b m)

-- `rep movs` on units of `k` bytes with DF = 0: each unit is loaded whole, then stored.
pub rep_movs : ℕ → ℕ → ℕ → ℕ → Memory → Memory
rep_movs k zero d s m = m
rep_movs k (suc count) d s m = rep_movs k count (d + k) (s + k) (store_bytes (load_bytes k s m) d m)

-- `rep stos` of one unit.
pub rep_stos : List ℕ → ℕ → ℕ → ℕ → Memory → Memory
rep_stos unit k zero d m = m
rep_stos unit k (suc count) d m = rep_stos unit k count (d + k) (store_bytes unit d m)

-- A result with the memory that a call leaves.
pub record Return : Type 0 where
  pub value : ℕ
  pub memory : Memory

unfoldable pub r4nv_copy : ℕ → ℕ → ℕ → Memory → Return
r4nv_copy destination source bytes m =
    let words = bytes / 8 in
    let tail = bytes % 8 in
    record {
      value = destination;
      memory =
          rep_movs 1 tail (destination + 8 * words) (source + 8 * words)
            (rep_movs 8 words destination source m);
    }

-- The `k` bytes of a word in little-endian order.
pub word_bytes : ℕ → ℕ → List ℕ
word_bytes zero w = []
word_bytes (suc k) w = w % 256 ∷ word_bytes k (w / 256)

unfoldable pub r4nv_set : ℕ → ℕ → ℕ → Memory → Return
r4nv_set destination value bytes m =
    let words = bytes / 8 in
    let tail = bytes % 8 in
    let pattern_word = u64 (value * 0x0101010101010101) in
    record {
      value = destination;
      memory =
          rep_stos (word_bytes 1 value) 1 tail (destination + 8 * words)
            (rep_stos (word_bytes 8 pattern_word) 8 words destination m);
    }

-- for (i = ...; i < bytes; ++i), with `left` rounds to go.
pub compare_loop : ℕ → ℕ → ℕ → ℕ → Memory → ℤ
compare_loop zero i left right m = pos 0
compare_loop (suc rest) i left right m =
    let next = compare_loop rest (i + 1) left right m in
    if m (left + i) == m (right + i) then next else sub_ℕ (m (left + i)) (m (right + i))

unfoldable pub r4nv_compare : ℕ → ℕ → ℕ → Memory → ℤ
unfolding compare_loop
r4nv_compare left right bytes m = compare_loop bytes 0 left right m

-- while (text[length] != '\0') ++length.
pub length_loop : ℕ → ℕ → ℕ → Memory → Option ℕ
length_loop zero text length m = none
length_loop (suc fuel) text length m =
    let next = length_loop fuel text (length + 1) m in
    if m (text + length) == 0 then some length else next

unfoldable pub r4nv_length : ℕ → ℕ → Memory → Option ℕ
unfolding length_loop
r4nv_length fuel text m = length_loop fuel text 0 m

unfoldable pub r4nv_string_compare : ℕ → ℕ → ℕ → Memory → Option ℤ
r4nv_string_compare zero a b m = none
r4nv_string_compare (suc fuel) a b m =
    let next = r4nv_string_compare fuel (a + 1) (b + 1) m in
    if m a == 0
    then some (sub_ℕ (m a) (m b))
    else if m a == m b
    then next
    else some (sub_ℕ (m a) (m b))
