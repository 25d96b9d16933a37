-- ===== src/OsMemory.antt =====
-- src/rm/os_memory.c (but for the heap calls, which are in Heap): the copies, fills and C strings
-- of the RM interface.
pub mod StringCopy
use r4os_driver_nvidia.Base.{
  ℕ, zero, suc, ◌+◌, Option, some, none, ◌==◌, if◌then◌else◌, u32, ℤ, ◌>>=◌,
}
use r4os_driver_nvidia.Memory.{
  Memory, Return, store, r4nv_copy, r4nv_set, r4nv_compare, r4nv_length, r4nv_string_compare,
}

unfoldable pub os_mem_copy : ℕ → ℕ → ℕ → Memory → Return
os_mem_copy destination source bytes m = r4nv_copy destination source bytes m

unfoldable pub os_mem_set : ℕ → ℕ → ℕ → Memory → Return
os_mem_set destination value bytes m = r4nv_set destination value bytes m

unfoldable pub os_mem_cmp : ℕ → ℕ → ℕ → Memory → ℤ
os_mem_cmp left right bytes m = r4nv_compare left right bytes m

-- do { *destination++ = *source; } while (*source++ != '\0'): the character is tested after it
-- has been stored.
pub string_copy_loop : ℕ → ℕ → ℕ → Memory → Option Memory
string_copy_loop zero d s m = none
string_copy_loop (suc fuel) d s m =
    let m' = store d (m s) m in
    let next = string_copy_loop fuel (d + 1) (s + 1) m' in if m' s == 0 then some m' else next

unfoldable pub os_string_copy : ℕ → ℕ → ℕ → Memory → Option Return
unfolding string_copy_loop
os_string_copy fuel destination source m = do
  m' ← string_copy_loop fuel destination source m
  some (record { value = destination; memory = m' })

-- (NvU32) of the length.
unfoldable pub os_string_length : ℕ → ℕ → Memory → Option ℕ
os_string_length fuel text m = do n ← r4nv_length fuel text m; some (u32 n)

unfoldable pub os_string_compare : ℕ → ℕ → ℕ → Memory → Option ℤ
os_string_compare fuel left right m = r4nv_string_compare fuel left right m
