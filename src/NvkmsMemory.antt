-- ===== src/NvkmsMemory.antt =====
-- src/rm/nvkms_memory.c (but for the heap calls, which are in Heap): the memory and string calls
-- of the NVKMS interface.
pub mod Move
pub mod Strncpy
use r4os_driver_nvidia.Base.{
  ℕ, zero, suc, ◌+◌, ◌-◌, Bool, not, ◌||◌, ◌&&◌, Option, some, none, ◌==◌, ltb, leb, if◌then◌else◌,
  sub64, ℤ, ◌>>=◌,
}
use r4os_driver_nvidia.Memory.{
  Memory, Return, store, r4nv_copy, r4nv_set, r4nv_compare, r4nv_length, r4nv_string_compare,
}

unfoldable pub nvkms_memcpy : ℕ → ℕ → ℕ → Memory → Return
nvkms_memcpy destination source bytes m = r4nv_copy destination source bytes m

unfoldable pub nvkms_memset : ℕ → ℕ → ℕ → Memory → Return
nvkms_memset destination value bytes m = r4nv_set destination value bytes m

-- while (bytes != 0) { --bytes; d[bytes] = s[bytes]; }
unfoldable pub backward_loop : ℕ → ℕ → ℕ → Memory → Memory
backward_loop zero d s m = m
backward_loop (suc bytes) d s m = backward_loop bytes d s (store (d + bytes) (m (s + bytes)) m)

unfoldable pub nvkms_memmove : ℕ → ℕ → ℕ → Memory → Return
nvkms_memmove dst src bytes m =
    if dst == src || bytes == 0
    then record { value = dst; memory = m }
    else if ltb dst src || leb bytes (sub64 dst src)
    then r4nv_copy dst src bytes m
    else record { value = dst; memory = backward_loop bytes dst src m }

unfoldable pub nvkms_memcmp : ℕ → ℕ → ℕ → Memory → ℤ
nvkms_memcmp left right bytes m = r4nv_compare left right bytes m

unfoldable pub nvkms_strlen : ℕ → ℕ → Memory → Option ℕ
nvkms_strlen fuel text m = r4nv_length fuel text m

unfoldable pub nvkms_strcmp : ℕ → ℕ → ℕ → Memory → Option ℤ
nvkms_strcmp fuel left right m = r4nv_string_compare fuel left right m

-- The copying loop of nvkms_strncpy with `bytes - i` rounds left: the index where it ends, and
-- the memory.
pub strncpy_loop : ℕ → ℕ → ℕ → ℕ → Memory → Return
strncpy_loop zero i d s m = record { value = i; memory = m }
strncpy_loop (suc left) i d s m =
    let next = strncpy_loop left (i + 1) d s (store (d + i) (m (s + i)) m) in
    if m (s + i) == 0 then record { value = i; memory = m } else next

unfoldable pub nvkms_strncpy : ℕ → ℕ → ℕ → Memory → Return
unfolding strncpy_loop
nvkms_strncpy destination source bytes m =
    let r = strncpy_loop bytes 0 destination source m in
    if ltb r.value bytes
    then record {
      value = destination;
      memory = (r4nv_set (destination + r.value) 0 (bytes - r.value) r.memory).memory;
    }
    else record { value = destination; memory = r.memory }
