-- ===== src/MemoryTests.antt =====
-- Runs of the routines of src/rm/memory.h, nvkms_memory.c and os_memory.c on one small memory.
use r4os_driver_nvidia.Base.{
  ℕ, zero, suc, ◌+◌, ◌-◌, ◌<◌, ◌≡◌, ◌≢◌, ◌↔◌, ◌⊎◌, inl, inr, refl, arith, codes, get_or, ltb,
  if◌then◌else◌, some, ℤ, pos, negsuc, [], ◌∷◌, ◌++◌,
}
use r4os_driver_nvidia.Memory.{
  Memory, r4nv_copy, r4nv_set, r4nv_compare, r4nv_length, r4nv_string_compare, load_bytes,
}
use r4os_driver_nvidia.Memory.Copy.{copied, r4nv_copy_lem}
use r4os_driver_nvidia.Memory.Fill.{filled, r4nv_set_lem}
use r4os_driver_nvidia.Memory.Compare.{
  AreSame, IsFirstDifference, r4nv_compare_cases, r4nv_compare_zero_iff,
}
use r4os_driver_nvidia.Memory.Strings.{IsString, r4nv_length_lem, r4nv_string_compare_cases}
use r4os_driver_nvidia.NvkmsMemory.{backward_loop, nvkms_memmove, nvkms_strncpy}
use r4os_driver_nvidia.NvkmsMemory.Move.{nvkms_memmove_lem}
use r4os_driver_nvidia.NvkmsMemory.Strncpy.{padded, nvkms_strncpy_lem}
use r4os_driver_nvidia.OsMemory.{os_string_copy, os_string_length}
use r4os_driver_nvidia.OsMemory.StringCopy.{os_string_copy_lem, os_string_length_lem}

-- The strings "abc" at 100 and "abd" at 200.
abbrev bytes_at : Memory
bytes_at p =
    if ltb p 200 then get_or (codes "abc") (p - 100) 0 else get_or (codes "abd") (p - 200) 0

abc-IsString : IsString 100 3 bytes_at
abc-IsString = record { terminated = refl; nonzero = nonzero }
  where
    nonzero : (i : ℕ) → i < 3 → bytes_at (100 + i) ≢ 0
    nonzero zero h e = absurd (omega arith)
    nonzero (suc zero) h e = absurd (omega arith)
    nonzero (suc (suc zero)) h e = absurd (omega arith)
    nonzero (suc (suc (suc i))) h e = absurd (omega arith)

r4nv_copy_lem_example : (r4nv_copy 98 100 11 bytes_at).memory ≡ copied 98 100 11 bytes_at
r4nv_copy_lem_example = r4nv_copy_lem 98 100 11 bytes_at (inl (omega arith))

r4nv_set_lem_example : (r4nv_set 101 0xa5 13 bytes_at).memory ≡ filled 101 0xa5 13 bytes_at
r4nv_set_lem_example = r4nv_set_lem 101 0xa5 13 bytes_at (omega arith)

r4nv_compare_cases_example :
    (AreSame 100 200 4 bytes_at × (r4nv_compare 100 200 4 bytes_at ≡ pos 0))
    ⊎ IsFirstDifference 100 200 4 bytes_at (r4nv_compare 100 200 4 bytes_at)
r4nv_compare_cases_example = r4nv_compare_cases 100 200 4 bytes_at

r4nv_compare_zero_iff_example :
    (r4nv_compare 100 200 2 bytes_at ≡ pos 0) ↔ AreSame 100 200 2 bytes_at
r4nv_compare_zero_iff_example = r4nv_compare_zero_iff 100 200 2 bytes_at

r4nv_length_lem_example : r4nv_length 4 100 bytes_at ≡ some 3
r4nv_length_lem_example = r4nv_length_lem 4 100 3 bytes_at abc-IsString (omega arith)

r4nv_string_compare_cases_example :
    (r : ℤ) × (r4nv_string_compare 4 100 200 bytes_at ≡ some r)
    × ((AreSame 100 200 4 bytes_at × (r ≡ pos 0)) ⊎ IsFirstDifference 100 200 4 bytes_at r)
r4nv_string_compare_cases_example =
    r4nv_string_compare_cases 4 100 200 3 bytes_at abc-IsString (omega arith)

nvkms_memmove_lem_example :
    ((nvkms_memmove 102 100 9 bytes_at).value ≡ 102)
    × ((nvkms_memmove 102 100 9 bytes_at).memory ≡ copied 102 100 9 bytes_at)
nvkms_memmove_lem_example = nvkms_memmove_lem 102 100 9 bytes_at (omega arith) (omega arith)

nvkms_strncpy_lem_example :
    ((nvkms_strncpy 300 100 8 bytes_at).value ≡ 300)
    × ((nvkms_strncpy 300 100 8 bytes_at).memory ≡ padded 300 100 3 8 bytes_at)
nvkms_strncpy_lem_example = nvkms_strncpy_lem 300 100 3 8 bytes_at abc-IsString (inr (omega arith))

os_string_copy_lem_example :
    os_string_copy 4 99 100 bytes_at
    ≡ some (record { value = 99; memory = copied 99 100 4 bytes_at })
os_string_copy_lem_example =
    os_string_copy_lem 4 3 99 100 bytes_at abc-IsString (inl (omega arith)) (omega arith)

os_string_length_lem_example : os_string_length 4 100 bytes_at ≡ some 3
os_string_length_lem_example = os_string_length_lem 4 100 3 bytes_at abc-IsString (omega arith)

-- A falling copy of an overlap, and one that may not fall.
moved_up : load_bytes 5 102 (nvkms_memmove 102 100 3 bytes_at).memory ≡ codes "abc" ++ 0 ∷ 0 ∷ []
unfolding nvkms_memmove load_bytes backward_loop
moved_up = refl

compared : r4nv_compare 100 200 4 bytes_at ≡ negsuc 0
unfolding r4nv_compare
compared = refl
