-- ===== src/AdapterTests.antt =====
-- Runs of the heap and log calls of src/rm, and of src/dsc/pps.c.
use r4os_driver_nvidia.Base.{
  ℕ, suc, ◌+◌, ◌≤◌, ◌≡◌, ◌≢◌, refl, arith, true, List, [], ◌∷◌, ◌++◌, some, codes, length,
  replicate, length-replicate, pos, negsuc,
}
use r4os_driver_nvidia.Memory.{Memory}
use r4os_driver_nvidia.Heap as Heap
use r4os_driver_nvidia.Heap.{nvkms_alloc, nvkms_free, os_alloc_mem, os_free_mem}
use r4os_driver_nvidia.Heap.Blocks.{IsHeap, nvkms_alloc-clears, nvkms_alloc-keeps}
use r4os_driver_nvidia.Dsc.{DscInput, dsc_info, max_slices}
use r4os_driver_nvidia.Dsc.Slices.{IsLargest, dsc_info-IsLargest}
use r4os_driver_nvidia.Format.Outcome.{ok, rejected}
use r4os_driver_nvidia.Format.Parse.{read_directive}
use r4os_driver_nvidia.Format.Number.{choose_number, make_digits, leading_zeroes}
use r4os_driver_nvidia.Format.Expansion.{expansion, next_chunk}
use r4os_driver_nvidia.Log.{log_bytes, Logged, os_record, nv_printf, invalid_format}
use r4os_driver_nvidia.Log.Records.{
  recorded, os_record-displays, os_record-rejects, nv_printf-submits,
}

-- A heap that only grows: the state is the first free address.
abbrev growing_heap : Heap.Bridge ℕ
growing_heap = record {
  heap_allocate =
      λ n h. record { pointer = suc h.state; state = suc h.state + n; memory = h.memory };
  heap_free = λ p h. h;
}

growing-IsHeap : IsHeap growing_heap (λ top p k. p + k ≤ top)
growing-IsHeap = record { apart = λ n h p k live ne. omega arith; kept = λ n h p k i live lt. refl }

abbrev sevens : Heap.Heap ℕ
sevens = record { state = 100; memory = λ p. 7 }

block_given : (nvkms_alloc growing_heap 11 true sevens).pointer ≢ 0
unfolding nvkms_alloc
block_given e = omega arith

nvkms_alloc-clears_example :
    (nvkms_alloc growing_heap 11 true sevens).memory
      ((nvkms_alloc growing_heap 11 true sevens).pointer + 10)
    ≡ 0
nvkms_alloc-clears_example =
    nvkms_alloc-clears growing_heap (λ top p k. p + k ≤ top) growing-IsHeap 11 10 sevens block_given
      (omega arith)

nvkms_alloc-keeps_example :
    (nvkms_alloc growing_heap 11 true sevens).memory (90 + 9) ≡ sevens.memory (90 + 9)
nvkms_alloc-keeps_example =
    nvkms_alloc-keeps growing_heap (λ top p k. p + k ≤ top) growing-IsHeap 11 true sevens 90 10 9
      (omega arith) (omega arith)

-- A sink that advertises one, two and four slices.
abbrev sink : DscInput
sink = record {
  pixel_clock_hz = 594000000;
  payload_bps = 25920000000;
  link_rate_10mhz = 810;
  width = 3840;
  height = 2160;
  bpc = 8;
  lanes = 4;
  hblank = 560;
  transport = 0;
  sink_formats = 1;
  sink_step_x16 = 1;
  max_slice_width = 2560;
  slice_mask = 11;
  sink_line_bits = 13;
  bpc_mask = 1;
  revision_minor = 2;
  block_prediction = 1;
  throughput_code = 1;
  max_bpp_x16 = 0;
  source_formats = 1;
  source_line_units = 4;
  source_step_x16 = 1;
  source_slices = 4;
  source_line_bits = 13;
  forced_bpp_x16 = 0;
  forced_slice_width = 0;
}

dsc_info-IsLargest_example : IsLargest sink.slice_mask (dsc_info sink).sink_caps.max_num_hzt_slices
dsc_info-IsLargest_example = dsc_info-IsLargest sink

four_slices : max_slices 11 ≡ 4
unfolding max_slices
four_slices = refl

room : length (replicate {A = ℕ} 512 7) ≡ log_bytes
room = length-replicate {A = ℕ} 512 7

abbrev no_strings : Memory
no_strings p = 0

loaded : expansion no_strings (codes "head %u") (3 ∷ []) ≡ ok (codes "head 3")
unfolding expansion next_chunk read_directive choose_number make_digits leading_zeroes
loaded = refl

unsupported : expansion no_strings (codes "%n") (3 ∷ []) ≡ rejected
unfolding expansion next_chunk read_directive choose_number
unsupported = refl

os_record-displays_example :
    os_record no_strings (replicate 512 7) (some (codes "head %u")) (3 ∷ [])
    ≡ ok (record { text = recorded (codes "head 3") (replicate 512 7); count = pos 6 })
os_record-displays_example =
    os_record-displays no_strings (replicate 512 7) (codes "head %u") (3 ∷ []) (codes "head 3") room
      (omega arith) loaded

os_record-rejects_example :
    (rest : List ℕ) × (os_record no_strings (replicate 512 7) (some (codes "%n")) (3 ∷ [])
      ≡ ok (record { text = invalid_format ++ rest; count = negsuc 0 }))
os_record-rejects_example =
    os_record-rejects no_strings (replicate 512 7) (codes "%n") (3 ∷ []) room (omega arith)
      unsupported

-- A log that keeps the severity of the last record and takes the whole record.
abbrev last_severity : ℕ → List ℕ → ℕ → Logged ℕ
last_severity level text s = record { value = pos 6; state = level }

nv_printf-submits_example :
    nv_printf last_severity 0x10 4 no_strings (replicate 512 7) (some (codes "head %u")) (3 ∷ []) 9
    ≡ ok (record { value = pos 6; state = 2 })
nv_printf-submits_example =
    nv_printf-submits last_severity 0x10 4 no_strings (replicate 512 7) (codes "head %u") (3 ∷ [])
      (codes "head 3") 9 (omega arith) room (omega arith) loaded
