-- ===== src/Heap.antt =====
-- nvkms_alloc and nvkms_free of src/rm/nvkms_memory.c, os_alloc_mem and os_free_mem of
-- src/rm/os_memory.c, over the heap bridge that src/rm/memory.h declares: a parameter, a record of
-- functions on a state and the memory.
pub mod Blocks
use r4os_driver_nvidia.Base.{
  ℕ, Bool, true, false, not, ◌&&◌, ◌==◌, if◌then◌else◌, Option, none, some,
}
use r4os_driver_nvidia.Native.{NvStatus, nv_ok, nv_err_invalid_argument, nv_err_no_memory}
use r4os_driver_nvidia.Memory.{Memory, Return, r4nv_set}

-- A pointer, with the heap's state and the memory after the call.
pub record Allocated {ℓ} (S : Type ℓ) : Type ℓ where
  pub pointer : ℕ
  pub state : S
  pub memory : Memory

-- The heap's state and the memory.
pub record Heap {ℓ} (S : Type ℓ) : Type ℓ where
  pub state : S
  pub memory : Memory

pub record Bridge {ℓ} (S : Type ℓ) : Type ℓ where
  pub heap_allocate : ℕ → Heap S → Allocated S
  pub heap_free : ℕ → Heap S → Heap S

-- What os_alloc_mem leaves: `address` is what `*address` becomes.
pub record OsAllocated {ℓ} (S : Type ℓ) : Type ℓ where
  pub status : NvStatus
  pub address : Option ℕ
  pub heap : Heap S

module _ {ℓ} {S : Type ℓ} (b : Bridge S) where
  unfoldable pub nvkms_alloc : ℕ → Bool → Heap S → Allocated S
  nvkms_alloc bytes zero h =
      let r = b.heap_allocate (if bytes == 0 then 1 else bytes) h in
      if not (r.pointer == 0) && zero
      then record r { memory = (r4nv_set r.pointer 0 bytes r.memory).memory }
      else r

  -- `bytes` is not used.
  unfoldable pub nvkms_free : ℕ → ℕ → Heap S → Heap S
  nvkms_free memory bytes h = if memory == 0 then h else b.heap_free memory h

  -- The first argument says whether `address` is not NULL.
  unfoldable pub os_alloc_mem : Bool → ℕ → Heap S → OsAllocated S
  os_alloc_mem false bytes h = record { status = nv_err_invalid_argument; address = none; heap = h }
  os_alloc_mem true bytes h =
      let r = b.heap_allocate (if bytes == 0 then 1 else bytes) h in
      record {
        status = if r.pointer == 0 then nv_err_no_memory else nv_ok;
        address = some r.pointer;
        heap = record { state = r.state; memory = r.memory };
      }

  unfoldable pub os_free_mem : ℕ → Heap S → Heap S
  os_free_mem address h = if address == 0 then h else b.heap_free address h
