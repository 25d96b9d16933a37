-- ===== src/Abi/Requests.antt =====
-- Of Tools/Bootstrap/GspMessageAbi.c: the checks of single RM requests, r4nv_gsp_copy_caps_abi_check,
-- r4nv_gsp_memory_clear_abi_check, r4nv_gsp_host_vaspace_abi_check and
-- r4nv_gsp_memory_owner_abi_check.
pub mod Exact
use r4os_driver_nvidia.Base.{
  ℕ, ◌+◌, ◌%◌, ◌/◌, Bool, true, false, not, ◌&&◌, ◌||◌, List, [], ◌∷◌, ◌++◌, ◌==◌, ltb, leb,
  if◌then◌else◌, length, get_or, set, bit_and, bit_or,
}
use r4os_driver_nvidia.Abi.{Layout, same_bytes, slice}

-- rpc_gsp_rm_control_v03_00.
pub record RmControl : Type 0 where
  pub h_client : ℕ
  pub h_object : ℕ
  pub cmd : ℕ
  pub status : ℕ
  pub flags : ℕ
  pub params_size : ℕ

-- The members of rpc_gsp_rm_alloc_v03_00 that are read.
pub record RmAlloc : Type 0 where
  pub h_client : ℕ
  pub h_parent : ℕ
  pub h_object : ℕ
  pub h_class : ℕ
  pub params_size : ℕ

-- Of the two-byte capability table.
pub record CopyCaps : Type 0 where
  pub ce_engine_type : ℕ
  pub caps_tbl : List ℕ

-- NVIDIA's capability byte and bit, as the macro `1 ? cap` and `0 ? cap` give them.
pub record Cap : Type 0 where
  pub byte : ℕ
  pub bit : ℕ

pub record CopyHeaders : Type 0 where
  pub header : Layout RmControl
  pub params : Layout CopyCaps
  pub caps_tbl_offset : ℕ
  pub caps_tbl_size : ℕ
  pub get_physical_caps : ℕ
  pub engine_type_copy : ℕ → ℕ
  pub caps_grce : Cap
  pub caps_sysmem : Cap

-- params.capsTbl[byte] |= bit
abbrev pub add_cap : Cap → List ℕ → List ℕ
add_cap cap tbl = set tbl cap.byte (bit_or (get_or tbl cap.byte 0) cap.bit)

-- The code, and `reply` where it is written.
pub record Replied : Type 0 where
  pub code : ℕ
  pub reply : List ℕ

module _ (n : CopyHeaders) where
  abbrev pub caps_header : RmControl
  caps_header = record {
    h_client = 0x2222;
    h_object = 0x3333;
    cmd = n.get_physical_caps;
    status = 0;
    flags = 0;
    params_size = n.params.bytes;
  }

  abbrev pub caps_request : ℕ → CopyCaps
  caps_request ce = record { ce_engine_type = n.engine_type_copy ce; caps_tbl = 0 ∷ 0 ∷ [] }

  -- if (flags & 1) ...; if (flags & 2) ...
  abbrev pub caps_reply : ℕ → ℕ → CopyCaps
  caps_reply ce flags =
      let p = caps_request ce in
      let grce =
        if not (bit_and flags 1 == 0) then add_cap n.caps_grce p.caps_tbl else p.caps_tbl in
      record p {
        caps_tbl = if not (bit_and flags 2 == 0) then add_cap n.caps_sysmem grce else grce;
      }

  unfoldable pub copy_caps_abi_check : List ℕ → ℕ → ℕ → Replied
  copy_caps_abi_check bytes ce flags =
      if leb 20 ce
        || (leb 4 flags
            || (not (n.header.bytes == 24)
                || (not (n.params.bytes == 8)
                    || (not (n.caps_tbl_offset == 4)
                        || (not (n.caps_tbl_size == 2)
                            || not (length bytes == n.header.bytes + n.params.bytes))))))
      then record { code = 1; reply = [] }
      else if not (same_bytes (slice 0 n.header.bytes bytes) (n.header.encode caps_header))
          || not (
              same_bytes (slice n.header.bytes n.params.bytes bytes)
                (n.params.encode (caps_request ce)))
      then record { code = 2; reply = [] }
      else record {
        code = 0;
        reply = n.header.encode caps_header ++ n.params.encode (caps_reply ce flags);
      }

-- NV2080_CTRL_INTERNAL_MEMMGR_MEMORY_TRANSFER_WITH_GSP_PARAMS, by the members that are set.
pub record MemoryTransfer : Type 0 where
  pub dst_base_addr : ℕ
  pub dst_size : ℕ
  pub dst_aperture : ℕ
  pub dst_cpu_cache_attrib : ℕ
  pub transfer_size : ℕ
  pub memop : ℕ

pub record ClearHeaders : Type 0 where
  pub header : Layout RmControl
  pub params : Layout MemoryTransfer
  pub memory_transfer_with_gsp : ℕ
  pub addr_fbmem : ℕ
  pub memory_uncached : ℕ
  pub memory_op_memset : ℕ

module _ (n : ClearHeaders) where
  abbrev pub clear_params : ℕ → ℕ → MemoryTransfer
  clear_params base size = record {
    dst_base_addr = base;
    dst_size = size;
    dst_aperture = n.addr_fbmem;
    dst_cpu_cache_attrib = n.memory_uncached;
    transfer_size = size;
    memop = n.memory_op_memset;
  }

  abbrev pub is_clear_header : RmControl → Bool
  is_clear_header h =
      h.h_client == 0x1234
      && (h.h_object == 0x5678
          && (h.status == 0
              && (h.flags == 0
                  && (h.cmd == n.memory_transfer_with_gsp && h.params_size == n.params.bytes))))

  unfoldable pub memory_clear_abi_check : List ℕ → ℕ → ℕ → ℕ
  memory_clear_abi_check bytes base size =
      if not (n.header.bytes == 24)
        || (not (n.params.bytes == 96) || not (length bytes == n.header.bytes + n.params.bytes))
      then 1
      else if not (is_clear_header (n.header.decode (slice 0 n.header.bytes bytes)))
      then 2
      else if same_bytes (slice n.header.bytes n.params.bytes bytes)
          (n.params.encode (clear_params base size))
      then 0
      else 1

-- NV_VASPACE_ALLOCATION_PARAMETERS, by the members that are set.
pub record VaspaceParams : Type 0 where
  pub flags : ℕ
  pub big_page_size : ℕ
  pub va_base : ℕ

pub record VaspaceHeaders : Type 0 where
  pub header : Layout RmAlloc
  pub params : Layout VaspaceParams
  pub fermi_vaspace_a : ℕ
  pub is_externally_owned : ℕ

module _ (n : VaspaceHeaders) where
  abbrev pub vaspace_params : VaspaceParams
  vaspace_params = record { flags = n.is_externally_owned; big_page_size = 65536; va_base = 4096 }

  abbrev pub is_vaspace_header : RmAlloc → Bool
  is_vaspace_header h =
      h.h_client == 0xc1d00000
      && (h.h_parent == 0x10000000
          && (h.h_object == 0x10000006
              && (h.h_class == n.fermi_vaspace_a && h.params_size == n.params.bytes)))

  unfoldable pub host_vaspace_abi_check : List ℕ → ℕ
  host_vaspace_abi_check bytes =
      if not (length bytes == n.header.bytes + n.params.bytes)
      then 1
      else if not (is_vaspace_header (n.header.decode (slice 0 n.header.bytes bytes)))
      then 2
      else if same_bytes (slice n.header.bytes n.params.bytes bytes)
          (n.params.encode vaspace_params)
      then 0
      else 1

-- The members of NV_MEMORY_ALLOCATION_PARAMS that are read.
pub record MemoryAllocation : Type 0 where
  pub owner : ℕ
  pub flags : ℕ

pub record OwnerHeaders : Type 0 where
  pub header : Layout RmAlloc
  pub params : Layout MemoryAllocation
  pub memory_virtual : ℕ
  pub memory_local_user : ℕ
  pub client_generic : ℕ
  pub scratch_begin : ℕ
  pub scratch_end : ℕ
  pub map_not_required : ℕ
  pub kernel_mapping_map : ℕ

unfoldable pub memory_owner_abi_check : OwnerHeaders → List ℕ → ℕ
memory_owner_abi_check n bytes =
    let header = n.header.decode (slice 0 n.header.bytes bytes) in
    let params = n.params.decode (slice n.header.bytes n.params.bytes bytes) in
    if not (length bytes == n.header.bytes + n.params.bytes)
    then 1
    else if not (header.params_size == n.params.bytes)
        || (not (header.h_class == n.memory_virtual) && not (header.h_class == n.memory_local_user))
    then 2
    else if not (params.owner == n.client_generic)
        || (params.owner == 0
            || (params.owner == 0xffffffff
                || (leb n.scratch_begin params.owner && leb params.owner n.scratch_end)))
    then 3
    else if bit_and params.flags n.map_not_required == 0
        || not (bit_and params.flags n.kernel_mapping_map == 0)
    then 4
    else 0
