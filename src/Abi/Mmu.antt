-- ===== src/Abi/Mmu.antt =====
-- Of Tools/Bootstrap/GspMessageAbi.c: r4nv_gsp_host_mmu_abi_check, the binding of a page directory.
-- Registers, commands, structures and fields are NVIDIA's.
pub mod Binding
use r4os_driver_nvidia.Base.{
  ℕ, ◌+◌, ◌*◌, ◌/◌, ◌%◌, ◌^◌, Bool, true, false, not, ◌||◌, List, [], ◌∷◌, ◌++◌, ◌==◌, ltb,
  if◌then◌else◌, length, bit_or, u32,
}
use r4os_driver_nvidia.Abi.{Layout, same_bytes, slice, differs}
use r4os_driver_nvidia.Abi.Requests.{RmControl}

-- The members of NV0080_CTRL_DMA_SET_PAGE_DIRECTORY_PARAMS that are set.
pub record SetPageDirectory : Type 0 where
  pub phys_address : ℕ
  pub num_entries : ℕ
  pub flags : ℕ
  pub h_va_space : ℕ

-- The members of NV0080_CTRL_DMA_UNSET_PAGE_DIRECTORY_PARAMS that are read.
pub record UnsetPageDirectory : Type 0 where
  pub h_va_space : ℕ
  pub sub_device_id : ℕ

-- What the headers give; `pdb_addr` and `upper_pdb_addr` place a number in the field of that name.
pub record MmuHeaders : Type 0 where
  pub is_externally_owned : ℕ
  pub header : Layout RmControl
  pub set_params : Layout SetPageDirectory
  pub unset_params : Layout UnsetPageDirectory
  pub cmd_set_page_directory : ℕ
  pub cmd_unset_page_directory : ℕ
  pub pde_size : ℕ
  pub dual_pde_size : ℕ
  pub pte_size : ℕ
  pub phys_base : ℕ
  pub invalidate_pdb : ℕ
  pub invalidate_upper_pdb : ℕ
  pub invalidate : ℕ
  pub trigger_true : ℕ
  pub all_va_true : ℕ
  pub sys_membar_true : ℕ
  pub ack_globally : ℕ
  pub pdb_addr_alignment : ℕ
  pub pdb_addr_size : ℕ
  pub pdb_addr : ℕ → ℕ
  pub pdb_aperture_sys_mem : ℕ
  pub upper_pdb_addr : ℕ → ℕ
  pub aperture_sysmem_coh : ℕ
  pub all_channels_true : ℕ

module _ (n : MmuHeaders) where
  abbrev pub mmu_expected : ℕ → List ℕ
  mmu_expected physical =
      n.is_externally_owned
      ∷ n.header.bytes
      ∷ n.set_params.bytes
      ∷ n.unset_params.bytes
      ∷ n.cmd_set_page_directory
      ∷ n.cmd_unset_page_directory
      ∷ n.pde_size
      ∷ n.dual_pde_size
      ∷ n.pte_size
      ∷ n.phys_base
      ∷ u32 (n.phys_base + n.invalidate_pdb)
      ∷ u32 (n.phys_base + n.invalidate_upper_pdb)
      ∷ u32 (n.phys_base + n.invalidate)
      ∷ n.trigger_true
      ∷ bit_or (bit_or (bit_or n.trigger_true n.all_va_true) n.sys_membar_true) n.ack_globally
      ∷ bit_or (n.pdb_addr (u32 (physical / 2 ^ n.pdb_addr_alignment))) n.pdb_aperture_sys_mem
      ∷ n.upper_pdb_addr (u32 (physical / 2 ^ n.pdb_addr_alignment / 2 ^ n.pdb_addr_size))
      ∷ []

  abbrev pub set_expected : ℕ → SetPageDirectory
  set_expected physical = record {
    phys_address = physical;
    num_entries = 4;
    flags = bit_or n.aperture_sysmem_coh n.all_channels_true;
    h_va_space = 0x10000006;
  }

  -- if (bind) ... else ..., behind the tests of the header.
  abbrev pub check_bind : RmControl → List ℕ → ℕ → ℕ → ℕ
  check_bind header bytes bytes_len physical =
      if not (header.cmd == n.cmd_set_page_directory)
        || (not (header.params_size == n.set_params.bytes)
            || not (bytes_len == n.header.bytes + n.set_params.bytes))
      then 4
      else if not (
          same_bytes (slice n.header.bytes n.set_params.bytes bytes)
            (n.set_params.encode (set_expected physical)))
      then 5
      else 0

  abbrev pub check_unbind : RmControl → List ℕ → ℕ → ℕ
  check_unbind header bytes bytes_len =
      let params = n.unset_params.decode (slice n.header.bytes n.unset_params.bytes bytes) in
      if not (header.cmd == n.cmd_unset_page_directory)
        || (not (header.params_size == n.unset_params.bytes)
            || not (bytes_len == n.header.bytes + n.unset_params.bytes))
      then 6
      else if not (params.h_va_space == 0x10000006) || not (params.sub_device_id == 0)
      then 7
      else 0

  unfoldable pub host_mmu_abi_check : List ℕ → ℕ → List ℕ → ℕ → ℕ → ℕ → ℕ
  host_mmu_abi_check actual count bytes bytes_len bind physical =
      let header = n.header.decode (slice 0 n.header.bytes bytes) in
      if differs (mmu_expected physical) actual count
      then 1
      else if ltb bytes_len n.header.bytes
      then 2
      else if not (header.h_client == 0xc1d00000)
          || (not (header.h_object == 0x10000000)
              || (not (header.status == 0) || not (header.flags == 0)))
      then 3
      else if not (bind == 0)
      then check_bind header bytes bytes_len physical
      else check_unbind header bytes bytes_len
