-- ===== src/Abi/Registry.antt =====
-- Of Tools/Bootstrap/GspMessageAbi.c: r4nv_gsp_preboot_abi_check, which reads the packed registry table
-- that the driver hands to the GSP.
pub mod Canonical
use r4os_driver_nvidia.Base.{
  ℕ, suc, ◌+◌, ◌-◌, ◌*◌, Bool, true, false, not, ◌||◌, List, [], ◌∷◌, ◌++◌, ◌==◌, ltb,
  if◌then◌else◌, length, codes,
}
use r4os_driver_nvidia.Abi.{Layout, same_bytes, slice, differs}

-- PACKED_REGISTRY_TABLE.
pub record RegistryTable : Type 0 where
  pub size : ℕ
  pub num_entries : ℕ

-- PACKED_REGISTRY_ENTRY.
pub record RegistryEntry : Type 0 where
  pub name_offset : ℕ
  pub type : ℕ
  pub entry_data : ℕ
  pub length : ℕ

-- What the headers give. The names are strings without their terminator.
pub record RegistryHeaders : Type 0 where
  pub table : Layout RegistryTable
  pub entry : Layout RegistryEntry
  pub name_offset_at : ℕ
  pub type_at : ℕ
  pub data_at : ℕ
  pub length_at : ℕ
  pub static_config_bytes : ℕ
  pub split_vas_offset : ℕ
  pub split_vas_bytes : ℕ
  pub secondary_bus_reset_enabled : List ℕ
  pub force_pcie_config_save : List ℕ
  pub split_vas_mgmt_server_client_rm : List ℕ
  pub split_vas_disabled : ℕ
  pub entry_type_dword : ℕ

-- A name of names[] and its value of values[].
pub record Setting : Type 0 where
  pub name : List ℕ
  pub value : ℕ

-- A string of C: its bytes and the terminator.
abbrev pub c_string : List ℕ → List ℕ
c_string name = name ++ (0 ∷ [])

module _ (n : RegistryHeaders) where
  abbrev pub registry_expected : List ℕ
  registry_expected =
      n.table.bytes ∷ n.entry.bytes ∷ n.name_offset_at ∷ n.type_at ∷ n.data_at ∷ n.length_at
      ∷ n.static_config_bytes ∷ n.split_vas_offset ∷ n.split_vas_bytes ∷ []

  abbrev pub registry_settings : List Setting
  registry_settings =
      record { name = n.secondary_bus_reset_enabled; value = 1 }
      ∷ record { name = n.force_pcie_config_save; value = 1 }
      ∷ record { name = codes "RMDevidCheckIgnore"; value = 1 }
      ∷ record { name = n.split_vas_mgmt_server_client_rm; value = n.split_vas_disabled }
      ∷ []

  -- The loop over the names from entry `i` on, and what follows it.
  abbrev pub registry_loop : List Setting → ℕ → ℕ → List ℕ → ℕ → ℕ
  registry_loop [] i at bytes bytes_len = if at == bytes_len then 0 else 1
  registry_loop (s ∷ settings) i at bytes bytes_len =
      let name_bytes = length s.name + 1 in
      let entry = n.entry.decode (slice (n.table.bytes + i * n.entry.bytes) n.entry.bytes bytes) in
      let rest = registry_loop settings (suc i) (at + name_bytes) bytes bytes_len in
      if not (entry.name_offset == at)
        || (not (entry.type == n.entry_type_dword)
            || (not (entry.entry_data == s.value)
                || (not (entry.length == 4)
                    || (ltb (bytes_len - at) name_bytes
                        || not (same_bytes (slice at name_bytes bytes) (c_string s.name))))))
      then 3
      else rest

  unfoldable pub preboot_abi_check : List ℕ → ℕ → List ℕ → ℕ → ℕ
  preboot_abi_check actual count bytes bytes_len =
      let at = n.table.bytes + 4 * n.entry.bytes in
      let table = n.table.decode (slice 0 n.table.bytes bytes) in
      if differs registry_expected actual count || ltb bytes_len at
      then 1
      else if not (table.size == bytes_len) || not (table.num_entries == 4)
      then 2
      else registry_loop registry_settings 0 at bytes bytes_len
