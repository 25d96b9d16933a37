-- ===== src/Abi/Fwsec.antt =====
-- Of Tools/Bootstrap/FwsecAbi.c: r4nv_fwsec_abi_check, which compares the FWSEC commands and the WPR
-- metadata, and reports only when every other comparison was made. The structures are NVIDIA's.
pub mod Evidence
use r4os_driver_nvidia.Base.{
  ℕ, ◌+◌, ◌/◌, ◌%◌, ◌^◌, ◌≡◌, ◌↔◌, refl, arith, Bool, true, false, not, ◌&&◌, ◌||◌, List, [], ◌∷◌,
  ◌==◌, if◌then◌else◌, take, u32, eqb→eq, eq→eqb,
}
use r4os_driver_nvidia.Abi.{Layout, same_bytes, same_bytes-eq, eq-same_bytes}
use r4os_driver_nvidia.Abi.Messages.{message_abi_complete, unload_abi_complete}
use r4os_driver_nvidia.Abi.Events.{event_abi_complete}
use r4os_driver_nvidia.Abi.Sequence.{sequence_abi_complete}

-- The words in which the checks remember what they compared.
pub record Comparisons : Type 0 where
  pub init_compared : ℕ
  pub rings_compared : ℕ
  pub compared : ℕ
  pub events_compared : ℕ
  pub sequence_compared : Bool
  pub unload_compared : ℕ

-- FWSECLIC_READ_VBIOS_DESC, by the members that are set.
pub record ReadVbios : Type 0 where
  pub version : ℕ
  pub size : ℕ
  pub flags : ℕ

-- FWSECLIC_FRTS_REGION_DESC.
pub record FrtsRegion : Type 0 where
  pub version : ℕ
  pub size : ℕ
  pub frts_region_offset_4k : ℕ
  pub frts_region_size : ℕ
  pub frts_region_media_type : ℕ

-- FWSECLIC_FRTS_CMD.
pub record FrtsCmd : Type 0 where
  pub read_vbios_desc : ReadVbios
  pub frts_region_desc : FrtsRegion

-- GspFwWprMeta, by the members that are set.
pub record WprMeta : Type 0 where
  pub magic : ℕ
  pub revision : ℕ
  pub sysmem_addr_of_radix3_elf : ℕ
  pub size_of_radix3_elf : ℕ
  pub sysmem_addr_of_bootloader : ℕ
  pub size_of_bootloader : ℕ
  pub bootloader_code_offset : ℕ
  pub bootloader_data_offset : ℕ
  pub sysmem_addr_of_signature : ℕ
  pub size_of_signature : ℕ
  pub gsp_fw_rsvd_start : ℕ
  pub non_wpr_heap_offset : ℕ
  pub non_wpr_heap_size : ℕ
  pub gsp_fw_wpr_start : ℕ
  pub gsp_fw_heap_offset : ℕ
  pub gsp_fw_heap_size : ℕ
  pub gsp_fw_offset : ℕ
  pub boot_bin_offset : ℕ
  pub frts_offset : ℕ
  pub frts_size : ℕ
  pub gsp_fw_wpr_end : ℕ
  pub vga_workspace_offset : ℕ
  pub fb_size : ℕ
  pub vga_workspace_size : ℕ
  pub sysmem_addr_of_crash_report_queue : ℕ
  pub size_of_crash_report_queue : ℕ

-- What the headers give.
pub record FwsecHeaders : Type 0 where
  pub read : Layout ReadVbios
  pub region_bytes : ℕ
  pub command : Layout FrtsCmd
  pub meta : Layout WprMeta
  pub struct_flags : ℕ
  pub region_size_1mb_in_4k : ℕ
  pub region_media_fb : ℕ
  pub cmd_sb : ℕ
  pub cmd_frts : ℕ
  pub wpr_magic : ℕ
  pub wpr_revision : ℕ

-- An argument: its bytes, as many as are said to be there.
pub record Argument : Type 0 where
  pub bytes : List ℕ
  pub bytes_len : ℕ

-- The code, and whether the report was printed.
pub record Reported : Type 0 where
  pub code : ℕ
  pub printed : Bool

module _ (n : FwsecHeaders) where
  abbrev pub read_expected : ReadVbios
  read_expected = record { version = 1; size = u32 n.read.bytes; flags = n.struct_flags }

  abbrev pub command_expected : FrtsCmd
  command_expected = record {
    read_vbios_desc = read_expected;
    frts_region_desc = record {
      version = 1;
      size = u32 n.region_bytes;
      frts_region_offset_4k = u32 (0x123456000 / 2 ^ 12);
      frts_region_size = n.region_size_1mb_in_4k;
      frts_region_media_type = n.region_media_fb;
    };
  }

  abbrev pub meta_expected : WprMeta
  meta_expected = record {
    magic = n.wpr_magic;
    revision = n.wpr_revision;
    sysmem_addr_of_radix3_elf = 0x200000000;
    size_of_radix3_elf = 63541248;
    sysmem_addr_of_bootloader = 0x300000000;
    size_of_bootloader = 24576;
    bootloader_code_offset = 6144;
    bootloader_data_offset = 2048;
    sysmem_addr_of_signature = 0x300006000;
    size_of_signature = 4096;
    gsp_fw_rsvd_start = 0x2f4000000;
    non_wpr_heap_offset = 0x2f4000000;
    non_wpr_heap_size = 0x100000;
    gsp_fw_wpr_start = 0x2f4100000;
    gsp_fw_heap_offset = 0x2f4200000;
    gsp_fw_heap_size = 0x8000000;
    gsp_fw_offset = 0x2fc240000;
    boot_bin_offset = 0x2ffeda000;
    frts_offset = 0x2ffee0000;
    frts_size = 0x100000;
    gsp_fw_wpr_end = 0x2fffe0000;
    vga_workspace_offset = 0x2fffe0000;
    fb_size = 0x300000000;
    vga_workspace_size = 0x20000;
    sysmem_addr_of_crash_report_queue = 0x300007000;
    size_of_crash_report_queue = 16384;
  }

  -- Everything but the unloading was compared.
  abbrev pub others_compared : Comparisons → Bool
  others_compared c =
      not (c.init_compared == 0)
      && (c.rings_compared == 0xff
          && (message_abi_complete c.compared
              && (event_abi_complete c.events_compared
                  && sequence_abi_complete c.sequence_compared)))

  -- memcmp of an argument of the structure's size.
  abbrev pub holds : {A : Type 0} → Layout A → A → Argument → Bool
  holds l a arg = same_bytes (take l.bytes arg.bytes) (l.encode a)

  unfoldable pub fwsec_abi_check : Comparisons → Argument → ℕ → Argument → ℕ → Argument → Reported
  fwsec_abi_check c sb sb_id frts frts_id wpr =
      if not (others_compared c)
      then record { code = 4; printed = false }
      else if not (sb.bytes_len == n.read.bytes)
          || (not (frts.bytes_len == n.command.bytes)
              || (not (sb_id == n.cmd_sb) || not (frts_id == n.cmd_frts)))
      then record { code = 1; printed = false }
      else if not (holds n.read read_expected sb) || not (holds n.command command_expected frts)
      then record { code = 2; printed = false }
      else if not (wpr.bytes_len == n.meta.bytes) || not (holds n.meta meta_expected wpr)
      then record { code = 3; printed = false }
      else if not (unload_abi_complete c.unload_compared)
      then record { code = 1; printed = false }
      else record { code = 0; printed = true }
