-- ===== src/ReportTests.antt =====
-- The properties of the report (Tools/Bootstrap/FwsecAbi.c) and of the shader's verifier
-- (Tools/Rm/VerifyShader.c) at concrete headers and files.
use r4os_driver_nvidia.Base.{
  ℕ, ◌+◌, ◌-◌, ◌≡◌, ◌<◌, refl, true, false, some, List, [], ◌∷◌, length, get_or, replicate,
}
use r4os_driver_nvidia.Abi.Progress.{compares}
use r4os_driver_nvidia.Abi.Messages.{
  MessageHeaders, UnloadHeaders, message_abi_check, unload_abi_check,
}
use r4os_driver_nvidia.Abi.Messages.Complete.{
  MessageCall, UnloadCall, messages_compared, unloads_compared, accepts_message, one_accepted,
}
use r4os_driver_nvidia.Abi.Rings.{MsgQueues, ring_expected, ring_abi_check}
use r4os_driver_nvidia.Abi.Rings.Linked.{RingCall, rings_compared_by, accepts_ring}
use r4os_driver_nvidia.Abi.Fwsec.{WprMeta, FwsecHeaders, Comparisons, Argument, fwsec_abi_check}
use r4os_driver_nvidia.Abi.Fwsec.Evidence.{fwsec_abi_check-evidence}
use r4os_driver_nvidia.HostTools.{Host, Stream}
use r4os_driver_nvidia.HostTools.Shader.{Decoder, Verified, verify_shader}
use r4os_driver_nvidia.HostTools.Shader.Releases.{verify_shader-host}

abbrev held : Host
held = record { allocated = 2; opened = 1 }

-- A file that is read, and one whose seek fails.
abbrev readable : Stream
readable = record {
  seeks_end = true;
  tell = some 12;
  seeks_start = true;
  read = λ n. replicate n 0;
  at_end = true;
  has_error = false;
}

abbrev broken : Stream
broken = record readable { seeks_end = false }

abbrev decoder : Decoder
decoder = record {
  run = λ compressed size. record {
    stream_end = true;
    in_pos = length compressed;
    out_pos = size;
    out = replicate size 0;
  };
  room_first = true;
  room_second = true;
  room_decoded = true;
  room_state = true;
}

verify_shader-host_example :
    (v : Verified) × (verify_shader decoder 3 (some readable) (some broken) held ≡ some v)
    × (v.host ≡ held)
verify_shader-host_example = verify_shader-host decoder 3 (some readable) (some broken) held

-- Headers under which a frame is checked by its first two bytes.
abbrev short_headers : MessageHeaders
short_headers = record {
  element = record {
    bytes = 2;
    encode = λ e. e.seq_num ∷ e.elem_count ∷ [];
    decode = λ b. record {
      check_sum = 0;
      seq_num = get_or b 0 0;
      elem_count = get_or b 1 0;
      rpc = record {
        header_version = 0;
        signature = 0;
        length = 0;
        function = 0;
        rpc_result = 0;
        rpc_result_private = 0;
        sequence = 0;
      };
    };
  };
  rpc_header_bytes = 0;
  element_hdr_size = 2;
  size_min = 2;
  size_max = 65536;
  bytes_to_elements = λ b. 1;
  version_major_tot = 0;
  version_minor_tot = 0;
  signature_valid = 0;
  result_rpc_pending = 0;
  check_sum32 = λ bytes m. 0;
  check_sum_offset = 0;
  seq_num_offset = 0;
  elem_count_offset = 1;
  message_data_offset = 2;
}

abbrev call_of : ℕ → MessageCall
call_of f = record { actual = (0xffffffff - f) ∷ 1 ∷ []; actual_len = 2; fixture = f }

abbrev six_calls : List MessageCall
six_calls = call_of 4 ∷ call_of 0 ∷ call_of 5 ∷ call_of 1 ∷ call_of 2 ∷ call_of 3 ∷ []

abbrev unload_headers : UnloadHeaders
unload_headers = record {
  unloading = record {
    bytes = 8;
    encode = λ u. 0 ∷ 0 ∷ 0 ∷ 0 ∷ u.new_level ∷ 0 ∷ 0 ∷ 0 ∷ [];
    decode =
        λ b. record { in_pm_transition = false; gc6_entering = false; new_level = get_or b 4 0 };
  };
  unloading_guest_driver = 47;
  falcon_mailbox0 = 0x110040;
  in_pm_transition_offset = 0;
  gc6_entering_offset = 1;
  new_level_offset = 4;
}

abbrev unload_call : UnloadCall
unload_call = record { function = 47; actual = replicate 8 0; count = 8; mailbox = 0x110040 }

abbrev meta_expected_at : ℕ → WprMeta
meta_expected_at size = record {
  magic = 0;
  revision = 0;
  sysmem_addr_of_radix3_elf = 0;
  size_of_radix3_elf = 0;
  sysmem_addr_of_bootloader = 0;
  size_of_bootloader = 0;
  bootloader_code_offset = 0;
  bootloader_data_offset = 0;
  sysmem_addr_of_signature = 0;
  size_of_signature = 0;
  gsp_fw_rsvd_start = 0;
  non_wpr_heap_offset = 0;
  non_wpr_heap_size = 0;
  gsp_fw_wpr_start = 0;
  gsp_fw_heap_offset = 0;
  gsp_fw_heap_size = 0;
  gsp_fw_offset = 0;
  boot_bin_offset = 0;
  frts_offset = 0;
  frts_size = size;
  gsp_fw_wpr_end = 0;
  vga_workspace_offset = 0;
  fb_size = 0;
  vga_workspace_size = 0;
  sysmem_addr_of_crash_report_queue = 0;
  size_of_crash_report_queue = 0;
}

abbrev fwsec_headers : FwsecHeaders
fwsec_headers = record {
  read = record {
    bytes = 3;
    encode = λ r. r.version ∷ r.size ∷ r.flags ∷ [];
    decode = λ b. record { version = get_or b 0 0; size = get_or b 1 0; flags = get_or b 2 0 };
  };
  region_bytes = 20;
  command = record {
    bytes = 2;
    encode = λ c. c.frts_region_desc.size ∷ c.frts_region_desc.frts_region_media_type ∷ [];
    decode = λ b. record {
      read_vbios_desc = record { version = 1; size = 3; flags = 2 };
      frts_region_desc = record {
        version = 1;
        size = get_or b 0 0;
        frts_region_offset_4k = 0;
        frts_region_size = 0;
        frts_region_media_type = get_or b 1 0;
      };
    };
  };
  meta = record {
    bytes = 1;
    encode = λ m. m.frts_size ∷ [];
    decode = λ b. meta_expected_at (get_or b 0 0);
  };
  struct_flags = 2;
  region_size_1mb_in_4k = 256;
  region_media_fb = 2;
  cmd_sb = 0x19;
  cmd_frts = 0x15;
  wpr_magic = 0xdc3aae21371a60b3;
  wpr_revision = 1;
}

-- Queues that always link and always have the slot at 4096.
abbrev queues : MsgQueues ℕ
queues = record {
  linked = λ a b. some 0;
  set_write = λ v q. q;
  set_read = λ v q. q;
  set_read_incoming = λ v q. q;
  set_write_incoming = λ v q. q;
  rx_swapped = λ q. true;
  read_incoming = λ q. record { in_status = true; offset = 32 };
  read_outgoing = λ q. record { in_status = false; offset = 32 };
  tx_rx_hdr_off = λ q. 32;
  rx_rx_hdr_off = λ q. 32;
  tx_msg_count = λ q. 63;
  rx_msg_count = λ q. 63;
  free_space = λ q. 42;
  read_available = λ q. 17;
  write_buffer = λ q i. some 4096;
  read_buffer = λ q i. some 4096;
  submit = λ count q. some (q + count);
  mark_consumed = λ count q. some q;
  write_ptr = λ q. 60 + q;
  read_ptr = λ q. 60 + q;
  write_outgoing = λ q. 60 + q;
  read_outgoing_value = λ q. 60 + q;
}

abbrev ring_call : ℕ → ℕ → RingCall
ring_call f count = record {
  actual =
      ring_expected queues 0 count count
        (record { tx = replicate count 4096; rx = replicate count 4096 });
  actual_len = 192;
  fixture = f;
}

abbrev eight_calls : List RingCall
eight_calls =
    ring_call 0 1
    ∷ ring_call 1 1
    ∷ ring_call 2 1
    ∷ ring_call 3 1
    ∷ ring_call 4 16
    ∷ ring_call 5 16
    ∷ ring_call 6 16
    ∷ ring_call 7 16
    ∷ []

abbrev comparisons : Comparisons
comparisons = record {
  init_compared = 1;
  rings_compared = 0;
  compared = 0;
  events_compared = 0x3f;
  sequence_compared = true;
  unload_compared = 0;
}

abbrev run : Comparisons
run = record comparisons {
  rings_compared = rings_compared_by queues eight_calls 0;
  compared = messages_compared short_headers six_calls 0;
  unload_compared = unloads_compared unload_headers (unload_call ∷ []) 0;
}

abbrev vbios : Argument
vbios = record { bytes = 1 ∷ 3 ∷ 2 ∷ []; bytes_len = 3 }

abbrev frts : Argument
frts = record { bytes = 20 ∷ 2 ∷ []; bytes_len = 2 }

abbrev wpr : Argument
wpr = record { bytes = 0x100000 ∷ []; bytes_len = 1 }

reported : (fwsec_abi_check fwsec_headers run vbios 0x19 frts 0x15 wpr).printed ≡ true
unfolding fwsec_abi_check message_abi_check unload_abi_check ring_abi_check
reported = refl

fwsec_abi_check-evidence_example :
    ((i : ℕ) → i < 6 → compares (accepts_message short_headers) (λ k. k.fixture) i six_calls ≡ true)
    × ((i : ℕ) → i < 8 → compares (accepts_ring queues) (λ k. k.fixture) i eight_calls ≡ true)
    × (one_accepted unload_headers (unload_call ∷ []) ≡ true)
    × (run.events_compared ≡ 0x3f)
    × (run.sequence_compared ≡ true)
fwsec_abi_check-evidence_example =
    fwsec_abi_check-evidence fwsec_headers short_headers queues unload_headers six_calls eight_calls
      (unload_call ∷ []) comparisons vbios 0x19 frts 0x15 wpr reported
