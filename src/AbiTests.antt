-- ===== src/AbiTests.antt =====
-- The properties of the checks under Tools/Bootstrap at concrete headers, which have the members of
-- NVIDIA's structures one per byte.
use r4os_driver_nvidia.Base.{
  ℕ, ◌+◌, ◌-◌, ◌*◌, ◌/◌, ◌^◌, ◌≡◌, ◌≤◌, ◌<◌, ◌↔◌, refl, ◌∙◌, arith, not, List, [], ◌∷◌, ◌++◌, ◌==◌,
  if◌then◌else◌, length, length-append, length-replicate, length-take, length-set, set, get_or,
  take, drop, replicate,
}
use r4os_driver_nvidia.Abi.{Layout, IsLayout}
use r4os_driver_nvidia.Abi.Messages.{
  QueueElement, MessageHeaders, MessageAsserts, message_abi_check,
}
use r4os_driver_nvidia.Abi.Messages.Lengths.{frame_elements}
use r4os_driver_nvidia.Abi.Messages.Frames.{frame, message_abi_check_iff}
use r4os_driver_nvidia.Abi.Events.{EventHeaders, EventAsserts, event_abi_fixture}
use r4os_driver_nvidia.Abi.Events.Framed.{IsAnswer}
use r4os_driver_nvidia.Abi.Events.Answered.{event_abi_fixture_lem}
use r4os_driver_nvidia.Abi.Events.Accepted.{IsEventHeaders, EventCall, is_served}

abbrev sum : List ℕ → ℕ
sum [] = 0
sum (x ∷ xs) = x + sum xs

-- A checksum that a first byte equal to the sum of the others cancels.
abbrev difference : List ℕ → ℕ → ℕ
difference [] m = 0
difference (x ∷ xs) m = (sum xs - x) + (x - sum xs)

abbrev element_layout : Layout QueueElement
element_layout = record {
  bytes = 80;
  encode = λ e.
      e.check_sum
      ∷ e.seq_num
      ∷ e.elem_count
      ∷ e.rpc.header_version
      ∷ e.rpc.signature
      ∷ e.rpc.length
      ∷ e.rpc.function
      ∷ e.rpc.rpc_result
      ∷ e.rpc.rpc_result_private
      ∷ e.rpc.sequence
      ∷ replicate 70 0;
  decode = λ b. record {
    check_sum = get_or b 0 0;
    seq_num = get_or b 1 0;
    elem_count = get_or b 2 0;
    rpc = record {
      header_version = get_or b 3 0;
      signature = get_or b 4 0;
      length = get_or b 5 0;
      function = get_or b 6 0;
      rpc_result = get_or b 7 0;
      rpc_result_private = get_or b 8 0;
      sequence = get_or b 9 0;
    };
  };
}

abbrev message_headers : MessageHeaders
message_headers = record {
  element = element_layout;
  rpc_header_bytes = 32;
  element_hdr_size = 48;
  size_min = 4096;
  size_max = 65536;
  bytes_to_elements = λ b. (b + 4095) / 4096;
  version_major_tot = 3 * 2 ^ 24;
  version_minor_tot = 0;
  signature_valid = 0x43505256;
  result_rpc_pending = 0xffffffff;
  check_sum32 = difference;
  check_sum_offset = 32;
  seq_num_offset = 36;
  elem_count_offset = 40;
  message_data_offset = 32;
}

element-IsLayout : IsLayout element_layout
element-IsLayout = record { size = λ e. refl }

message-asserts : MessageAsserts message_headers
message-asserts = (refl, refl, refl, refl, refl, refl, refl, refl, refl)

away : (s c x : ℕ) → c ≡ 0 → x ≡ (s - c) + (c - s) → (s - x) + (x - s) ≡ 0
away s c x z e = omega arith

cancels :
    (e : QueueElement) (rest : List ℕ) (m : ℕ)
    → e.check_sum ≡ 0
    → 80 ≤ m
    → m ≤ length (element_layout.encode e ++ rest)
    → difference
        (element_layout.encode
            (record e { check_sum = difference (element_layout.encode e ++ rest) m })
          ++ rest)
        m
      ≡ 0
cancels e rest m z low high =
    away (sum (drop 1 (element_layout.encode e ++ rest))) e.check_sum
      (difference (element_layout.encode e ++ rest) m) z refl

message_abi_check_iff_example :
    ((message_abi_check message_headers (frame message_headers 2) 4096 2 0).code ≡ 0) ↔ (
      (2 < 6)
      × (4096 ≡ get_or frame_elements 2 0 * 4096)
      × (take 4096 (frame message_headers 2) ≡ frame message_headers 2))
message_abi_check_iff_example =
    message_abi_check_iff message_headers element-IsLayout message-asserts (λ b _. refl) cancels
      (frame message_headers 2) 4096 2 0

-- `size` bytes that start with the members.
abbrev padded : ℕ → List ℕ → List ℕ
padded size members = take size (members ++ replicate size 0)

length-padded : (size : ℕ) (members : List ℕ) → length (padded size members) ≡ size
length-padded size members = omega (
  arith,
  length-take size (members ++ replicate size 0),
  length-append members (replicate size 0),
  length-replicate {A = ℕ} size 0,
)

abbrev event_headers : EventHeaders
event_headers = record {
  event_gsp_init_done = 0x1001;
  event_gsp_run_cpu_sequencer = 0x1002;
  event_os_error_log = 0x1006;
  event_ucode_libos_print = 0x1009;
  event_gsp_lockdown_notice = 0x1014;
  event_gsp_post_nocat_record = 0x1015;
  status_ok = 0;
  init_done = record { bytes = 4; encode = λ w. padded 4 (w ∷ []); decode = λ b. get_or b 0 0 };
  run_cpu_sequencer = record {
    bytes = 40;
    encode = λ e. padded 40 (e.buffer_size_dword ∷ e.cmd_index ∷ e.reg_save_area);
    decode = λ b. record {
      buffer_size_dword = get_or b 0 0;
      cmd_index = get_or b 1 0;
      reg_save_area = take 8 (drop 2 b);
    };
  };
  os_error_log = record {
    bytes = 272;
    encode = λ e.
        padded 272 (
          e.except_type ∷ e.runlist_id ∷ e.chid ∷ e.preemptive_removal_previous_xid ∷ e.err_string);
    decode = λ b. record {
      except_type = get_or b 0 0;
      runlist_id = get_or b 1 0;
      chid = get_or b 2 0;
      preemptive_removal_previous_xid = get_or b 3 0;
      err_string = drop 4 b;
    };
  };
  err_string_bytes = 256;
  ucode_libos_print = record {
    bytes = 8;
    encode = λ e. padded 8 (e.ucode_eng_desc ∷ e.libos_print_buf_size ∷ []);
    decode = λ b. record { ucode_eng_desc = get_or b 0 0; libos_print_buf_size = get_or b 1 0 };
  };
  lockdown_notice = record {
    bytes = 1;
    encode = λ engaging. (if engaging then 1 else 0) ∷ [];
    decode = λ b. not (get_or b 0 0 == 0);
  };
  nocat_bytes = 1208;
  nocat_store = λ r bytes. set (set bytes 0 r.flags) 1 r.rec_type;
  post_nocat_bytes = 4;
  words = λ ws. padded (4 * length ws) ws;
  command_buffer_offset = 40;
  diag_buffer_len_offset = 176;
  diag_buffer_offset = 180;
}

events-asserts : EventAsserts event_headers
events-asserts = (refl, refl, refl, refl, refl, refl, refl, refl, refl)

events-IsEventHeaders : IsEventHeaders event_headers
events-IsEventHeaders = record {
  init_done = record { size = λ w. length-padded 4 (w ∷ []) };
  run_cpu_sequencer = record {
    size = λ e. length-padded 40 (e.buffer_size_dword ∷ e.cmd_index ∷ e.reg_save_area);
  };
  os_error_log = record {
    size = λ e.
        length-padded 272 (
          e.except_type ∷ e.runlist_id ∷ e.chid ∷ e.preemptive_removal_previous_xid ∷ e.err_string);
  };
  ucode_libos_print = record {
    size = λ e. length-padded 8 (e.ucode_eng_desc ∷ e.libos_print_buf_size ∷ []);
  };
  lockdown_notice = record { size = λ engaging. refl };
  nocat = λ r bytes. length-set (set bytes 0 r.flags) 1 r.rec_type ∙ length-set bytes 0 r.flags;
  words = λ ws. length-padded (4 * length ws) ws;
  post_nocat = refl;
}

abbrev print_call : EventCall
print_call = record { fixture = 3; output = replicate 5000 7; capacity = 5000 }

event_abi_fixture_lem_example :
    IsAnswer message_headers event_headers (is_served print_call) print_call 2 (
      event_abi_fixture message_headers event_headers print_call.fixture print_call.output
        print_call.capacity 2)
event_abi_fixture_lem_example =
    event_abi_fixture_lem message_headers event_headers element-IsLayout message-asserts
      events-asserts events-IsEventHeaders cancels print_call 2
