-- ===== src/Abi/Events.antt =====
-- Of Tools/Bootstrap/GspMessageAbi.c: r4nv_gsp_event_abi_fixture, which builds a frame for each kind
-- of event that the GSP sends, and r4nv_gsp_event_abi_complete. NVIDIA's event types are layouts that
-- the file takes from the headers.
pub mod Accepted
pub mod Framed
pub mod Answered
use r4os_driver_nvidia.Base.{
  ℕ, zero, suc, ◌+◌, ◌-◌, ◌*◌, ◌^◌, ◌≡◌, Bool, true, false, not, ◌||◌, List, [], ◌∷◌, ◌++◌, ◌==◌,
  ltb, leb, if◌then◌else◌, length, drop, replicate, bit_or, u32,
}
use r4os_driver_nvidia.Abi.{Layout}
use r4os_driver_nvidia.Abi.Messages.{QueueElement, MessageHeaders}

-- The fixed part of rpc_run_cpu_sequencer_v.
pub record RunCpuSequencer : Type 0 where
  pub buffer_size_dword : ℕ
  pub cmd_index : ℕ
  pub reg_save_area : List ℕ

-- rpc_os_error_log_v.
pub record OsErrorLog : Type 0 where
  pub except_type : ℕ
  pub runlist_id : ℕ
  pub chid : ℕ
  pub err_string : List ℕ
  pub preemptive_removal_previous_xid : ℕ

-- The fixed part of rpc_ucode_libos_print_v.
pub record UcodeLibosPrint : Type 0 where
  pub ucode_eng_desc : ℕ
  pub libos_print_buf_size : ℕ

-- The members of NV2080CtrlNocatJournalInsertRecord that are set, of an array the bytes that are.
pub record NocatRecord : Type 0 where
  pub flags : ℕ
  pub timestamp : ℕ
  pub rec_type : ℕ
  pub bugcheck : ℕ
  pub source : List ℕ
  pub subsystem : ℕ
  pub error_code : ℕ
  pub faulting_engine : List ℕ
  pub tdr_reason : ℕ
  pub diag_buffer_len : ℕ
  pub diag_buffer : List ℕ

-- The event codes, and how the event types lie in memory. `nocat_store` writes the members of a
-- record over the bytes of one; `words` gives the bytes of 32-bit words.
pub record EventHeaders : Type 0 where
  pub event_gsp_init_done : ℕ
  pub event_gsp_run_cpu_sequencer : ℕ
  pub event_os_error_log : ℕ
  pub event_ucode_libos_print : ℕ
  pub event_gsp_lockdown_notice : ℕ
  pub event_gsp_post_nocat_record : ℕ
  pub status_ok : ℕ
  pub init_done : Layout ℕ
  pub run_cpu_sequencer : Layout RunCpuSequencer
  pub os_error_log : Layout OsErrorLog
  pub err_string_bytes : ℕ
  pub ucode_libos_print : Layout UcodeLibosPrint
  pub lockdown_notice : Layout Bool
  pub nocat_bytes : ℕ
  pub nocat_store : NocatRecord → List ℕ → List ℕ
  pub post_nocat_bytes : ℕ
  pub words : List ℕ → List ℕ
  pub command_buffer_offset : ℕ
  pub diag_buffer_len_offset : ℕ
  pub diag_buffer_offset : ℕ

abbrev pub EventAsserts : EventHeaders → Type 0
EventAsserts v =
    (v.init_done.bytes ≡ 4)
    × (v.lockdown_notice.bytes ≡ 1)
    × (v.run_cpu_sequencer.bytes ≡ 40)
    × (v.command_buffer_offset ≡ 40)
    × (v.ucode_libos_print.bytes ≡ 8)
    × (v.os_error_log.bytes ≡ 272)
    × (v.nocat_bytes ≡ 1208)
    × (v.diag_buffer_len_offset ≡ 176)
    × (v.diag_buffer_offset ≡ 180)

-- The event's code, the bytes written at rpc_message_data, and the length that is announced.
pub record EventPayload : Type 0 where
  pub function : ℕ
  pub written : List ℕ
  pub payload_len : ℕ

-- p->regSaveArea[i] = 0x100 + i
abbrev pub reg_save_area : ℕ → ℕ → List ℕ
reg_save_area i zero = []
reg_save_area i (suc count) = (0x100 + i) ∷ reg_save_area (suc i) count

abbrev pub sequencer_event : RunCpuSequencer
sequencer_event = record { buffer_size_dword = 8; cmd_index = 3; reg_save_area = reg_save_area 0 8 }

abbrev pub sequencer_words : List ℕ
sequencer_words = 0x11223344 ∷ 0x55667788 ∷ 0x99aabbcc ∷ []

abbrev pub print_event : UcodeLibosPrint
print_event = record { ucode_eng_desc = 0x1234; libos_print_buf_size = 5 }

-- The bytes of "\0%\xff\x1bZ".
abbrev pub print_bytes : List ℕ
print_bytes = 0 ∷ 0x25 ∷ 0xff ∷ 0x1b ∷ 0x5a ∷ []

abbrev pub nocat_record : NocatRecord
nocat_record = record {
  flags = 3;
  timestamp = 0x123456789abcdef0;
  rec_type = 7;
  bugcheck = 0x79;
  source = 0x72 ∷ 0x6d ∷ 0 ∷ [];
  subsystem = 8;
  error_code = 0xfedcba9876543210;
  faulting_engine = 0x67 ∷ 0x73 ∷ 0x70 ∷ 0 ∷ [];
  tdr_reason = 12;
  diag_buffer_len = 5;
  diag_buffer = 0xde ∷ 0xad ∷ 0xbe ∷ 0xef ∷ 0x79 ∷ [];
}

-- What a call returns, the bytes at `output`, and the mask of the fixtures that were built.
pub record Built : Type 0 where
  pub size : ℕ
  pub output : List ℕ
  pub events_compared : ℕ

module _ (n : MessageHeaders) (v : EventHeaders) where
  -- The switch over the fixture; the last case is its default.
  abbrev pub event_payload : ℕ → EventPayload
  event_payload zero = record {
    function = v.event_gsp_init_done;
    written = v.init_done.encode 0x7ac0ffee;
    payload_len = 0;
  }
  event_payload (suc zero) = record {
    function = v.event_gsp_run_cpu_sequencer;
    written = v.run_cpu_sequencer.encode sequencer_event ++ v.words sequencer_words;
    payload_len = v.run_cpu_sequencer.bytes + 3 * 4;
  }
  event_payload (suc (suc zero)) = record {
    function = v.event_os_error_log;
    written = v.os_error_log.encode (record {
      except_type = 119;
      runlist_id = 4;
      chid = 0xffffffff;
      err_string = replicate v.err_string_bytes 0x58;
      preemptive_removal_previous_xid = 13;
    });
    payload_len = v.os_error_log.bytes;
  }
  event_payload (suc (suc (suc zero))) = record {
    function = v.event_ucode_libos_print;
    written = v.ucode_libos_print.encode print_event ++ print_bytes;
    payload_len = v.ucode_libos_print.bytes + 5;
  }
  event_payload (suc (suc (suc (suc zero)))) = record {
    function = v.event_gsp_lockdown_notice;
    written = v.lockdown_notice.encode true;
    payload_len = v.lockdown_notice.bytes;
  }
  event_payload (suc (suc (suc (suc (suc fixture))))) = record {
    function = v.event_gsp_post_nocat_record;
    written =
        v.nocat_store nocat_record (replicate v.nocat_bytes 0xa5)
        ++ replicate v.post_nocat_bytes 0x5a;
    payload_len = v.post_nocat_bytes + v.nocat_bytes;
  }

  -- The element of a fixture before its checksum is stored.
  abbrev pub event_element : ℕ → QueueElement
  event_element fixture = record {
    check_sum = 0;
    seq_num = u32 (10 + fixture);
    elem_count = 1;
    rpc = record {
      header_version = bit_or n.version_major_tot n.version_minor_tot;
      signature = n.signature_valid;
      length = u32 (n.rpc_header_bytes + (event_payload fixture).payload_len);
      function = (event_payload fixture).function;
      rpc_result = if fixture == 0 then v.status_ok else n.result_rpc_pending;
      rpc_result_private = 0x76543210;
      sequence = u32 (0x700 + fixture);
    };
  }

  -- The buffer `frame`, which is zero behind what is written.
  abbrev pub event_buffer : QueueElement → List ℕ → List ℕ
  event_buffer element written =
      n.element.encode element
      ++ (written ++ replicate (n.size_min - (n.element.bytes + length written)) 0)

  -- element->checkSum = _checkSum32(frame, ...)
  abbrev pub event_summed : ℕ → QueueElement
  event_summed fixture =
      let p = event_payload fixture in
      record (event_element fixture) {
        check_sum =
            n.check_sum32 (event_buffer (event_element fixture) p.written)
              (n.element.bytes + p.payload_len);
      }

  abbrev pub event_frame : ℕ → List ℕ
  event_frame fixture = event_buffer (event_summed fixture) (event_payload fixture).written

  unfoldable pub event_abi_fixture : ℕ → List ℕ → ℕ → ℕ → Built
  event_abi_fixture fixture output capacity compared =
      if leb 6 fixture || ltb capacity n.size_min
      then record { size = 0; output = output; events_compared = compared }
      else if not (
          n.check_sum32 (event_frame fixture)
            (n.element.bytes + (event_payload fixture).payload_len)
          == 0)
      then record { size = 0; output = output; events_compared = compared }
      else record {
        size = n.size_min;
        output = event_frame fixture ++ drop n.size_min output;
        events_compared = bit_or compared (2 ^ fixture);
      }

abbrev pub event_abi_complete : ℕ → Bool
event_abi_complete compared = compared == 0x3f
