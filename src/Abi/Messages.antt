-- ===== src/Abi/Messages.antt =====
-- Of Tools/Bootstrap/GspMessageAbi.c: the framed messages, r4nv_gsp_message_abi_check, and the
-- message that unloads the driver, r4nv_gsp_unload_abi_check, with the words that remember what was
-- compared. The queue's constants, NVIDIA's structures and its routine _checkSum32 are parameters.
pub mod Lengths
pub mod Frames
pub mod Complete
use r4os_driver_nvidia.Base.{
  ℕ, zero, suc, ◌+◌, ◌-◌, ◌*◌, ◌≡◌, Bool, true, false, not, ◌&&◌, ◌||◌, List, [], ◌∷◌, ◌++◌, ◌==◌,
  ltb, leb, if◌then◌else◌, length, get_or, take, replicate, bit_or, ◌^◌, u8, u32,
}
use r4os_driver_nvidia.Abi.{Layout, same_bytes}
use r4os_driver_nvidia.Abi.Progress.{progress}

-- rpc_message_header_v.
pub record MessageHeader : Type 0 where
  pub header_version : ℕ
  pub signature : ℕ
  pub length : ℕ
  pub function : ℕ
  pub rpc_result : ℕ
  pub rpc_result_private : ℕ
  pub sequence : ℕ

-- GSP_MSG_QUEUE_ELEMENT.
pub record QueueElement : Type 0 where
  pub check_sum : ℕ
  pub seq_num : ℕ
  pub elem_count : ℕ
  pub rpc : MessageHeader

-- What NVIDIA's headers give. `check_sum32` reads a buffer up to a length.
pub record MessageHeaders : Type 0 where
  pub element : Layout QueueElement
  pub rpc_header_bytes : ℕ
  pub element_hdr_size : ℕ
  pub size_min : ℕ
  pub size_max : ℕ
  pub bytes_to_elements : ℕ → ℕ
  pub version_major_tot : ℕ
  pub version_minor_tot : ℕ
  pub signature_valid : ℕ
  pub result_rpc_pending : ℕ
  pub check_sum32 : List ℕ → ℕ → ℕ
  pub check_sum_offset : ℕ
  pub seq_num_offset : ℕ
  pub elem_count_offset : ℕ
  pub message_data_offset : ℕ

-- The assertions that the file makes when it is compiled.
abbrev pub MessageAsserts : MessageHeaders → Type 0
MessageAsserts n =
    (n.rpc_header_bytes ≡ 32)
    × (n.element.bytes ≡ 80)
    × (n.element_hdr_size ≡ 48)
    × (n.check_sum_offset ≡ 32)
    × (n.seq_num_offset ≡ 36)
    × (n.elem_count_offset ≡ 40)
    × (n.message_data_offset ≡ 32)
    × (n.size_min ≡ 4096)
    × (n.size_max ≡ 65536)

abbrev pub payload_lengths : List ℕ
payload_lengths = 0 ∷ 1 ∷ 7 ∷ 4016 ∷ 4017 ∷ 65456 ∷ []

-- payload[i] = (unsigned char)(i * 37 + 11), from `i` on.
abbrev pub message_payload : ℕ → ℕ → List ℕ
message_payload i zero = []
message_payload i (suc n) = u8 (u32 (i * 37 + 11)) ∷ message_payload (suc i) n

-- What a check returns, and the mask of the compared fixtures.
pub record Checked : Type 0 where
  pub code : ℕ
  pub compared : ℕ

module _ (n : MessageHeaders) where
  -- The element of a fixture before its checksum is stored.
  abbrev pub message_element : ℕ → ℕ → ℕ → QueueElement
  message_element fixture payload_len elements = record {
    check_sum = 0;
    seq_num = 0xffffffff - fixture;
    elem_count = elements;
    rpc = record {
      header_version = bit_or n.version_major_tot n.version_minor_tot;
      signature = n.signature_valid;
      length = u32 (n.rpc_header_bytes + payload_len);
      function = 0xdeadbeef;
      rpc_result = n.result_rpc_pending;
      rpc_result_private = n.result_rpc_pending;
      sequence = 0x12345678;
    };
  }

  -- The buffer `expected`, which is zero behind the message.
  abbrev pub message_buffer : QueueElement → ℕ → List ℕ
  message_buffer element payload_len =
      n.element.encode element
      ++ (message_payload 0 payload_len
          ++ replicate (n.size_max - (n.element.bytes + payload_len)) 0)

  -- element->checkSum = _checkSum32(expected, message_len)
  abbrev pub summed : QueueElement → ℕ → ℕ → QueueElement
  summed element payload_len message_len = record element {
    check_sum = n.check_sum32 (message_buffer element payload_len) message_len;
  }

  unfoldable pub message_abi_check : List ℕ → ℕ → ℕ → ℕ → Checked
  message_abi_check actual actual_len fixture compared =
      let payload_len = get_or payload_lengths fixture 0 in
      let message_len = u32 (n.element.bytes + payload_len) in
      let elements = n.bytes_to_elements message_len in
      let expected =
        message_buffer
          (summed (message_element fixture payload_len elements) payload_len message_len)
          payload_len in
      if leb (length payload_lengths) fixture
      then record { code = 1; compared = compared }
      else if ltb message_len n.element.bytes || ltb n.size_max message_len
      then record { code = 2; compared = compared }
      else if not (actual_len == u32 (elements * n.size_min))
      then record { code = 2; compared = compared }
      else if not (n.check_sum32 expected message_len == 0)
      then record { code = 3; compared = compared }
      else if not (same_bytes (take actual_len actual) (take actual_len expected))
      then record { code = 4; compared = compared }
      else record { code = 0; compared = bit_or compared (2 ^ fixture) }

abbrev pub message_abi_complete : ℕ → Bool
message_abi_complete compared = compared == 0x3f

-- rpc_unloading_guest_driver_v1F_07.
pub record Unloading : Type 0 where
  pub in_pm_transition : Bool
  pub gc6_entering : Bool
  pub new_level : ℕ

pub record UnloadHeaders : Type 0 where
  pub unloading : Layout Unloading
  pub unloading_guest_driver : ℕ
  pub falcon_mailbox0 : ℕ
  pub in_pm_transition_offset : ℕ
  pub gc6_entering_offset : ℕ
  pub new_level_offset : ℕ

abbrev pub UnloadAsserts : UnloadHeaders → Type 0
UnloadAsserts n =
    (n.unloading.bytes ≡ 8)
    × (n.in_pm_transition_offset ≡ 0)
    × (n.gc6_entering_offset ≡ 1)
    × (n.new_level_offset ≡ 4)

abbrev pub unloading_expected : Unloading
unloading_expected = record { in_pm_transition = false; gc6_entering = false; new_level = 0 }

abbrev pub unload_abi_complete : ℕ → Bool
unload_abi_complete unload_compared = unload_compared == 1

unfoldable pub unload_abi_check : UnloadHeaders → ℕ → List ℕ → ℕ → ℕ → ℕ → Checked
unload_abi_check n function actual count mailbox unload_compared =
    let different =
      not (function == n.unloading_guest_driver)
      || (not (mailbox == n.falcon_mailbox0)
          || (not (count == n.unloading.bytes)
              || not (
                  same_bytes (take n.unloading.bytes actual)
                    (n.unloading.encode unloading_expected)))) in
    if different
    then record { code = 1; compared = unload_compared }
    else record { code = 0; compared = 1 }
