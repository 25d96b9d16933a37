-- ===== src/Abi/Sequence.antt =====
-- Of Tools/Bootstrap/GspMessageAbi.c: r4nv_gsp_sequence_abi_fixture, which writes one command of each
-- kind for the CPU sequencer. The commands' bytes and sizes come from NVIDIA's headers.
pub mod Extent
use r4os_driver_nvidia.Base.{
  ℕ, ◌+◌, ◌-◌, ◌*◌, ◌≡◌, Bool, true, false, ◌||◌, List, [], ◌∷◌, ◌==◌, ltb, if◌then◌else◌, length,
  take,
}
use r4os_driver_nvidia.Abi.{Layout, write_at}

-- GSP_SEQ_BUF_OPCODE.
pub data Opcode : Type 0 where
  reg_write : Opcode
  reg_modify : Opcode
  reg_poll : Opcode
  delay_us : Opcode
  reg_store : Opcode
  core_reset : Opcode
  core_start : Opcode
  core_wait_for_halt : Opcode
  core_resume : Opcode

-- The payload of GSP_SEQUENCER_BUFFER_CMD, whose union is zero where no member is set.
pub data SequencerPayload : Type 0 where
  write_of : (addr val : ℕ) → SequencerPayload
  modify_of : (addr mask val : ℕ) → SequencerPayload
  poll_of : (addr mask val timeout error : ℕ) → SequencerPayload
  delay_of : (val : ℕ) → SequencerPayload
  store_of : (addr index : ℕ) → SequencerPayload
  unset : SequencerPayload

-- GSP_SEQUENCER_BUFFER_CMD.
pub record SequencerCmd : Type 0 where
  pub op_code : Opcode
  pub payload : SequencerPayload

-- What NVIDIA's headers give; `payload_dwords` is GSP_SEQUENCER_PAYLOAD_SIZE_DWORDS.
pub record SequenceHeaders : Type 0 where
  pub cmd : Layout SequencerCmd
  pub op_code_bytes : ℕ
  pub payload_dwords : Opcode → ℕ
  pub payload_offset : ℕ
  pub reg_save_size : ℕ
  pub timeout_default : ℕ

abbrev pub SequenceAsserts : SequenceHeaders → Type 0
SequenceAsserts n =
    (n.op_code_bytes ≡ 4) × (n.payload_offset ≡ 4) × (n.reg_save_size ≡ 8) × (n.timeout_default ≡ 0)

abbrev pub opcodes : List Opcode
opcodes =
    reg_write ∷ reg_modify ∷ reg_poll ∷ delay_us ∷ reg_store ∷ core_reset ∷ core_start
    ∷ core_wait_for_halt ∷ core_resume ∷ []

-- switch (cmd.opCode)
abbrev pub payload_of : Opcode → SequencerPayload
payload_of reg_write = write_of 0x1234 0x5678
payload_of reg_modify = modify_of 0x5678 0xff00 0xf00f
payload_of reg_poll = poll_of 0x9010 0xfff 0x321 7 99
payload_of delay_us = delay_of 13
payload_of reg_store = store_of 0x1100 7
payload_of core_reset = unset
payload_of core_start = unset
payload_of core_wait_for_halt = unset
payload_of core_resume = unset

abbrev pub cmd_of : Opcode → SequencerCmd
cmd_of op = record { op_code = op; payload = payload_of op }

-- The result, the bytes at `output`, and the remembered flag.
pub record Sequenced : Type 0 where
  pub size : ℕ
  pub output : List ℕ
  pub sequence_compared : Bool

module _ (n : SequenceHeaders) where
  abbrev pub cmd_extent : Opcode → ℕ
  cmd_extent op = n.op_code_bytes + n.payload_dwords op * 4

  -- The loop over the opcodes from `offset` on, and what follows it.
  abbrev pub sequence_loop : List Opcode → ℕ → List ℕ → ℕ → Bool → Sequenced
  sequence_loop [] offset output capacity compared = record {
    size = offset;
    output = output;
    sequence_compared = offset == 88;
  }
  sequence_loop (op ∷ ops) offset output capacity compared =
      let bytes = cmd_extent op in
      let rest =
        sequence_loop ops (offset + bytes)
          (write_at offset (take bytes (n.cmd.encode (cmd_of op))) output) capacity compared in
      if ltb n.cmd.bytes bytes || ltb (capacity - offset) bytes
      then record { size = 0; output = output; sequence_compared = compared }
      else rest

  unfoldable pub sequence_abi_fixture : List ℕ → ℕ → Bool → Sequenced
  sequence_abi_fixture output capacity compared =
      if ltb capacity 88
      then record { size = 0; output = output; sequence_compared = compared }
      else sequence_loop opcodes 0 output capacity compared

abbrev pub sequence_abi_complete : Bool → Bool
sequence_abi_complete compared = compared
