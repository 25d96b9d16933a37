-- ===== src/FieldTests.antt =====
-- The properties of the sequencer's commands, of a channel's flags, of page words and of the packed
-- registry (Tools/Bootstrap/GspMessageAbi.c) at concrete headers.
use r4os_driver_nvidia.Base.{
  ℕ, zero, suc, ◌+◌, ◌*◌, ◌/◌, ◌%◌, ◌^◌, ◌≡◌, ◌<◌, refl, ◌∙◌, ap, arith, true, false, List, [], ◌∷◌,
  ◌++◌, ◌==◌, length-append, length-replicate, length-take, take, replicate,
}
use r4os_driver_nvidia.Abi.{IsLayout}
use r4os_driver_nvidia.Abi.Sequence.{
  Opcode, reg_write, reg_modify, reg_poll, delay_us, reg_store, core_reset, core_start,
  core_wait_for_halt, core_resume, SequencerPayload, write_of, modify_of, poll_of, delay_of,
  store_of, unset, SequenceHeaders, opcodes, sequence_abi_fixture,
}
use r4os_driver_nvidia.Abi.Sequence.Extent.{words, program, sequence_abi_fixture_lem}
use r4os_driver_nvidia.Abi.BitFields.{IsFields}
use r4os_driver_nvidia.Abi.Channel.{
  Flag, Doorbell, ChannelHeaders, group_channel_runqueue, channel_userd_index_value,
  channel_userd_index_page_value, privileged_channel, vector, runlist_id, expected_flags,
  expected_doorbell, host_channel_abi_check, channel_userd_index_fixed,
  channel_userd_index_page_fixed, flag_index, doorbell_index, channel_deny_physical_mode_ce,
  delay_channel_scheduling,
}
use r4os_driver_nvidia.Abi.Channel.ReadBack.{host_channel_abi_check_reads}

abbrev op_number : Opcode → ℕ
op_number reg_write = 0
op_number reg_modify = 1
op_number reg_poll = 2
op_number delay_us = 3
op_number reg_store = 4
op_number core_reset = 5
op_number core_start = 6
op_number core_wait_for_halt = 7
op_number core_resume = 8

abbrev members : SequencerPayload → List ℕ
members (write_of addr val) = addr ∷ val ∷ []
members (modify_of addr mask val) = addr ∷ mask ∷ val ∷ []
members (poll_of addr mask val timeout error) = addr ∷ mask ∷ val ∷ timeout ∷ error ∷ []
members (delay_of val) = val ∷ []
members (store_of addr index) = addr ∷ index ∷ []
members unset = []

-- A 32-bit word, its value in the first place.
abbrev spread : List ℕ → List ℕ
spread [] = []
spread (w ∷ ws) = w ∷ 0 ∷ 0 ∷ 0 ∷ spread ws

abbrev sequence_headers : SequenceHeaders
sequence_headers = record {
  cmd = record {
    bytes = 24;
    encode = λ c. take 24 (spread (op_number c.op_code ∷ members c.payload) ++ replicate 24 0);
    decode = λ b. record { op_code = reg_write; payload = unset };
  };
  op_code_bytes = 4;
  payload_dwords = words;
  payload_offset = 4;
  reg_save_size = 8;
  timeout_default = 0;
}

sequence-IsLayout : IsLayout sequence_headers.cmd
sequence-IsLayout = record {
  size = λ c. omega (
    arith,
    length-take 24 (spread (op_number c.op_code ∷ members c.payload) ++ replicate 24 0),
    length-append (spread (op_number c.op_code ∷ members c.payload)) (replicate 24 0),
    length-replicate {A = ℕ} 24 0,
  );
}

sequence_abi_fixture_lem_example :
    sequence_abi_fixture sequence_headers (replicate 90 7) 90 false ≡ record {
      size = 88;
      output = program sequence_headers opcodes ++ (7 ∷ 7 ∷ []);
      sequence_compared = true;
    }
sequence_abi_fixture_lem_example =
    sequence_abi_fixture_lem sequence_headers sequence-IsLayout (refl, refl, refl, refl) refl
      (λ op. refl) (replicate 90 7) 90 false

-- Words whose fields are the digits of base 4096.
abbrev digit : ℕ → ℕ → ℕ
digit zero w = w % 4096
digit (suc i) w = digit i (w / 4096)

abbrev with_digit : ℕ → ℕ → ℕ → ℕ
with_digit zero v w = w / 4096 * 4096 + v % 4096
with_digit (suc i) v w = with_digit i v (w / 4096) * 4096 + w % 4096

digit-with_digit : (i v w : ℕ) → v < 4096 → digit i (with_digit i v w) ≡ v
digit-with_digit zero v w h = omega arith
digit-with_digit (suc i) v w h =
    ap (digit i) {x = (with_digit i v (w / 4096) * 4096 + w % 4096) / 4096}
      {y = with_digit i v (w / 4096)} (omega arith)
    ∙ digit-with_digit i v (w / 4096) h

digit-with_digit_other : (i j v w : ℕ) → (i == j) ≡ false → digit i (with_digit j v w) ≡ digit i w
digit-with_digit_other zero zero v w h = absurd (cc)
digit-with_digit_other zero (suc j) v w h = omega arith
digit-with_digit_other (suc i) zero v w h =
    ap (digit i) {x = (w / 4096 * 4096 + v % 4096) / 4096} {y = w / 4096} (omega arith)
digit-with_digit_other (suc i) (suc j) v w h =
    ap (digit i) {x = (with_digit j v (w / 4096) * 4096 + w % 4096) / 4096}
      {y = with_digit j v (w / 4096)} (omega arith)
    ∙ digit-with_digit_other i j v (w / 4096) (ground arith)

abbrev flag_width : Flag → ℕ
flag_width delay_channel_scheduling = 1
flag_width channel_deny_physical_mode_ce = 1
flag_width group_channel_runqueue = 1
flag_width privileged_channel = 1
flag_width channel_userd_index_fixed = 1
flag_width channel_userd_index_page_fixed = 1
flag_width channel_userd_index_value = 3
flag_width channel_userd_index_page_value = 9

flag-fits : (f : Flag) (v : ℕ) → v < 2 ^ flag_width f → v < 4096
flag-fits delay_channel_scheduling v h = omega arith
flag-fits channel_deny_physical_mode_ce v h = omega arith
flag-fits group_channel_runqueue v h = omega arith
flag-fits privileged_channel v h = omega arith
flag-fits channel_userd_index_fixed v h = omega arith
flag-fits channel_userd_index_page_fixed v h = omega arith
flag-fits channel_userd_index_value v h = omega arith
flag-fits channel_userd_index_page_value v h = omega arith

abbrev doorbell_width : Doorbell → ℕ
doorbell_width vector = 12
doorbell_width runlist_id = 7

doorbell-fits : (f : Doorbell) (v : ℕ) → v < 2 ^ doorbell_width f → v < 4096
doorbell-fits vector v h = omega arith
doorbell-fits runlist_id v h = omega arith

abbrev channel_headers : ChannelHeaders
channel_headers = record {
  params_bytes = 368;
  flags_offset = 20;
  flags = record {
    set = λ f. with_digit (flag_index f);
    get = λ f. digit (flag_index f);
    width = flag_width;
  };
  doorbell = record {
    set = λ f. with_digit (doorbell_index f);
    get = λ f. digit (doorbell_index f);
    width = doorbell_width;
  };
  delay_true = 1;
  deny_true = 1;
  privileged_true = 1;
  index_fixed_false = 0;
  page_fixed_true = 1;
}

flags-IsFields : IsFields flag_index channel_headers.flags
flags-IsFields = record {
  reads = λ f v w h. digit-with_digit (flag_index f) v w (flag-fits f v h);
  keeps = λ f g v w e. digit-with_digit_other (flag_index f) (flag_index g) v w e;
}

doorbell-IsFields : IsFields doorbell_index channel_headers.doorbell
doorbell-IsFields = record {
  reads = λ f v w h. digit-with_digit (doorbell_index f) v w (doorbell-fits f v h);
  keeps = λ f g v w e. digit-with_digit_other (doorbell_index f) (doorbell_index g) v w e;
}

abbrev flags_264 : ℕ
flags_264 = expected_flags channel_headers 264 1 1

abbrev token_264 : ℕ
token_264 = expected_doorbell channel_headers 264 5

checked_264 : host_channel_abi_check channel_headers 264 5 1 1 flags_264 token_264 ≡ 0
unfolding host_channel_abi_check
checked_264 = refl

host_channel_abi_check_reads_example :
    (8 * digit 7 flags_264 + digit 6 flags_264 ≡ 264)
    × (digit 2 flags_264 ≡ 1)
    × (digit 0 token_264 ≡ 264)
    × (digit 1 token_264 ≡ 5)
host_channel_abi_check_reads_example =
    host_channel_abi_check_reads channel_headers flags-IsFields doorbell-IsFields refl refl refl
      refl refl 264 5 1 1 flags_264 token_264 checked_264
