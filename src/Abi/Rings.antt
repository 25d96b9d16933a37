-- ===== src/Abi/Rings.antt =====
-- Of Tools/Bootstrap/FwsecAbi.c: r4nv_gsp_ring_abi_check, which compares the cursors and slots of two
-- linked queues of NVIDIA's msgq with the driver's.
-- The queues are a parameter.
pub mod Linked
use r4os_driver_nvidia.Base.{
  ℕ, zero, suc, ◌+◌, ◌-◌, ◌*◌, ◌^◌, Bool, true, false, not, ◌||◌, Option, none, some, List, [], ◌∷◌,
  ◌++◌, ◌==◌, ltb, leb, if◌then◌else◌, replicate, bit_or, bit_and,
}
use r4os_driver_nvidia.Abi.{same_bytes}
use r4os_driver_nvidia.Abi.Messages.{Checked}

-- A cursor of a queue: whether it lies in the status buffer, and its offset in its buffer.
pub record Cursor : Type 0 where
  pub in_status : Bool
  pub offset : ℕ

-- Both endpoints and their two buffers, in a state of type `Q`. `linked` runs msgqInit, msgqTxCreate
-- and msgqRxLink for both ends, by the swap of the CPU's and of the peer's (none where one of them
-- fails); the other members are the fields and calls of msgq on the CPU's end.
pub record MsgQueues (Q : Type 0) : Type 0 where
  pub linked : Bool → Bool → Option Q
  pub set_write : ℕ → Q → Q
  pub set_read : ℕ → Q → Q
  pub set_read_incoming : ℕ → Q → Q
  pub set_write_incoming : ℕ → Q → Q
  pub rx_swapped : Q → Bool
  pub read_incoming : Q → Cursor
  pub read_outgoing : Q → Cursor
  pub tx_rx_hdr_off : Q → ℕ
  pub rx_rx_hdr_off : Q → ℕ
  pub tx_msg_count : Q → ℕ
  pub rx_msg_count : Q → ℕ
  pub free_space : Q → ℕ
  pub read_available : Q → ℕ
  pub write_buffer : Q → ℕ → Option ℕ
  pub read_buffer : Q → ℕ → Option ℕ
  pub submit : ℕ → Q → Option Q
  pub mark_consumed : ℕ → Q → Option Q
  pub write_ptr : Q → ℕ
  pub read_ptr : Q → ℕ
  pub write_outgoing : Q → ℕ
  pub read_outgoing_value : Q → ℕ

-- A flag as a word.
abbrev pub word_of : Bool → ℕ
word_of flag = if flag then 1 else 0

-- expected[16 + i] and expected[32 + i].
pub record Slots : Type 0 where
  pub tx : List ℕ
  pub rx : List ℕ

module _ {Q : Type 0} (n : MsgQueues Q) where
  abbrev pub add_slot : Option ℕ → Option ℕ → Option Slots → Option Slots
  add_slot (some t) (some r) (some s) = some (record { tx = t ∷ s.tx; rx = r ∷ s.rx })
  add_slot (some t) (some r) none = none
  add_slot (some t) none s = none
  add_slot none r s = none

  -- The loop over the slots, `left` of them from `i` on.
  abbrev pub ring_slots : Q → ℕ → ℕ → Option Slots
  ring_slots q i zero = some (record { tx = []; rx = [] })
  ring_slots q i (suc left) =
      add_slot (n.write_buffer q i) (n.read_buffer q i) (ring_slots q (suc i) left)

  abbrev pub with_cursors : Q → Q
  with_cursors q =
      n.set_write_incoming 14 (n.set_read_incoming 40 (n.set_read 60 (n.set_write 60 q)))

  abbrev pub ring_expected : Q → Q → ℕ → Slots → List ℕ
  ring_expected q after count slots =
      (word_of (n.rx_swapped q)
        ∷ word_of (n.read_incoming q).in_status
        ∷ (n.read_incoming q).offset
        ∷ word_of (n.read_outgoing q).in_status
        ∷ (n.read_outgoing q).offset
        ∷ n.tx_rx_hdr_off q
        ∷ n.rx_rx_hdr_off q
        ∷ n.tx_msg_count q
        ∷ n.rx_msg_count q
        ∷ n.free_space q
        ∷ n.read_available q
        ∷ n.write_ptr after
        ∷ n.read_ptr after
        ∷ n.write_outgoing after
        ∷ n.read_outgoing_value after
        ∷ count
        ∷ [])
      ++ ((slots.tx ++ replicate (16 - count) 0) ++ (slots.rx ++ replicate (16 - count) 0))

  abbrev pub ring_moved : Q → ℕ → Option Q
  ring_moved q count = elim (n.submit count q) [ none ↦ none | some s ↦ n.mark_consumed count s ]

  -- The check behind the links, on queues whose cursors are set.
  abbrev pub ring_linked : List ℕ → ℕ → ℕ → Q → Checked
  ring_linked actual fixture compared q =
      let count = if ltb fixture 4 then 1 else 16 in
      elim (ring_slots q 0 count) [
        | none ↦ record { code = 3; compared = compared }
        | some slots ↦ elim (ring_moved q count) [
          | none ↦ record { code = 4; compared = compared }
          | some after ↦
              if not (same_bytes actual (ring_expected q after count slots))
              then record { code = 5; compared = compared }
              else record { code = 0; compared = bit_or compared (2 ^ fixture) }
        ]
      ]

  unfoldable pub ring_abi_check : List ℕ → ℕ → ℕ → ℕ → Checked
  ring_abi_check actual actual_len fixture compared =
      if leb 8 fixture || not (actual_len == 48 * 4)
      then record { code = 1; compared = compared }
      else elim (n.linked (not (bit_and fixture 1 == 0)) (not (bit_and fixture 2 == 0))) [
        | none ↦ record { code = 2; compared = compared }
        | some q ↦ ring_linked actual fixture compared (with_cursors q)
      ]
