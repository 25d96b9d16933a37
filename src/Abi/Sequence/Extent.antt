-- ===== src/Abi/Sequence/Extent.antt =====
-- What r4nv_gsp_sequence_abi_fixture writes (Tools/Bootstrap/GspMessageAbi.c).
use r4os_driver_nvidia.Base.{
  ℕ, suc, ◌+◌, ◌-◌, ◌*◌, ◌≡◌, ◌≤◌, refl, sym, ◌∙◌, ap, arith, Bool, true, List, [], ◌∷◌, ◌++◌,
  append_assoc, append-nil, ◌==◌, ltb, if◌then◌else◌, length, length-append, length-take, take,
  drop, drop-drop, le→ltb, ltb→le, Bool-cases, inl, inr,
}
use r4os_driver_nvidia.Abi.{IsLayout, write_at, slice_first}
use r4os_driver_nvidia.Abi.Sequence.{
  Opcode, reg_write, reg_modify, reg_poll, delay_us, reg_store, core_reset, core_start,
  core_wait_for_halt, core_resume, SequenceHeaders, SequenceAsserts, Sequenced, opcodes, cmd_of,
  cmd_extent, sequence_loop, sequence_abi_fixture,
}

-- The 32-bit words of each command's payload.
abbrev pub words : Opcode → ℕ
words reg_write = 2
words reg_modify = 3
words reg_poll = 5
words delay_us = 1
words reg_store = 2
words core_reset = 0
words core_start = 0
words core_wait_for_halt = 0
words core_resume = 0

words_bound : (op : Opcode) → words op ≤ 5
words_bound reg_write = omega arith
words_bound reg_modify = omega arith
words_bound reg_poll = omega arith
words_bound delay_us = omega arith
words_bound reg_store = omega arith
words_bound core_reset = omega arith
words_bound core_start = omega arith
words_bound core_wait_for_halt = omega arith
words_bound core_resume = omega arith

-- The words of commands, their opcodes included.
abbrev pub total : List Opcode → ℕ
total [] = 0
total (op ∷ ops) = 1 + words op + total ops

drop_past : (xs ys : List ℕ) (k : ℕ) → drop (length xs + k) (xs ++ ys) ≡ drop k ys
drop_past [] ys k = ap (λ j. drop j ys) {x = 0 + k} {y = k} (omega arith)
drop_past (x ∷ xs) ys k =
    ap (λ j. drop j (x ∷ (xs ++ ys))) {x = suc (length xs) + k} {y = suc (length xs + k)}
      (omega arith)
    ∙ drop_past xs ys k

-- A write behind the bytes that are already there.
write_at_end :
    (xs bytes ys : List ℕ)
    → write_at (length xs) bytes (xs ++ drop (length xs) ys)
      ≡ (xs ++ bytes) ++ drop (length (xs ++ bytes)) ys
write_at_end xs bytes ys =
    rw
      (
        slice_first xs (drop (length xs) ys),
        drop_past xs (drop (length xs) ys) (length bytes),
        drop-drop (length bytes) (length xs) ys,
      )
      (sym (append_assoc xs bytes (drop (length bytes + length xs) ys))
        ∙ ap (λ k. (xs ++ bytes) ++ drop k ys) {x = length bytes + length xs}
            {y = length (xs ++ bytes)} (omega (arith, length-append xs bytes)))

module _ (n : SequenceHeaders) where
  -- The bytes of commands, one behind the other, each without the unused part of its union.
  abbrev pub program : List Opcode → List ℕ
  program [] = []
  program (op ∷ ops) = take (cmd_extent n op) (n.cmd.encode (cmd_of op)) ++ program ops

module _ (n : SequenceHeaders) (cmd : IsLayout n.cmd) (asserts : SequenceAsserts n)
    (cmd_bytes : n.cmd.bytes ≡ 24)
    (payload_words : (op : Opcode) → n.payload_dwords op ≡ words op) where
  extent : (op : Opcode) → cmd_extent n op ≡ 4 * (1 + words op)
  extent op = let (e, _, _, _) = asserts in omega (arith, e, payload_words op)

  extent-take :
      (op : Opcode) → length (take (cmd_extent n op) (n.cmd.encode (cmd_of op))) ≡ cmd_extent n op
  extent-take op = omega (
    arith,
    length-take (cmd_extent n op) (n.cmd.encode (cmd_of op)),
    cmd.size (cmd_of op),
    cmd_bytes,
    extent op,
    words_bound op,
  )

  extended :
      (xs : List ℕ) (op : Opcode)
      → length (xs ++ take (cmd_extent n op) (n.cmd.encode (cmd_of op)))
        ≡ length xs + cmd_extent n op
  extended xs op =
      length-append xs (take (cmd_extent n op) (n.cmd.encode (cmd_of op)))
      ∙ ap (λ k. length xs + k) (extent-take op)

  -- What is left of a call that has written `bytes`.
  abbrev pub sequenced : List ℕ → List ℕ → Sequenced
  sequenced bytes output = record {
    size = length bytes;
    output = bytes ++ drop (length bytes) output;
    sequence_compared = length bytes == 88;
  }

  loop_lem :
      (ops : List Opcode) (xs output : List ℕ) (capacity : ℕ) (compared : Bool)
      → length xs + 4 * total ops ≤ capacity
      → sequence_loop n ops (length xs) (xs ++ drop (length xs) output) capacity compared
        ≡ sequenced (xs ++ program n ops) output
  loop_lem [] xs output capacity compared h = rw (append-nil xs) refl
  loop_lem (op ∷ ops) xs output capacity compared h =
      let chunk = take (cmd_extent n op) (n.cmd.encode (cmd_of op)) in
      rw
        (
          le→ltb n.cmd.bytes (cmd_extent n op)
              (omega (arith, cmd_bytes, extent op, words_bound op)),
          le→ltb (capacity - length xs) (cmd_extent n op) (omega (arith, extent op)),
          write_at_end xs chunk output,
          ← extended xs op,
          loop_lem ops (xs ++ chunk) output capacity compared
              (omega (arith, extended xs op, extent op)),
        )
        (ap (λ ys. sequenced ys output) (append_assoc xs chunk (program n ops)))

  length-program : (ops : List Opcode) → length (program n ops) ≡ 4 * total ops
  length-program [] = refl
  length-program (op ∷ ops) =
      length-append (take (cmd_extent n op) (n.cmd.encode (cmd_of op))) (program n ops)
      ∙ omega (arith, extent-take op, extent op, length-program ops)

  -- r4nv_gsp_sequence_abi_fixture needs 88 bytes of room. Where it has them it writes the nine
  -- commands into the first 88 bytes of the output, changes no byte behind them, returns 88 and
  -- remembers that it did; with less room it returns 0 and changes nothing. A command has 24 bytes,
  -- and the payloads have the words of their structures.
  pub sequence_abi_fixture_lem :
      (output : List ℕ) (capacity : ℕ) (compared : Bool)
      → sequence_abi_fixture n output capacity compared ≡ (
          if ltb capacity 88
          then record { size = 0; output = output; sequence_compared = compared }
          else record {
            size = 88;
            output = program n opcodes ++ drop 88 output;
            sequence_compared = true;
          })
  unfolding sequence_abi_fixture
  sequence_abi_fixture_lem output capacity compared = elim (Bool-cases (ltb capacity 88)) [
    | inl e ↦ rw e refl
    | inr e ↦
        rw
          (
            e,
            loop_lem opcodes [] output capacity compared (omega (arith, ltb→le capacity 88 e)),
            length-program opcodes,
          )
          refl
  ]
