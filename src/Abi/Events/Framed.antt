-- ===== src/Abi/Events/Framed.antt =====
-- The frames that r4nv_gsp_event_abi_fixture builds (Tools/Bootstrap/GspMessageAbi.c), described by
-- what a receiver finds in them.
use r4os_driver_nvidia.Base.{
  ℕ, zero, suc, ◌+◌, ◌-◌, ◌^◌, ◌≡◌, ◌≤◌, ◌<◌, refl, ◌∙◌, ap, arith, Bool, true, false, List, [],
  ◌∷◌, ◌++◌, ◌==◌, if◌then◌else◌, length, length-append, length-replicate, take, drop, replicate,
  bit_or, u32,
}
use r4os_driver_nvidia.Abi.Messages.{MessageHeader, QueueElement, MessageHeaders, MessageAsserts}
use r4os_driver_nvidia.Abi.Events.{
  EventHeaders, EventAsserts, Built, event_payload, event_summed, nocat_record,
}
use r4os_driver_nvidia.Abi.Events.Accepted.{IsEventHeaders, EventCall}

-- The bytes that each event announces behind the message's header.
abbrev pub extent : ℕ → ℕ
extent zero = 0
extent (suc zero) = 52
extent (suc (suc zero)) = 272
extent (suc (suc (suc zero))) = 13
extent (suc (suc (suc (suc zero)))) = 1
extent (suc (suc (suc (suc (suc f))))) = 1212

module _ (v : EventHeaders) where
  -- The event's code.
  abbrev pub code : ℕ → ℕ
  code zero = v.event_gsp_init_done
  code (suc zero) = v.event_gsp_run_cpu_sequencer
  code (suc (suc zero)) = v.event_os_error_log
  code (suc (suc (suc zero))) = v.event_ucode_libos_print
  code (suc (suc (suc (suc zero)))) = v.event_gsp_lockdown_notice
  code (suc (suc (suc (suc (suc f))))) = v.event_gsp_post_nocat_record

  -- The bytes announced: none; a sequencer's command of three words; a log entry whose string has no
  -- terminator; a print of five bytes; a notice; a journal record with four bytes behind it.
  abbrev pub content : ℕ → List ℕ
  content zero = []
  content (suc zero) =
      v.run_cpu_sequencer.encode (record {
        buffer_size_dword = 8;
        cmd_index = 3;
        reg_save_area = 0x100 ∷ 0x101 ∷ 0x102 ∷ 0x103 ∷ 0x104 ∷ 0x105 ∷ 0x106 ∷ 0x107 ∷ [];
      })
      ++ v.words (0x11223344 ∷ 0x55667788 ∷ 0x99aabbcc ∷ [])
  content (suc (suc zero)) = v.os_error_log.encode (record {
    except_type = 119;
    runlist_id = 4;
    chid = 0xffffffff;
    err_string = replicate v.err_string_bytes b'X';
    preemptive_removal_previous_xid = 13;
  })
  content (suc (suc (suc zero))) =
      v.ucode_libos_print.encode (record { ucode_eng_desc = 0x1234; libos_print_buf_size = 5 })
      ++ (0 ∷ b'%' ∷ 255 ∷ 27 ∷ b'Z' ∷ [])
  content (suc (suc (suc (suc zero)))) = v.lockdown_notice.encode true
  content (suc (suc (suc (suc (suc f))))) =
      v.nocat_store nocat_record (replicate v.nocat_bytes 165) ++ replicate v.post_nocat_bytes 90

  -- What stands behind them: zeros up to the end of the frame, in the first fixture behind a word
  -- that the message does not count.
  abbrev pub behind : ℕ → List ℕ
  behind zero = v.init_done.encode 0x7ac0ffee ++ replicate 4012 0
  behind (suc f) = replicate (4016 - extent (suc f)) 0

module _ (n : MessageHeaders) (v : EventHeaders) where
  -- The message's header: it announces itself and the content.
  abbrev pub header : ℕ → MessageHeader
  header f = record {
    header_version = bit_or n.version_major_tot n.version_minor_tot;
    signature = n.signature_valid;
    length = 32 + extent f;
    function = code v f;
    rpc_result = if f == 0 then v.status_ok else n.result_rpc_pending;
    rpc_result_private = 0x76543210;
    sequence = 0x700 + f;
  }

  -- A frame of 4096 bytes: one queue element, whose checksum cancels over the 80 bytes of headers and
  -- the content, then the content, and what is behind.
  abbrev pub IsEventFrame : ℕ → List ℕ → Type 0
  IsEventFrame f frame =
      (e : QueueElement) × (frame ≡ n.element.encode e ++ (content v f ++ behind v f))
      × (length frame ≡ 4096)
      × (length (content v f) ≡ extent f)
      × (e.seq_num ≡ 10 + f)
      × (e.elem_count ≡ 1)
      × (e.rpc ≡ header f)
      × (n.check_sum32 frame (80 + extent f) ≡ 0)

  -- How a call ends that is served, and one that is not.
  abbrev pub IsAnswer : Bool → EventCall → ℕ → Built → Type 0
  IsAnswer true c mask r =
      (r.size ≡ 4096)
      × (r.events_compared ≡ bit_or mask (2 ^ c.fixture))
      × (drop 4096 r.output ≡ drop 4096 c.output)
      × IsEventFrame c.fixture (take 4096 r.output)
  IsAnswer false c mask r = r ≡ record { size = 0; output = c.output; events_compared = mask }

module _ (n : MessageHeaders) (v : EventHeaders) (asserts : MessageAsserts n)
    (events : EventAsserts v) (sizes : IsEventHeaders v) where
  pub extent_lem : (f : ℕ) → (event_payload n v f).payload_len ≡ extent f
  extent_lem zero = refl
  extent_lem (suc zero) = let (_, _, b, _, _, _, _, _, _) = events in omega (arith, b)
  extent_lem (suc (suc zero)) = let (_, _, _, _, _, b, _, _, _) = events in b
  extent_lem (suc (suc (suc zero))) = let (_, _, _, _, b, _, _, _, _) = events in omega (arith, b)
  extent_lem (suc (suc (suc (suc zero)))) = let (_, b, _, _, _, _, _, _, _) = events in b
  extent_lem (suc (suc (suc (suc (suc f))))) =
      let (_, _, _, _, _, _, b, _, _) = events in omega (arith, b, sizes.post_nocat)

  pub content_length : (f : ℕ) → length (content v f) ≡ extent f
  content_length zero = refl
  content_length (suc zero) =
      let (_, _, b, _, _, _, _, _, _) = events in
      length-append _ (v.words (0x11223344 ∷ 0x55667788 ∷ 0x99aabbcc ∷ []))
      ∙ omega (
        arith,
        sizes.run_cpu_sequencer.size _,
        sizes.words (0x11223344 ∷ 0x55667788 ∷ 0x99aabbcc ∷ []),
        b,
      )
  content_length (suc (suc zero)) =
      let (_, _, _, _, _, b, _, _, _) = events in sizes.os_error_log.size _ ∙ b
  content_length (suc (suc (suc zero))) =
      let (_, _, _, _, b, _, _, _, _) = events in
      length-append _ (0 ∷ b'%' ∷ 255 ∷ 27 ∷ b'Z' ∷ [])
      ∙ ap (λ k. k + 5) (sizes.ucode_libos_print.size _ ∙ b)
  content_length (suc (suc (suc (suc zero)))) =
      let (_, b, _, _, _, _, _, _, _) = events in sizes.lockdown_notice.size true ∙ b
  content_length (suc (suc (suc (suc (suc f))))) =
      let (_, _, _, _, _, _, b, _, _) = events in
      omega (
        arith,
        length-append (v.nocat_store nocat_record (replicate v.nocat_bytes 165))
            (replicate v.post_nocat_bytes 90),
        sizes.nocat nocat_record (replicate v.nocat_bytes 165),
        length-replicate {A = ℕ} v.nocat_bytes 165,
        length-replicate {A = ℕ} v.post_nocat_bytes 90,
        sizes.post_nocat,
        b,
      )

  -- The zeros behind `written`, counted from the frame's size.
  zeros :
      (written : List ℕ) (k m : ℕ)
      → length written ≡ k
      → 4016 - k ≡ m
      → replicate {A = ℕ} (n.size_min - (n.element.bytes + length written)) 0 ≡ replicate m 0
  zeros written k m e g =
      let (_, b, _, _, _, _, _, s, _) = asserts in
      ap (λ j. replicate {A = ℕ} j 0) {x = n.size_min - (n.element.bytes + length written)} {y = m}
        (omega (arith, b, s))

  pub written_lem :
      (f : ℕ)
      → let written = (event_payload n v f).written in
        written ++ replicate (n.size_min - (n.element.bytes + length written)) 0
        ≡ content v f ++ behind v f
  written_lem zero =
      let (b, _, _, _, _, _, _, _, _) = events in
      ap (λ zs. v.init_done.encode 0x7ac0ffee ++ zs)
        (zeros (v.init_done.encode 0x7ac0ffee) 4 4012 (sizes.init_done.size 0x7ac0ffee ∙ b) refl)
  written_lem (suc zero) =
      ap (λ zs. content v 1 ++ zs) (zeros (content v 1) 52 _ (content_length 1) refl)
  written_lem (suc (suc zero)) =
      ap (λ zs. content v 2 ++ zs) (zeros (content v 2) 272 _ (content_length 2) refl)
  written_lem (suc (suc (suc zero))) =
      ap (λ zs. content v 3 ++ zs) (zeros (content v 3) 13 _ (content_length 3) refl)
  written_lem (suc (suc (suc (suc zero)))) =
      ap (λ zs. content v 4 ++ zs) (zeros (content v 4) 1 _ (content_length 4) refl)
  written_lem (suc (suc (suc (suc (suc f))))) =
      ap (λ zs. content v 5 ++ zs) (zeros (content v 5) 1212 _ (content_length 5) refl)

  code_lem : (f : ℕ) → (event_payload n v f).function ≡ code v f
  code_lem zero = refl
  code_lem (suc zero) = refl
  code_lem (suc (suc zero)) = refl
  code_lem (suc (suc (suc zero))) = refl
  code_lem (suc (suc (suc (suc zero)))) = refl
  code_lem (suc (suc (suc (suc (suc f))))) = refl

  extent_bound : (f : ℕ) → extent f ≤ 1212
  extent_bound zero = omega arith
  extent_bound (suc zero) = omega arith
  extent_bound (suc (suc zero)) = omega arith
  extent_bound (suc (suc (suc zero))) = omega arith
  extent_bound (suc (suc (suc (suc zero)))) = omega arith
  extent_bound (suc (suc (suc (suc (suc f))))) = omega arith

  pub header_lem : (f : ℕ) → f < 6 → (event_summed n v f).rpc ≡ header n v f
  header_lem f h =
      let (b, _, _, _, _, _, _, _, _) = asserts in
      let e : u32 (n.rpc_header_bytes + (event_payload n v f).payload_len) ≡ 32 + extent f =
        omega (arith, b, extent_lem f, extent_bound f) in
      let g : u32 (0x700 + f) ≡ 0x700 + f = omega arith in rw (e, g, code_lem f) refl
