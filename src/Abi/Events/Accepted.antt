-- ===== src/Abi/Events/Accepted.antt =====
-- When r4nv_gsp_event_abi_fixture serves a call, and when r4nv_gsp_event_abi_complete answers yes
-- (Tools/Bootstrap/GspMessageAbi.c).
use r4os_driver_nvidia.Base.{
  ℕ, zero, suc, ◌+◌, ◌-◌, ◌*◌, ◌^◌, ◌≡◌, ◌≤◌, ◌<◌, ◌↔◌, refl, ◌∙◌, ap, arith, Bool, true, false,
  not, ◌||◌, List, [], ◌∷◌, ◌++◌, ◌==◌, ltb, leb, if◌then◌else◌, length, length-append,
  length-replicate, drop, replicate, bit_or, eq→eqb,
}
use r4os_driver_nvidia.Abi.{IsLayout}
use r4os_driver_nvidia.Abi.Progress.{progress, compares, progress_iff, marked}
use r4os_driver_nvidia.Abi.Messages.{QueueElement, MessageHeaders, MessageAsserts}
use r4os_driver_nvidia.Abi.Events.{
  EventHeaders, EventAsserts, NocatRecord, Built, event_payload, event_element, event_buffer,
  event_summed, event_frame, event_abi_fixture, event_abi_complete, nocat_record, sequencer_event,
  sequencer_words, print_event, print_bytes,
}

-- The sizes of what the headers' layouts write.
pub record IsEventHeaders (v : EventHeaders) : Type 0 where
  pub init_done : IsLayout v.init_done
  pub run_cpu_sequencer : IsLayout v.run_cpu_sequencer
  pub os_error_log : IsLayout v.os_error_log
  pub ucode_libos_print : IsLayout v.ucode_libos_print
  pub lockdown_notice : IsLayout v.lockdown_notice
  pub nocat : (r : NocatRecord) (bytes : List ℕ) → length (v.nocat_store r bytes) ≡ length bytes
  pub words : (ws : List ℕ) → length (v.words ws) ≡ 4 * length ws
  pub post_nocat : v.post_nocat_bytes ≡ 4

-- A call by its fixture and the room at its output.
pub record EventCall : Type 0 where
  pub fixture : ℕ
  pub output : List ℕ
  pub capacity : ℕ

-- A frame is built for the call.
abbrev pub is_served : EventCall → Bool
is_served c = not (leb 6 c.fixture || ltb c.capacity 4096)

-- What a call leaves that is served, with the frame and the new mask, and one that is not.
abbrev pub served_built : Bool → ℕ → ℕ → ℕ → List ℕ → List ℕ → Built
served_built served size old new frame output =
    if served
    then record { size = size; output = frame ++ drop size output; events_compared = new }
    else record { size = 0; output = output; events_compared = old }

served_form :
    (t u z : Bool) (size old new : ℕ) (frame output : List ℕ)
    → t ≡ u
    → z ≡ true
    → size ≡ 4096
    → ◌≡◌ {A = Built}
        (if t
          then record { size = 0; output = output; events_compared = old }
          else if not z
          then record { size = 0; output = output; events_compared = old }
          else record { size = size; output = frame ++ drop size output; events_compared = new })
        (served_built (not u) 4096 old new frame output)
served_form t true z size old new frame output e f g = rw e refl
served_form t false z size old new frame output e f g = rw (e, f, g) refl

pub served_below : (c : EventCall) → is_served c ≡ true → c.fixture < 6
served_below c e = below c.fixture c.capacity e
  where
    below : (f capacity : ℕ) → not (leb 6 f || ltb capacity 4096) ≡ true → f < 6
    below f capacity h = ground arith

module _ (n : MessageHeaders) (v : EventHeaders) (element : IsLayout n.element)
    (asserts : MessageAsserts n) (events : EventAsserts v) (sizes : IsEventHeaders v)
    (cancels : (e : QueueElement) (rest : List ℕ) (m : ℕ)
      → e.check_sum ≡ 0
      → 80 ≤ m
      → m ≤ length (n.element.encode e ++ rest)
      → n.check_sum32
          (n.element.encode (record e { check_sum = n.check_sum32 (n.element.encode e ++ rest) m })
            ++ rest)
          m
        ≡ 0) where
  element_length : (e : QueueElement) → length (n.element.encode e) ≡ 80
  element_length e = let (_, b, _, _, _, _, _, _, _) = asserts in element.size e ∙ b

  -- What is written fits the frame, and what is announced lies inside it.
  payload_bounds :
      (f : ℕ)
      → (length (event_payload n v f).written ≤ 4016) × ((event_payload n v f).payload_len ≤ 4016)
  payload_bounds zero =
      let (b, _, _, _, _, _, _, _, _) = events in
      (omega (arith, sizes.init_done.size 0x7ac0ffee, b), omega arith)
  payload_bounds (suc zero) =
      let (_, _, b, _, _, _, _, _, _) = events in
      (
        omega (
          arith,
          length-append (v.run_cpu_sequencer.encode sequencer_event) (v.words sequencer_words),
          sizes.run_cpu_sequencer.size sequencer_event,
          sizes.words sequencer_words,
          b,
        ),
        omega (arith, b),
      )
  payload_bounds (suc (suc zero)) =
      let (_, _, _, _, _, b, _, _, _) = events in
      (omega (arith, sizes.os_error_log.size _, b), omega (arith, b))
  payload_bounds (suc (suc (suc zero))) =
      let (_, _, _, _, b, _, _, _, _) = events in
      (
        omega (
          arith,
          length-append (v.ucode_libos_print.encode print_event) print_bytes,
          sizes.ucode_libos_print.size print_event,
          b,
        ),
        omega (arith, b),
      )
  payload_bounds (suc (suc (suc (suc zero)))) =
      let (_, b, _, _, _, _, _, _, _) = events in
      (omega (arith, sizes.lockdown_notice.size true, b), omega (arith, b))
  payload_bounds (suc (suc (suc (suc (suc f))))) =
      let (_, _, _, _, _, _, b, _, _) = events in
      (
        omega (
          arith,
          length-append (v.nocat_store nocat_record (replicate v.nocat_bytes 0xa5))
              (replicate v.post_nocat_bytes 0x5a),
          sizes.nocat nocat_record (replicate v.nocat_bytes 0xa5),
          length-replicate {A = ℕ} v.nocat_bytes 0xa5,
          length-replicate {A = ℕ} v.post_nocat_bytes 0x5a,
          sizes.post_nocat,
          b,
        ),
        omega (arith, sizes.post_nocat, b),
      )

  buffer_length :
      (e : QueueElement) (written : List ℕ)
      → length written ≤ 4016
      → length (event_buffer n v e written) ≡ 4096
  buffer_length e written h =
      let (_, b, _, _, _, _, _, m, _) = asserts in
      omega (
        arith,
        length-append (n.element.encode e)
            (written ++ replicate (n.size_min - (n.element.bytes + length written)) 0),
        length-append written (replicate (n.size_min - (n.element.bytes + length written)) 0),
        length-replicate {A = ℕ} (n.size_min - (n.element.bytes + length written)) 0,
        element_length e,
        b,
        m,
      )

  -- The frame of each fixture is one queue element long: nothing is written behind the buffer.
  pub event_frame_length : (f : ℕ) → length (event_frame n v f) ≡ 4096
  event_frame_length f =
      let (h, _) = payload_bounds f in
      buffer_length (event_summed n v f) (event_payload n v f).written h

  pub sum_zero :
      (f : ℕ)
      → n.check_sum32 (event_frame n v f) (n.element.bytes + (event_payload n v f).payload_len) ≡ 0
  sum_zero f =
      let (_, b, _, _, _, _, _, _, _) = asserts in
      let (h, k) = payload_bounds f in
      let w = (event_payload n v f).written in
      cancels (event_element n v f) (w ++ replicate (n.size_min - (n.element.bytes + length w)) 0)
        (n.element.bytes + (event_payload n v f).payload_len) refl (omega (arith, b))
        (omega (arith, b, k, buffer_length (event_element n v f) w h))

  -- r4nv_gsp_event_abi_fixture serves every fixture below six that has a queue element of room: it
  -- writes the fixture's frame into the first 4096 bytes of the output, changes no byte behind them,
  -- returns 4096 and remembers the fixture. Any other call returns 0 and changes nothing. The
  -- structures have the sizes that the file asserts, and a stored checksum cancels the sum.
  pub event_abi_fixture-served :
      (c : EventCall) (mask : ℕ)
      → event_abi_fixture n v c.fixture c.output c.capacity mask
        ≡ served_built
            (is_served c)
            4096
            mask
            (bit_or mask (2 ^ c.fixture))
            (event_frame n v c.fixture)
            c.output
  unfolding event_abi_fixture
  event_abi_fixture-served c mask =
      let (_, _, _, _, _, _, _, m, _) = asserts in
      served_form (leb 6 c.fixture || ltb c.capacity n.size_min)
        (leb 6 c.fixture || ltb c.capacity 4096)
        (n.check_sum32 (event_frame n v c.fixture)
            (n.element.bytes + (event_payload n v c.fixture).payload_len)
          == 0)
        n.size_min mask (bit_or mask (2 ^ c.fixture)) (event_frame n v c.fixture) c.output
        (ap (λ k. leb 6 c.fixture || ltb c.capacity k) m) (eq→eqb _ 0 (sum_zero c.fixture)) m

  mask_of :
      (served : Bool) (c : EventCall) (mask : ℕ)
      → (served_built served 4096 mask
          (bit_or mask (2 ^ c.fixture))
          (event_frame n v c.fixture)
          c.output).events_compared
        ≡ marked served c.fixture mask
  mask_of true c mask = refl
  mask_of false c mask = refl

  -- The mask after a run of calls.
  abbrev pub events_built : List EventCall → ℕ → ℕ
  events_built [] mask = mask
  events_built (c ∷ calls) mask =
      events_built calls (event_abi_fixture n v c.fixture c.output c.capacity mask).events_compared

  events-progress :
      (calls : List EventCall) (mask : ℕ)
      → events_built calls mask ≡ progress is_served (λ c. c.fixture) calls mask
  events-progress [] mask = refl
  events-progress (c ∷ calls) mask =
      ap (events_built calls) (
        ap (λ b. b.events_compared) (event_abi_fixture-served c mask)
        ∙ mask_of (is_served c) c mask)
      ∙ events-progress calls (marked (is_served c) c.fixture mask)

  -- Calls from the start on make r4nv_gsp_event_abi_complete answer yes exactly where, for each of
  -- the six fixtures, one of them had a queue element of room.
  pub event_abi_complete_iff :
      (calls : List EventCall)
      → (event_abi_complete (events_built calls 0) ≡ true)
        ↔ ((i : ℕ) → i < 6 → compares is_served (λ c. c.fixture) i calls ≡ true)
  event_abi_complete_iff calls =
      rw (events-progress calls 0)
        (progress_iff is_served (λ c. c.fixture) 6 (λ c e. served_below c e) calls)
