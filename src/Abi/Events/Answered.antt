-- ===== src/Abi/Events/Answered.antt =====
-- How each call of r4nv_gsp_event_abi_fixture ends (Tools/Bootstrap/GspMessageAbi.c).
use r4os_driver_nvidia.Base.{
  ℕ, ◌+◌, ◌≡◌, ◌≤◌, ◌<◌, refl, sym, ◌∙◌, ap, arith, List, ◌++◌, Bool-cases, inl, inr, length, take,
  drop, u32,
}
use r4os_driver_nvidia.Abi.{IsLayout, slice_first, drop_length}
use r4os_driver_nvidia.Abi.Messages.{QueueElement, MessageHeaders, MessageAsserts}
use r4os_driver_nvidia.Abi.Events.{
  EventHeaders, EventAsserts, event_summed, event_frame, event_abi_fixture,
}
use r4os_driver_nvidia.Abi.Events.Accepted.{
  IsEventHeaders, EventCall, is_served, served_below, event_frame_length, sum_zero,
  event_abi_fixture-served,
}
use r4os_driver_nvidia.Abi.Events.Framed.{
  extent, IsEventFrame, IsAnswer, extent_lem, content_length, written_lem, header_lem,
}

front : (size : ℕ) (frame rest : List ℕ) → length frame ≡ size → take size (frame ++ rest) ≡ frame
front size frame rest e = ap (λ k. take k (frame ++ rest)) (sym e) ∙ slice_first frame rest

back : (size : ℕ) (frame rest : List ℕ) → length frame ≡ size → drop size (frame ++ rest) ≡ rest
back size frame rest e = ap (λ k. drop k (frame ++ rest)) (sym e) ∙ drop_length frame rest

module _ (n : MessageHeaders) (v : EventHeaders) (element : IsLayout n.element)
    (asserts : MessageAsserts n) (events : EventAsserts v) (sizes : IsEventHeaders v)
    (cancels : (e : QueueElement) (rest : List ℕ) (m : ℕ)
      → e.check_sum ≡ 0
      → 80 ≤ m
      → m ≤ length (n.element.encode e ++ rest)
      → n.check_sum32
          (n.element.encode (record e { check_sum = n.check_sum32 (n.element.encode e ++ rest) m })
            ++ rest)
          m
        ≡ 0) where
  frame_length : (f : ℕ) → length (event_frame n v f) ≡ 4096
  frame_length f = event_frame_length n v element asserts events sizes cancels f

  event_frame-IsEventFrame : (f : ℕ) → f < 6 → IsEventFrame n v f (event_frame n v f)
  event_frame-IsEventFrame f h =
      let (_, b, _, _, _, _, _, _, _) = asserts in
      (
        event_summed n v f,
        ap (λ w. n.element.encode (event_summed n v f) ++ w)
            (written_lem n v asserts events sizes f),
        frame_length f,
        content_length n v asserts events sizes f,
        (let k : u32 (10 + f) ≡ 10 + f = omega arith in k),
        refl,
        header_lem n v asserts events sizes f h,
        ap (n.check_sum32 (event_frame n v f)) (
              sym (ap (λ j. j + extent f) b)
              ∙ ap (λ j. n.element.bytes + j) (sym (extent_lem n v asserts events sizes f)))
            ∙ sum_zero n v element asserts events sizes cancels f,
      )

  -- r4nv_gsp_event_abi_fixture serves every fixture below six that has a queue element of room: it
  -- returns 4096, remembers the fixture, changes no byte behind the first 4096 of the output and
  -- leaves the fixture's frame in these. The frame is an element with the sequence number 10 +
  -- fixture and a checksum that cancels, a header with the event's code that announces the content's
  -- 0, 52, 272, 13, 1 or 1212 bytes, the content itself, and zeros up to the end, in fixture 0 behind
  -- one word that is not announced. Any other call returns 0 and changes nothing. The structures have
  -- the sizes that the file asserts, and a stored checksum cancels the sum.
  pub event_abi_fixture_lem :
      (c : EventCall) (mask : ℕ)
      → IsAnswer n v (is_served c) c mask (event_abi_fixture n v c.fixture c.output c.capacity mask)
  event_abi_fixture_lem c mask =
      rw (event_abi_fixture-served n v element asserts events sizes cancels c mask)
        (elim (Bool-cases (is_served c)) [
          | inl e ↦ rw e (
            refl,
            refl,
            back 4096 (event_frame n v c.fixture) (drop 4096 c.output) (frame_length c.fixture),
            rw
                (front 4096 (event_frame n v c.fixture) (drop 4096 c.output)
                  (frame_length c.fixture))
                (event_frame-IsEventFrame c.fixture (served_below c e)),
          )
          | inr e ↦ rw e refl
        ])
