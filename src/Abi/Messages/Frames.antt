-- ===== src/Abi/Messages/Frames.antt =====
-- Which frames r4nv_gsp_message_abi_check accepts (Tools/Bootstrap/GspMessageAbi.c).
use r4os_driver_nvidia.Base.{
  ℕ, ◌+◌, ◌-◌, ◌*◌, ◌/◌, ◌^◌, ◌≡◌, ◌≤◌, ◌<◌, ◌↔◌, refl, sym, ◌∙◌, ap, arith, Bool, List, ◌++◌, ◌==◌,
  length, length-append, length-replicate, take, replicate, get_or, bit_or, u32, eqb→eq, eq→eqb,
  le→ltb, dec_lt,
}
use r4os_driver_nvidia.Abi.{IsLayout, same_bytes, same_bytes-eq, eq-same_bytes}
use r4os_driver_nvidia.Abi.Messages.{
  QueueElement, MessageHeaders, MessageAsserts, payload_lengths, message_payload, message_element,
  message_buffer, summed, message_abi_check,
}
use r4os_driver_nvidia.Abi.Messages.Lengths.{
  frame_elements, verdict, payload_bound, elements_eq, test_le, test_lt, verdict_iff, take-past,
  take-padded, length-message_payload, elements_bound,
}

module _ (n : MessageHeaders) where
  -- The element that a fixture's frame starts with.
  abbrev pub frame_header : ℕ → QueueElement
  frame_header f =
      let p = get_or payload_lengths f 0 in
      summed n (message_element n f p (get_or frame_elements f 0)) p (80 + p)

  -- A fixture's frame: its element, its payload, and zeros up to whole queue elements.
  abbrev pub frame : ℕ → List ℕ
  frame f =
      let p = get_or payload_lengths f 0 in
      n.element.encode (frame_header f)
      ++ (message_payload 0 p ++ replicate (get_or frame_elements f 0 * 4096 - (80 + p)) 0)

module _ (n : MessageHeaders) (element : IsLayout n.element) (asserts : MessageAsserts n)
    (rounds_up : (b : ℕ) → b ≤ 65536 → n.bytes_to_elements b ≡ (b + 4095) / 4096)
    (cancels : (e : QueueElement) (rest : List ℕ) (m : ℕ)
      → e.check_sum ≡ 0
      → 80 ≤ m
      → m ≤ length (n.element.encode e ++ rest)
      → n.check_sum32
          (n.element.encode (record e { check_sum = n.check_sum32 (n.element.encode e ++ rest) m })
            ++ rest)
          m
        ≡ 0) where
  element_bytes : n.element.bytes ≡ 80
  element_bytes = let (_, e, _, _, _, _, _, _, _) = asserts in e

  size_min_eq : n.size_min ≡ 4096
  size_min_eq = let (_, _, _, _, _, _, _, e, _) = asserts in e

  size_max_eq : n.size_max ≡ 65536
  size_max_eq = let (_, _, _, _, _, _, _, _, e) = asserts in e

  element_length : (e : QueueElement) → length (n.element.encode e) ≡ 80
  element_length e = element.size e ∙ element_bytes

  length-buffer : (e : QueueElement) (p : ℕ) → p ≤ 65456 → length (message_buffer n e p) ≡ 65536
  length-buffer e p h = omega (
    arith,
    length-append (n.element.encode e)
        (message_payload 0 p ++ replicate (n.size_max - (n.element.bytes + p)) 0),
    length-append (message_payload 0 p) (replicate (n.size_max - (n.element.bytes + p)) 0),
    length-message_payload 0 p,
    length-replicate {A = ℕ} (n.size_max - (n.element.bytes + p)) 0,
    element_length e,
    element_bytes,
    size_max_eq,
  )

  buffer-take :
      (e : QueueElement) (p k : ℕ)
      → 80 + p ≤ k
      → k ≤ 65536
      → take k (message_buffer n e p)
        ≡ n.element.encode e ++ (message_payload 0 p ++ replicate (k - (80 + p)) 0)
  buffer-take e p k low high =
      take-past k (n.element.encode e)
        (message_payload 0 p ++ replicate (n.size_max - (n.element.bytes + p)) 0)
        (omega (arith, element_length e))
      ∙ ap (λ xs. n.element.encode e ++ xs)
          (take-padded (k - length (n.element.encode e)) (message_payload 0 p)
            (n.size_max - (n.element.bytes + p)) (k - (80 + p))
            (omega (arith, element_length e, length-message_payload 0 p))
            (omega (arith, element_bytes, size_max_eq)))

  -- The stored checksum makes the sum of the frame zero.
  sum_zero :
      (e : QueueElement) (p : ℕ)
      → e.check_sum ≡ 0
      → p ≤ 65456
      → n.check_sum32 (message_buffer n (summed n e p (80 + p)) p) (80 + p) ≡ 0
  sum_zero e p z h =
      cancels e (message_payload 0 p ++ replicate (n.size_max - (n.element.bytes + p)) 0) (80 + p) z
        (omega arith) (omega (arith, length-buffer e p h))

  message_len :
      (f : ℕ)
      → f < 6
      → u32 (n.element.bytes + get_or payload_lengths f 0) ≡ 80 + get_or payload_lengths f 0
  message_len f h = omega (arith, payload_bound f, element_bytes)

  elements_of :
      (f : ℕ)
      → f < 6
      → n.bytes_to_elements (80 + get_or payload_lengths f 0) ≡ get_or frame_elements f 0
  elements_of f h =
      rounds_up (80 + get_or payload_lengths f 0) (omega (arith, payload_bound f)) ∙ elements_eq f h

  product :
      (f : ℕ) → u32 (get_or frame_elements f 0 * n.size_min) ≡ get_or frame_elements f 0 * 4096
  product f =
      ap (λ k. u32 (get_or frame_elements f 0 * k)) size_min_eq ∙ omega (arith, elements_bound f)

  code_form :
      (actual : List ℕ) (len f mask : ℕ)
      → f < 6
      → message_abi_check n actual len f mask
        ≡ verdict
            (len == get_or frame_elements f 0 * 4096)
            (same_bytes
              (take len actual)
              (take len (message_buffer n (frame_header n f) (get_or payload_lengths f 0))))
            mask
            (bit_or mask (2 ^ f))
  unfolding message_abi_check
  code_form actual len f mask h =
      let p = get_or payload_lengths f 0 in
      rw
        (
          test_lt 6 f h,
          message_len f h,
          elements_of f h,
          le→ltb (80 + p) n.element.bytes (omega (arith, element_bytes)),
          le→ltb n.size_max (80 + p) (omega (arith, size_max_eq, payload_bound f)),
          product f,
          eq→eqb (n.check_sum32 (message_buffer n (frame_header n f) p) (80 + p)) 0 (
              sum_zero (message_element n f p (get_or frame_elements f 0)) p refl
                (payload_bound f)),
        )
        refl

  out_of_range :
      (actual : List ℕ) (len f mask : ℕ)
      → 6 ≤ f
      → message_abi_check n actual len f mask ≡ record { code = 1; compared = mask }
  unfolding message_abi_check
  out_of_range actual len f mask h = rw (test_le 6 f h) refl

  in_range :
      (actual : List ℕ) (len f mask : ℕ) → (message_abi_check n actual len f mask).code ≡ 0 → f < 6
  in_range actual len f mask z = elim (dec_lt f 6) [
    | yes h ↦ h
    | no h ↦ absurd (omega (arith, ap (λ c. c.code) (out_of_range actual len f mask (omega arith))))
  ]

  frame_taken :
      (f len : ℕ)
      → f < 6
      → len ≡ get_or frame_elements f 0 * 4096
      → take len (message_buffer n (frame_header n f) (get_or payload_lengths f 0)) ≡ frame n f
  frame_taken f len h e =
      let p = get_or payload_lengths f 0 in
      buffer-take (frame_header n f) p len (omega (arith, elements_eq f h, e))
        (omega (arith, elements_bound f, e))
      ∙ ap
          (λ k.
            n.element.encode (frame_header n f)
            ++ (message_payload 0 p ++ replicate (k - (80 + p)) 0))
          e

  -- r4nv_gsp_message_abi_check returns 0 exactly for a fixture below six whose length is the whole
  -- queue elements of its frame and whose bytes are that frame. The structures have the sizes that
  -- the file asserts, the number of elements is rounded up, and a stored checksum cancels the sum.
  pub message_abi_check_iff :
      (actual : List ℕ) (len f mask : ℕ)
      → ((message_abi_check n actual len f mask).code ≡ 0)
        ↔ ((f < 6) × (len ≡ get_or frame_elements f 0 * 4096) × (take len actual ≡ frame n f))
  message_abi_check_iff actual len f mask = (sound, complete)
    where
      buffer : List ℕ
      buffer = take len (message_buffer n (frame_header n f) (get_or payload_lengths f 0))

      sized : Bool
      sized = len == get_or frame_elements f 0 * 4096

      equal : Bool
      equal = same_bytes (take len actual) buffer

      sound :
          (message_abi_check n actual len f mask).code ≡ 0
          → (f < 6) × (len ≡ get_or frame_elements f 0 * 4096) × (take len actual ≡ frame n f)
      sound z =
          let h = in_range actual len f mask z in
          let (verdicts, _) = verdict_iff sized equal mask (bit_or mask (2 ^ f)) in
          let (s, t) = verdicts (ap (λ c. c.code) (sym (code_form actual len f mask h)) ∙ z) in
          let e = eqb→eq len (get_or frame_elements f 0 * 4096) s in
          (h, e, same_bytes-eq (take len actual) buffer t ∙ frame_taken f len h e)

      complete :
          (f < 6) × (len ≡ get_or frame_elements f 0 * 4096) × (take len actual ≡ frame n f)
          → (message_abi_check n actual len f mask).code ≡ 0
      complete (h, e, same) =
          let (_, verdicts) = verdict_iff sized equal mask (bit_or mask (2 ^ f)) in
          ap (λ c. c.code) (code_form actual len f mask h)
          ∙ verdicts (
            eq→eqb len (get_or frame_elements f 0 * 4096) e,
            eq-same_bytes (take len actual) buffer (same ∙ sym (frame_taken f len h e)),
          )
