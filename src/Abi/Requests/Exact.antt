-- ===== src/Abi/Requests/Exact.antt =====
-- What the checks of Abi/Requests accept (Tools/Bootstrap/GspMessageAbi.c).
use r4os_driver_nvidia.Base.{
  ℕ, ◌+◌, ◌≡◌, ◌↔◌, refl, sym, ◌∙◌, ap, arith, Bool, true, false, not, ◌||◌, List, ◌++◌, ◌==◌,
  if◌then◌else◌, length, length-append, length-take, eq→eqb,
}
use r4os_driver_nvidia.Abi.{
  Layout, IsLayout, same_bytes, slice, same_bytes-eq, same_bytes_self, slice_halves, slice_first,
  slice_second, AreBytes, IsPacked, slice-AreBytes,
}
use r4os_driver_nvidia.Abi.Requests.{
  RmControl, ClearHeaders, clear_params, is_clear_header, memory_clear_abi_check,
}

-- The bytes of two structures, one behind the other.
module _ {A B : Type 0} (l : Layout A) (m : Layout B) (first : IsLayout l)
    (second : IsLayout m) where
  pub halves_length : (a : A) (b : B) → length (l.encode a ++ m.encode b) ≡ l.bytes + m.bytes
  halves_length a b =
      length-append (l.encode a) (m.encode b) ∙ rw (first.size a, second.size b) refl

  pub halves_first : (a : A) (b : B) → slice 0 l.bytes (l.encode a ++ m.encode b) ≡ l.encode a
  halves_first a b = rw (← first.size a) (slice_first (l.encode a) (m.encode b))

  pub halves_second :
      (a : A) (b : B) → slice l.bytes m.bytes (l.encode a ++ m.encode b) ≡ m.encode b
  halves_second a b = rw (← first.size a, ← second.size b) (slice_second (l.encode a) (m.encode b))

-- A check of this form accepts only where all three tests succeed.
accepted :
    (wrong_size t u : Bool)
    → ◌≡◌ {A = ℕ} (if wrong_size then 1 else if not t then 2 else if u then 0 else 1) 0
    → (wrong_size ≡ false) × (t ≡ true) × (u ≡ true)
accepted w t u h = ground arith

sized_length : (a b c d : ℕ) → (not (a == 24) || (not (b == 96) || not (c == d))) ≡ false → c ≡ d
sized_length a b c d h = ground arith

slice_length : (a b : ℕ) (bytes : List ℕ) → length bytes ≡ a + b → length (slice 0 a bytes) ≡ a
slice_length a b bytes h = omega (arith, length-take {0} a bytes)

module _ (n : ClearHeaders) (header : IsLayout n.header) (params : IsLayout n.params)
    (packed : IsPacked n.header) (control_bytes : n.header.bytes ≡ 24)
    (transfer_bytes : n.params.bytes ≡ 96) where
  -- The header of the one request that the check is for.
  abbrev pub clear_header : RmControl
  clear_header = record {
    h_client = 0x1234;
    h_object = 0x5678;
    cmd = n.memory_transfer_with_gsp;
    status = 0;
    flags = 0;
    params_size = n.params.bytes;
  }

  is_clear_header-eq : (h : RmControl) → is_clear_header n h ≡ true → h ≡ clear_header
  is_clear_header-eq h e = ground arith

  is_clear_header_self : is_clear_header n clear_header ≡ true
  is_clear_header_self =
      rw
        (
          eq→eqb n.memory_transfer_with_gsp n.memory_transfer_with_gsp refl,
          eq→eqb n.params.bytes n.params.bytes refl,
        )
        refl

  -- r4nv_gsp_memory_clear_abi_check returns 0 exactly for the bytes of its one header and of the
  -- transfer that clears the range, where the structures have the sizes that it tests and the header
  -- has no padding and reads back.
  pub memory_clear_abi_check_iff :
      n.header.decode (n.header.encode clear_header) ≡ clear_header
      → (bytes : List ℕ) (base size : ℕ) → AreBytes bytes
      → (memory_clear_abi_check n bytes base size ≡ 0)
        ↔ (bytes ≡ n.header.encode clear_header ++ n.params.encode (clear_params n base size))
  unfolding memory_clear_abi_check
  memory_clear_abi_check_iff reads bytes base size are =
      (sound, λ e. ap (λ b. memory_clear_abi_check n b base size) e ∙ complete)
    where
      complete :
          memory_clear_abi_check n
            (n.header.encode clear_header ++ n.params.encode (clear_params n base size))
            base
            size
          ≡ 0
      complete =
          rw
            (
              halves_length n.header n.params header params clear_header (clear_params n base size),
              halves_first n.header n.params header params clear_header (clear_params n base size),
              halves_second n.header n.params header params clear_header (clear_params n base size),
              reads,
              same_bytes_self (n.params.encode (clear_params n base size)),
              control_bytes,
              transfer_bytes,
            )
            (rw (eq→eqb n.memory_transfer_with_gsp n.memory_transfer_with_gsp refl) refl)

      sound :
          memory_clear_abi_check n bytes base size ≡ 0
          → bytes ≡ n.header.encode clear_header ++ n.params.encode (clear_params n base size)
      sound z =
          let (sized, headed, equal) =
            accepted _ (is_clear_header n (n.header.decode (slice 0 n.header.bytes bytes)))
              (same_bytes (slice n.header.bytes n.params.bytes bytes)
                (n.params.encode (clear_params n base size)))
              z in
          let long =
            sized_length n.header.bytes n.params.bytes (length bytes)
              (n.header.bytes + n.params.bytes) sized in
          let front =
            packed (slice 0 n.header.bytes bytes) (slice-AreBytes 0 n.header.bytes bytes are)
              (slice_length n.header.bytes n.params.bytes bytes long) in
          sym (slice_halves n.header.bytes n.params.bytes bytes long)
          ∙ ap (λ a. a ++ slice n.header.bytes n.params.bytes bytes)
              (sym front ∙ ap n.header.encode (is_clear_header-eq _ headed))
          ∙ ap (λ b. n.header.encode clear_header ++ b) (same_bytes-eq _ _ equal)
