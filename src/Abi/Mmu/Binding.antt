-- ===== src/Abi/Mmu/Binding.antt =====
-- Which binding of a page directory r4nv_gsp_host_mmu_abi_check accepts
-- (Tools/Bootstrap/GspMessageAbi.c).
use r4os_driver_nvidia.Base.{
  ℕ, ◌+◌, ◌≡◌, ◌≢◌, ◌↔◌, refl, sym, ◌∙◌, ap, arith, Bool, true, false, not, ◌||◌, List, ◌++◌, ◌==◌,
  ltb, if◌then◌else◌, length, length-take, eq→eqb, ne→eqb, le→ltb,
}
use r4os_driver_nvidia.Abi.{
  IsLayout, same_bytes, slice, differs, same_bytes-eq, same_bytes_self, slice_halves, AreBytes,
  IsPacked, slice-AreBytes,
}
use r4os_driver_nvidia.Abi.Requests.{RmControl}
use r4os_driver_nvidia.Abi.Requests.Exact.{halves_length, halves_first, halves_second}
use r4os_driver_nvidia.Abi.Mmu.{
  MmuHeaders, mmu_expected, set_expected, check_unbind, host_mmu_abi_check,
}

accepted :
    (table short params : Bool)
    (client object status flags bind cmd size len set_cmd set_bytes total unbind : ℕ)
    → bind ≢ 0
    → ◌≡◌ {A = ℕ}
        (if table
          then 1
          else if short
          then 2
          else if not (client == 0xc1d00000)
              || (not (object == 0x10000000) || (not (status == 0) || not (flags == 0)))
          then 3
          else if not (bind == 0)
          then (if not (cmd == set_cmd) || (not (size == set_bytes) || not (len == total))
              then 4
              else if not params
              then 5
              else 0)
          else unbind)
        0
    → (table ≡ false)
      × (params ≡ true)
      × (client ≡ 0xc1d00000)
      × (object ≡ 0x10000000)
      × (status ≡ 0)
      × (flags ≡ 0)
      × (cmd ≡ set_cmd)
      × (size ≡ set_bytes)
      × (len ≡ total)
accepted table short params client object status flags bind cmd size len set_cmd set_bytes total
      unbind b h =
    ground arith

header_eq :
    (h k : RmControl)
    → h.h_client ≡ k.h_client
    → h.h_object ≡ k.h_object
    → h.cmd ≡ k.cmd
    → h.status ≡ k.status
    → h.flags ≡ k.flags
    → h.params_size ≡ k.params_size
    → h ≡ k
header_eq h k a b c d e f = rw (← a, ← b, ← c, ← d, ← e, ← f) refl

module _ (n : MmuHeaders) (header : IsLayout n.header) (params : IsLayout n.set_params)
    (packed : IsPacked n.header) where
  abbrev pub bind_header : RmControl
  bind_header = record {
    h_client = 0xc1d00000;
    h_object = 0x10000000;
    cmd = n.cmd_set_page_directory;
    status = 0;
    flags = 0;
    params_size = n.set_params.bytes;
  }

  -- The one request that binds a page directory.
  abbrev pub bind_request : ℕ → List ℕ
  bind_request physical =
      n.header.encode bind_header ++ n.set_params.encode (set_expected n physical)

  complete :
      n.header.decode (n.header.encode bind_header) ≡ bind_header
      → (actual : List ℕ) (count bind physical : ℕ) → bind ≢ 0
      → differs (mmu_expected n physical) actual count ≡ false
      → host_mmu_abi_check n actual count
          (bind_request physical)
          (length (bind_request physical))
          bind
          physical
        ≡ 0
  unfolding host_mmu_abi_check
  complete reads actual count bind physical b d =
      let p = set_expected n physical in
      rw
        (
          d,
          halves_length n.header n.set_params header params bind_header p,
          halves_first n.header n.set_params header params bind_header p,
          reads,
          halves_second n.header n.set_params header params bind_header p,
          same_bytes_self (n.set_params.encode p),
          ne→eqb bind 0 b,
          le→ltb (n.header.bytes + n.set_params.bytes) n.header.bytes (omega arith),
          eq→eqb n.cmd_set_page_directory n.cmd_set_page_directory refl,
          eq→eqb n.set_params.bytes n.set_params.bytes refl,
          eq→eqb (n.header.bytes + n.set_params.bytes) (n.header.bytes + n.set_params.bytes) refl,
        )
        refl

  sound :
      (actual : List ℕ) (count : ℕ) (bytes : List ℕ) (bind physical : ℕ)
      → AreBytes bytes
      → bind ≢ 0
      → host_mmu_abi_check n actual count bytes (length bytes) bind physical ≡ 0
      → (differs (mmu_expected n physical) actual count ≡ false) × (bytes ≡ bind_request physical)
  unfolding host_mmu_abi_check
  sound actual count bytes bind physical are b z =
      let h = n.header.decode (slice 0 n.header.bytes bytes) in
      let (table, same, client, object, status, flags, cmd, size, total) =
        accepted (differs (mmu_expected n physical) actual count)
          (ltb (length bytes) n.header.bytes)
          (same_bytes (slice n.header.bytes n.set_params.bytes bytes)
            (n.set_params.encode (set_expected n physical)))
          h.h_client h.h_object h.status h.flags bind h.cmd h.params_size (length bytes)
          n.cmd_set_page_directory n.set_params.bytes (n.header.bytes + n.set_params.bytes)
          (check_unbind n h bytes (length bytes)) b z in
      let front =
        packed (slice 0 n.header.bytes bytes) (slice-AreBytes 0 n.header.bytes bytes are)
          (omega (arith, length-take {0} n.header.bytes bytes)) in
      (
        table,
        sym (slice_halves n.header.bytes n.set_params.bytes bytes total)
            ∙ ap (λ a. a ++ slice n.header.bytes n.set_params.bytes bytes)
                (sym front
                  ∙ ap n.header.encode
                      (header_eq h bind_header client object cmd status flags size))
            ∙ ap (λ c. n.header.encode bind_header ++ c) (same_bytes-eq _ _ same),
      )

  -- For a request to bind, r4nv_gsp_host_mmu_abi_check returns 0 exactly where the table of register
  -- values is NVIDIA's and the bytes are those of the one request that sets the page directory,
  -- where the header has no padding and reads back.
  pub host_mmu_abi_check_iff :
      n.header.decode (n.header.encode bind_header) ≡ bind_header
      → (actual : List ℕ) (count : ℕ) (bytes : List ℕ) (bind physical : ℕ) → AreBytes bytes
      → bind ≢ 0
      → (host_mmu_abi_check n actual count bytes (length bytes) bind physical ≡ 0) ↔ (
          (differs (mmu_expected n physical) actual count ≡ false)
          × (bytes ≡ bind_request physical))
  host_mmu_abi_check_iff reads actual count bytes bind physical are b = (
    sound actual count bytes bind physical are b,
    λ (d, e).
        ap (λ x. host_mmu_abi_check n actual count x (length x) bind physical) e
        ∙ complete reads actual count bind physical b d,
  )
