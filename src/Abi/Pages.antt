-- ===== src/Abi/Pages.antt =====
-- Of Tools/Bootstrap/GspMessageAbi.c: r4nv_gsp_host_page_word, the words of page tables, whose fields
-- are NVIDIA's.
pub mod Placing
pub mod ReadFields
use r4os_driver_nvidia.Base.{ℕ, ◌/◌, ◌^◌, Bool, true, false, not, ◌==◌, if◌then◌else◌, bit_or}

-- The fields of the page words that are placed.
pub data PdeField : Type 0 where
  pde_address_sys : PdeField
  pde_aperture : PdeField
  pde_vol : PdeField

pub data DualField : Type 0 where
  dual_address_small_sys : DualField
  dual_aperture_small : DualField
  dual_vol_small : DualField

pub data PteField : Type 0 where
  pte_address_sys : PteField
  pte_address_vid : PteField
  pte_valid : PteField
  pte_aperture : PteField
  pte_vol : PteField
  pte_read_only : PteField
  pte_privilege : PteField
  pte_atomic_disable : PteField
  pte_kind : PteField

-- `place f v` is DRF_NUM64 of the field `f`, `read f w` is what DRF_VAL64 reads of it.
pub record Placed {ℓ} (F : Type ℓ) : Type ℓ where
  pub place : F → ℕ → ℕ
  pub read : F → ℕ → ℕ
  pub width : F → ℕ

pub record PageHeaders : Type 0 where
  pub pde : Placed PdeField
  pub dual : Placed DualField
  pub pte : Placed PteField
  pub pde_shift : ℕ
  pub dual_shift : ℕ
  pub pte_shift : ℕ
  pub big_system_coherent : ℕ
  pub vol_true : ℕ
  pub vol_small_true : ℕ
  pub valid_true : ℕ
  pub pte_system_coherent : ℕ
  pub pte_video : ℕ

-- !x
abbrev pub negated : ℕ → ℕ
negated x = if x == 0 then 1 else 0

module _ (n : PageHeaders) where
  abbrev pub pde_word : ℕ → ℕ
  pde_word physical =
      bit_or
        (bit_or (n.pde.place pde_address_sys (physical / 2 ^ n.pde_shift))
          (n.pde.place pde_aperture n.big_system_coherent))
        (n.pde.place pde_vol n.vol_true)

  abbrev pub dual_word : ℕ → ℕ
  dual_word physical =
      bit_or
        (bit_or (n.dual.place dual_address_small_sys (physical / 2 ^ n.dual_shift))
          (n.dual.place dual_aperture_small n.big_system_coherent))
        (n.dual.place dual_vol_small n.vol_small_true)

  abbrev pub pte_word : ℕ → ℕ → ℕ → ℕ → ℕ → ℕ → ℕ → ℕ
  pte_word physical system kind cached read_only atomic privileged =
      let address =
        if not (system == 0)
        then n.pte.place pte_address_sys (physical / 2 ^ n.pte_shift)
        else n.pte.place pte_address_vid (physical / 2 ^ n.pte_shift) in
      let valid = bit_or address (n.pte.place pte_valid n.valid_true) in
      let aperture = bit_or valid (
        n.pte.place pte_aperture
          (if not (system == 0) then n.pte_system_coherent else n.pte_video)) in
      let vol = bit_or aperture (n.pte.place pte_vol (negated cached)) in
      let writes = bit_or vol (n.pte.place pte_read_only read_only) in
      let privilege = bit_or writes (n.pte.place pte_privilege privileged) in
      let atomics = bit_or privilege (n.pte.place pte_atomic_disable (negated atomic)) in
      bit_or atomics (n.pte.place pte_kind kind)

  unfoldable pub host_page_word : ℕ → ℕ → ℕ → ℕ → ℕ → ℕ → ℕ → ℕ → ℕ
  host_page_word physical directory system kind cached read_only atomic privileged =
      if directory == 1
      then pde_word physical
      else if directory == 2
      then dual_word physical
      else pte_word physical system kind cached read_only atomic privileged
