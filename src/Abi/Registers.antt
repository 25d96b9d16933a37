-- ===== src/Abi/Registers.antt =====
-- Of Tools/Bootstrap/GspMessageAbi.c: r4nv_falcon_hs_abi_check and r4nv_gsp_core_abi_check, which
-- compare a table of register offsets and field values with NVIDIA's, and what they accept.
use r4os_driver_nvidia.Base.{
  ℕ, ◌+◌, ◌*◌, ◌-◌, ◌%◌, ◌^◌, ◌≡◌, ◌↔◌, refl, arith, Bool, true, false, List, [], ◌∷◌,
  if◌then◌else◌, take, bit_or, u32,
}
use r4os_driver_nvidia.Abi.{differs, differs_iff}

-- a - b in 32 bits, for a and b below 2 ^ 32.
abbrev pub sub32 : ℕ → ℕ → ℕ
sub32 a b = (a + 2 ^ 32 - b) % 2 ^ 32

-- Registers and the values of their fields, from the headers. A macro with an argument is a function.
pub record FalconHeaders : Type 0 where
  pub base_pgsp : ℕ
  pub base_psec : ℕ
  pub pgsp_fbif_base : ℕ
  pub psec_fbif_base : ℕ
  pub falcon2_gsp_base : ℕ
  pub falcon2_sec_base : ℕ
  pub fbif_ctl : ℕ
  pub fbif_transcfg : ℕ → ℕ
  pub falcon_dmactl : ℕ
  pub falcon_dmatrfbase : ℕ
  pub falcon_dmatrfbase1 : ℕ
  pub falcon_dmatrfmoffs : ℕ
  pub falcon_dmatrffboffs : ℕ
  pub falcon_dmatrfcmd : ℕ
  pub brom_paraaddr : ℕ → ℕ
  pub brom_engidmask : ℕ
  pub brom_curr_ucode_id : ℕ
  pub mod_sel : ℕ
  pub falcon_bootvec : ℕ
  pub falcon_cpuctl : ℕ
  pub falcon_cpuctl_alias : ℕ
  pub falcon_mailbox0 : ℕ
  pub falcon_mailbox1 : ℕ
  pub allow_phys_no_ctx : ℕ
  pub mask_transcfg_target : ℕ
  pub mask_transcfg_mem_type : ℕ
  pub target_coherent_sysmem : ℕ
  pub mem_type_physical : ℕ
  pub dmatrfcmd_full : ℕ
  pub dmatrfcmd_idle : ℕ
  pub dmatrfcmd_imem_true : ℕ
  pub dmatrfcmd_sec : ℕ → ℕ
  pub dmatrfcmd_size_256 : ℕ
  pub dmatrfcmd_imem_false : ℕ
  pub mod_sel_rsa3k : ℕ
  pub cpuctl_alias_en : ℕ
  pub cpuctl_startcpu : ℕ
  pub cpuctl_halted : ℕ
  pub falcon_hwcfg2 : ℕ
  pub pgsp_falcon_engine : ℕ
  pub falcon_rm : ℕ
  pub riscv_bcr_ctrl : ℕ
  pub riscv_cpuctl : ℕ
  pub pgsp_falcon_mailbox0 : ℕ
  pub pgsp_falcon_mailbox1 : ℕ
  pub falcon_os : ℕ
  pub bsi_secure_scratch_14 : ℕ
  pub hwcfg2_reset_ready : ℕ
  pub mask_hwcfg2_mem_scrubbing : ℕ
  pub hwcfg2_riscv_enable : ℕ
  pub pgsp_engine_reset : ℕ
  pub core_select_riscv : ℕ
  pub bcr_ctrl_valid : ℕ
  pub bcr_ctrl_brfetch : ℕ
  pub active_stat_active : ℕ
  pub boot_stage_3_handoff_done : ℕ
  pub reset_propagation_delay_count : ℕ
  pub psec_falcon_engine : ℕ
  pub psec_engine_reset : ℕ
  pub falcon_hwcfg : ℕ
  pub mask_hwcfg_imem_size : ℕ
  pub blk_alignment : ℕ

module _ (n : FalconHeaders) where
  abbrev pub falcon_hs_expected : List ℕ
  falcon_hs_expected =
      n.base_pgsp
      ∷ n.base_psec
      ∷ (sub32 n.pgsp_fbif_base n.base_pgsp)
      ∷ (sub32 n.psec_fbif_base n.base_psec)
      ∷ (sub32 n.falcon2_gsp_base n.base_pgsp)
      ∷ (sub32 n.falcon2_sec_base n.base_psec)
      ∷ n.fbif_ctl
      ∷ (n.fbif_transcfg 0)
      ∷ n.falcon_dmactl
      ∷ n.falcon_dmatrfbase
      ∷ n.falcon_dmatrfbase1
      ∷ n.falcon_dmatrfmoffs
      ∷ n.falcon_dmatrffboffs
      ∷ n.falcon_dmatrfcmd
      ∷ (n.brom_paraaddr 0)
      ∷ n.brom_engidmask
      ∷ n.brom_curr_ucode_id
      ∷ n.mod_sel
      ∷ n.falcon_bootvec
      ∷ n.falcon_cpuctl
      ∷ n.falcon_cpuctl_alias
      ∷ n.falcon_mailbox0
      ∷ n.falcon_mailbox1
      ∷ n.allow_phys_no_ctx
      ∷ (bit_or n.mask_transcfg_target n.mask_transcfg_mem_type)
      ∷ (bit_or n.target_coherent_sysmem n.mem_type_physical)
      ∷ n.dmatrfcmd_full
      ∷ n.dmatrfcmd_idle
      ∷ (bit_or (bit_or n.dmatrfcmd_imem_true (n.dmatrfcmd_sec 1)) n.dmatrfcmd_size_256)
      ∷ (bit_or (bit_or n.dmatrfcmd_imem_false (n.dmatrfcmd_sec 0)) n.dmatrfcmd_size_256)
      ∷ n.mod_sel_rsa3k
      ∷ n.cpuctl_alias_en
      ∷ n.cpuctl_startcpu
      ∷ n.cpuctl_halted
      ∷ []

  unfoldable pub falcon_hs_abi_check : List ℕ → ℕ → ℕ
  falcon_hs_abi_check actual count = if differs falcon_hs_expected actual count then 1 else 0

  abbrev pub core_expected : List ℕ
  core_expected =
      (u32 (n.base_pgsp + n.falcon_hwcfg2))
      ∷ n.pgsp_falcon_engine
      ∷ (u32 (n.base_pgsp + n.falcon_rm))
      ∷ (u32 (n.pgsp_fbif_base + n.fbif_ctl))
      ∷ (u32 (n.base_pgsp + n.falcon_dmactl))
      ∷ (u32 (n.base_pgsp + n.falcon_cpuctl))
      ∷ (u32 (n.base_pgsp + n.falcon_cpuctl_alias))
      ∷ (u32 (n.falcon2_gsp_base + n.riscv_bcr_ctrl))
      ∷ (u32 (n.falcon2_gsp_base + n.riscv_cpuctl))
      ∷ n.pgsp_falcon_mailbox0
      ∷ n.pgsp_falcon_mailbox1
      ∷ (u32 (n.base_pgsp + n.falcon_os))
      ∷ (u32 (n.base_psec + n.falcon_cpuctl))
      ∷ (u32 (n.base_psec + n.falcon_cpuctl_alias))
      ∷ (u32 (n.base_psec + n.falcon_mailbox0))
      ∷ n.bsi_secure_scratch_14
      ∷ n.hwcfg2_reset_ready
      ∷ n.mask_hwcfg2_mem_scrubbing
      ∷ n.hwcfg2_riscv_enable
      ∷ n.pgsp_engine_reset
      ∷ n.allow_phys_no_ctx
      ∷ n.cpuctl_startcpu
      ∷ n.cpuctl_alias_en
      ∷ n.cpuctl_halted
      ∷ n.core_select_riscv
      ∷ n.bcr_ctrl_valid
      ∷ (bit_or (bit_or n.core_select_riscv n.bcr_ctrl_valid) n.bcr_ctrl_brfetch)
      ∷ n.active_stat_active
      ∷ n.boot_stage_3_handoff_done
      ∷ n.reset_propagation_delay_count
      ∷ (u32 (n.base_psec + n.falcon_hwcfg2))
      ∷ n.psec_falcon_engine
      ∷ (u32 (n.base_psec + n.falcon_rm))
      ∷ (u32 (n.psec_fbif_base + n.fbif_ctl))
      ∷ (u32 (n.base_psec + n.falcon_dmactl))
      ∷ (u32 (n.falcon2_sec_base + n.riscv_bcr_ctrl))
      ∷ n.psec_engine_reset
      ∷ n.falcon_hwcfg
      ∷ (u32 (n.mask_hwcfg_imem_size * n.blk_alignment))
      ∷ []

  unfoldable pub core_abi_check : List ℕ → ℕ → ℕ
  core_abi_check actual count = if differs core_expected actual count then 1 else 0

unless_differs : (b : Bool) → ((◌≡◌ {A = ℕ} (if b then 1 else 0) 0) ↔ (b ≡ false))
unless_differs true = (λ h. absurd (omega arith), λ h. absurd (cc))
unless_differs false = (λ _. refl, λ _. refl)

both_ways : {A B C : Type 0} → (A ↔ B) → (B ↔ C) → (A ↔ C)
both_ways (f, g) (h, k) = (λ a. h (f a), λ c. g (k c))

module _ (n : FalconHeaders) where
  -- r4nv_falcon_hs_abi_check returns 0 exactly for a table of 34 words and r4nv_gsp_core_abi_check
  -- for one of 39, which have to be NVIDIA's words in the headers' order.
  pub falcon_tables_iff :
      (actual : List ℕ) (count : ℕ)
      → ((falcon_hs_abi_check n actual count ≡ 0)
          ↔ ((count ≡ 34) × (take count actual ≡ falcon_hs_expected n)))
        × ((core_abi_check n actual count ≡ 0)
            ↔ ((count ≡ 39) × (take count actual ≡ core_expected n)))
  unfolding falcon_hs_abi_check core_abi_check
  falcon_tables_iff actual count = (
    both_ways (unless_differs (differs (falcon_hs_expected n) actual count))
        (differs_iff (falcon_hs_expected n) actual count),
    both_ways (unless_differs (differs (core_expected n) actual count))
        (differs_iff (core_expected n) actual count),
  )
