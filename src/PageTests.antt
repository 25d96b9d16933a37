-- ===== src/PageTests.antt =====
-- The properties of page words and of the packed registry (Tools/Bootstrap/GspMessageAbi.c) at
-- concrete headers.
use r4os_driver_nvidia.Base.{
  ◌↔◌, take, ◌++◌, ℕ, zero, suc, ◌*◌, ◌/◌, ◌%◌, ◌≡◌, ◌<◌, refl, ◌∙◌, ap, arith, false, List, [],
  ◌∷◌, ◌==◌, length, get_or, bit_or, bit_or_half, bit_or_low, codes,
}
use r4os_driver_nvidia.Abi.Pages.{pte_vol, PageHeaders, host_page_word}
use r4os_driver_nvidia.Abi.Pages.Placing.{IsPlaced, pte_index}
use r4os_driver_nvidia.Abi.Pages.ReadFields.{host_page_word_reads}
use r4os_driver_nvidia.Abi.Registry.{
  RegistryHeaders, registry_expected, registry_settings, preboot_abi_check,
}
use r4os_driver_nvidia.Abi.Registry.Canonical.{names, Lists, preboot_abi_check-registry}

-- Fields of one binary digit.
abbrev bit : ℕ → ℕ → ℕ
bit zero w = w % 2
bit (suc i) w = bit i (w / 2)

abbrev shifted : ℕ → ℕ → ℕ
shifted zero v = v % 2
shifted (suc i) v = shifted i v * 2

bit-shifted : (i v : ℕ) → v < 2 → bit i (shifted i v) ≡ v
bit-shifted zero v h = omega arith
bit-shifted (suc i) v h =
    ap (bit i) {x = shifted i v * 2 / 2} {y = shifted i v} (omega arith) ∙ bit-shifted i v h

bit-zero : (i : ℕ) → bit i 0 ≡ 0
bit-zero zero = refl
bit-zero (suc i) = bit-zero i

bit-shifted_other : (i j v : ℕ) → (i == j) ≡ false → bit i (shifted j v) ≡ 0
bit-shifted_other zero zero v h = absurd (cc)
bit-shifted_other zero (suc j) v h = omega arith
bit-shifted_other (suc i) zero v h = ap (bit i) {x = v % 2 / 2} {y = 0} (omega arith) ∙ bit-zero i
bit-shifted_other (suc i) (suc j) v h =
    ap (bit i) {x = shifted j v * 2 / 2} {y = shifted j v} (omega arith)
    ∙ bit-shifted_other i j v (ground arith)

bit-bit_or : (i a b : ℕ) → bit i (bit_or a b) ≡ bit_or (bit i a) (bit i b)
bit-bit_or zero a b = bit_or_low a b
bit-bit_or (suc i) a b = ap (bit i) (bit_or_half a b) ∙ bit-bit_or i (a / 2) (b / 2)

abbrev page_headers : PageHeaders
page_headers = record {
  pde = record { place = λ f v. v; read = λ f w. w; width = λ f. 1 };
  dual = record { place = λ f v. v; read = λ f w. w; width = λ f. 1 };
  pte = record {
    place = λ f. shifted (pte_index f);
    read = λ f. bit (pte_index f);
    width = λ f. 1;
  };
  pde_shift = 12;
  dual_shift = 8;
  pte_shift = 12;
  big_system_coherent = 2;
  vol_true = 1;
  vol_small_true = 1;
  valid_true = 1;
  pte_system_coherent = 1;
  pte_video = 0;
}

pte-IsPlaced : IsPlaced pte_index page_headers.pte
pte-IsPlaced = record {
  reads = λ f v h. bit-shifted (pte_index f) v h;
  apart = λ f g v e. bit-shifted_other (pte_index f) (pte_index g) v e;
  unions = λ f a b. bit-bit_or (pte_index f) a b;
}

host_page_word_reads_example : bit 3 (host_page_word page_headers 0x1000 0 1 1 0 1 1 0) ≡ 1
host_page_word_reads_example =
    host_page_word_reads page_headers pte-IsPlaced pte_vol 0x1000 0 1 1 0 1 1 0 (omega arith)
      (omega arith) refl (omega arith)

abbrev registry_headers : RegistryHeaders
registry_headers = record {
  table = record {
    bytes = 2;
    encode = λ t. t.size ∷ t.num_entries ∷ [];
    decode = λ b. record { size = get_or b 0 0; num_entries = get_or b 1 0 };
  };
  entry = record {
    bytes = 7;
    encode = λ e. e.name_offset ∷ e.type ∷ 0 ∷ 0 ∷ 0 ∷ e.entry_data ∷ e.length ∷ [];
    decode = λ b. record {
      name_offset = get_or b 0 0;
      type = get_or b 1 0;
      entry_data = get_or b 5 0;
      length = get_or b 6 0;
    };
  };
  name_offset_at = 0;
  type_at = 1;
  data_at = 5;
  length_at = 6;
  static_config_bytes = 1656;
  split_vas_offset = 1565;
  split_vas_bytes = 1;
  secondary_bus_reset_enabled = codes "RMSecBusResetEnable";
  force_pcie_config_save = codes "RMForcePcieConfigSave";
  split_vas_mgmt_server_client_rm = codes "RMSplitVas";
  split_vas_disabled = 0;
  entry_type_dword = 1;
}

-- A table whose padding is not zero.
abbrev registry_bytes : List ℕ
registry_bytes =
    102 ∷ 4 ∷ []
    ++ ((30 ∷ 1 ∷ 0xaa ∷ 0xbb ∷ 0xcc ∷ 1 ∷ 4 ∷ [])
        ++ ((50 ∷ 1 ∷ 7 ∷ 8 ∷ 9 ∷ 1 ∷ 4 ∷ [])
            ++ ((72 ∷ 1 ∷ 0 ∷ 0 ∷ 0 ∷ 1 ∷ 4 ∷ [])
                ++ ((91 ∷ 1 ∷ 1 ∷ 2 ∷ 3 ∷ 0 ∷ 4 ∷ [])
                    ++ names registry_headers (registry_settings registry_headers)))))

registry_accepted :
    preboot_abi_check registry_headers
      (registry_expected registry_headers)
      9
      registry_bytes
      (length registry_bytes)
    ≡ 0
unfolding preboot_abi_check
registry_accepted = refl

preboot_abi_check-registry_example :
    (preboot_abi_check registry_headers
        (registry_expected registry_headers)
        9
        registry_bytes
        (length registry_bytes)
      ≡ 0)
    ↔ ((9 ≡ length (registry_expected registry_headers))
        × (take 9 (registry_expected registry_headers) ≡ registry_expected registry_headers)
        × Lists registry_headers (registry_settings registry_headers) registry_bytes)
preboot_abi_check-registry_example =
    preboot_abi_check-registry registry_headers (registry_expected registry_headers) 9
      registry_bytes
