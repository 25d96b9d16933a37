-- ===== src/Abi/Pages/ReadFields.antt =====
-- What the fields of r4nv_gsp_host_page_word read (Tools/Bootstrap/GspMessageAbi.c).
use r4os_driver_nvidia.Base.{
  ℕ, ◌/◌, ◌^◌, ◌≡◌, ◌<◌, ◌≢◌, ne→eqb, refl, ◌∙◌, arith, Bool, true, false, not, ◌==◌, if◌then◌else◌,
  bit_or,
}
use r4os_driver_nvidia.Abi.Pages.{
  PteField, pte_address_sys, pte_address_vid, pte_valid, pte_aperture, pte_vol, pte_read_only,
  pte_privilege, pte_atomic_disable, pte_kind, PageHeaders, pte_word, host_page_word,
}
use r4os_driver_nvidia.Abi.Pages.Placing.{IsPlaced, pte_index, skip, hit, pte_value, is_used}

module _ (n : PageHeaders) (placed : IsPlaced pte_index n.pte) where
  -- The word of an address part and the values of the other fields.
  abbrev assembled : (address valid aperture vol read_only privilege atomic_disable kind : ℕ) → ℕ
  assembled address valid aperture vol read_only privilege atomic_disable kind =
      let valid_word = bit_or address (n.pte.place pte_valid valid) in
      let aperture_word = bit_or valid_word (n.pte.place pte_aperture aperture) in
      let vol_word = bit_or aperture_word (n.pte.place pte_vol vol) in
      let read_only_word = bit_or vol_word (n.pte.place pte_read_only read_only) in
      let privilege_word = bit_or read_only_word (n.pte.place pte_privilege privilege) in
      let atomic_word = bit_or privilege_word (n.pte.place pte_atomic_disable atomic_disable) in
      bit_or atomic_word (n.pte.place pte_kind kind)

  abbrev address_part : Bool → ℕ → ℕ
  address_part system at =
      if system then n.pte.place pte_address_sys at else n.pte.place pte_address_vid at

  past :
      (f g : PteField) (a v : ℕ)
      → (pte_index f == pte_index g) ≡ false
      → n.pte.read f (bit_or a (n.pte.place g v)) ≡ n.pte.read f a
  past f g a v e = skip pte_index n.pte placed f g a v e

  lands :
      (f : PteField) (a v : ℕ)
      → n.pte.read f a ≡ 0
      → v < 2 ^ n.pte.width f
      → n.pte.read f (bit_or a (n.pte.place f v)) ≡ v
  lands f a v e h = hit pte_index n.pte placed f a v e h

  no_address :
      (f : PteField) (system : Bool) (at : ℕ)
      → (pte_index f == 0) ≡ false
      → n.pte.read f (address_part system at) ≡ 0
  no_address f true at e = placed.apart f pte_address_sys at e
  no_address f false at e = placed.apart f pte_address_vid at e

  address_kept :
      (f : PteField) (a v1 v2 v3 v4 v5 v6 v7 : ℕ)
      → pte_index f ≡ 0
      → n.pte.read f (assembled a v1 v2 v3 v4 v5 v6 v7) ≡ n.pte.read f a
  address_kept f a v1 v2 v3 v4 v5 v6 v7 e =
      past f pte_kind _ _ (ne→eqb (pte_index f) 7 (λ h. absurd (omega arith)))
      ∙ past f pte_atomic_disable _ _ (ne→eqb (pte_index f) 6 (λ h. absurd (omega arith)))
      ∙ past f pte_privilege _ _ (ne→eqb (pte_index f) 5 (λ h. absurd (omega arith)))
      ∙ past f pte_read_only _ _ (ne→eqb (pte_index f) 4 (λ h. absurd (omega arith)))
      ∙ past f pte_vol _ _ (ne→eqb (pte_index f) 3 (λ h. absurd (omega arith)))
      ∙ past f pte_aperture _ _ (ne→eqb (pte_index f) 2 (λ h. absurd (omega arith)))
      ∙ past f pte_valid _ _ (ne→eqb (pte_index f) 1 (λ h. absurd (omega arith)))

  read_valid :
      (system : Bool) (at v1 v2 v3 v4 v5 v6 v7 : ℕ)
      → v1 < 2 ^ n.pte.width pte_valid
      → n.pte.read pte_valid (assembled (address_part system at) v1 v2 v3 v4 v5 v6 v7) ≡ v1
  read_valid system at v1 v2 v3 v4 v5 v6 v7 h =
      past pte_valid pte_kind _ _ refl
      ∙ past pte_valid pte_atomic_disable _ _ refl
      ∙ past pte_valid pte_privilege _ _ refl
      ∙ past pte_valid pte_read_only _ _ refl
      ∙ past pte_valid pte_vol _ _ refl
      ∙ past pte_valid pte_aperture _ _ refl
      ∙ lands pte_valid _ v1 (no_address pte_valid system at refl) h

  read_aperture :
      (system : Bool) (at v1 v2 v3 v4 v5 v6 v7 : ℕ)
      → v2 < 2 ^ n.pte.width pte_aperture
      → n.pte.read pte_aperture (assembled (address_part system at) v1 v2 v3 v4 v5 v6 v7) ≡ v2
  read_aperture system at v1 v2 v3 v4 v5 v6 v7 h =
      past pte_aperture pte_kind _ _ refl
      ∙ past pte_aperture pte_atomic_disable _ _ refl
      ∙ past pte_aperture pte_privilege _ _ refl
      ∙ past pte_aperture pte_read_only _ _ refl
      ∙ past pte_aperture pte_vol _ _ refl
      ∙ lands pte_aperture _ v2
          (past pte_aperture pte_valid _ _ refl ∙ no_address pte_aperture system at refl) h

  read_vol :
      (system : Bool) (at v1 v2 v3 v4 v5 v6 v7 : ℕ)
      → v3 < 2 ^ n.pte.width pte_vol
      → n.pte.read pte_vol (assembled (address_part system at) v1 v2 v3 v4 v5 v6 v7) ≡ v3
  read_vol system at v1 v2 v3 v4 v5 v6 v7 h =
      past pte_vol pte_kind _ _ refl
      ∙ past pte_vol pte_atomic_disable _ _ refl
      ∙ past pte_vol pte_privilege _ _ refl
      ∙ past pte_vol pte_read_only _ _ refl
      ∙ lands pte_vol _ v3
          (past pte_vol pte_aperture _ _ refl
            ∙ past pte_vol pte_valid _ _ refl
            ∙ no_address pte_vol system at refl)
          h

  read_read_only :
      (system : Bool) (at v1 v2 v3 v4 v5 v6 v7 : ℕ)
      → v4 < 2 ^ n.pte.width pte_read_only
      → n.pte.read pte_read_only (assembled (address_part system at) v1 v2 v3 v4 v5 v6 v7) ≡ v4
  read_read_only system at v1 v2 v3 v4 v5 v6 v7 h =
      past pte_read_only pte_kind _ _ refl
      ∙ past pte_read_only pte_atomic_disable _ _ refl
      ∙ past pte_read_only pte_privilege _ _ refl
      ∙ lands pte_read_only _ v4
          (past pte_read_only pte_vol _ _ refl
            ∙ past pte_read_only pte_aperture _ _ refl
            ∙ past pte_read_only pte_valid _ _ refl
            ∙ no_address pte_read_only system at refl)
          h

  read_privilege :
      (system : Bool) (at v1 v2 v3 v4 v5 v6 v7 : ℕ)
      → v5 < 2 ^ n.pte.width pte_privilege
      → n.pte.read pte_privilege (assembled (address_part system at) v1 v2 v3 v4 v5 v6 v7) ≡ v5
  read_privilege system at v1 v2 v3 v4 v5 v6 v7 h =
      past pte_privilege pte_kind _ _ refl
      ∙ past pte_privilege pte_atomic_disable _ _ refl
      ∙ lands pte_privilege _ v5
          (past pte_privilege pte_read_only _ _ refl
            ∙ past pte_privilege pte_vol _ _ refl
            ∙ past pte_privilege pte_aperture _ _ refl
            ∙ past pte_privilege pte_valid _ _ refl
            ∙ no_address pte_privilege system at refl)
          h

  read_atomic_disable :
      (system : Bool) (at v1 v2 v3 v4 v5 v6 v7 : ℕ)
      → v6 < 2 ^ n.pte.width pte_atomic_disable
      → n.pte.read pte_atomic_disable (assembled (address_part system at) v1 v2 v3 v4 v5 v6 v7) ≡ v6
  read_atomic_disable system at v1 v2 v3 v4 v5 v6 v7 h =
      past pte_atomic_disable pte_kind _ _ refl
      ∙ lands pte_atomic_disable _ v6
          (past pte_atomic_disable pte_privilege _ _ refl
            ∙ past pte_atomic_disable pte_read_only _ _ refl
            ∙ past pte_atomic_disable pte_vol _ _ refl
            ∙ past pte_atomic_disable pte_aperture _ _ refl
            ∙ past pte_atomic_disable pte_valid _ _ refl
            ∙ no_address pte_atomic_disable system at refl)
          h

  read_kind :
      (system : Bool) (at v1 v2 v3 v4 v5 v6 v7 : ℕ)
      → v7 < 2 ^ n.pte.width pte_kind
      → n.pte.read pte_kind (assembled (address_part system at) v1 v2 v3 v4 v5 v6 v7) ≡ v7
  read_kind system at v1 v2 v3 v4 v5 v6 v7 h =
      lands pte_kind _ v7
        (past pte_kind pte_atomic_disable _ _ refl
          ∙ past pte_kind pte_privilege _ _ refl
          ∙ past pte_kind pte_read_only _ _ refl
          ∙ past pte_kind pte_vol _ _ refl
          ∙ past pte_kind pte_aperture _ _ refl
          ∙ past pte_kind pte_valid _ _ refl
          ∙ no_address pte_kind system at refl)
        h

  fields_read :
      (f : PteField) (physical system kind cached read_only atomic privileged : ℕ)
      → is_used n f system ≡ true
      → pte_value n f physical system kind cached read_only atomic privileged < 2 ^ n.pte.width f
      → n.pte.read f (pte_word n physical system kind cached read_only atomic privileged)
        ≡ pte_value n f physical system kind cached read_only atomic privileged
  fields_read pte_address_sys physical system kind cached read_only atomic privileged u h =
      address_kept pte_address_sys _ _ _ _ _ _ _ _ refl
      ∙ rw u (placed.reads pte_address_sys (physical / 2 ^ n.pte_shift) h)
  fields_read pte_address_vid physical system kind cached read_only atomic privileged u h =
      address_kept pte_address_vid _ _ _ _ _ _ _ _ refl
      ∙ rw u (placed.reads pte_address_vid (physical / 2 ^ n.pte_shift) h)
  fields_read pte_valid physical system kind cached read_only atomic privileged u h =
      read_valid (not (system == 0)) (physical / 2 ^ n.pte_shift) _ _ _ _ _ _ _ h
  fields_read pte_aperture physical system kind cached read_only atomic privileged u h =
      read_aperture (not (system == 0)) (physical / 2 ^ n.pte_shift) _ _ _ _ _ _ _ h
  fields_read pte_vol physical system kind cached read_only atomic privileged u h =
      read_vol (not (system == 0)) (physical / 2 ^ n.pte_shift) _ _ _ _ _ _ _ h
  fields_read pte_read_only physical system kind cached read_only atomic privileged u h =
      read_read_only (not (system == 0)) (physical / 2 ^ n.pte_shift) _ _ _ _ _ _ _ h
  fields_read pte_privilege physical system kind cached read_only atomic privileged u h =
      read_privilege (not (system == 0)) (physical / 2 ^ n.pte_shift) _ _ _ _ _ _ _ h
  fields_read pte_atomic_disable physical system kind cached read_only atomic privileged u h =
      read_atomic_disable (not (system == 0)) (physical / 2 ^ n.pte_shift) _ _ _ _ _ _ _ h
  fields_read pte_kind physical system kind cached read_only atomic privileged u h =
      read_kind (not (system == 0)) (physical / 2 ^ n.pte_shift) _ _ _ _ _ _ _ h

  -- A word of a page table, which is neither of the two directories', gives back what it was made
  -- of: every field that is in use reads the value that it stands for, where that value fits it. The
  -- fields of the headers do not overlap, but for the two addresses.
  pub host_page_word_reads :
      (f : PteField) (physical directory system kind cached read_only atomic privileged : ℕ)
      → directory ≢ 1
      → directory ≢ 2
      → is_used n f system ≡ true
      → pte_value n f physical system kind cached read_only atomic privileged < 2 ^ n.pte.width f
      → n.pte.read f
          (host_page_word n physical directory system kind cached read_only atomic privileged)
        ≡ pte_value n f physical system kind cached read_only atomic privileged
  unfolding host_page_word
  host_page_word_reads f physical directory system kind cached read_only atomic privileged d e u h =
      rw (ne→eqb directory 1 d, ne→eqb directory 2 e)
        (fields_read f physical system kind cached read_only atomic privileged u h)
