-- ===== src/Abi/Pages/Placing.antt =====
-- Bit fields that are placed in a word by `|`, and what the fields of a page table's word stand for (Tools/Bootstrap/GspMessageAbi.c).
use r4os_driver_nvidia.Base.{
  ℕ, ◌/◌, ◌^◌, ◌≡◌, ◌<◌, ◌∙◌, ap, Bool, true, false, not, ◌==◌, if◌then◌else◌, bit_or, bit_or-zero,
  bit_or-zero_left,
}
use r4os_driver_nvidia.Abi.Pages.{
  Placed, PteField, pte_address_sys, pte_address_vid, pte_valid, pte_aperture, pte_vol,
  pte_read_only, pte_privilege, pte_atomic_disable, pte_kind, PageHeaders, negated,
}

-- A field that is placed is read where its value fits, a field elsewhere reads 0, and a field of a
-- union of words is the union of the fields. Fields with one index may overlap.
pub record IsPlaced {ℓ} {F : Type ℓ} (index : F → ℕ) (p : Placed F) : Type ℓ where
  pub reads : (f : F) (v : ℕ) → v < 2 ^ p.width f → p.read f (p.place f v) ≡ v
  pub apart : (f g : F) (v : ℕ) → (index f == index g) ≡ false → p.read f (p.place g v) ≡ 0
  pub unions : (f : F) (a b : ℕ) → p.read f (bit_or a b) ≡ bit_or (p.read f a) (p.read f b)

abbrev pub pte_index : PteField → ℕ
pte_index pte_address_sys = 0
pte_index pte_address_vid = 0
pte_index pte_valid = 1
pte_index pte_aperture = 2
pte_index pte_vol = 3
pte_index pte_read_only = 4
pte_index pte_privilege = 5
pte_index pte_atomic_disable = 6
pte_index pte_kind = 7

module _ {F : Type 0} (index : F → ℕ) (p : Placed F) (placed : IsPlaced index p) where
  pub skip :
      (f g : F) (a v : ℕ)
      → (index f == index g) ≡ false
      → p.read f (bit_or a (p.place g v)) ≡ p.read f a
  skip f g a v e =
      placed.unions f a (p.place g v)
      ∙ ap (bit_or (p.read f a)) (placed.apart f g v e)
      ∙ bit_or-zero (p.read f a)

  pub hit :
      (f : F) (a v : ℕ) → p.read f a ≡ 0 → v < 2 ^ p.width f → p.read f (bit_or a (p.place f v)) ≡ v
  hit f a v e h =
      placed.unions f a (p.place f v)
      ∙ ap (λ k. bit_or k (p.read f (p.place f v))) e
      ∙ bit_or-zero_left (p.read f (p.place f v))
      ∙ placed.reads f v h

module _ (n : PageHeaders) where
  -- What a field of a page table's word stands for; of the two addresses one is meant.
  abbrev pub pte_value : PteField → ℕ → ℕ → ℕ → ℕ → ℕ → ℕ → ℕ → ℕ
  pte_value pte_address_sys physical system kind cached read_only atomic privileged =
      physical / 2 ^ n.pte_shift
  pte_value pte_address_vid physical system kind cached read_only atomic privileged =
      physical / 2 ^ n.pte_shift
  pte_value pte_valid physical system kind cached read_only atomic privileged = n.valid_true
  pte_value pte_aperture physical system kind cached read_only atomic privileged =
      if not (system == 0) then n.pte_system_coherent else n.pte_video
  pte_value pte_vol physical system kind cached read_only atomic privileged = negated cached
  pte_value pte_read_only physical system kind cached read_only atomic privileged = read_only
  pte_value pte_privilege physical system kind cached read_only atomic privileged = privileged
  pte_value pte_atomic_disable physical system kind cached read_only atomic privileged =
      negated atomic
  pte_value pte_kind physical system kind cached read_only atomic privileged = kind

  -- The field is in use: the system's address for system memory, the other one otherwise.
  abbrev pub is_used : PteField → ℕ → Bool
  is_used pte_address_sys system = not (system == 0)
  is_used pte_address_vid system = system == 0
  is_used pte_valid system = true
  is_used pte_aperture system = true
  is_used pte_vol system = true
  is_used pte_read_only system = true
  is_used pte_privilege system = true
  is_used pte_atomic_disable system = true
  is_used pte_kind system = true
