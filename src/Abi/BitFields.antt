-- ===== src/Abi/BitFields.antt =====
-- Words with bit fields, as NVIDIA's macros DRF_NUM, FLD_SET_DRF and FLD_SET_DRF_NUM see them. Where
-- the fields lie is the headers' business.
use r4os_driver_nvidia.Base.{ℕ, ◌≡◌, ◌<◌, ◌^◌, false, ◌==◌}

-- `set f v w` is the word `w` with the field `f` set to `v`.
pub record Fields {ℓ} (F : Type ℓ) : Type ℓ where
  pub set : F → ℕ → ℕ → ℕ
  pub get : F → ℕ → ℕ
  pub width : F → ℕ

-- A value that fits its field is read back, and no other field changes with it. `index` numbers the
-- fields.
pub record IsFields {ℓ} {F : Type ℓ} (index : F → ℕ) (b : Fields F) : Type ℓ where
  pub reads : (f : F) (v w : ℕ) → v < 2 ^ b.width f → b.get f (b.set f v w) ≡ v
  pub keeps : (f g : F) (v w : ℕ) → (index f == index g) ≡ false → b.get f (b.set g v w) ≡ b.get f w
