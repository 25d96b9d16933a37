-- ===== src/Dsc/Slices.antt =====
-- The slice counts of DPCD 0x064 and 0x06D in r4os_dsc_generate (src/dsc/pps.c).
use r4os_driver_nvidia.Base.{
  ℕ, zero, suc, ◌+◌, ◌^◌, ◌≤◌, ◌<◌, ◌≡◌, ◌≢◌, ◌⊎◌, inl, inr, refl, arith, Bool, true, false, not,
  ◌==◌, if◌then◌else◌, Bool-cases, bit_and, List, [], ◌∷◌, dec_le,
}
use r4os_driver_nvidia.Dsc.{DscInput, slice_bit, slice_loop, max_slices, dsc_info}

-- The code's test that a count is advertised.
abbrev tests : ℕ → ℕ → Bool
tests mask count = not (bit_and mask (slice_bit count) == 0)

-- `r` is the last count from `first` below `last` that the mask advertises, or `otherwise` if it
-- advertises none.
pub record IsLast (mask first last otherwise r : ℕ) : Type 0 where
  pub found : (r ≡ otherwise) ⊎ ((first ≤ r) × (r < last) × (tests mask r ≡ true))
  pub above : (k : ℕ) → first ≤ k → k < last → r < k → tests mask k ≡ false

slice_loop_lem :
    (rounds count last mask m : ℕ)
    → count + rounds ≡ last
    → m < count
    → IsLast mask count last m (slice_loop rounds count mask m)
unfolding slice_loop
slice_loop_lem zero count last mask m e h = record {
  found = inl refl;
  above = λ k a b c. absurd (omega arith);
}
slice_loop_lem (suc rounds) count last mask m e h =
    elim (Bool-cases (bit_and mask (slice_bit count) == 0)) [
      | inl clear ↦
          let rest = slice_loop_lem rounds (count + 1) last mask m (omega arith) (omega arith) in
          rw clear (record { found = earlier m rest.found; above = from clear rest.above })
      | inr set_bit ↦
          let rest =
            slice_loop_lem rounds (count + 1) last mask count (omega arith) (omega arith) in
          rw set_bit (record {
            found = inr (here set_bit rest.found);
            above = λ k low high more. rest.above k (next_le rest.found k more) high more;
          })
    ]
  where
    earlier :
        {r : ℕ} (o : ℕ)
        → (r ≡ o) ⊎ ((count + 1 ≤ r) × (r < last) × (tests mask r ≡ true))
        → (r ≡ o) ⊎ ((count ≤ r) × (r < last) × (tests mask r ≡ true))
    earlier o (inl same) = inl same
    earlier o (inr f) = inr (omega (arith, f.0), f.1, f.2)

    from :
        {r : ℕ}
        → (bit_and mask (slice_bit count) == 0) ≡ true
        → ((k : ℕ) → count + 1 ≤ k → k < last → r < k → tests mask k ≡ false)
        → (k : ℕ) → count ≤ k
        → k < last
        → r < k
        → tests mask k ≡ false
    from clear above k low high more = elim (dec_le (count + 1) k) [
      | yes later ↦ above k later high more
      | no first ↦ let same : k ≡ count = omega arith in rw (same, clear) refl
    ]

    here :
        {r : ℕ}
        → (bit_and mask (slice_bit count) == 0) ≡ false
        → (r ≡ count) ⊎ ((count + 1 ≤ r) × (r < last) × (tests mask r ≡ true))
        → (count ≤ r) × (r < last) × (tests mask r ≡ true)
    here set_bit (inl same) = (omega arith, omega arith, rw (same, set_bit) refl)
    here set_bit (inr f) = (omega (arith, f.0), f.1, f.2)

    next_le :
        {r : ℕ}
        → (r ≡ count) ⊎ ((count + 1 ≤ r) × (r < last) × (tests mask r ≡ true))
        → (k : ℕ) → r < k
        → count + 1 ≤ k
    next_le (inl same) k more = omega arith
    next_le (inr f) k more = omega (arith, f.0)

-- The slice counts of the DPCD and the bits of the mask that advertise them.
abbrev pub dpcd_slices : List (ℕ × ℕ)
dpcd_slices =
    (1, 0)
    ∷ (2, 1)
    ∷ (4, 3)
    ∷ (6, 4)
    ∷ (8, 5)
    ∷ (10, 6)
    ∷ (12, 7)
    ∷ (16, 8)
    ∷ (20, 9)
    ∷ (24, 10)
    ∷ []

pub weight : ℕ → List (ℕ × ℕ) → ℕ
weight count [] = 0
weight count ((c, p) ∷ table) = if count == c then 2 ^ p else weight count table

abbrev pub Advertises : ℕ → ℕ → Type 0
Advertises mask count = bit_and mask (weight count dpcd_slices) ≢ 0

slice_bit-weight : (count : ℕ) → slice_bit count ≡ weight count dpcd_slices
unfolding weight
slice_bit-weight count = refl

not_zero : (n : ℕ) → not (n == 0) ≡ true → n ≢ 0
not_zero n t z = ground arith

is_zero : (n : ℕ) → not (n == 0) ≡ false → n ≡ 0
is_zero n t = ground arith

not-Advertises : (mask count : ℕ) → tests mask count ≡ false → ¬ Advertises mask count
not-Advertises mask count t a =
    a (rw (← slice_bit-weight count) (is_zero (bit_and mask (slice_bit count)) t))

Advertises-tests : (mask count : ℕ) → tests mask count ≡ true → Advertises mask count
Advertises-tests mask count t =
    rw (← slice_bit-weight count) λ z. not_zero (bit_and mask (slice_bit count)) t z

-- `n` is the largest count that the mask advertises, or 0 if it advertises none.
pub record IsLargest (mask n : ℕ) : Type 0 where
  pub advertised : (n ≡ 0) ⊎ Advertises mask n
  pub largest : (k : ℕ) → n < k → k ≤ 24 → ¬ Advertises mask k

-- The slice count that r4os_dsc_generate gives as the sink's is the largest that its mask
-- advertises, or 0 where it advertises none.
pub dsc_info-IsLargest :
    (input : DscInput) → IsLargest input.slice_mask (dsc_info input).sink_caps.max_num_hzt_slices
unfolding dsc_info max_slices
dsc_info-IsLargest input =
    let r = slice_loop_lem 24 1 25 input.slice_mask 0 (omega arith) (omega arith) in
    record {
      advertised = any r.found;
      largest = λ k more small.
          not-Advertises input.slice_mask k (r.above k (omega arith) (omega arith) more);
    }
  where
    any :
        {n : ℕ}
        → (n ≡ 0) ⊎ ((1 ≤ n) × (n < 25) × (tests input.slice_mask n ≡ true))
        → (n ≡ 0) ⊎ Advertises input.slice_mask n
    any (inl none_set) = inl none_set
    any (inr f) = inr (Advertises-tests input.slice_mask _ f.2)
