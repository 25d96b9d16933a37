-- ===== src/Abi/Progress.antt =====
-- The counters of Tools/Bootstrap/GspMessageAbi.c that remember in one word which fixtures
-- were compared.
use r4os_driver_nvidia.Base.{
  ℕ, zero, suc, ◌≡◌, ◌↔◌, refl, sym, ◌∙◌, ap, arith, ◌-◌, Bool, true, false, ◌&&◌, ◌||◌, List, [],
  ◌∷◌, ◌==◌, ◌<◌, ◌/◌, ◌%◌, ◌^◌, if◌then◌else◌, bit_or, has_bit, has_bit-bit_or, has_bit-power,
  has_bit-zero, bit_or_bound, eq→eqb, eqb→eq,
}

full : (k m : ℕ) → m < 2 ^ k → ((i : ℕ) → i < k → has_bit i m ≡ true) → m ≡ 2 ^ k - 1
full zero m h all = omega arith
full (suc k) m h all = omega (
  arith,
  odd m (all 0 (omega arith)),
  full k (m / 2) (omega arith) (λ i l. all (suc i) (omega arith)),
)
  where
    odd : (n : ℕ) → (n % 2 == 1) ≡ true → n % 2 ≡ 1
    odd n e = ground arith

positive : (k : ℕ) → 0 < 2 ^ k
positive zero = omega arith
positive (suc k) = omega (arith, positive k)

bits_of_full : (k i : ℕ) → i < k → has_bit i (2 ^ k - 1) ≡ true
bits_of_full zero i h = absurd (omega arith)
bits_of_full (suc k) zero h = eq→eqb ((2 ^ suc k - 1) % 2) 1 (omega (arith, positive k))
bits_of_full (suc k) (suc i) h =
    ap (has_bit i) {x = (2 ^ suc k - 1) / 2} {y = 2 ^ k - 1} (omega (arith, positive k))
    ∙ bits_of_full k i (omega arith)

or_false : (b : Bool) → b ≡ (b || false)
or_false b = ground arith

or_assoc : (a b c : Bool) → ((a || b) || c) ≡ (a || (b || c))
or_assoc a b c = ground arith

-- The mask after a call that was `accepted` for the fixture `j` or not.
abbrev pub marked : Bool → ℕ → ℕ → ℕ
marked accepted j mask = if accepted then bit_or mask (2 ^ j) else mask

has_bit-marked :
    (accepted : Bool) (i j mask : ℕ)
    → has_bit i (marked accepted j mask) ≡ (has_bit i mask || (accepted && (i == j)))
has_bit-marked true i j mask =
    has_bit-bit_or i mask (2 ^ j) ∙ ap (λ b. has_bit i mask || b) (has_bit-power i j)
has_bit-marked false i j mask = or_false (has_bit i mask)

power_bound : (k j : ℕ) → j < k → 2 ^ j < 2 ^ k
power_bound zero j h = absurd (omega arith)
power_bound (suc k) zero h = omega (arith, positive k)
power_bound (suc k) (suc j) h = omega (arith, power_bound k j (omega arith))

marked_bound :
    (k : ℕ) (accepted : Bool) (j mask : ℕ)
    → mask < 2 ^ k
    → (accepted ≡ true → j < k)
    → marked accepted j mask < 2 ^ k
marked_bound k true j mask h l = bit_or_bound k mask (2 ^ j) h (power_bound k j (l refl))
marked_bound k false j mask h l = h

module _ {Call : Type 0} (accepts : Call → Bool) (fixture : Call → ℕ) where
  -- The mask after the calls, one after the other.
  abbrev pub progress : List Call → ℕ → ℕ
  progress [] mask = mask
  progress (c ∷ calls) mask = progress calls (marked (accepts c) (fixture c) mask)

  -- One of the calls is accepted for the fixture `i`.
  abbrev pub compares : ℕ → List Call → Bool
  compares i [] = false
  compares i (c ∷ calls) = (accepts c && (i == fixture c)) || compares i calls

  has_bit-progress :
      (i : ℕ) (calls : List Call) (mask : ℕ)
      → has_bit i (progress calls mask) ≡ (has_bit i mask || compares i calls)
  has_bit-progress i [] mask = or_false (has_bit i mask)
  has_bit-progress i (c ∷ calls) mask =
      has_bit-progress i calls (marked (accepts c) (fixture c) mask)
      ∙ ap (λ b. b || compares i calls) (has_bit-marked (accepts c) i (fixture c) mask)
      ∙ or_assoc (has_bit i mask) (accepts c && (i == fixture c)) (compares i calls)

  -- What `progress` has marked at the start, and only that, is what was compared.
  has_bit-start : (i : ℕ) (calls : List Call) → has_bit i (progress calls 0) ≡ compares i calls
  has_bit-start i calls =
      has_bit-progress i calls 0 ∙ ap (λ b. b || compares i calls) (has_bit-zero i)

  module _ (k : ℕ) (bounded : (c : Call) → accepts c ≡ true → fixture c < k) where
    progress_bound : (calls : List Call) (mask : ℕ) → mask < 2 ^ k → progress calls mask < 2 ^ k
    progress_bound [] mask h = h
    progress_bound (c ∷ calls) mask h =
        progress_bound calls (marked (accepts c) (fixture c) mask)
          (marked_bound k (accepts c) (fixture c) mask h (bounded c))

    -- The mask is full after calls from the start on exactly where one of them was accepted for
    -- each of the `k` fixtures.
    pub progress_iff :
        (calls : List Call)
        → ((progress calls 0 == 2 ^ k - 1) ≡ true) ↔ ((i : ℕ) → i < k → compares i calls ≡ true)
    progress_iff calls = (
      λ whole i h.
          sym (has_bit-start i calls)
          ∙ ap (has_bit i) (eqb→eq (progress calls 0) (2 ^ k - 1) whole)
          ∙ bits_of_full k i h,
      λ all. eq→eqb (progress calls 0) (2 ^ k - 1) (
          full k (progress calls 0) (progress_bound calls 0 (positive k))
            (λ i h. has_bit-start i calls ∙ all i h)),
    )
