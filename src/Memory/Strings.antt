-- ===== src/Memory/Strings.antt =====
-- r4nv_length and r4nv_string_compare of src/rm/memory.h on C strings.
use r4os_driver_nvidia.Base.{
  ℕ, zero, suc, ◌+◌, ◌-◌, ◌≤◌, ◌<◌, ◌≡◌, ◌≢◌, ◌⊎◌, inl, inr, refl, arith, ◌==◌, ℤ, pos, sub_ℕ,
  Bool-cases, eqb→eq, eqb→ne, ne→eqb, eq→eqb, dec_lt, some,
}
use r4os_driver_nvidia.Memory.{Memory, length_loop, r4nv_length, r4nv_string_compare}
use r4os_driver_nvidia.Memory.Compare.{AreSame, AreSame-extend, sub_ℕ_self, IsFirstDifference}

-- The bytes at `p` are a C string of `n` characters.
pub record IsString (p n : ℕ) (m : Memory) : Type 0 where
  pub terminated : m (p + n) ≡ 0
  pub nonzero : (i : ℕ) → i < n → m (p + i) ≢ 0

length_loop_lem :
    (fuel p i n : ℕ) (m : Memory)
    → IsString p n m
    → i ≤ n
    → n - i < fuel
    → length_loop fuel p i m ≡ some n
unfolding length_loop
length_loop_lem zero p i n m s h f = absurd (omega arith)
length_loop_lem (suc fuel) p i n m s h f = elim (dec_lt i n) [
  | yes lt ↦
      rw (ne→eqb _ _ (s.nonzero i lt))
        (length_loop_lem fuel p (i + 1) n m s (omega arith) (omega arith))
  | no ge ↦ let end : i ≡ n = omega arith in rw (end, eq→eqb _ _ s.terminated)
]

-- On a string of `n` characters, with fuel above that, r4nv_length stops at the NUL and returns
-- `n`.
pub r4nv_length_lem :
    (fuel p n : ℕ) (m : Memory) → IsString p n m → n < fuel → r4nv_length fuel p m ≡ some n
unfolding r4nv_length
r4nv_length_lem fuel p n m s h = length_loop_lem fuel p 0 n m s (omega arith) (omega arith)

-- The walk after `i` equal characters that are not NUL.
string_compare_from :
    (fuel a b i n : ℕ) (m : Memory)
    → IsString a n m
    → AreSame a b i m
    → i ≤ n
    → n - i < fuel
    → (r : ℤ) × (r4nv_string_compare fuel (a + i) (b + i) m ≡ some r)
      × ((AreSame a b (n + 1) m × (r ≡ pos 0)) ⊎ IsFirstDifference a b (n + 1) m r)
unfolding r4nv_string_compare
string_compare_from zero a b i n m s same h f = absurd (omega arith)
string_compare_from (suc fuel) a b i n m s same h f = elim (dec_lt i n) [
  | yes lt ↦ elim (Bool-cases (m (a + i) == m (b + i))) [
    | inl t ↦
        rw (ne→eqb _ _ (s.nonzero i lt), t, succ a i, succ b i)
          (string_compare_from fuel a b (i + 1) n m s (AreSame-extend a b i m same (eqb→eq _ _ t))
            (omega arith) (omega arith))
    | inr t ↦
        rw (ne→eqb _ _ (s.nonzero i lt), t)
          (
            sub_ℕ (m (a + i)) (m (b + i)),
            refl,
            inr (record {
              place = i;
              inside = omega arith;
              before = same;
              differ = eqb→ne _ _ t;
              result = refl;
            }),
          )
  ]
  | no ge ↦
      let end : i ≡ n = omega arith in
      rw (eq→eqb (m (a + i)) 0 (rw end s.terminated))
        (sub_ℕ (m (a + i)) (m (b + i)), refl, at_end i end same)
]
  where
    succ : (p k : ℕ) → p + k + 1 ≡ p + (k + 1)
    succ p k = omega arith

    at_end :
        (k : ℕ)
        → k ≡ n
        → AreSame a b k m
        → (AreSame a b (n + 1) m × (sub_ℕ (m (a + k)) (m (b + k)) ≡ pos 0))
          ⊎ IsFirstDifference a b (n + 1) m (sub_ℕ (m (a + k)) (m (b + k)))
    at_end k e same = elim (Bool-cases (m (a + k) == m (b + k))) [
      | inl t ↦
          inl (rw (← e) (AreSame-extend a b k m same (eqb→eq _ _ t)), sub_ℕ_self _ _ (eqb→eq _ _ t))
      | inr t ↦ inr (record {
        place = k;
        inside = omega arith;
        before = same;
        differ = eqb→ne _ _ t;
        result = refl;
      })
    ]

-- For a first string of `n` characters and fuel above that, r4nv_string_compare returns: 0 if the
-- two strings are equal up to and with the NUL, and else the difference of the bytes at the first
-- place where they differ.
pub r4nv_string_compare_cases :
    (fuel a b n : ℕ) (m : Memory)
    → IsString a n m
    → n < fuel
    → (r : ℤ) × (r4nv_string_compare fuel a b m ≡ some r)
      × ((AreSame a b (n + 1) m × (r ≡ pos 0)) ⊎ IsFirstDifference a b (n + 1) m r)
r4nv_string_compare_cases fuel a b n m s h =
    let go =
      string_compare_from fuel a b 0 n m s (λ i z. absurd (omega arith)) (omega arith)
        (omega arith) in
    let ea : a + 0 ≡ a = omega arith in let eb : b + 0 ≡ b = omega arith in rw (ea, eb) at go
