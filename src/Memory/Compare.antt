-- ===== src/Memory/Compare.antt =====
-- r4nv_compare of src/rm/memory.h.
use r4os_driver_nvidia.Base.{
  ℕ, zero, suc, ◌+◌, ◌<◌, ◌≡◌, ◌≢◌, ◌↔◌, ◌⊎◌, inl, inr, refl, sym, ◌∙◌, arith, ◌==◌, ℤ, pos, sub_ℕ,
  Bool-cases, eqb→eq, eqb→ne, dec_lt,
}
use r4os_driver_nvidia.Memory.{Memory, compare_loop, r4nv_compare}

-- Two spans of `n` bytes hold the same bytes.
abbrev pub AreSame : ℕ → ℕ → ℕ → Memory → Type 0
AreSame a b n m = (i : ℕ) → i < n → m (a + i) ≡ m (b + i)

pub AreSame-extend :
    (a b i : ℕ) (m : Memory) → AreSame a b i m → m (a + i) ≡ m (b + i) → AreSame a b (i + 1) m
AreSame-extend a b i m same e j h = elim (dec_lt j i) [
  | yes p ↦ same j p
  | no p ↦ let here : j ≡ i = omega arith in rw here e
]

-- `i` is the first place below `n` where the spans differ, and `r` the difference of its bytes.
pub record IsFirstDifference (a b n : ℕ) (m : Memory) (r : ℤ) : Type 0 where
  pub place : ℕ
  pub inside : place < n
  pub before : AreSame a b place m
  pub differ : m (a + place) ≢ m (b + place)
  pub result : r ≡ sub_ℕ (m (a + place)) (m (b + place))

-- The loop at index `i`: all earlier bytes agree.
compare_loop_cases :
    (rest i n a b : ℕ) (m : Memory)
    → i + rest ≡ n
    → AreSame a b i m
    → (AreSame a b n m × (compare_loop rest i a b m ≡ pos 0))
      ⊎ IsFirstDifference a b n m (compare_loop rest i a b m)
unfolding compare_loop
compare_loop_cases zero i n a b m e same = inl ((λ j h. same j (omega arith)), refl)
compare_loop_cases (suc rest) i n a b m e same = elim (Bool-cases (m (a + i) == m (b + i))) [
  | inl t ↦ rw t (
      compare_loop_cases rest (i + 1) n a b m (omega arith)
        (AreSame-extend a b i m same (eqb→eq _ _ t)))
  | inr t ↦ rw t (
      inr (record {
        place = i;
        inside = omega arith;
        before = same;
        differ = eqb→ne _ _ t;
        result = refl;
      }))
]

pub sub_ℕ_self : (a b : ℕ) → a ≡ b → sub_ℕ a b ≡ pos 0
sub_ℕ_self a b h = ground arith

sub_ℕ-zero : (a b : ℕ) → sub_ℕ a b ≡ pos 0 → a ≡ b
sub_ℕ-zero a b h = ground arith

-- r4nv_compare gives 0 on equal spans, and else the difference of the first two bytes that differ.
pub r4nv_compare_cases :
    (a b n : ℕ) (m : Memory)
    → (AreSame a b n m × (r4nv_compare a b n m ≡ pos 0))
      ⊎ IsFirstDifference a b n m (r4nv_compare a b n m)
unfolding r4nv_compare
r4nv_compare_cases a b n m =
    compare_loop_cases n 0 n a b m (omega arith) (λ j h. absurd (omega arith))

-- r4nv_compare gives 0 exactly when the spans are equal.
pub r4nv_compare_zero_iff :
    (a b n : ℕ) (m : Memory) → (r4nv_compare a b n m ≡ pos 0) ↔ AreSame a b n m
r4nv_compare_zero_iff a b n m = elim (r4nv_compare_cases a b n m) [
  | inl same ↦ ((λ _. same.0), (λ _. same.1))
  | inr d ↦ (
    (λ z. absurd (d.differ (sub_ℕ-zero _ _ (sym d.result ∙ z)))),
    (λ same. absurd (d.differ (same d.place d.inside))),
  )
]
