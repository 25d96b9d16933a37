-- ===== src/Probe.antt =====
-- The diagnostics under src/rm, which run the adapters: how one ends, and its steps in order.
pub mod Semaphores
pub mod Waits
use r4os_driver_nvidia.Base.{
  ℕ, ◌≡◌, refl, Bool, true, false, ◌==◌, if◌then◌else◌, ◌↔◌, eqb→eq, eq→eqb,
}
use r4os_driver_nvidia.Native.{Void, Ended, returned, faulted}

-- A diagnostic runs on, fails a CHECK (which returns minus the line), or leaves its callback by
-- r4nv_native_fault. What has been done to the state remains in each case.
pub data Attempt {ℓ κ} (S : Type ℓ) (A : Type κ) : Type (ℓ ⊔ κ) where
  done : A → S → Attempt S A
  failed : ℕ → S → Attempt S A
  aborted : ℕ → ℕ → S → Attempt S A

abbrev pub Probe {ℓ κ} : Type ℓ → Type κ → Type (ℓ ⊔ κ)
Probe S A = S → Attempt S A

abbrev pub and_then {ℓ κ μ} :
    {S : Type ℓ} {A : Type κ} {B : Type μ} → Attempt S A → (A → Probe S B) → Attempt S B
and_then (done a s) f = f a s
and_then (failed line s) f = failed line s
and_then (aborted operation result s) f = aborted operation result s

infixl 5 ◌>>=◌ ◌>>◌
abbrev pub ◌>>=◌ {ℓ κ μ} :
    {S : Type ℓ} {A : Type κ} {B : Type μ} → Probe S A → (A → Probe S B) → Probe S B
◌>>=◌ m f s = and_then (m s) f

abbrev pub ◌>>◌ {ℓ κ μ} : {S : Type ℓ} {A : Type κ} {B : Type μ} → Probe S A → Probe S B → Probe S B
m >> k = m >>= λ _. k

abbrev pub give {ℓ κ} : {S : Type ℓ} {A : Type κ} → A → Probe S A
give a s = done a s

abbrev pub modify {ℓ} : {S : Type ℓ} → (S → S) → Probe S Void
modify f s = done tt (f s)

-- CHECK(condition), at its line.
abbrev pub check {ℓ} : {S : Type ℓ} → ℕ → Bool → Probe S Void
check line condition s = if condition then done tt s else failed line s

-- A void call, whose state is a part of the diagnostic's.
abbrev pub run_void {ℓ κ} : {S : Type ℓ} {T : Type κ} → (T → S) → Ended T Void → Attempt S Void
run_void back (returned _ t) = done tt (back t)
run_void back (faulted operation result t) = aborted operation result (back t)

-- The diagnostic runs to its end, and `R` holds of its result and state.
pub data Ensures {ℓ κ μ} {S : Type ℓ} {A : Type κ} (R : A → S → Type μ)
    : Attempt S A → Type (ℓ ⊔ κ ⊔ μ) where
  ends : (a : A) (s : S) → R a s → Ensures R (done a s)

pub Ensures-bind {ℓ κ μ ν θ} :
    {S : Type ℓ} {A : Type κ} {B : Type μ} {Q : A → S → Type ν} {R : B → S → Type θ}
    {m : Attempt S A} (f : A → Probe S B)
    → Ensures Q m
    → ((a : A) (s : S) → Q a s → Ensures R (f a s))
    → Ensures R (and_then m f)
Ensures-bind f (ends a s q) next = next a s q

-- How a step without a result ends: it goes on with the state `t` just where `C` holds.
pub data Step {ℓ κ} {S : Type ℓ} (C : Type κ) (t : S) : Attempt S Void → Type (ℓ ⊔ κ) where
  goes_on : C → Step C t (done tt t)
  fails : (line : ℕ) (s : S) → (C → ⊥) → Step C t (failed line s)
  faults : (operation result : ℕ) (s : S) → (C → ⊥) → Step C t (aborted operation result s)

-- A diagnostic reaches its end just where its first step goes on and the others reach it.
pub Step-bind {ℓ κ μ ν θ} :
    {S : Type ℓ} {C : Type κ} {t : S} {m : Attempt S Void} {B : Type μ} {D : Type ν}
    {R : B → S → Type θ} (f : Void → Probe S B)
    → Step C t m
    → (C → Ensures R (f tt t) ↔ D)
    → Ensures R (and_then m f) ↔ (C × D)
Step-bind f (goes_on c) rest = (λ e. (c, (rest c).0 e), λ h. (rest h.0).1 h.1)
Step-bind f (fails line s stop) rest = (λ e. elim e [ ], λ h. absurd (stop h.0))
Step-bind f (faults operation result s stop) rest = (λ e. elim e [ ], λ h. absurd (stop h.0))

pub check-Step {ℓ κ} :
    {S : Type ℓ} {C : Type κ} (condition : Bool) (line : ℕ) (s : S)
    → (condition ≡ true) ↔ C
    → Step C s (check line condition s)
check-Step true line s h = goes_on (h.0 refl)
check-Step false line s h = fails line s λ c. absurd (cc (h.1 c))

-- A void call that returns where the bridge answers 0, and faults elsewhere.
pub run_void-Step {ℓ κ} :
    {S : Type ℓ} {T : Type κ} (back : T → S) (value operation : ℕ) (t : T)
    → Step
        (value ≡ 0)
        (back t)
        (run_void back (if value == 0 then returned tt t else faulted operation value t))
run_void-Step back value operation t = by_test (value == 0) (eqb→eq value 0) (eq→eqb value 0)
  where
    by_test :
        (test : Bool)
        → (test ≡ true → value ≡ 0)
        → (value ≡ 0 → test ≡ true)
        → Step
            (value ≡ 0)
            (back t)
            (run_void back (if test then returned tt t else faulted operation value t))
    by_test true h k = goes_on (h refl)
    by_test false h k = faults operation value (back t) λ e. absurd (cc (k e))
