-- ===== src/Abi/Messages/Lengths.antt =====
-- Lengths and bytes of the framed messages of Tools/Bootstrap/GspMessageAbi.c.
use r4os_driver_nvidia.Base.{
  ℕ, zero, suc, ◌+◌, ◌-◌, ◌/◌, ◌≡◌, ◌≤◌, ◌<◌, ◌↔◌, refl, ◌∙◌, ap, arith, Bool, true, false, not,
  List, [], ◌∷◌, ◌++◌, leb, if◌then◌else◌, length, take, replicate, get_or, take-append, take_all,
  take-replicate,
}
use Prim.Native.Nat.{min}
use r4os_driver_nvidia.Abi.Messages.{Checked, payload_lengths, message_payload}

-- The queue elements that each fixture's frame takes.
abbrev pub frame_elements : List ℕ
frame_elements = 1 ∷ 1 ∷ 1 ∷ 1 ∷ 2 ∷ 16 ∷ []

pub length-message_payload : (i p : ℕ) → length (message_payload i p) ≡ p
length-message_payload i zero = refl
length-message_payload i (suc p) = ap suc (length-message_payload (suc i) p)

pub payload_bound : (f : ℕ) → get_or payload_lengths f 0 ≤ 65456
payload_bound zero = omega arith
payload_bound (suc zero) = omega arith
payload_bound (suc (suc zero)) = omega arith
payload_bound (suc (suc (suc zero))) = omega arith
payload_bound (suc (suc (suc (suc zero)))) = omega arith
payload_bound (suc (suc (suc (suc (suc zero))))) = omega arith
payload_bound (suc (suc (suc (suc (suc (suc f)))))) = omega arith

pub elements_eq :
    (f : ℕ) → f < 6 → (80 + get_or payload_lengths f 0 + 4095) / 4096 ≡ get_or frame_elements f 0
elements_eq zero h = refl
elements_eq (suc zero) h = refl
elements_eq (suc (suc zero)) h = refl
elements_eq (suc (suc (suc zero))) h = refl
elements_eq (suc (suc (suc (suc zero)))) h = refl
elements_eq (suc (suc (suc (suc (suc zero))))) h = refl
elements_eq (suc (suc (suc (suc (suc (suc f)))))) h = absurd (omega arith)

pub test_le : (a b : ℕ) → a ≤ b → leb a b ≡ true
test_le a b h = ground arith

pub test_lt : (a b : ℕ) → b < a → leb a b ≡ false
test_lt a b h = ground arith

-- The tests that remain for a fixture in range.
abbrev pub verdict : Bool → Bool → ℕ → ℕ → Checked
verdict sized equal old new =
    if not sized
    then record { code = 2; compared = old }
    else if not equal
    then record { code = 4; compared = old }
    else record { code = 0; compared = new }

pub verdict_iff :
    (sized equal : Bool) (old new : ℕ)
    → ((verdict sized equal old new).code ≡ 0) ↔ ((sized ≡ true) × (equal ≡ true))
verdict_iff true true old new = (λ _. (refl, refl), λ _. refl)
verdict_iff true false old new = (λ h. absurd (omega arith), λ (_, h). absurd (cc))
verdict_iff false e old new = (λ h. absurd (omega arith), λ (h, _). absurd (cc))

pub take-past :
    (k : ℕ) (xs ys : List ℕ) → length xs ≤ k → take k (xs ++ ys) ≡ xs ++ take (k - length xs) ys
take-past k xs ys h =
    take-append k xs ys ∙ ap (λ zs. zs ++ take (k - length xs) ys) (take_all k xs h)

pub take-padded :
    (k : ℕ) (xs : List ℕ) (m r : ℕ)
    → k ≡ length xs + r
    → r ≤ m
    → take k (xs ++ replicate m 0) ≡ xs ++ replicate r 0
take-padded k xs m r e h =
    take-past k xs (replicate m 0) (omega arith)
    ∙ ap (λ zs. xs ++ zs) (take-replicate (k - length xs) m 0)
    ∙ ap (λ j. xs ++ replicate j 0) {x = min (k - length xs) m} {y = r} (omega arith)

pub elements_bound : (f : ℕ) → get_or frame_elements f 0 ≤ 16
elements_bound zero = omega arith
elements_bound (suc zero) = omega arith
elements_bound (suc (suc zero)) = omega arith
elements_bound (suc (suc (suc zero))) = omega arith
elements_bound (suc (suc (suc (suc zero)))) = omega arith
elements_bound (suc (suc (suc (suc (suc zero))))) = omega arith
elements_bound (suc (suc (suc (suc (suc (suc f)))))) = omega arith
