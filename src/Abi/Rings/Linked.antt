-- ===== src/Abi/Rings/Linked.antt =====
-- After which calls of r4nv_gsp_ring_abi_check all rings are compared (Tools/Bootstrap/FwsecAbi.c).
use r4os_driver_nvidia.Base.{
  ℕ, ◌*◌, ◌^◌, ◌≡◌, ◌<◌, ◌↔◌, refl, ◌∙◌, ap, arith, Bool, true, false, not, ◌||◌, Option, none,
  some, List, [], ◌∷◌, ◌==◌, ltb, leb, if◌then◌else◌, bit_or, bit_and, eqb→eq,
}
use r4os_driver_nvidia.Abi.{same_bytes}
use r4os_driver_nvidia.Abi.Progress.{progress, compares, progress_iff, marked}
use r4os_driver_nvidia.Abi.Messages.{Checked}
use r4os_driver_nvidia.Abi.Rings.{
  MsgQueues, Slots, ring_slots, ring_moved, ring_expected, ring_linked, with_cursors,
  ring_abi_check,
}

-- One call of the check, by its arguments.
pub record RingCall : Type 0 where
  pub actual : List ℕ
  pub actual_len : ℕ
  pub fixture : ℕ

below : (f : ℕ) (b : Bool) → (leb 8 f || b) ≡ false → f < 8
below f b h = ground arith

-- A run, by the mask, marks its fixture where its code is 0, which does not depend on the mask.
abbrev Marks : (ℕ → Checked) → ℕ → Type 0
Marks run f = (mask : ℕ) → (run mask).compared ≡ marked ((run 0).code == 0) f mask

abbrev settled : Bool → ℕ → ℕ → Checked
settled same f mask =
    if not same
    then record { code = 5; compared = mask }
    else record { code = 0; compared = bit_or mask (2 ^ f) }

settled-Marks : (same : Bool) (f : ℕ) → Marks (settled same f) f
settled-Marks true f mask = refl
settled-Marks false f mask = refl

abbrev refused : Bool → (ℕ → Checked) → ℕ → Checked
refused wrong run mask = if wrong then record { code = 1; compared = mask } else run mask

refused-Marks :
    (wrong : Bool) (run : ℕ → Checked) (f : ℕ) → Marks run f → Marks (refused wrong run) f
refused-Marks true run f h mask = refl
refused-Marks false run f h mask = h mask

refused-passes : (wrong : Bool) (run : ℕ → Checked) → (refused wrong run 0).code ≡ 0 → wrong ≡ false
refused-passes true run z = absurd (omega arith)
refused-passes false run z = refl

module _ {Q : Type 0} (n : MsgQueues Q) where
  moved-Marks :
      (actual : List ℕ) (f count : ℕ) (q : Q) (slots : Slots) (moved : Option Q)
      → Marks
          (λ mask. elim moved [
            | none ↦ record { code = 4; compared = mask }
            | some after ↦ settled (same_bytes actual (ring_expected n q after count slots)) f mask
          ])
          f
  moved-Marks actual f count q slots none mask = refl
  moved-Marks actual f count q slots (some after) mask =
      settled-Marks (same_bytes actual (ring_expected n q after count slots)) f mask

  slots-Marks :
      (actual : List ℕ) (f count : ℕ) (q : Q) (slots : Option Slots)
      → Marks
          (λ mask. elim slots [
            | none ↦ record { code = 3; compared = mask }
            | some s ↦ elim (ring_moved n q count) [
              | none ↦ record { code = 4; compared = mask }
              | some after ↦ settled (same_bytes actual (ring_expected n q after count s)) f mask
            ]
          ])
          f
  slots-Marks actual f count q none mask = refl
  slots-Marks actual f count q (some s) mask =
      moved-Marks actual f count q s (ring_moved n q count) mask

  abbrev on_linked : List ℕ → ℕ → Option Q → ℕ → Checked
  on_linked actual f linked mask = elim linked [
    | none ↦ record { code = 2; compared = mask }
    | some q ↦ ring_linked n actual f mask (with_cursors n q)
  ]

  linked-Marks : (actual : List ℕ) (f : ℕ) (linked : Option Q) → Marks (on_linked actual f linked) f
  linked-Marks actual f none mask = refl
  linked-Marks actual f (some q) mask =
      let count = if ltb f 4 then 1 else 16 in
      slots-Marks actual f count (with_cursors n q) (ring_slots n (with_cursors n q) 0 count) mask

  abbrev run_of : List ℕ → ℕ → ℕ → Checked
  run_of actual f = on_linked actual f (n.linked (not (bit_and f 1 == 0)) (not (bit_and f 2 == 0)))

  check-Marks : (actual : List ℕ) (len f : ℕ) → Marks (λ mask. ring_abi_check n actual len f mask) f
  unfolding ring_abi_check
  check-Marks actual len f mask =
      refused-Marks (leb 8 f || not (len == 48 * 4)) (run_of actual f) f
        (linked-Marks actual f (n.linked (not (bit_and f 1 == 0)) (not (bit_and f 2 == 0)))) mask

  check_below : (actual : List ℕ) (len f : ℕ) → (ring_abi_check n actual len f 0).code ≡ 0 → f < 8
  unfolding ring_abi_check
  check_below actual len f z =
      below f (not (len == 48 * 4))
        (refused-passes (leb 8 f || not (len == 48 * 4)) (run_of actual f) z)

  -- The mask after a run of calls.
  abbrev pub rings_compared_by : List RingCall → ℕ → ℕ
  rings_compared_by [] mask = mask
  rings_compared_by (c ∷ calls) mask =
      rings_compared_by calls (ring_abi_check n c.actual c.actual_len c.fixture mask).compared

  -- The check accepts the call.
  abbrev pub accepts_ring : RingCall → Bool
  accepts_ring c = (ring_abi_check n c.actual c.actual_len c.fixture 0).code == 0

  rings-progress :
      (calls : List RingCall) (mask : ℕ)
      → rings_compared_by calls mask ≡ progress accepts_ring (λ c. c.fixture) calls mask
  rings-progress [] mask = refl
  rings-progress (c ∷ calls) mask =
      ap (rings_compared_by calls) (check-Marks c.actual c.actual_len c.fixture mask)
      ∙ rings-progress calls (marked (accepts_ring c) c.fixture mask)

  -- Calls of r4nv_gsp_ring_abi_check from the start on fill the mask of the rings, which the report
  -- asks for, exactly where it accepted one of them for each of the eight fixtures.
  pub rings_compared_iff :
      (calls : List RingCall)
      → ((rings_compared_by calls 0 == 0xff) ≡ true)
        ↔ ((i : ℕ) → i < 8 → compares accepts_ring (λ c. c.fixture) i calls ≡ true)
  rings_compared_iff calls = rw (rings-progress calls 0) (
      progress_iff accepts_ring (λ c. c.fixture) 8
        (λ c e. check_below c.actual c.actual_len c.fixture (eqb→eq _ 0 e)) calls)
