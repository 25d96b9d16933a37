-- ===== src/Abi/Messages/Complete.antt =====
-- What the remembered words of Tools/Bootstrap/GspMessageAbi.c tell of a run: after which calls
-- r4nv_gsp_message_abi_complete and r4nv_gsp_unload_abi_complete answer yes.
use r4os_driver_nvidia.Base.{
  ℕ, ◌≡◌, ◌<◌, ◌^◌, ◌↔◌, refl, ◌∙◌, ap, arith, Bool, true, false, not, ◌||◌, List, [], ◌∷◌, ◌==◌,
  leb, if◌then◌else◌, bit_or, eqb→eq, ltb, get_or, take, u32, ◌*◌, ◌+◌,
}
use r4os_driver_nvidia.Abi.{same_bytes}
use r4os_driver_nvidia.Abi.Progress.{progress, compares, progress_iff, marked}
use r4os_driver_nvidia.Abi.Messages.{
  MessageHeaders, Checked, UnloadHeaders, message_abi_check, message_abi_complete, unload_abi_check,
  unload_abi_complete, message_buffer, message_element, unloading_expected, payload_lengths, summed,
}

-- One call of a check, by its arguments.
pub record MessageCall : Type 0 where
  pub actual : List ℕ
  pub actual_len : ℕ
  pub fixture : ℕ

tested : (a b c d e : Bool) → ℕ → ℕ → Checked
tested a b c d e old new =
    if a
    then record { code = 1; compared = old }
    else if b
    then record { code = 2; compared = old }
    else if c
    then record { code = 2; compared = old }
    else if d
    then record { code = 3; compared = old }
    else if e
    then record { code = 4; compared = old }
    else record { code = 0; compared = new }

-- The check's outcome, whatever the mask was.
abbrev Marks : (ℕ → Checked) → ℕ → Type 0
Marks run f =
    (mask : ℕ)
    → ((run mask).compared ≡ marked ((run 0).code == 0) f mask) × (((run 0).code ≡ 0) → f < 6)

tested-Marks :
    (a b c d e : Bool) (f : ℕ)
    → (a ≡ false → f < 6)
    → Marks (λ mask. tested a b c d e mask (bit_or mask (2 ^ f))) f
unfolding tested
tested-Marks true b c d e f h mask = (refl, λ z. absurd (omega arith))
tested-Marks false true c d e f h mask = (refl, λ z. absurd (omega arith))
tested-Marks false false true d e f h mask = (refl, λ z. absurd (omega arith))
tested-Marks false false false true e f h mask = (refl, λ z. absurd (omega arith))
tested-Marks false false false false true f h mask = (refl, λ z. absurd (omega arith))
tested-Marks false false false false false f h mask = (refl, λ _. h refl)

below : (f : ℕ) → leb 6 f ≡ false → f < 6
below f h = ground arith

module _ (n : MessageHeaders) where
  check-Marks :
      (actual : List ℕ) (len f : ℕ) → Marks (λ mask. message_abi_check n actual len f mask) f
  unfolding message_abi_check tested
  check-Marks actual len f =
      let payload_len = get_or payload_lengths f 0 in
      let message_len = u32 (n.element.bytes + payload_len) in
      let elements = n.bytes_to_elements message_len in
      let expected =
        message_buffer n
          (summed n (message_element n f payload_len elements) payload_len message_len)
          payload_len in
      tested-Marks (leb 6 f) (ltb message_len n.element.bytes || ltb n.size_max message_len)
        (not (len == u32 (elements * n.size_min))) (not (n.check_sum32 expected message_len == 0))
        (not (same_bytes (take len actual) (take len expected))) f (below f)

  -- The mask after a run of calls.
  abbrev pub messages_compared : List MessageCall → ℕ → ℕ
  messages_compared [] mask = mask
  messages_compared (c ∷ calls) mask =
      messages_compared calls (message_abi_check n c.actual c.actual_len c.fixture mask).compared

  -- The check accepts the call.
  abbrev pub accepts_message : MessageCall → Bool
  accepts_message c = (message_abi_check n c.actual c.actual_len c.fixture 0).code == 0

  messages-progress :
      (calls : List MessageCall) (mask : ℕ)
      → messages_compared calls mask ≡ progress accepts_message (λ c. c.fixture) calls mask
  messages-progress [] mask = refl
  messages-progress (c ∷ calls) mask =
      let (marks, _) = check-Marks c.actual c.actual_len c.fixture mask in
      ap (messages_compared calls) marks ∙ messages-progress calls _

  -- Calls from the start on make r4nv_gsp_message_abi_complete answer yes exactly where, for each
  -- of the six fixtures, the check accepted one of them for it.
  pub message_abi_complete_iff :
      (calls : List MessageCall)
      → (message_abi_complete (messages_compared calls 0) ≡ true)
        ↔ ((i : ℕ) → i < 6 → compares accepts_message (λ c. c.fixture) i calls ≡ true)
  message_abi_complete_iff calls = rw (messages-progress calls 0) (
      progress_iff accepts_message (λ c. c.fixture) 6
        (λ c e.
          let (_, small) = check-Marks c.actual c.actual_len c.fixture 0 in small (eqb→eq _ 0 e))
        calls)

-- One call of r4nv_gsp_unload_abi_check, by its arguments.
pub record UnloadCall : Type 0 where
  pub function : ℕ
  pub actual : List ℕ
  pub count : ℕ
  pub mailbox : ℕ

abbrev answered : Bool → ℕ → Checked
answered different word =
    if different then record { code = 1; compared = word } else record { code = 0; compared = 1 }

answered-keeps :
    (different : Bool) (word : ℕ)
    → (answered different word).compared ≡ (if (answered different 0).code == 0 then 1 else word)
answered-keeps true word = refl
answered-keeps false word = refl

carried :
    (z : Bool) (word : ℕ) (rest : Bool)
    → (((if z then 1 else word) == 1) || rest) ≡ ((word == 1) || (z || rest))
carried true word rest = ground arith
carried false word rest = refl

module _ (n : UnloadHeaders) where
  -- The code of a call, which does not depend on what was compared before.
  abbrev pub unload_code : UnloadCall → ℕ
  unload_code c = (unload_abi_check n c.function c.actual c.count c.mailbox 0).code

  -- The remembered word after a run of calls.
  abbrev pub unloads_compared : List UnloadCall → ℕ → ℕ
  unloads_compared [] word = word
  unloads_compared (c ∷ calls) word =
      unloads_compared calls
        (unload_abi_check n c.function c.actual c.count c.mailbox word).compared

  -- One of the calls is accepted.
  abbrev pub one_accepted : List UnloadCall → Bool
  one_accepted [] = false
  one_accepted (c ∷ calls) = unload_code c == 0 || one_accepted calls

  unload_word :
      (c : UnloadCall) (word : ℕ)
      → (unload_abi_check n c.function c.actual c.count c.mailbox word).compared
        ≡ (if unload_code c == 0 then 1 else word)
  unfolding unload_abi_check
  unload_word c word =
      answered-keeps
        (not (c.function == n.unloading_guest_driver)
          || (not (c.mailbox == n.falcon_mailbox0)
              || (not (c.count == n.unloading.bytes)
                  || not (
                      same_bytes (take n.unloading.bytes c.actual)
                        (n.unloading.encode unloading_expected)))))
        word

  remembers :
      (calls : List UnloadCall) (word : ℕ)
      → (unloads_compared calls word == 1) ≡ ((word == 1) || one_accepted calls)
  remembers [] word = ground arith
  remembers (c ∷ calls) word =
      rw (remembers calls _, unload_word c word)
        (carried (unload_code c == 0) word (one_accepted calls))

  -- Calls from the start on make r4nv_gsp_unload_abi_complete answer yes exactly where the check
  -- accepted one of them.
  pub unload_abi_complete_iff :
      (calls : List UnloadCall)
      → unload_abi_complete (unloads_compared calls 0) ≡ one_accepted calls
  unload_abi_complete_iff calls = remembers calls 0
