-- ===== src/Abi/Fwsec/Evidence.antt =====
-- What the report of r4nv_fwsec_abi_check stands for (Tools/Bootstrap/FwsecAbi.c): the bytes that it
-- compared itself, and the runs of the other checks (Tools/Bootstrap/GspMessageAbi.c).
use r4os_driver_nvidia.Base.{
  ℕ, ◌≡◌, ◌<◌, ◌↔◌, refl, sym, ◌∙◌, arith, Bool, true, false, not, ◌&&◌, ◌||◌, List, ◌==◌,
  if◌then◌else◌, take, eqb→eq, eq→eqb,
}
use r4os_driver_nvidia.Abi.{Layout, same_bytes-eq, eq-same_bytes}
use r4os_driver_nvidia.Abi.Progress.{compares}
use r4os_driver_nvidia.Abi.Messages.{
  MessageHeaders, UnloadHeaders, message_abi_complete, unload_abi_complete,
}
use r4os_driver_nvidia.Abi.Messages.Complete.{
  MessageCall, UnloadCall, messages_compared, accepts_message, message_abi_complete_iff,
  unloads_compared, one_accepted, unload_abi_complete_iff,
}
use r4os_driver_nvidia.Abi.Rings.{MsgQueues}
use r4os_driver_nvidia.Abi.Rings.Linked.{
  RingCall, rings_compared_by, accepts_ring, rings_compared_iff,
}
use r4os_driver_nvidia.Abi.Fwsec.{
  Comparisons, FwsecHeaders, Argument, Reported, read_expected, command_expected, meta_expected,
  others_compared, holds, fwsec_abi_check,
}

abbrev staged : (a b c d e : Bool) → Reported
staged a b c d e =
    if a
    then record { code = 4; printed = false }
    else if b
    then record { code = 1; printed = false }
    else if c
    then record { code = 2; printed = false }
    else if d
    then record { code = 3; printed = false }
    else if e
    then record { code = 1; printed = false }
    else record { code = 0; printed = true }

staged_iff :
    (a b c d e : Bool)
    → ((staged a b c d e).printed ≡ true)
      ↔ ((a ≡ false) × (b ≡ false) × (c ≡ false) × (d ≡ false) × (e ≡ false))
staged_iff true b c d e = (λ h. absurd (cc), λ (h, _, _, _, _). absurd (cc))
staged_iff false true c d e = (λ h. absurd (cc), λ (_, h, _, _, _). absurd (cc))
staged_iff false false true d e = (λ h. absurd (cc), λ (_, _, h, _, _). absurd (cc))
staged_iff false false false true e = (λ h. absurd (cc), λ (_, _, _, h, _). absurd (cc))
staged_iff false false false false true = (λ h. absurd (cc), λ (_, _, _, _, h). absurd (cc))
staged_iff false false false false false = (λ _. (refl, refl, refl, refl, refl), λ _. refl)

module _ (n : FwsecHeaders) where
  -- An argument that is a structure's bytes.
  abbrev pub IsBytesOf : {A : Type 0} → Layout A → A → Argument → Type 0
  IsBytesOf l a arg = (arg.bytes_len ≡ l.bytes) × (take l.bytes arg.bytes ≡ l.encode a)

  sizes :
      (p q r s : Bool)
      → (not p || (not q || (not r || not s))) ≡ false
      → (p ≡ true) × (q ≡ true) × (r ≡ true) × (s ≡ true)
  sizes p q r s h = ground arith

  pair : (p q : Bool) → (not p || not q) ≡ false → (p ≡ true) × (q ≡ true)
  pair p q h = ground arith

  negation : (p : Bool) → not p ≡ false → p ≡ true
  negation p h = ground arith

  -- r4nv_fwsec_abi_check prints its report exactly where every other comparison was made, the two
  -- commands and the metadata are the bytes of the structures that it builds, under the command
  -- numbers of the headers, and an unloading was compared.
  pub fwsec_abi_check_iff :
      (c : Comparisons) (sb : Argument) (sb_id : ℕ) (frts : Argument) (frts_id : ℕ) (wpr : Argument)
      → ((fwsec_abi_check n c sb sb_id frts frts_id wpr).printed ≡ true) ↔ (
          (others_compared n c ≡ true)
          × IsBytesOf n.read (read_expected n) sb
          × (sb_id ≡ n.cmd_sb)
          × IsBytesOf n.command (command_expected n) frts
          × (frts_id ≡ n.cmd_frts)
          × IsBytesOf n.meta (meta_expected n) wpr
          × (c.unload_compared ≡ 1))
  unfolding fwsec_abi_check
  fwsec_abi_check_iff c sb sb_id frts frts_id wpr =
      (sound, λ (o, (sl, s), si, (fl, f), fi, (wl, w), u). complete o sl s si fl f fi wl w u)
    where
      first : Bool
      first = holds n n.read (read_expected n) sb

      second : Bool
      second = holds n n.command (command_expected n) frts

      third : Bool
      third = holds n n.meta (meta_expected n) wpr

      sized : Bool
      sized =
          not (sb.bytes_len == n.read.bytes)
          || (not (frts.bytes_len == n.command.bytes)
              || (not (sb_id == n.cmd_sb) || not (frts_id == n.cmd_frts)))

      sound :
          (fwsec_abi_check n c sb sb_id frts frts_id wpr).printed ≡ true
          → (others_compared n c ≡ true)
            × IsBytesOf n.read (read_expected n) sb
            × (sb_id ≡ n.cmd_sb)
            × IsBytesOf n.command (command_expected n) frts
            × (frts_id ≡ n.cmd_frts)
            × IsBytesOf n.meta (meta_expected n) wpr
            × (c.unload_compared ≡ 1)
      sound z =
          let (stages, _) =
            staged_iff (not (others_compared n c)) sized (not first || not second)
              (not (wpr.bytes_len == n.meta.bytes) || not third)
              (not (unload_abi_complete c.unload_compared)) in
          let (a, b, x, d, e) = stages z in
          let (sl, fl, si, fi) =
            sizes (sb.bytes_len == n.read.bytes) (frts.bytes_len == n.command.bytes)
              (sb_id == n.cmd_sb) (frts_id == n.cmd_frts) b in
          let (s, f) = pair first second x in
          let (wl, w) = pair (wpr.bytes_len == n.meta.bytes) third d in
          (
            negation (others_compared n c) a,
            (eqb→eq sb.bytes_len n.read.bytes sl, same_bytes-eq _ _ s),
            eqb→eq sb_id n.cmd_sb si,
            (eqb→eq frts.bytes_len n.command.bytes fl, same_bytes-eq _ _ f),
            eqb→eq frts_id n.cmd_frts fi,
            (eqb→eq wpr.bytes_len n.meta.bytes wl, same_bytes-eq _ _ w),
            eqb→eq c.unload_compared 1 (negation (unload_abi_complete c.unload_compared) e),
          )

      complete :
          others_compared n c ≡ true
          → sb.bytes_len ≡ n.read.bytes
          → take n.read.bytes sb.bytes ≡ n.read.encode (read_expected n)
          → sb_id ≡ n.cmd_sb
          → frts.bytes_len ≡ n.command.bytes
          → take n.command.bytes frts.bytes ≡ n.command.encode (command_expected n)
          → frts_id ≡ n.cmd_frts
          → wpr.bytes_len ≡ n.meta.bytes
          → take n.meta.bytes wpr.bytes ≡ n.meta.encode (meta_expected n)
          → c.unload_compared ≡ 1
          → (fwsec_abi_check n c sb sb_id frts frts_id wpr).printed ≡ true
      complete o sl s si fl f fi wl w u =
          let (_, stages) =
            staged_iff (not (others_compared n c)) sized (not first || not second)
              (not (wpr.bytes_len == n.meta.bytes) || not third)
              (not (unload_abi_complete c.unload_compared)) in
          stages (
            rw o refl,
            rw
                (
                  eq→eqb sb.bytes_len n.read.bytes sl,
                  eq→eqb frts.bytes_len n.command.bytes fl,
                  eq→eqb sb_id n.cmd_sb si,
                  eq→eqb frts_id n.cmd_frts fi,
                )
                refl,
            rw (eq-same_bytes _ _ s, eq-same_bytes _ _ f) refl,
            rw (eq→eqb wpr.bytes_len n.meta.bytes wl, eq-same_bytes _ _ w) refl,
            rw (eq→eqb c.unload_compared 1 u) refl,
          )

  every :
      (init : Bool) (rings : Bool) (framed : Bool) (events : ℕ) (sequence : Bool)
      → (init && (rings && (framed && (events == 0x3f && sequence)))) ≡ true
      → (rings ≡ true) × (framed ≡ true) × (events ≡ 0x3f) × (sequence ≡ true)
  every init rings framed events sequence h = ground arith

  -- A report of r4nv_fwsec_abi_check that is printed after runs of the message check, of the ring
  -- check and of the unload check from the start stands for them: the message check accepted a call
  -- for each of its six fixtures, the ring check one for each of its eight, the unload check accepted
  -- one, and the words of the events and of the sequence say that all of these were compared.
  pub fwsec_abi_check-evidence :
      {Q : Type 0} (m : MessageHeaders) (q : MsgQueues Q) (u : UnloadHeaders)
      (messages : List MessageCall) (rings : List RingCall) (unloads : List UnloadCall)
      (c : Comparisons) (sb : Argument) (sb_id : ℕ) (frts : Argument) (frts_id : ℕ) (wpr : Argument)
      → (fwsec_abi_check n
          (record c {
            rings_compared = rings_compared_by q rings 0;
            compared = messages_compared m messages 0;
            unload_compared = unloads_compared u unloads 0;
          })
          sb
          sb_id
          frts
          frts_id
          wpr).printed
        ≡ true
      → ((i : ℕ) → i < 6 → compares (accepts_message m) (λ k. k.fixture) i messages ≡ true)
        × ((i : ℕ) → i < 8 → compares (accepts_ring q) (λ k. k.fixture) i rings ≡ true)
        × (one_accepted u unloads ≡ true)
        × (c.events_compared ≡ 0x3f)
        × (c.sequence_compared ≡ true)
  fwsec_abi_check-evidence m q u messages rings unloads c sb sb_id frts frts_id wpr z =
      let run = record c {
        rings_compared = rings_compared_by q rings 0;
        compared = messages_compared m messages 0;
        unload_compared = unloads_compared u unloads 0;
      } in
      let (report, _) = fwsec_abi_check_iff run sb sb_id frts frts_id wpr in
      let (others, _, _, _, _, _, unloaded) = report z in
      let (linked, framed, events, sequence) =
        every (not (c.init_compared == 0)) (rings_compared_by q rings 0 == 0xff)
          (message_abi_complete (messages_compared m messages 0)) c.events_compared
          c.sequence_compared others in
      let (each, _) = message_abi_complete_iff m messages in
      let (each_ring, _) = rings_compared_iff q rings in
      (
        each framed,
        each_ring linked,
        sym (unload_abi_complete_iff u unloads) ∙ eq→eqb _ 1 unloaded,
        events,
        sequence,
      )
