-- ===== src/Abi/Channel/ReadBack.antt =====
-- What the flags and the token that r4nv_gsp_host_channel_abi_check accepts tell of their channel
-- (Tools/Bootstrap/GspMessageAbi.c).
use r4os_driver_nvidia.Base.{
  ℕ, ◌+◌, ◌*◌, ◌%◌, ◌/◌, ◌≡◌, ◌≤◌, refl, ◌∙◌, ap, arith, Bool, true, false, not, ◌||◌, ◌==◌, ltb,
  if◌then◌else◌, eqb→eq,
}
use r4os_driver_nvidia.Abi.BitFields.{IsFields}
use r4os_driver_nvidia.Abi.Channel.{
  ChannelHeaders, group_channel_runqueue, channel_userd_index_value, channel_userd_index_page_value,
  privileged_channel, vector, runlist_id, expected_flags, expected_doorbell, host_channel_abi_check,
  channel_userd_index_fixed, channel_userd_index_page_fixed, flag_index, doorbell_index,
}

accepted :
    (p o chid runlist runqueue golden : ℕ) (flags token : Bool)
    → ◌≡◌ {A = ℕ}
        (if not (p == 368)
            || (not (o == 20)
                || (chid == 0
                    || (ltb 512 chid
                        || (not (chid % 8 == 0)
                            || (ltb 127 runlist || (ltb 1 runqueue || ltb 1 golden))))))
          then 1
          else if not flags || not token
          then 1
          else 0)
        0
    → (chid ≤ 512)
      × (chid % 8 ≡ 0)
      × (runlist ≤ 127)
      × (runqueue ≤ 1)
      × (flags ≡ true)
      × (token ≡ true)
accepted p o chid runlist runqueue golden flags token h = ground arith

module _ (n : ChannelHeaders) (flags : IsFields flag_index n.flags)
    (doorbell : IsFields doorbell_index n.doorbell)
    (value_width : n.flags.width channel_userd_index_value ≡ 3)
    (page_width : n.flags.width channel_userd_index_page_value ≡ 9)
    (runqueue_width : n.flags.width group_channel_runqueue ≡ 1)
    (vector_width : n.doorbell.width vector ≡ 12)
    (runlist_width : n.doorbell.width runlist_id ≡ 7) where
  page_value :
      (chid runqueue golden : ℕ)
      → chid ≤ 512
      → n.flags.get channel_userd_index_page_value (expected_flags n chid runqueue golden)
        ≡ chid / 8
  page_value chid runqueue golden h =
      flags.reads channel_userd_index_page_value (chid / 8) _ (rw page_width (omega arith))

  index_value :
      (chid runqueue golden : ℕ)
      → n.flags.get channel_userd_index_value (expected_flags n chid runqueue golden) ≡ chid % 8
  index_value chid runqueue golden =
      flags.keeps channel_userd_index_value channel_userd_index_page_value (chid / 8) _ refl
      ∙ flags.reads channel_userd_index_value (chid % 8) _ (rw value_width (omega arith))

  -- What keeps the run queue's field keeps it under a test.
  queue_kept :
      (b : Bool) (word : ℕ)
      → n.flags.get group_channel_runqueue
          (if b then n.flags.set privileged_channel n.privileged_true word else word)
        ≡ n.flags.get group_channel_runqueue word
  queue_kept true word =
      flags.keeps group_channel_runqueue privileged_channel n.privileged_true word refl
  queue_kept false word = refl

  runqueue_value :
      (chid runqueue golden : ℕ)
      → runqueue ≤ 1
      → n.flags.get group_channel_runqueue (expected_flags n chid runqueue golden) ≡ runqueue
  runqueue_value chid runqueue golden h =
      flags.keeps group_channel_runqueue channel_userd_index_page_value (chid / 8) _ refl
      ∙ flags.keeps group_channel_runqueue channel_userd_index_value (chid % 8) _ refl
      ∙ flags.keeps group_channel_runqueue channel_userd_index_page_fixed n.page_fixed_true _ refl
      ∙ flags.keeps group_channel_runqueue channel_userd_index_fixed n.index_fixed_false _ refl
      ∙ queue_kept (not (golden == 0)) _
      ∙ flags.reads group_channel_runqueue runqueue _ (rw runqueue_width (omega arith))

  -- Flags and a token that r4nv_gsp_host_channel_abi_check accepts name the channel that it was
  -- called for: its number stands in the two USERD fields of the flags and in the vector of the
  -- token, its run queue and run list in their fields. A field reads back what is set in it, no other
  -- changes, and the fields have the widths of the headers.
  pub host_channel_abi_check_reads :
      (chid runlist runqueue golden word token : ℕ)
      → host_channel_abi_check n chid runlist runqueue golden word token ≡ 0
      → (8 * n.flags.get channel_userd_index_page_value word
            + n.flags.get channel_userd_index_value word
          ≡ chid)
        × (n.flags.get group_channel_runqueue word ≡ runqueue)
        × (n.doorbell.get vector token ≡ chid)
        × (n.doorbell.get runlist_id token ≡ runlist)
  unfolding host_channel_abi_check
  host_channel_abi_check_reads chid runlist runqueue golden word token z =
      let (small, whole, list, queue, f, t) =
        accepted n.params_bytes n.flags_offset chid runlist runqueue golden
          (word == expected_flags n chid runqueue golden)
          (token == expected_doorbell n chid runlist) z in
      let e = eqb→eq word (expected_flags n chid runqueue golden) f in
      let d = eqb→eq token (expected_doorbell n chid runlist) t in
      (
        omega (
          arith,
          ap (n.flags.get channel_userd_index_page_value) e,
          ap (n.flags.get channel_userd_index_value) e,
          page_value chid runqueue golden small,
          index_value chid runqueue golden,
          whole,
        ),
        ap (n.flags.get group_channel_runqueue) e ∙ runqueue_value chid runqueue golden queue,
        ap (n.doorbell.get vector) d
            ∙ doorbell.keeps vector runlist_id runlist _ refl
            ∙ doorbell.reads vector chid 0 (rw vector_width (omega arith)),
        ap (n.doorbell.get runlist_id) d
            ∙ doorbell.reads runlist_id runlist _ (rw runlist_width (omega arith)),
      )
