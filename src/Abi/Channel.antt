-- ===== src/Abi/Channel.antt =====
-- Of Tools/Bootstrap/GspMessageAbi.c: r4nv_gsp_host_channel_abi_check, the flags and the doorbell of a
-- channel. The bit fields are NVIDIA's, set by its macros FLD_SET_DRF and FLD_SET_DRF_NUM.
pub mod ReadBack
use r4os_driver_nvidia.Base.{ℕ, ◌%◌, ◌/◌, not, ◌||◌, ◌==◌, ltb, if◌then◌else◌}
use r4os_driver_nvidia.Abi.BitFields.{Fields}

-- The fields of NVOS04_FLAGS that the check sets.
pub data Flag : Type 0 where
  delay_channel_scheduling : Flag
  channel_deny_physical_mode_ce : Flag
  group_channel_runqueue : Flag
  privileged_channel : Flag
  channel_userd_index_fixed : Flag
  channel_userd_index_page_fixed : Flag
  channel_userd_index_value : Flag
  channel_userd_index_page_value : Flag

-- The fields of NV_CTRL_VF_DOORBELL.
pub data Doorbell : Type 0 where
  vector : Doorbell
  runlist_id : Doorbell

abbrev pub flag_index : Flag → ℕ
flag_index delay_channel_scheduling = 0
flag_index channel_deny_physical_mode_ce = 1
flag_index group_channel_runqueue = 2
flag_index privileged_channel = 3
flag_index channel_userd_index_fixed = 4
flag_index channel_userd_index_page_fixed = 5
flag_index channel_userd_index_value = 6
flag_index channel_userd_index_page_value = 7

abbrev pub doorbell_index : Doorbell → ℕ
doorbell_index vector = 0
doorbell_index runlist_id = 1

pub record ChannelHeaders : Type 0 where
  pub params_bytes : ℕ
  pub flags_offset : ℕ
  pub flags : Fields Flag
  pub doorbell : Fields Doorbell
  pub delay_true : ℕ
  pub deny_true : ℕ
  pub privileged_true : ℕ
  pub index_fixed_false : ℕ
  pub page_fixed_true : ℕ

module _ (n : ChannelHeaders) where
  abbrev pub expected_flags : ℕ → ℕ → ℕ → ℕ
  expected_flags chid runqueue golden =
      let delay = n.flags.set delay_channel_scheduling n.delay_true 0 in
      let deny = n.flags.set channel_deny_physical_mode_ce n.deny_true delay in
      let queue = n.flags.set group_channel_runqueue runqueue deny in
      let privileged =
        if not (golden == 0)
        then n.flags.set privileged_channel n.privileged_true queue
        else queue in
      let index = n.flags.set channel_userd_index_fixed n.index_fixed_false privileged in
      let page = n.flags.set channel_userd_index_page_fixed n.page_fixed_true index in
      let value = n.flags.set channel_userd_index_value (chid % 8) page in
      n.flags.set channel_userd_index_page_value (chid / 8) value

  abbrev pub expected_doorbell : ℕ → ℕ → ℕ
  expected_doorbell chid runlist = n.doorbell.set runlist_id runlist (n.doorbell.set vector chid 0)

  unfoldable pub host_channel_abi_check : ℕ → ℕ → ℕ → ℕ → ℕ → ℕ → ℕ
  host_channel_abi_check chid runlist runqueue golden flags token =
      if not (n.params_bytes == 368)
        || (not (n.flags_offset == 20)
            || (chid == 0
                || (ltb 512 chid
                    || (not (chid % 8 == 0)
                        || (ltb 127 runlist || (ltb 1 runqueue || ltb 1 golden))))))
      then 1
      else if not (flags == expected_flags chid runqueue golden)
          || not (token == expected_doorbell chid runlist)
      then 1
      else 0
