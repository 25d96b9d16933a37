-- ===== src/Dsc.antt =====
-- src/dsc/pps.c with src/dsc/r4os_dsc.h: the C boundary of display stream compression. NVIDIA's
-- DSC_GeneratePPS is a parameter. Of its structures the records have the fields that the code sets;
-- all others are zero, as their initialisers say.
pub mod Slices
use r4os_driver_nvidia.Base.{
  ℕ, zero, suc, ◌+◌, ◌-◌, Bool, true, false, not, List, [], ◌∷◌, Option, none, some, ◌==◌, ltb,
  if◌then◌else◌, bit_and,
}

-- R4OS_DSC_INPUT.
pub record DscInput : Type 0 where
  pub pixel_clock_hz : ℕ
  pub payload_bps : ℕ
  pub link_rate_10mhz : ℕ
  pub width : ℕ
  pub height : ℕ
  pub bpc : ℕ
  pub lanes : ℕ
  pub hblank : ℕ
  pub transport : ℕ
  pub sink_formats : ℕ
  pub sink_step_x16 : ℕ
  pub max_slice_width : ℕ
  pub slice_mask : ℕ
  pub sink_line_bits : ℕ
  pub bpc_mask : ℕ
  pub revision_minor : ℕ
  pub block_prediction : ℕ
  pub throughput_code : ℕ
  pub max_bpp_x16 : ℕ
  pub source_formats : ℕ
  pub source_line_units : ℕ
  pub source_step_x16 : ℕ
  pub source_slices : ℕ
  pub source_line_bits : ℕ
  pub forced_bpp_x16 : ℕ
  pub forced_slice_width : ℕ

-- R4OS_DSC_OUTPUT.
pub record DscOutput : Type 0 where
  pub pps : List ℕ
  pub bpp_x16 : ℕ

pub record Revision : Type 0 where
  pub version_major : ℕ
  pub version_minor : ℕ

pub record SinkCaps : Type 0 where
  pub decoder_color_format_mask : ℕ
  pub bits_per_pixel_precision : ℕ
  pub max_slice_width : ℕ
  pub slice_count_supported_mask : ℕ
  pub max_num_hzt_slices : ℕ
  pub line_buffer_bit_depth : ℕ
  pub decoder_color_depth_caps : ℕ
  pub decoder_color_depth_mask : ℕ
  pub algorithm_revision : Revision
  pub block_prediction : Bool
  pub peak_throughput_mode0 : ℕ
  pub max_bits_per_pixel_x16 : ℕ

pub record GpuCaps : Type 0 where
  pub encoder_color_format_mask : ℕ
  pub line_buffer_size : ℕ
  pub bits_per_pixel_precision : ℕ
  pub max_num_hzt_slices : ℕ
  pub line_buffer_bit_depth : ℕ

pub record ForcedParams : Type 0 where
  pub slice_width : ℕ
  pub dsc_revision : Revision

pub record DscInfo : Type 0 where
  pub sink_caps : SinkCaps
  pub gpu_caps : GpuCaps
  pub forced_dsc_params : ForcedParams

pub data ColorFormat : Type 0 where
  rgb : ColorFormat

pub record ModesetInfo : Type 0 where
  pub pixel_clock_hz : ℕ
  pub active_width : ℕ
  pub active_height : ℕ
  pub bits_per_component : ℕ
  pub color_format : ColorFormat

pub data ConnectorType : Type 0 where
  dsc_dp dsc_hdmi : ConnectorType

pub data DpMode : Type 0 where
  dsc_dp_sst dsc_dp_mst : DpMode

pub record WarData : Type 0 where
  pub connector_type : ConnectorType
  pub dp_mode : DpMode
  pub link_rate_hz : ℕ
  pub lane_count : ℕ
  pub h_blank : ℕ

-- count == 1 ? 1 : count == 2 ? 2 : ...
abbrev pub slice_bit : ℕ → ℕ
slice_bit count =
    if count == 1
    then 1
    else if count == 2
    then 2
    else if count == 4
    then 8
    else if count == 6
    then 16
    else if count == 8
    then 32
    else if count == 10
    then 64
    else if count == 12
    then 128
    else if count == 16
    then 256
    else if count == 20
    then 512
    else if count == 24
    then 1024
    else 0

-- for (count = ...; count <= 24; ++count), with `rounds` to go and maxNumHztSlices so far.
unfoldable pub slice_loop : ℕ → ℕ → ℕ → ℕ → ℕ
slice_loop zero count slice_mask max_slices = max_slices
slice_loop (suc rounds) count slice_mask max_slices =
    slice_loop rounds (count + 1) slice_mask
      (if bit_and slice_mask (slice_bit count) == 0 then max_slices else count)

unfoldable pub max_slices : ℕ → ℕ
unfolding slice_loop
max_slices slice_mask = slice_loop 24 1 slice_mask 0

unfoldable pub dsc_info : DscInput → DscInfo
unfolding max_slices
dsc_info input = record {
  sink_caps = record {
    decoder_color_format_mask = input.sink_formats;
    bits_per_pixel_precision = input.sink_step_x16;
    max_slice_width = input.max_slice_width;
    slice_count_supported_mask = input.slice_mask;
    max_num_hzt_slices = max_slices input.slice_mask;
    line_buffer_bit_depth = input.sink_line_bits;
    decoder_color_depth_caps = input.bpc_mask;
    decoder_color_depth_mask = input.bpc_mask;
    algorithm_revision = record { version_major = 1; version_minor = input.revision_minor };
    block_prediction = not (input.block_prediction == 0);
    peak_throughput_mode0 = input.throughput_code;
    max_bits_per_pixel_x16 = input.max_bpp_x16;
  };
  gpu_caps = record {
    encoder_color_format_mask = input.source_formats;
    line_buffer_size = input.source_line_units;
    bits_per_pixel_precision = input.source_step_x16;
    max_num_hzt_slices = input.source_slices;
    line_buffer_bit_depth = input.source_line_bits;
  };
  forced_dsc_params =
      if input.transport == 2
      then record {
        slice_width = input.forced_slice_width;
        dsc_revision = record { version_major = 1; version_minor = 2 };
      }
      else record {
        slice_width = 0;
        dsc_revision = record { version_major = 0; version_minor = 0 };
      };
}

abbrev pub modeset_info : DscInput → ModesetInfo
modeset_info input = record {
  pixel_clock_hz = input.pixel_clock_hz;
  active_width = input.width;
  active_height = input.height;
  bits_per_component = input.bpc;
  color_format = rgb;
}

abbrev pub war_data : DscInput → WarData
war_data input = record {
  connector_type = if input.transport == 2 then dsc_hdmi else dsc_dp;
  dp_mode = if input.transport == 1 then dsc_dp_mst else dsc_dp_sst;
  link_rate_hz = input.link_rate_10mhz;
  lane_count = input.lanes;
  h_blank = input.hblank;
}

-- A status, with the output structure where there is one.
pub record Generated {ℓ} (R : Type ℓ) : Type ℓ where
  pub status : R
  pub output : Option DscOutput

-- `invalid` is NVT_STATUS_INVALID_PARAMETER among NVIDIA's statuses, and `generate_pps` is DSC_GeneratePPS,
-- which gets the output structure's two members and gives back what it makes of them.
module _ {ℓ} {R : Type ℓ} (invalid : R)
    (generate_pps : DscInfo → ModesetInfo → WarData → ℕ → DscOutput → R × DscOutput) where
  abbrev pub seeded : DscInput → DscOutput → DscOutput
  seeded input out =
      if input.transport == 2 then record out { bpp_x16 = input.forced_bpp_x16 } else out

  -- `none` is a NULL pointer.
  unfoldable pub r4os_dsc_generate : Option DscInput → Option DscOutput → Generated R
  unfolding dsc_info
  r4os_dsc_generate none out = record { status = invalid; output = out }
  r4os_dsc_generate (some input) none = record { status = invalid; output = none }
  r4os_dsc_generate (some input) (some out) =
      if ltb 2 input.transport
      then record { status = invalid; output = some out }
      else (let r =
            generate_pps (dsc_info input) (modeset_info input) (war_data input) input.payload_bps
              (seeded input out) in
          record { status = r.0; output = some r.1 })
