-- ===== src/Selection/Rk.antt =====
-- rk_gralloc_select_format of src/core/formats.cpp and the functions it calls: the choice of the
-- allocation format that the build uses (USE_RK_SELECTING_FORMAT_MANNER).
use rk_hardware_libgralloc_b.Format.{
  mali_gralloc_format_internal_bgr_888, mali_gralloc_format_internal_nv12,
  mali_gralloc_format_internal_nv15, mali_gralloc_format_internal_nv16,
  mali_gralloc_format_internal_nv21, mali_gralloc_format_internal_nv24,
  mali_gralloc_format_internal_nv30, mali_gralloc_format_internal_p010,
  mali_gralloc_format_internal_rgba_16161616, mali_gralloc_format_internal_rgba_8888,
  mali_gralloc_format_internal_undefined, mali_gralloc_format_internal_y210,
  mali_gralloc_format_internal_yuv420_10bit_i, mali_gralloc_format_internal_yuv420_8bit_i,
  mali_gralloc_format_internal_yuv422_8bit, mali_gralloc_intfmt_afbc_basic,
  mali_gralloc_intfmt_afbc_yuv_transform,
}
use rk_hardware_libgralloc_b.FormatInfo.{get_internal_format}
use rk_hardware_libgralloc_b.Hal.{Hal}
use rk_hardware_libgralloc_b.InternalFormat.{InternalFormat, from_private, internal_format}
use rk_hardware_libgralloc_b.Prelude.{
  Bool, bit_or, false, if◌then◌else◌, not, true, ℕ, ◌&&◌, ◌==◌, ◌||◌,
}
use rk_hardware_libgralloc_b.Prelude.Bits.{has_bits}
use rk_hardware_libgralloc_b.Prelude.Words.{int_div, int_lt}
use rk_hardware_libgralloc_b.Selection.Parties.{has_all_bits}
use rk_hardware_libgralloc_b.Usages.{
  gralloc_usage_hw_camera_read, gralloc_usage_hw_camera_write, gralloc_usage_hw_fb,
  gralloc_usage_hw_video_encoder, gralloc_usage_sw_read_mask, gralloc_usage_sw_write_mask,
  mali_gralloc_usage_no_afbc,
}

-- The boards; any other value of `ro.board.platform` ends the process.
pub data RkPlatform : Type 0 where
  rk3326 rk356x rk3588 : RkPlatform

-- What the system properties say, other than the size of the framebuffer.
pub record RkProperties : Type 0 where
  pub platform : RkPlatform
  pub no_afbc_for_sf_client_layer : Bool
  pub no_afbc_for_fb_target_layer : Bool
  pub not_to_use_non_afbc_for_small_buffers : Bool

-- The size of the framebuffer: the static variable and the property that processes share.
pub record FbSize : Type 0 where
  pub s_fb_size : ℕ
  pub property : ℕ

-- get_fb_size: the result and the variable, which takes the property's value if it is 0.
unfoldable pub get_fb_size : FbSize → ℕ × FbSize
get_fb_size state =
    if not (state.s_fb_size == 0)
    then (state.s_fb_size, state)
    else (state.property, record state { s_fb_size = state.property })

unfoldable pub save_fb_size : FbSize → ℕ → FbSize
save_fb_size state fb_size =
    let (saved, next) = get_fb_size state in
    if not (saved == 0) then next else record { s_fb_size = fb_size; property = fb_size }

module _ (hal : Hal) where
  unfoldable pub is_rk_ext_hal_format : ℕ → Bool
  is_rk_ext_hal_format hal_format =
      (hal.hal_ycrcb_nv12 == hal_format) || (hal.hal_ycrcb_nv12_10 == hal_format)

  unfoldable pub should_sf_client_layer_use_afbc_format_by_size : RkProperties → ℕ → ℕ → ℕ → Bool
  should_sf_client_layer_use_afbc_format_by_size properties fb_size base_format buffer_size =
      if not (mali_gralloc_format_internal_rgba_8888 hal == base_format)
      then true
      else if properties.not_to_use_non_afbc_for_small_buffers
      then true
      else not (int_lt buffer_size (int_div fb_size 4))

  -- The map from the requested to the internal format.
  unfoldable pub rk_map_format : ℕ → ℕ → ℕ
  rk_map_format req_format usage =
      if hal.hal_ycrcb_nv12 == req_format
      then mali_gralloc_format_internal_nv12
      else if hal.hal_ycbcr_422_sp == req_format
      then mali_gralloc_format_internal_nv16 hal
      else if hal.hal_ycrcb_nv12_10 == req_format
      then mali_gralloc_format_internal_nv15
      else if hal.hal_ycbcr_444_888_rk == req_format
      then mali_gralloc_format_internal_nv24
      else if hal.hal_nv30 == req_format
      then mali_gralloc_format_internal_nv30
      else if req_format == hal.hal_implementation_defined
      then (if has_all_bits usage gralloc_usage_hw_video_encoder
            || has_all_bits usage gralloc_usage_hw_camera_write
          then mali_gralloc_format_internal_nv12
          else hal.hal_rgbx_8888)
      else if req_format == hal.hal_ycbcr_420_888
      then mali_gralloc_format_internal_nv12
      else if hal.hal_yuv420_8bit_i == req_format
      then mali_gralloc_format_internal_yuv420_8bit_i
      else if hal.hal_yuv420_10bit_i == req_format
      then mali_gralloc_format_internal_yuv420_10bit_i
      else if hal.hal_ycbcr_422_i == req_format
      then mali_gralloc_format_internal_yuv422_8bit
      else if hal.hal_y210 == req_format
      then mali_gralloc_format_internal_y210
      else if req_format == hal.hal_ycrcb_420_sp_rk
      then mali_gralloc_format_internal_nv21
      else req_format

  -- The same, with the rule of the table where no case applies.
  unfoldable pub rk_internal_format : ℕ → ℕ → ℕ
  rk_internal_format req_format usage =
      let internal_format = rk_map_format req_format usage in
      let by_table = get_internal_format hal req_format in
      if not (is_rk_ext_hal_format req_format) && (internal_format == req_format)
      then (if by_table == mali_gralloc_format_internal_undefined then req_format else by_table)
      else internal_format

  unfoldable pub touches_cpu : ℕ → Bool
  touches_cpu usage = has_bits usage (bit_or gralloc_usage_sw_read_mask gralloc_usage_sw_write_mask)

  -- Uses and formats for which the framebuffer target is not compressed.
  unfoldable pub is_uncompressed_fb_target : ℕ → ℕ → Bool
  is_uncompressed_fb_target usage internal_format =
      has_all_bits usage gralloc_usage_hw_video_encoder
      || has_all_bits usage mali_gralloc_usage_no_afbc
      || touches_cpu usage
      || has_all_bits usage gralloc_usage_hw_camera_write
      || has_all_bits usage gralloc_usage_hw_camera_read
      || (internal_format == mali_gralloc_format_internal_nv12)
      || (internal_format == mali_gralloc_format_internal_p010)
      || (internal_format == mali_gralloc_format_internal_rgba_16161616 hal)
      || (internal_format == mali_gralloc_format_internal_nv16 hal)

  -- The format and the modifier of a framebuffer target that may be compressed.
  unfoldable pub fb_target_format : RkPlatform → ℕ → ℕ × ℕ
  fb_target_format rk3326 usage = (
    mali_gralloc_format_internal_rgba_8888 hal,
    bit_or mali_gralloc_intfmt_afbc_basic mali_gralloc_intfmt_afbc_yuv_transform,
  )
  fb_target_format rk356x usage = (
    mali_gralloc_format_internal_rgba_8888 hal,
    if not (has_bits usage mali_gralloc_usage_no_afbc) then mali_gralloc_intfmt_afbc_basic else 0,
  )
  fb_target_format rk3588 usage = (
    mali_gralloc_format_internal_rgba_8888 hal,
    if not (has_bits usage mali_gralloc_usage_no_afbc) then mali_gralloc_intfmt_afbc_basic else 0,
  )

  -- Formats that a client layer never compresses.
  unfoldable pub is_uncompressed_client_format : ℕ → Bool
  is_uncompressed_client_format internal_format =
      (internal_format == mali_gralloc_format_internal_nv12)
      || (internal_format == mali_gralloc_format_internal_nv30)
      || (internal_format == mali_gralloc_format_internal_nv24)
      || (internal_format == mali_gralloc_format_internal_nv15)
      || (internal_format == mali_gralloc_format_internal_p010)
      || (internal_format == mali_gralloc_format_internal_rgba_16161616 hal)
      || (internal_format == mali_gralloc_format_internal_nv16 hal)
      || (internal_format == mali_gralloc_format_internal_bgr_888 hal)
      || (internal_format == hal.hal_depth_32f)

  -- The tests before the size of a client layer is looked at.
  unfoldable pub may_compress_client_layer : RkProperties → ℕ → ℕ → Bool
  may_compress_client_layer properties usage internal_format =
      not (has_bits usage mali_gralloc_usage_no_afbc)
      && not properties.no_afbc_for_sf_client_layer
      && (elim properties.platform [ rk3326 ↦ false | rk356x ↦ true | rk3588 ↦ true ])
      && not (touches_cpu usage)
      && not (has_bits usage gralloc_usage_hw_video_encoder)
      && not (has_bits usage gralloc_usage_hw_camera_write)
      && not (has_bits usage gralloc_usage_hw_camera_read)
      && not (is_uncompressed_client_format internal_format)

  -- The two halves of the function: the internal format, the modifier and the framebuffer's size.
  unfoldable pub select_fb_target : RkProperties → FbSize → ℕ → ℕ → ℕ → (ℕ × ℕ) × FbSize
  select_fb_target properties state usage internal_format buffer_size =
      let selected =
        if properties.no_afbc_for_fb_target_layer || is_uncompressed_fb_target usage internal_format
        then (internal_format, 0)
        else fb_target_format properties.platform usage in
      (selected, save_fb_size state buffer_size)

  unfoldable pub select_client_layer : RkProperties → FbSize → ℕ → ℕ → ℕ → (ℕ × ℕ) × FbSize
  select_client_layer properties state usage internal_format buffer_size =
      let (fb_size, next) = get_fb_size state in
      let compress =
        should_sf_client_layer_use_afbc_format_by_size properties fb_size internal_format
          buffer_size in
      if may_compress_client_layer properties usage internal_format
      then ((internal_format, if compress then mali_gralloc_intfmt_afbc_basic else 0), next)
      else ((internal_format, 0), state)

  unfoldable pub rk_gralloc_select_format :
      RkProperties → FbSize → ℕ → ℕ → ℕ → InternalFormat × FbSize
  rk_gralloc_select_format properties state req_format usage buffer_size =
      let internal_format = rk_internal_format req_format usage in
      let ((selected, modifier), next) =
        if has_all_bits usage gralloc_usage_hw_fb
        then select_fb_target properties state usage internal_format buffer_size
        else select_client_layer properties state usage internal_format buffer_size in
      (from_private (bit_or selected modifier), next)
