-- ===== src/FormatInfo/Dataspace.antt =====
-- get_format_dataspace of src/core/format_info.cpp: the dataspace of a new buffer. The values of
-- android_dataspace_t are a parameter.
use rk_hardware_libgralloc_b.FormatInfo.Entry.{FormatInfo}
use rk_hardware_libgralloc_b.Prelude.{
  Option, bit_and, bit_or, if◌then◌else◌, leb, none, some, ℕ, ◌==◌, ◌||◌,
}
use rk_hardware_libgralloc_b.Prelude.Words.{int_lt, u32}
use rk_hardware_libgralloc_b.Usages.{
  mali_gralloc_usage_range_mask, mali_gralloc_usage_range_narrow, mali_gralloc_usage_range_wide,
  mali_gralloc_usage_yuv_color_space_bt2020, mali_gralloc_usage_yuv_color_space_bt601,
  mali_gralloc_usage_yuv_color_space_bt709, mali_gralloc_usage_yuv_color_space_mask,
}

pub record Dataspaces : Type 0 where
  pub hal_dataspace_unknown : ℕ
  pub hal_dataspace_standard_bt601_625 : ℕ
  pub hal_dataspace_standard_bt709 : ℕ
  pub hal_dataspace_standard_bt2020 : ℕ
  pub hal_dataspace_range_full : ℕ
  pub hal_dataspace_range_limited : ℕ

abbrev pub yuv_bt601_max_width : ℕ
yuv_bt601_max_width = 1280

abbrev pub yuv_bt601_max_height : ℕ
yuv_bt601_max_height = 720

module _ (dataspaces : Dataspaces) where
  -- The colour space and the range of a YUV format, by its bits per sample and its size.
  unfoldable pub default_yuv_dataspace : ℕ → ℕ → ℕ → ℕ × ℕ
  default_yuv_dataspace bps width height =
      if leb 10 bps
      then (dataspaces.hal_dataspace_standard_bt2020, dataspaces.hal_dataspace_range_full)
      else if int_lt width yuv_bt601_max_width || int_lt height yuv_bt601_max_height
      then (dataspaces.hal_dataspace_standard_bt601_625, dataspaces.hal_dataspace_range_limited)
      else (dataspaces.hal_dataspace_standard_bt709, dataspaces.hal_dataspace_range_limited)

  unfoldable pub override_color_space : ℕ → ℕ → ℕ
  override_color_space usage color_space =
      let asked = bit_and usage mali_gralloc_usage_yuv_color_space_mask in
      if asked == mali_gralloc_usage_yuv_color_space_bt601
      then dataspaces.hal_dataspace_standard_bt601_625
      else if asked == mali_gralloc_usage_yuv_color_space_bt709
      then dataspaces.hal_dataspace_standard_bt709
      else if asked == mali_gralloc_usage_yuv_color_space_bt2020
      then dataspaces.hal_dataspace_standard_bt2020
      else color_space

  unfoldable pub override_range : ℕ → ℕ → ℕ
  override_range usage range =
      let asked = bit_and usage mali_gralloc_usage_range_mask in
      if asked == mali_gralloc_usage_range_narrow
      then dataspaces.hal_dataspace_range_limited
      else if asked == mali_gralloc_usage_range_wide
      then dataspaces.hal_dataspace_range_full
      else range

  unfoldable pub get_format_dataspace : Option FormatInfo → ℕ → ℕ → ℕ → ℕ
  get_format_dataspace none usage width height = dataspaces.hal_dataspace_unknown
  get_format_dataspace (some format_info) usage width height =
      if format_info.is_yuv
      then (let (color_space, range) = default_yuv_dataspace format_info.bps width height in
          u32 (bit_or (override_color_space usage color_space) (override_range usage range)))
      else dataspaces.hal_dataspace_unknown
