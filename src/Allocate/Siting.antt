-- ===== src/Allocate/Siting.antt =====
-- get_format_chroma_siting of src/idl_common/allocator/allocator.cpp: the chroma siting of a new
-- buffer.
use rk_hardware_libgralloc_b.Format.{
  mali_gralloc_format_internal_nv12, mali_gralloc_format_internal_nv15,
  mali_gralloc_format_internal_nv16, mali_gralloc_format_internal_nv21,
  mali_gralloc_format_internal_p010, mali_gralloc_format_internal_p210,
  mali_gralloc_format_internal_q401, mali_gralloc_format_internal_q410,
  mali_gralloc_format_internal_y0l2, mali_gralloc_format_internal_y210,
  mali_gralloc_format_internal_y410, mali_gralloc_format_internal_yuv420_10bit_i,
  mali_gralloc_format_internal_yuv420_8bit_i, mali_gralloc_format_internal_yuv422_8bit,
  mali_gralloc_format_internal_yuv444,
}
use rk_hardware_libgralloc_b.FormatInfo.{get_base_info}
use rk_hardware_libgralloc_b.Hal.{Hal}
use rk_hardware_libgralloc_b.InternalFormat.{InternalFormat, get_base}
use rk_hardware_libgralloc_b.Prelude.{bit_and, if◌then◌else◌, none, some, ℕ, ◌&&◌, ◌==◌, ◌||◌}
use rk_hardware_libgralloc_b.Prelude.Bits.{has_bits}
use rk_hardware_libgralloc_b.Usages.{
  mali_gralloc_usage_chroma_siting_center, mali_gralloc_usage_chroma_siting_center_x,
  mali_gralloc_usage_chroma_siting_center_y, mali_gralloc_usage_chroma_siting_cosited,
  mali_gralloc_usage_chroma_siting_mask,
}

-- The values of the platform's and of Arm's chroma siting types that the function uses.
pub data ChromaSiting : Type 0 where
  siting_none siting_unknown siting_interstitial : ChromaSiting
  siting_cosited_horizontal siting_cosited_vertical siting_cosited_both : ChromaSiting

-- The switch on the private usage, which leaves the value where no case matches.
unfoldable pub chroma_siting_of_usage : ℕ → ChromaSiting
chroma_siting_of_usage usage =
    let asked = bit_and usage mali_gralloc_usage_chroma_siting_mask in
    if asked == mali_gralloc_usage_chroma_siting_center
    then siting_interstitial
    else if asked == mali_gralloc_usage_chroma_siting_center_x
    then siting_cosited_vertical
    else if asked == mali_gralloc_usage_chroma_siting_center_y
    then siting_cosited_horizontal
    else if asked == mali_gralloc_usage_chroma_siting_cosited
    then siting_cosited_both
    else siting_unknown

-- The switch on the base format.
unfoldable pub chroma_siting_of_format : Hal → ℕ → ChromaSiting
chroma_siting_of_format hal base_format =
    if (base_format == mali_gralloc_format_internal_nv12)
      || (base_format == mali_gralloc_format_internal_nv15)
      || (base_format == mali_gralloc_format_internal_nv21)
      || (base_format == mali_gralloc_format_internal_p010)
      || (base_format == mali_gralloc_format_internal_yuv420_8bit_i)
      || (base_format == mali_gralloc_format_internal_yuv420_10bit_i)
      || (base_format == mali_gralloc_format_internal_y0l2)
    then siting_interstitial
    else if (base_format == mali_gralloc_format_internal_y210)
        || (base_format == mali_gralloc_format_internal_p210)
    then siting_cosited_vertical
    else if (base_format == mali_gralloc_format_internal_nv16 hal)
        || (base_format == mali_gralloc_format_internal_y410)
        || (base_format == mali_gralloc_format_internal_yuv444)
        || (base_format == mali_gralloc_format_internal_q410)
        || (base_format == mali_gralloc_format_internal_q401)
        || (base_format == mali_gralloc_format_internal_yuv422_8bit)
    then siting_cosited_both
    else siting_unknown

unfoldable pub get_format_chroma_siting : Hal → InternalFormat → ℕ → ChromaSiting
get_format_chroma_siting hal format usage = elim (get_base_info hal format) [
  | none ↦ siting_unknown
  | some format_info ↦
      if format_info.is_yuv && has_bits usage mali_gralloc_usage_chroma_siting_mask
      then chroma_siting_of_usage usage
      else if format_info.is_yuv
      then chroma_siting_of_format hal (get_base format)
      else if format_info.is_rgb
      then siting_none
      else siting_unknown
]
