-- ===== src/Allocation/Stride.antt =====
-- The byte stride of a plane in calc_allocation_size of src/core/buffer_allocation.cpp,
-- update_yv12_stride, and is_base_format_used_by_rk_video of src/core/formats.cpp.
use rk_hardware_libgralloc_b.Align.{gralloc_align, gralloc_align_int}
use rk_hardware_libgralloc_b.AllocType.{AllocType, type_is_afbc, type_is_afrc, type_is_block_linear}
use rk_hardware_libgralloc_b.Allocation.Dimensions.{Rect}
use rk_hardware_libgralloc_b.Allocation.Lcm.{lcm}
use rk_hardware_libgralloc_b.Format.{
  mali_gralloc_format_internal_bgr_888, mali_gralloc_format_internal_nv12,
  mali_gralloc_format_internal_nv15, mali_gralloc_format_internal_nv16,
  mali_gralloc_format_internal_nv24, mali_gralloc_format_internal_nv30,
  mali_gralloc_format_internal_y210, mali_gralloc_format_internal_yuv420_10bit_i,
  mali_gralloc_format_internal_yuv420_8bit_i, mali_gralloc_format_internal_yuv422_8bit,
  mali_gralloc_format_internal_yv12,
}
use rk_hardware_libgralloc_b.FormatInfo.{FormatInfo, at}
use rk_hardware_libgralloc_b.Hal.{Hal}
use rk_hardware_libgralloc_b.Prelude.{
  Bool, [], bit_and, bit_or, if◌then◌else◌, ltb, not, ℕ, ◌&&◌, ◌*◌, ◌+◌, ◌/◌, ◌==◌, ◌||◌, ◌∷◌,
}
use rk_hardware_libgralloc_b.Prelude.Bits.{any_of, complement, has_bits}
use rk_hardware_libgralloc_b.Prelude.Words.{u32}
use rk_hardware_libgralloc_b.Usages.{
  gralloc_usage_frontbuffer, gralloc_usage_private_mask, gralloc_usage_sw_read_mask,
  gralloc_usage_sw_write_mask, rk_gralloc_usage_stride_align_128, rk_gralloc_usage_stride_align_16,
  rk_gralloc_usage_stride_align_256_odd_times, rk_gralloc_usage_stride_align_64,
}

-- What calc_allocation_size is asked for.
pub record SizeRequest : Type 0 where
  pub size : Rect
  pub alloc_type : AllocType
  pub format : FormatInfo
  pub usage : ℕ
  pub is_stride_specified : Bool
  pub usage_flag : ℕ

pub record PlaneInfo : Type 0 where
  pub offset : ℕ
  pub byte_stride : ℕ
  pub alloc_width : ℕ
  pub alloc_height : ℕ

unfoldable pub has_cpu_usage : ℕ → Bool
has_cpu_usage usage = has_bits usage (bit_or gralloc_usage_sw_read_mask gralloc_usage_sw_write_mask)

unfoldable pub has_hw_usage : ℕ → Bool
has_hw_usage usage = has_bits usage (
    complement 64 (
      any_of (
        gralloc_usage_private_mask ∷ gralloc_usage_sw_read_mask ∷ gralloc_usage_sw_write_mask
        ∷ gralloc_usage_frontbuffer ∷ [])))

unfoldable pub is_base_format_used_by_rk_video : Hal → ℕ → Bool
is_base_format_used_by_rk_video hal base_format =
    (mali_gralloc_format_internal_nv12 == base_format)
    || (mali_gralloc_format_internal_nv16 hal == base_format)
    || (mali_gralloc_format_internal_yuv420_8bit_i == base_format)
    || (mali_gralloc_format_internal_yuv420_10bit_i == base_format)
    || (mali_gralloc_format_internal_yuv422_8bit == base_format)
    || (mali_gralloc_format_internal_y210 == base_format)
    || (mali_gralloc_format_internal_nv15 == base_format)
    || (mali_gralloc_format_internal_nv24 == base_format)
    || (mali_gralloc_format_internal_nv30 == base_format)

-- An odd multiple of 256: `((value + 255) & (~255)) | (256)`.
unfoldable pub odd_times_256 : ℕ → ℕ
odd_times_256 value = bit_or (bit_and (u32 (value + 255)) (complement 32 255)) 256

-- The switch on the flag for the pixel stride of NV12, from the width, an `int`.
unfoldable pub specified_pixel_stride : ℕ → ℕ → ℕ
specified_pixel_stride usage_flag width =
    if usage_flag == rk_gralloc_usage_stride_align_16
    then gralloc_align_int width 16
    else if usage_flag == rk_gralloc_usage_stride_align_64
    then gralloc_align_int width 64
    else if usage_flag == rk_gralloc_usage_stride_align_128
    then gralloc_align_int width 128
    else if usage_flag == rk_gralloc_usage_stride_align_256_odd_times
    then odd_times_256 width
    else 0

-- The switch on the flag for the byte stride of the other formats.
unfoldable pub specified_byte_stride : ℕ → ℕ → ℕ
specified_byte_stride usage_flag byte_stride =
    if usage_flag == rk_gralloc_usage_stride_align_16
    then gralloc_align byte_stride 16
    else if usage_flag == rk_gralloc_usage_stride_align_64
    then gralloc_align byte_stride 64
    else if usage_flag == rk_gralloc_usage_stride_align_128
    then gralloc_align byte_stride 128
    else if usage_flag == rk_gralloc_usage_stride_align_256_odd_times
    then odd_times_256 byte_stride
    else byte_stride

-- Minimum byte stride alignment for hardware.
unfoldable pub get_hw_align : Hal → SizeRequest → ℕ
get_hw_align hal request =
    if has_hw_usage request.usage
    then (if is_base_format_used_by_rk_video hal request.format.id
          && (request.is_stride_specified || not (request.usage_flag == 0))
        then 1
        else if request.format.is_yuv
        then 128
        else 64)
    else 0

-- Byte equivalent of `align_w_cpu`.
unfoldable pub get_cpu_align : Hal → SizeRequest → ℕ → ℕ
get_cpu_align hal request plane =
    if has_cpu_usage request.usage
      && not (mali_gralloc_format_internal_bgr_888 hal == request.format.id)
    then at request.format.bpp plane * request.format.align_w_cpu / 8
    else 0

unfoldable pub update_yv12_stride : ℕ → ℕ → ℕ → ℕ
update_yv12_stride plane luma_stride stride_align =
    if plane == 0 then gralloc_align luma_stride (u32 (2 * stride_align)) else luma_stride / 2

-- The stride of a plane that is `alloc_width` pixels wide, aligned for hardware and CPU.
unfoldable pub get_aligned_stride : Hal → SizeRequest → ℕ → ℕ → ℕ
get_aligned_stride hal request plane alloc_width =
    let byte_stride = u32 (alloc_width * at request.format.bpp plane) / 8 in
    let stride_align = lcm (get_hw_align hal request) (get_cpu_align hal request plane) in
    if stride_align == 0
    then byte_stride
    else gralloc_align (u32 (byte_stride * request.format.tile_size)) stride_align
      / request.format.tile_size

-- The stride of an NV12 plane for which a video client gives an alignment.
unfoldable pub get_nv12_stride : SizeRequest → ℕ → ℕ
get_nv12_stride request plane =
    let pixel_stride = specified_pixel_stride request.usage_flag request.size.width in
    let byte_stride = u32 (pixel_stride * at request.format.bpp plane) / 8 in
    if plane == 0 then byte_stride else byte_stride / request.format.hsub

-- The byte stride of an uncompressed plane; `luma` is the stride of plane 0 once it is known.
unfoldable pub get_linear_stride : Hal → SizeRequest → ℕ → ℕ → ℕ → ℕ
get_linear_stride hal request plane alloc_width luma =
    let is_aligned = not (request.usage_flag == 0) in
    let is_nv12 = request.format.id == mali_gralloc_format_internal_nv12 in
    let stride_align = lcm (get_hw_align hal request) (get_cpu_align hal request plane) in
    let aligned =
      if is_aligned && is_nv12
      then get_nv12_stride request plane
      else get_aligned_stride hal request plane alloc_width in
    let shared =
      if (request.format.id == mali_gralloc_format_internal_yv12)
        && has_hw_usage request.usage
        && has_cpu_usage request.usage
      then update_yv12_stride plane (if plane == 0 then aligned else luma) stride_align
      else aligned in
    let specified =
      if is_aligned && not is_nv12
      then specified_byte_stride request.usage_flag shared
      else shared in
    if mali_gralloc_format_internal_nv30 == request.format.id
    then gralloc_align specified 64
    else specified

-- The branch for AFRC.
unfoldable pub get_afrc_stride : SizeRequest → ℕ → ℕ → ℕ
get_afrc_stride request plane alloc_width =
    let afrc = request.alloc_type.afrc in
    let coding_unit_bytes =
      if plane == 0 then afrc.rgba_luma_coding_unit_bytes else afrc.chroma_coding_unit_bytes in
    let paging_tile_stride = alloc_width / at afrc.clump_width plane / afrc.paging_tile_width in
    let paging_tile_byte_stride = u32 (u32 (paging_tile_stride * 64) * coding_unit_bytes) in
    paging_tile_byte_stride / u32 (afrc.paging_tile_height * at afrc.clump_height plane)

-- The branch for block linear; `luma_width` is the width of plane 0.
unfoldable pub get_block_linear_stride : SizeRequest → ℕ → ℕ → ℕ
get_block_linear_stride request plane luma_width =
    let sample_height = if ltb 0 plane then 16 / request.format.vsub else 16 in
    let sample_width = if ltb 0 plane then 16 / request.format.hsub else 16 in
    let bytes_per_block = u32 (sample_height * sample_width * at request.format.bpp plane) / 8 in
    u32 (luma_width / 16 * bytes_per_block) / sample_height

-- The byte stride of a plane of the given width, with plane 0 as it is so far.
unfoldable pub get_byte_stride : Hal → SizeRequest → ℕ → ℕ → PlaneInfo → ℕ
get_byte_stride hal request plane alloc_width luma =
    let primary_type = request.alloc_type.primary_type in
    if type_is_afrc primary_type
    then get_afrc_stride request plane alloc_width
    else if type_is_afbc primary_type
    then u32 (alloc_width * at request.format.bpp_afbc plane) / 8
    else if type_is_block_linear primary_type
    then get_block_linear_stride request plane luma.alloc_width
    else get_linear_stride hal request plane alloc_width luma.byte_stride
