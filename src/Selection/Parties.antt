-- ===== src/Selection/Parties.antt =====
-- get_consumers, get_producers and mali_gralloc_adjust_dimensions of src/core/formats.cpp.
use rk_hardware_libgralloc_b.Align.{gralloc_align_int}
use rk_hardware_libgralloc_b.Allocation.Dimensions.{Rect}
use rk_hardware_libgralloc_b.Capabilities.{
  add_ip, contains, mali_gralloc_ip_cam, mali_gralloc_ip_cpu, mali_gralloc_ip_dpu,
  mali_gralloc_ip_dpu_aeu, mali_gralloc_ip_gpu, mali_gralloc_ip_none, mali_gralloc_ip_vpu,
}
use rk_hardware_libgralloc_b.Format.{
  mali_gralloc_format_internal_depth_16, mali_gralloc_format_internal_depth_24,
  mali_gralloc_format_internal_depth_24_stencil_8, mali_gralloc_format_internal_depth_32f,
  mali_gralloc_format_internal_depth_32f_stencil_8, mali_gralloc_format_internal_stencil_8,
}
use rk_hardware_libgralloc_b.Hal.{Hal}
use rk_hardware_libgralloc_b.InternalFormat.{InternalFormat, get_base, is_afbc}
use rk_hardware_libgralloc_b.Prelude.{
  Bool, bit_and, bit_or, if◌then◌else◌, not, ℕ, ◌&&◌, ◌*◌, ◌==◌, ◌||◌,
}
use rk_hardware_libgralloc_b.Prelude.Bits.{complement, has_bits}
use rk_hardware_libgralloc_b.Prelude.Words.{u32}
use rk_hardware_libgralloc_b.Usages.{
  gralloc_usage_decoder, gralloc_usage_gpu_data_buffer, gralloc_usage_hw_camera_write,
  gralloc_usage_hw_composer, gralloc_usage_hw_fb, gralloc_usage_hw_render, gralloc_usage_hw_texture,
  gralloc_usage_hw_video_encoder, gralloc_usage_private_mask, gralloc_usage_protected,
  gralloc_usage_sw_read_mask, gralloc_usage_sw_write_mask, rk_gralloc_usage_alloc_height_align_16,
  rk_gralloc_usage_alloc_height_align_64, rk_gralloc_usage_alloc_height_align_8,
  rk_gralloc_usage_alloc_height_align_mask,
}

-- Usage that plays no part in the derivation is cleared.
unfoldable pub public_usage : ℕ → ℕ
public_usage usage =
    bit_and (bit_and usage (complement 64 gralloc_usage_private_mask))
      (complement 64 gralloc_usage_protected)

-- `if (c) { ips.add(ip); }`
abbrev pub add_if : Bool → ℕ → ℕ → ℕ
add_if c ip ips = if c then add_ip ips ip else ips

unfoldable pub has_all_bits : ℕ → ℕ → Bool
has_all_bits usage flags = bit_and usage flags == flags

unfoldable pub get_consumers : ℕ → ℕ
get_consumers full_usage =
    let usage = public_usage full_usage in
    if usage == gralloc_usage_hw_composer
    then mali_gralloc_ip_dpu
    else add_if (has_bits usage (bit_or gralloc_usage_hw_texture gralloc_usage_gpu_data_buffer))
        mali_gralloc_ip_gpu
        (add_if (has_all_bits usage (bit_or gralloc_usage_hw_texture gralloc_usage_hw_composer))
          mali_gralloc_ip_dpu
          (add_if (has_bits usage gralloc_usage_hw_video_encoder) mali_gralloc_ip_vpu (
            add_if (has_bits usage gralloc_usage_hw_fb) mali_gralloc_ip_dpu (
              add_if (has_bits usage gralloc_usage_sw_read_mask) mali_gralloc_ip_cpu
                mali_gralloc_ip_none))))

unfoldable pub get_producers : ℕ → ℕ
get_producers full_usage =
    let usage = public_usage full_usage in
    if usage == gralloc_usage_hw_composer
    then mali_gralloc_ip_dpu_aeu
    else add_if (has_all_bits usage gralloc_usage_decoder) mali_gralloc_ip_vpu (
        add_if (has_bits usage gralloc_usage_hw_camera_write) mali_gralloc_ip_cam (
          add_if (has_bits usage (bit_or gralloc_usage_hw_render gralloc_usage_gpu_data_buffer))
            mali_gralloc_ip_gpu
            (add_if
              (not (has_all_bits usage gralloc_usage_decoder)
                && has_all_bits usage
                    (bit_or gralloc_usage_hw_composer gralloc_usage_hw_video_encoder))
              mali_gralloc_ip_dpu
              (add_if (has_bits usage gralloc_usage_sw_write_mask) mali_gralloc_ip_cpu
                mali_gralloc_ip_none))))

-- The height that the usage asks for.
unfoldable pub align_alloc_height : ℕ → ℕ → ℕ
align_alloc_height usage height =
    let flag = bit_and usage rk_gralloc_usage_alloc_height_align_mask in
    if flag == rk_gralloc_usage_alloc_height_align_8
    then gralloc_align_int height 8
    else if flag == rk_gralloc_usage_alloc_height_align_16
    then gralloc_align_int height 16
    else if flag == rk_gralloc_usage_alloc_height_align_64
    then gralloc_align_int height 64
    else height

unfoldable pub is_depth_or_stencil : Hal → ℕ → Bool
is_depth_or_stencil hal base_format =
    (base_format == mali_gralloc_format_internal_stencil_8 hal)
    || (base_format == mali_gralloc_format_internal_depth_16 hal)
    || (base_format == mali_gralloc_format_internal_depth_24 hal)
    || (base_format == mali_gralloc_format_internal_depth_24_stencil_8 hal)
    || (base_format == mali_gralloc_format_internal_depth_32f hal)
    || (base_format == mali_gralloc_format_internal_depth_32f_stencil_8 hal)

-- The width and the height, two `int`, after the adjustment.
unfoldable pub mali_gralloc_adjust_dimensions : Hal → InternalFormat → ℕ → Rect → Rect
mali_gralloc_adjust_dimensions hal alloc_format usage size =
    let aligned = align_alloc_height usage size.height in
    let height =
      if is_depth_or_stencil hal (get_base alloc_format) then u32 (aligned * 2) else aligned in
    if contains (get_producers usage) mali_gralloc_ip_gpu && is_afbc alloc_format
    then record { width = gralloc_align_int size.width 16; height = gralloc_align_int height 16 }
    else record { width = size.width; height = height }
