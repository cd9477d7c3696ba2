-- ===== src/Tests/Derivation.antt =====
-- An example of a derivation: its format, its type, its planes and its size.
use rk_hardware_libgralloc_b.Align.{gralloc_align}
use rk_hardware_libgralloc_b.AllocType.{AllocType, get_afbc_alloc_type, get_alloc_type}
use rk_hardware_libgralloc_b.Allocation.Derive.{
  BufferDescriptor, add_layers, adjust_rk_video_buffer_size, derive_sizes,
  mali_gralloc_derive_format_and_size, select_descriptor_format, set_layer_sizes, set_sizes,
  size_needed_by_rk_video, size_request, success, validate_format, whole_usage,
}
use rk_hardware_libgralloc_b.Allocation.Derived.{
  HasRoom, mali_gralloc_derive_format_and_size-HasRoom, plane_bytes,
}
use rk_hardware_libgralloc_b.Allocation.Dimensions.{
  get_pixel_align, get_pixel_w_h, get_sub_sampled_h, get_sub_sampled_w, max_int, max_int3,
}
use rk_hardware_libgralloc_b.Allocation.Lcm.{gcd, gcd_loop, lcm}
use rk_hardware_libgralloc_b.Allocation.Size.{
  align_start, calc_allocation_size, calc_plane, calc_planes, get_body_size, get_header_size,
  get_pixel_stride, get_plane_info, get_plane_size,
}
use rk_hardware_libgralloc_b.Allocation.Stride.{
  PlaneInfo, SizeRequest, get_aligned_stride, get_byte_stride, get_cpu_align, get_hw_align,
  get_linear_stride, has_cpu_usage, has_hw_usage, is_base_format_used_by_rk_video, odd_times_256,
  specified_byte_stride, specified_pixel_stride,
}
use rk_hardware_libgralloc_b.Allocation.Validated.{validate_format-afbc}
use rk_hardware_libgralloc_b.Format.{
  extension_bit, mali_gralloc_format_get_base, mali_gralloc_format_get_modifiers,
  mali_gralloc_format_internal_nv12,
}
use rk_hardware_libgralloc_b.FormatInfo.{
  find_format, formats, get_base_info, get_format_info, get_internal_format, hal_to_internal_format,
  map_hal_format, planes,
}
use rk_hardware_libgralloc_b.Hal.{sample_hal}
use rk_hardware_libgralloc_b.InternalFormat.{
  InternalFormat, from_private, get_afbc_32x8, get_afbc_64x4, get_afbc_tiled_headers, get_modifier,
  internal_format, invalid, is_afbc,
}
use rk_hardware_libgralloc_b.Prelude.{
  false, ltb, ltb→lt, refl, some, true, ℕ, ◌&&◌, ◌*◌, ◌+◌, ◌^◌, ◌≡◌, ◌≢◌, ◌≤◌, ◌⊎◌,
}
use rk_hardware_libgralloc_b.Prelude.Bits.{all_below, all_below-apply}
use rk_hardware_libgralloc_b.Prelude.Words.{int_div, int_lt, sign_extend}
use rk_hardware_libgralloc_b.Selection.Parties.{
  align_alloc_height, get_consumers, get_producers, has_all_bits, is_depth_or_stencil,
  mali_gralloc_adjust_dimensions, public_usage,
}
use rk_hardware_libgralloc_b.Selection.Rk.{
  FbSize, RkProperties, get_fb_size, is_rk_ext_hal_format, is_uncompressed_client_format,
  may_compress_client_layer, rk3588, rk_gralloc_select_format, rk_internal_format, rk_map_format,
  select_client_layer, should_sf_client_layer_use_afbc_format_by_size, touches_cpu,
}
use rk_hardware_libgralloc_b.Tests.Inputs.{no_type, nv12_info, rgba_found, rgba_info, type_of}
use rk_hardware_libgralloc_b.Usages.{
  get_usage_flag_for_stride_alignment, is_stride_alignment_specified,
}

abbrev board : RkProperties
board = record {
  platform = rk3588;
  no_afbc_for_sf_client_layer = false;
  no_afbc_for_fb_target_layer = false;
  not_to_use_non_afbc_for_small_buffers = false;
}

abbrev no_plane : PlaneInfo
no_plane = record { offset = 0; byte_stride = 0; alloc_width = 0; alloc_height = 0 }

-- Three layers of RGBA that a CPU reads and writes.
abbrev cpu_layers : BufferDescriptor
cpu_layers = record {
  width = 1920;
  height = 1080;
  producer_usage = 0x33;
  consumer_usage = 0x33;
  hal_format = 1;
  layer_count = 3;
  size = 0;
  pixel_stride = 0;
  alloc_format = invalid;
  plane_info = planes no_plane no_plane no_plane;
}

abbrev cpu_format : InternalFormat
cpu_format = record { m_format = 1; m_modifiers = 0 }

abbrev no_fb : FbSize
no_fb = record { s_fb_size = 0; property = 0 }

abbrev cpu_derived : BufferDescriptor
cpu_derived = (mali_gralloc_derive_format_and_size sample_hal board no_fb cpu_layers).0.1

abbrev cpu_chosen : BufferDescriptor
cpu_chosen = record cpu_layers { alloc_format = cpu_format }

abbrev cpu_usage : ℕ
cpu_usage = whole_usage sample_hal board cpu_layers

abbrev cpu_request : SizeRequest
cpu_request = size_request sample_hal board rgba_info no_type cpu_usage cpu_chosen

-- What the derivation comes to for it: an uncompressed format, a type, success, and a plane of
-- less than 2 ^ 29 bytes.

-- What the derivation comes to for it: an uncompressed format, a type, success, and a plane of
-- less than 2 ^ 29 bytes.

-- What the derivation comes to for it: an uncompressed format, a type, success, and a plane of
-- less than 2 ^ 29 bytes.
cpu_facts :
    ((select_descriptor_format sample_hal board no_fb cpu_layers).0 ≡ cpu_format)
    × (get_alloc_type sample_hal cpu_format cpu_usage ≡ some no_type)
    × ((mali_gralloc_derive_format_and_size sample_hal board no_fb cpu_layers).0.0 ≡ success)
    × (all_below 1 (λ j. ltb (plane_bytes cpu_request cpu_derived j) (2 ^ 29)) ≡ true)
    × (ltb
          (((set_layer_sizes sample_hal board rgba_info no_type cpu_usage cpu_chosen).size + 4096)
            * 3)
          (2 ^ 64)
        ≡ true)
    × (rgba_info.npln ≡ 1)
unfolding select_descriptor_format rk_gralloc_select_format rk_internal_format rk_map_format
    is_rk_ext_hal_format get_internal_format map_hal_format hal_to_internal_format get_format_info
    find_format formats select_client_layer get_fb_size may_compress_client_layer touches_cpu
    should_sf_client_layer_use_afbc_format_by_size is_uncompressed_client_format has_all_bits
    from_private internal_format mali_gralloc_format_get_base mali_gralloc_format_get_modifiers
    whole_usage int_lt int_div get_alloc_type get_modifier extension_bit
    mali_gralloc_derive_format_and_size derive_sizes validate_format set_sizes set_layer_sizes
    size_request add_layers adjust_rk_video_buffer_size size_needed_by_rk_video calc_allocation_size
    calc_planes calc_plane get_plane_info get_plane_size get_body_size get_header_size align_start
    get_pixel_stride get_pixel_w_h get_sub_sampled_w get_sub_sampled_h get_pixel_align max_int3
    max_int get_byte_stride get_linear_stride get_aligned_stride get_hw_align get_cpu_align
    has_cpu_usage has_hw_usage is_base_format_used_by_rk_video lcm gcd gcd_loop gralloc_align
    sign_extend mali_gralloc_adjust_dimensions align_alloc_height is_depth_or_stencil public_usage
    get_producers get_consumers get_usage_flag_for_stride_alignment is_stride_alignment_specified
    specified_byte_stride specified_pixel_stride odd_times_256 all_below rgba_info
cpu_facts = (refl, refl, refl, refl, refl, refl)

mali_gralloc_derive_format_and_size-HasRoom_example : HasRoom cpu_request cpu_derived 3
unfolding mali_gralloc_format_get_base
mali_gralloc_derive_format_and_size-HasRoom_example =
    mali_gralloc_derive_format_and_size-HasRoom sample_hal board no_fb cpu_layers cpu_format
      rgba_info no_type cpu_facts.0 rgba_found cpu_facts.1 cpu_facts.2
      (λ j lt. ltb→lt _ _ (all_below-apply _ 1 j (rw cpu_facts.5 at lt) cpu_facts.3))
      (ltb→lt _ _ cpu_facts.4)

-- NV12 on two planes with tiled headers and extra-wide blocks.
abbrev planar_afbc : InternalFormat
planar_afbc = record { m_format = mali_gralloc_format_internal_nv12; m_modifiers = 0x610000 }

abbrev planar_type : AllocType
planar_type = type_of (get_alloc_type sample_hal planar_afbc 0)

planar_facts :
    (get_base_info sample_hal planar_afbc ≡ some nv12_info)
    × (get_alloc_type sample_hal planar_afbc 0 ≡ some planar_type)
    × (validate_format sample_hal nv12_info planar_type cpu_layers ≡ true)
    × (is_afbc planar_afbc ≡ true)
unfolding mali_gralloc_format_get_base get_alloc_type get_afbc_alloc_type get_modifier extension_bit
    get_format_info find_format formats nv12_info validate_format
planar_facts = (refl, refl, refl, refl)

validate_format-afbc_example :
    (nv12_info.afbc ≡ true)
    × (planar_type.is_multi_plane ≡ ltb 1 nv12_info.npln)
    × ((nv12_info.npln ≤ 1)
        ⊎ ((get_afbc_tiled_headers planar_afbc ≡ true) × (get_afbc_64x4 planar_afbc ≡ true)))
    × ((nv12_info.npln ≢ 1) ⊎ ((get_afbc_32x8 planar_afbc && get_afbc_64x4 planar_afbc) ≡ false))
    × ((get_afbc_64x4 planar_afbc ≡ false) ⊎ (get_afbc_tiled_headers planar_afbc ≡ true))
validate_format-afbc_example =
    validate_format-afbc sample_hal planar_afbc 0 nv12_info planar_type cpu_layers planar_facts.0
      planar_facts.3 planar_facts.1 planar_facts.2
