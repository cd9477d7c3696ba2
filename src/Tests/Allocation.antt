-- ===== src/Tests/Allocation.antt =====
-- Examples of the allocation of an NV12 buffer, linear and compressed.
use rk_hardware_libgralloc_b.Align.{IsAlignment, gralloc_align}
use rk_hardware_libgralloc_b.AllocType.{AllocType, base_afbc}
use rk_hardware_libgralloc_b.Allocate.Siting.{
  chroma_siting_of_format, chroma_siting_of_usage, get_format_chroma_siting,
  siting_cosited_horizontal, siting_interstitial,
}
use rk_hardware_libgralloc_b.Allocation.AfbcHeader.{
  header_body_offset, init_afbc, init_afbc-get_header_size,
}
use rk_hardware_libgralloc_b.Allocation.Coverage.{get_pixel_w_h-covers, plane_hsub, plane_vsub}
use rk_hardware_libgralloc_b.Allocation.Derive.{
  BufferDescriptor, add_layers, adjust_rk_video_buffer_size,
}
use rk_hardware_libgralloc_b.Allocation.Dimensions.{
  Rect, get_pixel_align, get_pixel_w_h, get_plane_sb_size, get_sub_sampled_h, get_sub_sampled_w,
  max_int, max_int3,
}
use rk_hardware_libgralloc_b.Allocation.Layers.{
  add_layers-IsAlignment, adjust_rk_video_buffer_size-grows, layer_alignment,
}
use rk_hardware_libgralloc_b.Allocation.Lcm.{Divides, IsGcd, gcd, gcd_loop, lcm, lcm_lem}
use rk_hardware_libgralloc_b.Allocation.Placement.{IsPlaced, calc_allocation_size-IsPlaced}
use rk_hardware_libgralloc_b.Allocation.Round.{has_alignments, space}
use rk_hardware_libgralloc_b.Allocation.Size.{
  align_start, calc_allocation_size, calc_plane, calc_planes, get_body_size, get_header_size,
  get_pixel_stride, get_plane_info, get_plane_size, get_sb_num,
}
use rk_hardware_libgralloc_b.Allocation.Stride.{
  PlaneInfo, SizeRequest, get_aligned_stride, get_byte_stride, get_cpu_align, get_hw_align,
  get_linear_stride, has_cpu_usage, has_hw_usage, is_base_format_used_by_rk_video,
  update_yv12_stride,
}
use rk_hardware_libgralloc_b.Allocation.Superblocks.{get_pixel_w_h-superblocks}
use rk_hardware_libgralloc_b.Allocation.Yv12.{update_yv12_stride-chroma}
use rk_hardware_libgralloc_b.Capabilities.{Platform}
use rk_hardware_libgralloc_b.Format.{
  extension_bit, mali_gralloc_format_get_base, mali_gralloc_format_internal_nv12,
}
use rk_hardware_libgralloc_b.FormatInfo.{Planes, find_format, formats, get_format_info, planes}
use rk_hardware_libgralloc_b.FormatInfo.WellFormed.{has_geometry, implies, is_power_of_two}
use rk_hardware_libgralloc_b.Hal.{sample_hal}
use rk_hardware_libgralloc_b.InternalFormat.{
  InternalFormat, get_afbc_tiled_headers, get_modifier, make_afbc, set_afbc_tiled_headers,
  set_modifier,
}
use rk_hardware_libgralloc_b.Prelude.{
  arith, false, inr, length, ltb, ltb→lt, none, refl, true, ℕ, ◌*◌, ◌<◌, ◌^◌, ◌≡◌, ◌≤◌,
}
use rk_hardware_libgralloc_b.Prelude.Bits.{all_below, all_below-apply}
use rk_hardware_libgralloc_b.Prelude.Words.{int_lt, sign_extend}
use rk_hardware_libgralloc_b.Tests.Inputs.{no_type, nv12_found, nv12_info}
use rk_hardware_libgralloc_b.Usages.{mali_gralloc_usage_chroma_siting_center_y}

lcm_lem_example :
    Divides 128 (lcm 128 48)
    × Divides 48 (lcm 128 48)
    × (0 < lcm 128 48)
    × IsGcd (gcd 128 48) 128 48
    × (lcm 128 48 * gcd 128 48 ≡ 128 * 48)
lcm_lem_example = lcm_lem 128 48 (omega arith) (omega arith) (omega arith)

abbrev video_size : Rect
video_size = record { width = 1920; height = 1080 }

abbrev no_plane : PlaneInfo
no_plane = record { offset = 0; byte_stride = 0; alloc_width = 0; alloc_height = 0 }

abbrev video_request : SizeRequest
video_request = record {
  size = video_size;
  alloc_type = record no_type { is_multi_plane = true };
  format = nv12_info;
  usage = 0x333;
  is_stride_specified = false;
  usage_flag = 0;
}

abbrev no_planes : Planes PlaneInfo
no_planes = planes no_plane no_plane no_plane

video_fits :
    all_below 2 (λ j.
      ltb
        (space video_request (calc_allocation_size sample_hal video_request no_planes 0) j)
        (2 ^ 29))
    ≡ true
unfolding all_below space calc_allocation_size calc_planes calc_plane get_plane_info get_plane_size
    get_body_size get_header_size get_pixel_w_h get_sub_sampled_w get_sub_sampled_h get_pixel_align
    get_byte_stride get_linear_stride get_aligned_stride get_hw_align get_cpu_align has_cpu_usage
    has_hw_usage is_base_format_used_by_rk_video lcm gcd gcd_loop gralloc_align max_int3 max_int
    int_lt align_start sign_extend get_pixel_stride nv12_info get_format_info find_format formats
video_fits = refl

calc_allocation_size-IsPlaced_example :
    IsPlaced video_request 2 (calc_allocation_size sample_hal video_request no_planes 0)
unfolding nv12_info get_format_info find_format formats has_alignments
calc_allocation_size-IsPlaced_example =
    calc_allocation_size-IsPlaced sample_hal video_request no_planes 0 (omega arith) refl
      (λ j lt. ltb→lt _ _ (all_below-apply _ 2 j lt video_fits))

get_pixel_w_h-covers_example :
    (1920 ≤ (get_pixel_w_h nv12_info no_type 1 true video_size).width * plane_hsub nv12_info 1)
    × (1080 ≤ (get_pixel_w_h nv12_info no_type 1 true video_size).height * plane_vsub nv12_info 1)
    × IsAlignment
        (get_sub_sampled_w nv12_info 1 1920)
        (max_int3 1 (get_pixel_align nv12_info no_type 1 true).width nv12_info.tile_size)
        (get_pixel_w_h nv12_info no_type 1 true video_size).width
    × IsAlignment
        (get_sub_sampled_h nv12_info 1 1080)
        (max_int3 1 (get_pixel_align nv12_info no_type 1 true).height nv12_info.tile_size)
        (get_pixel_w_h nv12_info no_type 1 true video_size).height
unfolding nv12_info get_format_info find_format formats has_geometry is_power_of_two implies
    get_pixel_align
get_pixel_w_h-covers_example =
    get_pixel_w_h-covers nv12_info no_type 1 true video_size refl (inr refl) (omega arith)
      (omega arith) (omega arith) (omega arith) (omega arith)

abbrev tiled_type : AllocType
tiled_type = record no_type { primary_type = base_afbc; is_multi_plane = true; is_tiled = true }

get_pixel_w_h-superblocks_example :
    Divides
      (get_plane_sb_size tiled_type 1).width
      (get_pixel_w_h nv12_info tiled_type 1 false video_size).width
    × Divides
        (get_plane_sb_size tiled_type 1).height
        (get_pixel_w_h nv12_info tiled_type 1 false video_size).height
    × ((get_plane_sb_size tiled_type 1).width * (get_plane_sb_size tiled_type 1).height ≡ 256)
unfolding nv12_info get_format_info find_format formats
get_pixel_w_h-superblocks_example =
    get_pixel_w_h-superblocks sample_hal mali_gralloc_format_internal_nv12 nv12_info tiled_type 1
      video_size nv12_found refl refl (inr refl) (omega arith) (omega arith) (omega arith)

abbrev tiled_request : SizeRequest
tiled_request = record video_request { alloc_type = tiled_type }

abbrev luma_plane : PlaneInfo
luma_plane = record { offset = 0; byte_stride = 0; alloc_width = 1920; alloc_height = 1088 }

abbrev tiled_format : InternalFormat
tiled_format =
    set_afbc_tiled_headers
      (make_afbc (record { m_format = mali_gralloc_format_internal_nv12; m_modifiers = 0 })) true

tiled_format_is_tiled : true ≡ get_afbc_tiled_headers tiled_format
unfolding get_modifier set_modifier extension_bit
tiled_format_is_tiled = refl

abbrev all_features : Platform
all_features = record {
  gpu = λ feature permission. true;
  dpu = none;
  dpu_aeu = none;
  vpu = none;
  cam = none;
}

init_afbc-get_header_size_example :
    (length (init_afbc sample_hal all_features tiled_format true 1920 1088)
      ≡ 4 * get_sb_num luma_plane)
    × (4 * length (init_afbc sample_hal all_features tiled_format true 1920 1088)
        ≤ get_header_size tiled_request luma_plane)
    × (header_body_offset tiled_format 1920 1088 ≡ get_header_size tiled_request luma_plane)
init_afbc-get_header_size_example =
    init_afbc-get_header_size sample_hal all_features tiled_request luma_plane tiled_format true
      refl tiled_format_is_tiled (omega arith)

abbrev layered : BufferDescriptor
layered = record {
  width = 1920;
  height = 1080;
  producer_usage = 0x200;
  consumer_usage = 0x100;
  hal_format = 1;
  layer_count = 3;
  size = 10000;
  pixel_stride = 0;
  alloc_format = record { m_format = 1; m_modifiers = 0x10000 };
  plane_info = no_planes;
}

add_layers-IsAlignment_example :
    (layer : ℕ) × IsAlignment layered.size (layer_alignment layered.alloc_format) layer
    × ((add_layers layered).size ≡ layer * layered.layer_count)
add_layers-IsAlignment_example = add_layers-IsAlignment layered (omega arith) (omega arith)

adjust_rk_video_buffer_size-grows_example :
    (layered.size ≤ (adjust_rk_video_buffer_size sample_hal layered nv12_info).size)
    × (record (adjust_rk_video_buffer_size sample_hal layered nv12_info) { size = layered.size }
        ≡ layered)
adjust_rk_video_buffer_size-grows_example =
    adjust_rk_video_buffer_size-grows sample_hal layered nv12_info

update_yv12_stride-chroma_example :
    Divides 128 (update_yv12_stride 1 (update_yv12_stride 0 1920 128) 128)
    × (update_yv12_stride 1 (update_yv12_stride 0 1920 128) 128 * 2 ≡ update_yv12_stride 0 1920 128)
    × (1920 ≤ update_yv12_stride 0 1920 128)
update_yv12_stride-chroma_example =
    update_yv12_stride-chroma 1 1920 128 (omega arith) (omega arith) (omega arith)

-- The siting that both low bits of the usage ask for, and the default of NV12.
center_y_siting :
    get_format_chroma_siting sample_hal
      (record { m_format = mali_gralloc_format_internal_nv12; m_modifiers = 0 })
      mali_gralloc_usage_chroma_siting_center_y
    ≡ siting_cosited_horizontal
unfolding get_format_chroma_siting chroma_siting_of_usage get_format_info find_format
    mali_gralloc_format_get_base formats
center_y_siting = refl

nv12_siting :
    get_format_chroma_siting sample_hal
      (record { m_format = mali_gralloc_format_internal_nv12; m_modifiers = 0 })
      0
    ≡ siting_interstitial
unfolding get_format_chroma_siting chroma_siting_of_format get_format_info find_format
    mali_gralloc_format_get_base formats
nv12_siting = refl
