-- ===== src/Tests/Selection.antt =====
-- Examples of the choice of a format.
use rk_hardware_libgralloc_b.AllocType.{get_afbc_alloc_type, get_alloc_type}
use rk_hardware_libgralloc_b.Allocation.Dimensions.{Rect}
use rk_hardware_libgralloc_b.Capabilities.{
  Platform, caps_supports_feature_cpu, consumers_support, ip_allows, ip_support_feature, is_present,
  mali_gralloc_ip_cpu, mali_gralloc_ip_gpu, producers_support,
}
use rk_hardware_libgralloc_b.Format.{
  extension_bit, mali_gralloc_format_get_base, mali_gralloc_format_get_modifiers,
  mali_gralloc_format_internal_depth_16,
}
use rk_hardware_libgralloc_b.FormatInfo.{
  base_info, find_format, find_ip_support, formats, formats_ip_support, get_format_info,
  get_format_ip_support, is_same_or_components_reordered, total_components,
}
use rk_hardware_libgralloc_b.Hal.{sample_hal}
use rk_hardware_libgralloc_b.InternalFormat.{
  InternalFormat, clear_modifiers, from_android, get_base, get_modifier, internal_format, invalid,
  ok, set_afrc_chroma_coding_size, set_afrc_luma_coding_size, set_coding_size, set_modifier,
}
use rk_hardware_libgralloc_b.Prelude.{
  arith, false, inl, inr, none, refl, some, true, ℕ, ◌+◌, ◌^◌, ◌≡◌, ◌≤◌, ◌⊎◌,
}
use rk_hardware_libgralloc_b.Selection.Adjustment.{mali_gralloc_adjust_dimensions-covers}
use rk_hardware_libgralloc_b.Selection.Best.{
  choose_best, find_best, get_best_format, get_format_flags, get_supported_format, grade_candidate,
  grade_supported, is_allocatable, keep_graded, take_candidate, try_afbc, try_afrc, try_others,
}
use rk_hardware_libgralloc_b.Selection.Choice.{Among}
use rk_hardware_libgralloc_b.Selection.Compression.{
  rk_gralloc_select_format-cpu, save_fb_size-first,
}
use rk_hardware_libgralloc_b.Selection.Grade.{
  add_grades, comparable_components, grade_format, grade_of, is_format_compatible,
}
use rk_hardware_libgralloc_b.Selection.Modifiers.{
  avoids_afbc, coding_size_of_usage, enables_split_block, get_afbc_format, get_afrc_format,
  get_bl_format, set_afbc_blocks, set_afbc_layout, set_afrc_coding_sizes, validate_afbc_format,
  validate_basic, validate_double_body, validate_feature, validate_rgb_565, validate_sparse,
  validate_split_block, validate_subsampled,
}
use rk_hardware_libgralloc_b.Selection.Optimal.{
  IsCandidate, get_best_format-best, get_best_format-cpu,
}
use rk_hardware_libgralloc_b.Selection.Parties.{mali_gralloc_adjust_dimensions}
use rk_hardware_libgralloc_b.Selection.Rk.{
  RkProperties, get_fb_size, rk356x, rk_gralloc_select_format, rk_internal_format, save_fb_size,
  touches_cpu,
}
use rk_hardware_libgralloc_b.Selection.Support.{
  ip_supports_base_format, is_afbc_multiplane_supported, is_format_supported, is_subsampled_yuv,
  restrict_afbc, restrict_afrc, restrict_bl_yuv, restrict_format, usage_supports_base_format,
}
use rk_hardware_libgralloc_b.Tests.Inputs.{format_of, rgba_found, rgba_info}
use rk_hardware_libgralloc_b.Usages.{gralloc_usage_is_frontbuffer, gralloc_usage_is_no_afbc}

abbrev sample_platform : Platform
sample_platform = record {
  gpu = λ feature permission. true;
  dpu = none;
  dpu_aeu = none;
  vpu = none;
  cam = none;
}

abbrev rk_board : RkProperties
rk_board = record {
  platform = rk356x;
  no_afbc_for_sf_client_layer = false;
  no_afbc_for_fb_target_layer = false;
  not_to_use_non_afbc_for_small_buffers = false;
}

rk_gralloc_select_format-cpu_example :
    ((rk_gralloc_select_format sample_hal rk_board
        (record { s_fb_size = 0; property = 0 })
        1
        0x133
        2073600).0.m_format
      ≡ mali_gralloc_format_get_base (rk_internal_format sample_hal 1 0x133))
    × ((rk_gralloc_select_format sample_hal rk_board
          (record { s_fb_size = 0; property = 0 })
          1
          0x133
          2073600).0.m_modifiers
        ≡ mali_gralloc_format_get_modifiers (rk_internal_format sample_hal 1 0x133))
unfolding touches_cpu
rk_gralloc_select_format-cpu_example =
    rk_gralloc_select_format-cpu sample_hal rk_board (record { s_fb_size = 0; property = 0 }) 1
      0x133 2073600 refl

save_fb_size-first_example :
    (get_fb_size
      (save_fb_size (save_fb_size (record { s_fb_size = 0; property = 0 }) 2073600) 100)).0
    ≡ (get_fb_size (save_fb_size (record { s_fb_size = 0; property = 0 }) 2073600)).0
save_fb_size-first_example =
    save_fb_size-first (record { s_fb_size = 0; property = 0 }) 2073600 100 (omega arith)

-- RGBA_8888 for the GPU, with a GPU that supports every feature.
unfoldable gpu_format : InternalFormat
gpu_format =
    format_of
      (get_best_format sample_hal sample_platform 1 0x300 mali_gralloc_ip_gpu mali_gralloc_ip_gpu)

gpu_run :
    get_best_format sample_hal sample_platform 1 0x300 mali_gralloc_ip_gpu mali_gralloc_ip_gpu
    ≡ ok gpu_format
unfolding gpu_format get_best_format find_best take_candidate choose_best grade_candidate
    keep_graded grade_supported get_supported_format get_format_flags try_afrc try_afbc try_others
    is_allocatable is_format_supported restrict_afbc restrict_afrc restrict_bl_yuv restrict_format
    is_afbc_multiplane_supported ip_supports_base_format usage_supports_base_format
    ip_support_feature ip_allows caps_supports_feature_cpu producers_support consumers_support
    is_present get_afrc_format set_afrc_coding_sizes coding_size_of_usage get_afbc_format
    avoids_afbc set_afbc_layout set_afbc_blocks enables_split_block validate_afbc_format
    validate_double_body validate_subsampled validate_split_block validate_rgb_565 validate_basic
    validate_feature validate_sparse is_subsampled_yuv get_bl_format is_format_compatible
    comparable_components total_components is_same_or_components_reordered grade_format grade_of
    add_grades base_info from_android internal_format get_modifier set_modifier clear_modifiers
    set_afrc_luma_coding_size set_afrc_chroma_coding_size set_coding_size get_alloc_type
    get_afbc_alloc_type get_format_info get_format_ip_support find_format find_ip_support formats
    formats_ip_support mali_gralloc_format_get_base mali_gralloc_format_get_modifiers extension_bit
    gralloc_usage_is_frontbuffer gralloc_usage_is_no_afbc
gpu_run = refl

gpu_graded :
    grade_candidate sample_hal sample_platform rgba_info 1 0x300 mali_gralloc_ip_gpu
      mali_gralloc_ip_gpu rgba_info
    ≡ ok (some (5, gpu_format))
unfolding rgba_info gpu_format get_best_format find_best take_candidate choose_best grade_candidate
    keep_graded grade_supported get_supported_format get_format_flags try_afrc try_afbc try_others
    is_allocatable is_format_supported restrict_afbc restrict_afrc restrict_bl_yuv restrict_format
    is_afbc_multiplane_supported ip_supports_base_format usage_supports_base_format
    ip_support_feature ip_allows caps_supports_feature_cpu producers_support consumers_support
    is_present get_afrc_format set_afrc_coding_sizes coding_size_of_usage get_afbc_format
    avoids_afbc set_afbc_layout set_afbc_blocks enables_split_block validate_afbc_format
    validate_double_body validate_subsampled validate_split_block validate_rgb_565 validate_basic
    validate_feature validate_sparse is_subsampled_yuv get_bl_format is_format_compatible
    comparable_components total_components is_same_or_components_reordered grade_format grade_of
    add_grades base_info from_android internal_format get_modifier set_modifier clear_modifiers
    set_afrc_luma_coding_size set_afrc_chroma_coding_size set_coding_size get_alloc_type
    get_afbc_alloc_type get_format_info get_format_ip_support find_format find_ip_support formats
    formats_ip_support mali_gralloc_format_get_base mali_gralloc_format_get_modifiers extension_bit
    gralloc_usage_is_frontbuffer gralloc_usage_is_no_afbc
gpu_graded = refl

gpu-IsCandidate :
    IsCandidate sample_hal sample_platform rgba_info 1 0x300 mali_gralloc_ip_gpu mali_gralloc_ip_gpu
      5 gpu_format
unfolding Among formats rgba_info get_format_info find_format
gpu-IsCandidate = record {
  source = rgba_info;
  listed = inr (inr (inr (inl refl)));
  graded = gpu_graded;
}

get_best_format-best_example :
    (best : ℕ) × (5 ≤ best)
    × IsCandidate sample_hal sample_platform rgba_info 1 0x300 mali_gralloc_ip_gpu
        mali_gralloc_ip_gpu best gpu_format
get_best_format-best_example =
    get_best_format-best sample_hal sample_platform 1 0x300 mali_gralloc_ip_gpu mali_gralloc_ip_gpu
      rgba_info gpu_format 5 gpu_format rgba_found refl refl gpu_run gpu-IsCandidate

-- The same buffer for the CPU.
unfoldable cpu_format : InternalFormat
cpu_format =
    format_of
      (get_best_format sample_hal sample_platform 1 0x33 mali_gralloc_ip_cpu mali_gralloc_ip_cpu)

cpu_run :
    get_best_format sample_hal sample_platform 1 0x33 mali_gralloc_ip_cpu mali_gralloc_ip_cpu
    ≡ ok cpu_format
unfolding cpu_format get_best_format find_best take_candidate choose_best grade_candidate
    keep_graded grade_supported get_supported_format get_format_flags try_afrc try_afbc try_others
    is_allocatable is_format_supported restrict_afbc restrict_afrc restrict_bl_yuv restrict_format
    is_afbc_multiplane_supported ip_supports_base_format usage_supports_base_format
    ip_support_feature ip_allows caps_supports_feature_cpu producers_support consumers_support
    is_present get_afrc_format set_afrc_coding_sizes coding_size_of_usage get_afbc_format
    avoids_afbc set_afbc_layout set_afbc_blocks enables_split_block validate_afbc_format
    validate_double_body validate_subsampled validate_split_block validate_rgb_565 validate_basic
    validate_feature validate_sparse is_subsampled_yuv get_bl_format is_format_compatible
    comparable_components total_components is_same_or_components_reordered grade_format grade_of
    add_grades base_info from_android internal_format get_modifier set_modifier clear_modifiers
    set_afrc_luma_coding_size set_afrc_chroma_coding_size set_coding_size get_alloc_type
    get_afbc_alloc_type get_format_info get_format_ip_support find_format find_ip_support formats
    formats_ip_support mali_gralloc_format_get_base mali_gralloc_format_get_modifiers extension_bit
    gralloc_usage_is_frontbuffer gralloc_usage_is_no_afbc
cpu_run = refl

get_best_format-cpu_example :
    (cpu_format ≡ invalid)
    ⊎ ((get_base cpu_format ≡ 1)
        × (grade : ℕ) × IsCandidate sample_hal sample_platform rgba_info 1 0x33 mali_gralloc_ip_cpu
            mali_gralloc_ip_cpu grade cpu_format)
get_best_format-cpu_example =
    get_best_format-cpu sample_hal sample_platform 1 0x33 mali_gralloc_ip_cpu mali_gralloc_ip_cpu
      rgba_info cpu_format rgba_found refl cpu_run

abbrev depth_format : InternalFormat
depth_format = record {
  m_format = mali_gralloc_format_internal_depth_16 sample_hal;
  m_modifiers = 0x10000;
}

abbrev depth_size : Rect
depth_size = record { width = 1920; height = 1080 }

mali_gralloc_adjust_dimensions-covers_example :
    (1920 ≤ (mali_gralloc_adjust_dimensions sample_hal depth_format 0x200 depth_size).width)
    × (1080 ≤ (mali_gralloc_adjust_dimensions sample_hal depth_format 0x200 depth_size).height)
    × ((mali_gralloc_adjust_dimensions sample_hal depth_format 0x200 depth_size).width
        ≤ 2 ^ 30 + 2 ^ 11)
    × ((mali_gralloc_adjust_dimensions sample_hal depth_format 0x200 depth_size).height
        ≤ 2 ^ 30 + 2 ^ 11)
mali_gralloc_adjust_dimensions-covers_example =
    mali_gralloc_adjust_dimensions-covers sample_hal depth_format 0x200 depth_size (omega arith)
      (omega arith)
