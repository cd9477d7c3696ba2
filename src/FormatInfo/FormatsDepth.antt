-- ===== src/FormatInfo/FormatsDepth.antt =====
-- src/core/format_info.cpp, lines 341 to 380: the properties of the other depth and stencil formats, and of R8.
use rk_hardware_libgralloc_b.Format.{
  mali_gralloc_format_internal_depth_24_stencil_8, mali_gralloc_format_internal_depth_32f,
  mali_gralloc_format_internal_depth_32f_stencil_8, mali_gralloc_format_internal_r8,
  mali_gralloc_format_internal_stencil_8,
}
use rk_hardware_libgralloc_b.FormatInfo.Entry.{FormatInfo, planes}
use rk_hardware_libgralloc_b.Hal.{Hal}
use rk_hardware_libgralloc_b.Prelude.{List, [], false, true, ◌∷◌}
use rk_hardware_libgralloc_b.Prelude.Bits.{any_of}
use rk_hardware_libgralloc_b.Usages.{
  add_universal_usages, gralloc_usage_hw_render, gralloc_usage_hw_texture, standard_usage,
}

module _ (hal : Hal) where
  unfoldable pub formats_depth : List FormatInfo
  formats_depth =
      record {
        id = mali_gralloc_format_internal_depth_24_stencil_8 hal;
        npln = 1;
        ncmp = planes 2 0 0;
        bps = 24;
        bpp_afbc = planes 0 0 0;
        bpp = planes 32 0 0;
        hsub = 0;
        vsub = 0;
        align_w = 1;
        align_h = 1;
        align_w_cpu = 1;
        tile_size = 1;
        has_alpha = false;
        is_rgb = false;
        is_yuv = false;
        afbc = false;
        linear = true;
        yuv_transform = false;
        flex = false;
        block_linear = false;
        afrc = false;
        permitted_usage = add_universal_usages standard_usage;
      }
      ∷ record {
        id = mali_gralloc_format_internal_depth_32f hal;
        npln = 1;
        ncmp = planes 1 0 0;
        bps = 32;
        bpp_afbc = planes 0 0 0;
        bpp = planes 32 0 0;
        hsub = 0;
        vsub = 0;
        align_w = 1;
        align_h = 1;
        align_w_cpu = 1;
        tile_size = 1;
        has_alpha = false;
        is_rgb = false;
        is_yuv = false;
        afbc = false;
        linear = true;
        yuv_transform = false;
        flex = false;
        block_linear = false;
        afrc = false;
        permitted_usage = add_universal_usages standard_usage;
      }
      ∷ record {
        id = mali_gralloc_format_internal_depth_32f_stencil_8 hal;
        npln = 1;
        ncmp = planes 2 0 0;
        bps = 32;
        bpp_afbc = planes 0 0 0;
        bpp = planes 40 0 0;
        hsub = 0;
        vsub = 0;
        align_w = 1;
        align_h = 1;
        align_w_cpu = 1;
        tile_size = 1;
        has_alpha = false;
        is_rgb = false;
        is_yuv = false;
        afbc = false;
        linear = true;
        yuv_transform = false;
        flex = false;
        block_linear = false;
        afrc = false;
        permitted_usage = add_universal_usages standard_usage;
      }
      ∷ record {
        id = mali_gralloc_format_internal_stencil_8 hal;
        npln = 1;
        ncmp = planes 1 0 0;
        bps = 8;
        bpp_afbc = planes 0 0 0;
        bpp = planes 8 0 0;
        hsub = 0;
        vsub = 0;
        align_w = 1;
        align_h = 1;
        align_w_cpu = 1;
        tile_size = 1;
        has_alpha = false;
        is_rgb = false;
        is_yuv = false;
        afbc = false;
        linear = true;
        yuv_transform = false;
        flex = false;
        block_linear = false;
        afrc = false;
        permitted_usage = add_universal_usages standard_usage;
      }
      ∷ record {
        id = mali_gralloc_format_internal_r8;
        npln = 1;
        ncmp = planes 1 0 0;
        bps = 8;
        bpp_afbc = planes 0 0 0;
        bpp = planes 8 0 0;
        hsub = 0;
        vsub = 0;
        align_w = 1;
        align_h = 1;
        align_w_cpu = 1;
        tile_size = 1;
        has_alpha = false;
        is_rgb = true;
        is_yuv = false;
        afbc = false;
        linear = true;
        yuv_transform = false;
        flex = false;
        block_linear = false;
        afrc = false;
        permitted_usage =
            add_universal_usages (any_of (gralloc_usage_hw_texture ∷ gralloc_usage_hw_render ∷ []));
      }
      ∷ []
