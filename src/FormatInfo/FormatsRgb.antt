-- ===== src/FormatInfo/FormatsRgb.antt =====
-- src/core/format_info.cpp, lines 35 to 105: the properties of the RGB formats.
use rk_hardware_libgralloc_b.Format.{
  mali_gralloc_format_internal_bgr_888, mali_gralloc_format_internal_bgra_8888,
  mali_gralloc_format_internal_rgb_565, mali_gralloc_format_internal_rgb_888,
  mali_gralloc_format_internal_rgba_10101010, mali_gralloc_format_internal_rgba_1010102,
  mali_gralloc_format_internal_rgba_16161616, mali_gralloc_format_internal_rgba_8888,
  mali_gralloc_format_internal_rgbx_8888,
}
use rk_hardware_libgralloc_b.FormatInfo.Entry.{FormatInfo, planes}
use rk_hardware_libgralloc_b.Hal.{Hal}
use rk_hardware_libgralloc_b.Prelude.{List, [], false, true, ◌∷◌}
use rk_hardware_libgralloc_b.Usages.{add_universal_usages, standard_usage}

module _ (hal : Hal) where
  unfoldable pub formats_rgb : List FormatInfo
  formats_rgb =
      record {
        id = mali_gralloc_format_internal_rgb_565 hal;
        npln = 1;
        ncmp = planes 3 0 0;
        bps = 6;
        bpp_afbc = planes 16 0 0;
        bpp = planes 16 0 0;
        hsub = 0;
        vsub = 0;
        align_w = 1;
        align_h = 1;
        align_w_cpu = 1;
        tile_size = 1;
        has_alpha = false;
        is_rgb = true;
        is_yuv = false;
        afbc = true;
        linear = true;
        yuv_transform = true;
        flex = false;
        block_linear = false;
        afrc = false;
        permitted_usage = add_universal_usages standard_usage;
      }
      ∷ record {
        id = mali_gralloc_format_internal_rgb_888 hal;
        npln = 1;
        ncmp = planes 3 0 0;
        bps = 8;
        bpp_afbc = planes 24 0 0;
        bpp = planes 24 0 0;
        hsub = 0;
        vsub = 0;
        align_w = 1;
        align_h = 1;
        align_w_cpu = 1;
        tile_size = 1;
        has_alpha = false;
        is_rgb = true;
        is_yuv = false;
        afbc = true;
        linear = true;
        yuv_transform = true;
        flex = true;
        block_linear = false;
        afrc = true;
        permitted_usage = add_universal_usages standard_usage;
      }
      ∷ record {
        id = mali_gralloc_format_internal_bgr_888 hal;
        npln = 1;
        ncmp = planes 3 0 0;
        bps = 8;
        bpp_afbc = planes 0 0 0;
        bpp = planes 24 0 0;
        hsub = 0;
        vsub = 0;
        align_w = 1;
        align_h = 1;
        align_w_cpu = 1;
        tile_size = 1;
        has_alpha = false;
        is_rgb = true;
        is_yuv = false;
        afbc = false;
        linear = true;
        yuv_transform = false;
        flex = true;
        block_linear = false;
        afrc = true;
        permitted_usage = 0;
      }
      ∷ record {
        id = mali_gralloc_format_internal_rgba_8888 hal;
        npln = 1;
        ncmp = planes 4 0 0;
        bps = 8;
        bpp_afbc = planes 32 0 0;
        bpp = planes 32 0 0;
        hsub = 0;
        vsub = 0;
        align_w = 1;
        align_h = 1;
        align_w_cpu = 1;
        tile_size = 1;
        has_alpha = true;
        is_rgb = true;
        is_yuv = false;
        afbc = true;
        linear = true;
        yuv_transform = true;
        flex = true;
        block_linear = false;
        afrc = true;
        permitted_usage = add_universal_usages standard_usage;
      }
      ∷ record {
        id = mali_gralloc_format_internal_bgra_8888 hal;
        npln = 1;
        ncmp = planes 4 0 0;
        bps = 8;
        bpp_afbc = planes 32 0 0;
        bpp = planes 32 0 0;
        hsub = 0;
        vsub = 0;
        align_w = 1;
        align_h = 1;
        align_w_cpu = 1;
        tile_size = 1;
        has_alpha = true;
        is_rgb = true;
        is_yuv = false;
        afbc = true;
        linear = true;
        yuv_transform = false;
        flex = true;
        block_linear = false;
        afrc = false;
        permitted_usage = add_universal_usages standard_usage;
      }
      ∷ record {
        id = mali_gralloc_format_internal_rgbx_8888 hal;
        npln = 1;
        ncmp = planes 3 0 0;
        bps = 8;
        bpp_afbc = planes 32 0 0;
        bpp = planes 32 0 0;
        hsub = 0;
        vsub = 0;
        align_w = 1;
        align_h = 1;
        align_w_cpu = 1;
        tile_size = 1;
        has_alpha = false;
        is_rgb = true;
        is_yuv = false;
        afbc = true;
        linear = true;
        yuv_transform = true;
        flex = true;
        block_linear = false;
        afrc = false;
        permitted_usage = add_universal_usages standard_usage;
      }
      ∷ record {
        id = mali_gralloc_format_internal_rgba_1010102 hal;
        npln = 1;
        ncmp = planes 4 0 0;
        bps = 10;
        bpp_afbc = planes 32 0 0;
        bpp = planes 32 0 0;
        hsub = 0;
        vsub = 0;
        align_w = 1;
        align_h = 1;
        align_w_cpu = 1;
        tile_size = 1;
        has_alpha = true;
        is_rgb = true;
        is_yuv = false;
        afbc = true;
        linear = true;
        yuv_transform = true;
        flex = false;
        block_linear = false;
        afrc = false;
        permitted_usage = add_universal_usages standard_usage;
      }
      ∷ record {
        id = mali_gralloc_format_internal_rgba_16161616 hal;
        npln = 1;
        ncmp = planes 4 0 0;
        bps = 16;
        bpp_afbc = planes 64 0 0;
        bpp = planes 64 0 0;
        hsub = 0;
        vsub = 0;
        align_w = 1;
        align_h = 1;
        align_w_cpu = 1;
        tile_size = 1;
        has_alpha = true;
        is_rgb = true;
        is_yuv = false;
        afbc = true;
        linear = true;
        yuv_transform = true;
        flex = true;
        block_linear = false;
        afrc = false;
        permitted_usage = add_universal_usages standard_usage;
      }
      ∷ record {
        id = mali_gralloc_format_internal_rgba_10101010;
        npln = 1;
        ncmp = planes 4 0 0;
        bps = 10;
        bpp_afbc = planes 40 0 0;
        bpp = planes 64 0 0;
        hsub = 0;
        vsub = 0;
        align_w = 1;
        align_h = 1;
        align_w_cpu = 1;
        tile_size = 1;
        has_alpha = true;
        is_rgb = true;
        is_yuv = false;
        afbc = true;
        linear = true;
        yuv_transform = true;
        flex = false;
        block_linear = false;
        afrc = true;
        permitted_usage = add_universal_usages standard_usage;
      }
      ∷ []
