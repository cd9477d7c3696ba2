-- ===== src/FormatInfo/FormatsYuv10.antt =====
-- src/core/format_info.cpp, lines 230 to 287: the properties of the 10-bit YUV formats.
use rk_hardware_libgralloc_b.Format.{
  mali_gralloc_format_internal_nv15, mali_gralloc_format_internal_p010,
  mali_gralloc_format_internal_p210, mali_gralloc_format_internal_y0l2,
  mali_gralloc_format_internal_y210, mali_gralloc_format_internal_y410,
  mali_gralloc_format_internal_yuv420_10bit_i,
}
use rk_hardware_libgralloc_b.FormatInfo.Entry.{FormatInfo, planes}
use rk_hardware_libgralloc_b.Hal.{Hal}
use rk_hardware_libgralloc_b.Prelude.{List, [], false, true, ◌∷◌}
use rk_hardware_libgralloc_b.Usages.{add_universal_usages, standard_usage}

module _ (hal : Hal) where
  unfoldable pub formats_yuv10 : List FormatInfo
  formats_yuv10 =
      record {
        id = mali_gralloc_format_internal_yuv420_10bit_i;
        npln = 1;
        ncmp = planes 3 0 0;
        bps = 10;
        bpp_afbc = planes 15 0 0;
        bpp = planes 0 0 0;
        hsub = 2;
        vsub = 2;
        align_w = 2;
        align_h = 2;
        align_w_cpu = 1;
        tile_size = 1;
        has_alpha = false;
        is_rgb = false;
        is_yuv = true;
        afbc = true;
        linear = false;
        yuv_transform = false;
        flex = false;
        block_linear = false;
        afrc = false;
        permitted_usage = add_universal_usages standard_usage;
      }
      ∷ record {
        id = mali_gralloc_format_internal_y0l2;
        npln = 1;
        ncmp = planes 4 0 0;
        bps = 10;
        bpp_afbc = planes 0 0 0;
        bpp = planes 16 0 0;
        hsub = 2;
        vsub = 2;
        align_w = 2;
        align_h = 2;
        align_w_cpu = 1;
        tile_size = 2;
        has_alpha = true;
        is_rgb = false;
        is_yuv = true;
        afbc = false;
        linear = true;
        yuv_transform = false;
        flex = false;
        block_linear = false;
        afrc = false;
        permitted_usage = add_universal_usages standard_usage;
      }
      ∷ record {
        id = mali_gralloc_format_internal_p010;
        npln = 2;
        ncmp = planes 1 2 0;
        bps = 10;
        bpp_afbc = planes 10 20 0;
        bpp = planes 16 32 0;
        hsub = 2;
        vsub = 2;
        align_w = 2;
        align_h = 2;
        align_w_cpu = 1;
        tile_size = 1;
        has_alpha = false;
        is_rgb = false;
        is_yuv = true;
        afbc = true;
        linear = true;
        yuv_transform = false;
        flex = true;
        block_linear = true;
        afrc = true;
        permitted_usage = add_universal_usages standard_usage;
      }
      ∷ record {
        id = mali_gralloc_format_internal_nv15;
        npln = 2;
        ncmp = planes 1 2 0;
        bps = 10;
        bpp_afbc = planes 0 0 0;
        bpp = planes 10 20 0;
        hsub = 2;
        vsub = 2;
        align_w = 2;
        align_h = 2;
        align_w_cpu = 1;
        tile_size = 1;
        has_alpha = false;
        is_rgb = false;
        is_yuv = true;
        afbc = false;
        linear = true;
        yuv_transform = false;
        flex = false;
        block_linear = true;
        afrc = false;
        permitted_usage = add_universal_usages standard_usage;
      }
      ∷ record {
        id = mali_gralloc_format_internal_y210;
        npln = 1;
        ncmp = planes 3 0 0;
        bps = 10;
        bpp_afbc = planes 20 0 0;
        bpp = planes 32 0 0;
        hsub = 2;
        vsub = 1;
        align_w = 2;
        align_h = 1;
        align_w_cpu = 1;
        tile_size = 1;
        has_alpha = false;
        is_rgb = false;
        is_yuv = true;
        afbc = true;
        linear = true;
        yuv_transform = false;
        flex = true;
        block_linear = false;
        afrc = false;
        permitted_usage = add_universal_usages standard_usage;
      }
      ∷ record {
        id = mali_gralloc_format_internal_p210;
        npln = 2;
        ncmp = planes 1 2 0;
        bps = 10;
        bpp_afbc = planes 10 20 0;
        bpp = planes 16 32 0;
        hsub = 2;
        vsub = 1;
        align_w = 2;
        align_h = 1;
        align_w_cpu = 1;
        tile_size = 1;
        has_alpha = false;
        is_rgb = false;
        is_yuv = true;
        afbc = true;
        linear = true;
        yuv_transform = false;
        flex = true;
        block_linear = false;
        afrc = true;
        permitted_usage = add_universal_usages standard_usage;
      }
      ∷ record {
        id = mali_gralloc_format_internal_y410;
        npln = 1;
        ncmp = planes 4 0 0;
        bps = 10;
        bpp_afbc = planes 0 0 0;
        bpp = planes 32 0 0;
        hsub = 1;
        vsub = 1;
        align_w = 1;
        align_h = 1;
        align_w_cpu = 1;
        tile_size = 1;
        has_alpha = true;
        is_rgb = false;
        is_yuv = true;
        afbc = false;
        linear = true;
        yuv_transform = false;
        flex = false;
        block_linear = false;
        afrc = false;
        permitted_usage = add_universal_usages standard_usage;
      }
      ∷ []
