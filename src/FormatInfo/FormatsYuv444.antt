-- ===== src/FormatInfo/FormatsYuv444.antt =====
-- src/core/format_info.cpp, lines 172 to 228: the properties of the 8-bit 4:2:2 and 4:4:4 formats, and of NV30, Q410 and Q401.
use rk_hardware_libgralloc_b.Format.{
  mali_gralloc_format_internal_nv16, mali_gralloc_format_internal_nv24,
  mali_gralloc_format_internal_nv30, mali_gralloc_format_internal_q401,
  mali_gralloc_format_internal_q410, mali_gralloc_format_internal_yuv422_8bit,
  mali_gralloc_format_internal_yuv444,
}
use rk_hardware_libgralloc_b.FormatInfo.Entry.{FormatInfo, planes}
use rk_hardware_libgralloc_b.Hal.{Hal}
use rk_hardware_libgralloc_b.Prelude.{List, [], false, true, ◌∷◌}
use rk_hardware_libgralloc_b.Usages.{add_universal_usages, standard_usage}

module _ (hal : Hal) where
  unfoldable pub formats_yuv444 : List FormatInfo
  formats_yuv444 =
      record {
        id = mali_gralloc_format_internal_yuv422_8bit;
        npln = 1;
        ncmp = planes 3 0 0;
        bps = 8;
        bpp_afbc = planes 16 0 0;
        bpp = planes 16 0 0;
        hsub = 2;
        vsub = 1;
        align_w = 2;
        align_h = 1;
        align_w_cpu = 1;
        tile_size = 1;
        has_alpha = false;
        is_rgb = false;
        is_yuv = true;
        afbc = true;
        linear = true;
        yuv_transform = false;
        flex = true;
        block_linear = false;
        afrc = false;
        permitted_usage = add_universal_usages standard_usage;
      }
      ∷ record {
        id = mali_gralloc_format_internal_nv16 hal;
        npln = 2;
        ncmp = planes 1 2 0;
        bps = 8;
        bpp_afbc = planes 8 16 0;
        bpp = planes 8 16 0;
        hsub = 2;
        vsub = 1;
        align_w = 2;
        align_h = 1;
        align_w_cpu = 1;
        tile_size = 1;
        has_alpha = false;
        is_rgb = false;
        is_yuv = true;
        afbc = true;
        linear = true;
        yuv_transform = false;
        flex = true;
        block_linear = true;
        afrc = true;
        permitted_usage = add_universal_usages standard_usage;
      }
      ∷ record {
        id = mali_gralloc_format_internal_nv24;
        npln = 2;
        ncmp = planes 1 2 0;
        bps = 8;
        bpp_afbc = planes 0 0 0;
        bpp = planes 8 16 0;
        hsub = 1;
        vsub = 1;
        align_w = 1;
        align_h = 1;
        align_w_cpu = 1;
        tile_size = 1;
        has_alpha = false;
        is_rgb = false;
        is_yuv = true;
        afbc = false;
        linear = true;
        yuv_transform = false;
        flex = true;
        block_linear = false;
        afrc = false;
        permitted_usage = 0;
      }
      ∷ record {
        id = mali_gralloc_format_internal_yuv444;
        npln = 3;
        ncmp = planes 1 1 1;
        bps = 8;
        bpp_afbc = planes 0 0 0;
        bpp = planes 0 0 0;
        hsub = 1;
        vsub = 1;
        align_w = 1;
        align_h = 1;
        align_w_cpu = 1;
        tile_size = 1;
        has_alpha = false;
        is_rgb = false;
        is_yuv = true;
        afbc = false;
        linear = false;
        yuv_transform = false;
        flex = false;
        block_linear = false;
        afrc = true;
        permitted_usage = add_universal_usages standard_usage;
      }
      ∷ record {
        id = mali_gralloc_format_internal_nv30;
        npln = 3;
        ncmp = planes 1 2 0;
        bps = 10;
        bpp_afbc = planes 0 0 0;
        bpp = planes 10 20 0;
        hsub = 1;
        vsub = 1;
        align_w = 2;
        align_h = 2;
        align_w_cpu = 1;
        tile_size = 1;
        has_alpha = false;
        is_rgb = false;
        is_yuv = true;
        afbc = false;
        linear = true;
        yuv_transform = false;
        flex = false;
        block_linear = false;
        afrc = false;
        permitted_usage = 0;
      }
      ∷ record {
        id = mali_gralloc_format_internal_q410;
        npln = 3;
        ncmp = planes 1 1 1;
        bps = 10;
        bpp_afbc = planes 0 0 0;
        bpp = planes 0 0 0;
        hsub = 1;
        vsub = 1;
        align_w = 1;
        align_h = 1;
        align_w_cpu = 1;
        tile_size = 1;
        has_alpha = false;
        is_rgb = false;
        is_yuv = true;
        afbc = false;
        linear = false;
        yuv_transform = false;
        flex = false;
        block_linear = false;
        afrc = true;
        permitted_usage = add_universal_usages standard_usage;
      }
      ∷ record {
        id = mali_gralloc_format_internal_q401;
        npln = 3;
        ncmp = planes 1 1 1;
        bps = 10;
        bpp_afbc = planes 0 0 0;
        bpp = planes 0 0 0;
        hsub = 1;
        vsub = 1;
        align_w = 1;
        align_h = 1;
        align_w_cpu = 1;
        tile_size = 1;
        has_alpha = false;
        is_rgb = false;
        is_yuv = true;
        afbc = false;
        linear = false;
        yuv_transform = false;
        flex = false;
        block_linear = false;
        afrc = true;
        permitted_usage = add_universal_usages standard_usage;
      }
      ∷ []
