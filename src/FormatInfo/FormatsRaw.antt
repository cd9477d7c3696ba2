-- ===== src/FormatInfo/FormatsRaw.antt =====
-- src/core/format_info.cpp, lines 289 to 340: the properties of the raw formats, BLOB and the first depth formats.
use rk_hardware_libgralloc_b.Format.{
  mali_gralloc_format_internal_blob, mali_gralloc_format_internal_depth_16,
  mali_gralloc_format_internal_depth_24, mali_gralloc_format_internal_raw10,
  mali_gralloc_format_internal_raw12, mali_gralloc_format_internal_raw16,
}
use rk_hardware_libgralloc_b.FormatInfo.Entry.{FormatInfo, planes}
use rk_hardware_libgralloc_b.Hal.{Hal}
use rk_hardware_libgralloc_b.Prelude.{List, [], false, true, ◌∷◌}
use rk_hardware_libgralloc_b.Prelude.Bits.{any_of}
use rk_hardware_libgralloc_b.Usages.{
  add_universal_usages, gralloc_usage_hw_camera_read, gralloc_usage_hw_camera_write,
  gralloc_usage_hw_render, gralloc_usage_hw_texture, gralloc_usage_renderscript, standard_usage,
}

module _ (hal : Hal) where
  unfoldable pub formats_raw : List FormatInfo
  formats_raw =
      record {
        id = mali_gralloc_format_internal_raw16 hal;
        npln = 1;
        ncmp = planes 1 0 0;
        bps = 16;
        bpp_afbc = planes 0 0 0;
        bpp = planes 16 0 0;
        hsub = 0;
        vsub = 0;
        align_w = 2;
        align_h = 2;
        align_w_cpu = 16;
        tile_size = 1;
        has_alpha = false;
        is_rgb = false;
        is_yuv = false;
        afbc = false;
        linear = true;
        yuv_transform = false;
        flex = false;
        block_linear = false;
        afrc = false;
        permitted_usage = add_universal_usages standard_usage;
      }
      ∷ record {
        id = mali_gralloc_format_internal_raw12 hal;
        npln = 1;
        ncmp = planes 1 0 0;
        bps = 12;
        bpp_afbc = planes 0 0 0;
        bpp = planes 12 0 0;
        hsub = 0;
        vsub = 0;
        align_w = 4;
        align_h = 2;
        align_w_cpu = 4;
        tile_size = 1;
        has_alpha = false;
        is_rgb = false;
        is_yuv = false;
        afbc = false;
        linear = true;
        yuv_transform = false;
        flex = false;
        block_linear = false;
        afrc = false;
        permitted_usage = add_universal_usages (
            any_of (
              gralloc_usage_hw_camera_write ∷ gralloc_usage_hw_camera_read
              ∷ gralloc_usage_renderscript ∷ gralloc_usage_hw_texture ∷ gralloc_usage_hw_render
              ∷ []));
      }
      ∷ record {
        id = mali_gralloc_format_internal_raw10 hal;
        npln = 1;
        ncmp = planes 1 0 0;
        bps = 10;
        bpp_afbc = planes 0 0 0;
        bpp = planes 10 0 0;
        hsub = 0;
        vsub = 0;
        align_w = 4;
        align_h = 2;
        align_w_cpu = 4;
        tile_size = 1;
        has_alpha = false;
        is_rgb = false;
        is_yuv = false;
        afbc = false;
        linear = true;
        yuv_transform = false;
        flex = false;
        block_linear = false;
        afrc = false;
        permitted_usage = add_universal_usages (
            any_of (
              gralloc_usage_hw_camera_write ∷ gralloc_usage_hw_camera_read
              ∷ gralloc_usage_renderscript ∷ gralloc_usage_hw_texture ∷ gralloc_usage_hw_render
              ∷ []));
      }
      ∷ record {
        id = mali_gralloc_format_internal_blob hal;
        npln = 1;
        ncmp = planes 1 0 0;
        bps = 8;
        bpp_afbc = planes 0 0 0;
        bpp = planes 8 0 0;
        hsub = 0;
        vsub = 0;
        align_w = 1;
        align_h = 1;
        align_w_cpu = 1;
        tile_size = 1;
        has_alpha = false;
        is_rgb = false;
        is_yuv = false;
        afbc = false;
        linear = true;
        yuv_transform = false;
        flex = false;
        block_linear = false;
        afrc = false;
        permitted_usage = add_universal_usages standard_usage;
      }
      ∷ record {
        id = mali_gralloc_format_internal_depth_16 hal;
        npln = 1;
        ncmp = planes 1 0 0;
        bps = 16;
        bpp_afbc = planes 0 0 0;
        bpp = planes 16 0 0;
        hsub = 0;
        vsub = 0;
        align_w = 1;
        align_h = 1;
        align_w_cpu = 1;
        tile_size = 1;
        has_alpha = false;
        is_rgb = false;
        is_yuv = false;
        afbc = false;
        linear = true;
        yuv_transform = false;
        flex = false;
        block_linear = false;
        afrc = false;
        permitted_usage = add_universal_usages standard_usage;
      }
      ∷ record {
        id = mali_gralloc_format_internal_depth_24 hal;
        npln = 1;
        ncmp = planes 1 0 0;
        bps = 24;
        bpp_afbc = planes 0 0 0;
        bpp = planes 24 0 0;
        hsub = 0;
        vsub = 0;
        align_w = 1;
        align_h = 1;
        align_w_cpu = 1;
        tile_size = 1;
        has_alpha = false;
        is_rgb = false;
        is_yuv = false;
        afbc = false;
        linear = true;
        yuv_transform = false;
        flex = false;
        block_linear = false;
        afrc = false;
        permitted_usage = add_universal_usages standard_usage;
      }
      ∷ []
