-- ===== src/FormatInfo/FormatsYuv420.antt =====
-- src/core/format_info.cpp, lines 106 to 170: the properties of the luma and 8-bit 4:2:0 formats.
use rk_hardware_libgralloc_b.Format.{
  mali_gralloc_format_internal_nv12, mali_gralloc_format_internal_nv21,
  mali_gralloc_format_internal_y16, mali_gralloc_format_internal_y8,
  mali_gralloc_format_internal_yu12, mali_gralloc_format_internal_yuv420_8bit_i,
  mali_gralloc_format_internal_yv12,
}
use rk_hardware_libgralloc_b.FormatInfo.Entry.{FormatInfo, planes}
use rk_hardware_libgralloc_b.Hal.{Hal}
use rk_hardware_libgralloc_b.Prelude.{List, [], false, true, ◌∷◌}
use rk_hardware_libgralloc_b.Prelude.Bits.{any_of}
use rk_hardware_libgralloc_b.Usages.{
  add_universal_usages, gralloc_usage_decoder, gralloc_usage_external_disp,
  gralloc_usage_frontbuffer, gralloc_usage_hw_camera_read, gralloc_usage_hw_camera_write,
  gralloc_usage_hw_composer, gralloc_usage_hw_fb, gralloc_usage_hw_render, gralloc_usage_hw_texture,
  gralloc_usage_hw_video_encoder, standard_usage,
}

module _ (hal : Hal) where
  unfoldable pub formats_yuv420 : List FormatInfo
  formats_yuv420 =
      record {
        id = mali_gralloc_format_internal_y8;
        npln = 1;
        ncmp = planes 1 0 0;
        bps = 8;
        bpp_afbc = planes 8 0 0;
        bpp = planes 8 0 0;
        hsub = 1;
        vsub = 1;
        align_w = 2;
        align_h = 2;
        align_w_cpu = 16;
        tile_size = 1;
        has_alpha = false;
        is_rgb = false;
        is_yuv = true;
        afbc = true;
        linear = true;
        yuv_transform = false;
        flex = true;
        block_linear = false;
        afrc = true;
        permitted_usage = add_universal_usages (
            any_of (
              gralloc_usage_hw_camera_write ∷ gralloc_usage_hw_camera_read
              ∷ gralloc_usage_hw_texture ∷ gralloc_usage_hw_render ∷ []));
      }
      ∷ record {
        id = mali_gralloc_format_internal_y16;
        npln = 1;
        ncmp = planes 1 0 0;
        bps = 16;
        bpp_afbc = planes 16 0 0;
        bpp = planes 16 0 0;
        hsub = 1;
        vsub = 1;
        align_w = 2;
        align_h = 2;
        align_w_cpu = 16;
        tile_size = 1;
        has_alpha = false;
        is_rgb = false;
        is_yuv = true;
        afbc = true;
        linear = true;
        yuv_transform = false;
        flex = true;
        block_linear = false;
        afrc = false;
        permitted_usage = add_universal_usages (
            any_of (
              gralloc_usage_hw_camera_write ∷ gralloc_usage_hw_camera_read
              ∷ gralloc_usage_hw_texture ∷ gralloc_usage_hw_render ∷ []));
      }
      ∷ record {
        id = mali_gralloc_format_internal_yuv420_8bit_i;
        npln = 1;
        ncmp = planes 3 0 0;
        bps = 8;
        bpp_afbc = planes 12 0 0;
        bpp = planes 0 0 0;
        hsub = 2;
        vsub = 2;
        align_w = 2;
        align_h = 2;
        align_w_cpu = 1;
        tile_size = 1;
        has_alpha = false;
        is_rgb = false;
        is_yuv = true;
        afbc = true;
        linear = false;
        yuv_transform = false;
        flex = false;
        block_linear = false;
        afrc = false;
        permitted_usage = add_universal_usages standard_usage;
      }
      ∷ record {
        id = mali_gralloc_format_internal_nv12;
        npln = 2;
        ncmp = planes 1 2 0;
        bps = 8;
        bpp_afbc = planes 8 16 0;
        bpp = planes 8 16 0;
        hsub = 2;
        vsub = 2;
        align_w = 2;
        align_h = 2;
        align_w_cpu = 1;
        tile_size = 1;
        has_alpha = false;
        is_rgb = false;
        is_yuv = true;
        afbc = true;
        linear = true;
        yuv_transform = false;
        flex = true;
        block_linear = true;
        afrc = true;
        permitted_usage = add_universal_usages (
            any_of (
              gralloc_usage_hw_texture ∷ gralloc_usage_hw_render ∷ gralloc_usage_hw_composer
              ∷ gralloc_usage_decoder ∷ gralloc_usage_hw_video_encoder ∷ gralloc_usage_hw_fb
              ∷ gralloc_usage_frontbuffer ∷ []));
      }
      ∷ record {
        id = mali_gralloc_format_internal_nv21;
        npln = 2;
        ncmp = planes 1 2 0;
        bps = 8;
        bpp_afbc = planes 8 16 0;
        bpp = planes 8 16 0;
        hsub = 2;
        vsub = 2;
        align_w = 2;
        align_h = 2;
        align_w_cpu = 1;
        tile_size = 1;
        has_alpha = false;
        is_rgb = false;
        is_yuv = true;
        afbc = true;
        linear = true;
        yuv_transform = false;
        flex = true;
        block_linear = false;
        afrc = true;
        permitted_usage = add_universal_usages standard_usage;
      }
      ∷ record {
        id = mali_gralloc_format_internal_yv12;
        npln = 3;
        ncmp = planes 1 1 1;
        bps = 8;
        bpp_afbc = planes 8 8 8;
        bpp = planes 8 8 8;
        hsub = 2;
        vsub = 2;
        align_w = 2;
        align_h = 2;
        align_w_cpu = 16;
        tile_size = 1;
        has_alpha = false;
        is_rgb = false;
        is_yuv = true;
        afbc = true;
        linear = true;
        yuv_transform = false;
        flex = true;
        block_linear = false;
        afrc = false;
        permitted_usage = add_universal_usages (
            any_of (
              gralloc_usage_hw_camera_write ∷ gralloc_usage_hw_camera_read
              ∷ gralloc_usage_hw_texture ∷ gralloc_usage_hw_render ∷ gralloc_usage_hw_composer
              ∷ gralloc_usage_hw_fb ∷ gralloc_usage_hw_video_encoder ∷ gralloc_usage_decoder
              ∷ gralloc_usage_external_disp ∷ gralloc_usage_frontbuffer ∷ []));
      }
      ∷ record {
        id = mali_gralloc_format_internal_yu12;
        npln = 3;
        ncmp = planes 1 1 1;
        bps = 8;
        bpp_afbc = planes 0 0 0;
        bpp = planes 8 8 8;
        hsub = 2;
        vsub = 2;
        align_w = 2;
        align_h = 2;
        align_w_cpu = 16;
        tile_size = 1;
        has_alpha = false;
        is_rgb = false;
        is_yuv = true;
        afbc = false;
        linear = true;
        yuv_transform = false;
        flex = true;
        block_linear = false;
        afrc = true;
        permitted_usage = add_universal_usages standard_usage;
      }
      ∷ []
