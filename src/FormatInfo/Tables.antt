-- ===== src/FormatInfo/Tables.antt =====
-- src/core/format_info.cpp: the tables, put together from their parts, and the map from HAL formats.
use rk_hardware_libgralloc_b.Format.{
  mali_gralloc_format_internal_bgr_888, mali_gralloc_format_internal_bgra_8888,
  mali_gralloc_format_internal_blob, mali_gralloc_format_internal_depth_16,
  mali_gralloc_format_internal_depth_24, mali_gralloc_format_internal_depth_24_stencil_8,
  mali_gralloc_format_internal_depth_32f, mali_gralloc_format_internal_depth_32f_stencil_8,
  mali_gralloc_format_internal_nv12, mali_gralloc_format_internal_nv16,
  mali_gralloc_format_internal_nv21, mali_gralloc_format_internal_p010,
  mali_gralloc_format_internal_r8, mali_gralloc_format_internal_raw10,
  mali_gralloc_format_internal_raw12, mali_gralloc_format_internal_raw16,
  mali_gralloc_format_internal_rgb_565, mali_gralloc_format_internal_rgb_888,
  mali_gralloc_format_internal_rgba_1010102, mali_gralloc_format_internal_rgba_16161616,
  mali_gralloc_format_internal_rgba_8888, mali_gralloc_format_internal_rgbx_8888,
  mali_gralloc_format_internal_stencil_8, mali_gralloc_format_internal_undefined,
  mali_gralloc_format_internal_y16, mali_gralloc_format_internal_y8,
  mali_gralloc_format_internal_yuv422_8bit, mali_gralloc_format_internal_yv12,
}
use rk_hardware_libgralloc_b.FormatInfo.Entry.{FormatInfo, FormatIpSupport}
use rk_hardware_libgralloc_b.FormatInfo.FormatsDepth.{formats_depth}
use rk_hardware_libgralloc_b.FormatInfo.FormatsRaw.{formats_raw}
use rk_hardware_libgralloc_b.FormatInfo.FormatsRgb.{formats_rgb}
use rk_hardware_libgralloc_b.FormatInfo.FormatsYuv10.{formats_yuv10}
use rk_hardware_libgralloc_b.FormatInfo.FormatsYuv420.{formats_yuv420}
use rk_hardware_libgralloc_b.FormatInfo.FormatsYuv444.{formats_yuv444}
use rk_hardware_libgralloc_b.FormatInfo.SupportOther.{formats_ip_support_other}
use rk_hardware_libgralloc_b.FormatInfo.SupportRgb.{formats_ip_support_rgb}
use rk_hardware_libgralloc_b.FormatInfo.SupportYuv10.{formats_ip_support_yuv10}
use rk_hardware_libgralloc_b.FormatInfo.SupportYuv8.{formats_ip_support_yuv8}
use rk_hardware_libgralloc_b.Hal.{Hal}
use rk_hardware_libgralloc_b.Prelude.{List, [], ℕ, ◌++◌, ◌∷◌}

module _ (hal : Hal) where
  unfoldable pub formats : List FormatInfo
  unfolding formats_rgb formats_yuv420 formats_yuv444 formats_yuv10 formats_raw formats_depth
  formats =
      formats_rgb hal
      ++ (formats_yuv420 hal
          ++ (formats_yuv444 hal
              ++ (formats_yuv10 hal ++ (formats_raw hal ++ (formats_depth hal)))))

  unfoldable pub formats_ip_support : List FormatIpSupport
  unfolding formats_ip_support_rgb formats_ip_support_yuv8 formats_ip_support_yuv10
      formats_ip_support_other
  formats_ip_support =
      formats_ip_support_rgb hal
      ++ (formats_ip_support_yuv8 hal
          ++ (formats_ip_support_yuv10 hal ++ (formats_ip_support_other hal)))

  -- Pairs of a HAL format and its internal format.
  unfoldable pub hal_to_internal_format : List (ℕ × ℕ)
  hal_to_internal_format =
      (hal.hal_rgba_8888, mali_gralloc_format_internal_rgba_8888 hal)
      ∷ (hal.hal_rgbx_8888, mali_gralloc_format_internal_rgbx_8888 hal)
      ∷ (hal.hal_rgb_888, mali_gralloc_format_internal_rgb_888 hal)
      ∷ (hal.hal_bgr_888, mali_gralloc_format_internal_bgr_888 hal)
      ∷ (hal.hal_rgb_565, mali_gralloc_format_internal_rgb_565 hal)
      ∷ (hal.hal_bgra_8888, mali_gralloc_format_internal_bgra_8888 hal)
      ∷ (hal.hal_ycbcr_422_sp, mali_gralloc_format_internal_nv16 hal)
      ∷ (hal.hal_ycrcb_420_sp, mali_gralloc_format_internal_nv21)
      ∷ (hal.hal_ycbcr_422_i, mali_gralloc_format_internal_yuv422_8bit)
      ∷ (hal.hal_rgba_fp16, mali_gralloc_format_internal_rgba_16161616 hal)
      ∷ (hal.hal_raw16, mali_gralloc_format_internal_raw16 hal)
      ∷ (hal.hal_blob, mali_gralloc_format_internal_blob hal)
      ∷ (hal.hal_implementation_defined, mali_gralloc_format_internal_nv12)
      ∷ (hal.hal_ycbcr_420_888, mali_gralloc_format_internal_nv12)
      ∷ (hal.hal_raw_opaque, mali_gralloc_format_internal_undefined)
      ∷ (hal.hal_raw10, mali_gralloc_format_internal_raw10 hal)
      ∷ (hal.hal_raw12, mali_gralloc_format_internal_raw12 hal)
      ∷ (hal.hal_ycbcr_422_888, mali_gralloc_format_internal_yuv422_8bit)
      ∷ (hal.hal_ycbcr_444_888, mali_gralloc_format_internal_undefined)
      ∷ (hal.hal_flex_rgb_888, mali_gralloc_format_internal_undefined)
      ∷ (hal.hal_flex_rgba_8888, mali_gralloc_format_internal_undefined)
      ∷ (hal.hal_rgba_1010102, mali_gralloc_format_internal_rgba_1010102 hal)
      ∷ (hal.hal_depth_16, mali_gralloc_format_internal_depth_16 hal)
      ∷ (hal.hal_depth_24, mali_gralloc_format_internal_depth_24 hal)
      ∷ (hal.hal_depth_24_stencil_8, mali_gralloc_format_internal_depth_24_stencil_8 hal)
      ∷ (hal.hal_depth_32f, mali_gralloc_format_internal_depth_32f hal)
      ∷ (hal.hal_depth_32f_stencil_8, mali_gralloc_format_internal_depth_32f_stencil_8 hal)
      ∷ (hal.hal_stencil_8, mali_gralloc_format_internal_stencil_8 hal)
      ∷ (hal.hal_ycbcr_p010, mali_gralloc_format_internal_p010)
      ∷ (hal.hal_y8, mali_gralloc_format_internal_y8)
      ∷ (hal.hal_y16, mali_gralloc_format_internal_y16)
      ∷ (hal.hal_yv12, mali_gralloc_format_internal_yv12)
      ∷ (56, mali_gralloc_format_internal_r8)
      ∷ []
