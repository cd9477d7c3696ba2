-- ===== src/FormatInfo/SupportRgb.antt =====
-- src/core/format_info.cpp, lines 388 to 504: the IP support of the RGB formats.
use rk_hardware_libgralloc_b.Format.{
  mali_gralloc_format_internal_bgr_888, mali_gralloc_format_internal_bgra_8888,
  mali_gralloc_format_internal_rgb_565, mali_gralloc_format_internal_rgb_888,
  mali_gralloc_format_internal_rgba_10101010, mali_gralloc_format_internal_rgba_1010102,
  mali_gralloc_format_internal_rgba_16161616, mali_gralloc_format_internal_rgba_8888,
  mali_gralloc_format_internal_rgbx_8888,
}
use rk_hardware_libgralloc_b.FormatInfo.Entry.{FormatIpSupport, f_afbc, f_afrc, f_lin, f_none}
use rk_hardware_libgralloc_b.Hal.{Hal}
use rk_hardware_libgralloc_b.Prelude.{List, [], ◌∷◌}
use rk_hardware_libgralloc_b.Prelude.Bits.{any_of}

module _ (hal : Hal) where
  unfoldable pub formats_ip_support_rgb : List FormatIpSupport
  formats_ip_support_rgb =
      record {
        id = mali_gralloc_format_internal_rgb_565 hal;
        cpu_wr = f_lin;
        cpu_rd = f_lin;
        gpu_wr = any_of (f_lin ∷ f_afbc ∷ []);
        gpu_rd = any_of (f_lin ∷ f_afbc ∷ []);
        dpu_wr = f_none;
        dpu_rd = any_of (f_lin ∷ f_afbc ∷ []);
        dpu_aeu_wr = f_afbc;
        vpu_wr = f_none;
        vpu_rd = f_none;
        cam_wr = f_none;
      }
      ∷ record {
        id = mali_gralloc_format_internal_rgb_888 hal;
        cpu_wr = f_lin;
        cpu_rd = f_lin;
        gpu_wr = any_of (f_lin ∷ f_afbc ∷ f_afrc ∷ []);
        gpu_rd = any_of (f_lin ∷ f_afbc ∷ f_afrc ∷ []);
        dpu_wr = f_lin;
        dpu_rd = any_of (f_lin ∷ f_afbc ∷ f_afrc ∷ []);
        dpu_aeu_wr = f_afbc;
        vpu_wr = f_none;
        vpu_rd = f_none;
        cam_wr = f_none;
      }
      ∷ record {
        id = mali_gralloc_format_internal_bgr_888 hal;
        cpu_wr = f_lin;
        cpu_rd = f_lin;
        gpu_wr = any_of (f_lin ∷ f_afbc ∷ f_afrc ∷ []);
        gpu_rd = any_of (f_lin ∷ f_afbc ∷ f_afrc ∷ []);
        dpu_wr = f_lin;
        dpu_rd = any_of (f_lin ∷ f_afbc ∷ f_afrc ∷ []);
        dpu_aeu_wr = f_afbc;
        vpu_wr = f_none;
        vpu_rd = f_none;
        cam_wr = f_none;
      }
      ∷ record {
        id = mali_gralloc_format_internal_rgba_8888 hal;
        cpu_wr = f_lin;
        cpu_rd = f_lin;
        gpu_wr = any_of (f_lin ∷ f_afbc ∷ f_afrc ∷ []);
        gpu_rd = any_of (f_lin ∷ f_afbc ∷ f_afrc ∷ []);
        dpu_wr = f_lin;
        dpu_rd = any_of (f_lin ∷ f_afbc ∷ f_afrc ∷ []);
        dpu_aeu_wr = f_afbc;
        vpu_wr = f_none;
        vpu_rd = f_lin;
        cam_wr = f_none;
      }
      ∷ record {
        id = mali_gralloc_format_internal_bgra_8888 hal;
        cpu_wr = f_lin;
        cpu_rd = f_lin;
        gpu_wr = f_lin;
        gpu_rd = f_lin;
        dpu_wr = f_lin;
        dpu_rd = f_lin;
        dpu_aeu_wr = f_none;
        vpu_wr = f_none;
        vpu_rd = f_lin;
        cam_wr = f_none;
      }
      ∷ record {
        id = mali_gralloc_format_internal_rgbx_8888 hal;
        cpu_wr = f_lin;
        cpu_rd = f_lin;
        gpu_wr = any_of (f_lin ∷ f_afbc ∷ []);
        gpu_rd = any_of (f_lin ∷ f_afbc ∷ []);
        dpu_wr = f_lin;
        dpu_rd = any_of (f_lin ∷ f_afbc ∷ []);
        dpu_aeu_wr = f_none;
        vpu_wr = f_none;
        vpu_rd = f_none;
        cam_wr = f_none;
      }
      ∷ record {
        id = mali_gralloc_format_internal_rgba_1010102 hal;
        cpu_wr = f_lin;
        cpu_rd = f_lin;
        gpu_wr = any_of (f_lin ∷ f_afbc ∷ []);
        gpu_rd = any_of (f_lin ∷ f_afbc ∷ []);
        dpu_wr = f_lin;
        dpu_rd = any_of (f_lin ∷ f_afbc ∷ []);
        dpu_aeu_wr = f_afbc;
        vpu_wr = f_none;
        vpu_rd = f_none;
        cam_wr = f_none;
      }
      ∷ record {
        id = mali_gralloc_format_internal_rgba_16161616 hal;
        cpu_wr = f_lin;
        cpu_rd = f_lin;
        gpu_wr = any_of (f_lin ∷ f_afbc ∷ []);
        gpu_rd = any_of (f_lin ∷ f_afbc ∷ []);
        dpu_wr = f_none;
        dpu_rd = f_none;
        dpu_aeu_wr = f_none;
        vpu_wr = f_none;
        vpu_rd = f_none;
        cam_wr = f_none;
      }
      ∷ record {
        id = mali_gralloc_format_internal_rgba_10101010;
        cpu_wr = f_lin;
        cpu_rd = f_lin;
        gpu_wr = any_of (f_lin ∷ f_afbc ∷ f_afrc ∷ []);
        gpu_rd = any_of (f_lin ∷ f_afbc ∷ f_afrc ∷ []);
        dpu_wr = f_none;
        dpu_rd = f_afrc;
        dpu_aeu_wr = f_none;
        vpu_wr = f_none;
        vpu_rd = f_none;
        cam_wr = f_none;
      }
      ∷ []
