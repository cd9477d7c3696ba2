-- ===== src/FormatInfo/SupportYuv8.antt =====
-- src/core/format_info.cpp, lines 505 to 650: the IP support of the 8-bit YUV formats.
use rk_hardware_libgralloc_b.Format.{
  mali_gralloc_format_internal_nv12, mali_gralloc_format_internal_nv16,
  mali_gralloc_format_internal_nv21, mali_gralloc_format_internal_nv24,
  mali_gralloc_format_internal_y16, mali_gralloc_format_internal_y8,
  mali_gralloc_format_internal_yu12, mali_gralloc_format_internal_yuv420_8bit_i,
  mali_gralloc_format_internal_yuv422_8bit, mali_gralloc_format_internal_yuv444,
  mali_gralloc_format_internal_yv12,
}
use rk_hardware_libgralloc_b.FormatInfo.Entry.{
  FormatIpSupport, f_afbc, f_afrc, f_bl_yuv, f_lin, f_none,
}
use rk_hardware_libgralloc_b.Hal.{Hal}
use rk_hardware_libgralloc_b.Prelude.{List, [], ◌∷◌}
use rk_hardware_libgralloc_b.Prelude.Bits.{any_of}

module _ (hal : Hal) where
  unfoldable pub formats_ip_support_yuv8 : List FormatIpSupport
  formats_ip_support_yuv8 =
      record {
        id = mali_gralloc_format_internal_y8;
        cpu_wr = f_lin;
        cpu_rd = f_lin;
        gpu_wr = f_none;
        gpu_rd = f_none;
        dpu_wr = f_none;
        dpu_rd = f_none;
        dpu_aeu_wr = f_none;
        vpu_wr = f_none;
        vpu_rd = f_none;
        cam_wr = f_none;
      }
      ∷ record {
        id = mali_gralloc_format_internal_y16;
        cpu_wr = f_lin;
        cpu_rd = f_lin;
        gpu_wr = f_none;
        gpu_rd = f_none;
        dpu_wr = f_none;
        dpu_rd = f_none;
        dpu_aeu_wr = f_none;
        vpu_wr = f_none;
        vpu_rd = f_none;
        cam_wr = f_none;
      }
      ∷ record {
        id = mali_gralloc_format_internal_yuv420_8bit_i;
        cpu_wr = f_none;
        cpu_rd = f_none;
        gpu_wr = f_afbc;
        gpu_rd = f_afbc;
        dpu_wr = f_none;
        dpu_rd = f_afbc;
        dpu_aeu_wr = f_afbc;
        vpu_wr = f_afbc;
        vpu_rd = f_afbc;
        cam_wr = f_none;
      }
      ∷ record {
        id = mali_gralloc_format_internal_nv12;
        cpu_wr = f_lin;
        cpu_rd = f_lin;
        gpu_wr = any_of (f_lin ∷ f_afrc ∷ f_bl_yuv ∷ []);
        gpu_rd = any_of (f_lin ∷ f_afbc ∷ f_bl_yuv ∷ f_afrc ∷ []);
        dpu_wr = f_lin;
        dpu_rd = any_of (f_lin ∷ f_afrc ∷ []);
        dpu_aeu_wr = f_none;
        vpu_wr = any_of (f_lin ∷ f_bl_yuv ∷ []);
        vpu_rd = f_lin;
        cam_wr = f_none;
      }
      ∷ record {
        id = mali_gralloc_format_internal_nv21;
        cpu_wr = f_lin;
        cpu_rd = f_lin;
        gpu_wr = any_of (f_lin ∷ f_afrc ∷ []);
        gpu_rd = any_of (f_lin ∷ f_afrc ∷ []);
        dpu_wr = f_none;
        dpu_rd = f_afrc;
        dpu_aeu_wr = f_none;
        vpu_wr = f_lin;
        vpu_rd = f_lin;
        cam_wr = f_none;
      }
      ∷ record {
        id = mali_gralloc_format_internal_yv12;
        cpu_wr = f_lin;
        cpu_rd = f_lin;
        gpu_wr = any_of (f_lin ∷ f_afrc ∷ []);
        gpu_rd = any_of (f_lin ∷ f_afrc ∷ []);
        dpu_wr = f_none;
        dpu_rd = any_of (f_lin ∷ f_afrc ∷ []);
        dpu_aeu_wr = f_none;
        vpu_wr = f_lin;
        vpu_rd = f_lin;
        cam_wr = f_none;
      }
      ∷ record {
        id = mali_gralloc_format_internal_yu12;
        cpu_wr = f_lin;
        cpu_rd = f_lin;
        gpu_wr = any_of (f_lin ∷ f_afrc ∷ []);
        gpu_rd = any_of (f_lin ∷ f_afrc ∷ []);
        dpu_wr = f_none;
        dpu_rd = any_of (f_lin ∷ f_afrc ∷ []);
        dpu_aeu_wr = f_none;
        vpu_wr = f_lin;
        vpu_rd = f_lin;
        cam_wr = f_none;
      }
      ∷ record {
        id = mali_gralloc_format_internal_yuv422_8bit;
        cpu_wr = f_lin;
        cpu_rd = f_lin;
        gpu_wr = any_of (f_lin ∷ f_afbc ∷ []);
        gpu_rd = any_of (f_lin ∷ f_afbc ∷ []);
        dpu_wr = f_none;
        dpu_rd = any_of (f_lin ∷ f_afbc ∷ []);
        dpu_aeu_wr = f_afbc;
        vpu_wr = f_none;
        vpu_rd = f_none;
        cam_wr = f_none;
      }
      ∷ record {
        id = mali_gralloc_format_internal_nv16 hal;
        cpu_wr = f_lin;
        cpu_rd = f_lin;
        gpu_wr = any_of (f_lin ∷ f_afrc ∷ f_bl_yuv ∷ []);
        gpu_rd = any_of (f_lin ∷ f_afbc ∷ f_bl_yuv ∷ f_afrc ∷ []);
        dpu_wr = f_none;
        dpu_rd = f_afrc;
        dpu_aeu_wr = f_none;
        vpu_wr = f_bl_yuv;
        vpu_rd = f_none;
        cam_wr = f_none;
      }
      ∷ record {
        id = mali_gralloc_format_internal_nv24;
        cpu_wr = f_lin;
        cpu_rd = f_lin;
        gpu_wr = any_of (f_lin ∷ f_afrc ∷ f_bl_yuv ∷ []);
        gpu_rd = any_of (f_lin ∷ f_afbc ∷ f_bl_yuv ∷ f_afrc ∷ []);
        dpu_wr = f_none;
        dpu_rd = f_afrc;
        dpu_aeu_wr = f_none;
        vpu_wr = f_bl_yuv;
        vpu_rd = f_none;
        cam_wr = f_none;
      }
      ∷ record {
        id = mali_gralloc_format_internal_yuv444;
        cpu_wr = f_none;
        cpu_rd = f_none;
        gpu_wr = f_afrc;
        gpu_rd = f_afrc;
        dpu_wr = f_none;
        dpu_rd = f_afrc;
        dpu_aeu_wr = f_none;
        vpu_wr = f_none;
        vpu_rd = f_none;
        cam_wr = f_none;
      }
      ∷ []
