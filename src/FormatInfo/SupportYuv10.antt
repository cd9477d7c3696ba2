-- ===== src/FormatInfo/SupportYuv10.antt =====
-- src/core/format_info.cpp, lines 652 to 785: the IP support of the YUV formats with deeper samples.
use rk_hardware_libgralloc_b.Format.{
  mali_gralloc_format_internal_nv15, mali_gralloc_format_internal_nv30,
  mali_gralloc_format_internal_p010, mali_gralloc_format_internal_p210,
  mali_gralloc_format_internal_q401, mali_gralloc_format_internal_q410,
  mali_gralloc_format_internal_y0l2, mali_gralloc_format_internal_y210,
  mali_gralloc_format_internal_y410, mali_gralloc_format_internal_yuv420_10bit_i,
}
use rk_hardware_libgralloc_b.FormatInfo.Entry.{
  FormatIpSupport, f_afbc, f_afrc, f_bl_yuv, f_lin, f_none,
}
use rk_hardware_libgralloc_b.Hal.{Hal}
use rk_hardware_libgralloc_b.Prelude.{List, [], ◌∷◌}
use rk_hardware_libgralloc_b.Prelude.Bits.{any_of}

module _ (hal : Hal) where
  unfoldable pub formats_ip_support_yuv10 : List FormatIpSupport
  formats_ip_support_yuv10 =
      record {
        id = mali_gralloc_format_internal_nv30;
        cpu_wr = f_none;
        cpu_rd = f_none;
        gpu_wr = f_none;
        gpu_rd = f_bl_yuv;
        dpu_wr = f_none;
        dpu_rd = f_none;
        dpu_aeu_wr = f_none;
        vpu_wr = f_bl_yuv;
        vpu_rd = f_none;
        cam_wr = f_none;
      }
      ∷ record {
        id = mali_gralloc_format_internal_q410;
        cpu_wr = f_none;
        cpu_rd = f_none;
        gpu_wr = f_afrc;
        gpu_rd = f_afrc;
        dpu_wr = f_none;
        dpu_rd = f_afrc;
        dpu_aeu_wr = f_none;
        vpu_wr = f_none;
        vpu_rd = f_none;
        cam_wr = f_none;
      }
      ∷ record {
        id = mali_gralloc_format_internal_q401;
        cpu_wr = f_none;
        cpu_rd = f_none;
        gpu_wr = f_afrc;
        gpu_rd = f_afrc;
        dpu_wr = f_none;
        dpu_rd = f_afrc;
        dpu_aeu_wr = f_none;
        vpu_wr = f_none;
        vpu_rd = f_none;
        cam_wr = f_none;
      }
      ∷ record {
        id = mali_gralloc_format_internal_yuv420_10bit_i;
        cpu_wr = f_none;
        cpu_rd = f_none;
        gpu_wr = f_afbc;
        gpu_rd = f_afbc;
        dpu_wr = f_none;
        dpu_rd = f_afbc;
        dpu_aeu_wr = f_afbc;
        vpu_wr = f_afbc;
        vpu_rd = f_afbc;
        cam_wr = f_none;
      }
      ∷ record {
        id = mali_gralloc_format_internal_y0l2;
        cpu_wr = f_lin;
        cpu_rd = f_lin;
        gpu_wr = f_lin;
        gpu_rd = f_lin;
        dpu_wr = f_none;
        dpu_rd = f_lin;
        dpu_aeu_wr = f_none;
        vpu_wr = f_lin;
        vpu_rd = f_lin;
        cam_wr = f_none;
      }
      ∷ record {
        id = mali_gralloc_format_internal_p010;
        cpu_wr = f_lin;
        cpu_rd = f_lin;
        gpu_wr = any_of (f_lin ∷ f_bl_yuv ∷ f_afrc ∷ []);
        gpu_rd = any_of (f_lin ∷ f_bl_yuv ∷ f_afrc ∷ []);
        dpu_wr = f_none;
        dpu_rd = any_of (f_lin ∷ f_afrc ∷ []);
        dpu_aeu_wr = f_none;
        vpu_wr = any_of (f_lin ∷ f_bl_yuv ∷ []);
        vpu_rd = f_lin;
        cam_wr = f_none;
      }
      ∷ record {
        id = mali_gralloc_format_internal_nv15;
        cpu_wr = f_none;
        cpu_rd = f_none;
        gpu_wr = f_none;
        gpu_rd = f_bl_yuv;
        dpu_wr = f_none;
        dpu_rd = f_none;
        dpu_aeu_wr = f_none;
        vpu_wr = f_bl_yuv;
        vpu_rd = f_none;
        cam_wr = f_none;
      }
      ∷ record {
        id = mali_gralloc_format_internal_y210;
        cpu_wr = f_lin;
        cpu_rd = f_lin;
        gpu_wr = any_of (f_lin ∷ f_afbc ∷ []);
        gpu_rd = any_of (f_lin ∷ f_afbc ∷ []);
        dpu_wr = f_none;
        dpu_rd = f_none;
        dpu_aeu_wr = f_none;
        vpu_wr = f_none;
        vpu_rd = f_none;
        cam_wr = f_none;
      }
      ∷ record {
        id = mali_gralloc_format_internal_p210;
        cpu_wr = f_lin;
        cpu_rd = f_lin;
        gpu_wr = any_of (f_lin ∷ f_afrc ∷ []);
        gpu_rd = any_of (f_lin ∷ f_afrc ∷ []);
        dpu_wr = f_none;
        dpu_rd = f_afrc;
        dpu_aeu_wr = f_none;
        vpu_wr = f_none;
        vpu_rd = f_none;
        cam_wr = f_none;
      }
      ∷ record {
        id = mali_gralloc_format_internal_y410;
        cpu_wr = f_lin;
        cpu_rd = f_lin;
        gpu_wr = any_of (f_lin ∷ f_afbc ∷ []);
        gpu_rd = f_lin;
        dpu_wr = f_none;
        dpu_rd = f_none;
        dpu_aeu_wr = f_none;
        vpu_wr = f_none;
        vpu_rd = f_none;
        cam_wr = f_none;
      }
      ∷ []
