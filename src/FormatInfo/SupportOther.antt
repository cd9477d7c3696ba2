-- ===== src/FormatInfo/SupportOther.antt =====
-- src/core/format_info.cpp, lines 787 to 930: the IP support of the raw, depth and other formats.
use rk_hardware_libgralloc_b.Format.{
  mali_gralloc_format_internal_blob, mali_gralloc_format_internal_depth_16,
  mali_gralloc_format_internal_depth_24, mali_gralloc_format_internal_depth_24_stencil_8,
  mali_gralloc_format_internal_depth_32f, mali_gralloc_format_internal_depth_32f_stencil_8,
  mali_gralloc_format_internal_r8, mali_gralloc_format_internal_raw10,
  mali_gralloc_format_internal_raw12, mali_gralloc_format_internal_raw16,
  mali_gralloc_format_internal_stencil_8,
}
use rk_hardware_libgralloc_b.FormatInfo.Entry.{FormatIpSupport, f_lin, f_none}
use rk_hardware_libgralloc_b.Hal.{Hal}
use rk_hardware_libgralloc_b.Prelude.{List, [], ◌∷◌}

module _ (hal : Hal) where
  unfoldable pub formats_ip_support_other : List FormatIpSupport
  formats_ip_support_other =
      record {
        id = mali_gralloc_format_internal_raw16 hal;
        cpu_wr = f_lin;
        cpu_rd = f_lin;
        gpu_wr = f_none;
        gpu_rd = f_lin;
        dpu_wr = f_none;
        dpu_rd = f_none;
        dpu_aeu_wr = f_none;
        vpu_wr = f_none;
        vpu_rd = f_none;
        cam_wr = f_lin;
      }
      ∷ record {
        id = mali_gralloc_format_internal_raw12 hal;
        cpu_wr = f_lin;
        cpu_rd = f_lin;
        gpu_wr = f_none;
        gpu_rd = f_none;
        dpu_wr = f_none;
        dpu_rd = f_none;
        dpu_aeu_wr = f_none;
        vpu_wr = f_none;
        vpu_rd = f_none;
        cam_wr = f_none;
      }
      ∷ record {
        id = mali_gralloc_format_internal_raw10 hal;
        cpu_wr = f_lin;
        cpu_rd = f_lin;
        gpu_wr = f_none;
        gpu_rd = f_none;
        dpu_wr = f_none;
        dpu_rd = f_none;
        dpu_aeu_wr = f_none;
        vpu_wr = f_none;
        vpu_rd = f_none;
        cam_wr = f_none;
      }
      ∷ record {
        id = mali_gralloc_format_internal_blob hal;
        cpu_wr = f_lin;
        cpu_rd = f_lin;
        gpu_wr = f_lin;
        gpu_rd = f_lin;
        dpu_wr = f_none;
        dpu_rd = f_none;
        dpu_aeu_wr = f_none;
        vpu_wr = f_none;
        vpu_rd = f_none;
        cam_wr = f_none;
      }
      ∷ record {
        id = mali_gralloc_format_internal_depth_16 hal;
        cpu_wr = f_lin;
        cpu_rd = f_lin;
        gpu_wr = f_none;
        gpu_rd = f_none;
        dpu_wr = f_none;
        dpu_rd = f_none;
        dpu_aeu_wr = f_none;
        vpu_wr = f_none;
        vpu_rd = f_none;
        cam_wr = f_none;
      }
      ∷ record {
        id = mali_gralloc_format_internal_depth_24 hal;
        cpu_wr = f_lin;
        cpu_rd = f_lin;
        gpu_wr = f_none;
        gpu_rd = f_none;
        dpu_wr = f_none;
        dpu_rd = f_none;
        dpu_aeu_wr = f_none;
        vpu_wr = f_none;
        vpu_rd = f_none;
        cam_wr = f_none;
      }
      ∷ record {
        id = mali_gralloc_format_internal_depth_24_stencil_8 hal;
        cpu_wr = f_lin;
        cpu_rd = f_lin;
        gpu_wr = f_none;
        gpu_rd = f_none;
        dpu_wr = f_none;
        dpu_rd = f_none;
        dpu_aeu_wr = f_none;
        vpu_wr = f_none;
        vpu_rd = f_none;
        cam_wr = f_none;
      }
      ∷ record {
        id = mali_gralloc_format_internal_depth_32f hal;
        cpu_wr = f_lin;
        cpu_rd = f_lin;
        gpu_wr = f_none;
        gpu_rd = f_none;
        dpu_wr = f_none;
        dpu_rd = f_none;
        dpu_aeu_wr = f_none;
        vpu_wr = f_none;
        vpu_rd = f_none;
        cam_wr = f_none;
      }
      ∷ record {
        id = mali_gralloc_format_internal_depth_32f_stencil_8 hal;
        cpu_wr = f_lin;
        cpu_rd = f_lin;
        gpu_wr = f_none;
        gpu_rd = f_none;
        dpu_wr = f_none;
        dpu_rd = f_none;
        dpu_aeu_wr = f_none;
        vpu_wr = f_none;
        vpu_rd = f_none;
        cam_wr = f_none;
      }
      ∷ record {
        id = mali_gralloc_format_internal_stencil_8 hal;
        cpu_wr = f_lin;
        cpu_rd = f_lin;
        gpu_wr = f_none;
        gpu_rd = f_none;
        dpu_wr = f_none;
        dpu_rd = f_none;
        dpu_aeu_wr = f_none;
        vpu_wr = f_none;
        vpu_rd = f_none;
        cam_wr = f_none;
      }
      ∷ record {
        id = mali_gralloc_format_internal_r8;
        cpu_wr = f_lin;
        cpu_rd = f_lin;
        gpu_wr = f_lin;
        gpu_rd = f_lin;
        dpu_wr = f_none;
        dpu_rd = f_none;
        dpu_aeu_wr = f_none;
        vpu_wr = f_none;
        vpu_rd = f_none;
        cam_wr = f_none;
      }
      ∷ []
