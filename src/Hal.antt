-- ===== src/Hal.antt =====
-- The pixel formats of the platform: system/graphics.h and hardware/hardware_rockchip.h declare
-- the HAL_PIXEL_FORMAT_* values, and neither file is in the repository. The model takes them as a
-- parameter, each value the 32-bit pattern of the enumerator.
use rk_hardware_libgralloc_b.Prelude.{ℕ}

pub record Hal : Type 0 where
  -- system/graphics.h
  pub hal_rgba_8888 : ℕ
  pub hal_rgbx_8888 : ℕ
  pub hal_rgb_888 : ℕ
  pub hal_rgb_565 : ℕ
  pub hal_bgra_8888 : ℕ
  pub hal_ycbcr_422_sp : ℕ
  pub hal_ycrcb_420_sp : ℕ
  pub hal_ycbcr_422_i : ℕ
  pub hal_rgba_fp16 : ℕ
  pub hal_raw16 : ℕ
  pub hal_blob : ℕ
  pub hal_implementation_defined : ℕ
  pub hal_ycbcr_420_888 : ℕ
  pub hal_raw_opaque : ℕ
  pub hal_raw10 : ℕ
  pub hal_raw12 : ℕ
  pub hal_ycbcr_422_888 : ℕ
  pub hal_ycbcr_444_888 : ℕ
  pub hal_flex_rgb_888 : ℕ
  pub hal_flex_rgba_8888 : ℕ
  pub hal_rgba_1010102 : ℕ
  pub hal_depth_16 : ℕ
  pub hal_depth_24 : ℕ
  pub hal_depth_24_stencil_8 : ℕ
  pub hal_depth_32f : ℕ
  pub hal_depth_32f_stencil_8 : ℕ
  pub hal_stencil_8 : ℕ
  pub hal_ycbcr_p010 : ℕ
  pub hal_y8 : ℕ
  pub hal_y16 : ℕ
  pub hal_yv12 : ℕ
  -- hardware/hardware_rockchip.h, the vendor's additions
  pub hal_ycrcb_nv12 : ℕ
  pub hal_ycrcb_nv12_10 : ℕ
  pub hal_yuv420_8bit_i : ℕ
  pub hal_yuv420_10bit_i : ℕ
  pub hal_ycbcr_444_888_rk : ℕ
  pub hal_y210 : ℕ
  pub hal_nv30 : ℕ
  pub hal_bgr_888 : ℕ
  pub hal_ycrcb_420_sp_rk : ℕ

-- Values of the Android headers and of the vendor's, for running the model in the witnesses.
abbrev pub sample_hal : Hal
sample_hal = record {
  hal_rgba_8888 = 0x1;
  hal_rgbx_8888 = 0x2;
  hal_rgb_888 = 0x3;
  hal_rgb_565 = 0x4;
  hal_bgra_8888 = 0x5;
  hal_ycbcr_422_sp = 0x10;
  hal_ycrcb_420_sp = 0x11;
  hal_ycbcr_422_i = 0x14;
  hal_rgba_fp16 = 0x16;
  hal_raw16 = 0x20;
  hal_blob = 0x21;
  hal_implementation_defined = 0x22;
  hal_ycbcr_420_888 = 0x23;
  hal_raw_opaque = 0x24;
  hal_raw10 = 0x25;
  hal_raw12 = 0x26;
  hal_ycbcr_422_888 = 0x27;
  hal_ycbcr_444_888 = 0x28;
  hal_flex_rgb_888 = 0x29;
  hal_flex_rgba_8888 = 0x2a;
  hal_rgba_1010102 = 0x2b;
  hal_depth_16 = 0x30;
  hal_depth_24 = 0x31;
  hal_depth_24_stencil_8 = 0x32;
  hal_depth_32f = 0x33;
  hal_depth_32f_stencil_8 = 0x34;
  hal_stencil_8 = 0x35;
  hal_ycbcr_p010 = 0x36;
  hal_y8 = 0x20203859;
  hal_y16 = 0x20363159;
  hal_yv12 = 0x32315659;
  hal_ycrcb_nv12 = 0x15;
  hal_ycrcb_nv12_10 = 0x17;
  hal_yuv420_8bit_i = 0x19;
  hal_yuv420_10bit_i = 0x1a;
  hal_ycbcr_444_888_rk = 0x1b;
  hal_y210 = 0x1c;
  hal_nv30 = 0x1e;
  hal_bgr_888 = 0x1d;
  hal_ycrcb_420_sp_rk = 0x1f;
}
