-- ===== src/Selection/Support.antt =====
-- ip_supports_base_format, usage_supports_base_format and is_format_supported of
-- src/core/formats.cpp: the layouts in which a base format is supported, as flags.
use rk_hardware_libgralloc_b.Capabilities.{
  Platform, afbc_16x16, afbc_64x4, afbc_double_body, afbc_format_r16g16b16a16_float,
  afbc_tiled_headers, afbc_yuv, afrc_rot_layout, afrc_scan_layout, contains, format_r10g10b10a2,
  format_r16g16b16a16_float, ip_support_feature, is_empty, mali_gralloc_ip_cam, mali_gralloc_ip_cpu,
  mali_gralloc_ip_dpu, mali_gralloc_ip_dpu_aeu, mali_gralloc_ip_gpu, mali_gralloc_ip_vpu, yuv_bl_10,
  yuv_bl_8,
}
use rk_hardware_libgralloc_b.Format.{
  mali_gralloc_format_internal_rgba_1010102, mali_gralloc_format_internal_rgba_16161616,
}
use rk_hardware_libgralloc_b.FormatInfo.{
  FormatInfo, FormatIpSupport, f_afbc, f_afrc, f_bl_yuv, f_lin, f_none, get_base_info,
}
use rk_hardware_libgralloc_b.Hal.{Hal}
use rk_hardware_libgralloc_b.InternalFormat.{InternalFormat}
use rk_hardware_libgralloc_b.Prelude.{
  Bool, bit_and, false, if◌then◌else◌, ltb, none, not, some, ℕ, ◌&&◌, ◌==◌, ◌||◌,
}
use rk_hardware_libgralloc_b.Prelude.Bits.{complement, has_bits}
use rk_hardware_libgralloc_b.Usages.{gralloc_usage_gpu_data_buffer, gralloc_usage_is_frontbuffer}

-- `if (c) { support &= flags; }`
abbrev pub and_if : Bool → ℕ → ℕ → ℕ
and_if c flags support = if c then bit_and support flags else support

-- `if (c) { f_flags &= ~flag; }`, on uint8_t.
abbrev pub drop_if : Bool → ℕ → ℕ → ℕ
drop_if c flag f_flags = if c then bit_and f_flags (complement 8 flag) else f_flags

unfoldable pub ip_supports_base_format : ℕ → ℕ → FormatIpSupport → ℕ
ip_supports_base_format producers consumers format =
    and_if (contains consumers mali_gralloc_ip_vpu) format.vpu_rd (
      and_if (contains consumers mali_gralloc_ip_dpu) format.dpu_rd (
        and_if (contains consumers mali_gralloc_ip_gpu) format.gpu_rd (
          and_if (contains consumers mali_gralloc_ip_cpu) format.cpu_rd (
            and_if (contains producers mali_gralloc_ip_vpu) format.vpu_wr (
              and_if (contains producers mali_gralloc_ip_cam) format.cam_wr (
                and_if (contains producers mali_gralloc_ip_dpu_aeu) format.dpu_aeu_wr (
                  and_if (contains producers mali_gralloc_ip_dpu) format.dpu_wr (
                    and_if (contains producers mali_gralloc_ip_gpu) format.gpu_wr
                      (and_if (contains producers mali_gralloc_ip_cpu) format.cpu_wr 255)))))))))

unfoldable pub usage_supports_base_format : ℕ → ℕ → ℕ
usage_supports_base_format usages format_flags =
    if has_bits usages gralloc_usage_gpu_data_buffer
    then bit_and format_flags f_lin
    else format_flags

module _ (hal : Hal) (platform : Platform) where
  unfoldable pub is_subsampled_yuv : InternalFormat → Bool
  is_subsampled_yuv format = elim (get_base_info hal format) [
    | none ↦ false
    | some info ↦ info.is_yuv && (ltb 1 info.hsub || ltb 1 info.vsub)
  ]

  unfoldable pub is_afbc_multiplane_supported : ℕ → ℕ → Bool
  is_afbc_multiplane_supported producers consumers =
      ip_support_feature platform producers consumers afbc_16x16
      && ip_support_feature platform producers consumers afbc_tiled_headers
      && ip_support_feature platform producers consumers afbc_64x4
      && is_empty producers

  -- The steps of is_format_supported, each under its test of the flags.
  unfoldable pub restrict_afbc : FormatInfo → ℕ → ℕ → ℕ → ℕ → ℕ
  restrict_afbc fmt_info usage producers consumers f_flags =
      if has_bits f_flags f_afbc
      then drop_if
          (gralloc_usage_is_frontbuffer usage
            && not (ip_support_feature platform producers consumers afbc_double_body))
          f_afbc
          (drop_if
            (fmt_info.is_yuv && not (ip_support_feature platform producers consumers afbc_yuv))
            f_afbc
            (drop_if (ltb 1 fmt_info.npln && not (is_afbc_multiplane_supported producers consumers))
              f_afbc
              (drop_if
                (not fmt_info.afbc
                  || not (ip_support_feature platform producers consumers afbc_16x16))
                f_afbc f_flags)))
      else f_flags

  unfoldable pub restrict_afrc : FormatInfo → ℕ → ℕ → ℕ → ℕ
  restrict_afrc fmt_info producers consumers f_flags =
      if has_bits f_flags f_afrc
      then drop_if
          (not fmt_info.afrc
            || (not (ip_support_feature platform producers consumers afrc_rot_layout)
                && not (ip_support_feature platform producers consumers afrc_scan_layout)))
          f_afrc f_flags
      else f_flags

  unfoldable pub restrict_bl_yuv : FormatInfo → ℕ → ℕ → ℕ → ℕ
  restrict_bl_yuv fmt_info producers consumers f_flags =
      if has_bits f_flags f_bl_yuv
      then drop_if
          (not (fmt_info.block_linear && fmt_info.is_yuv)
            || ((fmt_info.bps == 8)
                && not (ip_support_feature platform producers consumers yuv_bl_8))
            || ((fmt_info.bps == 10)
                && not (ip_support_feature platform producers consumers yuv_bl_10)))
          f_bl_yuv f_flags
      else f_flags

  unfoldable pub restrict_format : FormatInfo → ℕ → ℕ → ℕ → ℕ
  restrict_format fmt_info producers consumers f_flags =
      if f_flags == f_none
      then f_flags
      else if (fmt_info.id == mali_gralloc_format_internal_rgba_1010102 hal)
          && not (ip_support_feature platform producers consumers format_r10g10b10a2)
      then f_none
      else if fmt_info.id == mali_gralloc_format_internal_rgba_16161616 hal
      then (if not (ip_support_feature platform producers consumers format_r16g16b16a16_float)
          then f_none
          else if not
              (ip_support_feature platform producers consumers afbc_format_r16g16b16a16_float)
          then f_lin
          else f_flags)
      else f_flags

  unfoldable pub is_format_supported : FormatInfo → FormatIpSupport → ℕ → ℕ → ℕ → ℕ
  is_format_supported fmt_info fmt_ip_support usage producers consumers =
      restrict_format fmt_info producers consumers (
        restrict_bl_yuv fmt_info producers consumers (
          restrict_afrc fmt_info producers consumers (
            restrict_afbc fmt_info usage producers consumers (
              usage_supports_base_format usage
                (ip_supports_base_format producers consumers fmt_ip_support)))))
