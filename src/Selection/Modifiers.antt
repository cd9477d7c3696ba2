-- ===== src/Selection/Modifiers.antt =====
-- validate_afbc_format, get_afrc_format, get_afbc_format and get_bl_format of
-- src/core/formats.cpp: the modifiers for a base format.
use rk_hardware_libgralloc_b.Capabilities.{
  Feature, Platform, afbc_16x16, afbc_32x8, afbc_block_split_feature, afbc_double_body,
  afbc_tiled_headers, afbc_write_non_sparse, afbc_yuv, afrc_rot_layout, afrc_scan_layout,
  consumers_support, contains, ip_support_feature, is_empty, is_present, mali_gralloc_ip_dpu,
  mali_gralloc_ip_dpu_aeu, mali_gralloc_ip_gpu, mali_gralloc_ip_vpu, producers_support, yuv_bl_10,
  yuv_bl_8,
}
use rk_hardware_libgralloc_b.Format.{
  mali_gralloc_format_internal_rgb_565, mali_gralloc_intfmt_afbc_splitblk,
  mali_gralloc_intfmt_afbc_tiled_headers, mali_gralloc_intfmt_afbc_wideblk,
}
use rk_hardware_libgralloc_b.FormatInfo.{FormatInfo}
use rk_hardware_libgralloc_b.Hal.{Hal}
use rk_hardware_libgralloc_b.InternalFormat.{
  Checked, InternalFormat, bytes_16, bytes_24, bytes_32, clear_modifiers, from_android,
  get_afbc_32x8, get_afbc_block_split, get_afbc_double_body, get_afbc_sparse, get_base,
  get_modifier, is_afbc, make_afbc, make_afrc, make_block_linear, ok, set_afbc_32x8, set_afbc_64x4,
  set_afbc_block_split, set_afbc_double_body, set_afbc_sparse, set_afbc_tiled_headers,
  set_afbc_yuv_transform, set_afrc_chroma_coding_size, set_afrc_luma_coding_size,
  set_afrc_rot_layout, set_modifier, ◌>>=◌,
}
use rk_hardware_libgralloc_b.Prelude.{
  Bool, Option, bit_and, false, if◌then◌else◌, ltb, none, not, some, true, ℕ, ◌&&◌, ◌==◌, ◌||◌,
}
use rk_hardware_libgralloc_b.Selection.Support.{is_subsampled_yuv}
use rk_hardware_libgralloc_b.Usages.{
  gralloc_usage_is_frontbuffer, mali_gralloc_usage_afrc_chroma_coding_size_16,
  mali_gralloc_usage_afrc_chroma_coding_size_24, mali_gralloc_usage_afrc_chroma_coding_size_32,
  mali_gralloc_usage_afrc_chroma_coding_size_mask, mali_gralloc_usage_afrc_rgba_luma_coding_size_16,
  mali_gralloc_usage_afrc_rgba_luma_coding_size_24,
  mali_gralloc_usage_afrc_rgba_luma_coding_size_32,
  mali_gralloc_usage_afrc_rgba_luma_coding_size_mask,
}

module _ (hal : Hal) (platform : Platform) where
  -- The steps of validate_afbc_format, in their order: double body, split block of sub-sampled
  -- formats, split block of others, then the features that the blocks lack.
  unfoldable pub validate_double_body : InternalFormat → InternalFormat
  validate_double_body f =
      if get_afbc_double_body f then set_afbc_64x4 (set_afbc_32x8 f false) false else f

  unfoldable pub validate_subsampled : InternalFormat → InternalFormat
  validate_subsampled f =
      if get_afbc_32x8 f && get_afbc_block_split f && is_subsampled_yuv hal platform f
      then set_afbc_block_split f false
      else f

  unfoldable pub validate_split_block : ℕ → ℕ → ℕ → InternalFormat → InternalFormat
  validate_split_block base_format producers consumers f =
      if get_afbc_32x8 f
        && not (get_afbc_block_split f)
        && not (is_subsampled_yuv hal platform f)
        && not (base_format == mali_gralloc_format_internal_rgb_565 hal)
      then (if ip_support_feature platform producers consumers afbc_block_split_feature
          then set_afbc_block_split f true
          else set_afbc_32x8 f false)
      else f

  unfoldable pub validate_rgb_565 : ℕ → InternalFormat → InternalFormat
  validate_rgb_565 base_format f =
      if base_format == mali_gralloc_format_internal_rgb_565 hal
      then set_afbc_block_split f false
      else f

  unfoldable pub validate_basic : ℕ → ℕ → InternalFormat → InternalFormat
  validate_basic producers consumers f =
      if is_afbc f && not (ip_support_feature platform producers consumers afbc_16x16)
      then clear_modifiers f
      else f

  -- `if (get(flag) && !support(feature)) { set(flag, false); }`
  unfoldable pub validate_feature : ℕ → ℕ → ℕ → Feature → InternalFormat → InternalFormat
  validate_feature producers consumers flag feature f =
      if get_modifier f flag && not (ip_support_feature platform producers consumers feature)
      then set_modifier f flag false
      else f

  unfoldable pub validate_sparse : ℕ → InternalFormat → InternalFormat
  validate_sparse producers f =
      if not (get_afbc_sparse f)
        && (not (producers_support platform producers afbc_write_non_sparse) || is_empty producers)
      then set_afbc_sparse f true
      else f

  unfoldable pub validate_afbc_format : InternalFormat → ℕ → ℕ → InternalFormat
  validate_afbc_format alloc_format producers consumers =
      let base_format = get_base alloc_format in
      validate_sparse producers (
        validate_feature producers consumers mali_gralloc_intfmt_afbc_tiled_headers
          afbc_tiled_headers
          (validate_feature producers consumers mali_gralloc_intfmt_afbc_wideblk afbc_32x8 (
            validate_feature producers consumers mali_gralloc_intfmt_afbc_splitblk
              afbc_block_split_feature
              (validate_basic producers consumers (
                validate_rgb_565 base_format (
                  validate_split_block base_format producers consumers
                    (validate_subsampled (validate_double_body alloc_format))))))))

  -- The coding size that a usage field asks for, by the values of its three sizes.
  unfoldable pub coding_size_of_usage : ℕ → ℕ → ℕ → ℕ → Option ℕ
  coding_size_of_usage field size_16 size_24 size_32 =
      if field == size_16
      then some bytes_16
      else if field == size_24
      then some bytes_24
      else if field == size_32
      then some bytes_32
      else none

  unfoldable pub set_afrc_coding_sizes :
      FormatInfo → ℕ → InternalFormat → InternalFormat → InternalFormat
  set_afrc_coding_sizes format usage base_format alloc_format =
      let chroma = bit_and usage mali_gralloc_usage_afrc_chroma_coding_size_mask in
      elim (coding_size_of_usage (bit_and usage mali_gralloc_usage_afrc_rgba_luma_coding_size_mask)
        mali_gralloc_usage_afrc_rgba_luma_coding_size_16
        mali_gralloc_usage_afrc_rgba_luma_coding_size_24
        mali_gralloc_usage_afrc_rgba_luma_coding_size_32) [
          | none ↦ base_format
          | some luma ↦
              let with_luma = set_afrc_luma_coding_size alloc_format luma in
              if format.is_yuv
              then elim (coding_size_of_usage chroma mali_gralloc_usage_afrc_chroma_coding_size_16
                  mali_gralloc_usage_afrc_chroma_coding_size_24
                  mali_gralloc_usage_afrc_chroma_coding_size_32) [
                    | none ↦ base_format
                    | some size ↦ set_afrc_chroma_coding_size with_luma size
                  ]
              else if not (chroma == 0)
              then base_format
              else with_luma
        ]

  unfoldable pub get_afrc_format : FormatInfo → ℕ → ℕ → ℕ → Checked InternalFormat
  get_afrc_format format usage producers consumers = from_android format.id >>= λ base_format.
      if ip_support_feature platform producers consumers afrc_rot_layout
      then ok (
          set_afrc_coding_sizes format usage base_format
            (set_afrc_rot_layout (make_afrc base_format) true))
      else if ip_support_feature platform producers consumers afrc_scan_layout
      then ok (set_afrc_coding_sizes format usage base_format (make_afrc base_format))
      else ok base_format

  -- The tests of get_afbc_format that return the base format.
  unfoldable pub avoids_afbc : FormatInfo → ℕ → ℕ → Bool
  avoids_afbc format producers consumers =
      (format.is_yuv
        && not (is_empty consumers)
        && not (consumers_support platform consumers afbc_yuv))
      || (format.is_yuv && not (producers_support platform producers afbc_yuv))
      || (contains producers mali_gralloc_ip_vpu && contains consumers mali_gralloc_ip_vpu)
      || not (ip_support_feature platform producers consumers afbc_16x16)

  unfoldable pub enables_split_block : FormatInfo → ℕ → ℕ → Bool
  enables_split_block format producers consumers =
      not (format.is_yuv && contains producers mali_gralloc_ip_gpu)
      && not (
          (not format.is_rgb || ltb format.bpp.p0 24)
          && (contains producers mali_gralloc_ip_dpu_aeu || contains consumers mali_gralloc_ip_dpu))

  -- AFBC, the YUV transform, sparse and tiled headers with their double body.
  unfoldable pub set_afbc_layout : FormatInfo → ℕ → ℕ → ℕ → InternalFormat → InternalFormat
  set_afbc_layout format usage producers consumers base_format =
      let afbc = set_afbc_yuv_transform (make_afbc base_format) format.yuv_transform in
      let layout =
        if is_empty producers || not (producers_support platform producers afbc_write_non_sparse)
        then set_afbc_sparse afbc true
        else afbc in
      let tiled = set_afbc_tiled_headers layout true in
      if ip_support_feature platform producers consumers afbc_tiled_headers
      then (if gralloc_usage_is_frontbuffer usage
            && ip_support_feature platform producers consumers afbc_double_body
          then set_afbc_double_body tiled true
          else tiled)
      else layout

  -- The superblocks for a GPU that produces for a display.
  unfoldable pub set_afbc_blocks : FormatInfo → ℕ → ℕ → InternalFormat → InternalFormat
  set_afbc_blocks format producers consumers f =
      let blocks =
        if ip_support_feature platform producers consumers afbc_32x8 && not format.is_yuv
        then set_afbc_32x8 f true
        else f in
      if contains producers mali_gralloc_ip_gpu
        && contains consumers mali_gralloc_ip_dpu
        && is_present platform mali_gralloc_ip_dpu
      then (if ip_support_feature platform producers consumers afbc_block_split_feature
          then set_afbc_block_split blocks (enables_split_block format producers consumers)
          else blocks)
      else f

  unfoldable pub get_afbc_format : FormatInfo → ℕ → ℕ → ℕ → Checked InternalFormat
  get_afbc_format format usage producers consumers = from_android format.id >>= λ base_format.
      if avoids_afbc format producers consumers
      then ok base_format
      else ok (
          validate_afbc_format
            (set_afbc_blocks format producers consumers
              (set_afbc_layout format usage producers consumers base_format))
            producers consumers)

  unfoldable pub get_bl_format : InternalFormat → ℕ → ℕ → InternalFormat
  get_bl_format base_format producers consumers =
      if ip_support_feature platform producers consumers yuv_bl_8
        || ip_support_feature platform producers consumers yuv_bl_10
      then make_block_linear base_format
      else base_format
