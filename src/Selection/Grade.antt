-- ===== src/Selection/Grade.antt =====
-- comparable_components, is_format_compatible and grade_format of src/core/formats.cpp.
use rk_hardware_libgralloc_b.Format.{
  mali_gralloc_format_internal_rgb_565, mali_gralloc_format_internal_rgbx_8888,
  mali_gralloc_intfmt_afbc_basic, mali_gralloc_intfmt_afbc_bch,
  mali_gralloc_intfmt_afbc_double_body, mali_gralloc_intfmt_afbc_extrawideblk,
  mali_gralloc_intfmt_afbc_sparse, mali_gralloc_intfmt_afbc_splitblk,
  mali_gralloc_intfmt_afbc_tiled_headers, mali_gralloc_intfmt_afbc_wideblk,
  mali_gralloc_intfmt_afbc_yuv_transform, mali_gralloc_intfmt_afrc_basic,
  mali_gralloc_intfmt_block_linear_basic,
}
use rk_hardware_libgralloc_b.FormatInfo.{
  FormatInfo, base_info, get_format_info, is_same_or_components_reordered, total_components,
}
use rk_hardware_libgralloc_b.Hal.{Hal}
use rk_hardware_libgralloc_b.InternalFormat.{
  Checked, InternalFormat, abort, get_base, is_afrc, ok, ◌>>=◌,
}
use rk_hardware_libgralloc_b.Prelude.{
  Bool, List, [], if◌then◌else◌, none, not, same_bool, some, ℕ, ◌&&◌, ◌+◌, ◌==◌, ◌^◌, ◌||◌, ◌∷◌,
}
use rk_hardware_libgralloc_b.Prelude.Bits.{has_bits}

module _ (hal : Hal) where
  unfoldable pub comparable_components : FormatInfo → FormatInfo → Bool
  comparable_components f_old f_new =
      if f_old.is_yuv && (f_new.bps == f_old.bps)
      then (total_components f_new == total_components f_old)
        || (f_old.has_alpha && (total_components f_new == 3) && f_new.is_yuv && not f_new.has_alpha)
      else if f_old.is_rgb
      then (total_components f_new == total_components f_old)
        && (((f_new.bpp.p0 == f_old.bpp.p0) && (f_new.bps == f_old.bps))
            || ((f_old.id == mali_gralloc_format_internal_rgbx_8888 hal) && (f_new.bpp.p0 == 24))
            || ((f_old.id == mali_gralloc_format_internal_rgb_565 hal) && (f_new.bpp.p0 == 24)))
      else f_new.id == f_old.id

  unfoldable pub is_format_compatible : FormatInfo → FormatInfo → Bool
  is_format_compatible f_old f_new =
      (f_new.hsub == f_old.hsub)
      && (f_new.vsub == f_old.vsub)
      && same_bool f_new.is_rgb f_old.is_rgb
      && same_bool f_new.is_yuv f_old.is_yuv
      && comparable_components f_old f_new

  -- The table `fmt_ext_values`.
  abbrev pub fmt_ext_values : List (ℕ × ℕ)
  fmt_ext_values =
      (mali_gralloc_intfmt_afbc_basic, 2 ^ 1)
      ∷ (mali_gralloc_intfmt_afbc_splitblk, 1)
      ∷ (mali_gralloc_intfmt_afbc_wideblk, 1)
      ∷ (mali_gralloc_intfmt_afbc_tiled_headers, 1)
      ∷ (mali_gralloc_intfmt_afbc_extrawideblk, 1)
      ∷ (mali_gralloc_intfmt_afbc_double_body, 1)
      ∷ (mali_gralloc_intfmt_afbc_bch, 1)
      ∷ (mali_gralloc_intfmt_afbc_yuv_transform, 1)
      ∷ (mali_gralloc_intfmt_afbc_sparse, 1)
      ∷ (mali_gralloc_intfmt_block_linear_basic, 1)
      ∷ (mali_gralloc_intfmt_afrc_basic, 2 ^ 30)
      ∷ []

  -- The loop over the table.
  unfoldable pub add_grades : List (ℕ × ℕ) → ℕ → ℕ → ℕ
  add_grades [] modifiers grade = grade
  add_grades ((fmt_ext, value) ∷ rest) modifiers grade =
      add_grades rest modifiers (if has_bits modifiers fmt_ext then grade + value else grade)

  -- The grade of a format whose entry is `found` for a request whose entry is `req_info`.
  unfoldable pub grade_of : InternalFormat → ℕ → FormatInfo → FormatInfo → ℕ
  grade_of fmt requested req_info found =
      let extra = (requested == get_base fmt) || is_same_or_components_reordered req_info found in
      let grade = if is_afrc fmt && extra then 2 else 1 in
      if not (is_afrc fmt) && req_info.is_rgb && not (req_info.bpp.p0 == found.bpp.p0)
      then 0
      else add_grades fmt_ext_values fmt.m_modifiers grade

  -- An unknown requested format, and a format without an entry, end the process.
  unfoldable pub grade_format : InternalFormat → ℕ → Checked ℕ
  grade_format fmt requested = elim (get_format_info hal requested) [
    | none ↦ abort
    | some req_info ↦ base_info hal fmt >>= λ found. ok (grade_of fmt requested req_info found)
  ]
