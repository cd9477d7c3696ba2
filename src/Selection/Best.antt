-- ===== src/Selection/Best.antt =====
-- get_supported_format, get_best_format and select_best_format of src/core/formats.cpp, and the
-- forced formats. The two build options for the composer's framebuffer are off, as by default.
use rk_hardware_libgralloc_b.AllocType.{AllocType, get_alloc_type}
use rk_hardware_libgralloc_b.Capabilities.{
  Platform, contains, mali_gralloc_ip_cpu, mali_gralloc_ip_dpu, mali_gralloc_ip_gpu, remove_ip,
}
use rk_hardware_libgralloc_b.Format.{mali_gralloc_format_internal_undefined}
use rk_hardware_libgralloc_b.FormatInfo.{
  FormatInfo, FormatIpSupport, f_afbc, f_afrc, f_bl_yuv, f_lin, f_none, formats, get_format_info,
  get_format_ip_support,
}
use rk_hardware_libgralloc_b.Hal.{Hal}
use rk_hardware_libgralloc_b.InternalFormat.{
  Checked, InternalFormat, abort, from_android, get_base, invalid, is_afbc, is_afrc,
  is_block_linear, ok, ◌>>=◌,
}
use rk_hardware_libgralloc_b.Prelude.{
  Bool, List, Option, [], false, if◌then◌else◌, ltb, none, not, some, ℕ, ◌&&◌, ◌+◌, ◌==◌, ◌||◌, ◌∷◌,
}
use rk_hardware_libgralloc_b.Prelude.Bits.{has_bits}
use rk_hardware_libgralloc_b.Selection.Grade.{grade_format, is_format_compatible}
use rk_hardware_libgralloc_b.Selection.Modifiers.{get_afbc_format, get_afrc_format, get_bl_format}
use rk_hardware_libgralloc_b.Selection.Support.{is_format_supported}
use rk_hardware_libgralloc_b.Usages.{gralloc_usage_is_no_afbc}

pub record FmtProps : Type 0 where
  pub f_flags : ℕ
  pub format : InternalFormat

-- The variables of the loop of get_best_format.
pub record BestSoFar : Type 0 where
  pub num_supported_formats : ℕ
  pub req_format_grade : ℕ
  pub best_fmt_grade : ℕ
  pub first_of_best_formats : InternalFormat
  pub req_format : InternalFormat

abbrev pub no_best : BestSoFar
no_best = record {
  num_supported_formats = 0;
  req_format_grade = 0;
  best_fmt_grade = 0;
  first_of_best_formats = invalid;
  req_format = invalid;
}

module _ (hal : Hal) (platform : Platform) where
  -- The flags of the table, with the display dropped from the consumers of a format that only the
  -- GPU can compose.
  unfoldable pub get_format_flags : FormatInfo → FormatIpSupport → ℕ → ℕ → ℕ → ℕ
  get_format_flags fmt_info fmt_ip_support usage producers consumers =
      let fmt_flags =
        is_format_supported hal platform fmt_info fmt_ip_support usage producers consumers in
      if (fmt_flags == f_none)
        && contains consumers mali_gralloc_ip_gpu
        && contains consumers mali_gralloc_ip_dpu
      then is_format_supported hal platform fmt_info fmt_ip_support usage producers
          (remove_ip consumers mali_gralloc_ip_dpu)
      else fmt_flags

  -- The attempts at a layout: each is `none` where the next one is tried.
  unfoldable pub try_afrc : FormatInfo → ℕ → ℕ → ℕ → ℕ → Checked (Option FmtProps)
  try_afrc fmt_info usage producers consumers fmt_flags =
      get_afrc_format hal platform fmt_info usage producers consumers >>= λ afrc_format.
      if has_bits fmt_flags f_afrc && is_afrc afrc_format
      then ok (some (record { f_flags = f_afrc; format = afrc_format }))
      else ok none

  unfoldable pub is_allocatable : FormatInfo → Option AllocType → Bool
  is_allocatable fmt_info none = false
  is_allocatable fmt_info (some alloc_type) = (fmt_info.npln == 1) || alloc_type.is_multi_plane

  unfoldable pub try_afbc : FormatInfo → ℕ → ℕ → ℕ → ℕ → Checked (Option FmtProps)
  try_afbc fmt_info usage producers consumers fmt_flags =
      get_afbc_format hal platform fmt_info usage producers consumers >>= λ afbc_format.
      if has_bits fmt_flags f_afbc
        && not (gralloc_usage_is_no_afbc usage)
        && is_afbc afbc_format
        && is_allocatable fmt_info (get_alloc_type hal afbc_format usage)
      then ok (some (record { f_flags = f_afbc; format = afbc_format }))
      else ok none

  unfoldable pub try_others : InternalFormat → ℕ → ℕ → ℕ → Option FmtProps
  try_others base_format producers consumers fmt_flags =
      let bl_format = get_bl_format hal platform base_format producers consumers in
      if has_bits fmt_flags f_bl_yuv && is_block_linear bl_format
      then some (record { f_flags = f_bl_yuv; format = bl_format })
      else if has_bits fmt_flags f_lin
      then some (record { f_flags = f_lin; format = base_format })
      else none

  unfoldable pub get_supported_format : FormatInfo → ℕ → ℕ → ℕ → Checked (Option FmtProps)
  get_supported_format fmt_info usage producers consumers =
      from_android fmt_info.id >>= λ base_format. elim (get_format_ip_support hal fmt_info.id) [
        | none ↦ ok none
        | some fmt_ip_support ↦
            let fmt_flags = get_format_flags fmt_info fmt_ip_support usage producers consumers in
            try_afrc fmt_info usage producers consumers fmt_flags >>= λ with_afrc. elim with_afrc [
              | some props ↦ ok (some props)
              | none ↦ try_afbc fmt_info usage producers consumers fmt_flags >>= λ with_afbc.
                  elim with_afbc [
                    | some props ↦ ok (some props)
                    | none ↦ ok (try_others base_format producers consumers fmt_flags)
                  ]
            ]
      ]

  -- `if (sup_fmt_grade)`.
  unfoldable pub keep_graded : InternalFormat → ℕ → Option (ℕ × InternalFormat)
  keep_graded format grade = if grade == 0 then none else some (grade, format)

  unfoldable pub grade_supported : ℕ → Option FmtProps → Checked (Option (ℕ × InternalFormat))
  grade_supported requested none = ok none
  grade_supported requested (some fmt) =
      grade_format hal fmt.format requested >>= λ grade. ok (keep_graded fmt.format grade)

  -- The body of the loop up to the grade: `none` is `continue`.
  unfoldable pub grade_candidate :
      FormatInfo → ℕ → ℕ → ℕ → ℕ → FormatInfo → Checked (Option (ℕ × InternalFormat))
  grade_candidate req_fmt_info requested usage producers consumers fmt_info =
      if is_format_compatible hal req_fmt_info fmt_info
      then get_supported_format fmt_info usage producers consumers >>= grade_supported requested
      else ok none

-- The rest of the body: what a graded candidate changes.
unfoldable pub take_candidate : ℕ → Option (ℕ × InternalFormat) → BestSoFar → BestSoFar
take_candidate requested none best = best
take_candidate requested (some (grade, format)) best =
    let is_better = ltb best.best_fmt_grade grade in
    let is_requested = get_base format == requested in
    record {
      num_supported_formats = best.num_supported_formats + 1;
      req_format_grade = if is_requested then grade else best.req_format_grade;
      best_fmt_grade = if is_better then grade else best.best_fmt_grade;
      first_of_best_formats = if is_better then format else best.first_of_best_formats;
      req_format = if is_requested then format else best.req_format;
    }

-- The loop, over any way to grade the entries.
unfoldable pub find_best :
    ℕ
    → (FormatInfo → Checked (Option (ℕ × InternalFormat)))
    → List FormatInfo
    → BestSoFar
    → Checked BestSoFar
find_best requested candidate [] best = ok best
find_best requested candidate (fmt_info ∷ rest) best = candidate fmt_info >>= λ graded.
    find_best requested candidate rest (take_candidate requested graded best)

-- 4. Select allocation format from "best" base format with "best" modifiers.
unfoldable pub choose_best : ℕ → ℕ → BestSoFar → InternalFormat
choose_best producers consumers best =
    if ltb 0 best.num_supported_formats
    then (if not (best.req_format_grade == best.best_fmt_grade)
          && (not (contains producers mali_gralloc_ip_cpu)
              && not (contains consumers mali_gralloc_ip_cpu))
        then best.first_of_best_formats
        else if not (best.req_format_grade == 0)
        then best.req_format
        else invalid)
    else invalid

unfoldable pub get_best_format : Hal → Platform → ℕ → ℕ → ℕ → ℕ → Checked InternalFormat
get_best_format hal platform requested usage producers consumers =
    if requested == mali_gralloc_format_internal_undefined
    then abort
    else elim (get_format_info hal requested) [
      | none ↦ abort
      | some req_fmt_info ↦
          find_best requested
            (grade_candidate hal platform req_fmt_info requested usage producers consumers)
            (formats hal) no_best
          >>= λ best. ok (choose_best producers consumers best)
    ]
