-- ===== src/Access/Lock.antt =====
-- mali_gralloc_lock and mali_gralloc_lock_ycbcr of src/core/buffer_access.cpp. A pointer is its
-- 64-bit address, and 0 is the null pointer. The reserved members of android_ycbcr, which are set to
-- 0 on success, are left out.
use rk_hardware_libgralloc_b.Access.Region.{
  AccessRegion, ErrorCodes, negated, validate_lock_input_parameters,
}
use rk_hardware_libgralloc_b.Access.Sync.{Allocator, buffer_sync, get_tx_direction, mali_map_buffer}
use rk_hardware_libgralloc_b.Allocation.Stride.{has_cpu_usage}
use rk_hardware_libgralloc_b.Format.{
  mali_gralloc_format_internal_nv12, mali_gralloc_format_internal_nv21,
  mali_gralloc_format_internal_y16, mali_gralloc_format_internal_y8,
  mali_gralloc_format_internal_yu12, mali_gralloc_format_internal_yv12,
}
use rk_hardware_libgralloc_b.FormatInfo.{get_base_info}
use rk_hardware_libgralloc_b.Hal.{Hal}
use rk_hardware_libgralloc_b.Handle.{ImportedHandle}
use rk_hardware_libgralloc_b.InternalFormat.{Checked, abort, get_base, ok}
use rk_hardware_libgralloc_b.Prelude.{
  Bool, Option, if◌then◌else◌, none, not, some, ℕ, ◌+◌, ◌==◌, ◌||◌,
}
use rk_hardware_libgralloc_b.Prelude.Words.{u64}

pub record LockResult : Type 0 where
  pub status : ℕ
  pub vaddr : Option ℕ
  pub buffer : ImportedHandle

abbrev pub failed_lock : ℕ → ImportedHandle → LockResult
failed_lock status hnd = record { status = status; vaddr = none; buffer = hnd }

abbrev pub address_of : Option ℕ → ℕ
address_of none = 0
address_of (some pointer) = pointer

-- The address `offset` bytes further.
abbrev pub at_offset : ImportedHandle → ℕ → ℕ
at_offset hnd offset = u64 (address_of hnd.base + offset)

module _ (hal : Hal) (codes : ErrorCodes) (allocator : Allocator) (pid : ℕ) where
  -- Once the buffer is mapped.
  unfoldable pub lock_mapped : ℕ → ℕ × ImportedHandle → LockResult
  lock_mapped usage (status, hnd) =
      if status == 0
      then record {
        status = 0;
        vaddr = hnd.base;
        buffer = buffer_sync allocator hnd (get_tx_direction usage);
      }
      else failed_lock status hnd

  unfoldable pub lock_for_cpu : ImportedHandle → ℕ → Bool → LockResult
  lock_for_cpu hnd usage vaddr_given =
      if not (has_cpu_usage usage)
      then record { status = 0; vaddr = none; buffer = hnd }
      else if not vaddr_given
      then failed_lock (negated codes.errno_einval) hnd
      else lock_mapped usage (mali_map_buffer allocator hnd)

  unfoldable pub mali_gralloc_lock : ImportedHandle → ℕ → AccessRegion → Bool → LockResult
  mali_gralloc_lock hnd usage region vaddr_given =
      let status = validate_lock_input_parameters codes pid hnd region in
      if not (status == 0)
      then failed_lock status hnd
      else elim (get_base_info hal hnd.raw.alloc_format) [
        | none ↦ failed_lock (negated codes.errno_einval) hnd
        | some _ ↦ lock_for_cpu hnd usage vaddr_given
      ]

pub record Ycbcr : Type 0 where
  pub y : ℕ
  pub cb : ℕ
  pub cr : ℕ
  pub ystride : ℕ
  pub cstride : ℕ
  pub chroma_step : ℕ

pub record YcbcrResult : Type 0 where
  pub ycbcr_status : ℕ
  pub ycbcr : Option Ycbcr
  pub ycbcr_buffer : ImportedHandle

abbrev pub failed_ycbcr : ℕ → ImportedHandle → YcbcrResult
failed_ycbcr status hnd = record { ycbcr_status = status; ycbcr = none; ycbcr_buffer = hnd }

abbrev pub no_ycbcr : Ycbcr
no_ycbcr = record { y = 0; cb = 0; cr = 0; ystride = 0; cstride = 0; chroma_step = 0 }

-- The luma plane with the given chroma.
abbrev pub with_chroma : ImportedHandle → ℕ → ℕ → ℕ → ℕ → Ycbcr
with_chroma hnd cb cr cstride chroma_step = record {
  y = address_of hnd.base;
  cb = cb;
  cr = cr;
  ystride = hnd.raw.plane_info.p0.byte_stride;
  cstride = cstride;
  chroma_step = chroma_step;
}

-- The switch on the base format, for a mapped buffer; `none` is its default.
unfoldable pub ycbcr_layout : ImportedHandle → ℕ → Option Ycbcr
ycbcr_layout hnd base_format =
    let second = hnd.raw.plane_info.p1 in
    let third = hnd.raw.plane_info.p2 in
    if (base_format == mali_gralloc_format_internal_y8)
      || (base_format == mali_gralloc_format_internal_y16)
    then some (with_chroma hnd 0 0 0 0)
    else if base_format == mali_gralloc_format_internal_nv12
    then some (
        with_chroma hnd (at_offset hnd second.offset) (u64 (at_offset hnd second.offset + 1))
          second.byte_stride 2)
    else if base_format == mali_gralloc_format_internal_nv21
    then some (
        with_chroma hnd (u64 (at_offset hnd second.offset + 1)) (at_offset hnd second.offset)
          second.byte_stride 2)
    else if base_format == mali_gralloc_format_internal_yv12
    then some (
        with_chroma hnd (at_offset hnd third.offset) (at_offset hnd second.offset)
          second.byte_stride 1)
    else if base_format == mali_gralloc_format_internal_yu12
    then some (
        with_chroma hnd (at_offset hnd second.offset) (at_offset hnd third.offset)
          second.byte_stride 1)
    else none

module _ (hal : Hal) (codes : ErrorCodes) (allocator : Allocator) (pid : ℕ) where
  unfoldable pub lock_mapped_ycbcr : ℕ → ℕ × ImportedHandle → YcbcrResult
  lock_mapped_ycbcr usage (status, hnd) =
      if not (status == 0)
      then failed_ycbcr status hnd
      else elim (ycbcr_layout hnd (get_base hnd.raw.alloc_format)) [
        | none ↦ failed_ycbcr (negated codes.errno_einval) hnd
        | some layout ↦ record {
          ycbcr_status = 0;
          ycbcr = some layout;
          ycbcr_buffer = buffer_sync allocator hnd (get_tx_direction usage);
        }
      ]

  -- Without CPU usage the structure is cleared, and a null pointer to it is not looked for: the
  -- write through it ends the process.
  unfoldable pub lock_ycbcr_for_cpu : ImportedHandle → ℕ → Bool → Checked YcbcrResult
  lock_ycbcr_for_cpu hnd usage ycbcr_given =
      if not (has_cpu_usage usage)
      then (if ycbcr_given
          then ok (record { ycbcr_status = 0; ycbcr = some no_ycbcr; ycbcr_buffer = hnd })
          else abort)
      else if not ycbcr_given
      then ok (failed_ycbcr (negated codes.errno_einval) hnd)
      else ok (lock_mapped_ycbcr usage (mali_map_buffer allocator hnd))

  unfoldable pub mali_gralloc_lock_ycbcr :
      ImportedHandle → ℕ → AccessRegion → Bool → Checked YcbcrResult
  mali_gralloc_lock_ycbcr hnd usage region ycbcr_given =
      let status = validate_lock_input_parameters codes pid hnd region in
      if not (status == 0)
      then ok (failed_ycbcr status hnd)
      else elim (get_base_info hal hnd.raw.alloc_format) [
        | none ↦ ok (failed_ycbcr (negated codes.errno_einval) hnd)
        | some info ↦
            if not info.is_yuv
            then ok (failed_ycbcr (negated codes.errno_einval) hnd)
            else lock_ycbcr_for_cpu hnd usage ycbcr_given
      ]
