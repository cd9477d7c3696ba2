-- ===== src/Access/Region.antt =====
-- validate_lock_input_parameters of src/core/buffer_access.cpp: the region of a lock request, four
-- `int`s, and the process that makes it. The code under `#if 0` is not compiled.
use rk_hardware_libgralloc_b.Handle.{ImportedHandle}
use rk_hardware_libgralloc_b.Prelude.{Bool, if◌then◌else◌, not, ℕ, ◌&&◌, ◌+◌, ◌-◌, ◌==◌, ◌^◌}
use rk_hardware_libgralloc_b.Prelude.Words.{int_lt, is_negative, u32}

-- errno.h and hardware/gralloc1.h, neither of which is in the repository, declare the codes.
pub record ErrorCodes : Type 0 where
  pub errno_einval : ℕ
  pub gralloc1_error_unsupported : ℕ

-- `-code` as an `int`.
abbrev pub negated : ℕ → ℕ
negated code = u32 (2 ^ 32 - code)

pub record AccessRegion : Type 0 where
  pub left : ℕ
  pub top : ℕ
  pub width : ℕ
  pub height : ℕ

unfoldable pub is_inside : ImportedHandle → AccessRegion → Bool
is_inside hnd region =
    not (is_negative region.left)
    && not (is_negative region.top)
    && not (is_negative region.width)
    && not (is_negative region.height)
    && not (is_negative (u32 (region.left + region.width)))
    && not (is_negative (u32 (region.top + region.height)))
    && not (int_lt hnd.raw.height (u32 (region.top + region.height)))
    && not (int_lt hnd.raw.width (u32 (region.left + region.width)))

-- `pid` is the process that locks.
unfoldable pub validate_lock_input_parameters : ErrorCodes → ℕ → ImportedHandle → AccessRegion → ℕ
validate_lock_input_parameters codes pid hnd region =
    if is_inside hnd region && (hnd.import_pid == pid) then 0 else negated codes.errno_einval
