-- ===== src/Selection/Adjustment.antt =====
-- The dimensions that mali_gralloc_adjust_dimensions (src/core/formats.cpp) leaves.
use native.Mathlib.Nat.{le_trans}
use rk_hardware_libgralloc_b.Align.{gralloc_align_int, gralloc_align_int-IsAlignment}
use rk_hardware_libgralloc_b.Allocation.Dimensions.{Rect}
use rk_hardware_libgralloc_b.Capabilities.{contains, mali_gralloc_ip_gpu}
use rk_hardware_libgralloc_b.Hal.{Hal}
use rk_hardware_libgralloc_b.InternalFormat.{InternalFormat, get_base, is_afbc}
use rk_hardware_libgralloc_b.Prelude.{
  Bool, Bool-cases, arith, bit_and, false, if◌then◌else◌, inl, inr, true, ℕ, ◌&&◌, ◌*◌, ◌+◌, ◌<◌,
  ◌==◌, ◌^◌, ◌≤◌,
}
use rk_hardware_libgralloc_b.Prelude.Words.{u32}
use rk_hardware_libgralloc_b.Selection.Parties.{
  align_alloc_height, get_producers, is_depth_or_stencil, mali_gralloc_adjust_dimensions,
}
use rk_hardware_libgralloc_b.Usages.{
  rk_gralloc_usage_alloc_height_align_16, rk_gralloc_usage_alloc_height_align_64,
  rk_gralloc_usage_alloc_height_align_8, rk_gralloc_usage_alloc_height_align_mask,
}

align_int_bounds :
    (value base : ℕ)
    → 0 < base
    → base ≤ 64
    → value ≤ 2 ^ 30 + 2 ^ 10
    → (value ≤ gralloc_align_int value base) × (gralloc_align_int value base ≤ value + 64)
align_int_bounds value base positive small le =
    let r = gralloc_align_int-IsAlignment value base positive (omega arith) in
    (r.covers, omega (arith, r.tight))

align_alloc_height_bounds :
    (usage height : ℕ)
    → height ≤ 2 ^ 29
    → (height ≤ align_alloc_height usage height) × (align_alloc_height usage height ≤ height + 64)
unfolding align_alloc_height
align_alloc_height_bounds usage height le =
    let flag = bit_and usage rk_gralloc_usage_alloc_height_align_mask in
    elim (Bool-cases (flag == rk_gralloc_usage_alloc_height_align_8)) [
      | inl eight ↦ rw eight (align_int_bounds height 8 (omega arith) (omega arith) (omega arith))
      | inr no_8 ↦ elim (Bool-cases (flag == rk_gralloc_usage_alloc_height_align_16)) [
        | inl sixteen ↦
            rw (no_8, sixteen)
              (align_int_bounds height 16 (omega arith) (omega arith) (omega arith))
        | inr no_16 ↦ elim (Bool-cases (flag == rk_gralloc_usage_alloc_height_align_64)) [
          | inl many ↦
              rw (no_8, no_16, many)
                (align_int_bounds height 64 (omega arith) (omega arith) (omega arith))
          | inr no_64 ↦ rw (no_8, no_16, no_64) (omega arith, omega arith)
        ]
      ]
    ]

-- The height after depth and stencil formats have doubled it.
doubled_bounds :
    (is_depth : Bool) (height aligned : ℕ)
    → height ≤ 2 ^ 29
    → height ≤ aligned
    → aligned ≤ height + 64
    → (height ≤ (if is_depth then u32 (aligned * 2) else aligned))
      × ((if is_depth then u32 (aligned * 2) else aligned) ≤ 2 ^ 30 + 2 ^ 10)
doubled_bounds true height aligned le near far = (omega arith, omega arith)
doubled_bounds false height aligned le near far = (omega arith, omega arith)

-- For a request of at most 2 ^ 29 by 2 ^ 29 pixels, mali_gralloc_adjust_dimensions makes neither
-- dimension smaller, whatever the usage and the format, and the dimensions stay at most
-- 2 ^ 30 + 2 ^ 11, so that they are still positive as `int`.
pub mali_gralloc_adjust_dimensions-covers :
    (hal : Hal) (alloc_format : InternalFormat) (usage : ℕ) (size : Rect)
    → size.width ≤ 2 ^ 29
    → size.height ≤ 2 ^ 29
    → (size.width ≤ (mali_gralloc_adjust_dimensions hal alloc_format usage size).width)
      × (size.height ≤ (mali_gralloc_adjust_dimensions hal alloc_format usage size).height)
      × ((mali_gralloc_adjust_dimensions hal alloc_format usage size).width ≤ 2 ^ 30 + 2 ^ 11)
      × ((mali_gralloc_adjust_dimensions hal alloc_format usage size).height ≤ 2 ^ 30 + 2 ^ 11)
unfolding mali_gralloc_adjust_dimensions
mali_gralloc_adjust_dimensions-covers hal alloc_format usage size wide high =
    let (near, far) = align_alloc_height_bounds usage size.height high in
    let (tall, fits) =
      doubled_bounds (is_depth_or_stencil hal (get_base alloc_format)) size.height
        (align_alloc_height usage size.height) high near far in
    elim (Bool-cases (contains (get_producers usage) mali_gralloc_ip_gpu && is_afbc alloc_format)) [
      | inl tiles ↦
          let (w, w_le) =
            align_int_bounds size.width 16 (omega arith) (omega arith) (omega arith) in
          let (h, h_le) = align_int_bounds _ 16 (omega arith) (omega arith) fits in
          rw tiles (w, le_trans tall h, omega (arith, w_le), omega (arith, h_le, fits))
      | inr other ↦ rw other (omega arith, tall, omega arith, omega (arith, fits))
    ]
