-- ===== src/Allocation/Yv12.antt =====
-- The strides of YV12 with both CPU and hardware usage (update_yv12_stride of
-- src/core/buffer_allocation.cpp).
use native.Mathlib.Nat.{div-eq_of_eq-mul_left, mod-eq_of_lt, mul_assoc, mul_comm}
use rk_hardware_libgralloc_b.Align.{gralloc_align, gralloc_align-IsAlignment}
use rk_hardware_libgralloc_b.Allocation.Lcm.{Divides}
use rk_hardware_libgralloc_b.Allocation.Stride.{update_yv12_stride}
use rk_hardware_libgralloc_b.Prelude.{
  ap, arith, false, suc, sym, zero, ℕ, ◌*◌, ◌+◌, ◌/◌, ◌<◌, ◌==◌, ◌^◌, ◌∙◌, ◌≡◌, ◌≤◌,
}
use rk_hardware_libgralloc_b.Prelude.Words.{u32}

half_multiple :
    (blocks align total : ℕ)
    → total ≡ blocks * (2 * align)
    → (total / 2 ≡ blocks * align) × (total / 2 * 2 ≡ total)
half_multiple blocks align total e =
    let twice : total ≡ blocks * align * 2 =
      e ∙ ap (λ (t : ℕ). blocks * t) (mul_comm 2 align) ∙ sym (mul_assoc blocks align 2) in
    let half : total / 2 ≡ blocks * align = div-eq_of_eq-mul_left (omega arith) twice in
    (half, omega (arith, half, twice))

-- The stride of a chroma plane is half the luma stride and a multiple of the alignment, as the
-- format and the assert of the function want, where the luma stride is the one that the function
-- gives plane 0; that one is not less than the stride it was given.
pub update_yv12_stride-chroma :
    (plane stride align : ℕ)
    → 0 < plane
    → 0 < align
    → stride + 2 * align ≤ 2 ^ 31
    → Divides align (update_yv12_stride plane (update_yv12_stride 0 stride align) align)
      × (update_yv12_stride plane (update_yv12_stride 0 stride align) align * 2
          ≡ update_yv12_stride 0 stride align)
      × (stride ≤ update_yv12_stride 0 stride align)
unfolding update_yv12_stride
update_yv12_stride-chroma zero stride align chroma positive fits = absurd (omega arith)
update_yv12_stride-chroma (suc plane) stride align chroma positive fits =
    let whole : u32 (2 * align) ≡ 2 * align = mod-eq_of_lt (omega arith) in
    let later : (suc plane == 0) ≡ false = ground arith in
    let r = gralloc_align-IsAlignment stride (2 * align) (omega arith) (omega arith) in
    let (half, twice) =
      half_multiple r.blocks align (gralloc_align stride (2 * align)) r.multiple in
    rw (later, whole) ((r.blocks, sym half), twice, r.covers)
