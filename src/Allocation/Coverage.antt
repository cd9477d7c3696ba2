-- ===== src/Allocation/Coverage.antt =====
-- The dimensions that get_pixel_w_h (src/core/buffer_allocation.cpp) gives a plane.
use native.Mathlib.Nat.{
  div-add-mod', div-eq_of_eq-mul_left, div-le_self, le_trans, mul-le-mul_right, mul_assoc,
}
use rk_hardware_libgralloc_b.Align.{IsAlignment, gralloc_align, gralloc_align-IsAlignment}
use rk_hardware_libgralloc_b.AllocType.{AllocType}
use rk_hardware_libgralloc_b.Allocation.Dimensions.{
  Rect, get_pixel_align, get_pixel_w_h, get_sub_sampled_h, get_sub_sampled_w, max_int, max_int3,
}
use rk_hardware_libgralloc_b.FormatInfo.{FormatInfo}
use rk_hardware_libgralloc_b.FormatInfo.WellFormed.{has_geometry, implies, is_power_of_two}
use rk_hardware_libgralloc_b.Prelude.{
  Bool, ap, arith, false, if◌then◌else◌, inl, inr, ltb, lt→ltb, refl, suc, sym, true, zero, ℕ, ◌%◌,
  ◌&&◌, ◌*◌, ◌+◌, ◌/◌, ◌<◌, ◌==◌, ◌^◌, ◌∙◌, ◌≡◌, ◌≤◌, ◌⊎◌,
}
use rk_hardware_libgralloc_b.Prelude.Words.{int_lt}

-- The alignment base of get_pixel_w_h is a positive number of at most 2 ^ 16.
pub max_int3_bounds :
    (a b : ℕ) → a ≤ 2 ^ 16 → b ≤ 2 ^ 16 → (0 < max_int3 1 a b) × (max_int3 1 a b ≤ 2 ^ 16)
unfolding max_int3 max_int int_lt
max_int3_bounds a b ha hb = ground arith

-- Rounding up and sub-sampling keeps at least the requested number of samples.
sub_sampled :
    (size align sub : ℕ)
    → 0 < align
    → align ≤ 2 ^ 16
    → 0 < sub
    → size ≤ 2 ^ 30
    → align % sub ≡ 0
    → (size ≤ gralloc_align size align / sub * sub)
      × (gralloc_align size align / sub ≤ 2 ^ 30 + 2 ^ 16)
sub_sampled size align sub ha hb hs le divides =
    let r = gralloc_align-IsAlignment size align ha (omega arith) in
    let parts : align ≡ align / sub * sub = omega (arith, div-add-mod' align sub) in
    let product : gralloc_align size align ≡ r.blocks * (align / sub) * sub =
      r.multiple
      ∙ ap (λ (t : ℕ). r.blocks * t) parts
      ∙ sym (mul_assoc r.blocks (align / sub) sub) in
    let quotient : gralloc_align size align / sub ≡ r.blocks * (align / sub) =
      div-eq_of_eq-mul_left hs product in
    (
      rw (quotient, sym product) r.covers,
      le_trans (div-le_self (gralloc_align size align) sub) (omega (arith, r.tight)),
    )

power_bounds : (n : ℕ) → is_power_of_two n ≡ true → (0 < n) × (n ≤ 128)
unfolding is_power_of_two
power_bounds n h = ground arith

-- What the table says of the numbers that the dimensions of a plane are computed from.
geometry_bounds :
    (f : FormatInfo)
    → has_geometry f ≡ true
    → (0 < f.align_w)
      × (f.align_w ≤ 128)
      × (0 < f.align_h)
      × (f.align_h ≤ 128)
      × (f.tile_size ≤ 128)
unfolding has_geometry
geometry_bounds f h =
    let w : is_power_of_two f.align_w ≡ true = ground arith in
    let l : is_power_of_two f.align_h ≡ true = ground arith in
    let t : is_power_of_two f.tile_size ≡ true = ground arith in
    (
      (power_bounds _ w).0,
      (power_bounds _ w).1,
      (power_bounds _ l).0,
      (power_bounds _ l).1,
      (power_bounds _ t).1,
    )

implies_elim : (a b : Bool) → implies a b ≡ true → a ≡ true → b ≡ true
unfolding implies
implies_elim true b h e = h
implies_elim false b h e = cc

and_elim : (a b : Bool) → (a && b) ≡ true → (a ≡ true) × (b ≡ true)
and_elim true b h = (refl, h)
and_elim false b h = cc

equal_elim : (a b : ℕ) → (a == b) ≡ true → a ≡ b
equal_elim a b h = ground arith

-- The implications of the table's check about sub-sampling.
geometry_implications :
    (f : FormatInfo)
    → has_geometry f ≡ true
    → (implies f.is_yuv ((f.align_w % f.hsub == 0) && (f.align_h % f.vsub == 0)) ≡ true)
      × (implies (ltb 1 f.npln) (is_power_of_two f.hsub && is_power_of_two f.vsub) ≡ true)
unfolding has_geometry
geometry_implications f h = (ground arith, ground arith)

sub_sampling_bounds :
    (f : FormatInfo)
    → has_geometry f ≡ true
    → f.is_yuv ≡ true
    → 1 < f.npln
    → (0 < f.hsub) × (0 < f.vsub) × (f.align_w % f.hsub ≡ 0) × (f.align_h % f.vsub ≡ 0)
sub_sampling_bounds f h yuv planes_lt =
    let (divides, powers) = geometry_implications f h in
    let (dw, dl) = and_elim _ _ (implies_elim _ _ divides yuv) in
    let (w, l) = and_elim _ _ (implies_elim _ _ powers (lt→ltb _ _ planes_lt)) in
    ((power_bounds _ w).0, (power_bounds _ l).0, equal_elim _ _ dw, equal_elim _ _ dl)

-- The sub-sampling of a plane: none for the first.
unfoldable pub plane_hsub : FormatInfo → ℕ → ℕ
plane_hsub f plane = if ltb 0 plane then f.hsub else 1

unfoldable pub plane_vsub : FormatInfo → ℕ → ℕ
plane_vsub f plane = if ltb 0 plane then f.vsub else 1

pub sub_sampled_w :
    (f : FormatInfo) (plane width : ℕ)
    → has_geometry f ≡ true
    → (plane ≡ 0) ⊎ (f.is_yuv ≡ true)
    → plane < f.npln
    → width ≤ 2 ^ 30
    → (width ≤ get_sub_sampled_w f plane width * plane_hsub f plane)
      × (get_sub_sampled_w f plane width ≤ 2 ^ 30 + 2 ^ 16)
unfolding get_sub_sampled_w plane_hsub
sub_sampled_w f zero width h kind below le =
    let (w, w_le, _, _, _) = geometry_bounds f h in
    let r = gralloc_align-IsAlignment width f.align_w w (omega arith) in
    (omega (arith, r.covers), omega (arith, r.tight))
sub_sampled_w f (suc plane) width h kind below le =
    let (w, w_le, _, _, _) = geometry_bounds f h in
    let yuv : f.is_yuv ≡ true = elim kind [ inl first ↦ absurd (omega arith) | inr yuv ↦ yuv ] in
    let (sub, _, divides, _) = sub_sampling_bounds f h yuv (omega arith) in
    let later : ltb 0 (suc plane) ≡ true = lt→ltb _ _ (omega arith) in
    rw later (sub_sampled width f.align_w f.hsub w (omega arith) sub le divides)

pub sub_sampled_h :
    (f : FormatInfo) (plane height : ℕ)
    → has_geometry f ≡ true
    → (plane ≡ 0) ⊎ (f.is_yuv ≡ true)
    → plane < f.npln
    → height ≤ 2 ^ 30
    → (height ≤ get_sub_sampled_h f plane height * plane_vsub f plane)
      × (get_sub_sampled_h f plane height ≤ 2 ^ 30 + 2 ^ 16)
unfolding get_sub_sampled_h plane_vsub
sub_sampled_h f zero height h kind below le =
    let (_, _, l, l_le, _) = geometry_bounds f h in
    let r = gralloc_align-IsAlignment height f.align_h l (omega arith) in
    (omega (arith, r.covers), omega (arith, r.tight))
sub_sampled_h f (suc plane) height h kind below le =
    let (_, _, l, l_le, _) = geometry_bounds f h in
    let yuv : f.is_yuv ≡ true = elim kind [ inl first ↦ absurd (omega arith) | inr yuv ↦ yuv ] in
    let (_, sub, _, divides) = sub_sampling_bounds f h yuv (omega arith) in
    let later : ltb 0 (suc plane) ≡ true = lt→ltb _ _ (omega arith) in
    rw later (sub_sampled height f.align_h f.vsub l (omega arith) sub le divides)

-- For an entry of the table of formats and a buffer of at most 2 ^ 30 by 2 ^ 30 pixels, every plane
-- that get_pixel_w_h describes covers the requested size once its sub-sampling is undone (the
-- first plane of any format, the others of a YUV format), and each dimension is the least multiple
-- of the alignment that reaches the sub-sampled size.
pub get_pixel_w_h-covers :
    (f : FormatInfo) (alloc_type : AllocType) (plane : ℕ) (cpu : Bool) (size : Rect)
    → has_geometry f ≡ true
    → (plane ≡ 0) ⊎ (f.is_yuv ≡ true)
    → plane < f.npln
    → size.width ≤ 2 ^ 30
    → size.height ≤ 2 ^ 30
    → (get_pixel_align f alloc_type plane cpu).width ≤ 2 ^ 16
    → (get_pixel_align f alloc_type plane cpu).height ≤ 2 ^ 16
    → (size.width ≤ (get_pixel_w_h f alloc_type plane cpu size).width * plane_hsub f plane)
      × (size.height ≤ (get_pixel_w_h f alloc_type plane cpu size).height * plane_vsub f plane)
      × IsAlignment
          (get_sub_sampled_w f plane size.width)
          (max_int3 1 (get_pixel_align f alloc_type plane cpu).width f.tile_size)
          (get_pixel_w_h f alloc_type plane cpu size).width
      × IsAlignment
          (get_sub_sampled_h f plane size.height)
          (max_int3 1 (get_pixel_align f alloc_type plane cpu).height f.tile_size)
          (get_pixel_w_h f alloc_type plane cpu size).height
unfolding get_pixel_w_h
get_pixel_w_h-covers f alloc_type plane cpu size h kind below wide high aw ah =
    let (_, _, _, _, tile) = geometry_bounds f h in
    let (wide_enough, w_le) = sub_sampled_w f plane size.width h kind below wide in
    let (high_enough, h_le) = sub_sampled_h f plane size.height h kind below high in
    let (w_pos, w_base) =
      max_int3_bounds (get_pixel_align f alloc_type plane cpu).width f.tile_size aw (omega arith) in
    let (h_pos, h_base) =
      max_int3_bounds (get_pixel_align f alloc_type plane cpu).height f.tile_size ah
        (omega arith) in
    let w =
      gralloc_align-IsAlignment (get_sub_sampled_w f plane size.width) _ w_pos (omega arith) in
    let l =
      gralloc_align-IsAlignment (get_sub_sampled_h f plane size.height) _ h_pos (omega arith) in
    (
      le_trans wide_enough (mul-le-mul_right (plane_hsub f plane) w.covers),
      le_trans high_enough (mul-le-mul_right (plane_vsub f plane) l.covers),
      w,
      l,
    )
