-- ===== src/Allocation/Superblocks.antt =====
-- AFBC planes of src/core/buffer_allocation.cpp consist of whole superblocks.
use native.Mathlib.Nat.{mul_assoc}
use rk_hardware_libgralloc_b.Align.{gralloc_align, gralloc_align-IsAlignment}
use rk_hardware_libgralloc_b.AllocType.{
  AllocBaseType, AllocType, afbc_extrawideblk, afbc_wideblk, base_afbc, base_afrc,
  base_block_linear, type_is_afbc, uncompressed,
}
use rk_hardware_libgralloc_b.Allocation.Coverage.{sub_sampled_h, sub_sampled_w}
use rk_hardware_libgralloc_b.Allocation.Dimensions.{
  Rect, get_afbc_pixel_align, get_afbc_sb_size, get_afbc_tile, get_pixel_align, get_pixel_w_h,
  get_plane_sb_size, is_wideblk, max_int, max_int3,
}
use rk_hardware_libgralloc_b.Allocation.Lcm.{Divides}
use rk_hardware_libgralloc_b.FormatInfo.{FormatInfo, at, formats, get_format_info}
use rk_hardware_libgralloc_b.FormatInfo.WellFormed.{
  every, find_format-every, get_format_info-has_geometry, implies,
}
use rk_hardware_libgralloc_b.Hal.{Hal}
use rk_hardware_libgralloc_b.Prelude.{
  Bool-cases, ap, arith, false, inl, inr, ltb, not, refl, some, sym, true, ℕ, ◌&&◌, ◌*◌, ◌+◌, ◌<◌,
  ◌==◌, ◌^◌, ◌∙◌, ◌≡◌, ◌≤◌, ◌⊎◌,
}
use rk_hardware_libgralloc_b.Prelude.Words.{int_lt, u16}

-- The three shapes of a superblock.
pub data IsShape : Rect → Type 0 where
  square : (r : Rect) → r.width ≡ 16 → r.height ≡ 16 → IsShape r
  wide_block : (r : Rect) → r.width ≡ 32 → r.height ≡ 8 → IsShape r
  extra_wide : (r : Rect) → r.width ≡ 64 → r.height ≡ 4 → IsShape r

sb-IsShape : (t : AllocBaseType) → type_is_afbc t ≡ true → IsShape (get_afbc_sb_size t)
unfolding get_afbc_sb_size
sb-IsShape uncompressed h = cc
sb-IsShape base_afbc h = square _ refl refl
sb-IsShape afbc_wideblk h = wide_block _ refl refl
sb-IsShape afbc_extrawideblk h = extra_wide _ refl refl
sb-IsShape base_afrc h = cc
sb-IsShape base_block_linear h = cc

plane_sb-IsShape :
    (alloc_type : AllocType) (plane : ℕ)
    → type_is_afbc alloc_type.primary_type ≡ true
    → IsShape (get_plane_sb_size alloc_type plane)
unfolding get_plane_sb_size
plane_sb-IsShape alloc_type plane h =
    elim (Bool-cases
      (ltb 0 plane && type_is_afbc alloc_type.primary_type && alloc_type.is_multi_plane)) [
        | inl chroma ↦ rw chroma (sb-IsShape afbc_extrawideblk refl)
        | inr primary ↦ rw primary (sb-IsShape alloc_type.primary_type h)
      ]

-- A base for the alignment of a dimension: whole superblocks of `n` pixels, and not large.
IsBase : ℕ → ℕ → Type 0
IsBase n base = Divides n base × (0 < base) × (base ≤ 512)

-- The bases that a dimension of an AFBC plane is aligned to, for a superblock of `n` pixels.
multiples :
    (n c t : ℕ)
    → 0 < n
    → n ≤ 64
    → (c ≡ 0) ⊎ (c ≡ 4)
    → (t ≡ 1) ⊎ (t ≡ 4) ⊎ (t ≡ 8)
    → (base : ℕ) → base ≡ max_int3 1 (max_int (c * n) (u16 (t * n))) 1
    → IsBase n base
unfolding IsBase max_int3 max_int int_lt
multiples n c t pos le hc ht base eq = elim hc [
  | inl c0 ↦ elim ht [
    | inl t1 ↦ ((1, ground arith), ground arith, ground arith)
    | inr (inl t4) ↦ ((4, ground arith), ground arith, ground arith)
    | inr (inr t8) ↦ ((8, ground arith), ground arith, ground arith)
  ]
  | inr c4 ↦ elim ht [
    | inl t1 ↦ ((4, ground arith), ground arith, ground arith)
    | inr (inl t4) ↦ ((4, ground arith), ground arith, ground arith)
    | inr (inr t8) ↦ ((8, ground arith), ground arith, ground arith)
  ]
]

shape_bounds :
    (r : Rect)
    → IsShape r
    → (0 < r.width) × (r.width ≤ 64) × (0 < r.height) × (r.height ≤ 64) × (r.width * r.height ≡ 256)
shape_bounds _ (square r w h) = rw (w, h) (omega arith, omega arith, omega arith, omega arith, refl)
shape_bounds _ (wide_block r w h) =
    rw (w, h) (omega arith, omega arith, omega arith, omega arith, refl)
shape_bounds _ (extra_wide r w h) =
    rw (w, h) (omega arith, omega arith, omega arith, omega arith, refl)

-- An AFBC tile has one, four or eight superblocks in each direction.
tile_shape :
    (format : FormatInfo) (alloc_type : AllocType) (plane : ℕ)
    → (get_plane_sb_size alloc_type plane).width ≤ 64
    → (get_plane_sb_size alloc_type plane).height ≤ 64
    → (t : ℕ) × ((t ≡ 1) ⊎ (t ≡ 4) ⊎ (t ≡ 8))
      × ((get_afbc_tile format alloc_type plane).width
          ≡ u16 (t * (get_plane_sb_size alloc_type plane).width))
      × ((get_afbc_tile format alloc_type plane).height
          ≡ u16 (t * (get_plane_sb_size alloc_type plane).height))
unfolding get_afbc_tile
tile_shape format alloc_type plane w h = elim (Bool-cases alloc_type.is_tiled) [
  | inl tiled ↦ elim (Bool-cases (ltb 32 (at format.bpp_afbc plane))) [
    | inl large ↦ simp (tiled, large) (4, inr (inl refl), refl, refl)
    | inr small ↦ simp (tiled, small) (8, inr (inr refl), refl, refl)
  ]
  | inr linear ↦ (1, inl refl, ground (arith, w), ground (arith, h))
]

-- The alignment of an AFBC plane's dimensions is a whole number of superblocks.
afbc_w-IsBase :
    (format : FormatInfo) (alloc_type : AllocType) (plane : ℕ)
    → type_is_afbc alloc_type.primary_type ≡ true
    → IsBase
        (get_plane_sb_size alloc_type plane).width
        (max_int3 1 (get_afbc_pixel_align format alloc_type plane).width 1)
unfolding get_afbc_pixel_align max_int int_lt
afbc_w-IsBase format alloc_type plane h =
    let (pos, le, _, h_le, _) = shape_bounds _ (plane_sb-IsShape alloc_type plane h) in
    let (t, ht, w, _) = tile_shape format alloc_type plane le h_le in
    elim (Bool-cases (alloc_type.is_padded && not format.is_yuv)) [
      | inl padded ↦ multiples _ 4 t pos le (inr refl) ht _ (rw (padded, w) refl)
      | inr packed ↦ multiples _ 0 t pos le (inl refl) ht _ (rw (packed, w) refl)
    ]

shape-Divides : (r : Rect) → IsShape r → Divides r.height 16 × (4 ≤ r.height) × (r.height ≤ 16)
shape-Divides _ (square r w h) = rw h ((1, refl), omega arith, omega arith)
shape-Divides _ (wide_block r w h) = rw h ((2, refl), omega arith, omega arith)
shape-Divides _ (extra_wide r w h) = rw h ((4, refl), omega arith, omega arith)

-- The bases of the height: the tile's, and with it 16 for a wide block with linear headers.
heights :
    (n t k : ℕ)
    → 4 ≤ n
    → n ≤ 16
    → k * n ≡ 16
    → (t ≡ 1) ⊎ (t ≡ 4) ⊎ (t ≡ 8)
    → IsBase n (max_int3 1 (max_int 1 (u16 (t * n))) 1)
      × IsBase n (max_int3 1 (max_int (max_int 1 (u16 (t * n))) 16) 1)
unfolding IsBase max_int3 max_int int_lt
heights n t k pos le div ht = elim ht [
  | inl t1 ↦ (
    ((1, ground arith), ground arith, ground arith),
    ((k, div ∙ ground arith), ground arith, ground arith),
  )
  | inr (inl t4) ↦ (
    ((4, ground arith), ground arith, ground arith),
    ((4, ground arith), ground arith, ground arith),
  )
  | inr (inr t8) ↦ (
    ((8, ground arith), ground arith, ground arith),
    ((8, ground arith), ground arith, ground arith),
  )
]

afbc_h-IsBase :
    (format : FormatInfo) (alloc_type : AllocType) (plane : ℕ)
    → type_is_afbc alloc_type.primary_type ≡ true
    → IsBase
        (get_plane_sb_size alloc_type plane).height
        (max_int3 1 (get_afbc_pixel_align format alloc_type plane).height 1)
unfolding get_afbc_pixel_align
afbc_h-IsBase format alloc_type plane h =
    let shape = plane_sb-IsShape alloc_type plane h in
    let (_, w_le, _, h_le, _) = shape_bounds _ shape in
    let ((k, div), pos, le) = shape-Divides _ shape in
    let (t, ht, _, eq) = tile_shape format alloc_type plane w_le h_le in
    let (tile, wide_tile) = heights _ t k pos le div ht in
    elim (Bool-cases (is_wideblk alloc_type.primary_type && not alloc_type.is_tiled)) [
      | inl double ↦ rw (double, eq) wide_tile
      | inr other ↦ rw (other, eq) tile
    ]

-- Every AFBC format has a tile size of one pixel.
every-afbc_tile_size :
    (hal : Hal) → every (λ f. implies f.afbc (f.tile_size == 1)) (formats hal) ≡ true
unfolding every formats implies
every-afbc_tile_size hal = refl

afbc_tile_size :
    (hal : Hal) (base_format : ℕ) (f : FormatInfo)
    → get_format_info hal base_format ≡ some f
    → f.afbc ≡ true
    → f.tile_size ≡ 1
unfolding get_format_info implies
afbc_tile_size hal base_format f e afbc =
    ground
      (arith, find_format-every _ (formats hal) base_format f (every-afbc_tile_size hal) e, afbc)

aligned_blocks :
    (value n base : ℕ)
    → value ≤ 2 ^ 30 + 2 ^ 16
    → IsBase n base
    → Divides n (gralloc_align value base)
unfolding IsBase
aligned_blocks value n base le ((k, eq), pos, small) =
    let r = gralloc_align-IsAlignment value base pos (omega arith) in
    (r.blocks * k, mul_assoc r.blocks k n ∙ ap (λ (t : ℕ). r.blocks * t) eq ∙ sym r.multiple)

-- A plane of an AFBC allocation without CPU usage, of a format of the table that supports AFBC and
-- of at most 2 ^ 30 by 2 ^ 30 pixels, is a whole number of superblocks wide and high, and a
-- superblock has 256 pixels.
pub get_pixel_w_h-superblocks :
    (hal : Hal) (base_format : ℕ) (f : FormatInfo) (alloc_type : AllocType) (plane : ℕ)
    (size : Rect)
    → get_format_info hal base_format ≡ some f
    → f.afbc ≡ true
    → type_is_afbc alloc_type.primary_type ≡ true
    → (plane ≡ 0) ⊎ (f.is_yuv ≡ true)
    → plane < f.npln
    → size.width ≤ 2 ^ 30
    → size.height ≤ 2 ^ 30
    → Divides
        (get_plane_sb_size alloc_type plane).width
        (get_pixel_w_h f alloc_type plane false size).width
      × Divides
          (get_plane_sb_size alloc_type plane).height
          (get_pixel_w_h f alloc_type plane false size).height
      × ((get_plane_sb_size alloc_type plane).width * (get_plane_sb_size alloc_type plane).height
          ≡ 256)
unfolding get_pixel_w_h get_pixel_align
get_pixel_w_h-superblocks hal base_format f alloc_type plane size e afbc h kind below width_le
      height_le =
    let geometry = (get_format_info-has_geometry hal base_format f e).1 in
    let tile = afbc_tile_size hal base_format f e afbc in
    let (_, w_le) = sub_sampled_w f plane size.width geometry kind below width_le in
    let (_, h_le) = sub_sampled_h f plane size.height geometry kind below height_le in
    let shape = plane_sb-IsShape alloc_type plane h in
    let (_, _, _, _, area) = shape_bounds _ shape in
    simp (h, tile)
      (
        aligned_blocks _ _ _ w_le (afbc_w-IsBase f alloc_type plane h),
        aligned_blocks _ _ _ h_le (afbc_h-IsBase f alloc_type plane h),
        area,
      )
