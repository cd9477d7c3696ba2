-- ===== src/Metadata/Crop.antt =====
-- Which crop rectangles set_crop_rect stores.
use rk_hardware_libgralloc_b.Handle.{PrivateHandle}
use rk_hardware_libgralloc_b.InternalFormat.{invalid}
use rk_hardware_libgralloc_b.Metadata.{
  CropRect, MetadataTypes, SharedMetadata, get_crop_rect, is_valid_crop, metadata_bad_value,
  metadata_ok, set_crop_rect,
}
use rk_hardware_libgralloc_b.Prelude.{
  Bool, Bool-cases, arith, false, inl, inr, ltb, not, refl, some, sym, true, ℕ, ◌&&◌, ◌+◌, ◌-◌, ◌<◌,
  ◌==◌, ◌^◌, ◌↔◌, ◌∙◌, ◌≡◌, ◌≤◌, ◌⊎◌,
}
use rk_hardware_libgralloc_b.Prelude.Words.{int_lt, is_negative, u32}

abbrev fits_crop : ℕ → ℕ → ℕ → ℕ → Bool
fits_crop from until allocated extent =
    not (is_negative from)
    && not (int_lt until from)
    && not (ltb allocated until)
    && (u32 (until + (2 ^ 32 - from)) == extent)

fits_crop_iff :
    (from until allocated extent : ℕ)
    → from < 2 ^ 32
    → until < 2 ^ 32
    → extent < 2 ^ 31
    → (fits_crop from until allocated extent ≡ true)
      ↔ ((from + extent ≡ until) × (until ≤ allocated) × (until < 2 ^ 31))
unfolding int_lt
fits_crop_iff from until allocated extent p q r = ground arith

crop_by_axis :
    (a b c d e f g h : Bool)
    → (a && b && c && d && e && f && g && h) ≡ ((b && c && d && g) && (a && e && f && h))
crop_by_axis a b c d e f g h = ground arith

is_valid_crop-axes :
    (handle : PrivateHandle) (crop : CropRect)
    → is_valid_crop handle crop ≡ (
        fits_crop crop.crop_left crop.crop_right handle.plane_info.p0.alloc_width handle.width
        && fits_crop crop.crop_top crop.crop_bottom handle.plane_info.p0.alloc_height handle.height)
unfolding is_valid_crop
is_valid_crop-axes handle crop =
    crop_by_axis (not (is_negative crop.crop_top)) (not (is_negative crop.crop_left))
      (not (int_lt crop.crop_right crop.crop_left))
      (not (ltb handle.plane_info.p0.alloc_width crop.crop_right))
      (not (int_lt crop.crop_bottom crop.crop_top))
      (not (ltb handle.plane_info.p0.alloc_height crop.crop_bottom))
      (u32 (crop.crop_right + (2 ^ 32 - crop.crop_left)) == handle.width)
      (u32 (crop.crop_bottom + (2 ^ 32 - crop.crop_top)) == handle.height)

-- What a valid rectangle is: as large as the buffer, and within what is allocated for plane 0.
pub record IsCrop (handle : PrivateHandle) (crop : CropRect) : Type 0 where
  pub as_wide : crop.crop_left + handle.width ≡ crop.crop_right
  pub as_high : crop.crop_top + handle.height ≡ crop.crop_bottom
  pub inside_width : crop.crop_right ≤ handle.plane_info.p0.alloc_width
  pub inside_height : crop.crop_bottom ≤ handle.plane_info.p0.alloc_height
  pub right_is_int : crop.crop_right < 2 ^ 31
  pub bottom_is_int : crop.crop_bottom < 2 ^ 31

conjuncts_iff : (a b : Bool) → ((a && b) ≡ true) ↔ ((a ≡ true) × (b ≡ true))
conjuncts_iff a b = ground arith

-- Of the four `int`s of a rectangle and a buffer whose dimensions are not negative: the rectangle
-- is stored exactly when it is as large as the buffer and lies within the allocated plane 0. Where
-- it is stored the getter returns it; where it is not, nothing changes.
pub set_crop_rect-IsCrop :
    (types : MetadataTypes) (handle : PrivateHandle) (metadata : SharedMetadata types)
    (crop : CropRect)
    → crop.crop_left < 2 ^ 32
    → crop.crop_top < 2 ^ 32
    → crop.crop_right < 2 ^ 32
    → crop.crop_bottom < 2 ^ 32
    → handle.width < 2 ^ 31
    → handle.height < 2 ^ 31
    → (((set_crop_rect types handle metadata crop).0 ≡ metadata_ok)
        × IsCrop handle crop
        × (get_crop_rect types (set_crop_rect types handle metadata crop).1 ≡ some crop))
      ⊎ (((set_crop_rect types handle metadata crop).0 ≡ metadata_bad_value)
          × (¬ IsCrop handle crop)
          × ((set_crop_rect types handle metadata crop).1 ≡ metadata))
unfolding set_crop_rect
set_crop_rect-IsCrop types handle metadata crop left top right bottom wide high =
    let columns =
      fits_crop_iff crop.crop_left crop.crop_right handle.plane_info.p0.alloc_width handle.width
        left right wide in
    let rows =
      fits_crop_iff crop.crop_top crop.crop_bottom handle.plane_info.p0.alloc_height handle.height
        top bottom high in
    let axes = is_valid_crop-axes handle crop in
    let both =
      conjuncts_iff
        (fits_crop crop.crop_left crop.crop_right handle.plane_info.p0.alloc_width handle.width)
        (fits_crop crop.crop_top crop.crop_bottom handle.plane_info.p0.alloc_height
          handle.height) in
    elim (Bool-cases (is_valid_crop handle crop)) [
      | inl valid ↦
          let (x, y) = both.0 (sym axes ∙ valid) in
          let (as_wide, inside_width, right_is_int) = columns.0 x in
          let (as_high, inside_height, bottom_is_int) = rows.0 y in
          rw (valid, set_crop_rect)
            (inl (
              refl,
              record {
                as_wide = as_wide;
                as_high = as_high;
                inside_width = inside_width;
                inside_height = inside_height;
                right_is_int = right_is_int;
                bottom_is_int = bottom_is_int;
              },
              refl,
            ))
      | inr invalid ↦
          rw (invalid, set_crop_rect)
            (inr (
              refl,
              λ is_crop.
                  let valid =
                    axes
                    ∙ both.1 (
                      columns.1 (is_crop.as_wide, is_crop.inside_width, is_crop.right_is_int),
                      rows.1 (is_crop.as_high, is_crop.inside_height, is_crop.bottom_is_int),
                    ) in
                  let clash : true ≡ false = sym valid ∙ invalid in cc,
              refl,
            ))
    ]
