-- ===== src/Access/Bounds.antt =====
-- Which regions validate_lock_input_parameters accepts.
use rk_hardware_libgralloc_b.Access.Region.{
  AccessRegion, ErrorCodes, is_inside, negated, validate_lock_input_parameters,
}
use rk_hardware_libgralloc_b.Handle.{ImportedHandle}
use rk_hardware_libgralloc_b.Prelude.{
  ==_iff, Bool, arith, if◌then◌else◌, not, refl, true, ℕ, ◌&&◌, ◌+◌, ◌<◌, ◌==◌, ◌^◌, ◌↔◌, ◌≡◌, ◌≤◌,
}
use rk_hardware_libgralloc_b.Prelude.Words.{int_lt, is_negative, u32}

-- One direction of the region, `from` and `extent`, in a buffer of `limit` pixels.
abbrev fits_axis : ℕ → ℕ → ℕ → Bool
fits_axis from extent limit =
    not (is_negative from)
    && not (is_negative extent)
    && not (is_negative (u32 (from + extent)))
    && not (int_lt limit (u32 (from + extent)))

fits_axis_iff :
    (from extent limit : ℕ)
    → from < 2 ^ 32
    → extent < 2 ^ 32
    → limit < 2 ^ 31
    → ((not (is_negative from)
          && not (is_negative extent)
          && not (is_negative (u32 (from + extent)))
          && not (int_lt limit (u32 (from + extent))))
        ≡ true)
      ↔ (from + extent ≤ limit)
unfolding int_lt
fits_axis_iff from extent limit p q r = ground arith

-- Eight tests, by axis.
conjuncts_by_axis :
    (a b c d e f g h : Bool)
    → (a && b && c && d && e && f && g && h) ≡ ((a && c && e && h) && (b && d && f && g))
conjuncts_by_axis true true true true true true true true = refl
conjuncts_by_axis a b c d e f g h = ground arith

is_inside-axes :
    (hnd : ImportedHandle) (region : AccessRegion)
    → is_inside hnd region ≡ (
        fits_axis region.left region.width hnd.raw.width
        && fits_axis region.top region.height hnd.raw.height)
unfolding is_inside
is_inside-axes hnd region =
    conjuncts_by_axis (not (is_negative region.left)) (not (is_negative region.top))
      (not (is_negative region.width)) (not (is_negative region.height))
      (not (is_negative (u32 (region.left + region.width))))
      (not (is_negative (u32 (region.top + region.height))))
      (not (int_lt hnd.raw.height (u32 (region.top + region.height))))
      (not (int_lt hnd.raw.width (u32 (region.left + region.width))))

accepts_iff :
    (inside columns rows importer : Bool) (code : ℕ)
    → inside ≡ (columns && rows)
    → 0 < code
    → ((if inside && importer then 0 else code) ≡ 0)
      ↔ ((columns ≡ true) × (rows ≡ true) × (importer ≡ true))
accepts_iff inside columns rows importer code e p = rw e (ground arith)

-- For an errno that is not 0, a region of four `int`s and a buffer with dimensions that are not
-- negative, the request is accepted exactly when the region lies inside the buffer, with no sum
-- that overflows, and the process that locks is the one that imported the buffer.
pub validate_lock_input_parameters-accepts :
    (codes : ErrorCodes) (pid : ℕ) (hnd : ImportedHandle) (region : AccessRegion)
    → 0 < codes.errno_einval
    → codes.errno_einval < 2 ^ 31
    → region.left < 2 ^ 32
    → region.top < 2 ^ 32
    → region.width < 2 ^ 32
    → region.height < 2 ^ 32
    → hnd.raw.width < 2 ^ 31
    → hnd.raw.height < 2 ^ 31
    → (validate_lock_input_parameters codes pid hnd region ≡ 0) ↔ (
        (region.left + region.width ≤ hnd.raw.width)
        × (region.top + region.height ≤ hnd.raw.height)
        × (hnd.import_pid ≡ pid))
unfolding validate_lock_input_parameters
validate_lock_input_parameters-accepts codes pid hnd region p q l t w h columns_fit rows_fit =
    let columns = fits_axis_iff region.left region.width hnd.raw.width l w columns_fit in
    let rows = fits_axis_iff region.top region.height hnd.raw.height t h rows_fit in
    let accepts =
      accepts_iff _ _ _ (hnd.import_pid == pid) (negated codes.errno_einval)
        (is_inside-axes hnd region) (omega arith) in
    let same_pid = ==_iff hnd.import_pid pid in
    (
      λ accepted.
          let (inside_columns, inside_rows, imported_here) = accepts.0 accepted in
          (columns.0 inside_columns, rows.0 inside_rows, same_pid.0 imported_here),
      λ (inside_columns, inside_rows, imported_here).
          accepts.1 (columns.1 inside_columns, rows.1 inside_rows, same_pid.1 imported_here),
    )
