-- ===== src/Mapper/Matching.antt =====
-- What validateBufferSize asks for.
use mathlib.Core.Path.{subst}
use rk_hardware_libgralloc_b.Descriptor.{DescriptorInfo}
use rk_hardware_libgralloc_b.Handle.{HandleLayout, ImportedHandle}
use rk_hardware_libgralloc_b.Mapper.Queries.{matches_descriptor, validate_buffer_size}
use rk_hardware_libgralloc_b.Mapper.State.{
  MapperState, error_bad_value, error_none, registered_handle,
}
use rk_hardware_libgralloc_b.Prelude.{
  Bool, Option-cases, arith, false, if◌then◌else◌, inl, inr, not, refl, some, true, ℕ, ◌&&◌, ◌==◌,
  ◌↔◌, ◌≡◌, ◌⊎◌,
}

-- `matches` is a Boolean chain of the five by_tests.
five_tests :
    (width_differs height_differs layers_differ stride_given format_differs : Bool)
    → ((if width_differs
          then error_bad_value
          else if height_differs
          then error_bad_value
          else if layers_differ
          then error_bad_value
          else if stride_given
          then error_bad_value
          else if format_differs
          then error_bad_value
          else error_none)
        ≡ error_none)
      ↔ ((width_differs ≡ false)
          × (height_differs ≡ false)
          × (layers_differ ≡ false)
          × (stride_given ≡ false)
          × (format_differs ≡ false))
five_tests false false false false false = (λ e. (refl, refl, refl, refl, refl), λ e. refl)
five_tests true b c d e = (λ clash. cc, λ all. cc)
five_tests false true c d e = (λ clash. cc, λ all. cc)
five_tests false false true d e = (λ clash. cc, λ all. cc)
five_tests false false false true e = (λ clash. cc, λ all. cc)
five_tests false false false false true = (λ clash. cc, λ all. cc)

differs-false : (a b : ℕ) → (not (a == b) ≡ false) ↔ (a ≡ b)
differs-false a b = ground arith

stride-false :
    (stride in_stride : ℕ)
    → ((not (in_stride == 0) && not (stride == in_stride)) ≡ false)
      ↔ ((in_stride ≡ 0) ⊎ (stride ≡ in_stride))
stride-false stride in_stride = ground arith

matches_descriptor_iff :
    (handle : ImportedHandle) (info : DescriptorInfo) (in_stride : ℕ)
    → (matches_descriptor handle info in_stride ≡ error_none) ↔ (
        (handle.raw.width ≡ info.width)
        × (handle.raw.height ≡ info.height)
        × (handle.raw.layer_count ≡ info.layer_count)
        × ((in_stride ≡ 0) ⊎ (handle.raw.stride ≡ in_stride))
        × (handle.raw.req_format ≡ info.format))
unfolding matches_descriptor
matches_descriptor_iff handle info in_stride =
    let by_tests =
      five_tests (not (handle.raw.width == info.width)) (not (handle.raw.height == info.height))
        (not (handle.raw.layer_count == info.layer_count))
        (not (in_stride == 0) && not (handle.raw.stride == in_stride))
        (not (handle.raw.req_format == info.format)) in
    let same_width = differs-false handle.raw.width info.width in
    let same_height = differs-false handle.raw.height info.height in
    let same_layers = differs-false handle.raw.layer_count info.layer_count in
    let same_stride = stride-false handle.raw.stride in_stride in
    let same_format = differs-false handle.raw.req_format info.format in
    (
      λ matches.
          let (a, b, c, d, e) = by_tests.0 matches in
          (same_width.0 a, same_height.0 b, same_layers.0 c, same_stride.0 d, same_format.0 e),
      λ (a, b, c, d, e).
          by_tests.1
            (same_width.1 a, same_height.1 b, same_layers.1 c, same_stride.1 d, same_format.1 e),
    )

-- validateBufferSize succeeds exactly for a registered imported handle whose width, height, layer
-- count and requested format are those of the description, and whose stride is the one asked for,
-- where one is.
pub validate_buffer_size-accepts :
    (layout : HandleLayout) (state : MapperState) (buffer : ℕ) (info : DescriptorInfo)
    (in_stride : ℕ)
    → (validate_buffer_size layout state buffer info in_stride ≡ error_none) ↔ (
        (handle : ImportedHandle) × (registered_handle layout state buffer ≡ some handle)
        × (handle.raw.width ≡ info.width)
        × (handle.raw.height ≡ info.height)
        × (handle.raw.layer_count ≡ info.layer_count)
        × ((in_stride ≡ 0) ⊎ (handle.raw.stride ≡ in_stride))
        × (handle.raw.req_format ≡ info.format))
unfolding validate_buffer_size
validate_buffer_size-accepts layout state buffer info in_stride =
    elim (Option-cases (registered_handle layout state buffer)) [
      | inl unknown ↦
          rw (unknown, validate_buffer_size) (λ clash. cc, λ (handle, found, a, b, c, d, e). cc)
      | inr (handle, found) ↦
          let matching = matches_descriptor_iff handle info in_stride in
          rw (found, validate_buffer_size)
            (
              λ accepted.
                  let (a, b, c, d, e) = matching.0 accepted in (handle, refl, a, b, c, d, e),
              λ (other, same, a, b, c, d, e).
                  let equal : other ≡ handle = cc in
                  subst (λ h. matches_descriptor h info in_stride ≡ error_none) equal
                    ((matches_descriptor_iff other info in_stride).1 (a, b, c, d, e)),
            )
    ]
