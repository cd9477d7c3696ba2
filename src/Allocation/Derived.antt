-- ===== src/Allocation/Derived.antt =====
-- What a derivation that succeeds promises: room for the planes of every layer.
use mathlib.Core.Path.{subst}
use native.Mathlib.Nat.{le_refl, le_trans, mul-le-mul_right}
use rk_hardware_libgralloc_b.AllocType.{
  AfrcProperties, AllocType, afrc_plane_alignment_requirement, clump_of_plane, get_afbc_alloc_type,
  get_afrc_alloc_type, get_alloc_type, set_clumps,
}
use rk_hardware_libgralloc_b.AllocType.Afrc.{npln-le_three}
use rk_hardware_libgralloc_b.Allocation.Derive.{
  BufferDescriptor, Status, add_layers, derive_sizes, einval, mali_gralloc_derive_format_and_size,
  select_descriptor_format, set_layer_sizes, set_sizes, size_request, success, validate_format,
  whole_usage,
}
use rk_hardware_libgralloc_b.Allocation.Layers.{
  add_layers-IsAlignment, adjust_rk_video_buffer_size-grows,
}
use rk_hardware_libgralloc_b.Allocation.Placement.{calc_allocation_size-IsPlaced}
use rk_hardware_libgralloc_b.Allocation.Round.{has_alignments, space}
use rk_hardware_libgralloc_b.Allocation.Size.{calc_allocation_size, get_plane_size}
use rk_hardware_libgralloc_b.Allocation.Stride.{SizeRequest, is_base_format_used_by_rk_video}
use rk_hardware_libgralloc_b.FormatInfo.{FormatInfo, at, get_base_info, planes}
use rk_hardware_libgralloc_b.FormatInfo.WellFormed.{get_format_info-has_geometry, implies}
use rk_hardware_libgralloc_b.Hal.{Hal}
use rk_hardware_libgralloc_b.InternalFormat.{
  InternalFormat, get_afrc_chroma_coding_size, get_afrc_rgba_coding_size, get_afrc_rot_layout,
  get_base, is_afbc, is_afrc, is_block_linear, is_undefined, to_bytes,
}
use rk_hardware_libgralloc_b.Prelude.{
  Bool-cases, Option-cases, ap, arith, if◌then◌else◌, inl, inr, ltb, none, refl, some, suc, sym,
  true, zero, ℕ, ◌&&◌, ◌*◌, ◌+◌, ◌<◌, ◌^◌, ◌||◌, ◌∙◌, ◌≡◌, ◌≤◌, ◌⊎◌,
}
use rk_hardware_libgralloc_b.Prelude.Bits.{has_bits}
use rk_hardware_libgralloc_b.Selection.Rk.{FbSize, RkProperties}
use rk_hardware_libgralloc_b.Usages.{is_stride_alignment_specified, rk_gralloc_usage_specify_stride}

-- The alignments of a coding unit size are at most 2048.
afrc_alignment_le : (size : ℕ) → afrc_plane_alignment_requirement size ≤ 4096
unfolding afrc_plane_alignment_requirement
afrc_alignment_le size = ground arith

-- Setting the clumps leaves the alignments.
set_clumps-alignments :
    (left plane : ℕ) (info : FormatInfo) (afrc result : AfrcProperties)
    → set_clumps left plane info afrc ≡ some result
    → (result.rgba_luma_plane_alignment ≡ afrc.rgba_luma_plane_alignment)
      × (result.chroma_plane_alignment ≡ afrc.chroma_plane_alignment)
unfolding set_clumps
set_clumps-alignments zero plane info afrc result e =
    let same : afrc ≡ result = cc in
    (
      ap (λ (r : AfrcProperties). r.rgba_luma_plane_alignment) (sym same),
      ap (λ (r : AfrcProperties). r.chroma_plane_alignment) (sym same),
    )
set_clumps-alignments (suc left) plane info afrc result e =
    elim (Option-cases (clump_of_plane afrc (at info.ncmp plane))) [
      | inl missing ↦ let impossible : none ≡ some result = rw (missing, set_clumps) at e in cc
      | inr ((width, height), found) ↦
          set_clumps-alignments left (plane + 1) info _ result (rw (found, set_clumps) at e)
    ]

-- The record that the branch for AFRC starts from has alignments that are not 0 where it succeeds.
afrc_type-has_alignments :
    (info : FormatInfo) (format : InternalFormat) (start alloc_type : AllocType)
    → get_afrc_alloc_type info format start ≡ some alloc_type
    → has_alignments alloc_type ≡ true
unfolding get_afrc_alloc_type has_alignments implies
afrc_type-has_alignments info format start alloc_type e =
    let luma = to_bytes (get_afrc_rgba_coding_size format) in
    let chroma = to_bytes (get_afrc_chroma_coding_size format) in
    let before : AfrcProperties = record {
      rgba_luma_coding_unit_bytes = luma;
      rgba_luma_plane_alignment = afrc_plane_alignment_requirement luma;
      chroma_coding_unit_bytes = chroma;
      chroma_plane_alignment = afrc_plane_alignment_requirement chroma;
      clump_width = planes 0 0 0;
      clump_height = planes 0 0 0;
      paging_tile_width = if get_afrc_rot_layout format then 8 else 16;
      paging_tile_height = if get_afrc_rot_layout format then 8 else 4;
    } in
    elim (Option-cases (set_clumps info.npln 0 info before)) [
      | inl missing ↦ ground (arith, e, missing)
      | inr (done, found) ↦ ground (
        arith,
        e,
        found,
        set_clumps-alignments info.npln 0 info before done found,
        afrc_alignment_le luma,
        afrc_alignment_le chroma,
      )
    ]

afbc_type-has_alignments :
    (info : FormatInfo) (format : InternalFormat) (usage : ℕ) (start alloc_type : AllocType)
    → get_afbc_alloc_type info format usage start ≡ some alloc_type
    → has_alignments alloc_type ≡ true
unfolding get_afbc_alloc_type has_alignments implies
afbc_type-has_alignments info format usage start alloc_type e = ground (arith, e)

-- Every allocation type has alignments from 1 to 4096, where it is for AFRC.
get_alloc_type-has_alignments :
    (hal : Hal) (format : InternalFormat) (usage : ℕ) (alloc_type : AllocType)
    → get_alloc_type hal format usage ≡ some alloc_type
    → has_alignments alloc_type ≡ true
unfolding get_alloc_type has_alignments implies
get_alloc_type-has_alignments hal format usage alloc_type e =
    elim (Option-cases (get_base_info hal format)) [
      | inl unknown ↦
          let impossible : none ≡ some alloc_type = rw (unknown, get_alloc_type) at e in cc
      | inr (info, known) ↦ elim (Bool-cases (is_afbc format)) [
        | inl afbc ↦
            afbc_type-has_alignments info format usage _ alloc_type
              (rw (known, afbc, get_alloc_type) at e)
        | inr not_afbc ↦ elim (Bool-cases (is_afrc format)) [
          | inl afrc ↦
              afrc_type-has_alignments info format _ alloc_type
                (rw (known, not_afbc, afrc, get_alloc_type) at e)
          | inr not_afrc ↦ elim (Bool-cases (is_block_linear format)) [
            | inl linear ↦
                let got = rw (known, not_afbc, not_afrc, linear, get_alloc_type) at e in
                ground (arith, got)
            | inr other ↦
                let got = rw (known, not_afbc, not_afrc, other, get_alloc_type) at e in
                ground (arith, got)
          ]
        ]
      ]
    ]

-- What a derivation comes to: an error that leaves the descriptor as it is, or the sizes of an
-- allocation type that is validated for the format.
unfoldable IsDerived : Hal → RkProperties → BufferDescriptor → Status × BufferDescriptor → Type 0
IsDerived hal properties descriptor result =
    ((result.0 ≡ einval) × (result.1 ≡ descriptor))
    ⊎ ((info : FormatInfo) × (alloc_type : AllocType) × (result.0 ≡ success)
        × (get_base_info hal descriptor.alloc_format ≡ some info)
        × (get_alloc_type hal descriptor.alloc_format (whole_usage hal properties descriptor)
            ≡ some alloc_type)
        × (validate_format hal info alloc_type descriptor ≡ true)
        × (result.1
            ≡ set_sizes hal properties info alloc_type (whole_usage hal properties descriptor)
                descriptor))

derive_sizes-IsDerived :
    (hal : Hal) (properties : RkProperties) (descriptor : BufferDescriptor)
    → IsDerived hal properties descriptor (derive_sizes hal properties descriptor)
unfolding IsDerived derive_sizes
derive_sizes-IsDerived hal properties descriptor =
    elim (Bool-cases (is_undefined descriptor.alloc_format)) [
      | inl undefined ↦ rw (undefined, derive_sizes) (inl (refl, refl))
      | inr defined ↦ elim (Option-cases (get_base_info hal descriptor.alloc_format)) [
        | inl unknown ↦ rw (defined, unknown, derive_sizes) (inl (refl, refl))
        | inr (info, known) ↦
            elim (Option-cases (
              get_alloc_type hal descriptor.alloc_format (whole_usage hal properties descriptor))) [
                | inl untyped ↦ rw (defined, known, untyped, derive_sizes) (inl (refl, refl))
                | inr (alloc_type, typed) ↦
                    elim (Bool-cases (validate_format hal info alloc_type descriptor)) [
                      | inl valid ↦
                          rw (defined, known, typed, valid, derive_sizes)
                            (inr (info, alloc_type, refl, refl, refl, valid, refl))
                      | inr invalid_type ↦
                          rw (defined, known, typed, invalid_type, derive_sizes) (inl (refl, refl))
                    ]
              ]
      ]
    ]

-- The planes of a single layer: those of calc_allocation_size, and a size that is at least its.
set_layer_sizes-grows :
    (hal : Hal) (properties : RkProperties) (info : FormatInfo) (alloc_type : AllocType) (usage : ℕ)
    (descriptor : BufferDescriptor)
    → ((set_layer_sizes hal properties info alloc_type usage descriptor).plane_info
        ≡ (calc_allocation_size hal
            (size_request hal properties info alloc_type usage descriptor)
            descriptor.plane_info
            descriptor.pixel_stride).infos)
      × ((calc_allocation_size hal
            (size_request hal properties info alloc_type usage descriptor)
            descriptor.plane_info
            descriptor.pixel_stride).total
          ≤ (set_layer_sizes hal properties info alloc_type usage descriptor).size)
      × ((set_layer_sizes hal properties info alloc_type usage descriptor).layer_count
          ≡ descriptor.layer_count)
unfolding set_layer_sizes
set_layer_sizes-grows hal properties info alloc_type usage descriptor =
    let layout =
      calc_allocation_size hal (size_request hal properties info alloc_type usage descriptor)
        descriptor.plane_info descriptor.pixel_stride in
    let sized : BufferDescriptor = record descriptor {
      size = layout.total;
      pixel_stride = layout.pixel_stride;
      plane_info = layout.infos;
    } in
    let (grown, same) = adjust_rk_video_buffer_size-grows hal sized info in
    elim (Bool-cases (
      is_base_format_used_by_rk_video hal (get_base descriptor.alloc_format)
      && (has_bits usage rk_gralloc_usage_specify_stride || is_stride_alignment_specified usage))) [
        | inl video ↦ simp (video) (
          ap (λ (d : BufferDescriptor). d.plane_info) same,
          grown,
          ap (λ (d : BufferDescriptor). d.layer_count) same,
        )
        | inr other ↦ simp (other) (refl, le_refl _, refl)
      ]

times_at_most_one : (n k : ℕ) → k ≤ 1 → n * k ≤ n
times_at_most_one n zero h = omega arith
times_at_most_one n (suc zero) h = omega arith
times_at_most_one n (suc (suc k)) h = absurd (omega arith)

-- The planes stay, and each layer has the room that a single one has.
add_layers-room :
    (descriptor : BufferDescriptor)
    → (descriptor.size + 4096) * descriptor.layer_count < 2 ^ 64
    → ((add_layers descriptor).plane_info ≡ descriptor.plane_info)
      × (descriptor.size * descriptor.layer_count ≤ (add_layers descriptor).size)
unfolding add_layers
add_layers-room descriptor fits = elim (Bool-cases (ltb 1 descriptor.layer_count)) [
  | inl several ↦
      let (layer, aligned, product) =
        add_layers-IsAlignment descriptor (ground (arith, several)) fits in
      (simp (several) refl, rw product (mul-le-mul_right descriptor.layer_count aligned.covers))
  | inr single ↦ simp (single) (refl, times_at_most_one _ _ (ground (arith, single)))
]

-- The bytes of a plane as a descriptor lays it out.
abbrev pub plane_bytes : SizeRequest → BufferDescriptor → ℕ → ℕ
plane_bytes request descriptor plane =
    get_plane_size request plane (at descriptor.plane_info plane) descriptor.plane_info.p0

-- The planes of a buffer follow each other, and the buffer has room for them in every layer.
pub record HasRoom (request : SizeRequest) (descriptor : BufferDescriptor) (layers : ℕ)
    : Type 0 where
  pub apart :
      (i j : ℕ)
      → i < j
      → j < request.format.npln
      → (at descriptor.plane_info i).offset + plane_bytes request descriptor i
        ≤ (at descriptor.plane_info j).offset
  pub inside :
      (i : ℕ)
      → i < request.format.npln
      → ((at descriptor.plane_info i).offset + plane_bytes request descriptor i) * layers
        ≤ descriptor.size

set_sizes-HasRoom :
    (hal : Hal) (properties : RkProperties) (info : FormatInfo) (alloc_type : AllocType) (usage : ℕ)
    (descriptor : BufferDescriptor)
    → info.npln ≤ 3
    → has_alignments alloc_type ≡ true
    → ((j : ℕ)
        → j < info.npln
        → plane_bytes
            (size_request hal properties info alloc_type usage descriptor)
            (set_sizes hal properties info alloc_type usage descriptor)
            j
          < 2 ^ 29)
    → ((set_layer_sizes hal properties info alloc_type usage descriptor).size + 4096)
        * descriptor.layer_count
      < 2 ^ 64
    → HasRoom
        (size_request hal properties info alloc_type usage descriptor)
        (set_sizes hal properties info alloc_type usage descriptor)
        descriptor.layer_count
unfolding set_sizes space size_request
set_sizes-HasRoom hal properties info alloc_type usage descriptor three aligned small fits =
    let request = size_request hal properties info alloc_type usage descriptor in
    let layout = calc_allocation_size hal request descriptor.plane_info descriptor.pixel_stride in
    let one = set_layer_sizes hal properties info alloc_type usage descriptor in
    let (same_planes, grown, same_count) =
      set_layer_sizes-grows hal properties info alloc_type usage descriptor in
    let (kept_planes, room) = add_layers-room one (rw same_count fits) in
    let planes_are : (add_layers one).plane_info ≡ layout.infos = kept_planes ∙ same_planes in
    let placed =
      calc_allocation_size-IsPlaced hal request descriptor.plane_info descriptor.pixel_stride three
        aligned (λ j lt. rw planes_are at (small j lt)) in
    record {
      apart = λ i j lt below. rw planes_are (placed.ordered i j lt below);
      inside = λ i below. rw planes_are (
          le_trans
            (mul-le-mul_right descriptor.layer_count (le_trans (placed.inside i below) grown))
            (subst (λ (n : ℕ). one.size * n ≤ (add_layers one).size) same_count room));
    }

-- Where the derivation succeeds for the format that it selects, with the entry and the allocation
-- type of that format, where every plane takes less than 2 ^ 29 bytes, and where the size of one
-- layer and 4096 bytes more, times the number of layers, is below 2 ^ 64: the planes that the descriptor is left with follow each other, and its size has
-- room for all of them in each of its layers.
pub mali_gralloc_derive_format_and_size-HasRoom :
    (hal : Hal) (properties : RkProperties) (state : FbSize) (descriptor : BufferDescriptor)
    (format : InternalFormat) (info : FormatInfo) (alloc_type : AllocType)
    → (select_descriptor_format hal properties state descriptor).0 ≡ format
    → get_base_info hal format ≡ some info
    → get_alloc_type hal format (whole_usage hal properties descriptor) ≡ some alloc_type
    → (mali_gralloc_derive_format_and_size hal properties state descriptor).0.0 ≡ success
    → ((j : ℕ)
        → j < info.npln
        → plane_bytes
            (size_request hal properties info alloc_type
              (whole_usage hal properties descriptor)
              (record descriptor { alloc_format = format }))
            (mali_gralloc_derive_format_and_size hal properties state descriptor).0.1
            j
          < 2 ^ 29)
    → ((set_layer_sizes hal properties info alloc_type
            (whole_usage hal properties descriptor)
            (record descriptor { alloc_format = format })).size
          + 4096)
        * descriptor.layer_count
      < 2 ^ 64
    → HasRoom
        (size_request hal properties info alloc_type
          (whole_usage hal properties descriptor)
          (record descriptor { alloc_format = format }))
        (mali_gralloc_derive_format_and_size hal properties state descriptor).0.1
        descriptor.layer_count
unfolding mali_gralloc_derive_format_and_size IsDerived whole_usage size_request
mali_gralloc_derive_format_and_size-HasRoom hal properties state descriptor format info alloc_type
      selected known typed succeeded small fits =
    let usage = whole_usage hal properties descriptor in
    let chosen : BufferDescriptor = record descriptor { alloc_format = format } in
    let done : (derive_sizes hal properties chosen).0 ≡ success = rw selected at succeeded in
    let left : (derive_sizes hal properties chosen).1
        ≡ set_sizes hal properties info alloc_type usage chosen =
      elim (derive_sizes-IsDerived hal properties chosen) [
        | inl (failed, same) ↦ let impossible : einval ≡ success = sym failed ∙ done in cc
        | inr (entry, type, worked, entry_known, type_known, valid, sizes) ↦
            let entry_is : entry ≡ info = cc in
            let type_is : type ≡ alloc_type = cc in
            sizes
            ∙ ap (λ (i : FormatInfo). set_sizes hal properties i type usage chosen) entry_is
            ∙ ap (λ (t : AllocType). set_sizes hal properties info t usage chosen) type_is
      ] in
    let result : (mali_gralloc_derive_format_and_size hal properties state descriptor).0.1
        ≡ set_sizes hal properties info alloc_type usage chosen =
      rw selected left in
    let three =
      npln-le_three info (get_format_info-has_geometry hal (get_base format) info known).1 in
    rw result (
      set_sizes-HasRoom hal properties info alloc_type usage chosen three
        (get_alloc_type-has_alignments hal format usage alloc_type typed)
        (λ j lt. rw result at (small j lt)) fits)
