-- ===== src/Allocation/Layers.antt =====
-- Buffers with several layers, the demands of the video decoder, and the validated format of
-- src/core/buffer_allocation.cpp.
use native.Mathlib.Nat.{le_refl, lt_of_le_of_lt, mod-eq_of_lt, mul-le-mul_right, mul-suc}
use rk_hardware_libgralloc_b.Align.{IsAlignment, gralloc_align_size, gralloc_align_size-IsAlignment}
use rk_hardware_libgralloc_b.Allocation.Derive.{
  BufferDescriptor, add_layers, adjust_rk_video_buffer_size, size_needed_by_rk_video,
}
use rk_hardware_libgralloc_b.FormatInfo.{FormatInfo}
use rk_hardware_libgralloc_b.Hal.{Hal}
use rk_hardware_libgralloc_b.InternalFormat.{
  InternalFormat, get_afbc_tiled_headers, get_base, is_afbc,
}
use rk_hardware_libgralloc_b.Prelude.{
  Bool-cases, Option-cases, arith, if◌then◌else◌, inl, inr, ltb, lt→ltb, refl, suc, true, zero, ℕ,
  ◌*◌, ◌+◌, ◌<◌, ◌^◌, ◌≡◌, ◌≤◌,
}

-- The alignment of an AFBC header.
header_bounds :
    (f : InternalFormat)
    → (0 < (if get_afbc_tiled_headers f then 4096 else 128))
      × ((if get_afbc_tiled_headers f then 4096 else 128) ≤ 4096)
header_bounds f = elim (Bool-cases (get_afbc_tiled_headers f)) [
  | inl tiled ↦ rw tiled (omega arith, omega arith)
  | inr plain ↦ rw plain (omega arith, omega arith)
]

-- What the layers of a buffer are aligned to.
abbrev pub layer_alignment : InternalFormat → ℕ
layer_alignment f = if is_afbc f then (if get_afbc_tiled_headers f then 4096 else 128) else 1

room_of_product : (n k bound : ℕ) → 1 < k → n * k < bound → n < bound
room_of_product n zero bound h lt = absurd (omega arith)
room_of_product n (suc k) bound h lt = omega (arith, mul-suc n k, lt)

-- A buffer of several layers is the size of a layer times their number, where the product of this
-- number with the buffer's size and 4096 bytes more is below 2 ^ 64. The layer is the size of the
-- buffer, which for AFBC is rounded up to 4096 bytes with tiled headers and to 128 without them, and
-- for other formats left as it is.
pub add_layers-IsAlignment :
    (descriptor : BufferDescriptor)
    → 1 < descriptor.layer_count
    → (descriptor.size + 4096) * descriptor.layer_count < 2 ^ 64
    → (layer : ℕ) × IsAlignment descriptor.size (layer_alignment descriptor.alloc_format) layer
      × ((add_layers descriptor).size ≡ layer * descriptor.layer_count)
unfolding add_layers
add_layers-IsAlignment descriptor several fits =
    let many : ltb 1 descriptor.layer_count ≡ true = lt→ltb _ _ several in
    let room : descriptor.size + 4096 < 2 ^ 64 = room_of_product _ _ _ several fits in
    elim (Bool-cases (is_afbc descriptor.alloc_format)) [
      | inl afbc ↦
          let base : ℕ = if get_afbc_tiled_headers descriptor.alloc_format then 4096 else 128 in
          let bounds = header_bounds descriptor.alloc_format in
          let layer = gralloc_align_size-IsAlignment descriptor.size base bounds.0 (omega arith) in
          let below : gralloc_align_size descriptor.size base * descriptor.layer_count < 2 ^ 64 =
            lt_of_le_of_lt
              (mul-le-mul_right descriptor.layer_count (omega (arith, layer.tight, bounds.1)))
              fits in
          (
            gralloc_align_size descriptor.size base,
            simp (afbc) layer,
            simp (many, afbc) (mod-eq_of_lt below),
          )
      | inr plain ↦
          let below : descriptor.size * descriptor.layer_count < 2 ^ 64 =
            lt_of_le_of_lt (mul-le-mul_right descriptor.layer_count (omega arith)) fits in
          (
            descriptor.size,
            simp (plain) (record {
              covers = omega arith;
              tight = omega arith;
              blocks = descriptor.size;
              multiple = omega arith;
            }),
            simp (many, plain) (mod-eq_of_lt below),
          )
    ]

-- The adjustment for the video decoder never makes a buffer smaller, and leaves everything but the
-- size as it is.
pub adjust_rk_video_buffer_size-grows :
    (hal : Hal) (descriptor : BufferDescriptor) (format : FormatInfo)
    → (descriptor.size ≤ (adjust_rk_video_buffer_size hal descriptor format).size)
      × (record (adjust_rk_video_buffer_size hal descriptor format) { size = descriptor.size }
          ≡ descriptor)
unfolding adjust_rk_video_buffer_size
adjust_rk_video_buffer_size-grows hal descriptor format =
    elim (Option-cases (
      size_needed_by_rk_video hal (get_base descriptor.alloc_format) format.bpp.p0
        descriptor.plane_info.p0)) [
          | inl no_demand ↦ rw (no_demand, adjust_rk_video_buffer_size) (le_refl _, refl)
          | inr (needed, demand) ↦ rw (demand, adjust_rk_video_buffer_size) (ground arith, refl)
        ]
