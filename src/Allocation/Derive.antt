-- ===== src/Allocation/Derive.antt =====
-- adjust_rk_video_buffer_size, validate_format and mali_gralloc_derive_format_and_size of
-- src/core/buffer_allocation.cpp, on the fields of buffer_descriptor_t
-- (src/core/buffer_descriptor.h) that they use. Log messages are left out, and with them the stride
-- that is computed to be compared with the client's.
use rk_hardware_libgralloc_b.Align.{gralloc_align_size}
use rk_hardware_libgralloc_b.AllocType.{
  AllocType, get_alloc_type, type_is_afbc, type_is_afrc, type_is_block_linear,
}
use rk_hardware_libgralloc_b.Allocation.Size.{calc_allocation_size}
use rk_hardware_libgralloc_b.Allocation.Stride.{
  PlaneInfo, SizeRequest, is_base_format_used_by_rk_video,
}
use rk_hardware_libgralloc_b.Format.{
  mali_gralloc_format_internal_blob, mali_gralloc_format_internal_nv12,
  mali_gralloc_format_internal_nv15, mali_gralloc_format_internal_nv16,
  mali_gralloc_format_internal_nv24,
}
use rk_hardware_libgralloc_b.FormatInfo.{FormatInfo, Planes, get_base_info}
use rk_hardware_libgralloc_b.Hal.{Hal}
use rk_hardware_libgralloc_b.InternalFormat.{
  InternalFormat, get_afbc_tiled_headers, get_base, is_afbc, is_undefined,
}
use rk_hardware_libgralloc_b.Prelude.{
  Bool, Option, bit_or, if◌then◌else◌, ltb, none, not, some, ℕ, ◌&&◌, ◌*◌, ◌/◌, ◌==◌, ◌||◌,
}
use rk_hardware_libgralloc_b.Prelude.Bits.{has_bits}
use rk_hardware_libgralloc_b.Prelude.Words.{u32, u64}
use rk_hardware_libgralloc_b.Selection.Parties.{mali_gralloc_adjust_dimensions}
use rk_hardware_libgralloc_b.Selection.Rk.{FbSize, RkProperties, rk_gralloc_select_format}
use rk_hardware_libgralloc_b.Usages.{
  get_usage_flag_for_stride_alignment, is_stride_alignment_specified,
  rk_gralloc_usage_specify_stride,
}

pub record BufferDescriptor : Type 0 where
  pub width : ℕ
  pub height : ℕ
  pub producer_usage : ℕ
  pub consumer_usage : ℕ
  pub hal_format : ℕ
  pub layer_count : ℕ
  pub size : ℕ
  pub pixel_stride : ℕ
  pub alloc_format : InternalFormat
  pub plane_info : Planes PlaneInfo

-- The bytes that the video decoder wants for a base format, from plane 0; `none` is no demand. The
-- product with 2.5 is exact below 2 ^ 53.
unfoldable pub size_needed_by_rk_video : Hal → ℕ → ℕ → PlaneInfo → Option ℕ
size_needed_by_rk_video hal base_format bpp luma =
    let pixel_stride = u32 (luma.byte_stride * 8) / bpp in
    if base_format == mali_gralloc_format_internal_nv12
    then some (u32 (2 * pixel_stride * luma.alloc_height))
    else if base_format == mali_gralloc_format_internal_nv16 hal
    then some (5 * pixel_stride * luma.alloc_height / 2)
    else if base_format == mali_gralloc_format_internal_nv15
    then some (u32 (2 * luma.byte_stride * luma.alloc_height))
    else if base_format == mali_gralloc_format_internal_nv24
    then some (u32 (3 * luma.byte_stride * luma.alloc_height))
    else none

unfoldable pub adjust_rk_video_buffer_size : Hal → BufferDescriptor → FormatInfo → BufferDescriptor
adjust_rk_video_buffer_size hal descriptor format =
    elim (size_needed_by_rk_video hal (get_base descriptor.alloc_format) format.bpp.p0
      descriptor.plane_info.p0) [
        | none ↦ descriptor
        | some needed ↦ record descriptor {
          size = if ltb descriptor.size needed then needed else descriptor.size;
        }
      ]

-- Validate selected format against requested.
unfoldable pub validate_format : Hal → FormatInfo → AllocType → BufferDescriptor → Bool
validate_format hal format alloc_type descriptor =
    let primary_type = alloc_type.primary_type in
    let is_supported =
      if type_is_afbc primary_type
      then format.afbc
        && not (
            ((format.npln == 1) && alloc_type.is_multi_plane)
            || (ltb 1 format.npln && not alloc_type.is_multi_plane))
      else if type_is_afrc primary_type
      then format.afrc
      else if type_is_block_linear primary_type
      then format.block_linear
      else format.linear in
    is_supported
    && not ((format.id == mali_gralloc_format_internal_blob hal) && not (descriptor.height == 1))

-- The size of a buffer with several layers, each aligned for its AFBC header.
unfoldable pub add_layers : BufferDescriptor → BufferDescriptor
add_layers descriptor =
    let layer =
      if is_afbc descriptor.alloc_format
      then gralloc_align_size descriptor.size
          (if get_afbc_tiled_headers descriptor.alloc_format then 4096 else 128)
      else descriptor.size in
    if ltb 1 descriptor.layer_count
    then record descriptor { size = u64 (layer * descriptor.layer_count) }
    else descriptor

-- Success, or the error -EINVAL.
pub data Status : Type 0 where
  success einval : Status

module _ (hal : Hal) (properties : RkProperties) where
  -- What calc_allocation_size is asked.
  unfoldable pub size_request : FormatInfo → AllocType → ℕ → BufferDescriptor → SizeRequest
  size_request format_info alloc_type usage descriptor = record {
    size =
        mali_gralloc_adjust_dimensions hal descriptor.alloc_format usage
          (record { width = descriptor.width; height = descriptor.height });
    alloc_type = alloc_type;
    format = format_info;
    usage = usage;
    is_stride_specified = has_bits usage rk_gralloc_usage_specify_stride;
    usage_flag = get_usage_flag_for_stride_alignment usage;
  }

  -- The part after the format has been validated, for one layer.
  unfoldable pub set_layer_sizes : FormatInfo → AllocType → ℕ → BufferDescriptor → BufferDescriptor
  set_layer_sizes format_info alloc_type usage descriptor =
      let layout =
        calc_allocation_size hal (size_request format_info alloc_type usage descriptor)
          descriptor.plane_info descriptor.pixel_stride in
      let sized = record descriptor {
        size = layout.total;
        pixel_stride = layout.pixel_stride;
        plane_info = layout.infos;
      } in
      if is_base_format_used_by_rk_video hal (get_base descriptor.alloc_format)
        && (has_bits usage rk_gralloc_usage_specify_stride || is_stride_alignment_specified usage)
      then adjust_rk_video_buffer_size hal sized format_info
      else sized

  unfoldable pub set_sizes : FormatInfo → AllocType → ℕ → BufferDescriptor → BufferDescriptor
  set_sizes format_info alloc_type usage descriptor =
      add_layers (set_layer_sizes format_info alloc_type usage descriptor)

  -- The usage that a descriptor asks for.
  unfoldable pub whole_usage : BufferDescriptor → ℕ
  whole_usage descriptor = bit_or descriptor.producer_usage descriptor.consumer_usage

  -- The part after the format has been selected: the status and the descriptor as it is left.
  unfoldable pub derive_sizes : BufferDescriptor → Status × BufferDescriptor
  derive_sizes descriptor =
      if is_undefined descriptor.alloc_format
      then (einval, descriptor)
      else elim (get_base_info hal descriptor.alloc_format) [
        | none ↦ (einval, descriptor)
        | some format_info ↦
            elim (get_alloc_type hal descriptor.alloc_format (whole_usage descriptor)) [
              | none ↦ (einval, descriptor)
              | some alloc_type ↦
                  if validate_format hal format_info alloc_type descriptor
                  then (
                    success,
                    set_sizes format_info alloc_type (whole_usage descriptor) descriptor,
                  )
                  else (einval, descriptor)
            ]
      ]

  -- The format that the descriptor gets, and the framebuffer's size.
  unfoldable pub select_descriptor_format : FbSize → BufferDescriptor → InternalFormat × FbSize
  select_descriptor_format state descriptor =
      rk_gralloc_select_format hal properties state (u32 descriptor.hal_format)
        (whole_usage descriptor) (u32 (descriptor.width * descriptor.height))

  -- The whole function.
  unfoldable pub mali_gralloc_derive_format_and_size :
      FbSize → BufferDescriptor → (Status × BufferDescriptor) × FbSize
  mali_gralloc_derive_format_and_size state descriptor =
      let (alloc_format, next) = select_descriptor_format state descriptor in
      (derive_sizes (record descriptor { alloc_format = alloc_format }), next)
