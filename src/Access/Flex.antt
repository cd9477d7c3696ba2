-- ===== src/Access/Flex.antt =====
-- mali_gralloc_get_num_flex_planes, set_flex_plane_params and mali_gralloc_lock_flex of
-- src/core/buffer_access.cpp. The enumerators are those of hardware/gralloc1.h that the code uses.
-- A layout lists the planes that are written, by their index.
use rk_hardware_libgralloc_b.Access.Lock.{address_of, at_offset}
use rk_hardware_libgralloc_b.Access.Region.{
  AccessRegion, ErrorCodes, negated, validate_lock_input_parameters,
}
use rk_hardware_libgralloc_b.Access.Sync.{Allocator, buffer_sync, get_tx_direction, mali_map_buffer}
use rk_hardware_libgralloc_b.Format.{
  mali_gralloc_format_internal_bgra_8888, mali_gralloc_format_internal_nv12,
  mali_gralloc_format_internal_nv16, mali_gralloc_format_internal_nv21,
  mali_gralloc_format_internal_p010, mali_gralloc_format_internal_p210,
  mali_gralloc_format_internal_rgb_888, mali_gralloc_format_internal_rgba_16161616,
  mali_gralloc_format_internal_rgba_8888, mali_gralloc_format_internal_rgbx_8888,
  mali_gralloc_format_internal_y16, mali_gralloc_format_internal_y210,
  mali_gralloc_format_internal_y8, mali_gralloc_format_internal_yu12,
  mali_gralloc_format_internal_yuv422_8bit, mali_gralloc_format_internal_yv12,
}
use rk_hardware_libgralloc_b.FormatInfo.{FormatInfo, get_base_info, planes, total_components}
use rk_hardware_libgralloc_b.Hal.{Hal}
use rk_hardware_libgralloc_b.Handle.{ImportedHandle, PrivateHandle}
use rk_hardware_libgralloc_b.InternalFormat.{get_base, has_modifiers}
use rk_hardware_libgralloc_b.Mapper.Layouts.{component}
use rk_hardware_libgralloc_b.Prelude.{
  List, Option, [], if◌then◌else◌, none, not, some, ℕ, ◌+◌, ◌==◌, ◌∷◌,
}
use rk_hardware_libgralloc_b.Prelude.Words.{u64}

pub data FlexComponent : Type 0 where
  flex_component_y flex_component_cb flex_component_cr : FlexComponent
  flex_component_r flex_component_g flex_component_b flex_component_a : FlexComponent

pub data FlexFormat : Type 0 where
  flex_format_y flex_format_ycbcr flex_format_rgb flex_format_rgba : FlexFormat

pub record FlexPlane : Type 0 where
  pub top_left : ℕ
  pub component : FlexComponent
  pub bits_per_component : ℕ
  pub bits_used : ℕ
  pub h_increment : ℕ
  pub v_increment : ℕ
  pub h_subsampling : ℕ
  pub v_subsampling : ℕ

pub record FlexLayout : Type 0 where
  pub num_planes : ℕ
  pub flex_format : FlexFormat
  pub flex_planes : List FlexPlane

pub record FlexResult : Type 0 where
  pub flex_status : ℕ
  pub flex_layout : Option FlexLayout
  pub flex_buffer : ImportedHandle

abbrev pub failed_flex : ℕ → ImportedHandle → FlexResult
failed_flex status hnd = record { flex_status = status; flex_layout = none; flex_buffer = hnd }

-- set_flex_plane_params.
abbrev pub flex_plane : ℕ → FlexComponent → ℕ → ℕ → ℕ → ℕ → ℕ → ℕ → FlexPlane
flex_plane top_left component bits_per_component bits_used h_increment v_increment h_subsampling
      v_subsampling =
    record {
      top_left = top_left;
      component = component;
      bits_per_component = bits_per_component;
      bits_used = bits_used;
      h_increment = h_increment;
      v_increment = v_increment;
      h_subsampling = h_subsampling;
      v_subsampling = v_subsampling;
    }

abbrev pub flex_of : FlexFormat → List FlexPlane → Option (FlexFormat × List FlexPlane)
flex_of format planes = some (format, planes)

-- The cases of the switch from YUV422_8BIT on; `none` is its default.
unfoldable pub flex_packed_planes_of :
    Hal → ImportedHandle → ℕ → Option (FlexFormat × List FlexPlane)
flex_packed_planes_of hal hnd base_format =
    let first = hnd.raw.plane_info.p0 in
    let second = hnd.raw.plane_info.p1 in
    if base_format == mali_gralloc_format_internal_yuv422_8bit
    then flex_of flex_format_ycbcr (
        flex_plane (address_of hnd.base) flex_component_y 8 8 2 first.byte_stride 1 1
        ∷ flex_plane (at_offset hnd 1) flex_component_cb 8 8 4 first.byte_stride 2 1
        ∷ flex_plane (at_offset hnd 3) flex_component_cr 8 8 4 first.byte_stride 2 1
        ∷ [])
    else if base_format == (mali_gralloc_format_internal_nv16 hal)
    then flex_of flex_format_ycbcr (
        flex_plane (address_of hnd.base) flex_component_y 8 8 1 first.byte_stride 1 1
        ∷ flex_plane (at_offset hnd second.offset) flex_component_cb 8 8 2 second.byte_stride 2 1
        ∷ flex_plane (u64 (at_offset hnd second.offset + 1)) flex_component_cr 8 8 2
            second.byte_stride 2 1
        ∷ [])
    else if base_format == mali_gralloc_format_internal_y210
    then flex_of flex_format_ycbcr (
        flex_plane (address_of hnd.base) flex_component_y 16 10 4 first.byte_stride 1 1
        ∷ flex_plane (at_offset hnd 2) flex_component_cb 16 10 8 first.byte_stride 2 1
        ∷ flex_plane (at_offset hnd 6) flex_component_cr 16 10 8 first.byte_stride 2 1
        ∷ [])
    else if base_format == (mali_gralloc_format_internal_rgba_16161616 hal)
    then flex_of flex_format_rgba (
        flex_plane (address_of hnd.base) flex_component_r 16 16 8 first.byte_stride 1 1
        ∷ flex_plane (at_offset hnd 2) flex_component_g 16 16 8 first.byte_stride 1 1
        ∷ flex_plane (at_offset hnd 4) flex_component_b 16 16 8 first.byte_stride 1 1
        ∷ flex_plane (at_offset hnd 6) flex_component_a 16 16 8 first.byte_stride 1 1
        ∷ [])
    else if base_format == (mali_gralloc_format_internal_rgba_8888 hal)
    then flex_of flex_format_rgba (
        flex_plane (address_of hnd.base) flex_component_r 8 8 4 first.byte_stride 1 1
        ∷ flex_plane (at_offset hnd 1) flex_component_g 8 8 4 first.byte_stride 1 1
        ∷ flex_plane (at_offset hnd 2) flex_component_b 8 8 4 first.byte_stride 1 1
        ∷ flex_plane (at_offset hnd 3) flex_component_a 8 8 4 first.byte_stride 1 1
        ∷ [])
    else if base_format == (mali_gralloc_format_internal_rgbx_8888 hal)
    then flex_of flex_format_rgb (
        flex_plane (address_of hnd.base) flex_component_r 8 8 4 first.byte_stride 1 1
        ∷ flex_plane (at_offset hnd 1) flex_component_g 8 8 4 first.byte_stride 1 1
        ∷ flex_plane (at_offset hnd 2) flex_component_b 8 8 4 first.byte_stride 1 1
        ∷ [])
    else if base_format == (mali_gralloc_format_internal_rgb_888 hal)
    then flex_of flex_format_rgb (
        flex_plane (address_of hnd.base) flex_component_r 8 8 3 first.byte_stride 1 1
        ∷ flex_plane (at_offset hnd 1) flex_component_g 8 8 3 first.byte_stride 1 1
        ∷ flex_plane (at_offset hnd 2) flex_component_b 8 8 3 first.byte_stride 1 1
        ∷ [])
    else if base_format == (mali_gralloc_format_internal_bgra_8888 hal)
    then flex_of flex_format_rgba (
        flex_plane (at_offset hnd 2) flex_component_r 8 8 4 first.byte_stride 1 1
        ∷ flex_plane (at_offset hnd 1) flex_component_g 8 8 4 first.byte_stride 1 1
        ∷ flex_plane (address_of hnd.base) flex_component_b 8 8 4 first.byte_stride 1 1
        ∷ flex_plane (at_offset hnd 3) flex_component_a 8 8 4 first.byte_stride 1 1
        ∷ [])
    else none

-- The switch on the base format, for a mapped buffer.
unfoldable pub flex_planes_of : Hal → ImportedHandle → ℕ → Option (FlexFormat × List FlexPlane)
flex_planes_of hal hnd base_format =
    let first = hnd.raw.plane_info.p0 in
    let second = hnd.raw.plane_info.p1 in
    let third = hnd.raw.plane_info.p2 in
    if base_format == mali_gralloc_format_internal_y8
    then flex_of flex_format_y
        (flex_plane (address_of hnd.base) flex_component_y 8 8 1 first.byte_stride 1 1 ∷ [])
    else if base_format == mali_gralloc_format_internal_y16
    then flex_of flex_format_y
        (flex_plane (address_of hnd.base) flex_component_y 16 16 2 first.byte_stride 1 1 ∷ [])
    else if base_format == mali_gralloc_format_internal_nv12
    then flex_of flex_format_ycbcr (
        flex_plane (address_of hnd.base) flex_component_y 8 8 1 first.byte_stride 1 1
        ∷ flex_plane (at_offset hnd second.offset) flex_component_cb 8 8 2 second.byte_stride 2 2
        ∷ flex_plane (u64 (at_offset hnd second.offset + 1)) flex_component_cr 8 8 2
            second.byte_stride 2 2
        ∷ [])
    else if base_format == mali_gralloc_format_internal_nv21
    then flex_of flex_format_ycbcr (
        flex_plane (address_of hnd.base) flex_component_y 8 8 1 first.byte_stride 1 1
        ∷ flex_plane (u64 (at_offset hnd second.offset + 1)) flex_component_cb 8 8 2
            second.byte_stride 2 2
        ∷ flex_plane (at_offset hnd second.offset) flex_component_cr 8 8 2 second.byte_stride 2 2
        ∷ [])
    else if base_format == mali_gralloc_format_internal_yv12
    then flex_of flex_format_ycbcr (
        flex_plane (address_of hnd.base) flex_component_y 8 8 1 first.byte_stride 1 1
        ∷ flex_plane (at_offset hnd third.offset) flex_component_cb 8 8 1 third.byte_stride 2 2
        ∷ flex_plane (at_offset hnd second.offset) flex_component_cr 8 8 1 second.byte_stride 2 2
        ∷ [])
    else if base_format == mali_gralloc_format_internal_yu12
    then flex_of flex_format_ycbcr (
        flex_plane (address_of hnd.base) flex_component_y 8 8 1 first.byte_stride 1 1
        ∷ flex_plane (at_offset hnd second.offset) flex_component_cb 8 8 1 third.byte_stride 2 2
        ∷ flex_plane (at_offset hnd third.offset) flex_component_cr 8 8 1 second.byte_stride 2 2
        ∷ [])
    else if base_format == mali_gralloc_format_internal_p010
    then flex_of flex_format_ycbcr (
        flex_plane (address_of hnd.base) flex_component_y 16 10 2 first.byte_stride 1 1
        ∷ flex_plane (at_offset hnd second.offset) flex_component_cb 16 10 4 second.byte_stride 2 2
        ∷ flex_plane (u64 (at_offset hnd second.offset + 2)) flex_component_cr 16 10 4
            second.byte_stride 2 2
        ∷ [])
    else if base_format == mali_gralloc_format_internal_p210
    then flex_of flex_format_ycbcr (
        flex_plane (address_of hnd.base) flex_component_y 16 10 2 first.byte_stride 1 1
        ∷ flex_plane (at_offset hnd second.offset) flex_component_cb 16 10 4 second.byte_stride 2 1
        ∷ flex_plane (u64 (at_offset hnd second.offset + 2)) flex_component_cr 16 10 4
            second.byte_stride 2 1
        ∷ [])
    else flex_packed_planes_of hal hnd base_format

-- GRALLOC1_ERROR_NONE is 0. The handle has been cast before, and may be raw.
unfoldable pub mali_gralloc_get_num_flex_planes : Hal → ErrorCodes → PrivateHandle → ℕ × Option ℕ
mali_gralloc_get_num_flex_planes hal codes handle =
    if has_modifiers handle.alloc_format
    then (codes.gralloc1_error_unsupported, none)
    else elim (get_base_info hal handle.alloc_format) [
      | none ↦ (negated codes.errno_einval, none)
      | some info ↦
          if not info.flex
          then (codes.gralloc1_error_unsupported, none)
          else (0, some (total_components info))
    ]

module _ (hal : Hal) (codes : ErrorCodes) (allocator : Allocator) (pid : ℕ) where
  unfoldable pub lock_mapped_flex : FormatInfo → ℕ → ℕ × ImportedHandle → FlexResult
  lock_mapped_flex info usage (status, hnd) =
      if not (status == 0)
      then failed_flex status hnd
      else elim (flex_planes_of hal hnd (get_base hnd.raw.alloc_format)) [
        | none ↦ failed_flex codes.gralloc1_error_unsupported hnd
        | some (format, planes) ↦ record {
          flex_status = 0;
          flex_layout = some (record {
            num_planes = total_components info;
            flex_format = format;
            flex_planes = planes;
          });
          flex_buffer = buffer_sync allocator hnd (get_tx_direction usage);
        }
      ]

  unfoldable pub mali_gralloc_lock_flex : ImportedHandle → ℕ → AccessRegion → FlexResult
  mali_gralloc_lock_flex hnd usage region =
      let status = validate_lock_input_parameters codes pid hnd region in
      if not (status == 0)
      then failed_flex status hnd
      else elim (get_base_info hal hnd.raw.alloc_format) [
        | none ↦ failed_flex (negated codes.errno_einval) hnd
        | some info ↦
            if not info.flex
            then failed_flex codes.gralloc1_error_unsupported hnd
            else lock_mapped_flex info usage (mali_map_buffer allocator hnd)
      ]
