-- ===== src/Mapper/Layouts.antt =====
-- get_num_planes, plane_layout_components_from_handle, get_plane_layouts, get_plane_fds and
-- encodeArmPlaneFds of src/idl_common/mapper/mapper_metadata.cpp.
use rk_hardware_libgralloc_b.Descriptor.{bytes_of}
use rk_hardware_libgralloc_b.Drm.{
  DrmCodes, drm_format_abgr16161616f, drm_format_axbxgxrx106106106106, drm_format_invalid,
  drm_format_p010, drm_format_p210, drm_format_y0l2, drm_format_y210, drm_format_y410,
  drm_format_yuv420_10bit, drm_format_yuv420_8bit, drm_fourcc_from_handle,
}
use rk_hardware_libgralloc_b.Format.{
  mali_gralloc_format_internal_raw10, mali_gralloc_format_internal_raw12,
}
use rk_hardware_libgralloc_b.FormatInfo.{FormatInfo, at, get_base_info}
use rk_hardware_libgralloc_b.Hal.{Hal}
use rk_hardware_libgralloc_b.Handle.{PrivateHandle, is_multi_plane}
use rk_hardware_libgralloc_b.InternalFormat.{InternalFormat, get_base, has_modifiers, is_afbc}
use rk_hardware_libgralloc_b.Prelude.{
  Bool, List, Option, [], get_elem?, if◌then◌else◌, length, ltb, none, not, replicate, some, suc,
  zero, ℕ, ◌&&◌, ◌++◌, ◌+◌, ◌-◌, ◌==◌, ◌^◌, ◌||◌, ◌∷◌,
}
use rk_hardware_libgralloc_b.Prelude.Words.{int_div, sign_extend, u64}

-- The component types of gralloc4 that the table uses.
pub data ComponentType : Type 0 where
  component_r component_g component_b component_a : ComponentType
  component_cb component_cr component_y component_raw : ComponentType

-- PlaneLayoutComponent. The size is 64 bits wide.
pub record LayoutComponent : Type 0 where
  pub component_type : ComponentType
  pub offset_in_bits : ℕ
  pub size_in_bits : ℕ

abbrev pub component : ComponentType → ℕ → ℕ → LayoutComponent
component component_type offset_in_bits size_in_bits = record {
  component_type = component_type;
  offset_in_bits = offset_in_bits;
  size_in_bits = size_in_bits;
}

unfoldable pub get_num_planes : PrivateHandle → ℕ
get_num_planes hnd =
    if is_multi_plane hnd then (if hnd.plane_info.p2.offset == 0 then 2 else 3) else 1

unfoldable pub component_table : DrmCodes → List (ℕ × List (List LayoutComponent))
component_table codes =
    (
      codes.drm_format_rgb565,
      (component component_b 0 5 ∷ component component_g 5 6 ∷ component component_r 11 5 ∷ [])
          ∷ [],
    )
    ∷ (
      codes.drm_format_bgr565,
      (component component_r 0 5 ∷ component component_g 5 6 ∷ component component_b 11 5 ∷ [])
          ∷ [],
    )
    ∷ (
      codes.drm_format_bgr888,
      (component component_r 0 8 ∷ component component_g 8 8 ∷ component component_b 16 8 ∷ [])
          ∷ [],
    )
    ∷ (
      codes.drm_format_argb8888,
      (component component_b 0 8
            ∷ component component_g 8 8
            ∷ component component_r 16 8
            ∷ component component_a 24 8
            ∷ [])
          ∷ [],
    )
    ∷ (
      codes.drm_format_abgr8888,
      (component component_r 0 8
            ∷ component component_g 8 8
            ∷ component component_b 16 8
            ∷ component component_a 24 8
            ∷ [])
          ∷ [],
    )
    ∷ (
      codes.drm_format_xbgr8888,
      (component component_r 0 8 ∷ component component_g 8 8 ∷ component component_b 16 8 ∷ [])
          ∷ [],
    )
    ∷ (
      codes.drm_format_abgr2101010,
      (component component_r 0 10
            ∷ component component_g 10 10
            ∷ component component_b 20 10
            ∷ component component_a 30 2
            ∷ [])
          ∷ [],
    )
    ∷ (
      (drm_format_abgr16161616f codes),
      (component component_r 0 16
            ∷ component component_g 16 16
            ∷ component component_b 32 16
            ∷ component component_a 48 16
            ∷ [])
          ∷ [],
    )
    ∷ (
      (drm_format_axbxgxrx106106106106 codes),
      (component component_r 6 10
            ∷ component component_g 22 10
            ∷ component component_b 38 10
            ∷ component component_a 54 10
            ∷ [])
          ∷ [],
    )
    ∷ (
      codes.drm_format_yuyv,
      (component component_y 0 8
            ∷ component component_cb 8 8
            ∷ component component_y 16 8
            ∷ component component_cr 24 8
            ∷ [])
          ∷ [],
    )
    ∷ (
      (drm_format_y410 codes),
      (component component_cb 0 10
            ∷ component component_y 10 10
            ∷ component component_cr 20 10
            ∷ component component_a 30 2
            ∷ [])
          ∷ [],
    )
    ∷ (
      (drm_format_y210 codes),
      (component component_y 6 10
            ∷ component component_cb 22 10
            ∷ component component_y 38 10
            ∷ component component_cr 54 10
            ∷ [])
          ∷ [],
    )
    ∷ (
      (drm_format_y0l2 codes),
      (component component_y 0 10
            ∷ component component_cb 10 10
            ∷ component component_y 20 10
            ∷ component component_a 30 1
            ∷ component component_a 31 1
            ∷ component component_y 32 10
            ∷ component component_cr 42 10
            ∷ component component_y 52 10
            ∷ component component_a 62 1
            ∷ component component_a 63 1
            ∷ [])
          ∷ [],
    )
    ∷ (
      codes.drm_format_nv24,
      (component component_y 0 8 ∷ [])
          ∷ (component component_cb 0 8 ∷ component component_cr 8 8 ∷ [])
          ∷ [],
    )
    ∷ (
      codes.drm_format_nv30,
      (component component_y 0 10 ∷ [])
          ∷ (component component_cb 0 10 ∷ component component_cr 10 10 ∷ [])
          ∷ [],
    )
    ∷ (
      codes.drm_format_nv16,
      (component component_y 0 8 ∷ [])
          ∷ (component component_cb 0 8 ∷ component component_cr 8 8 ∷ [])
          ∷ [],
    )
    ∷ (
      codes.drm_format_nv12,
      (component component_y 0 8 ∷ [])
          ∷ (component component_cb 0 8 ∷ component component_cr 8 8 ∷ [])
          ∷ [],
    )
    ∷ (
      codes.drm_format_nv21,
      (component component_y 0 8 ∷ [])
          ∷ (component component_cr 0 8 ∷ component component_cb 8 8 ∷ [])
          ∷ [],
    )
    ∷ (
      (drm_format_p210 codes),
      (component component_y 6 10 ∷ [])
          ∷ (component component_cb 6 10 ∷ component component_cr 22 10 ∷ [])
          ∷ [],
    )
    ∷ (
      (drm_format_p010 codes),
      (component component_y 6 10 ∷ [])
          ∷ (component component_cb 6 10 ∷ component component_cr 22 10 ∷ [])
          ∷ [],
    )
    ∷ (
      codes.drm_format_yvu420,
      (component component_y 0 8 ∷ [])
          ∷ (component component_cr 0 8 ∷ [])
          ∷ (component component_cb 0 8 ∷ [])
          ∷ [],
    )
    ∷ (
      codes.drm_format_yuv420,
      (component component_y 0 8 ∷ [])
          ∷ (component component_cb 0 8 ∷ [])
          ∷ (component component_cr 0 8 ∷ [])
          ∷ [],
    )
    ∷ (
      codes.drm_format_yuv444,
      (component component_y 0 8 ∷ [])
          ∷ (component component_cb 0 8 ∷ [])
          ∷ (component component_cr 0 8 ∷ [])
          ∷ [],
    )
    ∷ ((drm_format_yuv420_8bit codes), [] ∷ [])
    ∷ ((drm_format_yuv420_10bit codes), [] ∷ [])
    ∷ (codes.drm_format_r8, (component component_r 0 8 ∷ []) ∷ [])
    ∷ []

unfoldable pub find_components :
    List (ℕ × List (List LayoutComponent)) → ℕ → Option (List (List LayoutComponent))
find_components [] drm_fourcc = none
find_components ((fourcc, components) ∷ entries) drm_fourcc =
    let rest = find_components entries drm_fourcc in
    if fourcc == drm_fourcc then some components else rest

abbrev pub is_raw_format : Hal → ℕ → Bool
is_raw_format hal base_format =
    (base_format == mali_gralloc_format_internal_raw10 hal)
    || (base_format == mali_gralloc_format_internal_raw12 hal)

-- The size of a raw component is -1. A format without an entry has no components.
unfoldable pub plane_layout_components_from_handle :
    Hal → DrmCodes → PrivateHandle → List (List LayoutComponent)
plane_layout_components_from_handle hal codes hnd =
    let drm_fourcc = drm_fourcc_from_handle hal codes hnd in
    if not (has_modifiers hnd.alloc_format) && is_raw_format hal (get_base hnd.alloc_format)
    then (component component_raw 0 (2 ^ 64 - 1) ∷ []) ∷ []
    else if drm_fourcc == drm_format_invalid
    then []
    else elim (find_components (component_table codes) drm_fourcc) [
      | none ↦ []
      | some components ↦ components
    ]

-- PlaneLayout, its members int64_t.
pub record PlaneLayout : Type 0 where
  pub offset_in_bytes : ℕ
  pub sample_increment_in_bits : ℕ
  pub stride_in_bytes : ℕ
  pub width_in_samples : ℕ
  pub height_in_samples : ℕ
  pub total_size_in_bytes : ℕ
  pub horizontal_subsampling : ℕ
  pub vertical_subsampling : ℕ
  pub components : List LayoutComponent

-- The size of a layer, an `int` division. A buffer has at least one layer.
unfoldable pub layer_size : PrivateHandle → ℕ
layer_size handle = sign_extend (int_div handle.size handle.layer_count)

-- What is reported as the size of a plane: up to the last plane the offset of the next one.
unfoldable pub plane_size : PrivateHandle → ℕ → ℕ → ℕ
plane_size handle num_planes plane_index =
    if ltb plane_index (num_planes - 1)
    then (at handle.plane_info (plane_index + 1)).offset
    else u64 (layer_size handle + (2 ^ 64 - (at handle.plane_info plane_index).offset))

unfoldable pub sample_increment : Hal → FormatInfo → InternalFormat → ℕ → ℕ
sample_increment hal format_info format plane_index =
    if has_modifiers format || not (is_raw_format hal (get_base format))
    then (if is_afbc format
        then at format_info.bpp_afbc plane_index
        else at format_info.bpp plane_index)
    else 0

abbrev pub components_of : List (List LayoutComponent) → ℕ → List LayoutComponent
components_of components plane_index = elim (get_elem? components plane_index) [
  | none ↦ []
  | some found ↦ found
]

unfoldable pub plane_layout :
    Hal → FormatInfo → PrivateHandle → List (List LayoutComponent) → ℕ → ℕ → PlaneLayout
plane_layout hal format_info handle components num_planes plane_index =
    let plane = at handle.plane_info plane_index in
    record {
      offset_in_bytes = plane.offset;
      sample_increment_in_bits = sample_increment hal format_info handle.alloc_format plane_index;
      stride_in_bytes = plane.byte_stride;
      width_in_samples = plane.alloc_width;
      height_in_samples = plane.alloc_height;
      total_size_in_bytes = plane_size handle num_planes plane_index;
      horizontal_subsampling = if plane_index == 0 then 1 else format_info.hsub;
      vertical_subsampling = if plane_index == 0 then 1 else format_info.vsub;
      components = components_of components plane_index;
    }

-- The loop over the planes, `count` of them left.
unfoldable pub plane_layouts : (ℕ → PlaneLayout) → ℕ → ℕ → List PlaneLayout
plane_layouts layout_of zero plane_index = []
plane_layouts layout_of (suc count) plane_index =
    layout_of plane_index ∷ plane_layouts layout_of count (plane_index + 1)

-- `none` is BAD_VALUE.
unfoldable pub get_plane_layouts : Hal → DrmCodes → PrivateHandle → Option (List PlaneLayout)
get_plane_layouts hal codes handle =
    let num_planes = get_num_planes handle in
    elim (get_base_info hal handle.alloc_format) [
      | none ↦ none
      | some format_info ↦
          let components = plane_layout_components_from_handle hal codes handle in
          some
            (plane_layouts (plane_layout hal format_info handle components num_planes) num_planes 0)
    ]

-- One descriptor for each plane, an int64_t.
unfoldable pub get_plane_fds : PrivateHandle → List ℕ
get_plane_fds hnd = replicate (get_num_planes hnd) (sign_extend hnd.share_fd)

unfoldable pub int64_bytes : List ℕ → List ℕ
int64_bytes [] = []
int64_bytes (value ∷ values) = bytes_of 8 value ++ int64_bytes values

unfoldable pub encode_arm_plane_fds : List ℕ → List ℕ
encode_arm_plane_fds fds = bytes_of 8 (length fds) ++ int64_bytes fds
