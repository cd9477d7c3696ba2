-- ===== src/Mapper/Queries.antt =====
-- The calls of src/idl_common/mapper/mapper.cpp that only ask: validateBufferSize,
-- getTransportSize, isSupported, getReservedRegion, and is_mutable with its table.
use rk_hardware_libgralloc_b.Access.Lock.{address_of}
use rk_hardware_libgralloc_b.Allocation.Derive.{
  BufferDescriptor, einval, mali_gralloc_derive_format_and_size, success,
}
use rk_hardware_libgralloc_b.Allocation.Stride.{PlaneInfo}
use rk_hardware_libgralloc_b.Descriptor.{DescriptorInfo}
use rk_hardware_libgralloc_b.FormatInfo.{planes}
use rk_hardware_libgralloc_b.Hal.{Hal}
use rk_hardware_libgralloc_b.Handle.{HandleLayout, ImportedHandle, minus_one}
use rk_hardware_libgralloc_b.InternalFormat.{invalid}
use rk_hardware_libgralloc_b.Mapper.State.{
  Error, MapperState, error_bad_buffer, error_bad_value, error_none, registered_handle,
}
use rk_hardware_libgralloc_b.Prelude.{
  Bool, Option, false, if◌then◌else◌, leb, none, not, some, true, ℕ, ◌&&◌, ◌+◌, ◌==◌,
}
use rk_hardware_libgralloc_b.Prelude.Words.{sign_extend, u64}
use rk_hardware_libgralloc_b.Selection.Rk.{FbSize, RkProperties}

-- The comparison that validateBufferSize makes, on a handle that is registered.
unfoldable pub matches_descriptor : ImportedHandle → DescriptorInfo → ℕ → Error
matches_descriptor handle info in_stride =
    if not (handle.raw.width == info.width)
    then error_bad_value
    else if not (handle.raw.height == info.height)
    then error_bad_value
    else if not (handle.raw.layer_count == info.layer_count)
    then error_bad_value
    else if not (in_stride == 0) && not (handle.raw.stride == in_stride)
    then error_bad_value
    else if not (handle.raw.req_format == info.format)
    then error_bad_value
    else error_none

unfoldable pub validate_buffer_size : HandleLayout → MapperState → ℕ → DescriptorInfo → ℕ → Error
validate_buffer_size layout state buffer info in_stride =
    elim (registered_handle layout state buffer) [
      | none ↦ error_bad_buffer
      | some handle ↦ matches_descriptor handle info in_stride
    ]

-- The numbers of descriptors and of ints, -1 on an error.
unfoldable pub get_transport_size : HandleLayout → MapperState → ℕ → Error × ℕ × ℕ
get_transport_size layout state buffer = elim (registered_handle layout state buffer) [
  | none ↦ (error_bad_buffer, minus_one, minus_one)
  | some handle ↦ (error_none, handle.raw.num_fds, handle.raw.num_ints)
]

-- A default plane_info_t.
abbrev pub no_plane : PlaneInfo
no_plane = record { offset = 0; byte_stride = 0; alloc_width = 0; alloc_height = 0 }

unfoldable pub descriptor_of_info : DescriptorInfo → BufferDescriptor
descriptor_of_info info = record {
  width = info.width;
  height = info.height;
  producer_usage = info.usage;
  consumer_usage = info.usage;
  hal_format = sign_extend info.format;
  layer_count = info.layer_count;
  size = 0;
  pixel_stride = 0;
  alloc_format = invalid;
  plane_info = planes no_plane no_plane no_plane;
}

-- Whether an allocation could be derived. The size of the framebuffer that the derivation may save
-- is passed on.
unfoldable pub is_description_supported :
    Hal → RkProperties → FbSize → DescriptorInfo → Bool × FbSize
is_description_supported hal properties fb_size info =
    let (derived, next) =
      mali_gralloc_derive_format_and_size hal properties fb_size (descriptor_of_info info) in
    (elim derived.0 [ success ↦ true | einval ↦ false ], next)

-- sizeof(shared_metadata).
abbrev pub shared_metadata_size : ℕ
shared_metadata_size = 6480

unfoldable pub get_reserved_region : HandleLayout → MapperState → ℕ → Error × ℕ × ℕ
get_reserved_region layout state buffer = elim (registered_handle layout state buffer) [
  | none ↦ (error_bad_buffer, 0, 0)
  | some handle ↦ if handle.raw.reserved_region_size == 0 then (error_bad_buffer, 0, 0) else (
    error_none,
    u64 (address_of handle.attr_base + shared_metadata_size),
    handle.raw.reserved_region_size,
  )
]

-- The metadata types of the table, and any other.
pub data MetadataType : Type 0 where
  type_of_buffer_id type_of_name type_of_width type_of_height : MetadataType
  type_of_layer_count type_of_pixel_format_requested type_of_usage : MetadataType
  type_of_pixel_format_four_cc type_of_pixel_format_modifier type_of_allocation_size : MetadataType
  type_of_protected_content type_of_compression type_of_interlaced : MetadataType
  type_of_chroma_siting type_of_plane_layouts type_of_dataspace type_of_blend_mode : MetadataType
  type_of_smpte2086 type_of_cta861_3 type_of_smpte2094_40 type_of_smpte2094_10 : MetadataType
  type_of_crop type_of_arm_plane_fds type_of_other : MetadataType

-- isSettable of the entry, `none` where there is none.
unfoldable pub is_settable : ℕ → MetadataType → Option Bool
is_settable sdk_version type_of_chroma_siting = some true
is_settable sdk_version type_of_dataspace = some true
is_settable sdk_version type_of_blend_mode = some true
is_settable sdk_version type_of_smpte2086 = some true
is_settable sdk_version type_of_cta861_3 = some true
is_settable sdk_version type_of_smpte2094_40 = some true
is_settable sdk_version type_of_crop = some true
is_settable sdk_version type_of_smpte2094_10 = if leb 33 sdk_version then some true else none
is_settable sdk_version type_of_other = none
is_settable sdk_version _ = some false

unfoldable pub is_mutable : ℕ → MetadataType → Bool
is_mutable sdk_version metadata_type = elim (is_settable sdk_version metadata_type) [
  | none ↦ false
  | some settable ↦ settable
]
