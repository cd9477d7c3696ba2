-- ===== src/Metadata.antt =====
-- src/idl_common/gralloc_shared/shared_metadata.cpp: the region of memory that the processes share
-- for a buffer, with the metadata that a client may set. The types that the Android headers declare
-- are parameters, an `int` is its bit pattern, and PLATFORM_SDK_VERSION an argument.
pub mod Laws
pub mod Crop
use rk_hardware_libgralloc_b.Handle.{PrivateHandle}
use rk_hardware_libgralloc_b.Prelude.{
  Bool, List, Option, [], drop, if◌then◌else◌, leb, length, ltb, min, none, not, replicate, some,
  take, ℕ, ◌&&◌, ◌++◌, ◌+◌, ◌-◌, ◌==◌, ◌^◌, ◌||◌,
}
use rk_hardware_libgralloc_b.Prelude.Words.{int_lt, is_negative, u32}

-- aligned_optional: the state, and the item, which is there in either state.
pub data ItemState : Type 0 where
  vacant occupied : ItemState

pub record AlignedOptional {ℓ} (A : Type ℓ) : Type ℓ where
  pub item_state : ItemState
  pub item : A

abbrev pub aligned_optional {ℓ} : {A : Type ℓ} → A → AlignedOptional A
aligned_optional initial_value = record { item_state = occupied; item = initial_value }

-- The constructor from a std::optional; `fallback` is the default item.
abbrev pub aligned_of_optional {ℓ} : {A : Type ℓ} → A → Option A → AlignedOptional A
aligned_of_optional fallback none = record { item_state = vacant; item = fallback }
aligned_of_optional fallback (some value) = record { item_state = occupied; item = value }

abbrev pub to_std_optional {ℓ} : {A : Type ℓ} → AlignedOptional A → Option A
to_std_optional stored = elim stored.item_state [ vacant ↦ none | occupied ↦ some stored.item ]

abbrev pub reset {ℓ} : {A : Type ℓ} → AlignedOptional A → AlignedOptional A
reset stored = record stored { item_state = vacant }

-- aligned_inline_vector<uint8_t, N>: the list of contents has N elements.
pub record AlignedInlineVector : Type 0 where
  pub size : ℕ
  pub contents : List ℕ

-- memcpy of a whole vector to the front.
unfoldable pub write_front : List ℕ → List ℕ → List ℕ
write_front contents data_ = data_ ++ drop (length data_) contents

pub record CropRect : Type 0 where
  pub crop_left : ℕ
  pub crop_top : ℕ
  pub crop_right : ℕ
  pub crop_bottom : ℕ

pub data MetadataStatus : Type 0 where
  metadata_ok metadata_bad_value : MetadataStatus

-- The sizes of the two vectors, src/idl_common/gralloc_shared/include/idl_common/constants.h.
abbrev pub smpte2094_40_size : ℕ
smpte2094_40_size = 1268

abbrev pub smpte2094_10_size : ℕ
smpte2094_10_size = 4829

abbrev pub name_capacity : ℕ
name_capacity = 256

-- The types of the Android headers, with the default item of each that has a nullable setter.
pub record MetadataTypes : Type 1 where
  pub BlendMode : Type 0
  pub Cta : Type 0
  pub Dataspace : Type 0
  pub Smpte2086 : Type 0
  pub TypeName : Type 0
  pub default_cta : Cta
  pub default_smpte2086 : Smpte2086
  pub default_blend_mode : BlendMode
  pub default_dataspace : Dataspace
  pub standard_chroma_siting : TypeName
  pub arm_chroma_siting : TypeName
  -- the two values of aidl::arm::graphics::ChromaSiting
  pub cosited_both : ℕ
  pub cosited_vertical : ℕ

pub record SharedMetadata (types : MetadataTypes) : Type 0 where
  pub blend_mode : AlignedOptional types.BlendMode
  pub crop : AlignedOptional CropRect
  pub cta861_3 : AlignedOptional types.Cta
  pub dataspace : AlignedOptional types.Dataspace
  pub chroma_siting : AlignedOptional ℕ
  pub smpte2086 : AlignedOptional types.Smpte2086
  pub smpte2094_40 : AlignedInlineVector
  pub smpte2094_10 : AlignedInlineVector
  pub name : AlignedInlineVector

abbrev pub empty_vector : ℕ → AlignedInlineVector
empty_vector capacity = record { size = 0; contents = replicate capacity 0 }

-- The test of set_crop_rect, on the members of the handle that it reads. The comparisons with
-- alloc_width and alloc_height are on uint32_t, those with width and height on `int`.
unfoldable pub is_valid_crop : PrivateHandle → CropRect → Bool
is_valid_crop handle crop =
    not (is_negative crop.crop_top)
    && not (is_negative crop.crop_left)
    && not (int_lt crop.crop_right crop.crop_left)
    && not (ltb handle.plane_info.p0.alloc_width crop.crop_right)
    && not (int_lt crop.crop_bottom crop.crop_top)
    && not (ltb handle.plane_info.p0.alloc_height crop.crop_bottom)
    && (u32 (crop.crop_right + (2 ^ 32 - crop.crop_left)) == handle.width)
    && (u32 (crop.crop_bottom + (2 ^ 32 - crop.crop_top)) == handle.height)

-- The setter of a vector, where a size of 0 or beyond the capacity is refused.
unfoldable pub set_vector : ℕ → AlignedInlineVector → List ℕ → MetadataStatus × AlignedInlineVector
set_vector capacity stored data_ =
    if length data_ == 0
    then (metadata_bad_value, stored)
    else if ltb capacity (length data_)
    then (metadata_bad_value, stored)
    else (
      metadata_ok,
      record { size = u32 (length data_); contents = write_front stored.contents data_ },
    )

-- The getter reads from begin() to end(), all of the contents.
unfoldable pub get_vector : AlignedInlineVector → Option (List ℕ)
get_vector stored = if ltb 0 stored.size then some stored.contents else none

-- ExtendableType: the name of a type, and a value of it.
pub record ExtendableType (types : MetadataTypes) : Type 0 where
  pub type_name : types.TypeName
  pub type_value : ℕ

module _ (types : MetadataTypes) where
  -- The constructor of shared_metadata. A name that does not fit is cut.
  unfoldable pub shared_metadata : List ℕ → SharedMetadata types
  shared_metadata in_name =
      let name_size = min name_capacity (u32 (length in_name)) in
      record {
        blend_mode = aligned_of_optional types.default_blend_mode none;
        crop =
            aligned_of_optional
              (record { crop_left = 0; crop_top = 0; crop_right = 0; crop_bottom = 0 }) none;
        cta861_3 = aligned_of_optional types.default_cta none;
        dataspace = aligned_of_optional types.default_dataspace none;
        chroma_siting = aligned_of_optional 0 none;
        smpte2086 = aligned_of_optional types.default_smpte2086 none;
        smpte2094_40 = empty_vector smpte2094_40_size;
        smpte2094_10 = empty_vector smpte2094_10_size;
        name = record {
          size = name_size;
          contents = write_front (replicate name_capacity 0) (take name_size in_name);
        };
      }

  unfoldable pub shared_metadata_init :
      List ℕ → types.Dataspace → ExtendableType types → SharedMetadata types
  shared_metadata_init in_name dataspace chroma_siting = record (shared_metadata in_name) {
    dataspace = aligned_optional dataspace;
    chroma_siting = aligned_optional chroma_siting.type_value;
  }

  unfoldable pub get_name : SharedMetadata types → List ℕ
  get_name metadata =
      if ltb 0 metadata.name.size then take metadata.name.size metadata.name.contents else []

  abbrev pub get_crop_rect : SharedMetadata types → Option CropRect
  get_crop_rect metadata = to_std_optional metadata.crop

  unfoldable pub set_crop_rect :
      PrivateHandle → SharedMetadata types → CropRect → MetadataStatus × SharedMetadata types
  set_crop_rect handle metadata crop =
      if not (is_valid_crop handle crop)
      then (metadata_bad_value, metadata)
      else (metadata_ok, record metadata { crop = aligned_optional crop })

  abbrev pub get_dataspace : SharedMetadata types → Option types.Dataspace
  get_dataspace metadata = to_std_optional metadata.dataspace

  abbrev pub set_dataspace : SharedMetadata types → types.Dataspace → SharedMetadata types
  set_dataspace metadata dataspace = record metadata { dataspace = aligned_optional dataspace }

  abbrev pub chroma_siting_is_arm_value : ℕ → Bool
  chroma_siting_is_arm_value value =
      (value == types.cosited_both) || (value == types.cosited_vertical)

  -- The output keeps what it held where nothing is stored; a caller passes std::nullopt.
  unfoldable pub get_chroma_siting : SharedMetadata types → Option (ExtendableType types)
  get_chroma_siting metadata = elim (to_std_optional metadata.chroma_siting) [
    | none ↦ none
    | some value ↦ some (record {
      type_name =
          if chroma_siting_is_arm_value value
          then types.arm_chroma_siting
          else types.standard_chroma_siting;
      type_value = value;
    })
  ]

  abbrev pub set_chroma_siting : SharedMetadata types → ExtendableType types → SharedMetadata types
  set_chroma_siting metadata chroma_siting = record metadata {
    chroma_siting = aligned_optional chroma_siting.type_value;
  }

  abbrev pub get_blend_mode : SharedMetadata types → Option types.BlendMode
  get_blend_mode metadata = to_std_optional metadata.blend_mode

  abbrev pub set_blend_mode : SharedMetadata types → types.BlendMode → SharedMetadata types
  set_blend_mode metadata blend_mode = record metadata { blend_mode = aligned_optional blend_mode }

  abbrev pub get_smpte2086 : SharedMetadata types → Option types.Smpte2086
  get_smpte2086 metadata = to_std_optional metadata.smpte2086

  unfoldable pub set_smpte2086 :
      ℕ → SharedMetadata types → Option types.Smpte2086 → MetadataStatus × SharedMetadata types
  set_smpte2086 sdk_version metadata none =
      if leb 33 sdk_version
      then (metadata_ok, record metadata { smpte2086 = reset metadata.smpte2086 })
      else (metadata_bad_value, metadata)
  set_smpte2086 sdk_version metadata (some value) = (
    metadata_ok,
    record metadata { smpte2086 = aligned_of_optional types.default_smpte2086 (some value) },
  )

  abbrev pub get_cta861_3 : SharedMetadata types → Option types.Cta
  get_cta861_3 metadata = to_std_optional metadata.cta861_3

  unfoldable pub set_cta861_3 :
      ℕ → SharedMetadata types → Option types.Cta → MetadataStatus × SharedMetadata types
  set_cta861_3 sdk_version metadata none =
      if leb 33 sdk_version
      then (metadata_ok, record metadata { cta861_3 = reset metadata.cta861_3 })
      else (metadata_bad_value, metadata)
  set_cta861_3 sdk_version metadata (some value) = (
    metadata_ok,
    record metadata { cta861_3 = aligned_of_optional types.default_cta (some value) },
  )

  abbrev pub get_smpte2094_40 : SharedMetadata types → Option (List ℕ)
  get_smpte2094_40 metadata = get_vector metadata.smpte2094_40

  unfoldable pub set_smpte2094_40 :
      ℕ → SharedMetadata types → Option (List ℕ) → MetadataStatus × SharedMetadata types
  set_smpte2094_40 sdk_version metadata none =
      if leb 33 sdk_version
      then (
        metadata_ok,
        record metadata { smpte2094_40 = record metadata.smpte2094_40 { size = 0 } },
      )
      else (metadata_bad_value, metadata)
  set_smpte2094_40 sdk_version metadata (some data_) =
      let (status, stored) = set_vector smpte2094_40_size metadata.smpte2094_40 data_ in
      (status, record metadata { smpte2094_40 = stored })

  abbrev pub get_smpte2094_10 : SharedMetadata types → Option (List ℕ)
  get_smpte2094_10 metadata = get_vector metadata.smpte2094_10

  -- Without a value the vector is emptied on every platform.
  unfoldable pub set_smpte2094_10 :
      SharedMetadata types → Option (List ℕ) → MetadataStatus × SharedMetadata types
  set_smpte2094_10 metadata none =
      (metadata_ok, record metadata { smpte2094_10 = record metadata.smpte2094_10 { size = 0 } })
  set_smpte2094_10 metadata (some data_) =
      let (status, stored) = set_vector smpte2094_10_size metadata.smpte2094_10 data_ in
      (status, record metadata { smpte2094_10 = stored })
