-- ===== src/Mapper/Values.antt =====
-- set_metadata of src/idl_common/mapper/mapper_metadata.cpp: a client sets an item of the shared
-- metadata. The decoders are those of the platform's library gralloc4.
pub mod Careful
pub mod Settable
use rk_hardware_libgralloc_b.FormatInfo.{FormatInfo, get_base_info}
use rk_hardware_libgralloc_b.Hal.{Hal}
use rk_hardware_libgralloc_b.Handle.{PrivateHandle}
use rk_hardware_libgralloc_b.Mapper.Queries.{
  MetadataType, type_of_blend_mode, type_of_buffer_id, type_of_chroma_siting, type_of_crop,
  type_of_cta861_3, type_of_dataspace, type_of_height, type_of_layer_count, type_of_name,
  type_of_pixel_format_requested, type_of_smpte2086, type_of_smpte2094_10, type_of_smpte2094_40,
  type_of_usage, type_of_width,
}
use rk_hardware_libgralloc_b.Mapper.State.{Error, error_bad_value, error_none, error_unsupported}
use rk_hardware_libgralloc_b.Metadata.{
  CropRect, ExtendableType, MetadataStatus, MetadataTypes, SharedMetadata, metadata_bad_value,
  metadata_ok, set_blend_mode, set_chroma_siting, set_crop_rect, set_cta861_3, set_dataspace,
  set_smpte2086, set_smpte2094_10, set_smpte2094_40,
}
use rk_hardware_libgralloc_b.Prelude.{
  Bool, List, Option, [], if◌then◌else◌, leb, none, some, ℕ, ◌&&◌, ◌||◌, ◌∷◌,
}

-- A decoder answers `none` for its error status. The last two are the tests that set_metadata makes
-- on values of the platform's types.
pub record Decoders (types : MetadataTypes) : Type 0 where
  pub decode_dataspace : List ℕ → Option types.Dataspace
  pub decode_chroma_siting : List ℕ → Option (ExtendableType types)
  pub decode_blend_mode : List ℕ → Option types.BlendMode
  pub decode_smpte2086 : List ℕ → Option (Option types.Smpte2086)
  pub decode_cta861_3 : List ℕ → Option (Option types.Cta)
  pub decode_smpte2094_40 : List ℕ → Option (Option (List ℕ))
  pub decode_smpte2094_10 : List ℕ → Option (Option (List ℕ))
  pub decode_crop : List ℕ → Option (List CropRect)
  pub is_unknown_dataspace : types.Dataspace → Bool
  pub is_same_name : types.TypeName → types.TypeName → Bool

-- A status that is not OK is reported as UNSUPPORTED.
unfoldable pub error_of_metadata : MetadataStatus → Error
error_of_metadata metadata_ok = error_none
error_of_metadata metadata_bad_value = error_unsupported

module _ (types : MetadataTypes) where
  -- The error and the metadata after the call; `none` where the code reads beyond a vector.
  abbrev pub SetReply : Type 0
  SetReply = Option (Error × SharedMetadata types)

  unfoldable pub reply_of : MetadataStatus × SharedMetadata types → SetReply
  reply_of (status, metadata) = some (error_of_metadata status, metadata)

  -- What each case does: decode, and if that succeeds, set.
  unfoldable pub set_decoded {ℓ} :
      {A : Type ℓ}
      → SharedMetadata types
      → Option A
      → (A → MetadataStatus × SharedMetadata types)
      → SetReply
  set_decoded metadata none set_value = some (error_unsupported, metadata)
  set_decoded metadata (some value) set_value = reply_of (set_value value)

  unfoldable pub set_known_dataspace :
      Decoders types
      → SharedMetadata types
      → types.Dataspace
      → MetadataStatus × SharedMetadata types
  set_known_dataspace decoders metadata dataspace =
      if decoders.is_unknown_dataspace dataspace
      then (metadata_ok, metadata)
      else (metadata_ok, set_dataspace types metadata dataspace)

  -- Only a YUV format has a chroma siting, with a name of one of the two types.
  unfoldable pub set_yuv_chroma_siting :
      Decoders types
      → FormatInfo
      → SharedMetadata types
      → ExtendableType types
      → MetadataStatus × SharedMetadata types
  set_yuv_chroma_siting decoders format_info metadata chroma_siting =
      if format_info.is_yuv
        && (decoders.is_same_name chroma_siting.type_name types.standard_chroma_siting
            || decoders.is_same_name chroma_siting.type_name types.arm_chroma_siting)
      then (metadata_ok, set_chroma_siting types metadata chroma_siting)
      else (metadata_bad_value, metadata)

  -- crops[0].
  unfoldable pub set_first_crop :
      PrivateHandle → SharedMetadata types → Option (List CropRect) → SetReply
  set_first_crop handle metadata none = some (error_unsupported, metadata)
  set_first_crop handle metadata (some []) = none
  set_first_crop handle metadata (some (crop ∷ crops)) =
      reply_of (set_crop_rect types handle metadata crop)

  unfoldable pub set_metadata :
      ℕ
      → Hal
      → Decoders types
      → PrivateHandle
      → SharedMetadata types
      → MetadataType
      → List ℕ
      → SetReply
  set_metadata sdk_version hal decoders handle stored type_of_dataspace metadata =
      set_decoded stored (decoders.decode_dataspace metadata) (set_known_dataspace decoders stored)
  set_metadata sdk_version hal decoders handle stored type_of_chroma_siting metadata =
      elim (get_base_info hal handle.alloc_format) [
        | none ↦ some (error_unsupported, stored)
        | some format_info ↦
            set_decoded stored (decoders.decode_chroma_siting metadata)
              (set_yuv_chroma_siting decoders format_info stored)
      ]
  set_metadata sdk_version hal decoders handle stored type_of_blend_mode metadata =
      set_decoded stored (decoders.decode_blend_mode metadata)
        (λ blend_mode. (metadata_ok, set_blend_mode types stored blend_mode))
  set_metadata sdk_version hal decoders handle stored type_of_smpte2086 metadata =
      set_decoded stored (decoders.decode_smpte2086 metadata)
        (set_smpte2086 types sdk_version stored)
  set_metadata sdk_version hal decoders handle stored type_of_cta861_3 metadata =
      set_decoded stored (decoders.decode_cta861_3 metadata) (set_cta861_3 types sdk_version stored)
  set_metadata sdk_version hal decoders handle stored type_of_smpte2094_40 metadata =
      set_decoded stored (decoders.decode_smpte2094_40 metadata)
        (set_smpte2094_40 types sdk_version stored)
  set_metadata sdk_version hal decoders handle stored type_of_smpte2094_10 metadata =
      if leb 33 sdk_version
      then set_decoded stored (decoders.decode_smpte2094_10 metadata)
          (set_smpte2094_10 types stored)
      else some (error_unsupported, stored)
  set_metadata sdk_version hal decoders handle stored type_of_crop metadata =
      set_first_crop handle stored (decoders.decode_crop metadata)
  set_metadata sdk_version hal decoders handle stored type_of_buffer_id metadata =
      some (error_bad_value, stored)
  set_metadata sdk_version hal decoders handle stored type_of_name metadata =
      some (error_bad_value, stored)
  set_metadata sdk_version hal decoders handle stored type_of_width metadata =
      some (error_bad_value, stored)
  set_metadata sdk_version hal decoders handle stored type_of_height metadata =
      some (error_bad_value, stored)
  set_metadata sdk_version hal decoders handle stored type_of_layer_count metadata =
      some (error_bad_value, stored)
  set_metadata sdk_version hal decoders handle stored type_of_pixel_format_requested metadata =
      some (error_bad_value, stored)
  set_metadata sdk_version hal decoders handle stored type_of_usage metadata =
      some (error_bad_value, stored)
  set_metadata sdk_version hal decoders handle stored _ metadata = some (error_unsupported, stored)
