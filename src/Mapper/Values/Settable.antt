-- ===== src/Mapper/Values/Settable.antt =====
-- What set_metadata changes: only items that the table of mapper.cpp calls settable, and nothing
-- where it reports an error.
use rk_hardware_libgralloc_b.FormatInfo.{get_base_info}
use rk_hardware_libgralloc_b.Hal.{Hal}
use rk_hardware_libgralloc_b.Handle.{PrivateHandle}
use rk_hardware_libgralloc_b.Mapper.Queries.{
  MetadataType, is_mutable, is_settable, type_of_allocation_size, type_of_arm_plane_fds,
  type_of_blend_mode, type_of_buffer_id, type_of_chroma_siting, type_of_compression, type_of_crop,
  type_of_cta861_3, type_of_dataspace, type_of_height, type_of_interlaced, type_of_layer_count,
  type_of_name, type_of_other, type_of_pixel_format_four_cc, type_of_pixel_format_modifier,
  type_of_pixel_format_requested, type_of_plane_layouts, type_of_protected_content,
  type_of_smpte2086, type_of_smpte2094_10, type_of_smpte2094_40, type_of_usage, type_of_width,
}
use rk_hardware_libgralloc_b.Mapper.State.{error_bad_value, error_unsupported}
use rk_hardware_libgralloc_b.Mapper.Values.{
  Decoders, set_decoded, set_metadata, set_yuv_chroma_siting,
}
use rk_hardware_libgralloc_b.Mapper.Values.Careful.{
  IsAtomic, set_cta861_3-IsCareful, set_decoded-IsAtomic, set_first_crop-IsAtomic,
  set_known_dataspace-IsCareful, set_smpte2086-IsCareful, set_smpte2094_10-IsCareful,
  set_smpte2094_40-IsCareful, set_yuv_chroma_siting-IsCareful,
}
use rk_hardware_libgralloc_b.Metadata.{MetadataTypes, SharedMetadata}
use rk_hardware_libgralloc_b.Prelude.{
  Bool-cases, List, [], false, inl, inr, leb, none, refl, some, sym, ℕ, ◌∙◌, ◌≡◌, ◌⊎◌,
}

-- Unless the message is for the crop and decodes to no rectangle at all, a call that sets an item
-- of the metadata replies, and where it replies with an error the metadata is as it was before.
pub set_metadata-IsAtomic :
    (types : MetadataTypes) (sdk_version : ℕ) (hal : Hal) (decoders : Decoders types)
    (handle : PrivateHandle) (stored : SharedMetadata types) (metadata_type : MetadataType)
    (metadata : List ℕ)
    → ¬ ((metadata_type ≡ type_of_crop) × (decoders.decode_crop metadata ≡ some []))
    → IsAtomic types stored
        (set_metadata types sdk_version hal decoders handle stored metadata_type metadata)
unfolding set_metadata
set_metadata-IsAtomic types sdk_version hal decoders handle stored type_of_dataspace metadata
      filled =
    set_decoded-IsAtomic types stored (decoders.decode_dataspace metadata) _
      (set_known_dataspace-IsCareful types decoders stored)
set_metadata-IsAtomic types sdk_version hal decoders handle stored type_of_chroma_siting metadata
      filled =
    elim (get_base_info hal handle.alloc_format)
      as (λ info. IsAtomic types stored (elim info [
        | none ↦ some (error_unsupported, stored)
        | some format_info ↦
            set_decoded types stored (decoders.decode_chroma_siting metadata)
              (set_yuv_chroma_siting types decoders format_info stored)
      ])) [
        | none ↦ inr refl
        | some format_info ↦
            set_decoded-IsAtomic types stored (decoders.decode_chroma_siting metadata) _
              (set_yuv_chroma_siting-IsCareful types decoders format_info stored)
      ]
set_metadata-IsAtomic types sdk_version hal decoders handle stored type_of_blend_mode metadata
      filled =
    set_decoded-IsAtomic types stored (decoders.decode_blend_mode metadata) _
      (λ blend_mode. inl refl)
set_metadata-IsAtomic types sdk_version hal decoders handle stored type_of_smpte2086 metadata
      filled =
    set_decoded-IsAtomic types stored (decoders.decode_smpte2086 metadata) _
      (set_smpte2086-IsCareful types sdk_version stored)
set_metadata-IsAtomic types sdk_version hal decoders handle stored type_of_cta861_3 metadata
      filled =
    set_decoded-IsAtomic types stored (decoders.decode_cta861_3 metadata) _
      (set_cta861_3-IsCareful types sdk_version stored)
set_metadata-IsAtomic types sdk_version hal decoders handle stored type_of_smpte2094_40 metadata
      filled =
    set_decoded-IsAtomic types stored (decoders.decode_smpte2094_40 metadata) _
      (set_smpte2094_40-IsCareful types sdk_version stored)
set_metadata-IsAtomic types sdk_version hal decoders handle stored type_of_smpte2094_10 metadata
      filled =
    elim (Bool-cases (leb 33 sdk_version)) [
      | inl new ↦ rw (new) (
          set_decoded-IsAtomic types stored (decoders.decode_smpte2094_10 metadata) _
            (set_smpte2094_10-IsCareful types stored))
      | inr old ↦ rw (old) (inr refl)
    ]
set_metadata-IsAtomic types sdk_version hal decoders handle stored type_of_crop metadata filled =
    set_first_crop-IsAtomic types handle stored (decoders.decode_crop metadata)
      (λ empty. filled (refl, empty))
set_metadata-IsAtomic types sdk_version hal decoders handle stored type_of_buffer_id metadata
      filled =
    inr refl
set_metadata-IsAtomic types sdk_version hal decoders handle stored type_of_name metadata filled =
    inr refl
set_metadata-IsAtomic types sdk_version hal decoders handle stored type_of_width metadata filled =
    inr refl
set_metadata-IsAtomic types sdk_version hal decoders handle stored type_of_height metadata filled =
    inr refl
set_metadata-IsAtomic types sdk_version hal decoders handle stored type_of_layer_count metadata
      filled =
    inr refl
set_metadata-IsAtomic types sdk_version hal decoders handle stored type_of_pixel_format_requested
      metadata filled =
    inr refl
set_metadata-IsAtomic types sdk_version hal decoders handle stored type_of_usage metadata filled =
    inr refl
set_metadata-IsAtomic types sdk_version hal decoders handle stored type_of_pixel_format_four_cc
      metadata filled =
    inr refl
set_metadata-IsAtomic types sdk_version hal decoders handle stored type_of_pixel_format_modifier
      metadata filled =
    inr refl
set_metadata-IsAtomic types sdk_version hal decoders handle stored type_of_allocation_size metadata
      filled =
    inr refl
set_metadata-IsAtomic types sdk_version hal decoders handle stored type_of_protected_content
      metadata filled =
    inr refl
set_metadata-IsAtomic types sdk_version hal decoders handle stored type_of_compression metadata
      filled =
    inr refl
set_metadata-IsAtomic types sdk_version hal decoders handle stored type_of_interlaced metadata
      filled =
    inr refl
set_metadata-IsAtomic types sdk_version hal decoders handle stored type_of_plane_layouts metadata
      filled =
    inr refl
set_metadata-IsAtomic types sdk_version hal decoders handle stored type_of_arm_plane_fds metadata
      filled =
    inr refl
set_metadata-IsAtomic types sdk_version hal decoders handle stored type_of_other metadata filled =
    inr refl

is_mutable-smpte2094_10 :
    (sdk_version : ℕ) → is_mutable sdk_version type_of_smpte2094_10 ≡ leb 33 sdk_version
unfolding is_mutable is_settable
is_mutable-smpte2094_10 sdk_version = elim (Bool-cases (leb 33 sdk_version)) [
  | inl new ↦ rw (is_mutable, is_settable, new) refl
  | inr old ↦ rw (is_mutable, is_settable, old) refl
]

-- The two tables agree: an item that the table of descriptions does not call settable is refused
-- with BAD_VALUE or UNSUPPORTED, whatever the message says, and the metadata stays as it is.
pub set_metadata-immutable :
    (types : MetadataTypes) (sdk_version : ℕ) (hal : Hal) (decoders : Decoders types)
    (handle : PrivateHandle) (stored : SharedMetadata types) (metadata_type : MetadataType)
    (metadata : List ℕ)
    → is_mutable sdk_version metadata_type ≡ false
    → (set_metadata types sdk_version hal decoders handle stored metadata_type metadata
        ≡ some (error_bad_value, stored))
      ⊎ (set_metadata types sdk_version hal decoders handle stored metadata_type metadata
          ≡ some (error_unsupported, stored))
unfolding set_metadata is_mutable is_settable
set_metadata-immutable types sdk_version hal decoders handle stored type_of_dataspace metadata
      fixed =
    cc
set_metadata-immutable types sdk_version hal decoders handle stored type_of_chroma_siting metadata
      fixed =
    cc
set_metadata-immutable types sdk_version hal decoders handle stored type_of_blend_mode metadata
      fixed =
    cc
set_metadata-immutable types sdk_version hal decoders handle stored type_of_smpte2086 metadata
      fixed =
    cc
set_metadata-immutable types sdk_version hal decoders handle stored type_of_cta861_3 metadata
      fixed =
    cc
set_metadata-immutable types sdk_version hal decoders handle stored type_of_smpte2094_40 metadata
      fixed =
    cc
set_metadata-immutable types sdk_version hal decoders handle stored type_of_crop metadata fixed = cc
set_metadata-immutable types sdk_version hal decoders handle stored type_of_smpte2094_10 metadata
      fixed =
    rw (sym (is_mutable-smpte2094_10 sdk_version) ∙ fixed) (inr refl)
set_metadata-immutable types sdk_version hal decoders handle stored type_of_buffer_id metadata
      fixed =
    inl refl
set_metadata-immutable types sdk_version hal decoders handle stored type_of_name metadata fixed =
    inl refl
set_metadata-immutable types sdk_version hal decoders handle stored type_of_width metadata fixed =
    inl refl
set_metadata-immutable types sdk_version hal decoders handle stored type_of_height metadata fixed =
    inl refl
set_metadata-immutable types sdk_version hal decoders handle stored type_of_layer_count metadata
      fixed =
    inl refl
set_metadata-immutable types sdk_version hal decoders handle stored type_of_pixel_format_requested
      metadata fixed =
    inl refl
set_metadata-immutable types sdk_version hal decoders handle stored type_of_usage metadata fixed =
    inl refl
set_metadata-immutable types sdk_version hal decoders handle stored type_of_pixel_format_four_cc
      metadata fixed =
    inr refl
set_metadata-immutable types sdk_version hal decoders handle stored type_of_pixel_format_modifier
      metadata fixed =
    inr refl
set_metadata-immutable types sdk_version hal decoders handle stored type_of_allocation_size metadata
      fixed =
    inr refl
set_metadata-immutable types sdk_version hal decoders handle stored type_of_protected_content
      metadata fixed =
    inr refl
set_metadata-immutable types sdk_version hal decoders handle stored type_of_compression metadata
      fixed =
    inr refl
set_metadata-immutable types sdk_version hal decoders handle stored type_of_interlaced metadata
      fixed =
    inr refl
set_metadata-immutable types sdk_version hal decoders handle stored type_of_plane_layouts metadata
      fixed =
    inr refl
set_metadata-immutable types sdk_version hal decoders handle stored type_of_arm_plane_fds metadata
      fixed =
    inr refl
set_metadata-immutable types sdk_version hal decoders handle stored type_of_other metadata fixed =
    inr refl
