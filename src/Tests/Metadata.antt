-- ===== src/Tests/Metadata.antt =====
-- Examples of the shared metadata and of the descriptor's bytes.
use rk_hardware_libgralloc_b.Descriptor.{
  DescriptorInfo, c_string, gralloc_decode_buffer_descriptor, gralloc_encode_buffer_descriptor,
  max_name_length, strncpy,
}
use rk_hardware_libgralloc_b.Descriptor.RoundTrip.{gralloc_decode_buffer_descriptor-encode}
use rk_hardware_libgralloc_b.Format.{mali_gralloc_format_internal_nv12}
use rk_hardware_libgralloc_b.Hal.{sample_hal}
use rk_hardware_libgralloc_b.Handle.{PrivateHandle}
use rk_hardware_libgralloc_b.Mapper.Queries.{
  is_mutable, is_settable, type_of_crop, type_of_smpte2094_10,
}
use rk_hardware_libgralloc_b.Mapper.State.{error_bad_value, error_none, error_unsupported}
use rk_hardware_libgralloc_b.Mapper.Values.{
  Decoders, error_of_metadata, reply_of, set_first_crop, set_metadata,
}
use rk_hardware_libgralloc_b.Mapper.Values.Careful.{IsAtomic}
use rk_hardware_libgralloc_b.Mapper.Values.Settable.{set_metadata-IsAtomic, set_metadata-immutable}
use rk_hardware_libgralloc_b.Metadata.{
  CropRect, MetadataTypes, SharedMetadata, aligned_optional, empty_vector, get_crop_rect,
  get_cta861_3, get_smpte2086, get_vector, is_valid_crop, metadata_bad_value, metadata_ok,
  set_crop_rect, set_cta861_3, set_smpte2086, set_vector, shared_metadata,
}
use rk_hardware_libgralloc_b.Metadata.Crop.{IsCrop, set_crop_rect-IsCrop}
use rk_hardware_libgralloc_b.Metadata.Laws.{ReadsBack, get_vector-set_vector, set_hdr-ReadsBack}
use rk_hardware_libgralloc_b.Prelude.{
  List, Option, [], arith, false, length, none, refl, some, take, ℕ, ◌++◌, ◌<◌, ◌==◌, ◌^◌, ◌↔◌, ◌∷◌,
  ◌≡◌, ◌⊎◌,
}
use rk_hardware_libgralloc_b.Prelude.Words.{int_lt}
use rk_hardware_libgralloc_b.Tests.Buffers.{sample_raw}

abbrev sample_types : MetadataTypes
sample_types = record {
  BlendMode = ℕ;
  Cta = ℕ;
  Dataspace = ℕ;
  Smpte2086 = ℕ;
  TypeName = ℕ;
  default_cta = 0;
  default_smpte2086 = 0;
  default_blend_mode = 0;
  default_dataspace = 0;
  standard_chroma_siting = 1;
  arm_chroma_siting = 2;
  cosited_both = 8;
  cosited_vertical = 9;
}

abbrev sample_metadata : SharedMetadata sample_types
sample_metadata = shared_metadata sample_types (65 ∷ [])

abbrev sample_crop : CropRect
sample_crop = record { crop_left = 0; crop_top = 0; crop_right = 64; crop_bottom = 32 }

abbrev sample_handle : PrivateHandle
sample_handle = sample_raw mali_gralloc_format_internal_nv12

set_crop_rect-IsCrop_example :
    (((set_crop_rect sample_types sample_handle sample_metadata sample_crop).0 ≡ metadata_ok)
      × IsCrop sample_handle sample_crop
      × (get_crop_rect sample_types
            (set_crop_rect sample_types sample_handle sample_metadata sample_crop).1
          ≡ some sample_crop))
    ⊎ (((set_crop_rect sample_types sample_handle sample_metadata sample_crop).0
          ≡ metadata_bad_value)
        × (¬ IsCrop sample_handle sample_crop)
        × ((set_crop_rect sample_types sample_handle sample_metadata sample_crop).1
            ≡ sample_metadata))
set_crop_rect-IsCrop_example =
    set_crop_rect-IsCrop sample_types sample_handle sample_metadata sample_crop (omega arith)
      (omega arith) (omega arith) (omega arith) (omega arith) (omega arith)

abbrev five : Option ℕ
five = some 5

abbrev unset : Option ℕ
unset = none

set_hdr-ReadsBack_example :
    ReadsBack sample_types
      (get_smpte2086 sample_types)
      sample_metadata
      five
      (set_smpte2086 sample_types 33 sample_metadata five)
    × ReadsBack sample_types
        (get_cta861_3 sample_types)
        sample_metadata
        none
        (set_cta861_3 sample_types 33 sample_metadata unset)
    × (((set_smpte2086 sample_types 33 sample_metadata five).0 ≡ metadata_bad_value)
        ↔ ((five ≡ none) × (33 < 33)))
    × (((set_cta861_3 sample_types 33 sample_metadata unset).0 ≡ metadata_bad_value)
        ↔ ((unset ≡ none) × (33 < 33)))
set_hdr-ReadsBack_example = set_hdr-ReadsBack sample_types 33 sample_metadata five unset

abbrev two_bytes : List ℕ
two_bytes = 7 ∷ 8 ∷ []

get_vector-set_vector_example :
    ((set_vector 4 (empty_vector 4) two_bytes ≡ (metadata_bad_value, empty_vector 4))
      × ((length two_bytes ≡ 0) ⊎ (4 < length two_bytes)))
    ⊎ (((set_vector 4 (empty_vector 4) two_bytes).0 ≡ metadata_ok)
        × ((bytes_read : List ℕ) × (get_vector (set_vector 4 (empty_vector 4) two_bytes).1
              ≡ some bytes_read)
            × (take (length two_bytes) bytes_read ≡ two_bytes)
            × (length bytes_read ≡ 4)))
get_vector-set_vector_example =
    get_vector-set_vector 4 (empty_vector 4) two_bytes (omega arith) refl

abbrev sample_info : DescriptorInfo
sample_info = record {
  name = 65 ∷ 66 ∷ [];
  width = 640;
  height = 480;
  layer_count = 1;
  format = 0x15;
  usage = 2 ^ 33;
  reserved_size = 0;
}

gralloc_decode_buffer_descriptor-encode_example :
    gralloc_decode_buffer_descriptor 200 (gralloc_encode_buffer_descriptor sample_info)
    ≡ some (record {
      signature = 200;
      width = 640;
      height = 480;
      layer_count = 1;
      hal_format = 0x15;
      producer_usage = 2 ^ 33;
      consumer_usage = 2 ^ 33;
      reserved_size = 0;
      name = strncpy (c_string (65 ∷ 66 ∷ [])) max_name_length ++ (0 ∷ []);
    })
gralloc_decode_buffer_descriptor-encode_example =
    gralloc_decode_buffer_descriptor-encode 200 sample_info (omega arith) (omega arith)
      (omega arith) (omega arith) (omega arith) (omega arith)

-- A message with the four members of a rectangle, a message with one byte for a value.
abbrev sample_crops : List ℕ → Option (List CropRect)
sample_crops (left ∷ top ∷ right ∷ bottom ∷ rest) =
    some
      (record { crop_left = left; crop_top = top; crop_right = right; crop_bottom = bottom } ∷ [])
sample_crops _ = none

abbrev sample_byte : List ℕ → Option ℕ
sample_byte (value ∷ rest) = some value
sample_byte [] = none

abbrev sample_decoders : Decoders sample_types
sample_decoders = record {
  decode_dataspace = sample_byte;
  decode_chroma_siting = λ metadata. none;
  decode_blend_mode = sample_byte;
  decode_smpte2086 = λ metadata. some (sample_byte metadata);
  decode_cta861_3 = λ metadata. some (sample_byte metadata);
  decode_smpte2094_40 = λ metadata. some (some metadata);
  decode_smpte2094_10 = λ metadata. some (some metadata);
  decode_crop = sample_crops;
  is_unknown_dataspace = λ dataspace. dataspace == 0;
  is_same_name = λ left right. left == right;
}

-- A rectangle that is one column too narrow.
abbrev narrow_message : List ℕ
narrow_message = 0 ∷ 0 ∷ 63 ∷ 32 ∷ []

not_empty : ¬ ((type_of_crop ≡ type_of_crop) × (sample_crops narrow_message ≡ some []))
not_empty (same, empty) = cc

set_metadata-IsAtomic_example : IsAtomic sample_types sample_metadata (
    set_metadata sample_types 33 sample_hal sample_decoders sample_handle sample_metadata
      type_of_crop narrow_message)
set_metadata-IsAtomic_example =
    set_metadata-IsAtomic sample_types 33 sample_hal sample_decoders sample_handle sample_metadata
      type_of_crop narrow_message not_empty

set_crop_message :
    set_metadata sample_types 33 sample_hal sample_decoders sample_handle sample_metadata
      type_of_crop
      (0 ∷ 0 ∷ 64 ∷ 32 ∷ [])
    ≡ some (error_none, record sample_metadata { crop = aligned_optional sample_crop })
unfolding set_metadata set_first_crop reply_of set_crop_rect is_valid_crop error_of_metadata int_lt
set_crop_message = refl

old_is_fixed : is_mutable 32 type_of_smpte2094_10 ≡ false
unfolding is_mutable is_settable
old_is_fixed = refl

set_metadata-immutable_example :
    (set_metadata sample_types 32 sample_hal sample_decoders sample_handle sample_metadata
        type_of_smpte2094_10
        (7 ∷ [])
      ≡ some (error_bad_value, sample_metadata))
    ⊎ (set_metadata sample_types 32 sample_hal sample_decoders sample_handle sample_metadata
          type_of_smpte2094_10
          (7 ∷ [])
        ≡ some (error_unsupported, sample_metadata))
set_metadata-immutable_example =
    set_metadata-immutable sample_types 32 sample_hal sample_decoders sample_handle sample_metadata
      type_of_smpte2094_10 (7 ∷ []) old_is_fixed
