-- ===== src/Mapper/Values/Careful.antt =====
-- The setters of the shared metadata succeed or change nothing, and so do the cases of set_metadata
-- that decode a message first.
use rk_hardware_libgralloc_b.Access.Effects.{unchanged}
use rk_hardware_libgralloc_b.FormatInfo.{FormatInfo}
use rk_hardware_libgralloc_b.Handle.{PrivateHandle}
use rk_hardware_libgralloc_b.Mapper.State.{error_none}
use rk_hardware_libgralloc_b.Mapper.Values.{
  Decoders, SetReply, error_of_metadata, reply_of, set_decoded, set_first_crop, set_known_dataspace,
  set_yuv_chroma_siting,
}
use rk_hardware_libgralloc_b.Metadata.{
  AlignedInlineVector, CropRect, ExtendableType, MetadataStatus, MetadataTypes, SharedMetadata,
  is_valid_crop, metadata_bad_value, metadata_ok, set_crop_rect, set_cta861_3, set_smpte2086,
  set_smpte2094_10, set_smpte2094_40, set_vector, smpte2094_10_size, smpte2094_40_size,
}
use rk_hardware_libgralloc_b.Prelude.{
  Bool-cases, List, Option, [], ap, arith, inl, inr, leb, none, refl, some, ℕ, ◌&&◌, ◌||◌, ◌∷◌, ◌≡◌,
  ◌⊎◌,
}

module _ (types : MetadataTypes) where
  -- The call replies, and an error leaves the metadata as it was.
  abbrev pub IsAtomic : SharedMetadata types → SetReply types → Type 0
  IsAtomic metadata none = ⊥
  IsAtomic metadata (some (error, after)) = (error ≡ error_none) ⊎ (after ≡ metadata)

  -- A setter that succeeds, or changes nothing.
  abbrev pub IsCareful : SharedMetadata types → MetadataStatus × SharedMetadata types → Type 0
  IsCareful metadata result = (result.0 ≡ metadata_ok) ⊎ (result.1 ≡ metadata)

  pub set_vector-IsCareful :
      (capacity : ℕ) (stored : AlignedInlineVector) (data_ : List ℕ)
      → ((set_vector capacity stored data_).0 ≡ metadata_ok)
        ⊎ ((set_vector capacity stored data_).1 ≡ stored)
  unfolding set_vector
  set_vector-IsCareful capacity stored data_ = ground arith

  pub reply_of-IsAtomic :
      (metadata : SharedMetadata types) (result : MetadataStatus × SharedMetadata types)
      → IsCareful metadata result
      → IsAtomic metadata (reply_of types result)
  unfolding reply_of error_of_metadata
  reply_of-IsAtomic metadata (metadata_ok, after) careful = inl refl
  reply_of-IsAtomic metadata (metadata_bad_value, after) (inr unchanged) = inr unchanged
  reply_of-IsAtomic metadata (metadata_bad_value, after) (inl h) = cc

  pub set_decoded-IsAtomic {ℓ} :
      {A : Type ℓ}
      → (metadata : SharedMetadata types) → (value : Option A)
      → (set_value : A → MetadataStatus × SharedMetadata types)
      → ((a : A) → IsCareful metadata (set_value a))
      → IsAtomic metadata (set_decoded types metadata value set_value)
  unfolding set_decoded
  set_decoded-IsAtomic metadata none set_value careful = inr refl
  set_decoded-IsAtomic metadata (some value) set_value careful =
      reply_of-IsAtomic metadata (set_value value) (careful value)

  pub set_known_dataspace-IsCareful :
      (decoders : Decoders types) (metadata : SharedMetadata types) (dataspace : types.Dataspace)
      → IsCareful metadata (set_known_dataspace types decoders metadata dataspace)
  unfolding set_known_dataspace
  set_known_dataspace-IsCareful decoders metadata dataspace =
      elim (Bool-cases (decoders.is_unknown_dataspace dataspace)) [
        | inl e ↦ inl (rw (e) refl)
        | inr e ↦ inl (rw (e) refl)
      ]

  pub set_yuv_chroma_siting-IsCareful :
      (decoders : Decoders types) (format_info : FormatInfo) (metadata : SharedMetadata types)
      (chroma_siting : ExtendableType types)
      → IsCareful metadata (set_yuv_chroma_siting types decoders format_info metadata chroma_siting)
  unfolding set_yuv_chroma_siting
  set_yuv_chroma_siting-IsCareful decoders format_info metadata chroma_siting =
      elim (Bool-cases (
        format_info.is_yuv
        && (decoders.is_same_name chroma_siting.type_name types.standard_chroma_siting
            || decoders.is_same_name chroma_siting.type_name types.arm_chroma_siting))) [
              | inl e ↦ inl (rw (e) refl)
              | inr e ↦ inr (rw (e) refl)
            ]

  pub set_crop_rect-IsCareful :
      (handle : PrivateHandle) (metadata : SharedMetadata types) (crop : CropRect)
      → IsCareful metadata (set_crop_rect types handle metadata crop)
  unfolding set_crop_rect
  set_crop_rect-IsCareful handle metadata crop = elim (Bool-cases (is_valid_crop handle crop)) [
    | inl e ↦ inl (rw (e) refl)
    | inr e ↦ inr (rw (e) refl)
  ]

  pub set_smpte2086-IsCareful :
      (sdk_version : ℕ) (metadata : SharedMetadata types) (value : Option types.Smpte2086)
      → IsCareful metadata (set_smpte2086 types sdk_version metadata value)
  unfolding set_smpte2086
  set_smpte2086-IsCareful sdk_version metadata none = elim (Bool-cases (leb 33 sdk_version)) [
    | inl e ↦ inl (rw (e) refl)
    | inr e ↦ inr (rw (e) refl)
  ]
  set_smpte2086-IsCareful sdk_version metadata (some value) = inl refl

  pub set_cta861_3-IsCareful :
      (sdk_version : ℕ) (metadata : SharedMetadata types) (value : Option types.Cta)
      → IsCareful metadata (set_cta861_3 types sdk_version metadata value)
  unfolding set_cta861_3
  set_cta861_3-IsCareful sdk_version metadata none = elim (Bool-cases (leb 33 sdk_version)) [
    | inl e ↦ inl (rw (e) refl)
    | inr e ↦ inr (rw (e) refl)
  ]
  set_cta861_3-IsCareful sdk_version metadata (some value) = inl refl

  pub set_smpte2094_40-IsCareful :
      (sdk_version : ℕ) (metadata : SharedMetadata types) (value : Option (List ℕ))
      → IsCareful metadata (set_smpte2094_40 types sdk_version metadata value)
  unfolding set_smpte2094_40
  set_smpte2094_40-IsCareful sdk_version metadata none = elim (Bool-cases (leb 33 sdk_version)) [
    | inl e ↦ inl (rw (e) refl)
    | inr e ↦ inr (rw (e) refl)
  ]
  set_smpte2094_40-IsCareful sdk_version metadata (some value) =
      elim (set_vector-IsCareful smpte2094_40_size metadata.smpte2094_40 value) [
        | inl stored ↦ inl stored
        | inr same ↦ inr (ap (λ stored. record metadata { smpte2094_40 = stored }) same)
      ]

  pub set_smpte2094_10-IsCareful :
      (metadata : SharedMetadata types) (value : Option (List ℕ))
      → IsCareful metadata (set_smpte2094_10 types metadata value)
  unfolding set_smpte2094_10
  set_smpte2094_10-IsCareful metadata none = inl refl
  set_smpte2094_10-IsCareful metadata (some value) =
      elim (set_vector-IsCareful smpte2094_10_size metadata.smpte2094_10 value) [
        | inl stored ↦ inl stored
        | inr same ↦ inr (ap (λ stored. record metadata { smpte2094_10 = stored }) same)
      ]

  pub set_first_crop-IsAtomic :
      (handle : PrivateHandle) (metadata : SharedMetadata types) (crops : Option (List CropRect))
      → ¬ (crops ≡ some [])
      → IsAtomic metadata (set_first_crop types handle metadata crops)
  unfolding set_first_crop
  set_first_crop-IsAtomic handle metadata none filled = inr refl
  set_first_crop-IsAtomic handle metadata (some []) filled = filled refl
  set_first_crop-IsAtomic handle metadata (some (crop ∷ crops)) filled =
      reply_of-IsAtomic metadata (set_crop_rect types handle metadata crop)
        (set_crop_rect-IsCareful handle metadata crop)
