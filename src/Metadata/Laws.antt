-- ===== src/Metadata/Laws.antt =====
-- Reading back what was written to the shared metadata.
use rk_hardware_libgralloc_b.Metadata.{
  AlignedInlineVector, MetadataStatus, MetadataTypes, SharedMetadata, get_cta861_3, get_smpte2086,
  get_vector, metadata_bad_value, metadata_ok, set_cta861_3, set_smpte2086, set_vector, write_front,
}
use rk_hardware_libgralloc_b.Prelude.{
  Bool-cases, List, Option, arith, drop, false, inl, inr, leb, length, length-append, length-drop,
  ltb, none, refl, some, take, take-append, true, ℕ, ◌<◌, ◌==◌, ◌^◌, ◌↔◌, ◌∙◌, ◌≡◌, ◌≤◌, ◌⊎◌,
}
use rk_hardware_libgralloc_b.Prelude.Words.{u32}

module _ (types : MetadataTypes) where
  -- After a call that succeeds the getter returns what was set, and one that fails changes nothing.
  abbrev pub ReadsBack :
      {A : Type 0}
      → (SharedMetadata types → Option A)
      → SharedMetadata types
      → Option A
      → MetadataStatus × SharedMetadata types
      → Type 0
  ReadsBack get before value (metadata_ok, after) = get after ≡ value
  ReadsBack get before value (metadata_bad_value, after) = after ≡ before

  set_smpte2086-some :
      (sdk_version : ℕ) (metadata : SharedMetadata types) (value : Option types.Smpte2086)
      → ReadsBack
          (get_smpte2086 types)
          metadata
          value
          (set_smpte2086 types sdk_version metadata value)
  unfolding set_smpte2086
  set_smpte2086-some sdk_version metadata (some value) = refl
  set_smpte2086-some sdk_version metadata none = elim (Bool-cases (leb 33 sdk_version)) [
    | inl new ↦ rw new refl
    | inr old ↦ rw old refl
  ]

  set_cta861_3-some :
      (sdk_version : ℕ) (metadata : SharedMetadata types) (value : Option types.Cta)
      → ReadsBack
          (get_cta861_3 types)
          metadata
          value
          (set_cta861_3 types sdk_version metadata value)
  unfolding set_cta861_3
  set_cta861_3-some sdk_version metadata (some value) = refl
  set_cta861_3-some sdk_version metadata none = elim (Bool-cases (leb 33 sdk_version)) [
    | inl new ↦ rw new refl
    | inr old ↦ rw old refl
  ]

  set_smpte2086-refuses :
      (sdk_version : ℕ) (metadata : SharedMetadata types) (value : Option types.Smpte2086)
      → ((set_smpte2086 types sdk_version metadata value).0 ≡ metadata_bad_value)
        ↔ ((value ≡ none) × (sdk_version < 33))
  unfolding set_smpte2086
  set_smpte2086-refuses sdk_version metadata (some value) = (λ e. cc, λ (e, below). cc)
  set_smpte2086-refuses sdk_version metadata none = elim (Bool-cases (leb 33 sdk_version)) [
    | inl new ↦ rw (new, set_smpte2086) (λ e. cc, λ (e, below). ground arith)
    | inr old ↦ rw (old, set_smpte2086) (λ e. (refl, ground arith), λ both. refl)
  ]

  set_cta861_3-refuses :
      (sdk_version : ℕ) (metadata : SharedMetadata types) (value : Option types.Cta)
      → ((set_cta861_3 types sdk_version metadata value).0 ≡ metadata_bad_value)
        ↔ ((value ≡ none) × (sdk_version < 33))
  unfolding set_cta861_3
  set_cta861_3-refuses sdk_version metadata (some value) = (λ e. cc, λ (e, below). cc)
  set_cta861_3-refuses sdk_version metadata none = elim (Bool-cases (leb 33 sdk_version)) [
    | inl new ↦ rw (new, set_cta861_3) (λ e. cc, λ (e, below). ground arith)
    | inr old ↦ rw (old, set_cta861_3) (λ e. (refl, ground arith), λ both. refl)
  ]

  -- Each of the two HDR descriptions, set to a value or to none, either reads back as it was set or
  -- is refused with the metadata unchanged; it is refused exactly for none before SDK version 33.
  pub set_hdr-ReadsBack :
      (sdk_version : ℕ) (metadata : SharedMetadata types) (mastering : Option types.Smpte2086)
      (light : Option types.Cta)
      → ReadsBack
          (get_smpte2086 types)
          metadata
          mastering
          (set_smpte2086 types sdk_version metadata mastering)
        × ReadsBack
            (get_cta861_3 types)
            metadata
            light
            (set_cta861_3 types sdk_version metadata light)
        × (((set_smpte2086 types sdk_version metadata mastering).0 ≡ metadata_bad_value)
            ↔ ((mastering ≡ none) × (sdk_version < 33)))
        × (((set_cta861_3 types sdk_version metadata light).0 ≡ metadata_bad_value)
            ↔ ((light ≡ none) × (sdk_version < 33)))
  set_hdr-ReadsBack sdk_version metadata mastering light = (
    set_smpte2086-some sdk_version metadata mastering,
    set_cta861_3-some sdk_version metadata light,
    set_smpte2086-refuses sdk_version metadata mastering,
    set_cta861_3-refuses sdk_version metadata light,
  )

write_front-length :
    (contents data_ : List ℕ)
    → length data_ ≤ length contents
    → length (write_front contents data_) ≡ length contents
unfolding write_front
write_front-length contents data_ fits =
    omega (
      arith,
      length-append data_ (drop (length data_) contents),
      length-drop (length data_) contents,
    )

set_vector-stores :
    (capacity : ℕ) (stored : AlignedInlineVector) (data_ : List ℕ)
    → (length data_ == 0) ≡ false
    → ltb capacity (length data_) ≡ false
    → set_vector capacity stored data_ ≡ (
      metadata_ok,
      record { size = u32 (length data_); contents = write_front stored.contents data_ },
    )
unfolding set_vector
set_vector-stores capacity stored data_ filled fits = rw (filled, fits) refl

-- The vector of dynamic HDR metadata, whose contents have as many bytes as its capacity: it is
-- refused when it is empty or longer than the capacity, with nothing changed. Otherwise the getter
-- returns as many bytes as the capacity, of which the first are those that were set.
pub get_vector-set_vector :
    (capacity : ℕ) (stored : AlignedInlineVector) (data_ : List ℕ)
    → capacity < 2 ^ 32
    → length stored.contents ≡ capacity
    → ((set_vector capacity stored data_ ≡ (metadata_bad_value, stored))
        × ((length data_ ≡ 0) ⊎ (capacity < length data_)))
      ⊎ (((set_vector capacity stored data_).0 ≡ metadata_ok)
          × ((bytes_read : List ℕ) × (get_vector (set_vector capacity stored data_).1
                ≡ some bytes_read)
              × (take (length data_) bytes_read ≡ data_)
              × (length bytes_read ≡ capacity)))
unfolding set_vector get_vector write_front
get_vector-set_vector capacity stored data_ small full = elim (Bool-cases (length data_ == 0)) [
  | inl empty ↦ rw (empty, set_vector) (inl (refl, inl (ground (arith, empty))))
  | inr filled ↦ elim (Bool-cases (ltb capacity (length data_))) [
    | inl long ↦ rw (filled, long, set_vector) (inl (refl, inr (ground (arith, long))))
    | inr fits ↦
        let no_wrap : u32 (length data_) ≡ length data_ = ground (arith, fits, small) in
        let not_empty : ltb 0 (length data_) ≡ true = ground (arith, filled) in
        let enough : length data_ ≤ length stored.contents = ground (arith, fits, full) in
        rw (set_vector-stores capacity stored data_ filled fits) (
          inr (
            refl,
            (
              write_front stored.contents data_,
              rw (no_wrap, not_empty) refl,
              take-append data_ (drop (length data_) stored.contents),
              write_front-length stored.contents data_ enough ∙ full,
            ),
          ))
  ]
]
