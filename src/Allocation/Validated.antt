-- ===== src/Allocation/Validated.antt =====
-- Which AFBC formats get past get_alloc_type and validate_format of src/core/buffer_allocation.cpp.
use rk_hardware_libgralloc_b.AllocType.{
  AllocType, get_afbc_alloc_type, get_alloc_type, no_afrc, uncompressed,
}
use rk_hardware_libgralloc_b.Allocation.Derive.{BufferDescriptor, validate_format}
use rk_hardware_libgralloc_b.FormatInfo.{FormatInfo, get_base_info}
use rk_hardware_libgralloc_b.Hal.{Hal}
use rk_hardware_libgralloc_b.InternalFormat.{
  InternalFormat, get_afbc_32x8, get_afbc_64x4, get_afbc_tiled_headers, is_afbc,
}
use rk_hardware_libgralloc_b.Prelude.{
  arith, false, ltb, some, sym, true, ℕ, ◌&&◌, ◌∙◌, ◌≡◌, ◌≢◌, ◌≤◌, ◌⊎◌,
}

get_alloc_type-afbc_branch :
    (hal : Hal) (format : InternalFormat) (usage : ℕ) (info : FormatInfo)
    → get_base_info hal format ≡ some info
    → is_afbc format ≡ true
    → get_alloc_type hal format usage
      ≡ get_afbc_alloc_type info format usage (record {
        primary_type = uncompressed;
        is_multi_plane = ltb 1 info.npln;
        is_tiled = false;
        is_padded = false;
        is_frontbuffer_safe = false;
        afrc = no_afrc;
      })
unfolding get_alloc_type
get_alloc_type-afbc_branch hal format usage info e afbc = rw (e, afbc, get_alloc_type)

-- Where an AFBC format gets an allocation type that validate_format accepts, its entry supports
-- AFBC, the type has several planes exactly if the entry has, and then the modifiers ask for tiled
-- headers and extra-wide blocks. For an entry of one plane they never ask for both wide and
-- extra-wide blocks, and for any entry extra-wide blocks come with tiled headers.
pub validate_format-afbc :
    (hal : Hal) (format : InternalFormat) (usage : ℕ) (info : FormatInfo) (alloc_type : AllocType)
    (descriptor : BufferDescriptor)
    → get_base_info hal format ≡ some info
    → is_afbc format ≡ true
    → get_alloc_type hal format usage ≡ some alloc_type
    → validate_format hal info alloc_type descriptor ≡ true
    → (info.afbc ≡ true)
      × (alloc_type.is_multi_plane ≡ ltb 1 info.npln)
      × ((info.npln ≤ 1) ⊎ ((get_afbc_tiled_headers format ≡ true) × (get_afbc_64x4 format ≡ true)))
      × ((info.npln ≢ 1) ⊎ ((get_afbc_32x8 format && get_afbc_64x4 format) ≡ false))
      × ((get_afbc_64x4 format ≡ false) ⊎ (get_afbc_tiled_headers format ≡ true))
unfolding get_afbc_alloc_type validate_format
validate_format-afbc hal format usage info alloc_type descriptor e afbc found valid =
    let got = sym (get_alloc_type-afbc_branch hal format usage info e afbc) ∙ found in
    ground (arith, got, valid)
