-- ===== src/Tests/Formats.antt =====
-- Examples of the format tables, the modifiers and the allocation types.
use rk_hardware_libgralloc_b.AllocType.{
  AllocType, afrc_plane_alignment_requirement, clump_of_plane, get_afrc_alloc_type, get_alloc_type,
  set_clumps,
}
use rk_hardware_libgralloc_b.AllocType.Afrc.{
  IsAfrcType, IsReservedSize, get_alloc_type-IsAfrcType, get_alloc_type-afrc_none,
}
use rk_hardware_libgralloc_b.Format.{
  extension_bit, mali_gralloc_format_compress, mali_gralloc_format_get_base,
  mali_gralloc_format_internal_nv12, mali_gralloc_format_is_private, mali_gralloc_format_wrapper,
  mali_gralloc_intfmt_afbc_basic, mali_gralloc_intfmt_afrc_basic,
  mali_gralloc_intfmt_afrc_coding_unit_bytes_unwrap,
}
use rk_hardware_libgralloc_b.FormatInfo.{find_format, formats, get_format_info}
use rk_hardware_libgralloc_b.FormatInfo.WellFormed.{
  describes_planes, get_format_info-describes_planes, get_format_info-has_geometry, has_geometry,
}
use rk_hardware_libgralloc_b.Hal.{sample_hal}
use rk_hardware_libgralloc_b.InternalFormat.{
  InternalFormat, from_private, get_afrc_chroma_coding_size, get_afrc_rgba_coding_size,
  get_coding_size, get_modifier, set_afrc_chroma_coding_size, set_afrc_luma_coding_size,
  set_modifier, to_bytes,
}
use rk_hardware_libgralloc_b.InternalFormat.Laws.{coding_sizes, get_modifier-set_modifier}
use rk_hardware_libgralloc_b.InternalFormat.Wrapper.{from_private-wrapper}
use rk_hardware_libgralloc_b.Prelude.{arith, if◌then◌else◌, none, refl, true, ◌==◌, ◌↔◌, ◌≡◌}
use rk_hardware_libgralloc_b.Tests.Inputs.{nv12_found, nv12_info, rgba_id, type_of}

get_format_info-has_geometry_example :
    (nv12_info.id ≡ mali_gralloc_format_internal_nv12) × (has_geometry nv12_info ≡ true)
get_format_info-has_geometry_example =
    get_format_info-has_geometry sample_hal mali_gralloc_format_internal_nv12 nv12_info nv12_found

get_format_info-describes_planes_example : describes_planes nv12_info ≡ true
get_format_info-describes_planes_example =
    get_format_info-describes_planes sample_hal mali_gralloc_format_internal_nv12 nv12_info
      nv12_found (λ e. omega arith) (λ e. omega arith)

abbrev afbc_rgba : InternalFormat
afbc_rgba = record { m_format = rgba_id; m_modifiers = 0x30000 }

from_private-wrapper_example :
    (mali_gralloc_format_is_private
        (mali_gralloc_format_wrapper sample_hal 1 mali_gralloc_intfmt_afbc_basic)
      ≡ true)
    × (from_private (mali_gralloc_format_wrapper sample_hal 1 mali_gralloc_intfmt_afbc_basic)
        ≡ record {
          m_format = mali_gralloc_format_compress sample_hal 1;
          m_modifiers = mali_gralloc_intfmt_afbc_basic;
        })
unfolding extension_bit
from_private-wrapper_example =
    from_private-wrapper sample_hal 1 mali_gralloc_intfmt_afbc_basic (omega arith) (omega arith)
      refl

get_modifier-set_modifier_example :
    get_modifier (set_modifier afbc_rgba (extension_bit 2) true) (extension_bit 0)
    ≡ (if 2 == 0 then true else get_modifier afbc_rgba (extension_bit 0))
get_modifier-set_modifier_example =
    get_modifier-set_modifier afbc_rgba 2 0 true (omega arith) (omega arith)

abbrev afrc_nv12 : InternalFormat
afrc_nv12 = record {
  m_format = mali_gralloc_format_internal_nv12;
  m_modifiers = mali_gralloc_intfmt_afrc_basic;
}

coding_sizes_example :
    (get_afrc_rgba_coding_size (set_afrc_luma_coding_size afrc_nv12 2) ≡ 2)
    × (get_afrc_chroma_coding_size (set_afrc_luma_coding_size afrc_nv12 2)
        ≡ get_afrc_chroma_coding_size afrc_nv12)
    × (get_afrc_chroma_coding_size (set_afrc_chroma_coding_size afrc_nv12 2) ≡ 2)
    × (get_afrc_rgba_coding_size (set_afrc_chroma_coding_size afrc_nv12 2)
        ≡ get_afrc_rgba_coding_size afrc_nv12)
    × ((set_afrc_luma_coding_size afrc_nv12 2).m_format ≡ afrc_nv12.m_format)
    × ((set_afrc_chroma_coding_size afrc_nv12 2).m_format ≡ afrc_nv12.m_format)
coding_sizes_example = coding_sizes afrc_nv12 2 (omega arith)

unfoldable afrc_type : AllocType
afrc_type = type_of (get_alloc_type sample_hal afrc_nv12 0)

get_alloc_type-IsAfrcType_example : IsAfrcType nv12_info afrc_nv12 afrc_type
unfolding mali_gralloc_format_get_base extension_bit afrc_type get_alloc_type get_afrc_alloc_type
    set_clumps clump_of_plane afrc_plane_alignment_requirement get_afrc_rgba_coding_size
    get_afrc_chroma_coding_size get_coding_size to_bytes
    mali_gralloc_intfmt_afrc_coding_unit_bytes_unwrap get_modifier get_format_info find_format
    formats nv12_info
get_alloc_type-IsAfrcType_example =
    get_alloc_type-IsAfrcType sample_hal afrc_nv12 0 nv12_info nv12_found refl refl
      (λ e. omega arith) (λ e. omega arith) afrc_type refl

get_alloc_type-afrc_none_example :
    (get_alloc_type sample_hal afrc_nv12 0 ≡ none) ↔ IsReservedSize afrc_nv12
unfolding get_modifier mali_gralloc_format_get_base extension_bit
get_alloc_type-afrc_none_example =
    get_alloc_type-afrc_none sample_hal afrc_nv12 0 nv12_info nv12_found refl refl
      (λ e. omega arith) (λ e. omega arith)
