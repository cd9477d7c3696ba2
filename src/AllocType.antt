-- ===== src/AllocType.antt =====
-- src/core/buffer_allocation.h and get_alloc_type of buffer_allocation.cpp: how a format is
-- allocated, from its modifiers and the usage. Log messages are left out.
pub mod Afrc
use rk_hardware_libgralloc_b.FormatInfo.{FormatInfo, Planes, at, get_base_info, planes, put}
use rk_hardware_libgralloc_b.Hal.{Hal}
use rk_hardware_libgralloc_b.InternalFormat.{
  InternalFormat, get_afbc_32x8, get_afbc_64x4, get_afbc_double_body, get_afbc_tiled_headers,
  get_afrc_chroma_coding_size, get_afrc_rgba_coding_size, get_afrc_rot_layout, is_afbc, is_afrc,
  is_block_linear, to_bytes,
}
use rk_hardware_libgralloc_b.Prelude.{
  Bool, Option, false, if◌then◌else◌, ltb, none, not, some, suc, true, zero, ℕ, ◌&&◌, ◌+◌, ◌==◌,
  ◌||◌,
}
use rk_hardware_libgralloc_b.Prelude.Bits.{has_bits}
use rk_hardware_libgralloc_b.Usages.{mali_gralloc_usage_afbc_padding}

pub data AllocBaseType : Type 0 where
  uncompressed base_afbc afbc_wideblk afbc_extrawideblk base_afrc base_block_linear : AllocBaseType

pub record AfrcProperties : Type 0 where
  pub rgba_luma_coding_unit_bytes : ℕ
  pub rgba_luma_plane_alignment : ℕ
  pub chroma_coding_unit_bytes : ℕ
  pub chroma_plane_alignment : ℕ
  pub clump_width : Planes ℕ
  pub clump_height : Planes ℕ
  pub paging_tile_width : ℕ
  pub paging_tile_height : ℕ

pub record AllocType : Type 0 where
  pub primary_type : AllocBaseType
  pub is_multi_plane : Bool
  pub is_tiled : Bool
  pub is_padded : Bool
  pub is_frontbuffer_safe : Bool
  pub afrc : AfrcProperties

-- The methods is_afbc, is_afrc and is_block_linear of the structure.
abbrev pub type_is_afbc : AllocBaseType → Bool
type_is_afbc uncompressed = false
type_is_afbc base_afbc = true
type_is_afbc afbc_wideblk = true
type_is_afbc afbc_extrawideblk = true
type_is_afbc base_afrc = false
type_is_afbc base_block_linear = false

abbrev pub type_is_afrc : AllocBaseType → Bool
type_is_afrc uncompressed = false
type_is_afrc base_afbc = false
type_is_afrc afbc_wideblk = false
type_is_afrc afbc_extrawideblk = false
type_is_afrc base_afrc = true
type_is_afrc base_block_linear = false

abbrev pub type_is_block_linear : AllocBaseType → Bool
type_is_block_linear uncompressed = false
type_is_block_linear base_afbc = false
type_is_block_linear afbc_wideblk = false
type_is_block_linear afbc_extrawideblk = false
type_is_block_linear base_afrc = false
type_is_block_linear base_block_linear = true

abbrev pub no_afrc : AfrcProperties
no_afrc = record {
  rgba_luma_coding_unit_bytes = 0;
  rgba_luma_plane_alignment = 0;
  chroma_coding_unit_bytes = 0;
  chroma_plane_alignment = 0;
  clump_width = planes 0 0 0;
  clump_height = planes 0 0 0;
  paging_tile_width = 0;
  paging_tile_height = 0;
}

-- 0 stands for an invalid coding unit size.
unfoldable pub afrc_plane_alignment_requirement : ℕ → ℕ
afrc_plane_alignment_requirement coding_unit_size =
    if coding_unit_size == 16
    then 1024
    else if coding_unit_size == 24
    then 512
    else if coding_unit_size == 32
    then 2048
    else 0

-- The branch of get_alloc_type for AFBC; `alloc_type` is the uncompressed type that it starts from.
unfoldable pub get_afbc_alloc_type : FormatInfo → InternalFormat → ℕ → AllocType → Option AllocType
get_afbc_alloc_type format_info format usage alloc_type =
    let primary_type =
      if get_afbc_32x8 format
      then afbc_wideblk
      else if get_afbc_64x4 format
      then afbc_extrawideblk
      else base_afbc in
    let is_tiled = get_afbc_tiled_headers format in
    let is_multi_plane =
      if is_tiled
      then (if ltb 1 format_info.npln && not (get_afbc_64x4 format)
          then false
          else alloc_type.is_multi_plane)
      else false in
    let is_frontbuffer_safe = is_tiled && get_afbc_double_body format in
    if get_afbc_64x4 format && not is_tiled
    then none
    else if (format_info.npln == 1) && get_afbc_32x8 format && get_afbc_64x4 format
    then none
    else some (record alloc_type {
      primary_type = primary_type;
      is_multi_plane = is_multi_plane;
      is_tiled = is_tiled;
      is_padded = has_bits usage mali_gralloc_usage_afbc_padding;
      is_frontbuffer_safe = is_frontbuffer_safe;
    })

-- The clump of one plane, by its number of components; `none` is the invalid number.
unfoldable pub clump_of_plane : AfrcProperties → ℕ → Option (ℕ × ℕ)
clump_of_plane afrc ncmp =
    if ncmp == 1
    then some (afrc.paging_tile_width, afrc.paging_tile_height)
    else if ncmp == 2
    then some (8, 4)
    else if (ncmp == 3) || (ncmp == 4)
    then some (4, 4)
    else none

-- The loop over the planes from `plane` on, with `left` of them left.
unfoldable pub set_clumps : ℕ → ℕ → FormatInfo → AfrcProperties → Option AfrcProperties
set_clumps zero plane format_info afrc = some afrc
set_clumps (suc left) plane format_info afrc =
    elim (clump_of_plane afrc (at format_info.ncmp plane)) [
      | none ↦ none
      | some (width, height) ↦ set_clumps left (plane + 1) format_info (record afrc {
        clump_width = put afrc.clump_width plane width;
        clump_height = put afrc.clump_height plane height;
      })
    ]

-- The branch for AFRC.
unfoldable pub get_afrc_alloc_type : FormatInfo → InternalFormat → AllocType → Option AllocType
get_afrc_alloc_type format_info format alloc_type =
    let rotated = get_afrc_rot_layout format in
    let luma_bytes = to_bytes (get_afrc_rgba_coding_size format) in
    let chroma_bytes = to_bytes (get_afrc_chroma_coding_size format) in
    let afrc : AfrcProperties = record {
      rgba_luma_coding_unit_bytes = luma_bytes;
      rgba_luma_plane_alignment = afrc_plane_alignment_requirement luma_bytes;
      chroma_coding_unit_bytes = chroma_bytes;
      chroma_plane_alignment = afrc_plane_alignment_requirement chroma_bytes;
      clump_width = planes 0 0 0;
      clump_height = planes 0 0 0;
      paging_tile_width = if rotated then 8 else 16;
      paging_tile_height = if rotated then 8 else 4;
    } in
    if afrc.rgba_luma_plane_alignment == 0
    then none
    else if afrc.chroma_plane_alignment == 0
    then none
    else elim (set_clumps format_info.npln 0 format_info afrc) [
      | none ↦ none
      | some done ↦ some (record alloc_type { primary_type = base_afrc; afrc = done })
    ]

unfoldable pub get_alloc_type : Hal → InternalFormat → ℕ → Option AllocType
get_alloc_type hal format usage = elim (get_base_info hal format) [
  | none ↦ none
  | some format_info ↦
      let alloc_type : AllocType = record {
        primary_type = uncompressed;
        is_multi_plane = ltb 1 format_info.npln;
        is_tiled = false;
        is_padded = false;
        is_frontbuffer_safe = false;
        afrc = no_afrc;
      } in
      if is_afbc format
      then get_afbc_alloc_type format_info format usage alloc_type
      else if is_afrc format
      then get_afrc_alloc_type format_info format alloc_type
      else if is_block_linear format
      then some (record alloc_type { primary_type = base_block_linear })
      else some alloc_type
]
