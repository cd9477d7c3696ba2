-- ===== src/Drm.antt =====
-- src/core/drm_utils.cpp and src/mali_fourcc.h: the fourcc code and the modifier that describe a
-- buffer to the display driver. drm_fourcc.h, which is not in the repository, has the codes that are
-- a parameter, and the macro fourcc_code.
use rk_hardware_libgralloc_b.Format.{
  mali_gralloc_format_internal_bgr_888, mali_gralloc_format_internal_bgra_8888,
  mali_gralloc_format_internal_depth_16, mali_gralloc_format_internal_depth_24,
  mali_gralloc_format_internal_depth_24_stencil_8, mali_gralloc_format_internal_depth_32f,
  mali_gralloc_format_internal_depth_32f_stencil_8, mali_gralloc_format_internal_nv12,
  mali_gralloc_format_internal_nv15, mali_gralloc_format_internal_nv16,
  mali_gralloc_format_internal_nv21, mali_gralloc_format_internal_nv24,
  mali_gralloc_format_internal_nv30, mali_gralloc_format_internal_p010,
  mali_gralloc_format_internal_p210, mali_gralloc_format_internal_q401,
  mali_gralloc_format_internal_q410, mali_gralloc_format_internal_r8,
  mali_gralloc_format_internal_raw16, mali_gralloc_format_internal_rgb_565,
  mali_gralloc_format_internal_rgb_888, mali_gralloc_format_internal_rgba_10101010,
  mali_gralloc_format_internal_rgba_1010102, mali_gralloc_format_internal_rgba_16161616,
  mali_gralloc_format_internal_rgba_8888, mali_gralloc_format_internal_rgbx_8888,
  mali_gralloc_format_internal_stencil_8, mali_gralloc_format_internal_y0l2,
  mali_gralloc_format_internal_y210, mali_gralloc_format_internal_y410,
  mali_gralloc_format_internal_yu12, mali_gralloc_format_internal_yuv420_10bit_i,
  mali_gralloc_format_internal_yuv420_8bit_i, mali_gralloc_format_internal_yuv422_8bit,
  mali_gralloc_format_internal_yuv444, mali_gralloc_format_internal_yv12,
}
use rk_hardware_libgralloc_b.FormatInfo.{get_base_info}
use rk_hardware_libgralloc_b.Hal.{Hal}
use rk_hardware_libgralloc_b.Handle.{PrivateHandle, is_multi_plane}
use rk_hardware_libgralloc_b.InternalFormat.{
  InternalFormat, bytes_16, bytes_24, bytes_32, get_afbc_32x8, get_afbc_64x4, get_afbc_bch,
  get_afbc_block_split, get_afbc_double_body, get_afbc_sparse, get_afbc_tiled_headers, get_afbc_usm,
  get_afbc_yuv_transform, get_afrc_chroma_coding_size, get_afrc_rgba_coding_size,
  get_afrc_rot_layout, get_base, is_afbc, is_afrc, is_block_linear,
}
use rk_hardware_libgralloc_b.Prelude.{
  Bool, List, Option, [], bit_and, bit_or, false, if◌then◌else◌, leb, none, not, some, ℕ, ◌&&◌, ◌*◌,
  ◌-◌, ◌==◌, ◌^◌, ◌∷◌,
}
use rk_hardware_libgralloc_b.Prelude.Bits.{any_of}
use rk_hardware_libgralloc_b.Prelude.Words.{u64}

pub record DrmCodes : Type 0 where
  pub fourcc_code : ℕ → ℕ → ℕ → ℕ → ℕ
  pub drm_format_abgr8888 : ℕ
  pub drm_format_argb8888 : ℕ
  pub drm_format_rgb565 : ℕ
  pub drm_format_xbgr8888 : ℕ
  pub drm_format_bgr888 : ℕ
  pub drm_format_rgb888 : ℕ
  pub drm_format_abgr2101010 : ℕ
  pub drm_format_yvu420 : ℕ
  pub drm_format_yuv420 : ℕ
  pub drm_format_nv12 : ℕ
  pub drm_format_nv30 : ℕ
  pub drm_format_nv16 : ℕ
  pub drm_format_nv24 : ℕ
  pub drm_format_nv21 : ℕ
  pub drm_format_yuv444 : ℕ
  pub drm_format_yuyv : ℕ
  pub drm_format_r8 : ℕ
  pub drm_format_bgr565 : ℕ

abbrev pub drm_format_invalid : ℕ
drm_format_invalid = 0

abbrev pub drm_format_r16 : DrmCodes → ℕ
drm_format_r16 codes = codes.fourcc_code 82 49 54 32

abbrev pub drm_format_abgr16161616f : DrmCodes → ℕ
drm_format_abgr16161616f codes = codes.fourcc_code 65 66 52 72

abbrev pub drm_format_axbxgxrx106106106106 : DrmCodes → ℕ
drm_format_axbxgxrx106106106106 codes = codes.fourcc_code 65 66 49 48

abbrev pub drm_format_nv15 : DrmCodes → ℕ
drm_format_nv15 codes = codes.fourcc_code 78 86 49 53

abbrev pub drm_format_y0l2 : DrmCodes → ℕ
drm_format_y0l2 codes = codes.fourcc_code 89 48 76 50

abbrev pub drm_format_y210 : DrmCodes → ℕ
drm_format_y210 codes = codes.fourcc_code 89 50 49 48

abbrev pub drm_format_p010 : DrmCodes → ℕ
drm_format_p010 codes = codes.fourcc_code 80 48 49 48

abbrev pub drm_format_p210 : DrmCodes → ℕ
drm_format_p210 codes = codes.fourcc_code 80 50 49 48

abbrev pub drm_format_y410 : DrmCodes → ℕ
drm_format_y410 codes = codes.fourcc_code 89 52 49 48

abbrev pub drm_format_q410 : DrmCodes → ℕ
drm_format_q410 codes = codes.fourcc_code 81 52 49 48

abbrev pub drm_format_q401 : DrmCodes → ℕ
drm_format_q401 codes = codes.fourcc_code 81 52 48 49

abbrev pub drm_format_yuv420_8bit : DrmCodes → ℕ
drm_format_yuv420_8bit codes = codes.fourcc_code 89 85 48 56

abbrev pub drm_format_yuv420_10bit : DrmCodes → ℕ
drm_format_yuv420_10bit codes = codes.fourcc_code 89 85 49 48

abbrev pub afbc_format_mod_block_size_16x16 : ℕ
afbc_format_mod_block_size_16x16 = 0x1

abbrev pub afbc_format_mod_block_size_32x8 : ℕ
afbc_format_mod_block_size_32x8 = 0x2

abbrev pub afbc_format_mod_block_size_64x4 : ℕ
afbc_format_mod_block_size_64x4 = 0x3

abbrev pub afbc_format_mod_block_size_32x8_64x4 : ℕ
afbc_format_mod_block_size_32x8_64x4 = 0x4

abbrev pub afbc_format_mod_ytr : ℕ
afbc_format_mod_ytr = 2 ^ 4

abbrev pub afbc_format_mod_split : ℕ
afbc_format_mod_split = 2 ^ 5

abbrev pub afbc_format_mod_sparse : ℕ
afbc_format_mod_sparse = 2 ^ 6

abbrev pub afbc_format_mod_tiled : ℕ
afbc_format_mod_tiled = 2 ^ 8

abbrev pub afbc_format_mod_sc : ℕ
afbc_format_mod_sc = 2 ^ 9

abbrev pub afbc_format_mod_db : ℕ
afbc_format_mod_db = 2 ^ 10

abbrev pub afbc_format_mod_bch : ℕ
afbc_format_mod_bch = 2 ^ 11

abbrev pub afbc_format_mod_usm : ℕ
afbc_format_mod_usm = 2 ^ 12

abbrev pub drm_format_mod_generic_16_16_tile : ℕ
drm_format_mod_generic_16_16_tile = bit_or (4 * 2 ^ 56) 2

abbrev pub drm_format_mod_vendor_arm : ℕ
drm_format_mod_vendor_arm = 8

-- fourcc_mod_code(ARM, val).
unfoldable pub fourcc_mod_code : ℕ → ℕ
fourcc_mod_code val = bit_or (drm_format_mod_vendor_arm * 2 ^ 56) (bit_and val (2 ^ 56 - 1))

unfoldable pub drm_format_mod_arm_afbc : ℕ → ℕ
drm_format_mod_arm_afbc afbc_mode = fourcc_mod_code afbc_mode

unfoldable pub drm_format_mod_arm_code : ℕ → ℕ → ℕ
drm_format_mod_arm_code type val =
    fourcc_mod_code (bit_or (u64 (type * 2 ^ 52)) (bit_and val (2 ^ 52 - 1)))

abbrev pub drm_format_mod_arm_type_afrc : ℕ
drm_format_mod_arm_type_afrc = 2

unfoldable pub drm_format_mod_arm_afrc : ℕ → ℕ
drm_format_mod_arm_afrc afrc_mode = drm_format_mod_arm_code drm_format_mod_arm_type_afrc afrc_mode

abbrev pub afrc_format_mod_layout_scan : ℕ
afrc_format_mod_layout_scan = 2 ^ 8

abbrev pub afrc_format_mod_cu_size_16 : ℕ
afrc_format_mod_cu_size_16 = 1

abbrev pub afrc_format_mod_cu_size_24 : ℕ
afrc_format_mod_cu_size_24 = 2

abbrev pub afrc_format_mod_cu_size_32 : ℕ
afrc_format_mod_cu_size_32 = 3

abbrev pub afrc_format_mod_cu_size_p0 : ℕ → ℕ
afrc_format_mod_cu_size_p0 afrc_cu_size = afrc_cu_size

abbrev pub afrc_format_mod_cu_size_p12 : ℕ → ℕ
afrc_format_mod_cu_size_p12 afrc_cu_size = afrc_cu_size * 2 ^ 4

pub data ColorModel : Type 0 where
  colormodel_rgb colormodel_yuv : ColorModel

pub record DrmEntry : Type 0 where
  pub internal : ℕ
  pub fourcc : ℕ
  pub colormodel : ColorModel

abbrev pub drm_entry : ℕ → ℕ → ColorModel → DrmEntry
drm_entry internal fourcc colormodel = record {
  internal = internal;
  fourcc = fourcc;
  colormodel = colormodel;
}

-- The first entry for a key is the one that the map keeps.
unfoldable pub drm_table : Hal → DrmCodes → List DrmEntry
drm_table hal codes =
    drm_entry (mali_gralloc_format_internal_raw16 hal) (drm_format_r16 codes) colormodel_rgb
    ∷ drm_entry (mali_gralloc_format_internal_rgba_8888 hal) codes.drm_format_abgr8888
        colormodel_rgb
    ∷ drm_entry (mali_gralloc_format_internal_bgra_8888 hal) codes.drm_format_argb8888
        colormodel_rgb
    ∷ drm_entry (mali_gralloc_format_internal_rgb_565 hal) codes.drm_format_rgb565 colormodel_rgb
    ∷ drm_entry (mali_gralloc_format_internal_rgbx_8888 hal) codes.drm_format_xbgr8888
        colormodel_rgb
    ∷ drm_entry (mali_gralloc_format_internal_rgb_888 hal) codes.drm_format_bgr888 colormodel_rgb
    ∷ drm_entry (mali_gralloc_format_internal_bgr_888 hal) codes.drm_format_rgb888 colormodel_rgb
    ∷ drm_entry (mali_gralloc_format_internal_rgba_1010102 hal) codes.drm_format_abgr2101010
        colormodel_rgb
    ∷ drm_entry (mali_gralloc_format_internal_rgba_16161616 hal) (drm_format_abgr16161616f codes)
        colormodel_rgb
    ∷ drm_entry mali_gralloc_format_internal_rgba_10101010 (drm_format_axbxgxrx106106106106 codes)
        colormodel_rgb
    ∷ drm_entry mali_gralloc_format_internal_yv12 codes.drm_format_yvu420 colormodel_yuv
    ∷ drm_entry mali_gralloc_format_internal_yu12 codes.drm_format_yuv420 colormodel_yuv
    ∷ drm_entry mali_gralloc_format_internal_nv12 codes.drm_format_nv12 colormodel_yuv
    ∷ drm_entry mali_gralloc_format_internal_nv15 (drm_format_nv15 codes) colormodel_yuv
    ∷ drm_entry mali_gralloc_format_internal_nv30 codes.drm_format_nv30 colormodel_yuv
    ∷ drm_entry (mali_gralloc_format_internal_nv16 hal) codes.drm_format_nv16 colormodel_yuv
    ∷ drm_entry mali_gralloc_format_internal_nv24 codes.drm_format_nv24 colormodel_yuv
    ∷ drm_entry mali_gralloc_format_internal_nv21 codes.drm_format_nv21 colormodel_yuv
    ∷ drm_entry mali_gralloc_format_internal_y0l2 (drm_format_y0l2 codes) colormodel_yuv
    ∷ drm_entry mali_gralloc_format_internal_y210 (drm_format_y210 codes) colormodel_yuv
    ∷ drm_entry mali_gralloc_format_internal_p010 (drm_format_p010 codes) colormodel_yuv
    ∷ drm_entry mali_gralloc_format_internal_p210 (drm_format_p210 codes) colormodel_yuv
    ∷ drm_entry mali_gralloc_format_internal_y410 (drm_format_y410 codes) colormodel_yuv
    ∷ drm_entry mali_gralloc_format_internal_yuv444 codes.drm_format_yuv444 colormodel_yuv
    ∷ drm_entry mali_gralloc_format_internal_q410 (drm_format_q410 codes) colormodel_yuv
    ∷ drm_entry mali_gralloc_format_internal_q401 (drm_format_q401 codes) colormodel_yuv
    ∷ drm_entry mali_gralloc_format_internal_yuv422_8bit codes.drm_format_yuyv colormodel_yuv
    ∷ drm_entry mali_gralloc_format_internal_yuv420_8bit_i (drm_format_yuv420_8bit codes)
        colormodel_yuv
    ∷ drm_entry mali_gralloc_format_internal_yuv420_10bit_i (drm_format_yuv420_10bit codes)
        colormodel_yuv
    ∷ drm_entry mali_gralloc_format_internal_r8 codes.drm_format_r8 colormodel_rgb
    ∷ drm_entry (mali_gralloc_format_internal_stencil_8 hal) codes.drm_format_r8 colormodel_rgb
    ∷ drm_entry (mali_gralloc_format_internal_depth_16 hal) codes.drm_format_rgb565 colormodel_rgb
    ∷ drm_entry (mali_gralloc_format_internal_depth_24 hal) codes.drm_format_bgr888 colormodel_rgb
    ∷ drm_entry (mali_gralloc_format_internal_depth_24_stencil_8 hal) codes.drm_format_bgr888
        colormodel_rgb
    ∷ drm_entry (mali_gralloc_format_internal_depth_32f hal) codes.drm_format_abgr8888
        colormodel_rgb
    ∷ drm_entry (mali_gralloc_format_internal_depth_32f_stencil_8 hal) codes.drm_format_abgr8888
        colormodel_rgb
    ∷ drm_entry hal.hal_ycbcr_p010 (drm_format_p010 codes) colormodel_yuv
    ∷ []

unfoldable pub find_drm : List DrmEntry → ℕ → Option DrmEntry
find_drm [] base_format = none
find_drm (entry ∷ entries) base_format =
    let rest = find_drm entries base_format in
    if entry.internal == base_format then some entry else rest

unfoldable pub drm_fourcc_from_handle : Hal → DrmCodes → PrivateHandle → ℕ
drm_fourcc_from_handle hal codes hnd =
    let base_format = get_base hnd.alloc_format in
    elim (find_drm (drm_table hal codes) base_format) [
      | none ↦ drm_format_invalid
      | some entry ↦
          if is_afbc hnd.alloc_format && (base_format == mali_gralloc_format_internal_rgb_565 hal)
          then codes.drm_format_bgr565
          else entry.fourcc
    ]

-- The tag of a coding size, nothing for the reserved value.
unfoldable pub cu_size_tag : ℕ → ℕ
cu_size_tag size =
    if size == bytes_32
    then afrc_format_mod_cu_size_32
    else if size == bytes_24
    then afrc_format_mod_cu_size_24
    else if size == bytes_16
    then afrc_format_mod_cu_size_16
    else 0

-- A YUV colour model on several planes has a coding size for luma and one for chroma.
unfoldable pub cu_size_tags : InternalFormat → Bool → ColorModel → ℕ
cu_size_tags format is_multi colormodel_yuv =
    if is_multi
    then bit_or (afrc_format_mod_cu_size_p0 (cu_size_tag (get_afrc_rgba_coding_size format)))
        (afrc_format_mod_cu_size_p12 (cu_size_tag (get_afrc_chroma_coding_size format)))
    else afrc_format_mod_cu_size_p0 (cu_size_tag (get_afrc_rgba_coding_size format))
cu_size_tags format is_multi colormodel_rgb =
    afrc_format_mod_cu_size_p0 (cu_size_tag (get_afrc_rgba_coding_size format))

unfoldable pub get_afrc_modifier_tags : Hal → DrmCodes → PrivateHandle → ℕ
get_afrc_modifier_tags hal codes hnd =
    if not (is_afrc hnd.alloc_format)
    then 0
    else elim (find_drm (drm_table hal codes) (get_base hnd.alloc_format)) [
      | none ↦ 0
      | some entry ↦ drm_format_mod_arm_afrc (
          bit_or (if get_afrc_rot_layout hnd.alloc_format then 0 else afrc_format_mod_layout_scan)
            (cu_size_tags hnd.alloc_format (is_multi_plane hnd) entry.colormodel))
    ]

abbrev pub tag : Bool → ℕ → ℕ
tag is_set flag = if is_set then flag else 0

-- Solid colour blocks go with tiled headers, up to 64 bits per pixel and not for YUV.
unfoldable pub has_solid_color : Hal → InternalFormat → Bool
has_solid_color hal format = get_afbc_tiled_headers format && (elim (get_base_info hal format) [
  | none ↦ false
  | some info ↦ not info.is_yuv && leb info.bpp_afbc.p0 64
])

unfoldable pub block_size_tag : InternalFormat → Bool → ℕ
block_size_tag format is_multi =
    if get_afbc_32x8 format
    then (if is_multi
        then afbc_format_mod_block_size_32x8_64x4
        else afbc_format_mod_block_size_32x8)
    else if get_afbc_64x4 format
    then afbc_format_mod_block_size_64x4
    else afbc_format_mod_block_size_16x16

unfoldable pub get_afbc_modifier_tags : Hal → PrivateHandle → ℕ
get_afbc_modifier_tags hal hnd =
    let format = hnd.alloc_format in
    if not (is_afbc format)
    then 0
    else drm_format_mod_arm_afbc (
        any_of (
          tag (get_afbc_block_split format) afbc_format_mod_split
          ∷ tag (get_afbc_tiled_headers format) afbc_format_mod_tiled
          ∷ tag (has_solid_color hal format) afbc_format_mod_sc
          ∷ tag (get_afbc_double_body format) afbc_format_mod_db
          ∷ tag (get_afbc_bch format) afbc_format_mod_bch
          ∷ tag (get_afbc_yuv_transform format) afbc_format_mod_ytr
          ∷ tag (get_afbc_sparse format) afbc_format_mod_sparse
          ∷ tag (get_afbc_usm format) afbc_format_mod_usm
          ∷ block_size_tag format (is_multi_plane hnd)
          ∷ []))

unfoldable pub drm_modifier_from_handle : Hal → DrmCodes → PrivateHandle → ℕ
drm_modifier_from_handle hal codes hnd =
    if is_afbc hnd.alloc_format
    then get_afbc_modifier_tags hal hnd
    else if is_afrc hnd.alloc_format
    then get_afrc_modifier_tags hal codes hnd
    else if is_block_linear hnd.alloc_format
    then drm_format_mod_generic_16_16_tile
    else 0
