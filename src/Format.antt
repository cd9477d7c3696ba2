-- ===== src/Format.antt =====
-- src/include/gralloc/formats.h: the internal formats, the modifier bits, and packing both into
-- one 32-bit word. A value of the signed type mali_gralloc_android_format is its bit pattern.
use rk_hardware_libgralloc_b.Hal.{Hal}
use rk_hardware_libgralloc_b.Prelude.{Bool, bit_and, bit_or, if◌then◌else◌, ℕ, ◌*◌, ◌+◌, ◌==◌, ◌^◌}
use rk_hardware_libgralloc_b.Prelude.Bits.{complement, has_bits}

abbrev pub mali_gralloc_format_internal_undefined : ℕ
mali_gralloc_format_internal_undefined = 0

-- The private formats are numbered from MALI_GRALLOC_FORMAT_INTERNAL_RANGE_BASE.
abbrev pub mali_gralloc_format_internal_nv12 : ℕ
mali_gralloc_format_internal_nv12 = 0x100

abbrev pub mali_gralloc_format_internal_nv21 : ℕ
mali_gralloc_format_internal_nv21 = 0x101

abbrev pub mali_gralloc_format_internal_yuv422_8bit : ℕ
mali_gralloc_format_internal_yuv422_8bit = 0x102

abbrev pub mali_gralloc_format_internal_y0l2 : ℕ
mali_gralloc_format_internal_y0l2 = 0x103

abbrev pub mali_gralloc_format_internal_p010 : ℕ
mali_gralloc_format_internal_p010 = 0x104

abbrev pub mali_gralloc_format_internal_p210 : ℕ
mali_gralloc_format_internal_p210 = 0x105

abbrev pub mali_gralloc_format_internal_y210 : ℕ
mali_gralloc_format_internal_y210 = 0x106

abbrev pub mali_gralloc_format_internal_y410 : ℕ
mali_gralloc_format_internal_y410 = 0x107

abbrev pub mali_gralloc_format_internal_yu12 : ℕ
mali_gralloc_format_internal_yu12 = 0x108

abbrev pub mali_gralloc_format_internal_yuv444 : ℕ
mali_gralloc_format_internal_yuv444 = 0x109

abbrev pub mali_gralloc_format_internal_q410 : ℕ
mali_gralloc_format_internal_q410 = 0x10a

abbrev pub mali_gralloc_format_internal_q401 : ℕ
mali_gralloc_format_internal_q401 = 0x10b

abbrev pub mali_gralloc_format_internal_yuv420_8bit_i : ℕ
mali_gralloc_format_internal_yuv420_8bit_i = 0x10c

abbrev pub mali_gralloc_format_internal_yuv420_10bit_i : ℕ
mali_gralloc_format_internal_yuv420_10bit_i = 0x10d

abbrev pub mali_gralloc_format_internal_yv12 : ℕ
mali_gralloc_format_internal_yv12 = 0x10e

abbrev pub mali_gralloc_format_internal_y8 : ℕ
mali_gralloc_format_internal_y8 = 0x10f

abbrev pub mali_gralloc_format_internal_y16 : ℕ
mali_gralloc_format_internal_y16 = 0x110

abbrev pub mali_gralloc_format_internal_rgba_10101010 : ℕ
mali_gralloc_format_internal_rgba_10101010 = 0x111

abbrev pub mali_gralloc_format_internal_nv15 : ℕ
mali_gralloc_format_internal_nv15 = 0x112

abbrev pub mali_gralloc_format_internal_nv24 : ℕ
mali_gralloc_format_internal_nv24 = 0x113

abbrev pub mali_gralloc_format_internal_nv30 : ℕ
mali_gralloc_format_internal_nv30 = 0x114

abbrev pub mali_gralloc_format_internal_r8 : ℕ
mali_gralloc_format_internal_r8 = 56

-- The formats that share the value of a HAL format.
module _ (hal : Hal) where
  abbrev pub mali_gralloc_format_internal_rgba_8888 : ℕ
  mali_gralloc_format_internal_rgba_8888 = hal.hal_rgba_8888

  abbrev pub mali_gralloc_format_internal_rgbx_8888 : ℕ
  mali_gralloc_format_internal_rgbx_8888 = hal.hal_rgbx_8888

  abbrev pub mali_gralloc_format_internal_rgb_888 : ℕ
  mali_gralloc_format_internal_rgb_888 = hal.hal_rgb_888

  abbrev pub mali_gralloc_format_internal_bgr_888 : ℕ
  mali_gralloc_format_internal_bgr_888 = hal.hal_bgr_888

  abbrev pub mali_gralloc_format_internal_rgb_565 : ℕ
  mali_gralloc_format_internal_rgb_565 = hal.hal_rgb_565

  abbrev pub mali_gralloc_format_internal_bgra_8888 : ℕ
  mali_gralloc_format_internal_bgra_8888 = hal.hal_bgra_8888

  abbrev pub mali_gralloc_format_internal_rgba_1010102 : ℕ
  mali_gralloc_format_internal_rgba_1010102 = hal.hal_rgba_1010102

  abbrev pub mali_gralloc_format_internal_rgba_16161616 : ℕ
  mali_gralloc_format_internal_rgba_16161616 = hal.hal_rgba_fp16

  abbrev pub mali_gralloc_format_internal_nv16 : ℕ
  mali_gralloc_format_internal_nv16 = hal.hal_ycbcr_422_sp

  abbrev pub mali_gralloc_format_internal_raw16 : ℕ
  mali_gralloc_format_internal_raw16 = hal.hal_raw16

  abbrev pub mali_gralloc_format_internal_raw12 : ℕ
  mali_gralloc_format_internal_raw12 = hal.hal_raw12

  abbrev pub mali_gralloc_format_internal_raw10 : ℕ
  mali_gralloc_format_internal_raw10 = hal.hal_raw10

  abbrev pub mali_gralloc_format_internal_raw_opaque : ℕ
  mali_gralloc_format_internal_raw_opaque = hal.hal_raw_opaque

  abbrev pub mali_gralloc_format_internal_blob : ℕ
  mali_gralloc_format_internal_blob = hal.hal_blob

  abbrev pub mali_gralloc_format_internal_depth_16 : ℕ
  mali_gralloc_format_internal_depth_16 = hal.hal_depth_16

  abbrev pub mali_gralloc_format_internal_depth_24 : ℕ
  mali_gralloc_format_internal_depth_24 = hal.hal_depth_24

  abbrev pub mali_gralloc_format_internal_depth_24_stencil_8 : ℕ
  mali_gralloc_format_internal_depth_24_stencil_8 = hal.hal_depth_24_stencil_8

  abbrev pub mali_gralloc_format_internal_depth_32f : ℕ
  mali_gralloc_format_internal_depth_32f = hal.hal_depth_32f

  abbrev pub mali_gralloc_format_internal_depth_32f_stencil_8 : ℕ
  mali_gralloc_format_internal_depth_32f_stencil_8 = hal.hal_depth_32f_stencil_8

  abbrev pub mali_gralloc_format_internal_stencil_8 : ℕ
  mali_gralloc_format_internal_stencil_8 = hal.hal_stencil_8

abbrev pub mali_gralloc_intfmt_fmt_mask : ℕ
mali_gralloc_intfmt_fmt_mask = 0x1ff

abbrev pub mali_gralloc_intfmt_ext_mask : ℕ
mali_gralloc_intfmt_ext_mask = 0xffff0000

-- MALI_GRALLOC_INTFMT_EXTENSION_BIT.
unfoldable pub extension_bit : ℕ → ℕ
extension_bit num_bit = 2 ^ (16 + num_bit)

-- The extension bit -1.
abbrev pub mali_gralloc_intfmt_sentinel : ℕ
mali_gralloc_intfmt_sentinel = 2 ^ 15

abbrev pub mali_gralloc_intfmt_afbc_basic : ℕ
mali_gralloc_intfmt_afbc_basic = extension_bit 0

abbrev pub mali_gralloc_intfmt_afrc_basic : ℕ
mali_gralloc_intfmt_afrc_basic = extension_bit 1

abbrev pub mali_gralloc_intfmt_block_linear_basic : ℕ
mali_gralloc_intfmt_block_linear_basic = extension_bit 2

abbrev pub mali_gralloc_intfmt_afbc_splitblk : ℕ
mali_gralloc_intfmt_afbc_splitblk = extension_bit 3

abbrev pub mali_gralloc_intfmt_afbc_wideblk : ℕ
mali_gralloc_intfmt_afbc_wideblk = extension_bit 4

abbrev pub mali_gralloc_intfmt_afbc_tiled_headers : ℕ
mali_gralloc_intfmt_afbc_tiled_headers = extension_bit 5

abbrev pub mali_gralloc_intfmt_afbc_extrawideblk : ℕ
mali_gralloc_intfmt_afbc_extrawideblk = extension_bit 6

abbrev pub mali_gralloc_intfmt_afbc_double_body : ℕ
mali_gralloc_intfmt_afbc_double_body = extension_bit 7

abbrev pub mali_gralloc_intfmt_afbc_bch : ℕ
mali_gralloc_intfmt_afbc_bch = extension_bit 8

abbrev pub mali_gralloc_intfmt_afbc_yuv_transform : ℕ
mali_gralloc_intfmt_afbc_yuv_transform = extension_bit 9

abbrev pub mali_gralloc_intfmt_afbc_sparse : ℕ
mali_gralloc_intfmt_afbc_sparse = extension_bit 10

abbrev pub mali_gralloc_intfmt_afbc_usm : ℕ
mali_gralloc_intfmt_afbc_usm = extension_bit 11

abbrev pub mali_gralloc_intfmt_afrc_rot_layout : ℕ
mali_gralloc_intfmt_afrc_rot_layout = extension_bit 3

abbrev pub mali_gralloc_intfmt_afrc_coding_unit_bytes_mask : ℕ
mali_gralloc_intfmt_afrc_coding_unit_bytes_mask = 3

-- The bit positions of the two AFRC coding size fields.
abbrev pub mali_gralloc_intfmt_afrc_rgba_coding_unit_bytes_shift : ℕ
mali_gralloc_intfmt_afrc_rgba_coding_unit_bytes_shift = 20

abbrev pub mali_gralloc_intfmt_afrc_chroma_coding_unit_bytes_shift : ℕ
mali_gralloc_intfmt_afrc_chroma_coding_unit_bytes_shift = 22

unfoldable pub mali_gralloc_intfmt_afrc_coding_unit_bytes_unwrap : ℕ → ℕ
mali_gralloc_intfmt_afrc_coding_unit_bytes_unwrap size = 16 + 8 * size

-- The sign bit is among the bits above the mask, so the 64-bit test reads the 32-bit pattern.
unfoldable pub mali_gralloc_format_compress : Hal → ℕ → ℕ
mali_gralloc_format_compress hal hal_format =
    if hal_format == hal.hal_yv12
    then mali_gralloc_format_internal_yv12
    else if hal_format == hal.hal_y8
    then mali_gralloc_format_internal_y8
    else if hal_format == hal.hal_y16
    then mali_gralloc_format_internal_y16
    else if has_bits hal_format (complement 32 mali_gralloc_intfmt_fmt_mask)
    then mali_gralloc_format_internal_undefined
    else hal_format

unfoldable pub mali_gralloc_format_wrapper : Hal → ℕ → ℕ → ℕ
mali_gralloc_format_wrapper hal base_format modifiers =
    if has_bits modifiers (complement 32 mali_gralloc_intfmt_ext_mask)
    then mali_gralloc_format_internal_undefined
    else bit_or (bit_or modifiers (mali_gralloc_format_compress hal base_format))
        mali_gralloc_intfmt_sentinel

unfoldable pub mali_gralloc_format_is_private : ℕ → Bool
mali_gralloc_format_is_private android_format = has_bits android_format mali_gralloc_intfmt_sentinel

unfoldable pub mali_gralloc_format_get_base : ℕ → ℕ
mali_gralloc_format_get_base wrapped_format = bit_and wrapped_format mali_gralloc_intfmt_fmt_mask

unfoldable pub mali_gralloc_format_get_modifiers : ℕ → ℕ
mali_gralloc_format_get_modifiers wrapped_format =
    bit_and wrapped_format mali_gralloc_intfmt_ext_mask
