-- ===== src/Usages.antt =====
-- src/usages.h: the usage flags of a buffer, as 64-bit words, and the predicates on them.
use rk_hardware_libgralloc_b.Prelude.{Bool, [], bit_and, bit_or, not, ℕ, ◌&&◌, ◌==◌, ◌^◌, ◌||◌, ◌∷◌}
use rk_hardware_libgralloc_b.Prelude.Bits.{any_of, has_bits}

abbrev pub gralloc_usage_private_mask : ℕ
gralloc_usage_private_mask = 0xffff0000f0000000

-- GRALLOC_USAGE_PRIVATE_0 to _22.
abbrev pub gralloc_usage_private_0 : ℕ
gralloc_usage_private_0 = 2 ^ 28

abbrev pub gralloc_usage_private_1 : ℕ
gralloc_usage_private_1 = 2 ^ 29

abbrev pub gralloc_usage_private_2 : ℕ
gralloc_usage_private_2 = 2 ^ 30

abbrev pub gralloc_usage_private_3 : ℕ
gralloc_usage_private_3 = 2 ^ 31

abbrev pub gralloc_usage_private_4 : ℕ
gralloc_usage_private_4 = 2 ^ 63

abbrev pub gralloc_usage_private_5 : ℕ
gralloc_usage_private_5 = 2 ^ 62

abbrev pub gralloc_usage_private_6 : ℕ
gralloc_usage_private_6 = 2 ^ 61

abbrev pub gralloc_usage_private_7 : ℕ
gralloc_usage_private_7 = 2 ^ 60

abbrev pub gralloc_usage_private_8 : ℕ
gralloc_usage_private_8 = 2 ^ 59

abbrev pub gralloc_usage_private_9 : ℕ
gralloc_usage_private_9 = 2 ^ 58

abbrev pub gralloc_usage_private_10 : ℕ
gralloc_usage_private_10 = 2 ^ 57

abbrev pub gralloc_usage_private_11 : ℕ
gralloc_usage_private_11 = 2 ^ 56

abbrev pub gralloc_usage_private_12 : ℕ
gralloc_usage_private_12 = 2 ^ 55

abbrev pub gralloc_usage_private_13 : ℕ
gralloc_usage_private_13 = 2 ^ 54

abbrev pub gralloc_usage_private_14 : ℕ
gralloc_usage_private_14 = 2 ^ 53

abbrev pub gralloc_usage_private_15 : ℕ
gralloc_usage_private_15 = 2 ^ 52

abbrev pub gralloc_usage_private_16 : ℕ
gralloc_usage_private_16 = 2 ^ 51

abbrev pub gralloc_usage_private_17 : ℕ
gralloc_usage_private_17 = 2 ^ 50

abbrev pub gralloc_usage_private_18 : ℕ
gralloc_usage_private_18 = 2 ^ 49

abbrev pub gralloc_usage_private_19 : ℕ
gralloc_usage_private_19 = 2 ^ 48

abbrev pub gralloc_usage_private_20 : ℕ
gralloc_usage_private_20 = 2 ^ 47

abbrev pub gralloc_usage_private_21 : ℕ
gralloc_usage_private_21 = 2 ^ 46

abbrev pub gralloc_usage_private_22 : ℕ
gralloc_usage_private_22 = 2 ^ 45

abbrev pub rk_gralloc_usage_alloc_height_align_mask : ℕ
rk_gralloc_usage_alloc_height_align_mask = bit_or gralloc_usage_private_4 gralloc_usage_private_5

abbrev pub rk_gralloc_usage_alloc_height_align_8 : ℕ
rk_gralloc_usage_alloc_height_align_8 = gralloc_usage_private_4

abbrev pub rk_gralloc_usage_alloc_height_align_16 : ℕ
rk_gralloc_usage_alloc_height_align_16 = gralloc_usage_private_5

abbrev pub rk_gralloc_usage_alloc_height_align_64 : ℕ
rk_gralloc_usage_alloc_height_align_64 = bit_or gralloc_usage_private_4 gralloc_usage_private_5

abbrev pub rk_gralloc_usage_stride_align_16 : ℕ
rk_gralloc_usage_stride_align_16 = gralloc_usage_private_10

abbrev pub rk_gralloc_usage_stride_align_128 : ℕ
rk_gralloc_usage_stride_align_128 = gralloc_usage_private_9

abbrev pub rk_gralloc_usage_stride_align_256_odd_times : ℕ
rk_gralloc_usage_stride_align_256_odd_times = gralloc_usage_private_8

abbrev pub rk_gralloc_usage_stride_align_64 : ℕ
rk_gralloc_usage_stride_align_64 = gralloc_usage_private_7

abbrev pub rk_gralloc_usage_specify_stride : ℕ
rk_gralloc_usage_specify_stride = gralloc_usage_private_2

abbrev pub rk_gralloc_usage_phy_contig_buffer : ℕ
rk_gralloc_usage_phy_contig_buffer = gralloc_usage_private_3

abbrev pub rk_gralloc_usage_within_4g : ℕ
rk_gralloc_usage_within_4g = gralloc_usage_private_11

abbrev pub mali_gralloc_usage_frontbuffer : ℕ
mali_gralloc_usage_frontbuffer = gralloc_usage_private_0

abbrev pub mali_gralloc_usage_force_backbuffer : ℕ
mali_gralloc_usage_force_backbuffer = gralloc_usage_private_13

abbrev pub mali_gralloc_usage_no_afbc : ℕ
mali_gralloc_usage_no_afbc = gralloc_usage_private_1

abbrev pub mali_gralloc_usage_afbc_padding : ℕ
mali_gralloc_usage_afbc_padding = gralloc_usage_private_14

abbrev pub mali_gralloc_usage_yuv_color_space_bt601 : ℕ
mali_gralloc_usage_yuv_color_space_bt601 = gralloc_usage_private_18

abbrev pub mali_gralloc_usage_yuv_color_space_bt709 : ℕ
mali_gralloc_usage_yuv_color_space_bt709 = gralloc_usage_private_19

abbrev pub mali_gralloc_usage_yuv_color_space_bt2020 : ℕ
mali_gralloc_usage_yuv_color_space_bt2020 = bit_or gralloc_usage_private_18 gralloc_usage_private_19

abbrev pub mali_gralloc_usage_yuv_color_space_mask : ℕ
mali_gralloc_usage_yuv_color_space_mask = mali_gralloc_usage_yuv_color_space_bt2020

abbrev pub mali_gralloc_usage_range_narrow : ℕ
mali_gralloc_usage_range_narrow = gralloc_usage_private_16

abbrev pub mali_gralloc_usage_range_wide : ℕ
mali_gralloc_usage_range_wide = gralloc_usage_private_17

abbrev pub mali_gralloc_usage_range_mask : ℕ
mali_gralloc_usage_range_mask = bit_or gralloc_usage_private_16 gralloc_usage_private_17

abbrev pub mali_gralloc_usage_chroma_siting_center : ℕ
mali_gralloc_usage_chroma_siting_center = gralloc_usage_private_20

abbrev pub mali_gralloc_usage_chroma_siting_cosited : ℕ
mali_gralloc_usage_chroma_siting_cosited = gralloc_usage_private_21

abbrev pub mali_gralloc_usage_chroma_siting_center_x : ℕ
mali_gralloc_usage_chroma_siting_center_x = gralloc_usage_private_22

abbrev pub mali_gralloc_usage_chroma_siting_center_y : ℕ
mali_gralloc_usage_chroma_siting_center_y = bit_or gralloc_usage_private_20 gralloc_usage_private_21

abbrev pub mali_gralloc_usage_chroma_siting_mask : ℕ
mali_gralloc_usage_chroma_siting_mask =
    any_of (gralloc_usage_private_20 ∷ gralloc_usage_private_21 ∷ gralloc_usage_private_22 ∷ [])

abbrev pub mali_gralloc_usage_afrc_rgba_luma_coding_size_sentinel : ℕ
mali_gralloc_usage_afrc_rgba_luma_coding_size_sentinel = gralloc_usage_private_2

abbrev pub mali_gralloc_usage_afrc_rgba_luma_coding_size_16 : ℕ
mali_gralloc_usage_afrc_rgba_luma_coding_size_16 =
    bit_or mali_gralloc_usage_afrc_rgba_luma_coding_size_sentinel gralloc_usage_private_0

abbrev pub mali_gralloc_usage_afrc_rgba_luma_coding_size_24 : ℕ
mali_gralloc_usage_afrc_rgba_luma_coding_size_24 =
    bit_or mali_gralloc_usage_afrc_rgba_luma_coding_size_sentinel gralloc_usage_private_1

abbrev pub mali_gralloc_usage_afrc_rgba_luma_coding_size_32 : ℕ
mali_gralloc_usage_afrc_rgba_luma_coding_size_32 =
    mali_gralloc_usage_afrc_rgba_luma_coding_size_sentinel

abbrev pub mali_gralloc_usage_afrc_rgba_luma_coding_size_mask : ℕ
mali_gralloc_usage_afrc_rgba_luma_coding_size_mask =
    any_of (gralloc_usage_private_2 ∷ gralloc_usage_private_1 ∷ gralloc_usage_private_0 ∷ [])

abbrev pub mali_gralloc_usage_afrc_chroma_coding_size_16 : ℕ
mali_gralloc_usage_afrc_chroma_coding_size_16 = gralloc_usage_private_11

abbrev pub mali_gralloc_usage_afrc_chroma_coding_size_24 : ℕ
mali_gralloc_usage_afrc_chroma_coding_size_24 = gralloc_usage_private_12

abbrev pub mali_gralloc_usage_afrc_chroma_coding_size_32 : ℕ
mali_gralloc_usage_afrc_chroma_coding_size_32 =
    bit_or gralloc_usage_private_11 gralloc_usage_private_12

abbrev pub mali_gralloc_usage_afrc_chroma_coding_size_mask : ℕ
mali_gralloc_usage_afrc_chroma_coding_size_mask = mali_gralloc_usage_afrc_chroma_coding_size_32

abbrev pub gralloc_usage_sw_write_mask : ℕ
gralloc_usage_sw_write_mask = 0xf0

abbrev pub gralloc_usage_sw_read_often : ℕ
gralloc_usage_sw_read_often = 3

abbrev pub gralloc_usage_sw_read_mask : ℕ
gralloc_usage_sw_read_mask = 0xf

abbrev pub gralloc_usage_renderscript : ℕ
gralloc_usage_renderscript = 2 ^ 20

abbrev pub gralloc_usage_hw_fb : ℕ
gralloc_usage_hw_fb = 2 ^ 12

abbrev pub gralloc_usage_hw_2d : ℕ
gralloc_usage_hw_2d = 2 ^ 10

abbrev pub gralloc_usage_protected : ℕ
gralloc_usage_protected = 2 ^ 14

abbrev pub gralloc_usage_cursor : ℕ
gralloc_usage_cursor = 2 ^ 15

abbrev pub gralloc_usage_hw_render : ℕ
gralloc_usage_hw_render = 2 ^ 9

abbrev pub gralloc_usage_hw_camera_write : ℕ
gralloc_usage_hw_camera_write = 2 ^ 17

abbrev pub gralloc_usage_hw_camera_read : ℕ
gralloc_usage_hw_camera_read = 2 ^ 18

abbrev pub gralloc_usage_hw_texture : ℕ
gralloc_usage_hw_texture = 2 ^ 8

abbrev pub gralloc_usage_hw_video_encoder : ℕ
gralloc_usage_hw_video_encoder = 2 ^ 16

abbrev pub gralloc_usage_hw_composer : ℕ
gralloc_usage_hw_composer = 2 ^ 11

abbrev pub gralloc_usage_external_disp : ℕ
gralloc_usage_external_disp = 2 ^ 13

abbrev pub gralloc_usage_sensor_direct_data : ℕ
gralloc_usage_sensor_direct_data = 2 ^ 23

abbrev pub gralloc_usage_gpu_data_buffer : ℕ
gralloc_usage_gpu_data_buffer = 2 ^ 24

abbrev pub gralloc_usage_decoder : ℕ
gralloc_usage_decoder = 2 ^ 22

abbrev pub gralloc_usage_frontbuffer : ℕ
gralloc_usage_frontbuffer = 2 ^ 32

abbrev pub standard_usage : ℕ
standard_usage = any_of (
    gralloc_usage_sw_read_mask ∷ gralloc_usage_sw_write_mask ∷ gralloc_usage_hw_texture
    ∷ gralloc_usage_hw_render ∷ gralloc_usage_hw_2d ∷ gralloc_usage_hw_composer
    ∷ gralloc_usage_hw_fb ∷ gralloc_usage_external_disp ∷ gralloc_usage_protected
    ∷ gralloc_usage_cursor ∷ gralloc_usage_hw_video_encoder ∷ gralloc_usage_hw_camera_write
    ∷ gralloc_usage_hw_camera_read ∷ gralloc_usage_renderscript ∷ gralloc_usage_decoder
    ∷ gralloc_usage_sensor_direct_data ∷ gralloc_usage_gpu_data_buffer ∷ gralloc_usage_frontbuffer
    ∷ [])

abbrev pub vendor_usage : ℕ
vendor_usage = any_of (
    gralloc_usage_private_19 ∷ gralloc_usage_private_18 ∷ gralloc_usage_private_17
    ∷ gralloc_usage_private_16 ∷ gralloc_usage_private_15 ∷ gralloc_usage_private_14
    ∷ gralloc_usage_private_13 ∷ gralloc_usage_private_12 ∷ gralloc_usage_private_11
    ∷ gralloc_usage_private_10 ∷ gralloc_usage_private_9 ∷ gralloc_usage_private_8
    ∷ gralloc_usage_private_7 ∷ gralloc_usage_private_0 ∷ gralloc_usage_private_1
    ∷ gralloc_usage_private_2 ∷ gralloc_usage_private_3 ∷ gralloc_usage_private_4
    ∷ gralloc_usage_private_5 ∷ [])

abbrev pub valid_usage : ℕ
valid_usage = bit_or standard_usage vendor_usage

abbrev pub universal_usages : ℕ
universal_usages =
    any_of (gralloc_usage_protected ∷ gralloc_usage_sw_read_mask ∷ gralloc_usage_sw_write_mask ∷ [])

abbrev pub add_universal_usages : ℕ → ℕ
add_universal_usages usages = bit_or usages universal_usages

unfoldable pub gralloc_usage_is_frontbuffer : ℕ → Bool
gralloc_usage_is_frontbuffer usage =
    has_bits usage gralloc_usage_frontbuffer
    || (has_bits usage mali_gralloc_usage_frontbuffer
        && not (has_bits usage mali_gralloc_usage_afrc_rgba_luma_coding_size_sentinel))

unfoldable pub gralloc_usage_is_no_afbc : ℕ → Bool
gralloc_usage_is_no_afbc usage =
    (bit_and usage mali_gralloc_usage_no_afbc == mali_gralloc_usage_no_afbc)
    && not (has_bits usage mali_gralloc_usage_afrc_rgba_luma_coding_size_sentinel)

-- src/core/buffer_allocation.h: the stride alignment that a video client asks for.
unfoldable pub get_usage_flag_for_stride_alignment : ℕ → ℕ
get_usage_flag_for_stride_alignment usage = bit_and usage (
    any_of (
      rk_gralloc_usage_stride_align_16 ∷ rk_gralloc_usage_stride_align_64
      ∷ rk_gralloc_usage_stride_align_128 ∷ rk_gralloc_usage_stride_align_256_odd_times ∷ []))

unfoldable pub is_stride_alignment_specified : ℕ → Bool
is_stride_alignment_specified usage = not (get_usage_flag_for_stride_alignment usage == 0)
