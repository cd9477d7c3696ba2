-- ===== src/Allocation/Dimensions.antt =====
-- afbc_buffer_align, the superblock sizes, max and get_pixel_w_h of
-- src/core/buffer_allocation.cpp: the dimensions of a plane in pixels.
use rk_hardware_libgralloc_b.Align.{gralloc_align, gralloc_align_int}
use rk_hardware_libgralloc_b.AllocType.{
  AllocBaseType, AllocType, afbc_extrawideblk, afbc_wideblk, base_afbc, base_afrc,
  base_block_linear, type_is_afbc, type_is_afrc, type_is_block_linear, uncompressed,
}
use rk_hardware_libgralloc_b.FormatInfo.{FormatInfo, at}
use rk_hardware_libgralloc_b.Prelude.{Bool, false, if◌then◌else◌, ltb, not, true, ℕ, ◌&&◌, ◌*◌, ◌/◌}
use rk_hardware_libgralloc_b.Prelude.Words.{int_lt, u16, u32}

pub record Rect : Type 0 where
  pub width : ℕ
  pub height : ℕ

unfoldable pub afbc_buffer_align : Bool → ℕ → ℕ
afbc_buffer_align is_tiled size = gralloc_align_int size (if is_tiled then 4 * 1024 else 1024)

-- Obtain AFBC superblock dimensions from type.
unfoldable pub get_afbc_sb_size : AllocBaseType → Rect
get_afbc_sb_size uncompressed = record { width = 0; height = 0 }
get_afbc_sb_size base_afbc = record { width = 16; height = 16 }
get_afbc_sb_size afbc_wideblk = record { width = 32; height = 8 }
get_afbc_sb_size afbc_extrawideblk = record { width = 64; height = 4 }
get_afbc_sb_size base_afrc = record { width = 0; height = 0 }
get_afbc_sb_size base_block_linear = record { width = 0; height = 0 }

-- Obtain AFBC superblock dimensions for a specific plane.
unfoldable pub get_plane_sb_size : AllocType → ℕ → Rect
get_plane_sb_size alloc_type plane =
    if ltb 0 plane && type_is_afbc alloc_type.primary_type && alloc_type.is_multi_plane
    then get_afbc_sb_size afbc_extrawideblk
    else get_afbc_sb_size alloc_type.primary_type

-- `max` of two and of three `int`.
unfoldable pub max_int : ℕ → ℕ → ℕ
max_int a b = if int_lt b a then a else b

unfoldable pub max_int3 : ℕ → ℕ → ℕ → ℕ
max_int3 a b c = if int_lt (max_int a b) c then c else max_int a b

-- The size of an AFBC tile: a superblock, or the square of them that a tiled header covers.
unfoldable pub get_afbc_tile : FormatInfo → AllocType → ℕ → Rect
get_afbc_tile format alloc_type plane =
    let sb = get_plane_sb_size alloc_type plane in
    let factor = if ltb 32 (at format.bpp_afbc plane) then 4 else 8 in
    if alloc_type.is_tiled
    then record { width = u16 (factor * sb.width); height = u16 (factor * sb.height) }
    else sb

unfoldable pub is_wideblk : AllocBaseType → Bool
is_wideblk uncompressed = false
is_wideblk base_afbc = false
is_wideblk afbc_wideblk = true
is_wideblk afbc_extrawideblk = false
is_wideblk base_afrc = false
is_wideblk base_block_linear = false

-- The branch of get_pixel_w_h for AFBC without CPU usage.
unfoldable pub get_afbc_pixel_align : FormatInfo → AllocType → ℕ → Rect
get_afbc_pixel_align format alloc_type plane =
    let sb = get_plane_sb_size alloc_type plane in
    let num_sb_align = if alloc_type.is_padded && not format.is_yuv then 4 else 0 in
    let tile = get_afbc_tile format alloc_type plane in
    let pixel_align_w = max_int (max_int 0 num_sb_align * sb.width) tile.width in
    let pixel_align_h = max_int 1 tile.height in
    record {
      width = pixel_align_w;
      height =
          if is_wideblk alloc_type.primary_type && not alloc_type.is_tiled
          then max_int pixel_align_h 16
          else pixel_align_h;
    }

-- The alignment of the plane's dimensions, `pixel_align_w` and `pixel_align_h`.
unfoldable pub get_pixel_align : FormatInfo → AllocType → ℕ → Bool → Rect
get_pixel_align format alloc_type plane cpu =
    if cpu
    then record { width = format.align_w_cpu; height = 1 }
    else if type_is_afbc alloc_type.primary_type
    then get_afbc_pixel_align format alloc_type plane
    else if type_is_afrc alloc_type.primary_type
    then record {
      width = u32 (alloc_type.afrc.paging_tile_width * at alloc_type.afrc.clump_width plane);
      height = u32 (alloc_type.afrc.paging_tile_height * at alloc_type.afrc.clump_height plane);
    }
    else if type_is_block_linear alloc_type.primary_type
    then record { width = 16; height = 16 }
    else record { width = 1; height = 1 }

-- Round-up plane dimensions, then sub-sample (sub-sampled) planes.
unfoldable pub get_sub_sampled_w : FormatInfo → ℕ → ℕ → ℕ
get_sub_sampled_w format plane width =
    let aligned = gralloc_align width format.align_w in
    if ltb 0 plane then aligned / format.hsub else aligned

unfoldable pub get_sub_sampled_h : FormatInfo → ℕ → ℕ → ℕ
get_sub_sampled_h format plane height =
    let aligned = gralloc_align height format.align_h in
    if ltb 0 plane then aligned / format.vsub else aligned

-- Obtain plane allocation dimensions (in pixels) from the buffer's.
unfoldable pub get_pixel_w_h : FormatInfo → AllocType → ℕ → Bool → Rect → Rect
get_pixel_w_h format alloc_type plane cpu size =
    let pixel_align = get_pixel_align format alloc_type plane cpu in
    record {
      width =
          gralloc_align (get_sub_sampled_w format plane size.width)
            (max_int3 1 pixel_align.width format.tile_size);
      height =
          gralloc_align (get_sub_sampled_h format plane size.height)
            (max_int3 1 pixel_align.height format.tile_size);
    }
