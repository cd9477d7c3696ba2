-- ===== src/Allocation/AfbcHeader.antt =====
-- init_afbc of src/core/buffer_allocation.cpp: the header of an AFBC plane, before a client writes
-- the body. The words are uint32_t, in the order of the memory from `buf` on, and all dimensions are
-- `int`s.
use rk_hardware_libgralloc_b.Align.{gralloc_align_int-IsAlignment}
use rk_hardware_libgralloc_b.AllocType.{type_is_afbc}
use rk_hardware_libgralloc_b.Allocation.Dimensions.{afbc_buffer_align}
use rk_hardware_libgralloc_b.Allocation.Size.{get_header_size, get_sb_num}
use rk_hardware_libgralloc_b.Allocation.Stride.{PlaneInfo, SizeRequest}
use rk_hardware_libgralloc_b.Capabilities.{Platform}
use rk_hardware_libgralloc_b.Hal.{Hal}
use rk_hardware_libgralloc_b.InternalFormat.{InternalFormat, get_afbc_tiled_headers}
use rk_hardware_libgralloc_b.Prelude.{
  Bool, List, [], arith, false, if◌then◌else◌, length, length-append, not, refl, suc, true, zero, ℕ,
  ◌&&◌, ◌*◌, ◌++◌, ◌+◌, ◌<◌, ◌^◌, ◌∙◌, ◌∷◌, ◌≡◌, ◌≤◌,
}
use rk_hardware_libgralloc_b.Prelude.Words.{int_div, u32}
use rk_hardware_libgralloc_b.Selection.Support.{is_subsampled_yuv}

-- The number of superblocks, one entry each.
unfoldable pub header_count : ℕ → ℕ → ℕ
header_count w h = int_div (u32 (w * h)) 256

-- Where the body starts.
unfoldable pub header_body_offset : InternalFormat → ℕ → ℕ → ℕ
header_body_offset alloc_format w h =
    afbc_buffer_align (get_afbc_tiled_headers alloc_format) (u32 (header_count w h * 16))

-- The two entries of `headers`: layouts 0, 3, 4 and 7, then layouts 1 and 5.
unfoldable pub plain_header : Bool → ℕ → List ℕ
plain_header is_tiled body_offset =
    if is_tiled then 0 ∷ 0 ∷ 0 ∷ 0 ∷ [] else body_offset ∷ 0x1 ∷ 0x10000 ∷ 0x0 ∷ []

unfoldable pub subsampled_header : ℕ → List ℕ
subsampled_header body_offset = u32 (body_offset + 2 ^ 28) ∷ 0x80200040 ∷ 0x1004000 ∷ 0x20080 ∷ []

-- The loop over the entries, `n_headers` of them left.
unfoldable pub write_headers : ℕ → List ℕ → List ℕ
write_headers zero header = []
write_headers (suc n_headers) header = header ++ write_headers n_headers header

module _ (hal : Hal) (platform : Platform) where
  unfoldable pub header_of : InternalFormat → Bool → ℕ → ℕ → List ℕ
  header_of alloc_format is_multi_plane w h =
      if is_subsampled_yuv hal platform alloc_format && not is_multi_plane
      then subsampled_header (header_body_offset alloc_format w h)
      else plain_header (get_afbc_tiled_headers alloc_format) (header_body_offset alloc_format w h)

  unfoldable pub init_afbc : InternalFormat → Bool → ℕ → ℕ → List ℕ
  init_afbc alloc_format is_multi_plane w h =
      write_headers (header_count w h) (header_of alloc_format is_multi_plane w h)

  header_of-length :
      (alloc_format : InternalFormat) (is_multi_plane : Bool) (w h : ℕ)
      → length (header_of alloc_format is_multi_plane w h) ≡ 4
  unfolding header_of plain_header subsampled_header
  header_of-length alloc_format is_multi_plane w h = ground arith

write_headers-length :
    (n_headers : ℕ) (header : List ℕ)
    → length (write_headers n_headers header) ≡ n_headers * length header
unfolding write_headers
write_headers-length zero header = omega arith
write_headers-length (suc n_headers) header = omega (
  arith,
  length-append header (write_headers n_headers header),
  write_headers-length n_headers header,
)

header_count-get_sb_num :
    (info : PlaneInfo)
    → info.alloc_width * info.alloc_height < 2 ^ 31
    → header_count info.alloc_width info.alloc_height ≡ get_sb_num info
unfolding header_count get_sb_num int_div
header_count-get_sb_num info small = ground arith

afbc_buffer_align-covers :
    (is_tiled : Bool) (size : ℕ) → size < 2 ^ 30 → size ≤ afbc_buffer_align is_tiled size
unfolding afbc_buffer_align
afbc_buffer_align-covers true size small =
    (gralloc_align_int-IsAlignment size (4 * 1024) (omega arith) (omega arith)).covers
afbc_buffer_align-covers false size small =
    (gralloc_align_int-IsAlignment size 1024 (omega arith) (omega arith)).covers

get_sb_num-small :
    (info : PlaneInfo) → info.alloc_width * info.alloc_height < 2 ^ 31 → get_sb_num info < 2 ^ 23
unfolding get_sb_num
get_sb_num-small info small = omega arith

-- Of an AFBC plane of less than 2^31 pixels, where the tiling of the allocation type is that of the
-- format: init_afbc writes one entry of four words for each superblock that calc_allocation_size
-- counts. What it writes ends within the header that calc_allocation_size reserves, and the body
-- offset that it puts into entries is the size of that header.
pub init_afbc-get_header_size :
    (hal : Hal) (platform : Platform) (request : SizeRequest) (info : PlaneInfo)
    (alloc_format : InternalFormat) (is_multi_plane : Bool)
    → type_is_afbc request.alloc_type.primary_type ≡ true
    → request.alloc_type.is_tiled ≡ get_afbc_tiled_headers alloc_format
    → info.alloc_width * info.alloc_height < 2 ^ 31
    → (length
          (init_afbc hal platform alloc_format is_multi_plane info.alloc_width info.alloc_height)
        ≡ 4 * get_sb_num info)
      × (4
            * length (
                init_afbc hal platform alloc_format is_multi_plane info.alloc_width
                  info.alloc_height)
          ≤ get_header_size request info)
      × (header_body_offset alloc_format info.alloc_width info.alloc_height
          ≡ get_header_size request info)
unfolding init_afbc header_body_offset get_header_size
init_afbc-get_header_size hal platform request info alloc_format is_multi_plane afbc tiled small =
    let count = header_count-get_sb_num info small in
    let words : length
          (init_afbc hal platform alloc_format is_multi_plane info.alloc_width info.alloc_height)
        ≡ 4 * get_sb_num info =
      write_headers-length (header_count info.alloc_width info.alloc_height) _
      ∙ rw
          (
            count,
            header_of-length hal platform alloc_format is_multi_plane info.alloc_width
                info.alloc_height,
          )
          (omega arith) in
    let bytes : u32 (get_sb_num info * 16) ≡ 16 * get_sb_num info =
      omega (arith, get_sb_num-small info small) in
    let room =
      afbc_buffer_align-covers request.alloc_type.is_tiled (16 * get_sb_num info)
        (omega (arith, get_sb_num-small info small)) in
    (words, rw (afbc, words, bytes) (omega (arith, room)), rw (afbc, count, tiled) refl)
