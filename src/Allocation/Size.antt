-- ===== src/Allocation/Size.antt =====
-- calc_allocation_size of src/core/buffer_allocation.cpp: the planes, their offsets and the size of
-- a buffer.
use rk_hardware_libgralloc_b.Align.{gralloc_align_int, gralloc_align_size}
use rk_hardware_libgralloc_b.AllocType.{type_is_afbc, type_is_afrc, type_is_block_linear}
use rk_hardware_libgralloc_b.Allocation.Dimensions.{
  afbc_buffer_align, get_pixel_w_h, get_plane_sb_size,
}
use rk_hardware_libgralloc_b.Allocation.Stride.{
  PlaneInfo, SizeRequest, get_byte_stride, has_cpu_usage,
}
use rk_hardware_libgralloc_b.FormatInfo.{Planes, at, put}
use rk_hardware_libgralloc_b.Hal.{Hal}
use rk_hardware_libgralloc_b.Prelude.{
  if◌then◌else◌, ltb, not, suc, zero, ℕ, ◌&&◌, ◌*◌, ◌+◌, ◌/◌, ◌==◌,
}
use rk_hardware_libgralloc_b.Prelude.Words.{sign_extend, u32, u64}

-- The outputs of calc_allocation_size; `total` is a size_t.
pub record Layout : Type 0 where
  pub infos : Planes PlaneInfo
  pub pixel_stride : ℕ
  pub total : ℕ

-- The number of superblocks of a plane.
unfoldable pub get_sb_num : PlaneInfo → ℕ
get_sb_num info = u32 (info.alloc_width * info.alloc_height) / 256

unfoldable pub get_afbc_body_size : SizeRequest → ℕ → PlaneInfo → ℕ
get_afbc_body_size request plane info =
    let alloc_type = request.alloc_type in
    let sb = get_plane_sb_size alloc_type plane in
    let sb_bytes =
      gralloc_align_int (at request.format.bpp_afbc plane * sb.width * sb.height / 8) 128 in
    let blocks = u32 (get_sb_num info * sb_bytes) in
    let body_size =
      if ltb 1 request.format.npln && ltb plane 2
      then afbc_buffer_align alloc_type.is_tiled blocks
      else blocks in
    if alloc_type.is_frontbuffer_safe
    then u32 (body_size + afbc_buffer_align alloc_type.is_tiled body_size)
    else body_size

unfoldable pub get_afrc_body_size : SizeRequest → ℕ → PlaneInfo → ℕ
get_afrc_body_size request plane info =
    let afrc = request.alloc_type.afrc in
    let coding_unit_bytes =
      if plane == 0 then afrc.rgba_luma_coding_unit_bytes else afrc.chroma_coding_unit_bytes in
    let s_coding_units = info.alloc_width / at afrc.clump_width plane in
    let t_coding_units = info.alloc_height / at afrc.clump_height plane in
    u32 (u32 (s_coding_units * t_coding_units) * coding_unit_bytes)

unfoldable pub get_block_linear_body_size : SizeRequest → ℕ → PlaneInfo → PlaneInfo → ℕ
get_block_linear_body_size request plane info luma =
    let block_height = if ltb 0 plane then 16 / request.format.vsub else 16 in
    u32 (u32 (info.byte_stride * block_height) * (luma.alloc_height / 16))

-- The size of a plane's body, an `int`.
unfoldable pub get_body_size : SizeRequest → ℕ → PlaneInfo → PlaneInfo → ℕ
get_body_size request plane info luma =
    let primary_type = request.alloc_type.primary_type in
    if type_is_afbc primary_type
    then get_afbc_body_size request plane info
    else if type_is_afrc primary_type
    then get_afrc_body_size request plane info
    else if type_is_block_linear primary_type
    then get_block_linear_body_size request plane info luma
    else u32 (info.byte_stride * info.alloc_height)

-- The size of a plane's AFBC header, aligned so that the body is.
unfoldable pub get_header_size : SizeRequest → PlaneInfo → ℕ
get_header_size request info =
    if type_is_afbc request.alloc_type.primary_type
    then afbc_buffer_align request.alloc_type.is_tiled (u32 (get_sb_num info * 16))
    else 0

-- The bytes of a plane, header and body.
unfoldable pub get_plane_size : SizeRequest → ℕ → PlaneInfo → PlaneInfo → ℕ
get_plane_size request plane info luma =
    u32 (get_body_size request plane info luma + get_header_size request info)

-- An AFRC plane starts at a multiple of its alignment.
unfoldable pub align_start : SizeRequest → ℕ → ℕ → ℕ
align_start request plane total =
    let primary_type = request.alloc_type.primary_type in
    if type_is_afrc primary_type
    then gralloc_align_size total (
        if plane == 0
        then request.alloc_type.afrc.rgba_luma_plane_alignment
        else request.alloc_type.afrc.chroma_plane_alignment)
    else total

-- Pixel stride (CPU usage only).
unfoldable pub get_pixel_stride : SizeRequest → ℕ → ℕ
get_pixel_stride request byte_stride =
    let primary_type = request.alloc_type.primary_type in
    if not (type_is_afbc primary_type)
      && not (type_is_afrc primary_type)
      && not (type_is_block_linear primary_type)
      && has_cpu_usage request.usage
    then u32 (byte_stride * 8) / request.format.bpp.p0
    else 0

-- The dimensions and the stride of a plane, with its old offset.
unfoldable pub get_plane_info : Hal → SizeRequest → ℕ → Planes PlaneInfo → PlaneInfo
get_plane_info hal request plane infos =
    let dims =
      get_pixel_w_h request.format request.alloc_type plane (has_cpu_usage request.usage)
        request.size in
    let sized : PlaneInfo = record {
      offset = (at infos plane).offset;
      byte_stride = (at infos plane).byte_stride;
      alloc_width = dims.width;
      alloc_height = dims.height;
    } in
    let luma = if plane == 0 then sized else infos.p0 in
    record sized { byte_stride = get_byte_stride hal request plane dims.width luma }

-- One round of the loop over the planes.
unfoldable pub calc_plane : Hal → SizeRequest → ℕ → Layout → Layout
calc_plane hal request plane layout =
    let info = get_plane_info hal request plane layout.infos in
    let luma = if plane == 0 then info else layout.infos.p0 in
    let start = align_start request plane layout.total in
    record {
      infos =
          put layout.infos plane
            (record info { offset = if ltb 0 plane then u32 start else info.offset });
      pixel_stride =
          if plane == 0 then get_pixel_stride request info.byte_stride else layout.pixel_stride;
      total = u64 (start + sign_extend (get_plane_size request plane info luma));
    }

-- The loop from `plane` on, with `left` planes left.
unfoldable pub calc_planes : Hal → SizeRequest → ℕ → ℕ → Layout → Layout
calc_planes hal request zero plane layout = layout
calc_planes hal request (suc left) plane layout =
    calc_planes hal request left (plane + 1) (calc_plane hal request plane layout)

-- The whole function, from the planes and the pixel stride that the descriptor holds.
unfoldable pub calc_allocation_size : Hal → SizeRequest → Planes PlaneInfo → ℕ → Layout
calc_allocation_size hal request infos pixel_stride =
    calc_planes hal request request.format.npln 0 (record {
      infos = put infos 0 (record (at infos 0) { offset = 0 });
      pixel_stride = pixel_stride;
      total = 0;
    })
