-- ===== src/AllocType/Afrc.antt =====
-- When get_alloc_type refuses an AFRC format, and what the type that it returns satisfies.
use rk_hardware_libgralloc_b.AllocType.{
  AfrcProperties, AllocType, afrc_plane_alignment_requirement, base_afrc, clump_of_plane,
  get_afrc_alloc_type, get_alloc_type, no_afrc, set_clumps, uncompressed,
}
use rk_hardware_libgralloc_b.Format.{
  mali_gralloc_format_internal_nv15, mali_gralloc_format_internal_nv30,
  mali_gralloc_intfmt_afrc_coding_unit_bytes_unwrap,
}
use rk_hardware_libgralloc_b.FormatInfo.{FormatInfo, at, at-put, get_base_info, planes, put}
use rk_hardware_libgralloc_b.FormatInfo.WellFormed.{
  describes_plane, describes_planes, get_format_info-describes_planes, get_format_info-has_geometry,
  has_geometry,
}
use rk_hardware_libgralloc_b.Hal.{Hal}
use rk_hardware_libgralloc_b.InternalFormat.{
  InternalFormat, get_afrc_chroma_coding_size, get_afrc_rgba_coding_size, get_afrc_rot_layout,
  get_base, get_coding_size, is_afbc, is_afrc, to_bytes,
}
use rk_hardware_libgralloc_b.Prelude.{
  Option, ap, arith, false, if◌then◌else◌, ltb, none, refl, some, suc, sym, true, zero, ℕ, ◌*◌, ◌+◌,
  ◌/◌, ◌<◌, ◌==◌, ◌^◌, ◌↔◌, ◌∙◌, ◌≡◌, ◌≢◌, ◌≤◌, ◌⊎◌,
}
use rk_hardware_libgralloc_b.Prelude.Bits.{bit_and-le}

-- A coding size of 3 is the one that no unit size stands for.
alignment_of_size :
    (size : ℕ) → size < 4 → (afrc_plane_alignment_requirement (to_bytes size) ≡ 0) ↔ (size ≡ 3)
unfolding afrc_plane_alignment_requirement to_bytes
    mali_gralloc_intfmt_afrc_coding_unit_bytes_unwrap
alignment_of_size size h = ground arith

-- The alignment of a plane with coding units of 16, 24 or 32 bytes.
abbrev pub AlignsUnits : ℕ → ℕ → Type 0
AlignsUnits bytes alignment =
    ((bytes ≡ 16) × (alignment ≡ 1024))
    ⊎ ((bytes ≡ 24) × (alignment ≡ 512))
    ⊎ ((bytes ≡ 32) × (alignment ≡ 2048))

alignment_of_valid :
    (size : ℕ)
    → size < 4
    → size ≢ 3
    → AlignsUnits (to_bytes size) (afrc_plane_alignment_requirement (to_bytes size))
unfolding afrc_plane_alignment_requirement to_bytes
    mali_gralloc_intfmt_afrc_coding_unit_bytes_unwrap
alignment_of_valid size h ne = ground arith

unit_bytes : (size : ℕ) → to_bytes size ≡ 16 + 8 * size
unfolding to_bytes mali_gralloc_intfmt_afrc_coding_unit_bytes_unwrap
unit_bytes size = refl

abbrev HasComponents : FormatInfo → ℕ → Type 0
HasComponents info plane = (1 ≤ at info.ncmp plane) × (at info.ncmp plane ≤ 4)

-- The clump of a plane with components.
abbrev clump : AfrcProperties → ℕ → ℕ × ℕ
clump afrc ncmp =
    if ncmp == 1
    then (afrc.paging_tile_width, afrc.paging_tile_height)
    else if ncmp == 2
    then (8, 4)
    else (4, 4)

clump_of_plane-some :
    (info : FormatInfo) (afrc : AfrcProperties) (plane : ℕ)
    → HasComponents info plane
    → clump_of_plane afrc (at info.ncmp plane)
      ≡ some ((clump afrc (at info.ncmp plane)).0, (clump afrc (at info.ncmp plane)).1)
unfolding clump_of_plane
clump_of_plane-some info afrc plane h = ground arith

-- `result` sets the clumps of the planes from `plane` to `stop` and nothing else.
pub record SetsClumps (info : FormatInfo) (afrc : AfrcProperties) (plane stop : ℕ)
    (result : Option AfrcProperties) : Type 0 where
  pub out : AfrcProperties
  pub returns : result ≡ some out
  pub inside :
      (p : ℕ)
      → plane ≤ p
      → p < stop
      → (at out.clump_width p ≡ (clump afrc (at info.ncmp p)).0)
        × (at out.clump_height p ≡ (clump afrc (at info.ncmp p)).1)
  pub below :
      (p : ℕ)
      → p < plane
      → (at out.clump_width p ≡ at afrc.clump_width p)
        × (at out.clump_height p ≡ at afrc.clump_height p)
  pub rest : record out { clump_width = afrc.clump_width; clump_height = afrc.clump_height } ≡ afrc

module _ (info : FormatInfo) where
  set_clumps-SetsClumps :
      (left plane stop : ℕ) (afrc : AfrcProperties)
      → plane + left ≡ stop
      → stop ≤ 3
      → ((p : ℕ) → p < stop → HasComponents info p)
      → SetsClumps info afrc plane stop (set_clumps left plane info afrc)
  unfolding set_clumps
  set_clumps-SetsClumps zero plane stop afrc e three h = record {
    out = afrc;
    returns = refl;
    inside = λ p lo hi. absurd (omega arith);
    below = λ p lt. (refl, refl);
    rest = refl;
  }
  set_clumps-SetsClumps (suc left) plane stop afrc e three h =
      let c = clump afrc (at info.ncmp plane) in
      let next : AfrcProperties = record afrc {
        clump_width = put afrc.clump_width plane c.0;
        clump_height = put afrc.clump_height plane c.1;
      } in
      let later = set_clumps-SetsClumps left (plane + 1) stop next (omega arith) three h in
      rw (clump_of_plane-some info afrc plane (h plane (omega arith)), set_clumps)
        (record {
          out = later.out;
          returns = later.returns;
          inside = λ p lo hi. ground (
            arith,
            later.inside p,
            later.below p,
            at-put afrc.clump_width plane p c.0,
            at-put afrc.clump_height plane p c.1,
          );
          below = λ p lt. ground (
            arith,
            later.below p,
            at-put afrc.clump_width plane p c.0,
            at-put afrc.clump_height plane p c.1,
          );
          rest =
              ap
                (λ (r : AfrcProperties). record r {
                  clump_width = afrc.clump_width;
                  clump_height = afrc.clump_height;
                })
                later.rest;
        })

describes_plane-HasComponents :
    (info : FormatInfo) (plane : ℕ)
    → describes_plane info plane ≡ true
    → plane < info.npln
    → HasComponents info plane
unfolding describes_plane
describes_plane-HasComponents info plane d lt = ground arith

pub npln-le_three : (info : FormatInfo) → has_geometry info ≡ true → info.npln ≤ 3
unfolding has_geometry
npln-le_three info g = ground arith

describes_planes-HasComponents :
    (info : FormatInfo) (plane : ℕ)
    → describes_planes info ≡ true
    → info.npln ≤ 3
    → plane < info.npln
    → HasComponents info plane
unfolding describes_planes
describes_planes-HasComponents info zero d three lt =
    describes_plane-HasComponents info 0 (ground arith) lt
describes_planes-HasComponents info (suc zero) d three lt =
    describes_plane-HasComponents info 1 (ground arith) lt
describes_planes-HasComponents info (suc (suc plane)) d three lt =
    describes_plane-HasComponents info 2 (ground arith) (omega arith)

-- The clump of a plane: a paging tile for one component, 8 by 4 coding units for two, and 4 by 4
-- for three or four.
abbrev pub IsClump : AfrcProperties → ℕ → ℕ → ℕ → Type 0
IsClump afrc ncmp width height =
    ((ncmp ≡ 1) × (width ≡ afrc.paging_tile_width) × (height ≡ afrc.paging_tile_height))
    ⊎ ((ncmp ≡ 2) × (width ≡ 8) × (height ≡ 4))
    ⊎ (((ncmp ≡ 3) ⊎ (ncmp ≡ 4)) × (width ≡ 4) × (height ≡ 4))

clump-IsClump :
    (info : FormatInfo) (afrc : AfrcProperties) (plane : ℕ)
    → HasComponents info plane
    → IsClump afrc
        (at info.ncmp plane)
        (clump afrc (at info.ncmp plane)).0
        (clump afrc (at info.ncmp plane)).1
clump-IsClump info afrc plane h = ground arith

-- What the allocation relies on of an AFRC type.
pub record IsAfrcType (info : FormatInfo) (format : InternalFormat) (t : AllocType) : Type 0 where
  pub primary : t.primary_type ≡ base_afrc
  pub luma_unit : t.afrc.rgba_luma_coding_unit_bytes ≡ 16 + 8 * get_afrc_rgba_coding_size format
  pub chroma_unit : t.afrc.chroma_coding_unit_bytes ≡ 16 + 8 * get_afrc_chroma_coding_size format
  pub luma_alignment :
      AlignsUnits t.afrc.rgba_luma_coding_unit_bytes t.afrc.rgba_luma_plane_alignment
  pub chroma_alignment : AlignsUnits t.afrc.chroma_coding_unit_bytes t.afrc.chroma_plane_alignment
  pub rotated_tile :
      get_afrc_rot_layout format ≡ true
      → (t.afrc.paging_tile_width ≡ 8) × (t.afrc.paging_tile_height ≡ 8)
  pub scan_tile :
      get_afrc_rot_layout format ≡ false
      → (t.afrc.paging_tile_width ≡ 16) × (t.afrc.paging_tile_height ≡ 4)
  pub clumps :
      (p : ℕ)
      → p < info.npln
      → IsClump t.afrc (at info.ncmp p) (at t.afrc.clump_width p) (at t.afrc.clump_height p)

-- A coding size that no unit size stands for.
abbrev pub IsReservedSize : InternalFormat → Type 0
IsReservedSize format =
    (get_afrc_rgba_coding_size format ≡ 3) ⊎ (get_afrc_chroma_coding_size format ≡ 3)

get_coding_size-lt : (shift : ℕ) (f : InternalFormat) → get_coding_size shift f < 4
unfolding get_coding_size
get_coding_size-lt shift f = omega (arith, bit_and-le (f.m_modifiers / 2 ^ shift) 3)

start_afrc : InternalFormat → AfrcProperties
start_afrc format =
    let rotated = get_afrc_rot_layout format in
    let luma_bytes = to_bytes (get_afrc_rgba_coding_size format) in
    let chroma_bytes = to_bytes (get_afrc_chroma_coding_size format) in
    record {
      rgba_luma_coding_unit_bytes = luma_bytes;
      rgba_luma_plane_alignment = afrc_plane_alignment_requirement luma_bytes;
      chroma_coding_unit_bytes = chroma_bytes;
      chroma_plane_alignment = afrc_plane_alignment_requirement chroma_bytes;
      clump_width = planes 0 0 0;
      clump_height = planes 0 0 0;
      paging_tile_width = if rotated then 8 else 16;
      paging_tile_height = if rotated then 8 else 4;
    }

get_alloc_type-afrc_branch :
    (hal : Hal) (format : InternalFormat) (usage : ℕ) (info : FormatInfo)
    → get_base_info hal format ≡ some info
    → is_afbc format ≡ false
    → is_afrc format ≡ true
    → get_alloc_type hal format usage
      ≡ get_afrc_alloc_type info format (record {
        primary_type = uncompressed;
        is_multi_plane = ltb 1 info.npln;
        is_tiled = false;
        is_padded = false;
        is_frontbuffer_safe = false;
        afrc = no_afrc;
      })
unfolding get_alloc_type
get_alloc_type-afrc_branch hal format usage info e afbc afrc = rw (e, afbc, afrc, get_alloc_type)

module _ (hal : Hal) (format : InternalFormat) (usage : ℕ) (info : FormatInfo)
    (found : get_base_info hal format ≡ some info) (not_afbc : is_afbc format ≡ false)
    (afrc : is_afrc format ≡ true) (not_nv15 : get_base format ≢ mali_gralloc_format_internal_nv15)
    (not_nv30 : get_base format ≢ mali_gralloc_format_internal_nv30) where
  geometry : has_geometry info ≡ true
  geometry = (get_format_info-has_geometry hal (get_base format) info found).1

  described : describes_planes info ≡ true
  described = get_format_info-describes_planes hal (get_base format) info found not_nv15 not_nv30

  clumped :
      SetsClumps info
        (start_afrc format)
        0
        info.npln
        (set_clumps info.npln 0 info (start_afrc format))
  clumped =
      let three = npln-le_three info geometry in
      set_clumps-SetsClumps info info.npln 0 info.npln (start_afrc format) (omega arith) three
        (λ p lt. describes_planes-HasComponents info p described three lt)

  -- Setting the clumps leaves the other properties.
  kept :
      (clumped.out.rgba_luma_coding_unit_bytes ≡ to_bytes (get_afrc_rgba_coding_size format))
      × (clumped.out.chroma_coding_unit_bytes ≡ to_bytes (get_afrc_chroma_coding_size format))
      × (clumped.out.rgba_luma_plane_alignment
          ≡ afrc_plane_alignment_requirement (to_bytes (get_afrc_rgba_coding_size format)))
      × (clumped.out.chroma_plane_alignment
          ≡ afrc_plane_alignment_requirement (to_bytes (get_afrc_chroma_coding_size format)))
      × (clumped.out.paging_tile_width ≡ (start_afrc format).paging_tile_width)
      × (clumped.out.paging_tile_height ≡ (start_afrc format).paging_tile_height)
  unfolding start_afrc
  kept = (
    ap (λ (r : AfrcProperties). r.rgba_luma_coding_unit_bytes) clumped.rest,
    ap (λ (r : AfrcProperties). r.chroma_coding_unit_bytes) clumped.rest,
    ap (λ (r : AfrcProperties). r.rgba_luma_plane_alignment) clumped.rest,
    ap (λ (r : AfrcProperties). r.chroma_plane_alignment) clumped.rest,
    ap (λ (r : AfrcProperties). r.paging_tile_width) clumped.rest,
    ap (λ (r : AfrcProperties). r.paging_tile_height) clumped.rest,
  )

  luma_small : get_afrc_rgba_coding_size format < 4
  unfolding get_afrc_rgba_coding_size
  luma_small = get_coding_size-lt 20 format

  chroma_small : get_afrc_chroma_coding_size format < 4
  unfolding get_afrc_chroma_coding_size
  chroma_small = get_coding_size-lt 22 format

  -- An AFRC format, NV15 and NV30 aside, is refused exactly when one of its coding sizes is the
  -- reserved value 3.
  pub get_alloc_type-afrc_none : (get_alloc_type hal format usage ≡ none) ↔ IsReservedSize format
  unfolding get_afrc_alloc_type start_afrc
  get_alloc_type-afrc_none =
      rw (get_alloc_type-afrc_branch hal format usage info found not_afbc afrc) (
        ground (
          arith,
          clumped.returns,
          alignment_of_size (get_afrc_rgba_coding_size format) luma_small,
          alignment_of_size (get_afrc_chroma_coding_size format) chroma_small,
        ))

  accepted :
      (t : AllocType)
      → get_alloc_type hal format usage ≡ some t
      → (t.primary_type ≡ base_afrc)
        × (t.afrc ≡ clumped.out)
        × (get_afrc_rgba_coding_size format ≢ 3)
        × (get_afrc_chroma_coding_size format ≢ 3)
  unfolding get_afrc_alloc_type start_afrc
  accepted t e =
      let got = sym (get_alloc_type-afrc_branch hal format usage info found not_afbc afrc) ∙ e in
      ground (
        arith,
        got,
        clumped.returns,
        alignment_of_size (get_afrc_rgba_coding_size format) luma_small,
        alignment_of_size (get_afrc_chroma_coding_size format) chroma_small,
      )

  clumps_fit :
      (p : ℕ)
      → p < info.npln
      → IsClump clumped.out
          (at info.ncmp p)
          (at clumped.out.clump_width p)
          (at clumped.out.clump_height p)
  clumps_fit p lt =
      let three = npln-le_three info geometry in
      let components = describes_planes-HasComponents info p described three lt in
      let (width, height) = clumped.inside p (omega arith) lt in
      rw (width, height, kept.4, kept.5) (clump-IsClump info (start_afrc format) p components)

  -- The type of an accepted AFRC format, NV15 and NV30 aside, has the coding unit sizes of its
  -- modifiers and aligns planes to 1024, 512 or 2048 bytes for units of 16, 24 or 32 bytes. The
  -- paging tile is 8 by 8 coding units for the rotation layout and 16 by 4 otherwise. The clump of
  -- each plane of the format is a paging tile for one component, 8 by 4 for two, and 4 by 4 for
  -- three or four.
  pub get_alloc_type-IsAfrcType :
      (t : AllocType) → get_alloc_type hal format usage ≡ some t → IsAfrcType info format t
  unfolding start_afrc
  get_alloc_type-IsAfrcType t e =
      let (primary, afrc_is, luma, chroma) = accepted t e in
      record {
        primary = primary;
        luma_unit = rw (afrc_is, kept.0) (unit_bytes _);
        chroma_unit = rw (afrc_is, kept.1) (unit_bytes _);
        luma_alignment = rw (afrc_is, kept.0, kept.2) (alignment_of_valid _ luma_small luma);
        chroma_alignment = rw (afrc_is, kept.1, kept.3) (alignment_of_valid _ chroma_small chroma);
        rotated_tile = λ rotated. rw (afrc_is, kept.4, kept.5, rotated) (refl, refl);
        scan_tile = λ scan. rw (afrc_is, kept.4, kept.5, scan) (refl, refl);
        clumps = rw afrc_is clumps_fit;
      }
