-- ===== src/Allocation/Round.antt =====
-- What one round of the loop of calc_allocation_size (src/core/buffer_allocation.cpp) writes and
-- what it leaves.
use mathlib.Core.Path.{ap₂}
use rk_hardware_libgralloc_b.Align.{gralloc_align_size, gralloc_align_size-IsAlignment}
use rk_hardware_libgralloc_b.AllocType.{AllocType, type_is_afrc}
use rk_hardware_libgralloc_b.Allocation.Size.{
  Layout, align_start, calc_plane, calc_planes, get_afbc_body_size, get_afrc_body_size,
  get_block_linear_body_size, get_body_size, get_header_size, get_plane_info, get_plane_size,
  get_sb_num,
}
use rk_hardware_libgralloc_b.Allocation.Stride.{PlaneInfo, SizeRequest}
use rk_hardware_libgralloc_b.FormatInfo.{at, at-put}
use rk_hardware_libgralloc_b.FormatInfo.WellFormed.{implies}
use rk_hardware_libgralloc_b.Hal.{Hal}
use rk_hardware_libgralloc_b.Prelude.{
  Bool, Bool-cases, arith, false, if◌then◌else◌, inl, inr, leb, ltb, refl, suc, true, zero, ℕ, ◌&&◌,
  ◌+◌, ◌<◌, ◌==◌, ◌^◌, ◌∙◌, ◌≡◌, ◌≢◌, ◌≤◌,
}
use rk_hardware_libgralloc_b.Prelude.Words.{sign_extend, u32, u64}

-- The bytes of a plane of the finished layout, header and body.
unfoldable pub space : SizeRequest → Layout → ℕ → ℕ
space request layout plane = get_plane_size request plane (at layout.infos plane) layout.infos.p0

-- Planes of an AFRC type start at multiples of a number from 1 to 4096.
unfoldable pub has_alignments : AllocType → Bool
unfolding implies
has_alignments alloc_type = implies (type_is_afrc alloc_type.primary_type) (
    ltb 0 alloc_type.afrc.rgba_luma_plane_alignment
    && leb alloc_type.afrc.rgba_luma_plane_alignment 4096
    && ltb 0 alloc_type.afrc.chroma_plane_alignment
    && leb alloc_type.afrc.chroma_plane_alignment 4096)

round_up_bounds :
    (total base : ℕ)
    → 0 < base
    → base ≤ 4096
    → total ≤ 2 ^ 32
    → (total ≤ gralloc_align_size total base) × (gralloc_align_size total base ≤ total + 2 ^ 12)
round_up_bounds total base positive small le =
    let r = gralloc_align_size-IsAlignment total base positive (omega arith) in
    (r.covers, omega (arith, r.tight))

alignment_bounds :
    (alloc_type : AllocType)
    → has_alignments alloc_type ≡ true
    → type_is_afrc alloc_type.primary_type ≡ true
    → (0 < alloc_type.afrc.rgba_luma_plane_alignment)
      × (alloc_type.afrc.rgba_luma_plane_alignment ≤ 4096)
      × (0 < alloc_type.afrc.chroma_plane_alignment)
      × (alloc_type.afrc.chroma_plane_alignment ≤ 4096)
unfolding has_alignments implies
alignment_bounds alloc_type h afrc = ground arith

pub align_start_bounds :
    (request : SizeRequest) (plane total : ℕ)
    → has_alignments request.alloc_type ≡ true
    → total ≤ 2 ^ 32
    → (total ≤ align_start request plane total) × (align_start request plane total ≤ total + 2 ^ 12)
unfolding align_start
align_start_bounds request plane total h le =
    elim (Bool-cases (type_is_afrc request.alloc_type.primary_type)) [
      | inl afrc ↦
          let (luma, luma_le, chroma, chroma_le) = alignment_bounds request.alloc_type h afrc in
          rw afrc (elim (Bool-cases (plane == 0)) [
            | inl first ↦ rw first (round_up_bounds total _ luma luma_le le)
            | inr later ↦ rw later (round_up_bounds total _ chroma chroma_le le)
          ])
      | inr other ↦ rw other (omega arith, omega arith)
    ]

pub calc_plane-other :
    (hal : Hal) (request : SizeRequest) (plane j : ℕ) (layout : Layout)
    → plane < 3
    → j < 3
    → plane ≢ j
    → at (calc_plane hal request plane layout).infos j ≡ at layout.infos j
unfolding calc_plane
calc_plane-other hal request plane j layout hp hj differ =
    rw (at-put layout.infos plane j _ hp hj)
      (let no : (plane == j) ≡ false = ground (arith, differ) in rw no refl)

pub calc_planes-below :
    (hal : Hal) (request : SizeRequest) (left plane j : ℕ) (layout : Layout)
    → plane + left ≤ 3
    → j < plane
    → at (calc_planes hal request left plane layout).infos j ≡ at layout.infos j
unfolding calc_planes
calc_planes-below hal request zero plane j layout fits lt = refl
calc_planes-below hal request (suc left) plane j layout fits lt =
    calc_planes-below hal request left (plane + 1) j (calc_plane hal request plane layout)
      (omega arith) (omega arith)
    ∙ calc_plane-other hal request plane j layout (omega arith) (omega arith) (λ e. omega arith)

-- The bytes of a plane do not depend on where planes start.
get_plane_size-offset :
    (request : SizeRequest) (plane o : ℕ) (info luma : PlaneInfo)
    → get_plane_size request plane (record info { offset = o }) luma
      ≡ get_plane_size request plane info luma
unfolding get_plane_size get_body_size get_afbc_body_size get_afrc_body_size
    get_block_linear_body_size get_header_size get_sb_num
get_plane_size-offset request plane o info luma = refl

-- The sum that a round stores in the total.
add_size : (start n : ℕ) → start ≤ 2 ^ 32 → n < 2 ^ 29 → u64 (start + sign_extend n) ≡ start + n
unfolding sign_extend
add_size start n le lt = ground arith

-- What a round writes about its own plane.
calc_plane-space :
    (hal : Hal) (request : SizeRequest) (plane : ℕ) (layout : Layout)
    → plane < 3
    → space request (calc_plane hal request plane layout) plane
      ≡ get_plane_size request plane
          (get_plane_info hal request plane layout.infos)
          (if plane == 0 then get_plane_info hal request plane layout.infos else layout.infos.p0)
unfolding calc_plane space
calc_plane-space hal request zero layout hp = refl
calc_plane-space hal request (suc zero) layout hp = get_plane_size-offset request 1 _ _ _
calc_plane-space hal request (suc (suc zero)) layout hp = get_plane_size-offset request 2 _ _ _
calc_plane-space hal request (suc (suc (suc n))) layout hp = absurd (omega arith)

pub calc_plane-total :
    (hal : Hal) (request : SizeRequest) (plane : ℕ) (layout : Layout)
    → plane < 3
    → has_alignments request.alloc_type ≡ true
    → layout.total ≤ 2 ^ 31
    → space request (calc_plane hal request plane layout) plane < 2 ^ 29
    → (calc_plane hal request plane layout).total
      ≡ align_start request plane layout.total
        + space request (calc_plane hal request plane layout) plane
unfolding calc_plane
calc_plane-total hal request plane layout hp h le fits =
    let eq = calc_plane-space hal request plane layout hp in
    let (_, near) = align_start_bounds request plane layout.total h (omega arith) in
    rw eq (add_size _ _ (omega arith) (omega (arith, eq)))

pub calc_plane-offset :
    (hal : Hal) (request : SizeRequest) (plane : ℕ) (layout : Layout)
    → plane < 3
    → (at (calc_plane hal request plane layout).infos plane).offset ≡ (
        if ltb 0 plane
        then u32 (align_start request plane layout.total)
        else (at layout.infos plane).offset)
unfolding calc_plane get_plane_info
calc_plane-offset hal request zero layout hp = refl
calc_plane-offset hal request (suc zero) layout hp = refl
calc_plane-offset hal request (suc (suc zero)) layout hp = refl
calc_plane-offset hal request (suc (suc (suc n))) layout hp = absurd (omega arith)

-- A later round leaves the bytes of a plane as they are.
pub calc_plane-space_other :
    (hal : Hal) (request : SizeRequest) (plane j : ℕ) (layout : Layout)
    → plane < 3
    → j < plane
    → space request (calc_plane hal request plane layout) j ≡ space request layout j
unfolding space
calc_plane-space_other hal request plane j layout hp lt =
    let same = calc_plane-other hal request plane j layout hp (omega arith) (λ e. omega arith) in
    let luma = calc_plane-other hal request plane 0 layout hp (omega arith) (λ e. omega arith) in
    ap₂ (get_plane_size request j) same luma

pub calc_planes-space :
    (hal : Hal) (request : SizeRequest) (left plane j : ℕ) (layout : Layout)
    → plane + left ≤ 3
    → j < plane
    → space request (calc_planes hal request left plane layout) j ≡ space request layout j
unfolding space
calc_planes-space hal request left plane j layout fits lt =
    let same = calc_planes-below hal request left plane j layout fits lt in
    let luma = calc_planes-below hal request left plane 0 layout fits (omega arith) in
    ap₂ (get_plane_size request j) same luma
