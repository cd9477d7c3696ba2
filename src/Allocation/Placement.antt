-- ===== src/Allocation/Placement.antt =====
-- The planes of calc_allocation_size (src/core/buffer_allocation.cpp) in the buffer.
use mathlib.Core.Path.{subst}
use native.Mathlib.Nat.{mod-eq_of_lt}
use rk_hardware_libgralloc_b.Allocation.Round.{
  align_start_bounds, calc_plane-offset, calc_plane-other, calc_plane-space_other, calc_plane-total,
  calc_planes-space, has_alignments, space,
}
use rk_hardware_libgralloc_b.Allocation.Size.{
  Layout, align_start, calc_allocation_size, calc_plane, calc_planes,
}
use rk_hardware_libgralloc_b.Allocation.Stride.{PlaneInfo, SizeRequest}
use rk_hardware_libgralloc_b.FormatInfo.{Planes, at}
use rk_hardware_libgralloc_b.Hal.{Hal}
use rk_hardware_libgralloc_b.Prelude.{
  arith, inl, inr, ltb, lt→ltb, refl, suc, true, zero, ℕ, ◌*◌, ◌+◌, ◌<◌, ◌^◌, ◌∙◌, ◌≡◌, ◌≤◌, ◌⊎◌,
}

-- The planes below `plane` follow each other and end within the total.
pub record IsPlaced (request : SizeRequest) (plane : ℕ) (layout : Layout) : Type 0 where
  pub ordered :
      (i j : ℕ)
      → i < j
      → j < plane
      → (at layout.infos i).offset + space request layout i ≤ (at layout.infos j).offset
  pub inside :
      (i : ℕ) → i < plane → (at layout.infos i).offset + space request layout i ≤ layout.total
  pub bounded : layout.total ≤ plane * (2 ^ 29 + 2 ^ 12)

-- A plane below the next one is the current one or an earlier one.
below_next : (i plane : ℕ) → i < plane + 1 → (i < plane) ⊎ (i ≡ plane)
below_next i plane lt = ground arith

-- A plane starts where its round says, the first one not later than that.
calc_plane-start :
    (hal : Hal) (request : SizeRequest) (plane : ℕ) (layout : Layout)
    → plane < 3
    → align_start request plane layout.total < 2 ^ 32
    → ((at layout.infos 0).offset ≡ 0) ⊎ (0 < plane)
    → ((at (calc_plane hal request plane layout).infos plane).offset
        ≤ align_start request plane layout.total)
      × (((at (calc_plane hal request plane layout).infos plane).offset
            ≡ align_start request plane layout.total)
          ⊎ (plane ≡ 0))
calc_plane-start hal request zero layout hp small first =
    let offset = calc_plane-offset hal request 0 layout hp in
    elim first [
      | inl start ↦ (omega (arith, offset ∙ start), inr refl)
      | inr later ↦ absurd (omega arith)
    ]
calc_plane-start hal request (suc plane) layout hp small first =
    let offset = calc_plane-offset hal request (suc plane) layout hp in
    let later : ltb 0 (suc plane) ≡ true = lt→ltb _ _ (omega arith) in
    let same : (at (calc_plane hal request (suc plane) layout).infos (suc plane)).offset
        ≡ align_start request (suc plane) layout.total =
      rw offset (rw later (mod-eq_of_lt small)) in
    (omega (arith, same), inl same)

-- A plane before the current one is where it was.
calc_plane-end :
    (hal : Hal) (request : SizeRequest) (plane i : ℕ) (layout : Layout)
    → plane < 3
    → i < plane
    → (at (calc_plane hal request plane layout).infos i).offset
        + space request (calc_plane hal request plane layout) i
      ≡ (at layout.infos i).offset + space request layout i
calc_plane-end hal request plane i layout hp lt =
    rw
      (
        calc_plane-space_other hal request plane i layout hp lt,
        calc_plane-other hal request plane i layout hp (omega arith) (λ e. omega arith),
      )
      refl

calc_plane-IsPlaced :
    (hal : Hal) (request : SizeRequest) (plane : ℕ) (layout : Layout)
    → plane < 3
    → has_alignments request.alloc_type ≡ true
    → ((at layout.infos 0).offset ≡ 0) ⊎ (0 < plane)
    → IsPlaced request plane layout
    → space request (calc_plane hal request plane layout) plane < 2 ^ 29
    → IsPlaced request (plane + 1) (calc_plane hal request plane layout)
calc_plane-IsPlaced hal request plane layout hp h first placed fits =
    let total =
      calc_plane-total hal request plane layout hp h (omega (arith, placed.bounded)) fits in
    let (near, far) =
      align_start_bounds request plane layout.total h (omega (arith, placed.bounded)) in
    let (before, own) =
      calc_plane-start hal request plane layout hp (omega (arith, placed.bounded, far)) first in
    record {
      ordered = λ i j lt below. elim (below_next j plane below) [
        | inl earlier ↦
            rw
              (
                calc_plane-end hal request plane i layout hp (omega arith),
                calc_plane-other hal request plane j layout hp (omega arith) (λ e. omega arith),
              )
              (placed.ordered i j lt earlier)
        | inr current ↦
            rw (calc_plane-end hal request plane i layout hp (omega arith), current)
              (ground (arith, own, near, placed.inside i (omega arith)))
      ];
      inside = λ i below. elim (below_next i plane below) [
        | inl earlier ↦
            rw (calc_plane-end hal request plane i layout hp earlier, total)
              (omega (arith, near, placed.inside i earlier))
        | inr current ↦ rw current (omega (arith, total, before))
      ];
      bounded = omega (arith, total, far, fits, placed.bounded);
    }

calc_planes-IsPlaced :
    (hal : Hal) (request : SizeRequest) (left plane last : ℕ) (layout : Layout)
    → plane + left ≡ last
    → last ≤ 3
    → has_alignments request.alloc_type ≡ true
    → ((at layout.infos 0).offset ≡ 0) ⊎ (0 < plane)
    → IsPlaced request plane layout
    → ((j : ℕ) → j < last → space request (calc_planes hal request left plane layout) j < 2 ^ 29)
    → IsPlaced request last (calc_planes hal request left plane layout)
unfolding calc_planes
calc_planes-IsPlaced hal request zero plane last layout sum le h first placed fits =
    let same : plane ≡ last = omega arith in
    subst (λ (p : ℕ). IsPlaced request p layout) same placed
calc_planes-IsPlaced hal request (suc left) plane last layout sum le h first placed fits =
    let next = calc_plane hal request plane layout in
    let same =
      calc_planes-space hal request left (plane + 1) plane next (omega arith) (omega arith) in
    let small : space request next plane < 2 ^ 29 = omega (arith, same, fits plane (omega arith)) in
    let placed_next =
      calc_plane-IsPlaced hal request plane layout (omega arith) h first placed small in
    calc_planes-IsPlaced hal request left (plane + 1) last next (omega arith) le h
      (inr (omega arith)) placed_next fits

-- Where every plane takes less than 2 ^ 29 bytes and AFRC planes start at multiples of a number
-- from 1 to 4096, the planes that calc_allocation_size lays out follow each other, none reaching
-- past the start of the next, and end within the size it returns, which is at most
-- `npln * (2 ^ 29 + 2 ^ 12)`.
pub calc_allocation_size-IsPlaced :
    (hal : Hal) (request : SizeRequest) (infos : Planes PlaneInfo) (pixel_stride : ℕ)
    → request.format.npln ≤ 3
    → has_alignments request.alloc_type ≡ true
    → ((j : ℕ)
        → j < request.format.npln
        → space request (calc_allocation_size hal request infos pixel_stride) j < 2 ^ 29)
    → IsPlaced request request.format.npln (calc_allocation_size hal request infos pixel_stride)
unfolding calc_allocation_size
calc_allocation_size-IsPlaced hal request infos pixel_stride planes_le h fits =
    calc_planes-IsPlaced hal request request.format.npln 0 request.format.npln _ (omega arith)
      planes_le h (inl refl)
      (record {
        ordered = λ i j lt below. absurd (omega arith);
        inside = λ i below. absurd (omega arith);
        bounded = omega arith;
      })
      fits
