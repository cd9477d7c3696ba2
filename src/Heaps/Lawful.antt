-- ===== src/Heaps/Lawful.antt =====
-- The DMA-BUF allocator does what buffer access relies on.
use mathlib.Core.Path.{subst}
use rk_hardware_libgralloc_b.Access.Effects.{IsLawful}
use rk_hardware_libgralloc_b.Access.Region.{negated}
use rk_hardware_libgralloc_b.Handle.{ImportedHandle}
use rk_hardware_libgralloc_b.Heaps.{
  HeapCalls, MmapResult, dma_buf_heaps, heap_map, heap_unmap, map_at, map_failed,
}
use rk_hardware_libgralloc_b.Prelude.{
  Option, arith, inl, inr, none, refl, some, ℕ, ◌<◌, ◌^◌, ◌≡◌, ◌⊎◌,
}

-- errno is positive as an `int`.
abbrev pub HasErrno : MmapResult → Type 0
HasErrno (map_at mapping) = Unit
HasErrno (map_failed errno) = (0 < errno) × (errno < 2 ^ 31)

MmapResult-cases :
    (result : MmapResult)
    → ((mapping : ℕ) × (result ≡ map_at mapping)) ⊎ ((errno : ℕ) × (result ≡ map_failed errno))
MmapResult-cases (map_at mapping) = inl (mapping, refl)
MmapResult-cases (map_failed errno) = inr (errno, refl)

module _ (calls : HeapCalls) (hnd : ImportedHandle) where
  heap_map-base : (pointer : Option ℕ) × ((heap_map calls hnd).1 ≡ record hnd { base = pointer })
  unfolding heap_map
  heap_map-base = elim (MmapResult-cases (calls.mmap hnd.raw.size hnd.raw.share_fd)) [
    | inl (mapping, mapped) ↦ rw (mapped, heap_map) (some mapping, refl)
    | inr (errno, failed) ↦ rw (failed, heap_map) (hnd.base, refl)
  ]

  heap_map-success :
      HasErrno (calls.mmap hnd.raw.size hnd.raw.share_fd)
      → (heap_map calls hnd).0 ≡ 0
      → (pointer : ℕ) × ((heap_map calls hnd).1.base ≡ some pointer)
  unfolding heap_map
  heap_map-success documented done =
      elim (MmapResult-cases (calls.mmap hnd.raw.size hnd.raw.share_fd)) [
        | inl (mapping, mapped) ↦ rw (mapped, heap_map) (mapping, refl)
        | inr (errno, failed) ↦
            let positive : (0 < errno) × (errno < 2 ^ 31) = subst HasErrno failed documented in
            let none_left : negated errno ≡ 0 = rw (failed, heap_map) at done in
            absurd (omega (arith, positive.0, positive.1, none_left))
      ]

heap_unmap-clears :
    (hnd : ImportedHandle)
    → heap_unmap hnd ≡ record hnd { base = none; cpu_write = 0; lock_count = 0 }
unfolding heap_unmap
heap_unmap-clears hnd = refl

-- Where mmap fails with a positive errno, as it is documented to, the DMA-BUF allocator keeps the
-- contract that buffer access takes: a mapping sets the base pointer alone, a status of 0 comes with
-- a mapping, and releasing one clears the base pointer, the lock count and the write flag itself
-- and changes nothing else.
pub dma_buf_heaps-IsLawful :
    (calls : HeapCalls)
    → ((size fd : ℕ) → HasErrno (calls.mmap size fd))
    → IsLawful (dma_buf_heaps calls)
dma_buf_heaps-IsLawful calls documented = record {
  map_sets_base = heap_map-base calls;
  map_succeeds = λ hnd. heap_map-success calls hnd (documented hnd.raw.size hnd.raw.share_fd);
  unmap_clears = heap_unmap-clears;
}
