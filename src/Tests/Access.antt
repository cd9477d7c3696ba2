-- ===== src/Tests/Access.antt =====
-- Examples of locking a buffer, and of the choice of a heap.
use rk_hardware_libgralloc_b.Access.Bounds.{validate_lock_input_parameters-accepts}
use rk_hardware_libgralloc_b.Access.Chroma.{flex_of_ycbcr, flex_planes_of-ycbcr_layout, yu12}
use rk_hardware_libgralloc_b.Access.Effects.{IsLawful}
use rk_hardware_libgralloc_b.Access.Flex.{flex_planes_of}
use rk_hardware_libgralloc_b.Access.Lock.{Ycbcr, mali_gralloc_lock, ycbcr_layout}
use rk_hardware_libgralloc_b.Access.Region.{validate_lock_input_parameters}
use rk_hardware_libgralloc_b.Access.Release.{unlock_times, unlock_times-releases}
use rk_hardware_libgralloc_b.Access.Sessions.{
  AccessReach-IsConsistent, IsConsistent, and_then, initially, lock_step, unlock_step,
}
use rk_hardware_libgralloc_b.Access.Sync.{mali_gralloc_unlock}
use rk_hardware_libgralloc_b.Format.{
  mali_gralloc_format_internal_nv12, mali_gralloc_format_internal_yu12,
}
use rk_hardware_libgralloc_b.Hal.{sample_hal}
use rk_hardware_libgralloc_b.Handle.{ImportedHandle}
use rk_hardware_libgralloc_b.Heaps.{dma_buf_heaps, pick_dma_buf_heap}
use rk_hardware_libgralloc_b.Heaps.Lawful.{dma_buf_heaps-IsLawful}
use rk_hardware_libgralloc_b.Heaps.Placing.{is_system_heap, pick_dma_buf_heap-within_4g}
use rk_hardware_libgralloc_b.Prelude.{arith, false, inr, refl, some, true, ◌+◌, ◌↔◌, ◌≡◌, ◌≤◌}
use rk_hardware_libgralloc_b.Selection.Rk.{rk3588}
use rk_hardware_libgralloc_b.Tests.Buffers.{
  sample_allocator, sample_allocator-IsLawful, sample_calls, sample_codes, sample_imported,
  whole_region,
}

AccessReach-IsConsistent_example :
    IsConsistent (sample_imported mali_gralloc_format_internal_nv12) 2 (
      mali_gralloc_unlock sample_allocator
        (mali_gralloc_lock sample_hal sample_codes sample_allocator 9
          (sample_imported mali_gralloc_format_internal_nv12)
          0x30
          whole_region
          true).buffer)
AccessReach-IsConsistent_example =
    AccessReach-IsConsistent sample_hal sample_codes 9
      (sample_imported mali_gralloc_format_internal_nv12) 2 _ refl refl (omega arith)
      (and_then
        (and_then initially
          (lock_step sample_allocator 0x30 whole_region true sample_allocator-IsLawful refl))
        (unlock_step sample_allocator refl))

validate_lock_input_parameters-accepts_example :
    (validate_lock_input_parameters sample_codes 9
        (sample_imported mali_gralloc_format_internal_nv12)
        whole_region
      ≡ 0)
    ↔ ((0 + 64 ≤ 64)
        × (0 + 32 ≤ 32)
        × ((sample_imported mali_gralloc_format_internal_nv12).import_pid ≡ 9))
validate_lock_input_parameters-accepts_example =
    validate_lock_input_parameters-accepts sample_codes 9
      (sample_imported mali_gralloc_format_internal_nv12) whole_region (omega arith) (omega arith)
      (omega arith) (omega arith) (omega arith) (omega arith) (omega arith) (omega arith)

-- Locked twice, for writing.
abbrev locked_twice : ImportedHandle
locked_twice = record (sample_imported mali_gralloc_format_internal_nv12) {
  lock_count = 2;
  cpu_write = 1;
  base = some 0x10000;
}

unlock_times-releases_example :
    ((unlock_times sample_allocator 2 locked_twice).lock_count ≡ 0)
    × ((unlock_times sample_allocator 2 locked_twice).cpu_write ≡ 0)
unlock_times-releases_example =
    unlock_times-releases sample_allocator 2 locked_twice (λ h cpu_read cpu_write. refl) refl
      (omega arith) (inr (omega arith))

flex_planes_of-ycbcr_layout_example :
    (layout : Ycbcr) × (ycbcr_layout
        (sample_imported mali_gralloc_format_internal_yu12)
        mali_gralloc_format_internal_yu12
      ≡ some layout)
    × (flex_planes_of sample_hal
          (sample_imported mali_gralloc_format_internal_yu12)
          mali_gralloc_format_internal_yu12
        ≡ some (flex_of_ycbcr layout))
flex_planes_of-ycbcr_layout_example =
    flex_planes_of-ycbcr_layout sample_hal (sample_imported mali_gralloc_format_internal_yu12)
      mali_gralloc_format_internal_yu12 yu12 (λ planar. refl)

dma_buf_heaps-IsLawful_example : IsLawful (dma_buf_heaps sample_calls)
dma_buf_heaps-IsLawful_example = dma_buf_heaps-IsLawful sample_calls (λ size fd. tt)

pick_dma_buf_heap-within_4g_example :
    is_system_heap (pick_dma_buf_heap sample_hal rk3588 false 0x3 sample_hal.hal_yv12) ≡ false
pick_dma_buf_heap-within_4g_example =
    pick_dma_buf_heap-within_4g sample_hal rk3588 false 0x3 sample_hal.hal_yv12 (λ same. cc)
      (inr refl)
