-- ===== src/Allocate.antt =====
-- mali_gralloc_buffer_allocate and getUniqueId of src/core/buffer_allocation.cpp: a buffer from the
-- kernel allocator, with the AFBC headers that are written into it.
pub mod Siting
use rk_hardware_libgralloc_b.Allocation.AfbcHeader.{init_afbc}
use rk_hardware_libgralloc_b.Allocation.Derive.{
  BufferDescriptor, einval, mali_gralloc_derive_format_and_size, success,
}
use rk_hardware_libgralloc_b.Capabilities.{Platform}
use rk_hardware_libgralloc_b.FormatInfo.{at}
use rk_hardware_libgralloc_b.Hal.{Hal}
use rk_hardware_libgralloc_b.Handle.{HandleLayout, PrivateHandle, is_multi_plane}
use rk_hardware_libgralloc_b.Heaps.{HeapCalls, allocator_allocate, map_at, map_failed}
use rk_hardware_libgralloc_b.InternalFormat.{is_afbc}
use rk_hardware_libgralloc_b.Prelude.{
  Bool, List, Option, [], bit_or, if◌then◌else◌, none, not, some, suc, zero, ℕ, ◌&&◌, ◌*◌, ◌+◌,
  ◌==◌, ◌^◌, ◌||◌, ◌∷◌,
}
use rk_hardware_libgralloc_b.Prelude.Bits.{has_bits}
use rk_hardware_libgralloc_b.Prelude.Words.{sign_extend, u32, u64}
use rk_hardware_libgralloc_b.Selection.Rk.{FbSize, RkProperties}
use rk_hardware_libgralloc_b.Usages.{gralloc_usage_protected}

-- The words that init_afbc writes, and where they start in the buffer.
pub record HeaderWrite : Type 0 where
  pub header_offset : ℕ
  pub header_words : List ℕ

pub record AllocatedBuffer : Type 0 where
  pub handle : PrivateHandle
  pub headers : List HeaderWrite

-- The counter of getUniqueId, the framebuffer's size, and the descriptor as it is left.
pub record AllocationState : Type 0 where
  pub counter : ℕ
  pub fb_size : FbSize
  pub descriptor : BufferDescriptor

-- The counter is an atomic uint32_t.
unfoldable pub get_unique_id : ℕ → ℕ → ℕ × ℕ
get_unique_id pid counter = (bit_or (u64 (sign_extend pid * 2 ^ 32)) counter, u32 (counter + 1))

module _ (hal : Hal) (capabilities : Platform) where
  -- The loop over the planes from `plane` on, `left` of them left.
  unfoldable pub write_plane_headers : BufferDescriptor → Bool → ℕ → ℕ → List HeaderWrite
  write_plane_headers descriptor is_multi zero plane = []
  write_plane_headers descriptor is_multi (suc left) plane =
      let rest = write_plane_headers descriptor is_multi left (plane + 1) in
      let info = at descriptor.plane_info plane in
      if (plane == 0) || not (info.byte_stride == 0)
      then record {
        header_offset = info.offset;
        header_words =
            init_afbc hal capabilities descriptor.alloc_format is_multi info.alloc_width
              info.alloc_height;
      }
        ∷ rest
      else []

  -- The headers of a buffer that is neither protected nor uncompressed, if it can be mapped.
  unfoldable pub initial_headers : HeapCalls → BufferDescriptor → PrivateHandle → List HeaderWrite
  initial_headers calls descriptor handle =
      let usage = bit_or descriptor.consumer_usage descriptor.producer_usage in
      if not (has_bits usage gralloc_usage_protected) && is_afbc descriptor.alloc_format
      then elim (calls.mmap handle.size handle.share_fd) [
        | map_at mapping ↦ write_plane_headers descriptor (is_multi_plane handle) 3 0
        | map_failed errno ↦ []
      ]
      else []

  -- `none` is a null handle.
  unfoldable pub mali_gralloc_buffer_allocate :
      RkProperties
      → HandleLayout
      → HeapCalls
      → Bool
      → Bool
      → ℕ
      → AllocationState
      → Option AllocatedBuffer × AllocationState
  mali_gralloc_buffer_allocate properties layout calls all_from_cma is_created pid state =
      let ((status, derived), next) =
        mali_gralloc_derive_format_and_size hal properties state.fb_size state.descriptor in
      let left = record state { fb_size = next; descriptor = derived } in
      elim status [
        | einval ↦ (none, left)
        | success ↦
            elim (allocator_allocate hal layout calls properties.platform all_from_cma is_created
              derived) [
                | none ↦ (none, left)
                | some handle ↦
                    let (id, counter) = get_unique_id pid state.counter in
                    (
                      some (record {
                        handle = record handle { backing_store_id = id };
                        headers = initial_headers calls derived handle;
                      }),
                      record left { counter = counter },
                    )
              ]
      ]
