-- ===== src/Heaps.antt =====
-- src/allocator/dma_buf_heaps/dma_buf_heaps.cpp: the allocator on DMA-BUF heaps. The calls of
-- libdmabufheap and of the kernel are a parameter. get_dma_buf_heap_name gives each heap a name of
-- its own, so that a heap stands for its name.
pub mod Placing
pub mod Lawful
use rk_hardware_libgralloc_b.Access.Region.{negated}
use rk_hardware_libgralloc_b.Access.Sync.{Allocator}
use rk_hardware_libgralloc_b.Allocation.Derive.{BufferDescriptor}
use rk_hardware_libgralloc_b.Hal.{Hal}
use rk_hardware_libgralloc_b.Handle.{
  HandleLayout, HandleRequest, ImportedHandle, PrivateHandle, make_private_handle,
}
use rk_hardware_libgralloc_b.Prelude.{
  Bool, Option, bit_and, bit_or, false, if◌then◌else◌, none, some, true, ℕ, ◌==◌, ◌||◌,
}
use rk_hardware_libgralloc_b.Prelude.Bits.{has_bits}
use rk_hardware_libgralloc_b.Prelude.Words.{is_negative, u32}
use rk_hardware_libgralloc_b.Selection.Rk.{RkPlatform, rk3326, rk356x, rk3588}
use rk_hardware_libgralloc_b.Usages.{
  gralloc_usage_hw_video_encoder, gralloc_usage_protected, gralloc_usage_sw_read_mask,
  gralloc_usage_sw_read_often, rk_gralloc_usage_phy_contig_buffer, rk_gralloc_usage_within_4g,
}

pub data DmaBufHeap : Type 0 where
  heap_system heap_system_uncached heap_physically_contiguous : DmaBufHeap
  heap_protected_memory heap_system_dma32 heap_system_uncached_dma32 : DmaBufHeap

pub data SyncType : Type 0 where
  no_sync k_sync_read k_sync_write k_sync_read_write : SyncType

-- What mmap returns: an address, or MAP_FAILED with an errno.
pub data MmapResult : Type 0 where
  map_at : ℕ → MmapResult
  map_failed : ℕ → MmapResult

-- A descriptor or a status is an `int`.
pub record HeapCalls : Type 0 where
  pub alloc : DmaBufHeap → ℕ → ℕ
  pub cpu_sync_start : ℕ → SyncType → ℕ
  pub cpu_sync_end : ℕ → SyncType → ℕ
  pub mmap : ℕ → ℕ → MmapResult

unfoldable pub does_usage_have_flag : ℕ → ℕ → Bool
does_usage_have_flag usage flag = flag == bit_and usage flag

unfoldable pub is_platform_rk356x : RkPlatform → Bool
is_platform_rk356x rk3326 = false
is_platform_rk356x rk356x = true
is_platform_rk356x rk3588 = false

unfoldable pub is_platform_rk3588 : RkPlatform → Bool
is_platform_rk3588 rk3326 = false
is_platform_rk3588 rk356x = false
is_platform_rk3588 rk3588 = true

unfoldable pub does_hal_format_need_buffer_within_4g : Hal → ℕ → Bool
does_hal_format_need_buffer_within_4g hal hal_format = hal.hal_yv12 == hal_format

-- `usage` with the flag that the platform adds.
unfoldable pub add_within_4g : Hal → RkPlatform → ℕ → ℕ → ℕ
add_within_4g hal platform usage hal_format =
    if is_platform_rk356x platform || is_platform_rk3588 platform
    then (if does_usage_have_flag usage gralloc_usage_hw_video_encoder
        then bit_or usage rk_gralloc_usage_within_4g
        else if does_hal_format_need_buffer_within_4g hal hal_format
        then bit_or usage rk_gralloc_usage_within_4g
        else usage)
    else usage

abbrev pub is_read_often : ℕ → Bool
is_read_often usage = bit_and usage gralloc_usage_sw_read_mask == gralloc_usage_sw_read_often

unfoldable pub pick_unprotected : ℕ → DmaBufHeap
pick_unprotected usage =
    if has_bits usage rk_gralloc_usage_phy_contig_buffer
    then heap_physically_contiguous
    else if has_bits usage rk_gralloc_usage_within_4g
    then (if is_read_often usage then heap_system_dma32 else heap_system_uncached_dma32)
    else if is_read_often usage
    then heap_system
    else heap_system_uncached

-- `all_from_cma` is the property vendor.gralloc.alloc_all_buf_from_cma_heap.
unfoldable pub pick_dma_buf_heap : Hal → RkPlatform → Bool → ℕ → ℕ → DmaBufHeap
pick_dma_buf_heap hal platform all_from_cma usage hal_format =
    if all_from_cma
    then heap_physically_contiguous
    else if has_bits usage gralloc_usage_protected
    then heap_protected_memory
    else pick_unprotected (add_within_4g hal platform usage hal_format)

-- The size goes from size_t to `int` in the handle, and the HAL format from 64 bits.
unfoldable pub handle_request : BufferDescriptor → ℕ → HandleRequest
handle_request descriptor fd = record {
  in_size = u32 descriptor.size;
  in_consumer_usage = descriptor.consumer_usage;
  in_producer_usage = descriptor.producer_usage;
  in_shared_fd = fd;
  in_req_format = u32 descriptor.hal_format;
  in_alloc_format = descriptor.alloc_format;
  in_width = descriptor.width;
  in_height = descriptor.height;
  in_layer_count = descriptor.layer_count;
  in_plane_info = descriptor.plane_info;
  in_stride = descriptor.pixel_stride;
}

unfoldable pub allocator_allocate :
    Hal
    → HandleLayout
    → HeapCalls
    → RkPlatform
    → Bool
    → Bool
    → BufferDescriptor
    → Option PrivateHandle
allocator_allocate hal layout calls platform all_from_cma is_created descriptor =
    let usage = bit_or descriptor.consumer_usage descriptor.producer_usage in
    let heap = pick_dma_buf_heap hal platform all_from_cma usage descriptor.hal_format in
    let fd = calls.alloc heap descriptor.size in
    if is_negative fd
    then none
    else make_private_handle layout is_created (handle_request descriptor fd)

unfoldable pub make_sync_type : Bool → Bool → SyncType
make_sync_type true true = k_sync_read_write
make_sync_type true false = k_sync_read
make_sync_type false true = k_sync_write
make_sync_type false false = no_sync

unfoldable pub heap_map : HeapCalls → ImportedHandle → ℕ × ImportedHandle
heap_map calls handle = elim (calls.mmap handle.raw.size handle.raw.share_fd) [
  | map_at mapping ↦ (0, record handle { base = some mapping })
  | map_failed errno ↦ (negated errno, handle)
]

-- A failure of munmap is only logged.
unfoldable pub heap_unmap : ImportedHandle → ImportedHandle
heap_unmap handle = record handle { base = none; cpu_write = 0; lock_count = 0 }

abbrev pub dma_buf_heaps : HeapCalls → Allocator
dma_buf_heaps calls = record {
  allocator_sync_start = λ handle cpu_read cpu_write.
      calls.cpu_sync_start handle.raw.share_fd (make_sync_type cpu_read cpu_write);
  allocator_sync_end = λ handle cpu_read cpu_write.
      calls.cpu_sync_end handle.raw.share_fd (make_sync_type cpu_read cpu_write);
  allocator_map = heap_map calls;
  allocator_unmap = heap_unmap;
}
