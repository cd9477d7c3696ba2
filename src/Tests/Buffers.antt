-- ===== src/Tests/Buffers.antt =====
-- Handles, allocators and answers of the system, for the examples of the modules on buffers.
use rk_hardware_libgralloc_b.Access.Effects.{IsLawful}
use rk_hardware_libgralloc_b.Access.Region.{AccessRegion, ErrorCodes}
use rk_hardware_libgralloc_b.Access.Sync.{Allocator}
use rk_hardware_libgralloc_b.Allocation.Stride.{PlaneInfo}
use rk_hardware_libgralloc_b.FormatInfo.{planes}
use rk_hardware_libgralloc_b.Handle.{
  HandleLayout, ImportedHandle, PrivateHandle, handle_magic, handle_type_imported, handle_type_raw,
}
use rk_hardware_libgralloc_b.Heaps.{HeapCalls, dma_buf_heaps, map_at}
use rk_hardware_libgralloc_b.Heaps.Lawful.{dma_buf_heaps-IsLawful}
use rk_hardware_libgralloc_b.Mapper.State.{ImportAnswers}
use rk_hardware_libgralloc_b.Prelude.{none, some, ℕ, ◌+◌}

abbrev pub sample_layout : HandleLayout
sample_layout = record { sizeof_native_handle = 12; private_handle_num_ints = 60 }

abbrev pub sample_codes : ErrorCodes
sample_codes = record { errno_einval = 22; gralloc1_error_unsupported = 7 }

abbrev pub sample_plane : ℕ → ℕ → ℕ → ℕ → PlaneInfo
sample_plane offset byte_stride alloc_width alloc_height = record {
  offset = offset;
  byte_stride = byte_stride;
  alloc_width = alloc_width;
  alloc_height = alloc_height;
}

-- A buffer of 64 by 32 pixels with a base format, as another process describes it.
abbrev pub sample_raw : ℕ → PrivateHandle
sample_raw base_format = record {
  version = 12;
  num_fds = 2;
  num_ints = 60;
  share_fd = 3;
  share_attr_fd = 4;
  magic = handle_magic;
  width = 64;
  height = 32;
  req_format = base_format;
  producer_usage = 0x33;
  consumer_usage = 0x33;
  stride = 64;
  alloc_format = record { m_format = base_format; m_modifiers = 0 };
  plane_info =
      planes (sample_plane 0 64 64 32) (sample_plane 2048 32 32 16) (sample_plane 2560 32 32 16);
  size = 3072;
  layer_count = 1;
  backing_store_id = 1;
  attr_size = 6480;
  reserved_region_size = 0;
  handle_type = handle_type_raw;
}

abbrev pub sample_imported : ℕ → ImportedHandle
sample_imported base_format = record {
  raw = record (sample_raw base_format) { handle_type = handle_type_imported };
  lock_count = 0;
  cpu_write = 0;
  import_pid = 9;
  base = none;
  attr_base = some 0x7000;
}

abbrev pub sample_calls : HeapCalls
sample_calls = record {
  alloc = λ heap size. 5;
  cpu_sync_start = λ fd sync_type. 0;
  cpu_sync_end = λ fd sync_type. 0;
  mmap = λ size fd. map_at 0x10000;
}

abbrev pub sample_allocator : Allocator
sample_allocator = dma_buf_heaps sample_calls

pub sample_allocator-IsLawful : IsLawful sample_allocator
sample_allocator-IsLawful = dma_buf_heaps-IsLawful sample_calls (λ size fd. tt)

abbrev pub whole_region : AccessRegion
whole_region = record { left = 0; top = 0; width = 64; height = 32 }

abbrev pub sample_answers : ImportAnswers
sample_answers = record {
  clone = record { created = some (sample_imported 0); dup = λ fd. fd + 10 };
  address = 100;
  attr_mapping = some 0x7000;
}
