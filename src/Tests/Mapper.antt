-- ===== src/Tests/Mapper.antt =====
-- Examples of the mapper's calls.
use rk_hardware_libgralloc_b.Access.Lock.{lock_for_cpu, lock_mapped, mali_gralloc_lock}
use rk_hardware_libgralloc_b.Access.Region.{is_inside, validate_lock_input_parameters}
use rk_hardware_libgralloc_b.Access.Sync.{mali_map_buffer}
use rk_hardware_libgralloc_b.Allocation.Stride.{has_cpu_usage}
use rk_hardware_libgralloc_b.Descriptor.{DescriptorInfo}
use rk_hardware_libgralloc_b.Format.{
  mali_gralloc_format_get_base, mali_gralloc_format_internal_blob,
  mali_gralloc_format_internal_nv12,
}
use rk_hardware_libgralloc_b.FormatInfo.{find_format, formats, get_format_info}
use rk_hardware_libgralloc_b.Hal.{sample_hal}
use rk_hardware_libgralloc_b.Handle.{
  ImportedHandle, cast_imported, cast_private, clone_descriptors, imported_copy, is_castable,
  make_imported_handle,
}
use rk_hardware_libgralloc_b.InternalFormat.{get_base}
use rk_hardware_libgralloc_b.Mapper.Exclusive.{lock-exclusive}
use rk_hardware_libgralloc_b.Mapper.Freed.{IsUnknown, free_buffer-IsUnknown}
use rk_hardware_libgralloc_b.Mapper.Imported.{AllImported}
use rk_hardware_libgralloc_b.Mapper.Locking.{
  get_fence_fd, is_write_conflict, lock, lock_buffer, reply_of_lock,
}
use rk_hardware_libgralloc_b.Mapper.Matching.{validate_buffer_size-accepts}
use rk_hardware_libgralloc_b.Mapper.Pool.{is_registered, pool_add, pool_get, pool_remove}
use rk_hardware_libgralloc_b.Mapper.Queries.{validate_buffer_size}
use rk_hardware_libgralloc_b.Mapper.Reach.{
  MapperReach, MapperReach-AllImported, after_call, empty_pool, import_step,
}
use rk_hardware_libgralloc_b.Mapper.Registry.{Represents, deleted, inserted, pool-refines}
use rk_hardware_libgralloc_b.Mapper.State.{
  MapperState, error_none, free_buffer, import_buffer, register_handle, registered_handle,
}
use rk_hardware_libgralloc_b.Prelude.{
  [], false, if◌then◌else◌, none, not, refl, some, true, ℕ, ◌==◌, ◌↔◌, ◌∷◌, ◌≡◌, ◌⊎◌,
}
use rk_hardware_libgralloc_b.Prelude.Words.{int_lt}
use rk_hardware_libgralloc_b.Tests.Buffers.{
  sample_allocator, sample_answers, sample_codes, sample_imported, sample_layout, sample_raw,
  whole_region,
}

pool-refines_example :
    ((pool_add (1 ∷ 2 ∷ []) 3).0 ≡ not (is_registered (1 ∷ 2 ∷ []) 3))
    × Represents (pool_add (1 ∷ 2 ∷ []) 3).1 (inserted (is_registered (1 ∷ 2 ∷ [])) 3)
    × ((pool_remove (1 ∷ 2 ∷ []) 3).0 ≡ (if is_registered (1 ∷ 2 ∷ []) 3 then some 3 else none))
    × Represents (pool_remove (1 ∷ 2 ∷ []) 3).1 (deleted (is_registered (1 ∷ 2 ∷ [])) 3)
    × (pool_get (1 ∷ 2 ∷ []) 3 ≡ (if is_registered (1 ∷ 2 ∷ []) 3 then some 3 else none))
pool-refines_example = pool-refines (1 ∷ 2 ∷ []) (is_registered (1 ∷ 2 ∷ [])) 3 (λ address. refl)

-- After an import into the empty pool.
unfoldable pub one_buffer : MapperState
one_buffer =
    (import_buffer sample_layout sample_answers 9 (record { pool = []; handles = λ address. none })
      (some (sample_raw mali_gralloc_format_internal_nv12))).state

no_buffer-unregistered : is_registered [] 100 ≡ false
unfolding is_registered
no_buffer-unregistered = refl

one_buffer-reached : MapperReach sample_hal sample_codes 9 sample_layout one_buffer
unfolding one_buffer
one_buffer-reached = after_call (empty_pool (λ address. none)) (
    import_step sample_answers (some (sample_raw mali_gralloc_format_internal_nv12))
      no_buffer-unregistered refl)

one_buffer-registered : is_registered one_buffer.pool 100 ≡ true
unfolding one_buffer import_buffer cast_private is_castable int_lt make_imported_handle
    clone_descriptors imported_copy register_handle pool_add is_registered
one_buffer-registered = refl

MapperReach-AllImported_example : AllImported sample_layout 9 one_buffer
MapperReach-AllImported_example =
    MapperReach-AllImported sample_hal sample_codes 9 sample_layout one_buffer one_buffer-reached

free_buffer-IsUnknown_example :
    ((free_buffer sample_layout one_buffer 100).0 ≡ error_none)
    × ((other : ℕ)
        → (other == 100) ≡ false
        → (is_registered (free_buffer sample_layout one_buffer 100).1.pool other
            ≡ is_registered one_buffer.pool other)
          × ((free_buffer sample_layout one_buffer 100).1.handles other ≡ one_buffer.handles other))
    × IsUnknown sample_hal sample_codes sample_allocator 9 sample_layout
        (free_buffer sample_layout one_buffer 100).1
        100
free_buffer-IsUnknown_example =
    free_buffer-IsUnknown sample_hal sample_codes sample_allocator 9 sample_layout one_buffer 100
      one_buffer-reached one_buffer-registered

-- A blob that is locked for writing.
abbrev blob_id : ℕ
blob_id = mali_gralloc_format_internal_blob sample_hal

abbrev written_blob : ImportedHandle
written_blob = record (sample_imported blob_id) {
  lock_count = 1;
  cpu_write = 1;
  base = some 0x10000;
}

abbrev blob_state : MapperState
blob_state = record { pool = 100 ∷ []; handles = λ address. some written_blob }

blob_state-found : registered_handle sample_layout blob_state 100 ≡ some written_blob
unfolding registered_handle pool_get is_registered cast_imported is_castable int_lt
blob_state-found = refl

blob_lock-succeeds :
    (lock sample_hal sample_codes sample_allocator 9 sample_layout blob_state 100 0x30 whole_region
      none).0
    ≡ error_none
unfolding lock registered_handle pool_get is_registered cast_imported is_castable int_lt
    get_fence_fd lock_buffer is_write_conflict reply_of_lock mali_gralloc_lock
    validate_lock_input_parameters is_inside get_format_info find_format formats lock_for_cpu
    has_cpu_usage mali_map_buffer lock_mapped mali_gralloc_format_get_base
blob_lock-succeeds = refl

lock-exclusive_example :
    get_base written_blob.raw.alloc_format ≡ mali_gralloc_format_internal_blob sample_hal
lock-exclusive_example =
    lock-exclusive sample_hal sample_codes sample_allocator 9 sample_layout blob_state 100 0x30
      whole_region none written_blob blob_state-found refl refl blob_lock-succeeds

abbrev sample_description : DescriptorInfo
sample_description = record {
  name = 65 ∷ [];
  width = 64;
  height = 32;
  layer_count = 1;
  format = blob_id;
  usage = 0x33;
  reserved_size = 0;
}

validate_buffer_size-accepts_example :
    (validate_buffer_size sample_layout blob_state 100 sample_description 64 ≡ error_none) ↔ (
      (handle : ImportedHandle) × (registered_handle sample_layout blob_state 100 ≡ some handle)
      × (handle.raw.width ≡ 64)
      × (handle.raw.height ≡ 32)
      × (handle.raw.layer_count ≡ 1)
      × ((sample_description.width ≡ 0) ⊎ (handle.raw.stride ≡ 64))
      × (handle.raw.req_format ≡ blob_id))
validate_buffer_size-accepts_example =
    validate_buffer_size-accepts sample_layout blob_state 100 sample_description 64
