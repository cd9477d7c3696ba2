-- ===== src/Mapper/Freed.antt =====
-- What the calls that work on registered buffers do right after a buffer has been freed.
use rk_hardware_libgralloc_b.Access.Region.{AccessRegion, ErrorCodes}
use rk_hardware_libgralloc_b.Access.Sync.{Allocator}
use rk_hardware_libgralloc_b.Descriptor.{DescriptorInfo}
use rk_hardware_libgralloc_b.Hal.{Hal}
use rk_hardware_libgralloc_b.Handle.{HandleLayout}
use rk_hardware_libgralloc_b.Mapper.Imported.{free_buffer-known}
use rk_hardware_libgralloc_b.Mapper.Locking.{
  FenceHandle, flush_locked_buffer, lock, reread_locked_buffer, unlock,
}
use rk_hardware_libgralloc_b.Mapper.Pool.{is_registered, pool_get, pool_remove}
use rk_hardware_libgralloc_b.Mapper.Queries.{
  get_reserved_region, get_transport_size, validate_buffer_size,
}
use rk_hardware_libgralloc_b.Mapper.Reach.{MapperReach, MapperReach-AllImported}
use rk_hardware_libgralloc_b.Mapper.Registry.{is_registered-erase}
use rk_hardware_libgralloc_b.Mapper.State.{
  MapperState, error_bad_buffer, error_none, free_buffer, registered_handle,
}
use rk_hardware_libgralloc_b.Prelude.{Option, arith, false, none, refl, true, ℕ, ◌==◌, ◌≡◌}

-- What the calls that need a registered buffer do for an address that is not registered.
pub record IsUnknown (hal : Hal) (codes : ErrorCodes) (allocator : Allocator) (pid : ℕ)
    (layout : HandleLayout) (state : MapperState) (buffer : ℕ) : Type 0 where
  pub lock_fails :
      (cpu_usage : ℕ) (region : AccessRegion) (acquire_fence : Option FenceHandle)
      → lock hal codes allocator pid layout state buffer cpu_usage region acquire_fence
        ≡ (error_bad_buffer, none, state)
  pub unlock_fails : unlock allocator layout state buffer ≡ (error_bad_buffer, state)
  pub flush_fails : flush_locked_buffer allocator layout state buffer ≡ error_bad_buffer
  pub reread_fails : reread_locked_buffer allocator layout state buffer ≡ error_bad_buffer
  pub free_fails : (free_buffer layout state buffer).0 ≡ error_bad_buffer
  pub validation_fails :
      (info : DescriptorInfo) (in_stride : ℕ)
      → validate_buffer_size layout state buffer info in_stride ≡ error_bad_buffer
  pub transport_fails : (get_transport_size layout state buffer).0 ≡ error_bad_buffer
  pub reserved_fails : (get_reserved_region layout state buffer).0 ≡ error_bad_buffer

unregistered-IsUnknown :
    (hal : Hal) (codes : ErrorCodes) (allocator : Allocator) (pid : ℕ) (layout : HandleLayout)
    (state : MapperState) (buffer : ℕ)
    → is_registered state.pool buffer ≡ false
    → IsUnknown hal codes allocator pid layout state buffer
unfolding lock unlock flush_locked_buffer reread_locked_buffer free_buffer pool_remove pool_get
    registered_handle validate_buffer_size get_transport_size get_reserved_region
unregistered-IsUnknown hal codes allocator pid layout state buffer unknown = record {
  lock_fails = λ cpu_usage region acquire_fence. rw (unknown, lock) refl;
  unlock_fails = rw (unknown, unlock) refl;
  flush_fails = rw (unknown, flush_locked_buffer) refl;
  reread_fails = rw (unknown, reread_locked_buffer) refl;
  free_fails = rw (unknown, free_buffer) refl;
  validation_fails = λ info in_stride. rw (unknown, validate_buffer_size) refl;
  transport_fails = rw (unknown, get_transport_size) refl;
  reserved_fails = rw (unknown, get_reserved_region) refl;
}

-- In a state that the mapper reaches, a registered buffer is freed without an error; after that the
-- other addresses are registered as before with the handles they had, and for the freed address a
-- lock, unlock, flush, reread, second free, validateBufferSize, getTransportSize or
-- getReservedRegion that comes next is refused as for a bad buffer, where lock and unlock leave the
-- state as it is.
pub free_buffer-IsUnknown :
    (hal : Hal) (codes : ErrorCodes) (allocator : Allocator) (pid : ℕ) (layout : HandleLayout)
    (state : MapperState) (buffer : ℕ)
    → MapperReach hal codes pid layout state
    → is_registered state.pool buffer ≡ true
    → ((free_buffer layout state buffer).0 ≡ error_none)
      × ((other : ℕ)
          → (other == buffer) ≡ false
          → (is_registered (free_buffer layout state buffer).1.pool other
              ≡ is_registered state.pool other)
            × ((free_buffer layout state buffer).1.handles other ≡ state.handles other))
      × IsUnknown hal codes allocator pid layout (free_buffer layout state buffer).1 buffer
free_buffer-IsUnknown hal codes allocator pid layout state buffer reach known =
    let all = MapperReach-AllImported hal codes pid layout state reach in
    let (handle, stored, fine) = all buffer known in
    rw (free_buffer-known layout pid state all buffer handle known stored fine) (
      refl,
      λ other distinct.
          (ground (arith, is_registered-erase state.pool buffer other, distinct), rw distinct refl),
      unregistered-IsUnknown hal codes allocator pid layout _ buffer
          (ground (arith, is_registered-erase state.pool buffer buffer)),
    )
