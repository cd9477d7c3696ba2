-- ===== src/Mapper/Exclusive.antt =====
-- Locking for writing through the mapper. The write flag of a handle is what its latest lock made
-- it: a lock for reading that follows one for writing clears it.
use rk_hardware_libgralloc_b.Access.Region.{AccessRegion, ErrorCodes}
use rk_hardware_libgralloc_b.Access.Sync.{Allocator}
use rk_hardware_libgralloc_b.Format.{mali_gralloc_format_internal_blob}
use rk_hardware_libgralloc_b.Hal.{Hal}
use rk_hardware_libgralloc_b.Handle.{
  HandleLayout, ImportedHandle, cast_imported, handle_type_imported, is_castable,
}
use rk_hardware_libgralloc_b.InternalFormat.{get_base, invalid}
use rk_hardware_libgralloc_b.Mapper.Locking.{
  FenceHandle, get_fence_fd, is_write_conflict, lock, lock_buffer,
}
use rk_hardware_libgralloc_b.Mapper.State.{
  MapperState, error_bad_buffer, error_bad_value, error_none, registered_handle,
}
use rk_hardware_libgralloc_b.Prelude.{
  ==_iff, Bool-cases, Option, Option-cases, false, inl, inr, refl, some, sym, true, ℕ, ◌==◌, ◌∙◌,
  ◌≡◌,
}
use rk_hardware_libgralloc_b.Prelude.Bits.{has_bits}
use rk_hardware_libgralloc_b.Usages.{gralloc_usage_sw_write_mask}

lock_buffer-conflict :
    (hal : Hal) (codes : ErrorCodes) (allocator : Allocator) (pid : ℕ) (layout : HandleLayout)
    (handle : ImportedHandle) (cpu_usage : ℕ) (region : AccessRegion)
    → is_write_conflict hal handle cpu_usage ≡ true
    → (lock_buffer hal codes allocator pid layout handle cpu_usage region).error ≡ error_bad_buffer
unfolding lock_buffer cast_imported
lock_buffer-conflict hal codes allocator pid layout handle cpu_usage region conflict =
    elim (Bool-cases (is_castable layout handle_type_imported handle.raw)) [
      | inl castable ↦ rw (castable, conflict, lock_buffer) refl
      | inr other ↦ rw (other, lock_buffer) refl
    ]

write_conflict :
    (hal : Hal) (handle : ImportedHandle) (cpu_usage : ℕ)
    → (handle.cpu_write == 0) ≡ false
    → has_bits cpu_usage gralloc_usage_sw_write_mask ≡ true
    → (get_base handle.raw.alloc_format == mali_gralloc_format_internal_blob hal) ≡ false
    → is_write_conflict hal handle cpu_usage ≡ true
unfolding is_write_conflict
write_conflict hal handle cpu_usage written writes other = rw (written, writes, other) refl

-- Where a lock call for a CPU write succeeds on a registered buffer whose write flag is set, the
-- buffer is a blob.
pub lock-exclusive :
    (hal : Hal) (codes : ErrorCodes) (allocator : Allocator) (pid : ℕ) (layout : HandleLayout)
    (state : MapperState) (buffer cpu_usage : ℕ) (region : AccessRegion)
    (acquire_fence : Option FenceHandle) (handle : ImportedHandle)
    → registered_handle layout state buffer ≡ some handle
    → (handle.cpu_write == 0) ≡ false
    → has_bits cpu_usage gralloc_usage_sw_write_mask ≡ true
    → (lock hal codes allocator pid layout state buffer cpu_usage region acquire_fence).0
      ≡ error_none
    → get_base handle.raw.alloc_format ≡ mali_gralloc_format_internal_blob hal
unfolding lock
lock-exclusive hal codes allocator pid layout state buffer cpu_usage region acquire_fence handle
      found written writes succeeded =
    elim (Bool-cases (get_base handle.raw.alloc_format == mali_gralloc_format_internal_blob hal)) [
      | inl blob ↦ (==_iff _ _).0 blob
      | inr other ↦
          let conflict = write_conflict hal handle cpu_usage written writes other in
          let refused =
            lock_buffer-conflict hal codes allocator pid layout handle cpu_usage region conflict in
          elim (Option-cases (get_fence_fd acquire_fence)) [
            | inl invalid ↦
                let failed : error_bad_value ≡ error_none =
                  rw (found, invalid, lock) at succeeded in
                cc
            | inr (fd, valid) ↦
                let failed : error_bad_buffer ≡ error_none =
                  sym refused ∙ (rw (found, valid, lock) at succeeded) in
                cc
          ]
    ]
