-- ===== src/Mapper/Locking.antt =====
-- lock, unlock, flushLockedBuffer and rereadLockedBuffer of src/idl_common/mapper/mapper.cpp, with
-- lockBuffer and unlockBuffer. Waiting for a fence changes nothing here, and the fence that unlock
-- returns is always -1, no fence.
use rk_hardware_libgralloc_b.Access.Lock.{LockResult, mali_gralloc_lock}
use rk_hardware_libgralloc_b.Access.Region.{AccessRegion, ErrorCodes, negated}
use rk_hardware_libgralloc_b.Access.Sync.{Allocator, mali_gralloc_unlock}
use rk_hardware_libgralloc_b.Format.{mali_gralloc_format_internal_blob}
use rk_hardware_libgralloc_b.Hal.{Hal}
use rk_hardware_libgralloc_b.Handle.{HandleLayout, ImportedHandle, cast_imported, minus_one}
use rk_hardware_libgralloc_b.InternalFormat.{get_base}
use rk_hardware_libgralloc_b.Mapper.Pool.{pool_get}
use rk_hardware_libgralloc_b.Mapper.State.{
  Error, MapperState, error_bad_buffer, error_bad_value, error_no_resources, error_none,
  registered_handle, store,
}
use rk_hardware_libgralloc_b.Prelude.{
  Bool, Option, false, if◌then◌else◌, none, not, some, true, ℕ, ◌&&◌, ◌==◌,
}
use rk_hardware_libgralloc_b.Prelude.Bits.{has_bits}
use rk_hardware_libgralloc_b.Prelude.Words.{int_lt, is_negative}
use rk_hardware_libgralloc_b.Usages.{gralloc_usage_sw_write_mask}

-- The native handle of a hidl_handle for a fence.
pub record FenceHandle : Type 0 where
  pub num_fds : ℕ
  pub data_0 : ℕ

-- getFenceFd: `none` for an invalid handle, otherwise the descriptor, or -1.
unfoldable pub get_fence_fd : Option FenceHandle → Option ℕ
get_fence_fd none = some minus_one
get_fence_fd (some fence) =
    if int_lt 1 fence.num_fds
    then none
    else if fence.num_fds == 1
    then some fence.data_0
    else some minus_one

pub record LockReply : Type 0 where
  pub error : Error
  pub lock_data : Option ℕ
  pub buffer : ImportedHandle

-- The error that lockBuffer reports for a status that is not 0.
unfoldable pub error_of_status : ErrorCodes → ℕ → Error
error_of_status codes status =
    if status == codes.gralloc1_error_unsupported
    then error_bad_buffer
    else if status == negated codes.errno_einval
    then error_bad_value
    else error_no_resources

-- A write lock on a buffer that is locked for writing, unless it is a blob.
unfoldable pub is_write_conflict : Hal → ImportedHandle → ℕ → Bool
is_write_conflict hal handle cpu_usage =
    not (handle.cpu_write == 0)
    && has_bits cpu_usage gralloc_usage_sw_write_mask
    && not (get_base handle.raw.alloc_format == mali_gralloc_format_internal_blob hal)

unfoldable pub reply_of_lock : ErrorCodes → LockResult → LockReply
reply_of_lock codes result =
    if result.status == 0
    then record { error = error_none; lock_data = result.vaddr; buffer = result.buffer }
    else record {
      error = error_of_status codes result.status;
      lock_data = none;
      buffer = result.buffer;
    }

module _ (hal : Hal) (codes : ErrorCodes) (allocator : Allocator) (pid : ℕ) where
  unfoldable pub lock_buffer : HandleLayout → ImportedHandle → ℕ → AccessRegion → LockReply
  lock_buffer layout handle cpu_usage region = elim (cast_imported layout (some handle)) [
    | none ↦ record { error = error_bad_buffer; lock_data = none; buffer = handle }
    | some checked ↦
        if is_write_conflict hal checked cpu_usage
        then record { error = error_bad_buffer; lock_data = none; buffer = checked }
        else reply_of_lock codes
            (mali_gralloc_lock hal codes allocator pid checked cpu_usage region true)
  ]

unfoldable pub unlock_buffer :
    Allocator → HandleLayout → Option ImportedHandle → Error × Option ImportedHandle
unlock_buffer allocator layout buffer = elim (cast_imported layout buffer) [
  | none ↦ (error_bad_buffer, buffer)
  | some handle ↦
      if handle.lock_count == 0
      then (error_bad_buffer, buffer)
      else (error_none, some (mali_gralloc_unlock allocator handle))
]

-- The state after a call on the handle at an address.
abbrev pub update : MapperState → ℕ → Option ImportedHandle → MapperState
update state address content = record state { handles = store state.handles address content }

module _ (hal : Hal) (codes : ErrorCodes) (allocator : Allocator) (pid : ℕ)
    (layout : HandleLayout) where
  unfoldable pub lock :
      MapperState → ℕ → ℕ → AccessRegion → Option FenceHandle → Error × Option ℕ × MapperState
  lock state buffer cpu_usage region acquire_fence = elim (registered_handle layout state buffer) [
    | none ↦ (error_bad_buffer, none, state)
    | some handle ↦ elim (get_fence_fd acquire_fence) [
      | none ↦ (error_bad_value, none, state)
      | some _ ↦
          let reply = lock_buffer hal codes allocator pid layout handle cpu_usage region in
          (reply.error, reply.lock_data, update state buffer (some reply.buffer))
    ]
  ]

unfoldable pub unlock : Allocator → HandleLayout → MapperState → ℕ → Error × MapperState
unlock allocator layout state buffer = elim (pool_get state.pool buffer) [
  | none ↦ (error_bad_buffer, state)
  | some address ↦
      let (error, content) = unlock_buffer allocator layout (state.handles address) in
      (error, update state address content)
]

-- The status of the flush is not looked at, nor that of the invalidation.
unfoldable pub flush_locked_buffer : Allocator → HandleLayout → MapperState → ℕ → Error
flush_locked_buffer allocator layout state buffer = elim (registered_handle layout state buffer) [
  | none ↦ error_bad_buffer
  | some handle ↦
      let status = allocator.allocator_sync_end handle false true in
      if handle.lock_count == 0
      then error_bad_buffer
      else if is_negative status
      then error_none
      else error_none
]

unfoldable pub reread_locked_buffer : Allocator → HandleLayout → MapperState → ℕ → Error
reread_locked_buffer allocator layout state buffer = elim (registered_handle layout state buffer) [
  | none ↦ error_bad_buffer
  | some handle ↦
      let status = allocator.allocator_sync_start handle true false in
      if handle.lock_count == 0
      then error_bad_buffer
      else if is_negative status
      then error_none
      else error_none
]
