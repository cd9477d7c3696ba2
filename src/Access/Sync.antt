-- ===== src/Access/Sync.antt =====
-- src/allocator/allocator.h, the operations on an imported buffer, and get_tx_direction,
-- buffer_sync, mali_map_buffer, mali_unmap_buffer and mali_gralloc_unlock of
-- src/core/buffer_access.cpp.
use rk_hardware_libgralloc_b.Handle.{ImportedHandle}
use rk_hardware_libgralloc_b.Prelude.{
  Bool, false, if◌then◌else◌, none, not, some, true, ℕ, ◌+◌, ◌-◌, ◌==◌,
}
use rk_hardware_libgralloc_b.Prelude.Bits.{has_bits}
use rk_hardware_libgralloc_b.Prelude.Words.{int_lt, is_negative, u32}
use rk_hardware_libgralloc_b.Usages.{gralloc_usage_sw_read_mask, gralloc_usage_sw_write_mask}

-- A status is an `int`: 0, or a negative error.
pub record Allocator : Type 0 where
  pub allocator_sync_start : ImportedHandle → Bool → Bool → ℕ
  pub allocator_sync_end : ImportedHandle → Bool → Bool → ℕ
  pub allocator_map : ImportedHandle → ℕ × ImportedHandle
  pub allocator_unmap : ImportedHandle → ImportedHandle

pub data TxDirection : Type 0 where
  tx_none tx_to_device tx_from_device tx_both : TxDirection

unfoldable pub tx_direction : Bool → Bool → TxDirection
tx_direction true true = tx_both
tx_direction false true = tx_to_device
tx_direction true false = tx_from_device
tx_direction false false = tx_none

unfoldable pub get_tx_direction : ℕ → TxDirection
get_tx_direction usage =
    tx_direction (has_bits usage gralloc_usage_sw_read_mask)
      (has_bits usage gralloc_usage_sw_write_mask)

-- A failure of allocator_sync_start returns early, with nothing left to do.
unfoldable pub start_access : Allocator → ImportedHandle → Bool → Bool → ImportedHandle
start_access allocator hnd cpu_read cpu_write =
    let locked = record hnd {
      lock_count = u32 (hnd.lock_count + 1);
      cpu_write = if cpu_write then 1 else 0;
    } in
    let status = allocator.allocator_sync_start locked cpu_read cpu_write in
    if is_negative status then locked else locked

-- `lock_count > 0` reads an `int`. The write flag goes with the last lock.
unfoldable pub drop_lock : ImportedHandle → ImportedHandle
drop_lock hnd =
    let lock_count = if int_lt 0 hnd.lock_count then hnd.lock_count - 1 else 0 in
    record hnd { lock_count = lock_count; cpu_write = if lock_count == 0 then 0 else hnd.cpu_write }

unfoldable pub end_access : Allocator → ImportedHandle → ImportedHandle
end_access allocator hnd =
    if hnd.cpu_write == 0
    then drop_lock hnd
    else if is_negative (allocator.allocator_sync_end hnd false (not (hnd.cpu_write == 0)))
    then hnd
    else drop_lock hnd

unfoldable pub buffer_sync : Allocator → ImportedHandle → TxDirection → ImportedHandle
buffer_sync allocator hnd tx_none = end_access allocator hnd
buffer_sync allocator hnd tx_to_device = start_access allocator hnd false true
buffer_sync allocator hnd tx_from_device = start_access allocator hnd true false
buffer_sync allocator hnd tx_both = start_access allocator hnd true true

unfoldable pub mali_map_buffer : Allocator → ImportedHandle → ℕ × ImportedHandle
mali_map_buffer allocator hnd = elim hnd.base [
  | none ↦ allocator.allocator_map hnd
  | some _ ↦ (0, hnd)
]

unfoldable pub mali_unmap_buffer : Allocator → ImportedHandle → ImportedHandle
mali_unmap_buffer allocator hnd = elim hnd.base [
  | none ↦ hnd
  | some _ ↦ record (allocator.allocator_unmap hnd) { base = none; cpu_write = 0; lock_count = 0 }
]

-- The status is 0 in any case.
unfoldable pub mali_gralloc_unlock : Allocator → ImportedHandle → ImportedHandle
mali_gralloc_unlock allocator hnd = buffer_sync allocator hnd tx_none
