-- ===== src/Access/Release.antt =====
-- Unlocking a buffer as often as it is locked.
use rk_hardware_libgralloc_b.Access.Sessions.{drop_lock-count, drop_lock-write}
use rk_hardware_libgralloc_b.Access.Sync.{
  Allocator, buffer_sync, drop_lock, end_access, mali_gralloc_unlock,
}
use rk_hardware_libgralloc_b.Handle.{ImportedHandle}
use rk_hardware_libgralloc_b.Prelude.{
  Bool, Bool-cases, arith, false, inl, inr, refl, suc, zero, ℕ, ◌<◌, ◌==◌, ◌^◌, ◌≡◌, ◌⊎◌,
}
use rk_hardware_libgralloc_b.Prelude.Words.{is_negative}

-- `count` calls of mali_gralloc_unlock.
unfoldable pub unlock_times : Allocator → ℕ → ImportedHandle → ImportedHandle
unlock_times allocator zero hnd = hnd
unlock_times allocator (suc count) hnd =
    unlock_times allocator count (mali_gralloc_unlock allocator hnd)

unlock-drops :
    (allocator : Allocator) (hnd : ImportedHandle)
    → ((h : ImportedHandle) (cpu_read cpu_write : Bool)
        → is_negative (allocator.allocator_sync_end h cpu_read cpu_write) ≡ false)
    → mali_gralloc_unlock allocator hnd ≡ drop_lock hnd
unfolding mali_gralloc_unlock buffer_sync end_access
unlock-drops allocator hnd flushes = elim (Bool-cases (hnd.cpu_write == 0)) [
  | inl clean ↦ rw clean refl
  | inr dirty ↦ simp (dirty, flushes) refl
]

-- A buffer whose lock count is positive as an `int`, and has no write flag unless it is locked, is
-- released by that many unlock calls, where the allocator's flushes do not fail: its lock count and
-- its write flag are 0 then.
pub unlock_times-releases :
    (allocator : Allocator) (count : ℕ) (hnd : ImportedHandle)
    → ((h : ImportedHandle) (cpu_read cpu_write : Bool)
        → is_negative (allocator.allocator_sync_end h cpu_read cpu_write) ≡ false)
    → hnd.lock_count ≡ count
    → count < 2 ^ 31
    → (hnd.cpu_write ≡ 0) ⊎ (0 < hnd.lock_count)
    → ((unlock_times allocator count hnd).lock_count ≡ 0)
      × ((unlock_times allocator count hnd).cpu_write ≡ 0)
unfolding unlock_times
unlock_times-releases allocator zero hnd flushes same small (inl clean) = (same, clean)
unlock_times-releases allocator zero hnd flushes same small (inr written) = absurd (omega arith)
unlock_times-releases allocator (suc count) hnd flushes same small written =
    rw (unlock_times, unlock-drops allocator hnd flushes)
      (unlock_times-releases allocator count (drop_lock hnd) flushes
        (omega (arith, drop_lock-count hnd (omega arith))) (omega arith) (drop_lock-write hnd))
