-- ===== src/Access/Sessions.antt =====
-- The life of a locked buffer: sequences of the operations of Access on one imported handle, each
-- step with an allocator of its own, so that no two answers of the system have to agree.
use mathlib.Core.Path.{subst}
use rk_hardware_libgralloc_b.Access.Effects.{
  CheckedEffect, Effect, IsLawful, keeps, locks, mali_gralloc_lock-Effect,
  mali_gralloc_lock_flex-Effect, mali_gralloc_lock_ycbcr-Effect, mali_gralloc_unlock-Effect,
  mali_unmap_buffer-Effect, releases, unlocks,
}
use rk_hardware_libgralloc_b.Access.Flex.{mali_gralloc_lock_flex}
use rk_hardware_libgralloc_b.Access.Lock.{YcbcrResult, mali_gralloc_lock, mali_gralloc_lock_ycbcr}
use rk_hardware_libgralloc_b.Access.Region.{AccessRegion, ErrorCodes}
use rk_hardware_libgralloc_b.Access.Sync.{
  Allocator, drop_lock, mali_gralloc_unlock, mali_unmap_buffer,
}
use rk_hardware_libgralloc_b.Hal.{Hal}
use rk_hardware_libgralloc_b.Handle.{ImportedHandle}
use rk_hardware_libgralloc_b.InternalFormat.{ok}
use rk_hardware_libgralloc_b.Prelude.{
  Bool, arith, inl, inr, refl, suc, zero, ℕ, ◌+◌, ◌-◌, ◌<◌, ◌^◌, ◌∙◌, ◌≡◌, ◌≤◌, ◌⊎◌,
}
use rk_hardware_libgralloc_b.Prelude.Words.{int_lt-small, u32}

module _ (hal : Hal) (codes : ErrorCodes) (pid : ℕ) where
  pub data AccessStep (hnd after : ImportedHandle) : Type 0 where
    lock_step :
        (allocator : Allocator) (usage : ℕ) (region : AccessRegion) (vaddr_given : Bool)
        → IsLawful allocator
        → after ≡ (mali_gralloc_lock hal codes allocator pid hnd usage region vaddr_given).buffer
        → AccessStep hnd after
    flex_step :
        (allocator : Allocator) (usage : ℕ) (region : AccessRegion)
        → IsLawful allocator
        → after ≡ (mali_gralloc_lock_flex hal codes allocator pid hnd usage region).flex_buffer
        → AccessStep hnd after
    ycbcr_step :
        (allocator : Allocator) (usage : ℕ) (region : AccessRegion) (ycbcr_given : Bool)
        (result : YcbcrResult)
        → IsLawful allocator
        → mali_gralloc_lock_ycbcr hal codes allocator pid hnd usage region ycbcr_given ≡ ok result
        → after ≡ result.ycbcr_buffer
        → AccessStep hnd after
    unlock_step :
        (allocator : Allocator) → after ≡ mali_gralloc_unlock allocator hnd → AccessStep hnd after
    unmap_step :
        (allocator : Allocator)
        → IsLawful allocator
        → after ≡ mali_unmap_buffer allocator hnd
        → AccessStep hnd after

  -- After `steps` operations.
  pub data AccessReach (start : ImportedHandle) : ℕ → ImportedHandle → Type 0 where
    initially : AccessReach start 0 start
    and_then :
        {steps : ℕ} {hnd after : ImportedHandle}
        → AccessReach start steps hnd
        → AccessStep hnd after
        → AccessReach start (suc steps) after

  AccessStep-Effect : {hnd after : ImportedHandle} → AccessStep hnd after → Effect hnd after
  AccessStep-Effect {hnd} (lock_step allocator usage region vaddr_given lawful e) =
      rw e (mali_gralloc_lock-Effect hal codes allocator pid lawful hnd usage region vaddr_given)
  AccessStep-Effect {hnd} (flex_step allocator usage region lawful e) =
      rw e (mali_gralloc_lock_flex-Effect hal codes allocator pid lawful hnd usage region)
  AccessStep-Effect {hnd} (ycbcr_step allocator usage region ycbcr_given result lawful ran e) =
      let effect =
        mali_gralloc_lock_ycbcr-Effect hal codes allocator pid lawful hnd usage region
          ycbcr_given in
      rw e (subst (CheckedEffect hnd) ran effect)
  AccessStep-Effect {hnd} (unlock_step allocator e) =
      rw e (mali_gralloc_unlock-Effect allocator hnd)
  AccessStep-Effect {hnd} (unmap_step allocator lawful e) =
      rw e (mali_unmap_buffer-Effect allocator lawful hnd)

-- What holds of a handle whose locks number at most `bound`: a write lock is a lock.
pub record IsConsistent (start : ImportedHandle) (bound : ℕ) (hnd : ImportedHandle) : Type 0 where
  pub same_raw : hnd.raw ≡ start.raw
  pub same_pid : hnd.import_pid ≡ start.import_pid
  pub count_bound : hnd.lock_count ≤ bound
  pub write_is_locked : (hnd.cpu_write ≡ 0) ⊎ (0 < hnd.lock_count)

pub drop_lock-count :
    (hnd : ImportedHandle)
    → hnd.lock_count < 2 ^ 31
    → (drop_lock hnd).lock_count ≡ hnd.lock_count - 1
unfolding drop_lock
drop_lock-count hnd small = rw (int_lt-small 0 hnd.lock_count (omega arith) small) (ground arith)

pub drop_lock-write :
    (hnd : ImportedHandle) → ((drop_lock hnd).cpu_write ≡ 0) ⊎ (0 < (drop_lock hnd).lock_count)
unfolding drop_lock
drop_lock-write hnd = ground arith

pub drop_lock-raw : (hnd : ImportedHandle) → (drop_lock hnd).raw ≡ hnd.raw
unfolding drop_lock
drop_lock-raw hnd = refl

pub drop_lock-import_pid : (hnd : ImportedHandle) → (drop_lock hnd).import_pid ≡ hnd.import_pid
unfolding drop_lock
drop_lock-import_pid hnd = refl

-- Room for one more lock is enough for any operation.
pub Effect-IsConsistent :
    (start hnd after : ImportedHandle) (bound : ℕ)
    → suc bound < 2 ^ 31
    → Effect hnd after
    → IsConsistent start bound hnd
    → IsConsistent start (suc bound) after
Effect-IsConsistent start hnd after bound small (keeps pointer e) c = rw e (record {
  same_raw = c.same_raw;
  same_pid = c.same_pid;
  count_bound = omega (arith, c.count_bound);
  write_is_locked = c.write_is_locked;
})
Effect-IsConsistent start hnd after bound small (locks pointer written e) c =
    let no_wrap : u32 (hnd.lock_count + 1) ≡ suc hnd.lock_count = omega (arith, c.count_bound) in
    rw e (record {
      same_raw = c.same_raw;
      same_pid = c.same_pid;
      count_bound = omega (arith, no_wrap, c.count_bound);
      write_is_locked = inr (omega (arith, no_wrap));
    })
Effect-IsConsistent start hnd after bound small (unlocks pointer e) c = rw e (record {
  same_raw = drop_lock-raw (record hnd { base = pointer }) ∙ c.same_raw;
  same_pid = drop_lock-import_pid (record hnd { base = pointer }) ∙ c.same_pid;
  count_bound = omega (
    arith,
    drop_lock-count (record hnd { base = pointer }) (omega (arith, c.count_bound)),
    c.count_bound,
  );
  write_is_locked = drop_lock-write (record hnd { base = pointer });
})
Effect-IsConsistent start hnd after bound small (releases e) c = rw e (record {
  same_raw = c.same_raw;
  same_pid = c.same_pid;
  count_bound = omega arith;
  write_is_locked = inl refl;
})

module _ (hal : Hal) (codes : ErrorCodes) (pid : ℕ) where
  -- Any sequence of fewer than 2^31 lock, unlock and unmap calls, from a handle that is not locked,
  -- leaves the handle's description as it was and a lock count of at most the number of calls; the
  -- handle has no write flag unless its lock count is positive.
  pub AccessReach-IsConsistent :
      (start : ImportedHandle) (steps : ℕ) (hnd : ImportedHandle)
      → start.lock_count ≡ 0
      → start.cpu_write ≡ 0
      → steps < 2 ^ 31
      → AccessReach hal codes pid start steps hnd
      → IsConsistent start steps hnd
  AccessReach-IsConsistent start zero hnd free clean small initially = record {
    same_raw = refl;
    same_pid = refl;
    count_bound = omega arith;
    write_is_locked = inl clean;
  }
  AccessReach-IsConsistent start (suc steps) after free clean small (and_then reach step) =
      Effect-IsConsistent start _ after steps small (AccessStep-Effect hal codes pid step)
        (AccessReach-IsConsistent start steps _ free clean (omega arith) reach)
