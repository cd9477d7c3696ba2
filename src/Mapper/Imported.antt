-- ===== src/Mapper/Imported.antt =====
-- Every registered handle is an imported handle of this process: freeing, locking and unlocking one
-- keep it so.
use rk_hardware_libgralloc_b.Access.Effects.{
  Effect, IsLawful, keeps, locks, mali_gralloc_lock-Effect, mali_gralloc_unlock-Effect, releases,
  unchanged, unlocks,
}
use rk_hardware_libgralloc_b.Access.Lock.{mali_gralloc_lock}
use rk_hardware_libgralloc_b.Access.Region.{AccessRegion, ErrorCodes}
use rk_hardware_libgralloc_b.Access.Sessions.{drop_lock-import_pid, drop_lock-raw}
use rk_hardware_libgralloc_b.Access.Sync.{Allocator, mali_gralloc_unlock}
use rk_hardware_libgralloc_b.Hal.{Hal}
use rk_hardware_libgralloc_b.Handle.{
  HandleLayout, ImportedHandle, cast_imported, handle_type_imported, is_castable,
}
use rk_hardware_libgralloc_b.InternalFormat.{invalid}
use rk_hardware_libgralloc_b.Mapper.Locking.{
  FenceHandle, get_fence_fd, is_write_conflict, lock, lock_buffer, reply_of_lock, unlock,
  unlock_buffer, update,
}
use rk_hardware_libgralloc_b.Mapper.Pool.{erase, is_registered, pool_get, pool_remove}
use rk_hardware_libgralloc_b.Mapper.Registry.{is_registered-erase}
use rk_hardware_libgralloc_b.Mapper.State.{
  MapperState, error_bad_buffer, error_none, free_buffer, registered_handle, store,
}
use rk_hardware_libgralloc_b.Prelude.{
  Bool-cases, Option, Option-cases, arith, false, inl, inr, none, refl, some, true, ℕ, ◌==◌, ◌∙◌,
  ◌≡◌, ◌⊎◌,
}

-- What every registered address holds: an imported handle of this process.
pub record IsImported (layout : HandleLayout) (pid : ℕ) (handle : ImportedHandle) : Type 0 where
  pub castable : is_castable layout handle_type_imported handle.raw ≡ true
  pub importer : handle.import_pid ≡ pid

abbrev pub AllImported : HandleLayout → ℕ → MapperState → Type 0
AllImported layout pid state =
    (address : ℕ)
    → is_registered state.pool address ≡ true
    → (handle : ImportedHandle) × (state.handles address ≡ some handle)
      × IsImported layout pid handle

-- Buffer access leaves the description of a handle and its importer.
Effect-IsImported :
    (layout : HandleLayout) (pid : ℕ) (hnd after : ImportedHandle)
    → Effect hnd after
    → IsImported layout pid hnd
    → IsImported layout pid after
Effect-IsImported layout pid hnd after (keeps pointer e) fine =
    rw e (record { castable = fine.castable; importer = fine.importer })
Effect-IsImported layout pid hnd after (locks pointer written e) fine =
    rw e (record { castable = fine.castable; importer = fine.importer })
Effect-IsImported layout pid hnd after (unlocks pointer e) fine = rw e (record {
  castable = rw (drop_lock-raw (record hnd { base = pointer })) fine.castable;
  importer = drop_lock-import_pid (record hnd { base = pointer }) ∙ fine.importer;
})
Effect-IsImported layout pid hnd after (releases e) fine =
    rw e (record { castable = fine.castable; importer = fine.importer })

-- A registered handle, replaced by another imported handle.
update-AllImported :
    (layout : HandleLayout) (pid : ℕ) (state : MapperState) (buffer : ℕ) (handle : ImportedHandle)
    → IsImported layout pid handle
    → AllImported layout pid state
    → AllImported layout pid (update state buffer (some handle))
update-AllImported layout pid state buffer handle fine all address registered =
    elim (Bool-cases (address == buffer)) [
      | inl same ↦ rw same (handle, refl, fine)
      | inr other ↦ rw other (all address registered)
    ]

lock_buffer-Effect :
    (layout : HandleLayout) (pid : ℕ) (hal : Hal) (codes : ErrorCodes) (allocator : Allocator)
    (handle : ImportedHandle)
    → IsImported layout pid handle
    → IsLawful allocator
    → (cpu_usage : ℕ) (region : AccessRegion)
    → Effect handle (lock_buffer hal codes allocator pid layout handle cpu_usage region).buffer
unfolding lock_buffer cast_imported reply_of_lock
lock_buffer-Effect layout pid hal codes allocator handle fine lawful cpu_usage region =
    let effect =
      mali_gralloc_lock-Effect hal codes allocator pid lawful handle cpu_usage region true in
    let result = mali_gralloc_lock hal codes allocator pid handle cpu_usage region true in
    elim (Bool-cases (is_write_conflict hal handle cpu_usage)) [
      | inl conflict ↦ rw (fine.castable, conflict, lock_buffer) (unchanged handle)
      | inr fits ↦ elim (Bool-cases (result.status == 0)) [
        | inl done_ ↦ rw (fine.castable, fits, done_, lock_buffer) effect
        | inr failed ↦ rw (fine.castable, fits, failed, lock_buffer) effect
      ]
    ]

module _ (layout : HandleLayout) (pid : ℕ) (state : MapperState)
    (all : AllImported layout pid state) where
  -- Either nothing is registered at an address, or an imported handle.
  pub registered-cases :
      (buffer : ℕ)
      → (is_registered state.pool buffer ≡ false)
        ⊎ ((handle : ImportedHandle) × (is_registered state.pool buffer ≡ true)
            × (state.handles buffer ≡ some handle)
            × IsImported layout pid handle)
  registered-cases buffer = elim (Bool-cases (is_registered state.pool buffer)) [
    | inr unknown ↦ inl unknown
    | inl known ↦ let (handle, stored, fine) = all buffer known in inr (handle, known, stored, fine)
  ]

  free_buffer-unknown :
      (buffer : ℕ)
      → is_registered state.pool buffer ≡ false
      → free_buffer layout state buffer
        ≡ (error_bad_buffer, record state { pool = erase state.pool buffer })
  unfolding free_buffer pool_remove
  free_buffer-unknown buffer unknown = rw (unknown, free_buffer) refl

  pub free_buffer-known :
      (buffer : ℕ) (handle : ImportedHandle)
      → is_registered state.pool buffer ≡ true
      → state.handles buffer ≡ some handle
      → IsImported layout pid handle
      → free_buffer layout state buffer ≡ (
        error_none,
        record { pool = erase state.pool buffer; handles = store state.handles buffer none },
      )
  unfolding free_buffer pool_remove cast_imported
  free_buffer-known buffer handle known stored fine =
      rw (known, stored, fine.castable, free_buffer) refl

  still_registered :
      (buffer address : ℕ)
      → is_registered (erase state.pool buffer) address ≡ true
      → ((address == buffer) ≡ false) × (is_registered state.pool address ≡ true)
  still_registered buffer address registered =
      ground (arith, is_registered-erase state.pool buffer address)

  pub free_buffer-AllImported :
      (buffer : ℕ) → AllImported layout pid (free_buffer layout state buffer).1
  free_buffer-AllImported buffer = elim (registered-cases buffer) [
    | inl unknown ↦
        rw (free_buffer-unknown buffer unknown)
          (λ address registered. all address (still_registered buffer address registered).1)
    | inr (handle, known, stored, fine) ↦
        rw (free_buffer-known buffer handle known stored fine) (λ address registered.
          let (other, old) = still_registered buffer address registered in
          rw other (all address old))
  ]

  pub lock-AllImported :
      (hal : Hal) (codes : ErrorCodes) (allocator : Allocator) (buffer cpu_usage : ℕ)
      (region : AccessRegion) (acquire_fence : Option FenceHandle)
      → IsLawful allocator
      → AllImported layout pid
          (lock hal codes allocator pid layout state buffer cpu_usage region acquire_fence).2
  unfolding lock registered_handle pool_get cast_imported
  lock-AllImported hal codes allocator buffer cpu_usage region acquire_fence lawful =
      elim (registered-cases buffer) [
        | inl unknown ↦ rw (unknown, lock) all
        | inr (handle, known, stored, fine) ↦ elim (Option-cases (get_fence_fd acquire_fence)) [
          | inl invalid ↦ rw (known, stored, fine.castable, invalid, lock) all
          | inr (fd, valid) ↦
              rw (known, stored, fine.castable, valid, lock)
                (update-AllImported layout pid state buffer _
                  (Effect-IsImported layout pid handle _
                    (lock_buffer-Effect layout pid hal codes allocator handle fine lawful cpu_usage
                      region)
                    fine)
                  all)
        ]
      ]

  unlock_buffer-unlocked :
      (allocator : Allocator) (handle : ImportedHandle)
      → IsImported layout pid handle
      → (handle.lock_count == 0) ≡ true
      → unlock_buffer allocator layout (some handle) ≡ (error_bad_buffer, some handle)
  unfolding unlock_buffer cast_imported
  unlock_buffer-unlocked allocator handle fine free =
      rw (fine.castable, unlock_buffer) (rw (free, unlock_buffer) refl)

  unlock_buffer-held :
      (allocator : Allocator) (handle : ImportedHandle)
      → IsImported layout pid handle
      → (handle.lock_count == 0) ≡ false
      → unlock_buffer allocator layout (some handle)
        ≡ (error_none, some (mali_gralloc_unlock allocator handle))
  unfolding unlock_buffer cast_imported
  unlock_buffer-held allocator handle fine held =
      rw (fine.castable, unlock_buffer) (rw (held, unlock_buffer) refl)

  pub unlock-AllImported :
      (allocator : Allocator) (buffer : ℕ)
      → AllImported layout pid (unlock allocator layout state buffer).1
  unfolding unlock pool_get
  unlock-AllImported allocator buffer = elim (registered-cases buffer) [
    | inl unknown ↦ rw (unknown, unlock) all
    | inr (handle, known, stored, fine) ↦ elim (Bool-cases (handle.lock_count == 0)) [
      | inl free ↦
          rw (known, stored, unlock_buffer-unlocked allocator handle fine free, unlock)
            (update-AllImported layout pid state buffer handle fine all)
      | inr held ↦
          rw (known, stored, unlock_buffer-held allocator handle fine held, unlock)
            (update-AllImported layout pid state buffer _
              (Effect-IsImported layout pid handle _ (mali_gralloc_unlock-Effect allocator handle)
                fine)
              all)
    ]
  ]
