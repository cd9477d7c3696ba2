-- ===== src/Mapper/Reach.antt =====
-- The states that the mapper reaches by the calls of its clients.
use rk_hardware_libgralloc_b.Access.Effects.{IsLawful}
use rk_hardware_libgralloc_b.Access.Region.{AccessRegion, ErrorCodes}
use rk_hardware_libgralloc_b.Access.Sync.{Allocator}
use rk_hardware_libgralloc_b.Hal.{Hal}
use rk_hardware_libgralloc_b.Handle.{
  CloneAnswers, HandleLayout, ImportedHandle, PrivateHandle, cast_private, clone_descriptors,
  handle_type_raw, imported_copy, is_castable, make_imported_handle, minus_one,
}
use rk_hardware_libgralloc_b.InternalFormat.{invalid}
use rk_hardware_libgralloc_b.Mapper.Imported.{
  AllImported, IsImported, free_buffer-AllImported, lock-AllImported, unlock-AllImported,
}
use rk_hardware_libgralloc_b.Mapper.Locking.{FenceHandle, lock, unlock}
use rk_hardware_libgralloc_b.Mapper.Pool.{is_registered, pool_add}
use rk_hardware_libgralloc_b.Mapper.State.{
  ImportAnswers, MapperState, free_buffer, import_buffer, register_handle,
}
use rk_hardware_libgralloc_b.Prelude.{
  Bool-cases, List, Option, Option-cases, [], arith, false, inl, inr, none, refl, some, true, ℕ,
  ◌==◌, ◌||◌, ◌∷◌, ◌≡◌, ◌⊎◌,
}
use rk_hardware_libgralloc_b.Prelude.Words.{int_lt}

module _ (hal : Hal) (codes : ErrorCodes) (pid : ℕ) (layout : HandleLayout) where
  -- A call of IMapper, whatever the system and the allocator answer. The storage of a new handle is
  -- not that of a handle that is still registered.
  pub data MapperStep (state after : MapperState) : Type 0 where
    import_step :
        (answers : ImportAnswers) (raw_handle : Option PrivateHandle)
        → is_registered state.pool answers.address ≡ false
        → after ≡ (import_buffer layout answers pid state raw_handle).state
        → MapperStep state after
    free_step : (buffer : ℕ) → after ≡ (free_buffer layout state buffer).1 → MapperStep state after
    lock_call :
        (allocator : Allocator) (buffer cpu_usage : ℕ) (region : AccessRegion)
        (acquire_fence : Option FenceHandle)
        → IsLawful allocator
        → after
          ≡ (lock hal codes allocator pid layout state buffer cpu_usage region acquire_fence).2
        → MapperStep state after
    unlock_call :
        (allocator : Allocator) (buffer : ℕ)
        → after ≡ (unlock allocator layout state buffer).1
        → MapperStep state after

  pub data MapperReach : MapperState → Type 0 where
    empty_pool :
        (handles : ℕ → Option ImportedHandle)
        → MapperReach (record { pool = []; handles = handles })
    after_call :
        {state after : MapperState} → MapperReach state → MapperStep state after → MapperReach after

cast_private-cases :
    (layout : HandleLayout) (raw_handle : Option PrivateHandle)
    → (cast_private layout raw_handle ≡ none)
      ⊎ ((private : PrivateHandle) × (cast_private layout raw_handle ≡ some private)
          × (is_castable layout handle_type_raw private ≡ true))
unfolding cast_private
cast_private-cases layout none = inl refl
cast_private-cases layout (some private) =
    elim (Bool-cases (is_castable layout handle_type_raw private)) [
      | inl castable ↦ inr (private, rw castable refl, castable)
      | inr other ↦ inl (rw other refl)
    ]

make_imported_handle-cases :
    (layout : HandleLayout) (answers : CloneAnswers) (private : PrivateHandle)
    → (make_imported_handle layout answers private ≡ none)
      ⊎ ((storage : ImportedHandle) × (fd : ℕ) × (attr_fd : ℕ) × (make_imported_handle layout
              answers private
            ≡ some (imported_copy layout storage private fd attr_fd)))
unfolding make_imported_handle clone_descriptors
make_imported_handle-cases layout answers private =
    let fd = answers.dup private.share_fd in
    let attr_fd = answers.dup private.share_attr_fd in
    elim (Option-cases answers.created) [
      | inl no_memory ↦ inl (rw (no_memory, make_imported_handle) refl)
      | inr (storage, created) ↦ elim (Bool-cases ((fd == minus_one) || (attr_fd == minus_one))) [
        | inl failed ↦ inl (rw (created, failed, make_imported_handle) refl)
        | inr cloned ↦ inr (storage, fd, attr_fd, rw (created, cloned, make_imported_handle) refl)
      ]
    ]

-- The pool has the new address besides those it had.
registered_new :
    (pool : List ℕ) (buffer address : ℕ)
    → is_registered (buffer ∷ pool) address ≡ true
    → (address == buffer) ≡ false
    → is_registered pool address ≡ true
unfolding is_registered
registered_new pool buffer address registered other = ground arith

pool_add-fresh :
    (pool : List ℕ) (buffer : ℕ)
    → is_registered pool buffer ≡ false
    → pool_add pool buffer ≡ (true, buffer ∷ pool)
unfolding pool_add
pool_add-fresh pool buffer fresh = rw (fresh, pool_add) refl

importer_copy-IsImported :
    (layout : HandleLayout) (pid : ℕ) (storage : ImportedHandle) (private : PrivateHandle)
    (fd attr_fd : ℕ) (attr_base : Option ℕ)
    → is_castable layout handle_type_raw private ≡ true
    → IsImported layout pid (record (imported_copy layout storage private fd attr_fd) {
      attr_base = attr_base;
      import_pid = pid;
      base = none;
      cpu_write = 0;
    })
unfolding imported_copy is_castable int_lt
importer_copy-IsImported layout pid storage private fd attr_fd attr_base castable = record {
  castable = ground arith;
  importer = refl;
}

module _ (layout : HandleLayout) (pid : ℕ) (state : MapperState)
    (all : AllImported layout pid state) where
  register_handle-AllImported :
      (answers : ImportAnswers) (storage : ImportedHandle) (private : PrivateHandle)
      (fd attr_fd : ℕ)
      → is_registered state.pool answers.address ≡ false
      → is_castable layout handle_type_raw private ≡ true
      → AllImported layout pid
          (register_handle answers pid state
            (imported_copy layout storage private fd attr_fd)).state
  unfolding register_handle
  register_handle-AllImported answers storage private fd attr_fd fresh castable =
      elim (Option-cases answers.attr_mapping) [
        | inl unmapped ↦ rw (unmapped, register_handle) all
        | inr (mapping, mapped) ↦
            rw (mapped, pool_add-fresh state.pool answers.address fresh, register_handle)
              (λ address registered. elim (Bool-cases (address == answers.address)) [
                | inl same ↦ rw same (
                  _,
                  refl,
                  importer_copy-IsImported layout pid storage private fd attr_fd (some mapping)
                      castable,
                )
                | inr other ↦ rw other (
                    all address
                      (registered_new state.pool answers.address address registered other))
              ])
      ]

  import_buffer-AllImported :
      (answers : ImportAnswers) (raw_handle : Option PrivateHandle)
      → is_registered state.pool answers.address ≡ false
      → AllImported layout pid (import_buffer layout answers pid state raw_handle).state
  unfolding import_buffer
  import_buffer-AllImported answers raw_handle fresh = elim (cast_private-cases layout raw_handle) [
    | inl invalid ↦ rw (invalid, import_buffer) all
    | inr (private, valid, castable) ↦
        elim (make_imported_handle-cases layout answers.clone private) [
          | inl no_clone ↦ rw (valid, no_clone, import_buffer) all
          | inr (storage, fd, attr_fd, cloned) ↦
              rw (valid, cloned, import_buffer)
                (register_handle-AllImported answers storage private fd attr_fd fresh castable)
        ]
  ]

none_registered :
    (layout : HandleLayout) (pid : ℕ) (handles : ℕ → Option ImportedHandle)
    → AllImported layout pid (record { pool = []; handles = handles })
unfolding is_registered
none_registered layout pid handles address registered = cc

module _ (hal : Hal) (codes : ErrorCodes) (pid : ℕ) (layout : HandleLayout) where
  MapperStep-AllImported :
      {state after : MapperState}
      → MapperStep hal codes pid layout state after
      → AllImported layout pid state
      → AllImported layout pid after
  MapperStep-AllImported {state} (import_step answers raw_handle fresh e) all =
      rw e (import_buffer-AllImported layout pid state all answers raw_handle fresh)
  MapperStep-AllImported {state} (free_step buffer e) all =
      rw e (free_buffer-AllImported layout pid state all buffer)
  MapperStep-AllImported {state}
        (lock_call allocator buffer cpu_usage region acquire_fence lawful e) all =
      rw e (
        lock-AllImported layout pid state all hal codes allocator buffer cpu_usage region
          acquire_fence lawful)
  MapperStep-AllImported {state} (unlock_call allocator buffer e) all =
      rw e (unlock-AllImported layout pid state all allocator buffer)

  -- In every state that the mapper of a process reaches from an empty pool, each registered address
  -- holds a handle that passes the checks for an imported handle and was imported by this process.
  pub MapperReach-AllImported :
      (state : MapperState) → MapperReach hal codes pid layout state → AllImported layout pid state
  MapperReach-AllImported state (empty_pool handles) = none_registered layout pid handles
  MapperReach-AllImported state (after_call reach step) =
      MapperStep-AllImported step (MapperReach-AllImported _ reach)
