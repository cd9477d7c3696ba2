-- ===== src/Mapper/State.antt =====
-- The state of the mapper in src/idl_common/mapper/mapper.cpp: gRegisteredHandles, and the memory
-- that holds the imported handles, by address. importBuffer and freeBuffer change it.
use rk_hardware_libgralloc_b.Handle.{
  CloneAnswers, HandleLayout, ImportedHandle, PrivateHandle, cast_imported, cast_private,
  make_imported_handle,
}
use rk_hardware_libgralloc_b.Mapper.Pool.{pool_add, pool_get, pool_remove}
use rk_hardware_libgralloc_b.Prelude.{List, Option, if◌then◌else◌, none, some, ℕ, ◌==◌}

pub data Error : Type 0 where
  error_none error_bad_buffer error_bad_value error_no_resources error_unsupported : Error

pub record MapperState : Type 0 where
  pub pool : List ℕ
  pub handles : ℕ → Option ImportedHandle

-- The memory with another content at one address.
abbrev pub store :
    (ℕ → Option ImportedHandle) → ℕ → Option ImportedHandle → ℕ → Option ImportedHandle
store handles address content other = if other == address then content else handles other

-- What is registered at an address, cast to imported_handle.
unfoldable pub registered_handle : HandleLayout → MapperState → ℕ → Option ImportedHandle
registered_handle layout state buffer = elim (pool_get state.pool buffer) [
  | none ↦ none
  | some address ↦ cast_imported layout (state.handles address)
]

-- What the system answers to importBuffer: the address that native_handle_create finds, what `dup`
-- returns, and where mmap puts the attribute region, `none` for MAP_FAILED.
pub record ImportAnswers : Type 0 where
  pub clone : CloneAnswers
  pub address : ℕ
  pub attr_mapping : Option ℕ

pub record ImportResult : Type 0 where
  pub error : Error
  pub imported : Option ℕ
  pub state : MapperState

abbrev pub failed_import : Error → MapperState → ImportResult
failed_import error state = record { error = error; imported = none; state = state }

-- The handle is registered, or destroyed where its address is registered already.
unfoldable pub register_handle : ImportAnswers → ℕ → MapperState → ImportedHandle → ImportResult
register_handle answers pid state handle = elim answers.attr_mapping [
  | none ↦ failed_import error_no_resources state
  | some mapping ↦
      let imported = record handle {
        attr_base = some mapping;
        import_pid = pid;
        base = none;
        cpu_write = 0;
      } in
      let (is_new, pool) = pool_add state.pool answers.address in
      if is_new
      then record {
        error = error_none;
        imported = some answers.address;
        state = record {
          pool = pool;
          handles = store state.handles answers.address (some imported);
        };
      }
      else failed_import error_no_resources
          (record state { handles = store state.handles answers.address none })
]

unfoldable pub import_buffer :
    HandleLayout → ImportAnswers → ℕ → MapperState → Option PrivateHandle → ImportResult
import_buffer layout answers pid state raw_handle = elim (cast_private layout raw_handle) [
  | none ↦ failed_import error_bad_buffer state
  | some private ↦ elim (make_imported_handle layout answers.clone private) [
    | none ↦ failed_import error_no_resources state
    | some handle ↦ register_handle answers pid state handle
  ]
]

-- The handle that is taken out of the pool is unmapped by its own process, closed and destroyed. One
-- that is not an imported handle stays in memory.
unfoldable pub free_buffer : HandleLayout → MapperState → ℕ → Error × MapperState
free_buffer layout state buffer =
    let (removed, pool) = pool_remove state.pool buffer in
    elim removed [
      | none ↦ (error_bad_buffer, record state { pool = pool })
      | some address ↦ elim (cast_imported layout (state.handles address)) [
        | none ↦ (error_bad_buffer, record state { pool = pool })
        | some _ ↦ (error_none, record { pool = pool; handles = store state.handles address none })
      ]
    ]
