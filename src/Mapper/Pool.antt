-- ===== src/Mapper/Pool.antt =====
-- src/idl_common/mapper/registered_handle_pool.cpp: RegisteredHandlePool, a set of the addresses of
-- imported handles. The std::unordered_set is a list without order; the mutex makes each operation
-- one step.
use rk_hardware_libgralloc_b.Prelude.{
  Bool, List, Option, [], false, if◌then◌else◌, none, some, true, ℕ, ◌==◌, ◌∷◌,
}

-- How often an address is in the set, bufPool.count.
unfoldable pub is_registered : List ℕ → ℕ → Bool
is_registered [] buffer = false
is_registered (first ∷ pool) buffer =
    let rest = is_registered pool buffer in if first == buffer then true else rest

-- RegisteredHandlePool::add, and whether the address was new.
unfoldable pub pool_add : List ℕ → ℕ → Bool × List ℕ
pool_add pool buffer = if is_registered pool buffer then (false, pool) else (true, buffer ∷ pool)

unfoldable pub erase : List ℕ → ℕ → List ℕ
erase [] buffer = []
erase (first ∷ pool) buffer =
    let rest = erase pool buffer in if first == buffer then rest else first ∷ rest

-- RegisteredHandlePool::remove; `none` is the null pointer.
unfoldable pub pool_remove : List ℕ → ℕ → Option ℕ × List ℕ
pool_remove pool buffer =
    (if is_registered pool buffer then some buffer else none, erase pool buffer)

-- RegisteredHandlePool::get.
unfoldable pub pool_get : List ℕ → ℕ → Option ℕ
pool_get pool buffer = if is_registered pool buffer then some buffer else none
