-- ===== src/Mapper.antt =====
-- src/idl_common/mapper: registered_handle_pool.cpp and mapper.cpp, the calls of IMapper on buffers
-- that this process has imported.
pub mod Pool
pub mod Registry
pub mod Imported
pub mod Reach
pub mod Freed
pub mod Exclusive
pub mod State
pub mod Locking
pub mod Queries
pub mod Layouts
pub mod Values
pub mod Matching
