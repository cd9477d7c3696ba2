-- ===== src/Access.antt =====
-- src/core/buffer_access.cpp: locking a buffer for the CPU. The allocator's operations are an
-- interface here; Heaps implements it. The mutex around map and unmap makes each of them one step.
pub mod Sync
pub mod Region
pub mod Lock
pub mod Flex
pub mod Effects
pub mod Sessions
pub mod Bounds
pub mod Release
pub mod Chroma
