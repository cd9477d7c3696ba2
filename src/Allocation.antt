-- ===== src/Allocation.antt =====
-- src/core/buffer_allocation.cpp: the size and the planes of a buffer.
pub mod Lcm
pub mod Dimensions
pub mod Stride
pub mod Size
pub mod Round
pub mod Placement
pub mod Coverage
pub mod Superblocks
pub mod Derive
pub mod Yv12
pub mod Layers
pub mod AfbcHeader
pub mod Derived
pub mod Validated
