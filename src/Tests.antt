-- ===== src/Tests.antt =====
-- Concrete inputs: the theorems of the library at values that the code can meet.
pub mod Inputs
pub mod Formats
pub mod Allocation
pub mod Selection
pub mod Buffers
pub mod Access
pub mod Mapper
pub mod Metadata
pub mod Derivation
