-- ===== src/Selection.antt =====
-- src/core/formats.cpp: the producers and the consumers of a buffer, the formats and modifiers that
-- they support, and the choice of the allocation format.
pub mod Parties
pub mod Adjustment
pub mod Support
pub mod Modifiers
pub mod Grade
pub mod Best
pub mod Choice
pub mod Optimal
pub mod Rk
pub mod Compression
