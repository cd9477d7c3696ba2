-- ===== src/FormatInfo.antt =====
-- src/core/format_info.h and format_info.cpp: the tables of pixel formats and their lookup.
mod Entry
mod FormatsRgb
mod FormatsYuv420
mod FormatsYuv444
mod FormatsYuv10
mod FormatsRaw
mod FormatsDepth
mod SupportRgb
mod SupportYuv8
mod SupportYuv10
mod SupportOther
mod Tables
mod Lookup
pub mod WellFormed
pub mod Dataspace
unfoldable pub use Entry.*
unfoldable pub use Tables.*
unfoldable pub use Lookup.*
