-- ===== src/Pagination.antt =====
-- src/pagination: limits, sorts, cursors, filters and the engine.
pub mod Limits
pub mod Offset
pub mod Sort
pub mod Cursor
pub mod Filter
pub mod Keyset
mod Tests
