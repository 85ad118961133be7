-- ===== src/Aggregate.antt =====
-- Aggregations over the portable requests of @classytic/repo-core.
pub mod Keyset
pub mod Paginate
pub mod Scope
