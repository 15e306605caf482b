-- ===== src/Lists.antt =====
-- The lists by pages: internal/http/pagination and the searches of the stores.
pub mod Search
pub mod Pagination
pub mod Queries
pub mod Keyset
