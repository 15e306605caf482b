-- ===== src/Users.antt =====
-- The management of accounts by administrators: internal/users/service and
-- internal/store/usersrepo.
pub mod Store
pub mod Service
pub mod Guards
