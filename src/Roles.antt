-- ===== src/Roles.antt =====
-- The management of roles: internal/roles/service and internal/store/rolesrepo.
pub mod Store
pub mod Service
pub mod Permissions
pub mod Guards
