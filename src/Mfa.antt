-- ===== src/Mfa.antt =====
-- The second factor: internal/mfa/service and internal/store/authrepo/mfa.go.
pub mod Store
pub mod Service
pub mod Codes
pub mod Enrollment
