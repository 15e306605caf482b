-- ===== src/Projects.antt =====
-- Projects and their members: internal/projects and internal/store/projectsrepo.
pub mod Repository
pub mod Audit
pub mod Operations
pub mod Members
pub mod Access
pub mod Commit
pub mod Ownership
pub mod Membership
