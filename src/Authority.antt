-- ===== src/Authority.antt =====
-- core/src/governance/authority: permission keys and roles.
pub mod Permission
pub mod PermissionKeys
pub mod Roles
pub mod Policy
pub mod Database
mod Tests
mod Runs
