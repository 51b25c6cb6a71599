-- ===== src/Enforcement.antt =====
-- core/src/governance/enforcement: what stands between an app and the database.
pub mod Statements
pub mod Context
pub mod Access
mod Tests
