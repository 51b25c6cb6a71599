-- ===== src/Delegation.antt =====
-- core/src/governance/delegation: standing delegations from one principal to another.
pub mod Grants
pub mod ActAs
pub mod Fire
mod Tests
