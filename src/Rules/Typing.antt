-- ===== src/Rules/Typing.antt =====
-- core/src/rules/typing.rs: the types, the checker, and what it keeps.
pub mod Types
pub mod Check
pub mod Gives
pub mod Steps
pub mod Resolved
