-- ===== src/Agents.antt =====
-- core/src/extensions/agents: what a tool call of an agent is allowed to do.
pub mod Supervision
mod Tests
