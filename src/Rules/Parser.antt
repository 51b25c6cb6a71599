-- ===== src/Rules/Parser.antt =====
-- core/src/rules/parser.rs, `Parser`: recursive descent over the tokens of one rule.
pub mod State
pub mod Interval
pub mod Grammar
mod Weight
mod Keeps
mod Loops
mod Atoms
pub mod Totality
pub mod Limits
