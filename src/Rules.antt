-- ===== src/Rules.antt =====
-- core/src/rules: the closed language of declarative rules, from source text to SQL.
pub mod Ast
pub mod Outcome
pub mod Lexer
pub mod Parser
pub mod Pattern
pub mod Typing
pub mod Emit
mod Tests
pub mod Shorthand
pub mod Compile
