-- ===== src/Rules/Compile.antt =====
-- core/src/rules/mod.rs, `compile_entity` for one declared check: from its text to its SQL. Its name
-- and its tags are left out.
use root_cx.Prelude.{
  ℕ, Bool, true, false, Option, none, some, List, [], ◌∷◌, Text, length, ltb, if◌then◌else◌,
}
use root_cx.Rules.Ast.{Expr, fields}
use root_cx.Rules.Outcome
use root_cx.Rules.Outcome.{SyntaxError, Outcome}
use root_cx.Rules.Parser.Grammar.{parse}
use root_cx.Rules.Pattern
use root_cx.Rules.Typing.Types.{Field, Fields, lookup, Refusal, Checked, Spellings}
use root_cx.Rules.Typing.Check.{boolean}
use root_cx.Rules.Emit.{sql}
pub mod Total

pub data CheckFault : Type 0 where
  syntax : SyntaxError → CheckFault
  typing : Refusal → CheckFault
  sensitive_in_index sensitive_not_alone : Text → CheckFault

-- The resolved tree and its SQL. `panic` is an index out of range, and `stuck` is fuel that ran out.
pub data CheckResult : Type 0 where
  compiled : Expr → Text → CheckResult
  refused : CheckFault → CheckResult
  panic stuck : CheckResult

-- `fields.get(name).is_some_and(|f| f.sensitive)`
abbrev pub flag_of : Option Field → Bool
flag_of none = false
flag_of (some field) = field.sensitive

abbrev pub is_sensitive : Fields → Text → Bool
is_sensitive known name = flag_of (lookup name known)

-- `used.iter().find(..)`
abbrev pub find_sensitive : Fields → List Text → Option Text
find_sensitive known [] = none
find_sensitive known (name ∷ used) =
    let later = find_sensitive known used in if is_sensitive known name then some name else later

abbrev pub scope_of : List Text → Bool → Option Text → Option CheckFault
scope_of used index none = none
scope_of used true (some name) = some (sensitive_in_index name)
scope_of used false (some name) =
    if ltb 1 (length used) then some (sensitive_not_alone name) else none

-- `sensitive_scope`: the refusal, if there is one.
unfoldable pub sensitive_scope : Expr → Fields → Bool → Option CheckFault
sensitive_scope expr known index =
    scope_of (fields expr []) index (find_sensitive known (fields expr []))

module _ (known : Fields) (spell : Spellings) (parse_regex : Text → Option Pattern.Ast) where
  abbrev pub emitted : Expr → Option Text → CheckResult
  emitted tree none = panic
  emitted tree (some text) = compiled tree text

  abbrev pub scoped : Expr → Option CheckFault → CheckResult
  scoped tree (some fault) = refused fault
  scoped tree none = emitted tree (sql tree)

  abbrev pub resolved : Checked Expr → CheckResult
  resolved (Checked.ok tree) = scoped tree (sensitive_scope tree known false)
  resolved (Checked.err e) = refused (typing e)
  resolved Checked.panic = panic

  abbrev pub parsed : Outcome Expr → CheckResult
  parsed (Outcome.ok tree) = resolved (boolean known spell parse_regex tree)
  parsed (Outcome.err e) = refused (syntax e)
  parsed Outcome.out_of_fuel = stuck

  unfoldable pub compile_check : Text → CheckResult
  compile_check source = parsed (parse source)
