-- ===== src/Rules/Tests.antt =====
-- Runs of the theorems on the rule language at concrete rules.
use root_cx.Prelude.{
  ℕ, ◌+◌, ◌≤◌, ◌<◌, ◌≡◌, refl, subst, arith, ◌⊎◌, ◌↔◌, true, false, Option, some, none, List, [],
  ◌∷◌, ◌++◌, Text, bytes, length,
}
use root_cx.Rules.Ast.{WellCalled, Expr, nil, cons, BinOp, Func, size, IntervalUnit}
use root_cx.Rules.Outcome.{SyntaxError, ok, err}
use root_cx.Rules.Lexer.{Tok, tokens, IsClosed, string}
use root_cx.Rules.Lexer.Progress.{tokens-Lexed}
use root_cx.Rules.Parser.State.{max_nodes}
use root_cx.Rules.Parser.Grammar.{parse}
use root_cx.Rules.Parser.Limits.{parse_total}
use root_cx.Rules.Pattern.{
  Ast, literal, verbatim, repetition, range, bounded, validate, admitted, chars, max_pattern_chars,
  max_repeat, walk, literal_ok,
}
use root_cx.Rules.Pattern.Height.{AllOrdered, star_height, largest_count, validate-IsTame}
use root_cx.Rules.Typing.Types.{Ty, Fields, Spellings, Refusal, Checked}
use root_cx.Rules.Typing.Check.{Typed, check}
use root_cx.Rules.Typing.Gives.{SameFields}
use root_cx.Rules.Typing.Resolved.{check-Resolves}
use root_cx.Rules.Emit.{quote_literal, sql}
use root_cx.Rules.Compile.{CheckFault, CheckResult, compiled, compile_check}
use root_cx.Rules.Compile.Total.{KeepsSecrets, compile_check_total}
use root_cx.Rules.Emit.Totality.{sql_total}
use root_cx.Rules.Emit.Intervals.{interval_of-sql}
use root_cx.Rules.Parser.Interval.Words.{Written}
use root_cx.Rules.Parser.Interval.{interval_of}
use root_cx.Rules.Emit.Quotes.{quote_literal-string}

-- A rule as an app declares it.
abbrev rule : Text
rule = bytes "length(name) > 0 AND status IN ('open', 'closed')"

parse_total_example :
    ((e : Expr) × (parse rule ≡ ok e) × (size e ≤ max_nodes) × WellCalled e)
    ⊎ ((x : SyntaxError) × (parse rule ≡ err x))
parse_total_example = parse_total rule

tokens-Lexed_example : (toks : List (Tok × ℕ)) × (tokens rule ≡ some toks) × IsClosed toks
tokens-Lexed_example = tokens-Lexed rule

-- The pattern `a{2,3}`, as `regex_syntax` parses it.
abbrev three_as : Ast
three_as = repetition (range (bounded 2 3)) (literal verbatim)

abbrev parse_three : Text → Option Ast
parse_three pattern = some three_as

three_admitted : validate parse_three (bytes "a{2,3}") ≡ admitted
unfolding validate walk literal_ok
three_admitted = refl

parse_three-ordered : (text : Text) (ast : Ast) → parse_three text ≡ some ast → AllOrdered ast
parse_three-ordered text ast h =
    let same : three_as ≡ ast = cc (h) in subst AllOrdered same (omega arith, tt)

validate-IsTame_example :
    (0 < length (bytes "a{2,3}"))
    × (chars (bytes "a{2,3}") ≤ max_pattern_chars)
    × ((ast : Ast) × (parse_three (bytes "a{2,3}") ≡ some ast)
        × (star_height ast ≤ 1)
        × (largest_count ast ≤ max_repeat))
validate-IsTame_example =
    validate-IsTame parse_three (bytes "a{2,3}") parse_three-ordered three_admitted

abbrev known : Fields
known = (bytes "due", record { ty = Ty.date; sensitive = false; pg = bytes "date" }) ∷ []

abbrev spell : Spellings
spell = record { is_date = λ s. true; timestamp_of = λ s. none; uuid_of = λ s. none }

-- `due < '2026-01-01' AND length('x') = 1`
abbrev due_rule : Expr
due_rule =
    Expr.binary BinOp.and
      (Expr.binary BinOp.lt (Expr.field (bytes "due")) (Expr.text (bytes "2026-01-01")))
      (Expr.binary BinOp.eq (Expr.call Func.length (cons (Expr.text (bytes "x")) nil))
        (Expr.number (bytes "1")))

check-Resolves_example :
    ((why : Refusal) × (check known spell parse_three due_rule ≡ Checked.err why))
    ⊎ ((c : Typed) × (check known spell parse_three due_rule ≡ Checked.ok c)
        × SameFields due_rule c.0
        × WellCalled c.0)
check-Resolves_example =
    check-Resolves known spell parse_three due_rule ((tt, tt), (((λ i. 1), (tt, tt)), tt))

-- `it's`, between two other texts.
quote_literal-string_example :
    string (bytes "a = " ++ (quote_literal (bytes "it's") ++ bytes " OR b")) (length (bytes "a = "))
    ≡ ok (Tok.str (bytes "it's"), length (bytes "a = ") + length (quote_literal (bytes "it's")))
quote_literal-string_example =
    quote_literal-string (bytes "a = ") (bytes "it's") (bytes " OR b")
      (omega arith, (omega arith, (omega arith, (omega arith, tt)))) (omega arith) (omega arith)

sql_total_example : (s : Text) × (sql due_rule ≡ some s)
sql_total_example = sql_total due_rule ((tt, tt), (((λ i. 1), (tt, tt)), tt))

-- As an author may write it, with two blanks and a leading zero.
abbrev two_months : Text
two_months = bytes "062  day"

interval_of-sql_example :
    ((interval_of two_months ≡ some (62, IntervalUnit.days))
      ↔ Written two_months 62 IntervalUnit.days)
    × (interval_of two_months ≡ some (62, IntervalUnit.days)
        → (inner : Text) × (sql (Expr.interval 62 IntervalUnit.days)
            ≡ some (bytes "'" ++ inner ++ bytes "'::pg_catalog.interval"))
          × (interval_of inner ≡ some (62, IntervalUnit.days)))
interval_of-sql_example = interval_of-sql two_months 62 IntervalUnit.days

compile_check_total_example :
    ((fault : CheckFault) × (compile_check known spell parse_three rule
        ≡ CheckResult.refused fault))
    ⊎ ((tree : Expr) × (text : Text) × (compile_check known spell parse_three rule
          ≡ compiled tree text)
        × (sql tree ≡ some text)
        × KeepsSecrets known tree)
compile_check_total_example = compile_check_total known spell parse_three rule
