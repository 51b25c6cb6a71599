-- ===== src/Rules/Parser/Limits.antt =====
-- What `parse` guarantees for every source text.
use root_cx.Prelude.{ℕ, ◌≤◌, ◌≡◌, refl, ◌⊎◌, inl, inr, List, Text, length, ltb, Bool-cases, arith}
use root_cx.Rules.Ast.{Expr, size, WellCalled}
use root_cx.Rules.Parser.Weight.{weight, weight-WellCalled}
use root_cx.Rules.Outcome.{SyntaxError, Outcome, ok, err}
use root_cx.Rules.Lexer.{Tok}
use root_cx.Rules.Lexer.Progress.{tokens-Lexed}
use root_cx.Rules.Parser.State.{Parser, max_nodes, max_source_bytes}
use root_cx.Rules.Parser.Grammar.{parse, start, result}
use root_cx.Rules.Parser.Keeps.{Post, done, failed}
use root_cx.Rules.Parser.Totality.{parse_tokens-Post}

-- A parse ends in an error, or in a tree within the limit.
data Parsed : Outcome Expr → Type 0 where
  tree : {e : Expr} → weight e ≤ max_nodes → Parsed (ok e)
  refused : {x : SyntaxError} → Parsed (err x)

Parsed-result :
    {src : Text} {toks : List (Tok × ℕ)} {r : Outcome (Expr × Parser)}
    → Post src toks weight 0 0 0 start r
    → Parsed (result r)
Parsed-result (done i p n) = tree (omega (arith, i.counted))
Parsed-result failed = refused

parse-Parsed : (src : Text) → Parsed (parse src)
unfolding parse
parse-Parsed src = elim (Bool-cases (ltb max_source_bytes (length src))) [
  | inl long ↦ rw (long, parse) refused
  | inr short ↦
      let (toks, lexed, closed) = tokens-Lexed src in
      rw (short, lexed, parse) (Parsed-result (parse_tokens-Post src toks closed))
]

-- Whatever the source, the parser returns one syntax error, or a tree of at most `max_nodes` nodes in
-- which every call has the arguments that its function takes: no loop and no recursion runs on.
pub parse_total :
    (src : Text)
    → ((e : Expr) × (parse src ≡ ok e) × (size e ≤ max_nodes) × WellCalled e)
      ⊎ ((x : SyntaxError) × (parse src ≡ err x))
parse_total src = cases (parse-Parsed src)
  where
    cases :
        {r : Outcome Expr}
        → Parsed r
        → ((e : Expr) × (r ≡ ok e) × (size e ≤ max_nodes) × WellCalled e)
          ⊎ ((x : SyntaxError) × (r ≡ err x))
    cases (tree {e} le) =
        let (called, less) = weight-WellCalled e le in inl (e, refl, omega arith, called)
    cases (refused {x}) = inr (x, refl)
