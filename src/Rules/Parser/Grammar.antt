-- ===== src/Rules/Parser/Grammar.antt =====
-- core/src/rules/parser.rs: the levels of the grammar, loosest first in the source, tightest first
-- here, and `parse`. Only `nested` reaches a looser level again, and `levels` counts that down.
use root_cx.Prelude.{
  ℕ, zero, suc, ◌-◌, Bool, true, false, ◌&&◌, Option, none, some, List, Text, bytes, is_upper,
  to_lower, any, length, ltb, ◌==◌, if◌then◌else◌,
}
use root_cx.Rules.Ast.{
  Expr, Exprs, nil, cons, push, exprs_length, BinOp, Func, from_name, arity, is_comparison,
}
use root_cx.Rules.Outcome.{Message, Outcome, ok, err, out_of_fuel}
use root_cx.Rules.Lexer.{
  Tok, ident, kw, str, op, minus, lparen, rparen, comma, eof, or_kw, and_kw, not_kw, is_kw, null_kw,
  true_kw, false_kw, between_kw, in_kw, interval_kw, describe, error, tokens,
}
use root_cx.Rules.Parser.State.{
  Parser, M, pure, ◌>>=◌, ◌>>◌, follow, peek, peek2, bump, error_here, rewind, skip, expect, node,
  nested, binary_node, max_source_bytes, max_depth, max_in_items,
}
use root_cx.Rules.Parser.Interval.{interval_of}

abbrev pub is_lparen : Tok → Bool
is_lparen lparen = true
is_lparen _ = false

abbrev pub is_rparen : Tok → Bool
is_rparen rparen = true
is_rparen _ = false

abbrev pub is_comma : Tok → Bool
is_comma comma = true
is_comma _ = false

abbrev pub is_null_word : Tok → Bool
is_null_word (kw null_kw) = true
is_null_word _ = false

abbrev pub is_and_word : Tok → Bool
is_and_word (kw and_kw) = true
is_and_word _ = false

abbrev pub is_not_word : Tok → Bool
is_not_word (kw not_kw) = true
is_not_word _ = false

abbrev pub is_is_word : Tok → Bool
is_is_word (kw is_kw) = true
is_is_word _ = false

abbrev pub opens_range : Tok → Bool
opens_range (kw between_kw) = true
opens_range (kw in_kw) = true
opens_range _ = false

-- The operators that each loop goes on for.
abbrev pub or_op : Tok → Option BinOp
or_op (kw or_kw) = some BinOp.or
or_op _ = none

abbrev pub and_op : Tok → Option BinOp
and_op (kw and_kw) = some BinOp.and
and_op _ = none

abbrev pub match_op : Tok → Option BinOp
match_op (op BinOp.match) = some BinOp.match
match_op _ = none

abbrev pub additive_op : Tok → Option BinOp
additive_op (op BinOp.add) = some BinOp.add
additive_op minus = some BinOp.sub
additive_op _ = none

abbrev pub mul_op : Tok → Option BinOp
mul_op (op BinOp.mul) = some BinOp.mul
mul_op _ = none

abbrev pub comparison_op : Tok → Option BinOp
comparison_op (op o) = if is_comparison o then some o else none
comparison_op _ = none

abbrev pub is_eof : Tok → Bool
is_eof eof = true
is_eof _ = false

module _ (src : Text) (toks : List (Tok × ℕ)) where
  -- One round of a loop takes a token at least.
  abbrev pub rounds : ℕ
  rounds = suc (length toks)

  -- `while self.peek() is an operator of the level { bump; operand; binary }`
  unfoldable pub binary_loop : ℕ → (Tok → Option BinOp) → M Expr → Expr → M Expr
  binary_loop zero next operand l s = out_of_fuel
  binary_loop (suc fuel) next operand l s = elim (next (peek src toks s)) [
    | none ↦ ok (l, s)
    | some o ↦
        (do
          skip src toks
          r ← operand
          l' ← binary_node src toks o l r
          binary_loop fuel next operand l')
          s
  ]

  unfoldable pub level : (Tok → Option BinOp) → M Expr → M Expr
  level next operand = do l ← operand; binary_loop rounds next operand l

  -- `while self.peek() == &Tok::Comma` of a call's arguments
  unfoldable pub args_loop : ℕ → M Expr → Exprs → M Exprs
  args_loop zero item args s = out_of_fuel
  args_loop (suc fuel) item args s = elim (is_comma (peek src toks s)) [
    | false ↦ ok (args, s)
    | true ↦ (do skip src toks; arg ← item; args_loop fuel item (push args arg)) s
  ]

  -- The same of an IN list, which is limited.
  unfoldable pub items_loop : ℕ → M Expr → Exprs → M Exprs
  items_loop zero item list s = out_of_fuel
  items_loop (suc fuel) item list s = elim (is_comma (peek src toks s)) [
    | false ↦ ok (list, s)
    | true ↦
        (do
          skip src toks
          e ← item
          let longer = push list e
          if ltb max_in_items (exprs_length longer)
              then error_here src toks Message.too_many_items
              else items_loop fuel item longer)
          s
  ]

  -- `self.at -= 1`, where the interval keyword has been read.
  unfoldable pub step_back : M (Unit {0})
  step_back s = rewind src toks (s.at - 1) s

  unfoldable pub interval_text : Tok → M Expr
  interval_text (str text) = elim (interval_of text) [
    | some (amount, unit) ↦ node src toks (Expr.interval amount unit)
    | none ↦ (do step_back; error_here src toks Message.bad_interval)
  ]
  interval_text _ = do step_back; error_here src toks Message.interval_not_quoted

  unfoldable pub interval : M Expr
  interval = do tok ← bump src toks; interval_text tok

  -- The arguments between the parentheses of a call.
  unfoldable pub arguments : M Expr → M Exprs
  arguments or_level = do first ← or_level; args_loop rounds or_level (cons first nil)

  unfoldable pub call_of : M Expr → Text → Func → M Expr
  call_of or_level name func = do
    skip src toks
    skip src toks
    args ← nested src toks (arguments or_level)
    expect src toks is_rparen (bytes "')' closing the call")
    if exprs_length args == arity func
        then node src toks (Expr.call func args)
        else error_here src toks (Message.wrong_arity name)

  unfoldable pub call : M Expr → Text → M Expr
  call or_level name = elim (from_name (to_lower name)) [
    | none ↦ error_here src toks (Message.function_not_allowed name)
    | some func ↦ call_of or_level name func
  ]

  -- `self.at = at; return Err(...)`
  unfoldable pub refuse_at : ℕ → Message → M Expr
  refuse_at at message = do rewind src toks at; error_here src toks message

  unfoldable pub name_of : M Expr → ℕ → Text → M Expr
  name_of or_level at name s =
      if is_lparen (peek src toks s)
      then (do rewind src toks at; call or_level name) s
      else if any is_upper name
      then refuse_at at (Message.field_not_lowercase name) s
      else node src toks (Expr.field name) s

  unfoldable pub parenthesised : M Expr → M Expr
  parenthesised or_level = do
    e ← nested src toks or_level
    expect src toks is_rparen (bytes "')'")
    pure e

  -- The arms of `atom`, on the token that stood at `at`.
  unfoldable pub atom_of : M Expr → ℕ → Tok → M Expr
  atom_of or_level at (Tok.number value) = node src toks (Expr.number value)
  atom_of or_level at (str value) = node src toks (Expr.text value)
  atom_of or_level at (kw true_kw) = node src toks (Expr.bool true)
  atom_of or_level at (kw false_kw) = node src toks (Expr.bool false)
  atom_of or_level at (kw null_kw) = refuse_at at Message.null_outside_is
  atom_of or_level at (kw interval_kw) = interval
  atom_of or_level at lparen = parenthesised or_level
  atom_of or_level at (ident name) = name_of or_level at name
  atom_of or_level at other =
      refuse_at at (Message.expected (bytes "a field, literal or function") (describe other))

  unfoldable pub atom : M Expr → M Expr
  atom or_level s = follow (bump src toks s) (atom_of or_level s.at)

  unfoldable pub negated_unary : M Expr → M Expr
  negated_unary unary_below = do
    skip src toks
    e ← nested src toks unary_below
    node src toks (Expr.neg e)

  unfoldable pub unary_of : M Expr → M Expr → Tok → M Expr
  unary_of unary_below or_below minus = negated_unary unary_below
  unary_of unary_below or_below (op BinOp.add) = error_here src toks Message.unary_plus
  unary_of unary_below or_below _ = atom or_below

  unfoldable pub unary : M Expr → M Expr → M Expr
  unary unary_below or_below s = unary_of unary_below or_below (peek src toks s) s

  unfoldable pub between_tail : M Expr → Expr → Bool → M Expr
  between_tail operand e negated = do
    skip src toks
    lo ← operand
    expect src toks is_and_word (bytes "AND in BETWEEN")
    hi ← operand
    node src toks (Expr.between e lo hi negated)

  unfoldable pub in_tail : M Expr → Expr → Bool → M Expr
  in_tail operand e negated = do
    skip src toks
    expect src toks is_lparen (bytes "'(' after IN")
    first ← operand
    list ← items_loop rounds operand (cons first nil)
    expect src toks is_rparen (bytes "')' closing the IN list")
    node src toks (Expr.in_list e list negated)

  unfoldable pub range_of : M Expr → Expr → Bool → Tok → M Expr
  range_of operand e negated (kw between_kw) = between_tail operand e negated
  range_of operand e negated (kw in_kw) = in_tail operand e negated
  range_of operand e negated _ = pure e

  unfoldable pub skip_if : Bool → M (Unit {0})
  skip_if true = skip src toks
  skip_if false = pure tt

  unfoldable pub range_tail : M Expr → Expr → M Expr
  range_tail operand e s =
      let negated = is_not_word (peek src toks s) && opens_range (peek2 src toks s) in
      follow (skip_if negated s) (λ _ s'. range_of operand e negated (peek src toks s') s')

  unfoldable pub range : M Expr → M Expr
  range operand = do e ← operand; range_tail operand e

  unfoldable pub comparison_tail : M Expr → Expr → M Expr
  comparison_tail operand l s = elim (comparison_op (peek src toks s)) [
    | none ↦ ok (l, s)
    | some o ↦ (do skip src toks; r ← operand; binary_node src toks o l r) s
  ]

  unfoldable pub comparison : M Expr → M Expr
  comparison operand = do l ← operand; comparison_tail operand l

  unfoldable pub take_not : M Bool
  take_not s =
      if is_not_word (peek src toks s)
      then follow (skip src toks s) (λ _. pure true)
      else ok (false, s)

  unfoldable pub is_loop : ℕ → Expr → M Expr
  is_loop zero e s = out_of_fuel
  is_loop (suc fuel) e s = elim (is_is_word (peek src toks s)) [
    | false ↦ ok (e, s)
    | true ↦
        (do
          skip src toks
          negated ← take_not
          expect src toks is_null_word (bytes "NULL (only IS [NOT] NULL is supported)")
          e' ← node src toks (Expr.is_null e negated)
          is_loop fuel e')
          s
  ]

  unfoldable pub is_level : M Expr → M Expr
  is_level operand = do e ← operand; is_loop rounds e

  unfoldable pub not_tail : M Expr → M Expr
  not_tail not_below = do
    skip src toks
    e ← nested src toks not_below
    node src toks (Expr.negation e)

  unfoldable pub not_level : M Expr → M Expr → M Expr
  not_level not_below is_here s =
      if is_not_word (peek src toks s) then not_tail not_below s else is_here s

  -- `or`, `not` and `unary`, the levels that `nested` enters, with fuel for the recursion.
  pub record Levels : Type 0 where
    pub or_level : M Expr
    pub not_one : M Expr
    pub unary_one : M Expr

  -- The levels from `other` up to `is`, over `unary`.
  unfoldable pub other : M Expr → M Expr
  other unary_here = level match_op (level additive_op (level mul_op unary_here))

  unfoldable pub is_over : M Expr → M Expr
  is_over unary_here = is_level (comparison (range (other unary_here)))

  unfoldable pub or_over : M Expr → M Expr
  or_over not_here = level or_op (level and_op not_here)

  unfoldable pub stuck : M Expr
  stuck s = out_of_fuel

  unfoldable pub levels : ℕ → Levels
  levels zero = record { or_level = stuck; not_one = stuck; unary_one = stuck }
  levels (suc fuel) =
      let below = levels fuel in
      let unary_here = unary below.unary_one below.or_level in
      let not_here = not_level below.not_one (is_over unary_here) in
      record { or_level = or_over not_here; not_one = not_here; unary_one = unary_here }

  -- `parser.or()` at depth 0, and what must follow it.
  unfoldable pub finish : Expr → Tok → M Expr
  finish expr eof = pure expr
  finish expr (op o) =
      if is_comparison o
      then error_here src toks Message.chained_comparison
      else error_here src toks (Message.unexpected (describe (op o)))
  finish expr (kw is_kw) = error_here src toks Message.is_needs_parentheses
  finish expr tok = error_here src toks (Message.unexpected (describe tok))

  unfoldable pub parse_tokens : M Expr
  parse_tokens s =
      if is_eof (peek src toks s)
      then error_here src toks Message.empty_rule s
      else follow ((levels (suc max_depth)).or_level s)
          (λ expr s'. finish expr (peek src toks s') s')

abbrev pub start : Parser
start = record { at = 0; depth = 0; nodes = 0 }

abbrev pub result : Outcome (Expr × Parser) → Outcome Expr
result (ok (expr, _)) = ok expr
result (err e) = err e
result out_of_fuel = out_of_fuel

-- `parse`.
unfoldable pub parse : Text → Outcome Expr
parse src =
    if ltb max_source_bytes (length src)
    then err (error src 0 Message.source_too_long)
    else elim (tokens src) [ none ↦ out_of_fuel | some toks ↦ result (parse_tokens src toks start) ]
