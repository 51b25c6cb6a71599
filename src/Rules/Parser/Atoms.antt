-- ===== src/Rules/Parser/Atoms.antt =====
-- The levels `atom` and `unary` keep the parser's guarantees, if what `nested` enters keeps them.
use root_cx.Prelude.{
  ℕ, suc, ◌+◌, ◌≤◌, ◌≡◌, refl, true, false, List, Text, length, any, is_upper, Bool-cases,
  Option-cases, arith, inl, inr, ◌==◌, to_lower, if◌then◌else◌,
}
use root_cx.Rules.Ast.{Expr, Exprs, nil, cons, BinOp, Func, from_name, arity, exprs_length}
use root_cx.Rules.Parser.Weight.{weight, weights, no_excess}
use root_cx.Rules.Outcome.{Message}
use root_cx.Rules.Lexer.{
  IsClosed, Tok, ident, kw, str, op, minus, lparen, eof, bad, is_last, true_kw, false_kw,
  interval_kw,
}
use root_cx.Rules.Parser.State.{
  Parser, M, follow, peek, bump, error_here, node, max_depth, rewind, token_of,
}
use root_cx.Rules.Parser.Interval.{interval_of}
use root_cx.Rules.Parser.Grammar.{
  interval_text, interval, step_back, arguments, call_of, call, refuse_at, name_of, parenthesised,
  atom_of, atom, negated_unary, unary_of, unary, is_lparen, rounds,
}
use root_cx.Rules.Parser.Keeps.{
  IsAt, Post, failed, Parses, Post-later, Post-follow, Post-pre, Parses-pre, Parses-then,
  Parses-pure, Parses-error, Parses-choose, Parses-skip, Parses-expect, Parses-node, Parses-nested,
  bump-Post, next_in_range,
}
use root_cx.Rules.Parser.Loops.{args_loop-Post, is_rparen-goes_on}

module _ (src : Text) (toks : List (Tok × ℕ)) (closed : IsClosed toks) where
  -- A parser of one tree, which reads a token at least.
  abbrev pub One : ℕ → M Expr → Type 0
  One d m = Parses src toks weight 1 0 d m

  -- A parser that `nested` enters from depth `d`.
  abbrev pub Below : ℕ → M Expr → Type 0
  Below d m = suc d ≤ max_depth → One (suc d) m

  Parses-refuse :
      {k pre d : ℕ} (at : ℕ) (message : Message)
      → Parses src toks weight k pre d (refuse_at src toks at message)
  unfolding refuse_at rewind error_here
  Parses-refuse at message = record { run = λ s h. failed }

  Post-step_back :
      {k pre d : ℕ} {s : Parser} (message : Message) (t : Parser)
      → Post src toks weight k pre d s
          (follow (step_back src toks t) (λ _. error_here src toks message))
  unfolding step_back rewind error_here
  Post-step_back message t = failed

  interval_text-Parses :
      {d : ℕ} (tok : Tok) → Parses src toks weight 0 0 d (interval_text src toks tok)
  unfolding interval_text
  interval_text-Parses (str text) = elim (Option-cases (interval_of text)) [
    | inl missing ↦ rw (missing, interval_text) (record { run = λ s h. Post-step_back _ s })
    | inr ((n, u), found) ↦ rw (found, interval_text) (Parses-node src toks _ refl)
  ]
  interval_text-Parses _ = record { run = λ s h. Post-step_back _ s }

  interval-Parses : {d : ℕ} → Parses src toks weight 0 0 d (interval src toks)
  unfolding interval
  interval-Parses = record {
    run = λ s h.
        Post-follow src toks _ 0 0 (bump-Post src toks closed s h _ refl)
          (λ tok t i p. (interval_text-Parses tok).run t i) (omega arith) (omega arith);
  }

  arguments-Parses :
      {d : ℕ} {or_level : M Expr}
      → One d or_level
      → Parses src toks weights 1 0 d (arguments src toks or_level)
  unfolding arguments
  arguments-Parses {or_level} po = record {
    run = λ s h.
        Post-follow src toks _ 0 0 (po.run s h)
          (λ e t i p.
            Post-pre src toks
              (args_loop-Post src toks closed (rounds src toks) or_level (cons e nil) t po i
                (omega arith))
              (omega arith))
          (omega arith) (omega arith);
  }

  arity-Parses :
      {d : ℕ} (name : Text) (func : Func) (args : Exprs) (pre : ℕ)
      → pre ≡ weights args
      → Parses src toks weight 0 pre d (
          if exprs_length args == arity func
          then node src toks (Expr.call func args)
          else error_here src toks (Message.wrong_arity name))
  arity-Parses name func args pre e = elim (Bool-cases (exprs_length args == arity func)) [
    | inl t ↦ rw (t) (
        Parses-pre src toks (Parses-node src toks (Expr.call func args) refl)
          (omega (arith, e, no_excess func args t)))
    | inr f ↦ rw (f) (Parses-error src toks (Message.wrong_arity name))
  ]

  call_of-Parses :
      {d : ℕ} {or_below : M Expr} (name : Text) (func : Func)
      → Below d or_below
      → One d (call_of src toks or_below name func)
  unfolding call_of
  call_of-Parses name func po =
      Parses-then src toks 1 (Parses-skip src toks closed)
        (λ _.
          Parses-then src toks 1 (Parses-skip src toks closed)
            (λ _.
              Parses-then src toks 0 (Parses-nested src toks (λ le. arguments-Parses (po le)))
                (λ args.
                  Parses-then src toks 0 (Parses-expect src toks closed _ _ is_rparen-goes_on)
                    (λ _. arity-Parses name func args _ (omega arith)) (omega arith))
                (omega arith))
            (omega arith))
        (omega arith)

  call-Parses :
      {d : ℕ} {or_below : M Expr} (name : Text)
      → Below d or_below
      → One d (call src toks or_below name)
  unfolding call
  call-Parses name po = elim (Option-cases (from_name (to_lower name))) [
    | inl missing ↦ rw (missing, call) (Parses-error src toks (Message.function_not_allowed name))
    | inr (func, found) ↦ rw (found, call) (call_of-Parses name func po)
  ]

  parenthesised-Parses :
      {d : ℕ} {or_below : M Expr} → Below d or_below → One d (parenthesised src toks or_below)
  unfolding parenthesised
  parenthesised-Parses po =
      Parses-then src toks 0 (Parses-nested src toks po)
        (λ e.
          Parses-then src toks 0 (Parses-expect src toks closed _ _ is_rparen-goes_on)
            (λ _. Parses-pure src toks e (omega arith)) (omega arith))
        (omega arith)

  pub Parses-stronger : {d : ℕ} {m : M Expr} → One d m → Parses src toks weight 0 0 d m
  Parses-stronger pm = record {
    run = λ s h. Post-later src toks 0 (pm.run s h) (omega arith) (omega arith) (omega arith);
  }

  -- The name has been read; a call goes back to it.
  name_of-Post :
      {d : ℕ} {or_below : M Expr} (name : Text) (s : Parser)
      → Below d or_below
      → IsAt src toks d s
      → IsAt src toks d (record s { at = s.at + 1 })
      → Post src toks weight 1 0 d s
          (name_of src toks or_below s.at name (record s { at = s.at + 1 }))
  unfolding name_of rewind
  name_of-Post {or_below} name s po h h' =
      elim (Bool-cases (is_lparen (peek src toks (record s { at = s.at + 1 })))) [
        | inl called ↦ rw (called, name_of) ((call-Parses name po).run s h)
        | inr plain ↦
            rw (plain, name_of)
              (Post-later src toks 1
                ((Parses-choose src toks (λ _. any is_upper name)
                    (Parses-refuse s.at (Message.field_not_lowercase name))
                    (Parses-node src toks (Expr.field name) refl)).run
                  _ h')
                (omega arith) (omega arith) (omega arith))
      ]

  -- The token has been read.
  atom_of-Post :
      {d : ℕ} {or_below : M Expr} (tok : Tok) (s : Parser)
      → Below d or_below
      → IsAt src toks d s
      → IsAt src toks d (record s { at = s.at + 1 })
      → Post src toks weight 1 0 d s
          (atom_of src toks or_below s.at tok (record s { at = s.at + 1 }))
  unfolding atom_of
  atom_of-Post {d} {or_below} tok s po h h' = by_token tok
    where
      after :
          {m : M Expr}
          → Parses src toks weight 0 0 d m
          → Post src toks weight 1 0 d s (m (record s { at = s.at + 1 }))
      after pm = Post-later src toks 1 (pm.run _ h') (omega arith) (omega arith) (omega arith)

      by_token :
          (tok : Tok)
          → Post src toks weight 1 0 d s
              (atom_of src toks or_below s.at tok (record s { at = s.at + 1 }))
      by_token (Tok.number v) = after (Parses-node src toks (Expr.number v) refl)
      by_token (str v) = after (Parses-node src toks (Expr.text v) refl)
      by_token (kw true_kw) = after (Parses-node src toks (Expr.bool true) refl)
      by_token (kw false_kw) = after (Parses-node src toks (Expr.bool false) refl)
      by_token (kw interval_kw) = after interval-Parses
      by_token lparen = after (Parses-stronger (parenthesised-Parses po))
      by_token (ident name) = name_of-Post name s po h h'
      by_token _ = after (Parses-refuse s.at _)

  last_refused :
      {d k pre : ℕ} {s : Parser} (or_below : M Expr) (at : ℕ) (tok : Tok) (t : Parser)
      → is_last tok ≡ true
      → Post src toks weight k pre d s (atom_of src toks or_below at tok t)
  unfolding atom_of refuse_at rewind error_here
  last_refused or_below at eof t h = failed
  last_refused or_below at (bad e) t h = failed
  last_refused or_below at _ t h = cc

  atom-Parses : {d : ℕ} {or_below : M Expr} → Below d or_below → One d (atom src toks or_below)
  unfolding atom bump
  atom-Parses {or_below} po = record {
    run = λ s h. elim (Bool-cases (is_last (token_of src toks s.at).0)) [
      | inl last ↦ rw (last, atom) (last_refused or_below s.at _ s last)
      | inr more ↦
          rw (more, atom)
            (atom_of-Post _ s po h (record {
              in_range = next_in_range toks s.at (eof, length src) closed h.in_range more;
              level = h.level;
              counted = h.counted;
            }))
    ];
  }

  negated_unary-Parses :
      {d : ℕ} {unary_below : M Expr}
      → Below d unary_below
      → One d (negated_unary src toks unary_below)
  unfolding negated_unary
  negated_unary-Parses pu =
      Parses-then src toks 1 (Parses-skip src toks closed)
        (λ _.
          Parses-then src toks 0 (Parses-nested src toks pu)
            (λ e. Parses-pre src toks (Parses-node src toks (Expr.neg e) refl) (omega arith))
            (omega arith))
        (omega arith)

  pub unary-Parses :
      {d : ℕ} {unary_below or_below : M Expr}
      → Below d unary_below
      → Below d or_below
      → One d (unary src toks unary_below or_below)
  unfolding unary unary_of
  unary-Parses {d} {unary_below} {or_below} pu po = record {
    run = λ s h. (by_token (peek src toks s)).run s h;
  }
    where
      by_token : (tok : Tok) → One d (unary_of src toks unary_below or_below tok)
      by_token minus = negated_unary-Parses pu
      by_token (op BinOp.add) = Parses-error src toks Message.unary_plus
      by_token _ = atom-Parses po
