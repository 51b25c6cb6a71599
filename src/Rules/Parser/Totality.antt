-- ===== src/Rules/Parser/Totality.antt =====
-- Every level of the grammar keeps the parser's guarantees, with the fuel that `parse` gives: the
-- nesting limit bounds the recursion.
use root_cx.Prelude.{
  ℕ, zero, suc, ◌+◌, ◌≤◌, ◌<◌, refl, Bool, true, false, ◌&&◌, List, [], ◌∷◌, Text, length,
  Option-cases, arith, inl, inr,
}
use root_cx.Rules.Ast.{Expr, nil, cons, is_comparison}
use root_cx.Rules.Parser.Weight.{weight, weights}
use root_cx.Rules.Outcome.{Message}
use root_cx.Rules.Lexer.{IsClosed, Tok, kw, op, eof, between_kw, in_kw, is_kw, describe}
use root_cx.Rules.Parser.State.{Parser, M, pure, follow, peek, peek2, max_depth}
use root_cx.Rules.Parser.Grammar.{
  between_tail, in_tail, range_of, skip_if, range_tail, range, comparison_tail, comparison,
  is_level, not_tail, not_level, other, is_over, or_over, Levels, levels, is_not_word, opens_range,
  comparison_op, or_op, and_op, match_op, additive_op, mul_op, rounds, items_loop, finish,
  parse_tokens, start, is_eof,
}
use root_cx.Rules.Parser.Keeps.{
  IsAt, Post, done, Parses, Post-follow, Post-pre, Parses-pre, Parses-bind, Parses-then,
  Parses-pure, Parses-error, Parses-if, Parses-choose, Parses-skip, Parses-expect, Parses-node,
  Parses-nested,
}
use root_cx.Rules.Parser.Loops.{
  binary_node-Parses, level-Parses, items_loop-Post, is_loop-Post, is_rparen-goes_on,
  is_lparen-goes_on, is_and_word-goes_on,
}
use root_cx.Rules.Parser.Atoms.{One, Below, unary-Parses}

module _ (src : Text) (toks : List (Tok × ℕ)) (closed : IsClosed toks) where
  between_tail-Parses :
      {d : ℕ} {operand : M Expr} (e : Expr) (negated : Bool)
      → One src toks closed d operand
      → Parses src toks weight 0 (weight e) d (between_tail src toks operand e negated)
  unfolding between_tail
  between_tail-Parses e negated po =
      Parses-then src toks 0 (Parses-skip src toks closed)
        (λ _.
          Parses-bind src toks 0 (weight e) po
            (λ lo.
              Parses-then src toks 0 (Parses-expect src toks closed _ _ is_and_word-goes_on)
                (λ _.
                  Parses-bind src toks 0 (weight lo + weight e) po
                    (λ hi.
                      Parses-pre src toks (Parses-node src toks (Expr.between e lo hi negated) refl)
                        (omega arith))
                    (omega arith) (omega arith))
                (omega arith))
            (omega arith) (omega arith))
        (omega arith)

  in_tail-Parses :
      {d : ℕ} {operand : M Expr} (e : Expr) (negated : Bool)
      → One src toks closed d operand
      → Parses src toks weight 0 (weight e) d (in_tail src toks operand e negated)
  unfolding in_tail
  in_tail-Parses {d} {operand} e negated po =
      Parses-then src toks 0 (Parses-skip src toks closed)
        (λ _.
          Parses-then src toks 0 (Parses-expect src toks closed _ _ is_lparen-goes_on)
            (λ _.
              Parses-bind src toks 0 (weight e) po
                (λ first.
                  Parses-bind src toks 0 (weight e) (items-Parses first)
                    (λ list.
                      Parses-then src toks 0 (Parses-expect src toks closed _ _ is_rparen-goes_on)
                        (λ _.
                          Parses-pre src toks
                            (Parses-node src toks (Expr.in_list e list negated) refl) (omega arith))
                        (omega arith))
                    (omega arith) (omega arith))
                (omega arith) (omega arith))
            (omega arith))
        (omega arith)
    where
      items-Parses :
          (first : Expr)
          → Parses src toks weights 0
              (weights (cons first nil))
              d
              (items_loop src toks (rounds src toks) operand (cons first nil))
      items-Parses first = record {
        run = λ s h.
            items_loop-Post src toks closed (rounds src toks) operand (cons first nil) s po h
              (omega arith);
      }

  range-Parses :
      {d : ℕ} {operand : M Expr}
      → One src toks closed d operand
      → One src toks closed d (range src toks operand)
  unfolding range range_tail skip_if range_of pure
  range-Parses {d} {operand} po =
      Parses-then src toks 0 po (λ e. record { run = λ s h. tail e s h }) (omega arith)
    where
      skip_if-Parses : (b : Bool) → Parses src toks (λ _. 0) 0 0 d (skip_if src toks b)
      skip_if-Parses true = Parses-skip src toks closed
      skip_if-Parses false = Parses-pure src toks tt refl

      by_token :
          (e : Expr) (negated : Bool) (tok : Tok)
          → Parses src toks weight 0 (weight e) d (range_of src toks operand e negated tok)
      by_token e negated (kw between_kw) = between_tail-Parses e negated po
      by_token e negated (kw in_kw) = in_tail-Parses e negated po
      by_token e negated _ = Parses-pure src toks e refl

      tail :
          (e : Expr) (s : Parser)
          → IsAt src toks d s
          → Post src toks weight 0 (weight e + 0) d s (range_tail src toks operand e s)
      tail e s h =
          let negated = is_not_word (peek src toks s) && opens_range (peek2 src toks s) in
          Post-follow src toks _ 0 (weight e) ((skip_if-Parses negated).run s h)
            (λ _ t i p.
              Post-pre src toks ((by_token e negated (peek src toks t)).run t i) (omega arith))
            (omega arith) (omega arith)

  comparison-Parses :
      {d : ℕ} {operand : M Expr}
      → One src toks closed d operand
      → One src toks closed d (comparison src toks operand)
  unfolding comparison comparison_tail
  comparison-Parses {d} {operand} po =
      Parses-then src toks 0 po (λ l. record { run = λ s h. tail l s h }) (omega arith)
    where
      tail :
          (l : Expr) (s : Parser)
          → IsAt src toks d s
          → Post src toks weight 0 (weight l + 0) d s (comparison_tail src toks operand l s)
      tail l s h = elim (Option-cases (comparison_op (peek src toks s))) [
        | inl plain ↦ rw (plain, comparison_tail) (done h (omega arith) (omega arith))
        | inr (o, compared) ↦
            rw (compared, comparison_tail)
              ((Parses-then src toks 0 (Parses-skip src toks closed)
                  (λ _.
                    Parses-bind src toks 0 (weight l) po
                      (λ r.
                        Parses-pre src toks (binary_node-Parses src toks closed o l r)
                          (omega arith))
                      (omega arith) (omega arith))
                  (omega arith)).run
                s h)
      ]

  is_level-Parses :
      {d : ℕ} {operand : M Expr}
      → One src toks closed d operand
      → One src toks closed d (is_level src toks operand)
  unfolding is_level
  is_level-Parses po = record {
    run = λ s h.
        Post-follow src toks _ 0 0 (po.run s h)
          (λ e t i p.
            Post-pre src toks (is_loop-Post src toks closed (rounds src toks) e t i (omega arith))
              (omega arith))
          (omega arith) (omega arith);
  }

  not_level-Parses :
      {d : ℕ} {not_below is_here : M Expr}
      → Below src toks closed d not_below
      → One src toks closed d is_here
      → One src toks closed d (not_level src toks not_below is_here)
  unfolding not_level not_tail
  not_level-Parses pn pi =
      Parses-choose src toks (λ s. is_not_word (peek src toks s))
        (Parses-then src toks 1 (Parses-skip src toks closed)
          (λ _.
            Parses-then src toks 0 (Parses-nested src toks pn)
              (λ e. Parses-pre src toks (Parses-node src toks (Expr.negation e) refl) (omega arith))
              (omega arith))
          (omega arith))
        pi

  other-Parses :
      {d : ℕ} {unary_here : M Expr}
      → One src toks closed d unary_here
      → One src toks closed d (other src toks unary_here)
  unfolding other
  other-Parses pu =
      level-Parses src toks closed match_op
        (level-Parses src toks closed additive_op (level-Parses src toks closed mul_op pu))

  is_over-Parses :
      {d : ℕ} {unary_here : M Expr}
      → One src toks closed d unary_here
      → One src toks closed d (is_over src toks unary_here)
  unfolding is_over
  is_over-Parses pu = is_level-Parses (comparison-Parses (range-Parses (other-Parses pu)))

  or_over-Parses :
      {d : ℕ} {not_here : M Expr}
      → One src toks closed d not_here
      → One src toks closed d (or_over src toks not_here)
  unfolding or_over
  or_over-Parses pn = level-Parses src toks closed or_op (level-Parses src toks closed and_op pn)

  record LevelsParse (d : ℕ) (l : Levels src toks) : Type 0 where
    or_Parses : One src toks closed d l.or_level
    not_Parses : One src toks closed d l.not_one
    unary_Parses : One src toks closed d l.unary_one

  level_above :
      {d : ℕ} (fuel : ℕ)
      → (suc d ≤ max_depth → LevelsParse (suc d) (levels src toks fuel))
      → LevelsParse d (levels src toks (suc fuel))
  unfolding levels
  level_above {d} fuel below = record {
    or_Parses = or_over-Parses not_here;
    not_Parses = not_here;
    unary_Parses = unary_here;
  }
    where
      unary_here : One src toks closed d (levels src toks (suc fuel)).unary_one
      unary_here =
          unary-Parses src toks closed (λ le. (below le).unary_Parses) (λ le. (below le).or_Parses)

      not_here : One src toks closed d (levels src toks (suc fuel)).not_one
      not_here = not_level-Parses (λ le. (below le).not_Parses) (is_over-Parses unary_here)

  -- One unit of fuel for each level of nesting that is left, and one for the level itself.
  levels-Parse :
      (fuel d : ℕ) → d ≤ max_depth → max_depth < d + fuel → LevelsParse d (levels src toks fuel)
  levels-Parse zero d le enough = absurd (omega arith)
  levels-Parse (suc fuel) d le enough =
      level_above fuel (λ le'. levels-Parse fuel (suc d) le' (omega arith))

  finish-Parses :
      {d : ℕ} (expr : Expr) (tok : Tok)
      → Parses src toks weight 0 (weight expr) d (finish src toks expr tok)
  unfolding finish
  finish-Parses expr eof = Parses-pure src toks expr refl
  finish-Parses expr (op o) = record {
    run = λ s h.
        (Parses-if src toks (is_comparison o) (Parses-error src toks Message.chained_comparison)
            (Parses-error src toks (Message.unexpected (describe (op o))))).run
          s h;
  }
  finish-Parses expr (kw is_kw) = Parses-error src toks _
  finish-Parses expr _ = Parses-error src toks _

  empty-in_range : (ts : List (Tok × ℕ)) → IsClosed ts → 0 < length ts
  empty-in_range [] c = absurd c
  empty-in_range (t ∷ ts) c = omega arith

  pub parse_tokens-Post : Post src toks weight 0 0 0 start (parse_tokens src toks start)
  unfolding parse_tokens
  parse_tokens-Post =
      (Parses-choose src toks (λ s. is_eof (peek src toks s))
          (Parses-error src toks Message.empty_rule) or_then_finish).run
        start
        (record { in_range = empty-in_range toks closed; level = refl; counted = omega arith })
    where
      or_then_finish : Parses src toks weight 0 0 0 (λ s.
          follow
            ((levels src toks (suc max_depth)).or_level s)
            (λ expr s'. finish src toks expr (peek src toks s') s'))
      or_then_finish = record {
        run = λ s h.
            Post-follow src toks _ 0 0
              ((levels-Parse (suc max_depth) 0 (omega arith) (omega arith)).or_Parses.run s h)
              (λ expr t i p.
                Post-pre src toks ((finish-Parses expr (peek src toks t)).run t i) (omega arith))
              (omega arith) (omega arith);
      }
