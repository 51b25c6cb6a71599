-- ===== src/Rules/Parser/Loops.antt =====
-- The loops of the grammar keep the parser's guarantees: one round for each token is enough.
use root_cx.Prelude.{
  ℕ, zero, suc, ◌+◌, ◌<◌, ◌≡◌, refl, Bool, true, false, Option, List, Text, length, Bool-cases,
  Option-cases, if◌then◌else◌, arith, inl, inr,
}
use root_cx.Rules.Ast.{Expr, Exprs, push, BinOp}
use root_cx.Rules.Parser.Weight.{weight, weights, weights-push}
use root_cx.Rules.Outcome.{Message}
use root_cx.Rules.Lexer.{IsClosed, Tok, is_last}
use root_cx.Rules.Parser.State.{Parser, M, pure, peek, error_here, binary_node}
use root_cx.Rules.Parser.Grammar.{
  binary_loop, level, args_loop, items_loop, take_not, is_loop, is_lparen, is_rparen, is_comma,
  is_null_word, is_and_word, is_not_word, is_is_word, rounds,
}
use root_cx.Rules.Parser.Keeps.{
  IsAt, Post, done, Parses, Post-follow, Post-pre, Parses-then, Parses-pure, Parses-error,
  Parses-choose, Parses-skip, Parses-expect, Parses-node,
}

pub is_null_word-goes_on : (t : Tok) → is_null_word t ≡ true → is_last t ≡ false
is_null_word-goes_on t h = ground arith

pub is_rparen-goes_on : (t : Tok) → is_rparen t ≡ true → is_last t ≡ false
is_rparen-goes_on t h = ground arith

pub is_lparen-goes_on : (t : Tok) → is_lparen t ≡ true → is_last t ≡ false
is_lparen-goes_on t h = ground arith

pub is_and_word-goes_on : (t : Tok) → is_and_word t ≡ true → is_last t ≡ false
is_and_word-goes_on t h = ground arith

module _ (src : Text) (toks : List (Tok × ℕ)) (closed : IsClosed toks) where
  pub binary_node-Parses :
      {d : ℕ} (o : BinOp) (l r : Expr)
      → Parses src toks weight 0 (weight l + weight r) d (binary_node src toks o l r)
  unfolding binary_node
  binary_node-Parses o l r = Parses-node src toks _ refl

  -- A loop over operators; `l` is the tree so far.
  binary_loop-Post :
      {d : ℕ} (fuel : ℕ) (next : Tok → Option BinOp) (operand : M Expr) (l : Expr) (s : Parser)
      → Parses src toks weight 1 0 d operand
      → IsAt src toks d s
      → length toks < s.at + fuel
      → Post src toks weight 0 (weight l) d s (binary_loop src toks fuel next operand l s)
  unfolding binary_loop
  binary_loop-Post zero next operand l s po h enough = absurd (omega (arith, h.in_range))
  binary_loop-Post (suc fuel) next operand l s po h enough =
      elim (Option-cases (next (peek src toks s))) [
        | inl stop ↦ rw (stop, binary_loop) (done h (omega arith) refl)
        | inr (o, more) ↦
            rw (more, binary_loop)
              (Post-follow src toks _ 0 (weight l) ((Parses-skip src toks closed).run s h)
                (λ _ t i p.
                  Post-follow src toks _ 0 (weight l) (po.run t i)
                    (λ r t' i' p'.
                      Post-follow src toks _ 0 0 ((binary_node-Parses o l r).run t' i')
                        (λ l' t'' i'' p''.
                          Post-pre src toks
                            (binary_loop-Post fuel next operand l' t'' po i'' (omega arith))
                            (omega arith))
                        (omega arith) (omega arith))
                    (omega arith) (omega arith))
                (omega arith) (omega arith))
      ]

  pub level-Parses :
      {d : ℕ} (next : Tok → Option BinOp) {operand : M Expr}
      → Parses src toks weight 1 0 d operand
      → Parses src toks weight 1 0 d (level src toks next operand)
  unfolding level
  level-Parses next {operand} po = record {
    run = λ s h.
        Post-follow src toks _ 0 0 (po.run s h)
          (λ l t i p.
            Post-pre src toks
              (binary_loop-Post (rounds src toks) next operand l t po i (omega arith))
              (omega arith))
          (omega arith) (omega arith);
  }

  pub args_loop-Post :
      {d : ℕ} (fuel : ℕ) (item : M Expr) (args : Exprs) (s : Parser)
      → Parses src toks weight 1 0 d item
      → IsAt src toks d s
      → length toks < s.at + fuel
      → Post src toks weights 0 (weights args) d s (args_loop src toks fuel item args s)
  unfolding args_loop
  args_loop-Post zero item args s po h enough = absurd (omega (arith, h.in_range))
  args_loop-Post (suc fuel) item args s po h enough =
      elim (Bool-cases (is_comma (peek src toks s))) [
        | inr stop ↦ rw (stop, args_loop) (done h (omega arith) refl)
        | inl more ↦
            rw (more, args_loop)
              (Post-follow src toks _ 0 (weights args) ((Parses-skip src toks closed).run s h)
                (λ _ t i p.
                  Post-follow src toks _ 0 (weights args) (po.run t i)
                    (λ a t' i' p'.
                      Post-pre src toks
                        (args_loop-Post fuel item (push args a) t' po i' (omega arith))
                        (omega (arith, weights-push args a)))
                    (omega arith) (omega arith))
                (omega arith) (omega arith))
      ]

  Post-limit :
      {d pre : ℕ} (b : Bool) (message : Message) (m : M Exprs) (s : Parser)
      → IsAt src toks d s
      → Post src toks weights 0 pre d s (m s)
      → Post src toks weights 0 pre d s ((if b then error_here src toks message else m) s)
  Post-limit true message m s h p = (Parses-error src toks message).run s h
  Post-limit false message m s h p = p

  pub items_loop-Post :
      {d : ℕ} (fuel : ℕ) (item : M Expr) (list : Exprs) (s : Parser)
      → Parses src toks weight 1 0 d item
      → IsAt src toks d s
      → length toks < s.at + fuel
      → Post src toks weights 0 (weights list) d s (items_loop src toks fuel item list s)
  unfolding items_loop
  items_loop-Post zero item list s po h enough = absurd (omega (arith, h.in_range))
  items_loop-Post (suc fuel) item list s po h enough =
      elim (Bool-cases (is_comma (peek src toks s))) [
        | inr stop ↦ rw (stop, items_loop) (done h (omega arith) refl)
        | inl more ↦
            rw (more, items_loop)
              (Post-follow src toks _ 0 (weights list) ((Parses-skip src toks closed).run s h)
                (λ _ t i p.
                  Post-follow src toks _ 0 (weights list) (po.run t i)
                    (λ a t' i' p'.
                      Post-limit _ _ (items_loop src toks fuel item (push list a)) t' i' (
                        Post-pre src toks
                          (items_loop-Post fuel item (push list a) t' po i' (omega arith))
                          (omega (arith, weights-push list a))))
                    (omega arith) (omega arith))
                (omega arith) (omega arith))
      ]

  pub take_not-Parses : {d : ℕ} → Parses src toks (λ _. 0) 0 0 d (take_not src toks)
  unfolding take_not pure
  take_not-Parses =
      Parses-choose src toks (λ s. is_not_word (peek src toks s))
        (Parses-then src toks 0 (Parses-skip src toks closed) (λ _. Parses-pure src toks true refl)
          (omega arith))
        (Parses-pure src toks false refl)

  pub is_loop-Post :
      {d : ℕ} (fuel : ℕ) (e : Expr) (s : Parser)
      → IsAt src toks d s
      → length toks < s.at + fuel
      → Post src toks weight 0 (weight e) d s (is_loop src toks fuel e s)
  unfolding is_loop
  is_loop-Post zero e s h enough = absurd (omega (arith, h.in_range))
  is_loop-Post (suc fuel) e s h enough = elim (Bool-cases (is_is_word (peek src toks s))) [
    | inr stop ↦ rw (stop, is_loop) (done h (omega arith) refl)
    | inl more ↦
        rw (more, is_loop)
          (Post-follow src toks _ 0 (weight e) ((Parses-skip src toks closed).run s h)
            (λ _ t i p.
              Post-follow src toks _ 0 (weight e) (take_not-Parses.run t i)
                (λ negated t1 i1 p1.
                  Post-follow src toks _ 0 (weight e)
                    ((Parses-expect src toks closed is_null_word _ is_null_word-goes_on).run t1 i1)
                    (λ _ t2 i2 p2.
                      Post-follow src toks _ 0 0
                        ((Parses-node src toks (Expr.is_null e negated) refl).run t2 i2)
                        (λ e' t3 i3 p3.
                          Post-pre src toks (is_loop-Post fuel e' t3 i3 (omega arith))
                            (omega arith))
                        (omega arith) (omega arith))
                    (omega arith) (omega arith))
                (omega arith) (omega arith))
            (omega arith) (omega arith))
  ]
