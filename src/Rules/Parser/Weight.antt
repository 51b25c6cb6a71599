-- ===== src/Rules/Parser/Weight.antt =====
-- The weight of a tree: its nodes, and more than the limit on nodes for each call that does not have
-- the arguments that its function takes. The parser counts it exactly, so that what it returns within
-- the limit has no such call.
use root_cx.Prelude.{
  ℕ, suc, ◌+◌, ◌≤◌, ◌≡◌, refl, arith, true, false, Bool-cases, inl, inr, ==_iff, ◌==◌,
  if◌then◌else◌,
}
use root_cx.Rules.Ast.{
  Expr, Exprs, nil, cons, push, Func, arity, exprs_length, size, sizes, WellCalled, EachCalled,
}
use root_cx.Rules.Parser.State.{max_nodes}

abbrev pub excess : Func → Exprs → ℕ
excess func args = if exprs_length args == arity func then 0 else suc max_nodes

pub no_excess :
    (func : Func) (args : Exprs) → (exprs_length args == arity func) ≡ true → excess func args ≡ 0
no_excess func args t = rw (t, excess) refl

abbrev mutual
  pub weight : Expr → ℕ
  weight (Expr.field name) = 1
  weight (Expr.text value) = 1
  weight (Expr.number value) = 1
  weight (Expr.bool value) = 1
  weight (Expr.typed ty value) = 1
  weight (Expr.interval amount unit) = 1
  weight (Expr.negation e) = suc (weight e)
  weight (Expr.neg e) = suc (weight e)
  weight (Expr.binary op l r) = suc (weight l + weight r)
  weight (Expr.is_null e negated) = suc (weight e)
  weight (Expr.between e lo hi negated) = suc (weight e + (weight lo + weight hi))
  weight (Expr.in_list e list negated) = suc (weight e + weights list)
  weight (Expr.call func args) = suc (weights args + excess func args)
  weight (Expr.array_within name values) = 1
  weight (Expr.finite e numeric) = suc (weight e)

  pub weights : Exprs → ℕ
  weights nil = 0
  weights (cons e es) = weight e + weights es

pub weights-push : (es : Exprs) (e : Expr) → weights (push es e) ≡ weights es + weight e
weights-push nil e = omega arith
weights-push (cons x xs) e = omega (arith, weights-push xs e)

mutual
  WellCalled-of_weight : (e : Expr) → weight e ≤ max_nodes → WellCalled e × (size e ≤ weight e)
  WellCalled-of_weight (Expr.field name) h = (tt, omega arith)
  WellCalled-of_weight (Expr.text value) h = (tt, omega arith)
  WellCalled-of_weight (Expr.number value) h = (tt, omega arith)
  WellCalled-of_weight (Expr.bool value) h = (tt, omega arith)
  WellCalled-of_weight (Expr.typed ty value) h = (tt, omega arith)
  WellCalled-of_weight (Expr.interval amount unit) h = (tt, omega arith)
  WellCalled-of_weight (Expr.negation e) h =
      let (w, le) = WellCalled-of_weight e (omega arith) in (w, omega arith)
  WellCalled-of_weight (Expr.neg e) h =
      let (w, le) = WellCalled-of_weight e (omega arith) in (w, omega arith)
  WellCalled-of_weight (Expr.binary op l r) h =
      let (w, le) = WellCalled-of_weight l (omega arith) in
      let (w', le') = WellCalled-of_weight r (omega arith) in ((w, w'), omega arith)
  WellCalled-of_weight (Expr.is_null e negated) h =
      let (w, le) = WellCalled-of_weight e (omega arith) in (w, omega arith)
  WellCalled-of_weight (Expr.between e lo hi negated) h =
      let (w, le) = WellCalled-of_weight e (omega arith) in
      let (w', le') = WellCalled-of_weight lo (omega arith) in
      let (w'', le'') = WellCalled-of_weight hi (omega arith) in ((w, w', w''), omega arith)
  WellCalled-of_weight (Expr.in_list e list negated) h =
      let (w, le) = WellCalled-of_weight e (omega arith) in
      let (w', le') = EachCalled-of_weights list (omega arith) in ((w, w'), omega arith)
  WellCalled-of_weight (Expr.call func args) h =
      let (w, le) = EachCalled-of_weights args (omega arith) in
      elim (Bool-cases (exprs_length args == arity func)) [
        | inl t ↦ (((==_iff (exprs_length args) (arity func)).0 t, w), omega arith)
        | inr f ↦ absurd (too_heavy f (omega arith))
      ]
    where
      too_heavy : (exprs_length args == arity func) ≡ false → excess func args ≤ max_nodes → ⊥
      too_heavy f le = ground arith
  WellCalled-of_weight (Expr.array_within name values) h = (tt, omega arith)
  WellCalled-of_weight (Expr.finite e numeric) h =
      let (w, le) = WellCalled-of_weight e (omega arith) in (w, omega arith)

  EachCalled-of_weights :
      (es : Exprs) → weights es ≤ max_nodes → EachCalled es × (sizes es ≤ weights es)
  EachCalled-of_weights nil h = (tt, omega arith)
  EachCalled-of_weights (cons e es) h =
      let (w, le) = WellCalled-of_weight e (omega arith) in
      let (w', le') = EachCalled-of_weights es (omega arith) in ((w, w'), omega arith)

pub weight-WellCalled : (e : Expr) → weight e ≤ max_nodes → WellCalled e × (size e ≤ weight e)
weight-WellCalled = WellCalled-of_weight
