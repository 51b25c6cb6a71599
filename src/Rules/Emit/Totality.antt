-- ===== src/Rules/Emit/Totality.antt =====
-- core/src/rules/emit.rs: the emission of a tree whose calls have their arguments does not panic.
use root_cx.Prelude.{◌≡◌, ◌∙◌, ap, refl, arith, Option, some, List, [], ◌∷◌, Text, length, suc}
use root_cx.Rules.Ast.{WellCalled, EachCalled, Expr, Exprs, nil, cons, Func, exprs_length, arity}
use root_cx.Rules.Emit.{sql, sql_each, call_sql, ◌>>=◌}

-- The emission gives a result, which has the property.
data Emits {A : Type 0} (P : A → Type 0) : Option A → Type 0 where
  emits : {a : A} → P a → Emits P (some a)

abbrev Any : Text → Type 0
Any s = Unit

Emits-bind :
    {A B : Type 0} {P : A → Type 0} {Q : B → Type 0} {m : Option A} (f : A → Option B)
    → Emits P m
    → ((a : A) → P a → Emits Q (f a))
    → Emits Q (m >>= f)
Emits-bind f (emits h) k = k _ h

Emits-then : {m : Option Text} (f : Text → Text) → Emits Any m → Emits Any (m >>= λ s. some (f s))
Emits-then f (emits h) = emits tt

call_sql-Emits :
    (func : Func) (args : List Text) → length args ≡ arity func → Emits Any (call_sql func args)
unfolding call_sql
call_sql-Emits Func.coalesce [] h = ground arith
call_sql-Emits Func.coalesce (a ∷ []) h = ground arith
call_sql-Emits Func.coalesce (a ∷ b ∷ args) h = emits tt
call_sql-Emits Func.jsonb_array_length [] h = ground arith
call_sql-Emits Func.jsonb_array_length (a ∷ args) h = emits tt
call_sql-Emits func args h = emits tt

mutual
  unfolding sql sql_each

  sql-Emits : (e : Expr) → WellCalled e → Emits Any (sql e)
  sql-Emits (Expr.field name) w = emits tt
  sql-Emits (Expr.text value) w = emits tt
  sql-Emits (Expr.number value) w = emits tt
  sql-Emits (Expr.bool value) w = emits tt
  sql-Emits (Expr.typed ty value) w = emits tt
  sql-Emits (Expr.interval amount unit) w = emits tt
  sql-Emits (Expr.negation e) w = Emits-then _ (sql-Emits e w)
  sql-Emits (Expr.neg e) w = Emits-then _ (sql-Emits e w)
  sql-Emits (Expr.binary op l r) w =
      let right = sql-Emits r w.1 in Emits-bind _ (sql-Emits l w.0) λ a t. Emits-then _ right
  sql-Emits (Expr.is_null e negated) w = Emits-then _ (sql-Emits e w)
  sql-Emits (Expr.between e lo hi negated) w =
      let low = sql-Emits lo w.1 in
      let high = sql-Emits hi w.2 in
      Emits-bind _ (sql-Emits e w.0) λ s t. Emits-bind _ low λ a t. Emits-then _ high
  sql-Emits (Expr.in_list e list negated) w =
      let items = sql_each-Emits list w.1 in
      Emits-bind _ (sql-Emits e w.0) λ s t. Emits-bind _ items λ is t. emits tt
  sql-Emits (Expr.call func args) w =
      Emits-bind _ (sql_each-Emits args w.1) λ items same. call_sql-Emits func items (same ∙ w.0)
  sql-Emits (Expr.array_within name values) w = emits tt
  sql-Emits (Expr.finite e numeric) w = Emits-then _ (sql-Emits e w)

  sql_each-Emits :
      (es : Exprs) → EachCalled es → Emits (λ texts. length texts ≡ exprs_length es) (sql_each es)
  sql_each-Emits nil w = emits refl
  sql_each-Emits (cons e es) w =
      let rest = sql_each-Emits es w.1 in
      Emits-bind _ (sql-Emits e w.0) λ s t. Emits-bind _ rest λ more same. emits (ap suc same)

-- Where each call has the arguments that its function takes, the emission gives a text: neither
-- `args[0]` nor `args[1]` is out of range.
pub sql_total : (e : Expr) → WellCalled e → (s : Text) × (sql e ≡ some s)
sql_total e w = text_of (sql-Emits e w)
  where
    text_of : {m : Option Text} → Emits Any m → (s : Text) × (m ≡ some s)
    text_of (emits {a} h) = (a, refl)
