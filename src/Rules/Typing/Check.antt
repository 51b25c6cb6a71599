-- ===== src/Rules/Typing/Check.antt =====
-- core/src/rules/typing.rs, `Checker`.
use root_cx.Prelude.{
  Bool, true, false, ◌&&◌, ◌||◌, not, Option, none, some, List, [], ◌∷◌, Text, length, ◌==◌,
  if◌then◌else◌,
}
use root_cx.Rules.Ast.{Expr, Exprs, nil, cons, BinOp, Func, LiteralType, fields}
use root_cx.Rules.Pattern
use root_cx.Rules.Pattern.{Verdict, admitted, refused}
use root_cx.Rules.Typing.Types.{
  Ty, ty_eq, is_numeric, is_text, orderable, Field, Fields, lookup, Refusal, Checked, ok, err,
  panic, ◌>>=◌, ◌>>◌, expect, Spellings,
}

pub is_literal : Expr → Bool
is_literal (Expr.text value) = true
is_literal (Expr.number value) = true
is_literal (Expr.bool value) = true
is_literal (Expr.neg (Expr.number value)) = true
is_literal _ = false

pub arithmetic : Ty → Ty → Ty
arithmetic a b =
    if ty_eq a Ty.float || ty_eq b Ty.float
    then Ty.float
    else if ty_eq a Ty.numeric || ty_eq b Ty.numeric
    then Ty.numeric
    else if ty_eq a Ty.int || ty_eq b Ty.int
    then Ty.int
    else Ty.num_lit

pub compatible : Ty → Ty → Bool
compatible a b =
    ((is_numeric a && is_numeric b) || ((is_text a && is_text b) || ty_eq a b))
    && not (ty_eq a Ty.text_lit && ty_eq b Ty.text_lit)

abbrev pub literal_type : LiteralType → Ty
literal_type LiteralType.date = Ty.date
literal_type LiteralType.timestamp = Ty.timestamp
literal_type LiteralType.uuid = Ty.uuid

-- `Ty::Date | Ty::Timestamp | Ty::Uuid`
abbrev pub takes_literal : Ty → Bool
takes_literal Ty.date = true
takes_literal Ty.timestamp = true
takes_literal Ty.uuid = true
takes_literal _ = false

abbrev pub Typed : Type 0
Typed = Expr × Ty

abbrev pub is_sub : BinOp → Bool
is_sub BinOp.sub = true
is_sub _ = false

abbrev pub wrap : BinOp → Typed → Typed → Ty → Typed
wrap op l r ty = (Expr.binary op l.0 r.0, ty)

abbrev pub orders : BinOp → Bool
orders BinOp.eq = false
orders BinOp.ne = false
orders _ = true

abbrev pub is_document : Ty → Bool
is_document Ty.json = true
is_document Ty.array = true
is_document _ = false

abbrev pub timestamp_literal : Text → Option Text → Checked Expr
timestamp_literal value (some instant) = ok (Expr.typed LiteralType.timestamp instant)
timestamp_literal value none = err (Refusal.not_a_timestamp value)

-- `.filter(|_| value.len() == 36)`
abbrev pub uuid_literal : Text → Option Text → Checked Expr
uuid_literal value (some hyphenated) =
    if length value == 36
    then ok (Expr.typed LiteralType.uuid hyphenated)
    else err (Refusal.not_a_uuid value)
uuid_literal value none = err (Refusal.not_a_uuid value)

abbrev pub match_of : Typed → Text → Verdict → Checked Typed
match_of l value admitted = ok (wrap BinOp.match l (Expr.text value, Ty.text_lit) Ty.bool)
match_of l value (refused why) = err Refusal.bad_pattern

module _ (known : Fields) (spell : Spellings) (parse_regex : Text → Option Pattern.Ast) where
  unfoldable pub typed_literal : Ty → Text → Checked Expr
  typed_literal Ty.date value =
      if length value == 10 && spell.is_date value
      then ok (Expr.typed LiteralType.date value)
      else err (Refusal.not_a_date value)
  typed_literal Ty.timestamp value = timestamp_literal value (spell.timestamp_of value)
  typed_literal Ty.uuid value = uuid_literal value (spell.uuid_of value)
  typed_literal _ value = panic

  -- The `match` of `unify`: a text literal takes the type that it meets.
  unfoldable pub adopt : Ty → Typed → Checked Typed
  adopt ty (Expr.text value, Ty.text_lit) =
      if takes_literal ty
      then (do literal ← typed_literal ty value; ok (literal, ty))
      else ok (Expr.text value, Ty.text_lit)
  adopt ty other = ok other

  -- `unify`, on the checked other side.
  unfoldable pub unify : Ty → Typed → Checked Typed
  unify ty other = do
    met ← adopt ty other
    expect (compatible ty met.1) (Refusal.cannot_compare ty met.1)
    ok met

  -- A text literal on the left is unified with the right side. There the code checks it once more,
  -- which gives it again: only `Expr.text` has the type `text_lit`.
  unfoldable pub sides : Typed → Typed → Checked (Typed × Typed)
  sides l r =
      if ty_eq l.1 Ty.text_lit
      then (do l' ← unify r.1 l; ok (l', r))
      else (do r' ← unify l.1 r; ok (l, r'))

  unfoldable pub compare : BinOp → Typed → Typed → Checked Typed
  compare op l r = do
    both ← sides l r
    expect (not (orders op) || (orderable both.0.1 && orderable both.1.1))
        (Refusal.cannot_order op both.0.1 both.1.1)
    expect (not (is_document both.0.1)) (Refusal.cannot_compare_type op both.0.1)
    ok (wrap op both.0 both.1 Ty.bool)

  unfoldable pub combine : BinOp → Typed → Typed → Checked Typed
  combine op l r =
      if ty_eq l.1 Ty.timestamp && (ty_eq r.1 Ty.timestamp && is_sub op)
      then ok (wrap op l r Ty.interval)
      else if ty_eq l.1 Ty.date && (ty_eq r.1 Ty.date && is_sub op)
      then ok (wrap op l r Ty.int)
      else if is_numeric l.1 && is_numeric r.1
      then ok (wrap op l r (arithmetic l.1 r.1))
      else err (Refusal.cannot_combine op l.1 r.1)

  -- `~`: the pattern is looked at as it is written; it is not checked as an expression.
  unfoldable pub match : Typed → Expr → Checked Typed
  match l (Expr.text value) = do
    expect (ty_eq l.1 Ty.text) (Refusal.match_needs_text l.1)
    match_of l value (Pattern.validate parse_regex value)
  match l r = do
    expect (ty_eq l.1 Ty.text) (Refusal.match_needs_text l.1)
    err Refusal.match_needs_pattern

  abbrev pub connect : BinOp → Typed → Typed → Checked Typed
  connect op l r = do
    expect (ty_eq l.1 Ty.bool && ty_eq r.1 Ty.bool) (Refusal.needs_booleans op)
    ok (wrap op l r Ty.bool)

  -- `binary`: the left side, the right side as written, and the right side checked.
  unfoldable pub binary : BinOp → Typed → Expr → Checked Typed → Checked Typed
  binary BinOp.and l raw checked = checked >>= connect BinOp.and l
  binary BinOp.or l raw checked = checked >>= connect BinOp.or l
  binary BinOp.match l raw checked = match l raw
  binary BinOp.add l raw checked = checked >>= combine BinOp.add l
  binary BinOp.sub l raw checked = checked >>= combine BinOp.sub l
  binary BinOp.mul l raw checked = checked >>= combine BinOp.mul l
  binary op l raw checked = checked >>= compare op l

  abbrev pub untyped : List Typed → Exprs
  untyped [] = nil
  untyped (arg ∷ args) = cons arg.0 (untyped args)

  abbrev is_measure : Ty → Bool
  is_measure Ty.float = true
  is_measure Ty.numeric = true
  is_measure _ = false

  abbrev pub starts_coalesce : Ty → Bool
  starts_coalesce Ty.num_lit = false
  starts_coalesce Ty.text_lit = false
  starts_coalesce Ty.json = false
  starts_coalesce Ty.array = false
  starts_coalesce _ = true

  -- A function of one argument that takes the types which pass the test.
  abbrev pub simple : Func → Bool → Ty → List Typed → Ty → Checked Typed
  simple func accepted given args ty = do
    expect accepted (Refusal.not_accepted func given)
    ok (Expr.call func (untyped args), ty)

  -- `coalesce`: the fallback is unified with the first argument.
  abbrev pub coalesce : Typed → List Typed → Checked Typed
  coalesce first [] = do
    expect (starts_coalesce first.1) Refusal.coalesce_starts_with_literal
    panic
  coalesce first (second ∷ rest) = do
    expect (starts_coalesce first.1) Refusal.coalesce_starts_with_literal
    fallback ← unify first.1 second
    ok (
      Expr.call Func.coalesce (untyped (first ∷ fallback ∷ rest)),
      if is_numeric first.1 then arithmetic first.1 fallback.1 else first.1,
    )

  -- The `match func` of `call`, on the checked arguments; `types[0]` is the head.
  unfoldable pub call : Func → List Typed → Checked Typed
  call func [] = panic
  call Func.length (a ∷ more) = simple Func.length (is_text a.1) a.1 (a ∷ more) Ty.int
  call Func.btrim (a ∷ more) = simple Func.btrim (is_text a.1) a.1 (a ∷ more) Ty.text
  call Func.upper (a ∷ more) = simple Func.upper (is_text a.1) a.1 (a ∷ more) Ty.text
  call Func.lower (a ∷ more) = simple Func.lower (is_text a.1) a.1 (a ∷ more) Ty.text
  call Func.scale (a ∷ more) = simple Func.scale (ty_eq a.1 Ty.numeric) a.1 (a ∷ more) Ty.int
  call Func.trunc (a ∷ more) = simple Func.trunc (is_measure a.1) a.1 (a ∷ more) a.1
  call Func.abs (a ∷ more) = simple Func.abs (is_measure a.1 || ty_eq a.1 Ty.int) a.1 (a ∷ more) a.1
  call Func.jsonb_typeof (a ∷ more) =
      simple Func.jsonb_typeof (ty_eq a.1 Ty.json) a.1 (a ∷ more) Ty.text
  call Func.jsonb_array_length (a ∷ more) =
      simple Func.jsonb_array_length (ty_eq a.1 Ty.json) a.1 (a ∷ more) Ty.int
  call Func.coalesce (a ∷ more) = coalesce a more

  abbrev in_scalar : Ty → Bool
  in_scalar ty = is_numeric ty || (is_text ty || (ty_eq ty Ty.date || ty_eq ty Ty.uuid))

  abbrev pub of_field : Text → Option Field → Checked Typed
  of_field name none = err (Refusal.unknown_field name)
  of_field name (some field) = ok (Expr.field name, field.ty)

  abbrev pub negation_of : Typed → Checked Typed
  negation_of c = do
    expect (ty_eq c.1 Ty.bool) (Refusal.not_needs_boolean c.1)
    ok (Expr.negation c.0, Ty.bool)

  abbrev pub neg_of : Typed → Checked Typed
  neg_of c = do expect (is_numeric c.1) (Refusal.neg_needs_number c.1); ok (Expr.neg c.0, c.1)

  -- `BETWEEN`: both bounds are unified with the operand, the lower one first.
  abbrev pub between_of : Bool → Checked Typed → Checked Typed → Typed → Checked Typed
  between_of negated lo hi c = do
    expect (orderable c.1) (Refusal.between_needs_order c.1)
    lo' ← lo >>= unify c.1
    hi' ← hi >>= unify c.1
    ok (Expr.between c.0 lo'.0 hi'.0 negated, Ty.bool)

  -- One item of an IN list: a literal, unified with the operand.
  abbrev pub item_of : Ty → Expr → Checked Typed → Checked Exprs → Checked Exprs
  item_of ty item checked rest = do
    expect (is_literal item) Refusal.literals_only
    item' ← checked >>= unify ty
    rest' ← rest
    ok (cons item'.0 rest')

  abbrev pub in_of : Bool → (Ty → Checked Exprs) → Typed → Checked Typed
  in_of negated items c = do
    expect (in_scalar c.1) (Refusal.in_needs_scalar c.1)
    list' ← items c.1
    ok (Expr.in_list c.0 list' negated, Ty.bool)

  unfoldable mutual
    pub check : Expr → Checked Typed
    check (Expr.field name) = of_field name (lookup name known)
    check (Expr.text value) = ok (Expr.text value, Ty.text_lit)
    check (Expr.number value) = ok (Expr.number value, Ty.num_lit)
    check (Expr.bool value) = ok (Expr.bool value, Ty.bool)
    check (Expr.interval amount unit) = ok (Expr.interval amount unit, Ty.interval)
    check (Expr.typed ty value) = ok (Expr.typed ty value, literal_type ty)
    check (Expr.negation e) = check e >>= negation_of
    check (Expr.neg e) = check e >>= neg_of
    check (Expr.is_null e negated) = check e >>= λ c. ok (Expr.is_null c.0 negated, Ty.bool)
    check (Expr.binary op l r) = check l >>= λ c. binary op c r (check r)
    check (Expr.between e lo hi negated) = check e >>= between_of negated (check lo) (check hi)
    check (Expr.in_list e list negated) = check e >>= in_of negated (check_items list)
    check (Expr.call func args) = check_args args >>= call func
    check (Expr.array_within name values) = ok (Expr.array_within name values, Ty.bool)
    check (Expr.finite e numeric) = check e >>= λ c. ok (Expr.finite c.0 numeric, Ty.bool)

    pub check_items : Exprs → Ty → Checked Exprs
    check_items nil ty = ok nil
    check_items (cons item rest) ty = item_of ty item (check item) (check_items rest ty)

    pub check_args : Exprs → Checked (List Typed)
    check_args nil = ok []
    check_args (cons arg args) = do a ← check arg; more ← check_args args; ok (a ∷ more)

  -- `Checker::boolean`: a rule that must be a condition.
  unfoldable pub boolean : Expr → Checked Expr
  boolean expr = do c ← check expr; expect (ty_eq c.1 Ty.bool) (Refusal.not_a_condition c.1); ok c.0

  abbrev has_field : List Text → Bool
  has_field [] = false
  has_field (_ ∷ _) = true

  abbrev is_literal_type : Ty → Bool
  is_literal_type Ty.num_lit = true
  is_literal_type Ty.text_lit = true
  is_literal_type _ = false

  -- `Checker::scalar`: the key of an index.
  unfoldable pub scalar : Expr → Checked Expr
  scalar expr = do
    c ← check expr
    expect (has_field (fields c.0 []) && not (is_literal_type c.1)) Refusal.index_without_field
    ok c.0
