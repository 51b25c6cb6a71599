-- ===== src/Rules/Ast.antt =====
-- core/src/rules/ast.rs. A `Vec<Expr>` is the list type of the mutual block; `Box` is dropped.
use root_cx.Prelude.{
  ℕ, suc, ◌+◌, ◌≡◌, Bool, true, false, Option, none, some, List, [], ◌∷◌, ◌++◌, Text, bytes,
  text_eq, any, if◌then◌else◌,
}

pub data LiteralType : Type 0 where
  date timestamp uuid : LiteralType

pub data IntervalUnit : Type 0 where
  days hours minutes seconds : IntervalUnit

pub data BinOp : Type 0 where
  or and eq ne lt le gt ge match add sub mul : BinOp

pub data Func : Type 0 where
  length btrim upper lower coalesce scale trunc abs jsonb_typeof jsonb_array_length : Func

mutual
  pub data Expr : Type 0 where
    field : Text → Expr
    text : Text → Expr
    number : Text → Expr
    bool : Bool → Expr
    typed : LiteralType → Text → Expr
    interval : ℕ → IntervalUnit → Expr
    negation : Expr → Expr
    neg : Expr → Expr
    binary : BinOp → Expr → Expr → Expr
    is_null : Expr → Bool → Expr
    between : Expr → Expr → Expr → Bool → Expr
    in_list : Expr → Exprs → Bool → Expr
    call : Func → Exprs → Expr
    array_within : Text → List Text → Expr
    finite : Expr → Bool → Expr

  pub data Exprs : Type 0 where
    nil : Exprs
    cons : Expr → Exprs → Exprs

unfoldable pub as_str : IntervalUnit → Text
as_str IntervalUnit.days = bytes "days"
as_str IntervalUnit.hours = bytes "hours"
as_str IntervalUnit.minutes = bytes "minutes"
as_str IntervalUnit.seconds = bytes "seconds"

unfoldable pub op_sql : BinOp → Text
op_sql BinOp.or = bytes "OR"
op_sql BinOp.and = bytes "AND"
op_sql BinOp.eq = bytes "="
op_sql BinOp.ne = bytes "<>"
op_sql BinOp.lt = bytes "<"
op_sql BinOp.le = bytes "<="
op_sql BinOp.gt = bytes ">"
op_sql BinOp.ge = bytes ">="
op_sql BinOp.match = bytes "~"
op_sql BinOp.add = bytes "+"
op_sql BinOp.sub = bytes "-"
op_sql BinOp.mul = bytes "*"

abbrev pub is_comparison : BinOp → Bool
is_comparison BinOp.eq = true
is_comparison BinOp.ne = true
is_comparison BinOp.lt = true
is_comparison BinOp.le = true
is_comparison BinOp.gt = true
is_comparison BinOp.ge = true
is_comparison _ = false

-- `Func::from_name`; `trim` is a second name of `btrim`.
unfoldable pub from_name : Text → Option Func
from_name name =
    if text_eq name (bytes "length")
    then some Func.length
    else if text_eq name (bytes "btrim")
    then some Func.btrim
    else if text_eq name (bytes "trim")
    then some Func.btrim
    else if text_eq name (bytes "upper")
    then some Func.upper
    else if text_eq name (bytes "lower")
    then some Func.lower
    else if text_eq name (bytes "coalesce")
    then some Func.coalesce
    else if text_eq name (bytes "scale")
    then some Func.scale
    else if text_eq name (bytes "trunc")
    then some Func.trunc
    else if text_eq name (bytes "abs")
    then some Func.abs
    else if text_eq name (bytes "jsonb_typeof")
    then some Func.jsonb_typeof
    else if text_eq name (bytes "jsonb_array_length")
    then some Func.jsonb_array_length
    else none

unfoldable pub sql_name : Func → Text
sql_name Func.length = bytes "length"
sql_name Func.btrim = bytes "btrim"
sql_name Func.upper = bytes "upper"
sql_name Func.lower = bytes "lower"
sql_name Func.coalesce = bytes "coalesce"
sql_name Func.scale = bytes "scale"
sql_name Func.trunc = bytes "trunc"
sql_name Func.abs = bytes "abs"
sql_name Func.jsonb_typeof = bytes "jsonb_typeof"
sql_name Func.jsonb_array_length = bytes "jsonb_array_length"

abbrev pub arity : Func → ℕ
arity Func.coalesce = 2
arity _ = 1

abbrev pub exprs_length : Exprs → ℕ
exprs_length nil = 0
exprs_length (cons e es) = suc (exprs_length es)

-- `args.push(e)`
abbrev pub push : Exprs → Expr → Exprs
push nil e = cons e nil
push (cons x xs) e = cons x (push xs e)

abbrev pub remember : List Text → Text → List Text
remember out name = if any (text_eq name) out then out else out ++ name ∷ []

-- `Expr::fields`: the fields read, each once, in the order of their first use.
unfoldable mutual
  pub fields : Expr → List Text → List Text
  fields (field name) out = remember out name
  fields (text value) out = out
  fields (number value) out = out
  fields (bool value) out = out
  fields (typed ty value) out = out
  fields (interval amount unit) out = out
  fields (negation e) out = fields e out
  fields (neg e) out = fields e out
  fields (binary op l r) out = fields r (fields l out)
  fields (is_null e negated) out = fields e out
  fields (between e lo hi negated) out = fields hi (fields lo (fields e out))
  fields (in_list e list negated) out = fields_each list (fields e out)
  fields (call func args) out = fields_each args out
  fields (array_within name values) out = remember out name
  fields (finite e numeric) out = fields e out

  pub fields_each : Exprs → List Text → List Text
  fields_each nil out = out
  fields_each (cons e es) out = fields_each es (fields e out)

-- The nodes of a tree.
abbrev mutual
  pub size : Expr → ℕ
  size (field name) = 1
  size (text value) = 1
  size (number value) = 1
  size (bool value) = 1
  size (typed ty value) = 1
  size (interval amount unit) = 1
  size (negation e) = suc (size e)
  size (neg e) = suc (size e)
  size (binary op l r) = suc (size l + size r)
  size (is_null e negated) = suc (size e)
  size (between e lo hi negated) = suc (size e + (size lo + size hi))
  size (in_list e list negated) = suc (size e + sizes list)
  size (call func args) = suc (sizes args)
  size (array_within name values) = 1
  size (finite e numeric) = suc (size e)

  pub sizes : Exprs → ℕ
  sizes nil = 0
  sizes (cons e es) = size e + sizes es

-- Every call of the tree has as many arguments as its function takes.
abbrev mutual
  pub WellCalled : Expr → Type 0
  WellCalled (field name) = Unit
  WellCalled (text value) = Unit
  WellCalled (number value) = Unit
  WellCalled (bool value) = Unit
  WellCalled (typed ty value) = Unit
  WellCalled (interval amount unit) = Unit
  WellCalled (negation e) = WellCalled e
  WellCalled (neg e) = WellCalled e
  WellCalled (binary op l r) = WellCalled l × WellCalled r
  WellCalled (is_null e negated) = WellCalled e
  WellCalled (between e lo hi negated) = WellCalled e × WellCalled lo × WellCalled hi
  WellCalled (in_list e list negated) = WellCalled e × EachCalled list
  WellCalled (call func args) = (exprs_length args ≡ arity func) × EachCalled args
  WellCalled (array_within name values) = Unit
  WellCalled (finite e numeric) = WellCalled e

  pub EachCalled : Exprs → Type 0
  EachCalled nil = Unit
  EachCalled (cons e es) = WellCalled e × EachCalled es
