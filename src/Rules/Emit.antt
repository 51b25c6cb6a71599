-- ===== src/Rules/Emit.antt =====
-- core/src/rules/emit.rs, with `quote_ident` and `quote_literal` of core/src/manifest.rs.
use root_cx.Prelude.{
  ℕ, zero, suc, ◌+◌, ◌/◌, ◌%◌, Bool, true, false, Option, none, some, List, [], ◌∷◌, ◌++◌, Text,
  bytes, ltb, ◌==◌, if◌then◌else◌,
}
use root_cx.Rules.Ast.{
  Expr, Exprs, nil, cons, BinOp, Func, LiteralType, IntervalUnit, as_str, op_sql, sql_name,
}
pub mod Quotes
pub mod Totality
pub mod Decimal
pub mod Intervals

-- `replace(q, "qq")`
unfoldable pub doubled : ℕ → Text → Text
doubled q [] = []
doubled q (c ∷ s) = let rest = doubled q s in if c == q then q ∷ q ∷ rest else c ∷ rest

unfoldable pub quote_ident : Text → Text
quote_ident ident = bytes "\"" ++ doubled 34 ident ++ bytes "\""

unfoldable pub quote_literal : Text → Text
quote_literal s = bytes "'" ++ doubled 39 s ++ bytes "'"

-- A number in decimal digits. Each step divides by ten, so that `n` steps are enough for `n`.
unfoldable pub digits : ℕ → ℕ → Text
digits zero n = (48 + n % 10) ∷ []
digits (suc fuel) n =
    let higher = digits fuel (n / 10) in
    if ltb n 10 then (48 + n) ∷ [] else higher ++ (48 + n % 10) ∷ []

unfoldable pub decimal : ℕ → Text
decimal n = digits n n

abbrev pub literal_name : LiteralType → Text
literal_name LiteralType.date = bytes "date"
literal_name LiteralType.timestamp = bytes "timestamptz"
literal_name LiteralType.uuid = bytes "uuid"

abbrev not_if : Bool → Text
not_if negated = if negated then bytes "NOT " else []

abbrev numeric_name : Bool → Text
numeric_name numeric = if numeric then bytes "numeric" else bytes "float8"

-- `collect::<Vec<_>>().join(", ")`
pub join : List Text → Text
join [] = []
join (s ∷ []) = s
join (s ∷ t ∷ more) = s ++ bytes ", " ++ join (t ∷ more)

pub quote_each : List Text → List Text
quote_each [] = []
quote_each (v ∷ vs) = quote_literal v ∷ quote_each vs

-- An index out of range, `none`, is a panic.
infixl 5 ◌>>=◌
abbrev pub ◌>>=◌ {ℓ κ} : {A : Type ℓ} {B : Type κ} → Option A → (A → Option B) → Option B
some a >>= f = f a
none >>= f = none

abbrev pub first : List Text → Option Text
first [] = none
first (s ∷ _) = some s

abbrev pub second : List Text → Option Text
second (_ ∷ s ∷ _) = some s
second _ = none

-- The arms of `Expr::Call`, on the emitted arguments.
unfoldable pub call_sql : Func → List Text → Option Text
call_sql Func.coalesce args = do
  a ← first args
  b ← second args
  some (bytes "COALESCE(" ++ a ++ bytes ", " ++ b ++ bytes ")")
call_sql Func.jsonb_array_length args = do
  arg ← first args
  some (
      bytes "(CASE WHEN pg_catalog.jsonb_typeof("
      ++ arg
      ++ bytes ") = 'array' THEN pg_catalog.jsonb_array_length("
      ++ arg
      ++ bytes ") END)")
call_sql func args =
    some (bytes "pg_catalog." ++ sql_name func ++ bytes "(" ++ join args ++ bytes ")")

unfoldable mutual
  pub sql : Expr → Option Text
  sql (Expr.field name) = some (quote_ident name)
  sql (Expr.text value) = some (quote_literal value)
  sql (Expr.number value) = some value
  sql (Expr.bool value) = some (if value then bytes "TRUE" else bytes "FALSE")
  sql (Expr.typed ty value) = some (quote_literal value ++ bytes "::pg_catalog." ++ literal_name ty)
  sql (Expr.interval amount unit) =
      some
        (bytes "'" ++ decimal amount ++ bytes " " ++ as_str unit ++ bytes "'::pg_catalog.interval")
  sql (Expr.negation e) = do s ← sql e; some (bytes "(NOT " ++ s ++ bytes ")")
  sql (Expr.neg e) = do s ← sql e; some (bytes "(- " ++ s ++ bytes ")")
  sql (Expr.binary op l r) = do
    a ← sql l
    b ← sql r
    some (bytes "(" ++ a ++ bytes " " ++ op_sql op ++ bytes " " ++ b ++ bytes ")")
  sql (Expr.is_null e negated) = do
    s ← sql e
    some (bytes "(" ++ s ++ bytes " IS " ++ not_if negated ++ bytes "NULL)")
  sql (Expr.between e lo hi negated) = do
    s ← sql e
    a ← sql lo
    b ← sql hi
    some (
        bytes "("
        ++ s
        ++ bytes " "
        ++ not_if negated
        ++ bytes "BETWEEN "
        ++ a
        ++ bytes " AND "
        ++ b
        ++ bytes ")")
  sql (Expr.in_list e list negated) = do
    s ← sql e
    items ← sql_each list
    some (bytes "(" ++ s ++ bytes " " ++ not_if negated ++ bytes "IN (" ++ join items ++ bytes "))")
  sql (Expr.call func args) = do items ← sql_each args; call_sql func items
  sql (Expr.array_within field values) = some (
      bytes "("
      ++ quote_ident field
      ++ bytes " <@ ARRAY["
      ++ join (quote_each values)
      ++ bytes "]::pg_catalog.text[])")
  sql (Expr.finite e numeric) = do
    s ← sql e
    some (
        bytes "("
        ++ s
        ++ bytes " < 'Infinity'::pg_catalog."
        ++ numeric_name numeric
        ++ bytes " AND "
        ++ s
        ++ bytes " > '-Infinity'::pg_catalog."
        ++ numeric_name numeric
        ++ bytes ")")

  pub sql_each : Exprs → Option (List Text)
  sql_each nil = some []
  sql_each (cons e es) = do s ← sql e; more ← sql_each es; some (s ∷ more)
