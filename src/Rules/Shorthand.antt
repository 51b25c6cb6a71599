-- ===== src/Rules/Shorthand.antt =====
-- core/src/rules/shorthand.rs, with `FieldRules` of crates/shared-types/src/lib.rs: the rules that are
-- declared on a field. What serde_json says of a value is in the constructor of the value.
use root_cx.Prelude.{
  ℕ, ◌+◌, Bool, true, false, ◌&&◌, ◌||◌, not, Option, none, some, List, [], ◌∷◌, ◌++◌, Text, bytes,
  text_eq, any, all, length, run, take, drop, is_digit, leb, ltb, ◌==◌, if◌then◌else◌,
}
use root_cx.Prelude.Spaces.{trim}
use root_cx.Rules.Ast.{Expr, Exprs, nil, cons, BinOp, Func}
use root_cx.Rules.Pattern
use root_cx.Rules.Typing.Types.{Ty, ty_eq, Fields, Refusal, Checked, Spellings}
use root_cx.Rules.Typing.Check.{boolean}
use root_cx.Rules.Emit.{decimal}
pub mod Reads
mod Runs

unfoldable pub email_pattern : Text
email_pattern = bytes "^[^[:space:]@]+@[^[:space:]@]+\\.[^[:space:]@]+$"

unfoldable pub json_types : List Text
json_types =
    bytes "object"
    ∷ bytes "array"
    ∷ bytes "string"
    ∷ bytes "number"
    ∷ bytes "boolean"
    ∷ bytes "null"
    ∷ []

-- A string, a number with the text that `to_string` gives for it, or another value.
pub data JsonValue : Type 0 where
  string number : Text → JsonValue
  other_value : JsonValue

pub record FieldRules : Type 0 where
  pub minimum : Option JsonValue
  pub maximum : Option JsonValue
  pub exclusive_minimum : Option JsonValue
  pub exclusive_maximum : Option JsonValue
  pub integer : Bool
  pub max_scale : Option ℕ
  pub min_length : Option ℕ
  pub max_length : Option ℕ
  pub not_blank : Bool
  pub format : Option Text
  pub pattern : Option Text
  pub json_type : Option Text
  pub max_items : Option ℕ

pub record Shorthand : Type 0 where
  pub kind : Text
  pub tree : Expr

-- The refusals; each names the key that it is about.
pub data Fault : Type 0 where
  applies_to : (key what : Text) → Fault
  refused : Refusal → Fault
  length_order : Fault
  unknown_format json_type_unknown : Text → Fault
  not_a_json_string not_a_json_number : (key : Text) → Fault
  not_in_digits : (key text : Text) → Fault

pub data Compiled {ℓ} (A : Type ℓ) : Type ℓ where
  ok : A → Compiled A
  err : Fault → Compiled A
  panic : Compiled A

infixl 5 ◌>>=◌ ◌>>◌
abbrev pub ◌>>=◌ {ℓ κ} : {A : Type ℓ} {B : Type κ} → Compiled A → (A → Compiled B) → Compiled B
ok a >>= f = f a
err e >>= f = err e
panic >>= f = panic

abbrev pub ◌>>◌ {ℓ} : {B : Type ℓ} → Compiled (Unit {0}) → Compiled B → Compiled B
m >> k = m >>= λ _. k

abbrev pub needs : Bool → Text → Text → Compiled (Unit {0})
needs true key what = ok tt
needs false key what = err (applies_to key what)

-- `text.strip_prefix('-')`
abbrev pub split_sign : Text → Bool × Text
split_sign [] = (false, [])
split_sign (c ∷ s) = if c == b'-' then (true, s) else (false, c ∷ s)

abbrev pub is_not_dot : ℕ → Bool
is_not_dot c = not (c == b'.')

-- `digits.splitn(2, '.')`: what stands before the first dot, and what stands behind it.
abbrev pub whole_part : Text → Text
whole_part digits = take (run is_not_dot digits) digits

abbrev pub fraction_part : Text → Option Text
fraction_part digits =
    if run is_not_dot digits == length digits
    then none
    else some (drop (run is_not_dot digits + 1) digits)

abbrev pub digits_only : Text → Bool
digits_only s = not (length s == 0) && all is_digit s

abbrev pub fraction_ok : Option Text → Bool
fraction_ok none = true
fraction_ok (some f) = digits_only f

abbrev pub valid : Text → Bool
valid digits =
    digits_only (whole_part digits)
    && (fraction_ok (fraction_part digits) && leb (length digits) 40)

abbrev pub signed : Bool × Text → Expr
signed (negative, digits) = if negative then Expr.neg (Expr.number digits) else Expr.number digits

abbrev pub bound_of : Text → Text → Compiled Expr
bound_of key text =
    if valid (split_sign text).1
    then ok (signed (split_sign text))
    else err (not_in_digits key text)

unfoldable pub bound : Text → JsonValue → Ty → Compiled Expr
bound key (string text) Ty.numeric = bound_of key (trim text)
bound key _ Ty.numeric = err (not_a_json_string key)
bound key (number text) ty = bound_of key text
bound key _ ty = err (not_a_json_number key)

abbrev pub too_long : Option ℕ → Option ℕ → Bool
too_long (some min) (some max) = ltb max min
too_long _ _ = false

module _ (known : Fields) (spell : Spellings) (parse_regex : Text → Option Pattern.Ast)
    (name : Text) (ty : Ty) where
  abbrev pub this : Expr
  this = Expr.field name

  abbrev pub call_of_this : Func → Expr
  call_of_this func = Expr.call func (cons this nil)

  abbrev pub finite : Expr
  finite = Expr.finite this (ty_eq ty Ty.numeric)

  abbrev pub and_finite : Expr → Expr
  and_finite e = Expr.binary BinOp.and e finite

  abbrev pub compare_number : BinOp → Expr → ℕ → Expr
  compare_number op e n = Expr.binary op e (Expr.number (decimal n))

  abbrev pub is_numeric_field : Bool
  is_numeric_field = ty_eq ty Ty.float || ty_eq ty Ty.numeric

  abbrev pub is_text_field : Bool
  is_text_field = ty_eq ty Ty.text

  abbrev pub is_json_field : Bool
  is_json_field = ty_eq ty Ty.json

  abbrev pub pushed : Text → List Shorthand → Checked Expr → Compiled (List Shorthand)
  pushed kind out (Checked.ok tree) = ok (out ++ record { kind = kind; tree = tree } ∷ [])
  pushed kind out (Checked.err e) = err (refused e)
  pushed kind out Checked.panic = panic

  unfoldable pub push : Text → Expr → List Shorthand → Compiled (List Shorthand)
  push kind tree out = pushed kind out (boolean known spell parse_regex tree)

  -- One round of the loop over the four bounds.
  abbrev pub limit :
      Text → Text → BinOp → Option JsonValue → List Shorthand → Compiled (List Shorthand)
  limit key kind op none out = ok out
  limit key kind op (some value) out = do
    needs is_numeric_field key (bytes "number and decimal")
    b ← bound key value ty
    push kind (and_finite (Expr.binary op this b)) out

  abbrev pub whole_rule : Bool → List Shorthand → Compiled (List Shorthand)
  whole_rule false out = ok out
  whole_rule true out = do
    needs is_numeric_field (bytes "integer") (bytes "number and decimal")
    push (bytes "int") (and_finite (Expr.binary BinOp.eq this (call_of_this Func.trunc))) out

  abbrev pub scale_rule : Option ℕ → List Shorthand → Compiled (List Shorthand)
  scale_rule none out = ok out
  scale_rule (some scale) out = do
    needs (ty_eq ty Ty.numeric) (bytes "max_scale") (bytes "decimal")
    push (bytes "scale") (and_finite (compare_number BinOp.le (call_of_this Func.scale) scale)) out

  abbrev pub length_rule :
      Text → Text → BinOp → Option ℕ → List Shorthand → Compiled (List Shorthand)
  length_rule key kind op none out = ok out
  length_rule key kind op (some n) out = do
    needs is_text_field key (bytes "text")
    push kind (compare_number op (call_of_this Func.length) n) out

  abbrev pub blank_rule : Bool → List Shorthand → Compiled (List Shorthand)
  blank_rule false out = ok out
  blank_rule true out = do
    needs is_text_field (bytes "not_blank") (bytes "text")
    push (bytes "notblank")
        (compare_number BinOp.gt (Expr.call Func.length (cons (call_of_this Func.btrim) nil)) 0) out

  abbrev pub match_rule : Text → Text → List Shorthand → Compiled (List Shorthand)
  match_rule kind pattern out = push kind (Expr.binary BinOp.match this (Expr.text pattern)) out

  abbrev pub format_rule : Option Text → List Shorthand → Compiled (List Shorthand)
  format_rule none out = ok out
  format_rule (some format) out = do
    needs is_text_field (bytes "format") (bytes "text")
    if text_eq format (bytes "email")
        then match_rule (bytes "format") email_pattern out
        else err (unknown_format format)

  abbrev pub pattern_rule : Option Text → List Shorthand → Compiled (List Shorthand)
  pattern_rule none out = ok out
  pattern_rule (some pattern) out = do
    needs is_text_field (bytes "pattern") (bytes "text")
    match_rule (bytes "pattern") pattern out

  abbrev pub json_rule : Option Text → List Shorthand → Compiled (List Shorthand)
  json_rule none out = ok out
  json_rule (some json_type) out = do
    needs is_json_field (bytes "json_type") (bytes "json")
    if any (text_eq json_type) json_types
        then push (bytes "jsontype")
            (Expr.binary BinOp.eq (call_of_this Func.jsonb_typeof) (Expr.text json_type)) out
        else err (json_type_unknown json_type)

  abbrev pub items_rule : Option ℕ → List Shorthand → Compiled (List Shorthand)
  items_rule none out = ok out
  items_rule (some max) out = do
    needs is_json_field (bytes "max_items") (bytes "json")
    push (bytes "maxitems") (compare_number BinOp.le (call_of_this Func.jsonb_array_length) max) out

  abbrev pub in_order : Bool → List Shorthand → Compiled (List Shorthand)
  in_order true out = err length_order
  in_order false out = ok out

  unfoldable pub compile : FieldRules → Compiled (List Shorthand)
  compile rules = do
    a ← limit (bytes "minimum") (bytes "min") BinOp.ge rules.minimum []
    b ← limit (bytes "maximum") (bytes "max") BinOp.le rules.maximum a
    c ← limit (bytes "exclusive_minimum") (bytes "xmin") BinOp.gt rules.exclusive_minimum b
    d ← limit (bytes "exclusive_maximum") (bytes "xmax") BinOp.lt rules.exclusive_maximum c
    e ← whole_rule rules.integer d
    f ← scale_rule rules.max_scale e
    g ← in_order (too_long rules.min_length rules.max_length) f
    h ← length_rule (bytes "min_length") (bytes "minlen") BinOp.ge rules.min_length g
    i ← length_rule (bytes "max_length") (bytes "maxlen") BinOp.le rules.max_length h
    j ← blank_rule rules.not_blank i
    k ← format_rule rules.format j
    l ← pattern_rule rules.pattern k
    m ← json_rule rules.json_type l
    items_rule rules.max_items m
