-- ===== src/Rules/Typing/Types.antt =====
-- core/src/rules/typing.rs: the types, their families, and the errors of type resolution.
use root_cx.Prelude.{
  ℕ, Bool, true, false, Option, none, some, List, [], ◌∷◌, Text, text_eq, ◌==◌, if◌then◌else◌,
}
use root_cx.Rules.Ast.{BinOp, Func}

-- core/src/data_types.rs. The precision of a decimal plays no part here and is left out.
pub data FieldType : Type 0 where
  text number decimal boolean date timestamp json file uuid entity_link text_array number_array :
      FieldType

pub data Ty : Type 0 where
  bool text int float numeric date timestamp interval json uuid array num_lit text_lit : Ty

-- A number for each type, by which types are compared.
abbrev pub rank : Ty → ℕ
rank Ty.bool = 0
rank Ty.text = 1
rank Ty.int = 2
rank Ty.float = 3
rank Ty.numeric = 4
rank Ty.date = 5
rank Ty.timestamp = 6
rank Ty.interval = 7
rank Ty.json = 8
rank Ty.uuid = 9
rank Ty.array = 10
rank Ty.num_lit = 11
rank Ty.text_lit = 12

abbrev pub ty_eq : Ty → Ty → Bool
ty_eq a b = rank a == rank b

abbrev pub is_numeric : Ty → Bool
is_numeric Ty.int = true
is_numeric Ty.float = true
is_numeric Ty.numeric = true
is_numeric Ty.num_lit = true
is_numeric _ = false

abbrev pub is_text : Ty → Bool
is_text Ty.text = true
is_text Ty.text_lit = true
is_text _ = false

abbrev pub orderable : Ty → Bool
orderable Ty.date = true
orderable Ty.timestamp = true
orderable Ty.interval = true
orderable ty = is_numeric ty

-- `Ty::of`
pub ty_of : FieldType → Ty
ty_of FieldType.text = Ty.text
ty_of FieldType.file = Ty.text
ty_of FieldType.number = Ty.float
ty_of FieldType.decimal = Ty.numeric
ty_of FieldType.boolean = Ty.bool
ty_of FieldType.date = Ty.date
ty_of FieldType.timestamp = Ty.timestamp
ty_of FieldType.json = Ty.json
ty_of FieldType.uuid = Ty.uuid
ty_of FieldType.entity_link = Ty.uuid
ty_of FieldType.text_array = Ty.array
ty_of FieldType.number_array = Ty.array

pub record Field : Type 0 where
  pub ty : Ty
  pub sensitive : Bool
  pub pg : Text

abbrev pub Fields : Type 0
Fields = List (Text × Field)

pub lookup : Text → Fields → Option Field
lookup name [] = none
lookup name ((key, field) ∷ fields) = if text_eq key name then some field else lookup name fields

-- The refusals of type resolution, with the types and texts that they name.
pub data Refusal : Type 0 where
  not_a_condition : Ty → Refusal
  index_without_field : Refusal
  unknown_field : Text → Refusal
  not_needs_boolean neg_needs_number between_needs_order in_needs_scalar : Ty → Refusal
  literals_only : Refusal
  cannot_compare : Ty → Ty → Refusal
  needs_booleans : BinOp → Refusal
  cannot_order : BinOp → Ty → Ty → Refusal
  cannot_compare_type : BinOp → Ty → Refusal
  match_needs_text : Ty → Refusal
  match_needs_pattern bad_pattern : Refusal
  cannot_combine : BinOp → Ty → Ty → Refusal
  not_accepted : Func → Ty → Refusal
  coalesce_starts_with_literal : Refusal
  not_a_date not_a_timestamp not_a_uuid : Text → Refusal

-- `panic` stands for an index out of range and for `unreachable!`.
pub data Checked {ℓ} (A : Type ℓ) : Type ℓ where
  ok : A → Checked A
  err : Refusal → Checked A
  panic : Checked A

infixl 5 ◌>>=◌ ◌>>◌
abbrev pub ◌>>=◌ {ℓ κ} : {A : Type ℓ} {B : Type κ} → Checked A → (A → Checked B) → Checked B
ok a >>= f = f a
err e >>= f = err e
panic >>= f = panic

abbrev pub ◌>>◌ {ℓ} : {B : Type ℓ} → Checked (Unit {0}) → Checked B → Checked B
m >> k = m >>= λ _. k

abbrev pub expect : Bool → Refusal → Checked (Unit {0})
expect true e = ok tt
expect false e = err e

-- What the code calls of chrono and uuid: whether a text is a date `YYYY-MM-DD`, the normalised form
-- of an RFC 3339 instant, and the hyphenated form of a uuid.
pub record Spellings : Type 0 where
  pub is_date : Text → Bool
  pub timestamp_of : Text → Option Text
  pub uuid_of : Text → Option Text
