-- ===== src/Rules/Outcome.antt =====
-- Results of the lexer and the parser: `Result<_, SyntaxError>`, and a third case for a loop or a
-- recursion of the model that ran out of fuel, which is shown never to occur.
use root_cx.Prelude.{ℕ, Text}

-- The messages of parser.rs. The text that a message quotes from its surroundings is kept; the
-- constant words are not.
pub data Message : Type 0 where
  only_ascii quoted_identifier dollar cast qualified_name : Message
  byte_not_allowed : ℕ → Message
  unterminated_string nul_in_string string_too_long : Message
  bad_number number_too_long : Message
  dollar_in_name prefixed_string : Message
  reserved_word : Text → Message
  comment : Message
  operator_not_allowed : Text → Message
  source_too_long empty_rule chained_comparison is_needs_parentheses : Message
  too_many_nodes too_deep too_many_items : Message
  unary_plus null_outside_is : Message
  field_not_lowercase : Text → Message
  function_not_allowed : Text → Message
  wrong_arity : Text → Message
  interval_not_quoted bad_interval : Message
  -- "expected {what}, found {found}", "unexpected {other}"
  expected : Text → Text → Message
  unexpected : Text → Message

pub record SyntaxError : Type 0 where
  pub line : ℕ
  pub column : ℕ
  pub message : Message

pub data Outcome {ℓ} (A : Type ℓ) : Type ℓ where
  ok : A → Outcome A
  err : SyntaxError → Outcome A
  out_of_fuel : Outcome A
