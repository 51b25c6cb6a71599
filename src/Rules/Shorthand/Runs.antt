-- ===== src/Rules/Shorthand/Runs.antt =====
-- A run of the theorem on shorthands at a field with a lower bound.
use root_cx.Prelude.{◌≡◌, ◌⊎◌, Option, some, none, false, List, [], ◌∷◌, Text, bytes, All}
use root_cx.Rules.Pattern
use root_cx.Rules.Typing.Types.{Ty, Fields, Spellings}
use root_cx.Rules.Shorthand.{JsonValue, FieldRules, Shorthand, Fault, compile, ok, err}
use root_cx.Rules.Shorthand.Reads.{ReadsThis, compile-ReadsThis}

abbrev known : Fields
known = (bytes "price", record { ty = Ty.numeric; sensitive = false; pg = bytes "numeric" }) ∷ []

abbrev spell : Spellings
spell = record { is_date = λ s. false; timestamp_of = λ s. none; uuid_of = λ s. none }

abbrev no_regex : Text → Option Pattern.Ast
no_regex pattern = none

-- A price of one cent at least, with two decimals at most.
abbrev price_rules : FieldRules
price_rules = record {
  minimum = some (JsonValue.string (bytes "0.01"));
  maximum = none;
  exclusive_minimum = none;
  exclusive_maximum = none;
  integer = false;
  max_scale = some 2;
  min_length = none;
  max_length = none;
  not_blank = false;
  format = none;
  pattern = none;
  json_type = none;
  max_items = none;
}

compile-ReadsThis_example :
    ((fault : Fault) × (compile known spell no_regex (bytes "price") Ty.numeric price_rules
        ≡ err fault))
    ⊎ ((out : List Shorthand) × (compile known spell no_regex (bytes "price") Ty.numeric price_rules
          ≡ ok out)
        × All (λ s. ReadsThis known spell no_regex (bytes "price") Ty.numeric s.tree) out)
compile-ReadsThis_example =
    compile-ReadsThis known spell no_regex (bytes "price") Ty.numeric price_rules
