-- ===== src/Rules/Parser/Interval.antt =====
-- core/src/rules/parser.rs, `interval`: the quoted text of an interval, `<n> days` and its like.
pub mod Words
use root_cx.Prelude.{
  ℕ, ◌+◌, ◌-◌, ◌*◌, ◌^◌, ◌&&◌, ◌||◌, Option, none, some, [], ◌∷◌, Text, bytes, text_eq, is_digit,
  all, ltb, leb, ◌==◌, if◌then◌else◌,
}
use root_cx.Prelude.Spaces.{split_whitespace}
use root_cx.Rules.Ast.{IntervalUnit, days, hours, minutes, seconds}

unfoldable pub unit_of : Text → Option IntervalUnit
unit_of name =
    if text_eq name (bytes "day") || text_eq name (bytes "days")
    then some days
    else if text_eq name (bytes "hour") || text_eq name (bytes "hours")
    then some hours
    else if text_eq name (bytes "minute") || text_eq name (bytes "minutes")
    then some minutes
    else if text_eq name (bytes "second") || text_eq name (bytes "seconds")
    then some seconds
    else none

-- Decimal digits; `none` on any other byte.
unfoldable pub digits_value : ℕ → Text → Option ℕ
digits_value acc [] = some acc
digits_value acc (c ∷ s) = if is_digit c then digits_value (acc * 10 + (c - b'0')) s else none

-- At least one digit.
unfoldable pub unsigned_value : Text → Option ℕ
unsigned_value [] = none
unsigned_value (c ∷ s) = digits_value 0 (c ∷ s)

-- `parse::<u32>()`: one `+` may stand in front, and the value must fit.
unfoldable pub parse_u32 : Text → Option ℕ
parse_u32 [] = none
parse_u32 (c ∷ s) =
    let value = if c == b'+' then unsigned_value s else unsigned_value (c ∷ s) in
    elim value [ none ↦ none | some n ↦ if ltb n (2 ^ 32) then some n else none ]

abbrev pub max_amount : ℕ
max_amount = 1000000

unfoldable pub amount_of : Text → Option ℕ
amount_of text = elim (parse_u32 text) [
  | none ↦ none
  | some n ↦ if all is_digit text && leb n max_amount then some n else none
]

-- The unit is looked at before the amount; both refusals read alike.
unfoldable pub interval_of : Text → Option (ℕ × IntervalUnit)
interval_of text = elim (split_whitespace text) [
  | amount ∷ unit ∷ [] ↦ elim (unit_of unit) [
    | none ↦ none
    | some u ↦ elim (amount_of amount) [ none ↦ none | some n ↦ some (n, u) ]
  ]
  | _ ↦ none
]
