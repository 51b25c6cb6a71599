-- ===== src/Rules/Pattern.antt =====
-- core/src/rules/pattern.rs: which regular expressions `~` admits. The parser is the third-party
-- crate `regex_syntax`: it is an argument, and its syntax tree is the data type below, with the
-- constructors that the code tells apart.
pub mod Height
use root_cx.Prelude.{
  ℕ, zero, suc, ◌+◌, Bool, true, false, ◌&&◌, Option, none, some, Text, bytes, starts_with, length,
  ltb, ◌/◌, List, [], ◌∷◌, ◌==◌, not, keep, if◌then◌else◌,
}

pub data SpecialLiteralKind : Type 0 where
  tab line_feed carriage_return other_special : SpecialLiteralKind

pub data LiteralKind : Type 0 where
  verbatim meta other_literal : LiteralKind
  special : SpecialLiteralKind → LiteralKind

pub data AssertionKind : Type 0 where
  start_line end_line other_assertion : AssertionKind

pub data RepetitionRange : Type 0 where
  exactly at_least : ℕ → RepetitionRange
  bounded : ℕ → ℕ → RepetitionRange

pub data RepetitionKind : Type 0 where
  zero_or_one zero_or_more one_or_more : RepetitionKind
  range : RepetitionRange → RepetitionKind

-- `non_capturing` says whether its list of flags is empty.
pub data GroupKind : Type 0 where
  capture_index capture_name : GroupKind
  non_capturing : Bool → GroupKind

mutual
  pub data ClassSetItem : Type 0 where
    empty_item perl_item unicode_item bracketed_item : ClassSetItem
    literal_item : LiteralKind → ClassSetItem
    range_item : LiteralKind → LiteralKind → ClassSetItem
    ascii_item : Bool → ClassSetItem
    union : ClassSetItems → ClassSetItem

  pub data ClassSetItems : Type 0 where
    no_items : ClassSetItems
    item_and : ClassSetItem → ClassSetItems → ClassSetItems

pub data ClassSet : Type 0 where
  item : ClassSetItem → ClassSet
  binary_op : ClassSet

mutual
  pub data Ast : Type 0 where
    empty dot class_perl flags class_unicode : Ast
    literal : LiteralKind → Ast
    assertion : AssertionKind → Ast
    class_bracketed : ClassSet → Ast
    repetition : RepetitionKind → Ast → Ast
    group : GroupKind → Ast → Ast
    alternation concat : Asts → Ast

  pub data Asts : Type 0 where
    no_asts : Asts
    ast_and : Ast → Asts → Asts

pub data Why : Type 0 where
  empty_pattern pattern_too_long directors unparsed : Why
  inline_flags other_anchor unicode_class nested_quantifier repeated_too_often named_group : Why
  special_literal class_operation negated_posix nested_brackets : Why

pub data Verdict : Type 0 where
  admitted : Verdict
  refused : Why → Verdict

infixr 20 ◌then_also◌
-- `first?; second`
abbrev pub ◌then_also◌ : Verdict → Verdict → Verdict
admitted then_also v = v
refused why then_also v = refused why

abbrev pub max_pattern_chars : ℕ
max_pattern_chars = 128

abbrev pub max_repeat : ℕ
max_repeat = 100

unfoldable pub literal_ok : LiteralKind → Verdict
literal_ok verbatim = admitted
literal_ok meta = admitted
literal_ok (special tab) = admitted
literal_ok (special line_feed) = admitted
literal_ok (special carriage_return) = admitted
literal_ok _ = refused Why.special_literal

unfoldable mutual
  pub item_ok : ClassSetItem → Verdict
  item_ok empty_item = admitted
  item_ok perl_item = admitted
  item_ok (literal_item kind) = literal_ok kind
  item_ok (range_item from to) = literal_ok from then_also literal_ok to
  item_ok (ascii_item negated) = if not negated then admitted else refused Why.negated_posix
  item_ok unicode_item = refused Why.unicode_class
  item_ok bracketed_item = refused Why.nested_brackets
  item_ok (union items) = items_ok items

  pub items_ok : ClassSetItems → Verdict
  items_ok no_items = admitted
  items_ok (item_and i is) = item_ok i then_also items_ok is

pub class_ok : ClassSet → Verdict
class_ok binary_op = refused Why.class_operation
class_ok (item i) = item_ok i

-- The count that is held against the limit: `n` of every form of range.
abbrev pub limiting_count : RepetitionKind → ℕ
limiting_count (range (exactly n)) = n
limiting_count (range (at_least n)) = n
limiting_count (range (bounded _ n)) = n
limiting_count _ = 0

abbrev pub counts_too_far : RepetitionKind → Bool
counts_too_far kind = ltb max_repeat (limiting_count kind)

unfoldable mutual
  pub walk : Ast → Bool → Verdict
  walk empty repeated = admitted
  walk dot repeated = admitted
  walk class_perl repeated = admitted
  walk flags repeated = refused Why.inline_flags
  walk (literal kind) repeated = literal_ok kind
  walk (assertion start_line) repeated = admitted
  walk (assertion end_line) repeated = admitted
  walk (assertion other_assertion) repeated = refused Why.other_anchor
  walk class_unicode repeated = refused Why.unicode_class
  walk (class_bracketed set) repeated = class_ok set
  walk (repetition kind ast) repeated =
      let inner = walk ast true in
      if repeated
      then refused Why.nested_quantifier
      else if counts_too_far kind
      then refused Why.repeated_too_often
      else inner
  walk (group capture_index ast) repeated = walk ast repeated
  walk (group (non_capturing no_flags) ast) repeated =
      let inner = walk ast repeated in if no_flags then inner else refused Why.inline_flags
  walk (group capture_name ast) repeated = refused Why.named_group
  walk (alternation asts) repeated = walk_each asts repeated
  walk (concat asts) repeated = walk_each asts repeated

  pub walk_each : Asts → Bool → Verdict
  walk_each no_asts repeated = admitted
  walk_each (ast_and ast asts) repeated = walk ast repeated then_also walk_each asts repeated

abbrev pub starts_a_char : ℕ → Bool
starts_a_char c = not (c / 64 == 2)

-- `pattern.chars().count()`
abbrev pub chars : Text → ℕ
chars s = length (keep starts_a_char s)

-- `validate`, over the parser of `regex_syntax` with a nesting limit of 16.
unfoldable pub validate : (Text → Option Ast) → Text → Verdict
validate parse_regex pattern =
    if length pattern == 0
    then refused Why.empty_pattern
    else if ltb max_pattern_chars (chars pattern)
    then refused Why.pattern_too_long
    else if starts_with pattern (bytes "***")
    then refused Why.directors
    else elim (parse_regex pattern) [ none ↦ refused Why.unparsed | some ast ↦ walk ast false ]
