-- ===== src/Rules/Lexer.antt =====
-- core/src/rules/parser.rs, `Lexer`. The source is the list of its UTF-8 bytes and a position an
-- index into it. Scanning by byte and by `char` agree: every byte that the code tests is ASCII.
pub mod Progress
use Prim.Native.Nat.{min}
use root_cx.Prelude.{
  ℕ, zero, suc, ◌+◌, ◌-◌, ◌/◌, Bool, true, false, not, ◌&&◌, ◌||◌, Option, none, some, List, [],
  ◌∷◌, ◌++◌, Text, bytes, text_eq, ends_with, has_part, slice, is_upper, is_lower, is_digit,
  is_alphanumeric, to_lower, any, get_elem?, take, drop, run, length, ltb, leb, ◌==◌, ◌≡◌,
  if◌then◌else◌,
}
use root_cx.Rules.Ast.{BinOp, op_sql}
use root_cx.Rules.Outcome.{Message, SyntaxError, Outcome, ok, err}

abbrev pub max_string_bytes : ℕ
max_string_bytes = 256

pub data Kw : Type 0 where
  and_kw or_kw not_kw is_kw null_kw true_kw false_kw between_kw in_kw interval_kw : Kw

pub data Tok : Type 0 where
  ident : Text → Tok
  kw : Kw → Tok
  number : Text → Tok
  str : Text → Tok
  op : BinOp → Tok
  minus lparen rparen comma eof : Tok
  bad : SyntaxError → Tok

unfoldable pub kw_name : Kw → Text
kw_name and_kw = bytes "AND"
kw_name or_kw = bytes "OR"
kw_name not_kw = bytes "NOT"
kw_name is_kw = bytes "IS"
kw_name null_kw = bytes "NULL"
kw_name true_kw = bytes "TRUE"
kw_name false_kw = bytes "FALSE"
kw_name between_kw = bytes "BETWEEN"
kw_name in_kw = bytes "IN"
kw_name interval_kw = bytes "INTERVAL"

-- `Tok::describe`. A `Bad` token's text is never shown: `error_here` returns the error itself.
unfoldable pub describe : Tok → Text
describe (ident name) = bytes "'" ++ (name ++ bytes "'")
describe (kw k) = kw_name k
describe (number n) = n
describe (str _) = bytes "a string"
describe (op o) = bytes "'" ++ (op_sql o ++ bytes "'")
describe minus = bytes "'-'"
describe lparen = bytes "'('"
describe rparen = bytes "')'"
describe comma = bytes "','"
describe eof = bytes "end of rule"
describe (bad _) = []

unfoldable pub op_chars : Text
op_chars = bytes "+-*/<>=~!@#%^&|`?"

-- The characters of an operator run that keep its trailing signs.
unfoldable pub sign_keepers : Text
sign_keepers = bytes "~!@#^&|`?%"

abbrev pub listed : Text → ℕ → Bool
listed chars c = any (λ x. x == c) chars

unfoldable pub keyword : Text → Option Kw
keyword word =
    let w = to_lower word in
    if text_eq w (bytes "and")
    then some and_kw
    else if text_eq w (bytes "or")
    then some or_kw
    else if text_eq w (bytes "not")
    then some not_kw
    else if text_eq w (bytes "is")
    then some is_kw
    else if text_eq w (bytes "null")
    then some null_kw
    else if text_eq w (bytes "true")
    then some true_kw
    else if text_eq w (bytes "false")
    then some false_kw
    else if text_eq w (bytes "between")
    then some between_kw
    else if text_eq w (bytes "in")
    then some in_kw
    else if text_eq w (bytes "interval")
    then some interval_kw
    else none

unfoldable pub reserved : List Text
reserved =
    bytes "all"
    ∷ bytes "any"
    ∷ bytes "array"
    ∷ bytes "asymmetric"
    ∷ bytes "both"
    ∷ bytes "case"
    ∷ bytes "cast"
    ∷ bytes "collate"
    ∷ bytes "current_date"
    ∷ bytes "current_role"
    ∷ bytes "current_time"
    ∷ bytes "current_timestamp"
    ∷ bytes "current_user"
    ∷ bytes "distinct"
    ∷ bytes "else"
    ∷ bytes "end"
    ∷ bytes "exists"
    ∷ bytes "extract"
    ∷ bytes "from"
    ∷ bytes "ilike"
    ∷ bytes "isnull"
    ∷ bytes "leading"
    ∷ bytes "like"
    ∷ bytes "localtime"
    ∷ bytes "localtimestamp"
    ∷ bytes "notnull"
    ∷ bytes "overlaps"
    ∷ bytes "row"
    ∷ bytes "select"
    ∷ bytes "session_user"
    ∷ bytes "similar"
    ∷ bytes "some"
    ∷ bytes "symmetric"
    ∷ bytes "then"
    ∷ bytes "trailing"
    ∷ bytes "unknown"
    ∷ bytes "user"
    ∷ bytes "values"
    ∷ bytes "when"
    ∷ bytes "where"
    ∷ []

-- `chars().count()` counts the bytes that do not continue a character.
abbrev pub is_continuation : ℕ → Bool
is_continuation c = c / 64 == 2

-- Newlines before the position, and characters since the last of them.
unfoldable pub place : ℕ → ℕ → Text → ℕ × ℕ
place line column [] = (line, column)
place line column (c ∷ s) =
    place (if c == 10 then suc line else line)
      (if c == 10 then 0 else if is_continuation c then column else suc column) s

abbrev pub number_tail : ℕ → Bool
number_tail c = is_alphanumeric c || (c == b'_' || c == b'.')

abbrev pub is_interval : Kw → Bool
is_interval interval_kw = true
is_interval _ = false

abbrev pub is_word : ℕ → Bool
is_word c = is_alphanumeric c || c == b'_'

abbrev pub is_quote : ℕ → Bool
is_quote c = c == b'\''

abbrev pub is_sign : ℕ → Bool
is_sign c = c == b'+' || c == b'-'

unfoldable pub operator_token : Text → Option Tok
operator_token text =
    if text_eq text (bytes "=")
    then some (op BinOp.eq)
    else if text_eq text (bytes "<>")
    then some (op BinOp.ne)
    else if text_eq text (bytes "!=")
    then some (op BinOp.ne)
    else if text_eq text (bytes "<")
    then some (op BinOp.lt)
    else if text_eq text (bytes "<=")
    then some (op BinOp.le)
    else if text_eq text (bytes ">")
    then some (op BinOp.gt)
    else if text_eq text (bytes ">=")
    then some (op BinOp.ge)
    else if text_eq text (bytes "~")
    then some (op BinOp.match)
    else if text_eq text (bytes "+")
    then some (op BinOp.add)
    else if text_eq text (bytes "-")
    then some minus
    else if text_eq text (bytes "*")
    then some (op BinOp.mul)
    else none

abbrev pub is_space : ℕ → Bool
is_space c = c == b' ' || (c == 9 || (c == 10 || c == 13))

abbrev pub is_word_start : ℕ → Bool
is_word_start c = is_lower c || (is_upper c || c == b'_')

abbrev pub is_last : Tok → Bool
is_last eof = true
is_last (bad _) = true
is_last _ = false

abbrev pub prepend : Tok × ℕ → Option (List (Tok × ℕ)) → Option (List (Tok × ℕ))
prepend t none = none
prepend t (some rest) = some (t ∷ rest)

-- `Ok((tok, start))`, and the position after the token.
abbrev pub next_of : ℕ → Outcome (Tok × ℕ) → Outcome (Tok × ℕ × ℕ)
next_of start (ok (tok, end)) = ok (tok, start, end)
next_of start (err e) = err e
next_of start Outcome.out_of_fuel = Outcome.out_of_fuel

module _ (src : Text) where
  unfoldable pub error : ℕ → Message → SyntaxError
  error at message =
      let (line, column) = place 0 0 (take (min at (length src)) src) in
      record { line = line + 1; column = column + 1; message = message }

  abbrev pub fail {ℓ} : {A : Type ℓ} → ℕ → Message → Outcome A
  fail at message = err (error at message)

  -- Does a byte stand at the index, and pass the test?
  abbrev pub byte_at : ℕ → (ℕ → Bool) → Bool
  byte_at i p = elim (get_elem? src i) [ none ↦ false | some c ↦ p c ]

  -- The first index, from the given one on, whose byte fails the test.
  abbrev pub past : (ℕ → Bool) → ℕ → ℕ
  past p i = i + run p (drop i src)

  -- The loop of `Lexer::string` over the bytes from `i` on: the value so far, and the closing quote.
  unfoldable pub quoted : ℕ → Text → ℕ → Text → Outcome (Text × ℕ)
  quoted start [] i value = fail start Message.unterminated_string
  quoted start (c ∷ []) i value =
      if c == b'\''
      then ok (value, i)
      else if c == 0
      then fail i Message.nul_in_string
      else fail start Message.unterminated_string
  quoted start (c ∷ d ∷ s) i value =
      let doubled = quoted start s (i + 2) (value ++ b'\'' ∷ []) in
      let next = quoted start (d ∷ s) (i + 1) (value ++ c ∷ []) in
      if c == b'\''
      then (if d == b'\'' then doubled else ok (value, i))
      else if c == 0
      then fail i Message.nul_in_string
      else next

  -- `Lexer::string`.
  unfoldable pub string : ℕ → Outcome (Tok × ℕ)
  string start = elim (quoted start (drop (start + 1) src) (start + 1) []) [
    | ok (value, close) ↦
        if ltb max_string_bytes (length value)
        then fail start Message.string_too_long
        else ok (str value, close + 1)
    | err e ↦ err e
    | Outcome.out_of_fuel ↦ Outcome.out_of_fuel
  ]

  -- The end of `Lexer::number`, after the fraction has been read.
  abbrev pub number_until : ℕ → ℕ → Outcome (Tok × ℕ)
  number_until start end =
      if byte_at end number_tail
      then fail start Message.bad_number
      else if ltb 40 (end - start)
      then fail start Message.number_too_long
      else ok (number (slice src start end), end)

  -- `Lexer::number`.
  unfoldable pub lex_number : ℕ → Outcome (Tok × ℕ)
  lex_number start =
      let end = past is_digit start in
      let fraction = past is_digit (end + 1) in
      if byte_at end (λ c. c == b'.')
      then (if fraction == end + 1
          then fail start Message.bad_number
          else number_until start fraction)
      else number_until start end

  -- The arms of `keyword(word)` in `Lexer::word`.
  unfoldable pub word_of : ℕ → ℕ → Text → Option Kw → Outcome (Tok × ℕ)
  word_of start end name (some k) =
      if byte_at end is_quote && not (is_interval k)
      then fail start Message.prefixed_string
      else ok (kw k, end)
  word_of start end name none =
      if byte_at end is_quote
      then fail start Message.prefixed_string
      else if any (text_eq (to_lower name)) reserved
      then fail start (Message.reserved_word name)
      else ok (ident name, end)

  -- `Lexer::word`.
  unfoldable pub word : ℕ → Outcome (Tok × ℕ)
  word start =
      let end = past is_word start in
      let name = slice src start end in
      if byte_at end (λ c. c == b'$')
      then fail end Message.dollar_in_name
      else word_of start end name (keyword name)

  -- `while len > 1 && matches!(bytes[start + len - 1], b'+' | b'-') { len -= 1 }`
  unfoldable pub strip_signs : ℕ → ℕ → ℕ
  strip_signs start zero = zero
  strip_signs start (suc zero) = suc zero
  strip_signs start (suc (suc n)) =
      let shorter = strip_signs start (suc n) in
      if byte_at (start + suc n) is_sign then shorter else suc (suc n)

  -- The length of the operator that the run holds.
  unfoldable pub operator_length : ℕ → Text → ℕ
  operator_length start text =
      let len = length text in
      if ltb 1 len
        && ((ends_with text (bytes "+") || ends_with text (bytes "-"))
            && not (any (listed sign_keepers) text))
      then strip_signs start len
      else len

  unfoldable pub operator_of : ℕ → ℕ → Text → Option Tok → Outcome (Tok × ℕ)
  operator_of start len text (some tok) = ok (tok, start + len)
  operator_of start len text none = fail start (Message.operator_not_allowed text)

  -- `Lexer::operator`.
  unfoldable pub operator : ℕ → Outcome (Tok × ℕ)
  operator start =
      let text = slice src start (past (listed op_chars) start) in
      let len = operator_length start text in
      if has_part text (bytes "--") || has_part text (bytes "/*")
      then fail start Message.comment
      else operator_of start len (take len text) (operator_token (take len text))

  -- The `match c` of `Lexer::next`, at a byte that is no space.
  unfoldable pub token_at : ℕ → ℕ → Outcome (Tok × ℕ)
  token_at start c =
      if leb 128 c
      then fail start Message.only_ascii
      else if c == b'('
      then ok (lparen, start + 1)
      else if c == b')'
      then ok (rparen, start + 1)
      else if c == b','
      then ok (comma, start + 1)
      else if c == b'\''
      then string start
      else if c == b'"'
      then fail start Message.quoted_identifier
      else if c == b'$'
      then fail start Message.dollar
      else if c == b':'
      then fail start Message.cast
      else if c == b'.'
      then fail start Message.qualified_name
      else if listed (bytes ";[]{}\\") c
      then fail start (Message.byte_not_allowed c)
      else if is_digit c
      then lex_number start
      else if is_word_start c
      then word start
      else if listed op_chars c
      then operator start
      else fail start (Message.byte_not_allowed c)

  -- `Lexer::next`: the token, where it starts, and where the next one is looked for.
  unfoldable pub next : ℕ → Outcome (Tok × ℕ × ℕ)
  next pos =
      let start = past is_space pos in
      elim (get_elem? src start) [
        | none ↦ ok (eof, start, start)
        | some c ↦ next_of start (token_at start c)
      ]

  -- `Lexer::tokens`, with fuel for its loop; `none` means that the fuel ran out.
  unfoldable pub tokens_from : ℕ → ℕ → Option (List (Tok × ℕ))
  tokens_from zero pos = none
  tokens_from (suc fuel) pos = elim (next pos) [
    | err e ↦ some ((bad e, length src) ∷ [])
    | Outcome.out_of_fuel ↦ none
    | ok (tok, at, end) ↦ elim (is_last tok) [
      | true ↦ some ((tok, at) ∷ [])
      | false ↦ prepend (tok, at) (tokens_from fuel end)
    ]
  ]

  -- One round for each byte, and one for the end.
  unfoldable pub tokens : Option (List (Tok × ℕ))
  tokens = tokens_from (suc (length src)) 0

-- The tokens end in one on which the lexer stops.
abbrev pub IsClosed : List (Tok × ℕ) → Type 0
IsClosed [] = ⊥
IsClosed (t ∷ []) = is_last t.0 ≡ true
IsClosed (t ∷ u ∷ ts) = IsClosed (u ∷ ts)

pub IsClosed-cons : (t : Tok × ℕ) (ts : List (Tok × ℕ)) → IsClosed ts → IsClosed (t ∷ ts)
IsClosed-cons t [] c = absurd c
IsClosed-cons t (u ∷ ts) c = c
