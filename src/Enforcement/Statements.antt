-- ===== src/Enforcement/Statements.antt =====
-- core/src/governance/enforcement/sql_proxy.rs, `validate_sql`: which statements an app may send.
use root_cx.Prelude.{
  ℕ, zero, suc, ◌-◌, Bool, true, false, not, ◌&&◌, ◌||◌, Option, none, some, List, [], ◌∷◌, map,
  Text, bytes, any, drop, length, starts_with, is_lower, is_alphanumeric, ltb, ◌==◌, if◌then◌else◌,
}
use root_cx.Prelude.Spaces.{trim_start, split_whitespace}
pub mod Scanner
pub mod Sound

abbrev pub allowed_prefixes : List Text
allowed_prefixes =
    bytes "SELECT"
    ∷ bytes "INSERT"
    ∷ bytes "UPDATE"
    ∷ bytes "DELETE"
    ∷ bytes "WITH"
    ∷ bytes "VALUES"
    ∷ bytes "TABLE"
    ∷ []

abbrev pub line_opening : Text
line_opening = bytes "--"

abbrev pub block_opening : Text
block_opening = bytes "/*"

abbrev pub block_closing : Text
block_closing = bytes "*/"

-- CR or LF.
abbrev pub is_newline : ℕ → Bool
is_newline c = c == 0x0a || c == 0x0d

unfoldable pub after_line : Text → Text
after_line [] = []
after_line (c ∷ s) = let later = after_line s in if is_newline c then s else later

-- What stands behind the comment, from behind its opening; `depth` is at least 1.
unfoldable pub skip_from : ℕ → Text → Option Text
skip_from depth (a ∷ b ∷ s) =
    let deeper = skip_from (suc depth) s in
    let shallower = skip_from (depth - 1) s in
    let on = skip_from depth (b ∷ s) in
    if a == b'/' && b == b'*'
    then deeper
    else if a == b'*' && b == b'/'
    then (if depth - 1 == 0 then some s else shallower)
    else on
skip_from depth _ = none

unfoldable pub skip_block_comment : Text → Option Text
skip_block_comment s = skip_from 1 (drop 2 s)

pub data Stripped : Type 0 where
  head : Text → Stripped
  unterminated : Stripped
  ran_out : Stripped

abbrev pub behind_block : Option Text → (Text → Stripped) → Stripped
behind_block none next = unterminated
behind_block (some after) next = next after

-- The `loop`, with fuel.
unfoldable pub strip_loop : ℕ → Text → Stripped
strip_loop zero rest = ran_out
strip_loop (suc fuel) rest =
    let behind_line = strip_loop fuel (trim_start 0 (after_line (drop 2 rest))) in
    let block =
      behind_block (skip_block_comment rest) (λ after. strip_loop fuel (trim_start 0 after)) in
    if starts_with rest line_opening
    then behind_line
    else if starts_with rest block_opening
    then block
    else head rest

unfoldable pub strip_leading_noise : Text → Stripped
strip_leading_noise sql = strip_loop (suc (length sql)) (trim_start 0 sql)

-- `to_ascii_uppercase`
abbrev pub upper_byte : ℕ → ℕ
upper_byte c = if is_lower c then c - 32 else c

abbrev pub to_upper : Text → Text
to_upper s = map upper_byte s

-- A character that goes on a word. Whether the text begins with a letter or digit beyond ASCII is an
-- argument.
abbrev pub goes_on : (Text → Bool) → Text → Bool
goes_on wide [] = false
goes_on wide (c ∷ s) =
    if ltb c 128 then is_alphanumeric c || (c == b'_' || c == b'$') else wide (c ∷ s)

abbrev pub is_keyword : (Text → Bool) → Text → Text → Bool
is_keyword wide upper kw = starts_with upper kw && not (goes_on wide (drop (length kw) upper))

-- `not_allowed` names the first word, of which the message shows 16 characters.
pub data Checked : Type 0 where
  allowed : Checked
  not_allowed : Option Text → Checked
  unterminated_comment : Checked
  out_of_fuel : Checked

abbrev pub first_word : List Text → Option Text
first_word [] = none
first_word (w ∷ words) = some w

abbrev pub check_head : (Text → Bool) → Text → Checked
check_head wide h =
    if starts_with h (bytes "(")
    then allowed
    else if any (is_keyword wide (to_upper h)) allowed_prefixes
    then allowed
    else not_allowed (first_word (split_whitespace h))

abbrev pub check_stripped : (Text → Bool) → Stripped → Checked
check_stripped wide (head h) = check_head wide h
check_stripped wide unterminated = unterminated_comment
check_stripped wide ran_out = out_of_fuel

unfoldable pub validate_sql : (Text → Bool) → Text → Checked
validate_sql wide sql = check_stripped wide (strip_leading_noise sql)
