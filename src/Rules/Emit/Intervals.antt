-- ===== src/Rules/Emit/Intervals.antt =====
-- core/src/rules/emit.rs and core/src/rules/parser.rs: an interval as it is printed, read back.
use root_cx.Prelude.{
  ◌↔◌, ℕ, zero, ◌≤◌, ◌≡◌, ◌∙◌, ap, refl, arith, true, some, List, [], ◌∷◌, ◌++◌, append_assoc,
  append-nil, Text, bytes, is_digit, all,
}
use root_cx.Prelude.Spaces.{space_width, wide_space, words_from, split_whitespace}
use root_cx.Rules.Ast.{Expr, IntervalUnit, as_str}
use root_cx.Rules.Emit.{decimal, sql}
use root_cx.Rules.Emit.Decimal.{unsigned_value-decimal}
use root_cx.Rules.Parser.Interval.{unsigned_value, max_amount, interval_of}
use root_cx.Rules.Parser.Interval.Words.{
  unit_of-as_str, digits_value-digits, amount_of_digits, Written, interval_of_sound,
  interval_of_complete,
}

wide_space-digit : (c : ℕ) (s : Text) → is_digit c ≡ true → wide_space (c ∷ s) ≡ 0
unfolding wide_space
wide_space-digit c [] h = refl
wide_space-digit c (a ∷ []) h = refl
wide_space-digit c (a ∷ b ∷ s) h = ground arith

space_width-digit : (c : ℕ) (s : Text) → is_digit c ≡ true → space_width (c ∷ s) ≡ 0
unfolding space_width
space_width-digit c s h = ground (arith, wide_space-digit c s h)

-- Digits belong to the word that they follow.
words_from-digits :
    (word digits s : Text)
    → all is_digit digits ≡ true
    → words_from zero word (digits ++ s) ≡ words_from zero (word ++ digits) s
unfolding words_from
words_from-digits word [] s h = rw (append-nil word)
words_from-digits word (c ∷ digits) s h =
    let digit : is_digit c ≡ true = ground arith in
    let more : all is_digit digits ≡ true = ground arith in
    rw (space_width-digit c (digits ++ s) digit) (
      words_from-digits (word ++ c ∷ []) digits s more
      ∙ ap (λ (w : Text). words_from zero w s) (append_assoc word (c ∷ []) digits))

unit_words : (unit : IntervalUnit) → words_from zero [] (as_str unit) ≡ as_str unit ∷ []
unfolding words_from space_width wide_space as_str
unit_words IntervalUnit.days = refl
unit_words IntervalUnit.hours = refl
unit_words IntervalUnit.minutes = refl
unit_words IntervalUnit.seconds = refl

close :
    (s : Text) (c : ℕ) (unit : IntervalUnit)
    → words_from zero (c ∷ s) (0x20 ∷ as_str unit) ≡ (c ∷ s) ∷ as_str unit ∷ []
unfolding words_from space_width
close s c unit = ap (λ (ws : List Text). (c ∷ s) ∷ ws) (unit_words unit)

spaced_words :
    (s : Text) (n : ℕ) (unit : IntervalUnit)
    → unsigned_value s ≡ some n
    → split_whitespace (s ++ (0x20 ∷ as_str unit)) ≡ s ∷ as_str unit ∷ []
unfolding split_whitespace unsigned_value
spaced_words [] n unit h = cc (h)
spaced_words (c ∷ s) n unit h =
    let numeric : all is_digit (c ∷ s) ≡ true = digits_value-digits 0 n (c ∷ s) h in
    words_from-digits [] (c ∷ s) (0x20 ∷ as_str unit) numeric ∙ close s c unit

-- What stands between the quotes.
abbrev pub printed : ℕ → IntervalUnit → Text
printed amount unit = decimal amount ++ (0x20 ∷ as_str unit)

interval_of-printed :
    (amount : ℕ) (unit : IntervalUnit)
    → amount ≤ max_amount
    → interval_of (printed amount unit) ≡ some (amount, unit)
unfolding interval_of
interval_of-printed amount unit small =
    let value = unsigned_value-decimal amount in
    rw (
      spaced_words (decimal amount) amount unit value,
      unit_of-as_str unit,
      amount_of_digits amount (decimal amount) small value,
      interval_of,
    )

sql-printed :
    (amount : ℕ) (unit : IntervalUnit)
    → sql (Expr.interval amount unit)
      ≡ some (bytes "'" ++ printed amount unit ++ bytes "'::pg_catalog.interval")
unfolding sql
sql-printed amount unit =
    ap (λ (s : Text). some (s ++ bytes "'::pg_catalog.interval"))
      (ap (λ (s : Text). s ++ as_str unit) (append_assoc (bytes "'") (decimal amount) (bytes " "))
        ∙ append_assoc (bytes "'") (decimal amount ++ bytes " ") (as_str unit)
        ∙ ap (λ (s : Text). bytes "'" ++ s)
            (append_assoc (decimal amount) (bytes " ") (as_str unit)))

-- The parser accepts the text of an interval exactly if it has two words, the first of decimal digits
-- alone with a value of at most `max_amount`, the second the singular or the plural of a unit. What the
-- emission prints between the quotes for it is accepted again, as the same amount of the same unit.
pub interval_of-sql :
    (text : Text) (amount : ℕ) (unit : IntervalUnit)
    → ((interval_of text ≡ some (amount, unit)) ↔ Written text amount unit)
      × (interval_of text ≡ some (amount, unit)
          → (inner : Text) × (sql (Expr.interval amount unit)
              ≡ some (bytes "'" ++ inner ++ bytes "'::pg_catalog.interval"))
            × (interval_of inner ≡ some (amount, unit)))
interval_of-sql text amount unit = (
  (interval_of_sound text amount unit, interval_of_complete text amount unit),
  λ h.
      let (_, _, _, (_, _, small), _) = interval_of_sound text amount unit h in
      (printed amount unit, sql-printed amount unit, interval_of-printed amount unit small),
)
