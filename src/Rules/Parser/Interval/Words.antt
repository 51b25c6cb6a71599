-- ===== src/Rules/Parser/Interval/Words.antt =====
-- core/src/rules/parser.rs, `interval`: which texts are read as an interval.
use root_cx.Prelude.{
  Bool, ◌||◌, ◌⊎◌, subst, text_eq, text_eq_sound, ℕ, ◌+◌, ◌-◌, ◌*◌, ◌≤◌, ◌≡◌, ◌∙◌, ap, refl, arith,
  true, Bool-cases, Option-cases, inl, inr, none, some, List, [], ◌∷◌, Text, bytes, is_digit, all,
  Option, ltb, leb, ◌==◌, ◌^◌, ◌&&◌, false, if◌then◌else◌,
}
use root_cx.Prelude.Spaces.{split_whitespace}
use root_cx.Rules.Ast.{IntervalUnit, as_str}
use root_cx.Rules.Parser.Interval.{
  digits_value, unsigned_value, parse_u32, max_amount, amount_of, unit_of, interval_of,
}

pub unit_of-as_str : (unit : IntervalUnit) → unit_of (as_str unit) ≡ some unit
unfolding unit_of as_str
unit_of-as_str IntervalUnit.days = refl
unit_of-as_str IntervalUnit.hours = refl
unit_of-as_str IntervalUnit.minutes = refl
unit_of-as_str IntervalUnit.seconds = refl

pub digits_value-digits :
    (acc n : ℕ) (s : Text) → digits_value acc s ≡ some n → all is_digit s ≡ true
unfolding digits_value
digits_value-digits acc n [] h = refl
digits_value-digits acc n (c ∷ s) h = elim (Bool-cases (is_digit c)) [
  | inl t ↦ rw t (digits_value-digits (acc * 10 + (c - 48)) n s (rw t at h))
  | inr f ↦ cc (rw f at h)
]

fits_word : (n : ℕ) → n ≤ max_amount → ltb n (2 ^ 32) ≡ true
fits_word n h = ground arith

fits : (n : ℕ) → n ≤ max_amount → leb n max_amount ≡ true
fits n h = ground arith

pub amount_of_digits :
    (n : ℕ) (s : Text) → n ≤ max_amount → unsigned_value s ≡ some n → amount_of s ≡ some n
unfolding amount_of parse_u32 unsigned_value
amount_of_digits n [] small h = cc (h)
amount_of_digits n (c ∷ s) small h =
    let numeric : all is_digit (c ∷ s) ≡ true = digits_value-digits 0 n (c ∷ s) h in
    let no_plus : (c == 43) ≡ false = ground arith in
    let value : digits_value 0 (c ∷ s) ≡ some n = h in
    rw (
      no_plus,
      value,
      fits_word n small,
      numeric,
      fits n small,
      amount_of,
      parse_u32,
      unsigned_value,
    )

-- The words of an interval: decimal digits, and the name of the unit.
abbrev pub IsAmount : Text → ℕ → Type 0
IsAmount word n = (all is_digit word ≡ true) × (unsigned_value word ≡ some n) × (n ≤ max_amount)

abbrev pub singular : IntervalUnit → Text
singular IntervalUnit.days = bytes "day"
singular IntervalUnit.hours = bytes "hour"
singular IntervalUnit.minutes = bytes "minute"
singular IntervalUnit.seconds = bytes "second"

abbrev pub IsName : Text → IntervalUnit → Type 0
IsName name unit = (name ≡ singular unit) ⊎ (name ≡ as_str unit)

abbrev pub Written : Text → ℕ → IntervalUnit → Type 0
Written text n unit =
    (word : Text) × (name : Text) × (split_whitespace text ≡ word ∷ name ∷ [])
    × IsAmount word n
    × IsName name unit

-- What the tests of `amount_of` and `parse_u32` say.
kept_amount :
    (numeric : Bool) (m n : ℕ)
    → (if numeric && leb m max_amount then some m else none) ≡ some n
    → (numeric ≡ true) × (m ≡ n) × (n ≤ max_amount)
kept_amount true m n h = ground arith
kept_amount false m n h = cc (h)

value_of-fits :
    (value : Option ℕ) (m : ℕ)
    → ◌≡◌ {A = Option ℕ}
        (elim value as (λ x. Option ℕ) [
          | none ↦ none
          | some n ↦ if ltb n (2 ^ 32) then some n else none
        ])
        (some m)
    → value ≡ some m
value_of-fits none m h = h
value_of-fits (some n) m h = ground arith

amount_of-IsAmount : (word : Text) (n : ℕ) → amount_of word ≡ some n → IsAmount word n
unfolding amount_of parse_u32
amount_of-IsAmount [] n h = cc (h)
amount_of-IsAmount (c ∷ s) n h = elim (Option-cases (parse_u32 (c ∷ s))) [
  | inl missing ↦ cc (rw (missing, amount_of) at h)
  | inr (m, found) ↦
      let (numeric, same, small) =
        kept_amount (all is_digit (c ∷ s)) m n (rw (found, amount_of) at h) in
      let no_plus : (c == 43) ≡ false = ground (arith, numeric) in
      let value : unsigned_value (c ∷ s) ≡ some m =
        value_of-fits (unsigned_value (c ∷ s)) m (rw (no_plus, parse_u32) at found) in
      (numeric, value ∙ ap some same, small)
]

amount_of_complete : (word : Text) (n : ℕ) → IsAmount word n → amount_of word ≡ some n
amount_of_complete word n (numeric, value, small) = amount_of_digits n word small value

named :
    (name a b : Text) (found unit : IntervalUnit) (rest : Option IntervalUnit)
    → (if text_eq name a || text_eq name b then some found else rest) ≡ some unit
    → (a ≡ singular found)
    → (b ≡ as_str found)
    → (rest ≡ some unit → IsName name unit)
    → IsName name unit
named name a b found unit rest h one many later = elim (Bool-cases (text_eq name a)) [
  | inl t ↦
      let same : some found ≡ some unit = rw t at h in
      subst (IsName name) (cc (same)) (inl (text_eq_sound name a t ∙ one))
  | inr f ↦ elim (Bool-cases (text_eq name b)) [
    | inl t ↦
        let same : some found ≡ some unit = rw (f, t) at h in
        subst (IsName name) (cc (same)) (inr (text_eq_sound name b t ∙ many))
    | inr g ↦ later (rw (f, g) at h)
  ]
]

unit_of-IsName : (name : Text) (unit : IntervalUnit) → unit_of name ≡ some unit → IsName name unit
unfolding unit_of as_str
unit_of-IsName name unit h =
    named name (bytes "day") (bytes "days") IntervalUnit.days unit _ h refl refl (λ h.
      named name (bytes "hour") (bytes "hours") IntervalUnit.hours unit _ h refl refl (λ h.
        named name (bytes "minute") (bytes "minutes") IntervalUnit.minutes unit _ h refl refl (λ h.
          named name (bytes "second") (bytes "seconds") IntervalUnit.seconds unit none h refl refl
            (λ h. cc (h)))))

unit_of-singular : (unit : IntervalUnit) → unit_of (singular unit) ≡ some unit
unfolding unit_of
unit_of-singular IntervalUnit.days = refl
unit_of-singular IntervalUnit.hours = refl
unit_of-singular IntervalUnit.minutes = refl
unit_of-singular IntervalUnit.seconds = refl

unit_of_complete : (name : Text) (unit : IntervalUnit) → IsName name unit → unit_of name ≡ some unit
unit_of_complete name unit (inl e) = ap unit_of e ∙ unit_of-singular unit
unit_of_complete name unit (inr e) = ap unit_of e ∙ unit_of-as_str unit

pub interval_of_sound :
    (text : Text) (n : ℕ) (unit : IntervalUnit)
    → interval_of text ≡ some (n, unit)
    → Written text n unit
unfolding interval_of
interval_of_sound text n unit h = two_words (split_whitespace text) refl h
  where
    chosen :
        (u : Option IntervalUnit) (word : Text)
        → ◌≡◌ {A = Option (ℕ × IntervalUnit)}
            (elim u [
              | none ↦ none
              | some u ↦ elim (amount_of word) [ none ↦ none | some n ↦ some (n, u) ]
            ])
            (some (n, unit))
        → (u ≡ some unit) × IsAmount word n
    chosen none word h = cc (h)
    chosen (some u) word h = elim (Option-cases (amount_of word)) [
      | inl missing ↦ cc (rw missing at h)
      | inr (m, found) ↦
          let same : some (m, u) ≡ some (n, unit) = rw found at h in
          (cc (same), amount_of-IsAmount word n (cc (found, same)))
    ]

    two_words :
        (words : List Text)
        → split_whitespace text ≡ words
        → ◌≡◌ {A = Option (ℕ × IntervalUnit)}
            (elim words [
              | amount ∷ unit ∷ [] ↦ elim (unit_of unit) [
                | none ↦ none
                | some u ↦ elim (amount_of amount) [ none ↦ none | some n ↦ some (n, u) ]
              ]
              | _ ↦ none
            ])
            (some (n, unit))
        → Written text n unit
    two_words [] e h = cc (h)
    two_words (word ∷ []) e h = cc (h)
    two_words (word ∷ name ∷ []) e h =
        let (known, amount) = chosen (unit_of name) word h in
        (word, name, e, amount, unit_of-IsName name unit known)
    two_words (word ∷ name ∷ w ∷ ws) e h = cc (h)

pub interval_of_complete :
    (text : Text) (n : ℕ) (unit : IntervalUnit)
    → Written text n unit
    → interval_of text ≡ some (n, unit)
unfolding interval_of
interval_of_complete text n unit (word, name, words, amount, is_name) =
    rw (words, unit_of_complete name unit is_name, amount_of_complete word n amount, interval_of)
