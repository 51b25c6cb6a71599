-- ===== src/Rules/Emit/Decimal.antt =====
-- core/src/rules/emit.rs: the amount of an interval as it is printed, read back by the parser.
use root_cx.Prelude.{
  ℕ, zero, suc, ◌+◌, ◌-◌, ◌*◌, ◌/◌, ◌%◌, ◌<◌, ◌≤◌, ◌≡◌, ◌∙◌, ap, refl, arith, true, Bool-cases, inl,
  inr, some, [], ◌∷◌, ◌++◌, Text, ltb, ltb→ge, ltb→lt, is_digit,
}
use root_cx.Rules.Emit.{digits, decimal}
use root_cx.Rules.Parser.Interval.{digits_value, unsigned_value}

is_digit_of_small : (d : ℕ) → d < 10 → is_digit (48 + d) ≡ true
is_digit_of_small d small = ground arith

-- A digit at the end, read after what stands before it.
digits_value-append :
    (acc value d : ℕ) (s : Text)
    → d < 10
    → digits_value acc s ≡ some value
    → digits_value acc (s ++ (48 + d) ∷ []) ≡ some (value * 10 + d)
unfolding digits_value
digits_value-append acc value d [] small h =
    let same : acc ≡ value = cc (h) in
    rw (is_digit_of_small d small) (ap some (omega (arith, same)))
digits_value-append acc value d (c ∷ s) small h = elim (Bool-cases (is_digit c)) [
  | inl t ↦ rw (t) (digits_value-append (acc * 10 + (c - 48)) value d s small (rw t at h))
  | inr f ↦ cc (rw f at h)
]

unsigned_value-append :
    (s : Text) (c : ℕ) → unsigned_value (s ++ c ∷ []) ≡ digits_value 0 (s ++ c ∷ [])
unfolding unsigned_value
unsigned_value-append [] c = refl
unsigned_value-append (d ∷ s) c = refl

digits_value-digits : (fuel n : ℕ) → n ≤ fuel → digits_value 0 (digits fuel n) ≡ some n
unfolding digits digits_value
digits_value-digits zero n h = rw (is_digit_of_small (n % 10) (omega arith)) (ap some (omega arith))
digits_value-digits (suc fuel) n h = elim (Bool-cases (ltb n 10)) [
  | inl t ↦ rw (t) (digits_value-append 0 0 n [] (ltb→lt n 10 t) refl ∙ ap some (omega arith))
  | inr f ↦ rw (f) (
      digits_value-append 0 (n / 10) (n % 10) (digits fuel (n / 10)) (omega arith)
        (digits_value-digits fuel (n / 10) (omega (arith, ltb→ge n 10 f)))
      ∙ ap some (omega arith))
]

unsigned_value-digits :
    (fuel n : ℕ) → unsigned_value (digits fuel n) ≡ digits_value 0 (digits fuel n)
unfolding digits
unsigned_value-digits zero n = unsigned_value-append [] (48 + n % 10)
unsigned_value-digits (suc fuel) n = elim (Bool-cases (ltb n 10)) [
  | inl t ↦ rw (t) (unsigned_value-append [] (48 + n))
  | inr f ↦ rw (f) (unsigned_value-append (digits fuel (n / 10)) (48 + n % 10))
]

pub unsigned_value-decimal : (n : ℕ) → unsigned_value (decimal n) ≡ some n
unfolding decimal
unsigned_value-decimal n = unsigned_value-digits n n ∙ digits_value-digits n n (omega arith)
