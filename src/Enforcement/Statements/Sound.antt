-- ===== src/Enforcement/Statements/Sound.antt =====
-- core/src/governance/enforcement/sql_proxy.rs, `validate_sql`: a statement that is let through begins
-- with an allowed keyword, once the database's own scanner has skipped what it skips.
use root_cx.Prelude.{
  suc, ◌≡◌, ◌≢◌, refl, sym, ap, ◌∙◌, ◌⊎◌, inl, inr, Bool, true, false, not, Bool-cases, [], ◌∷◌,
  ◌++◌, Memᴰ, Text, bytes, any, any_witness, and_split, drop, length, starts_with,
  starts_with_sound, arith,
}
use root_cx.Prelude.Spaces.{trim_start}
use root_cx.Enforcement.Statements.{
  allowed_prefixes, Stripped, head, unterminated, ran_out, strip_loop, strip_leading_noise,
  to_upper, goes_on, is_keyword, allowed, out_of_fuel, check_head, check_stripped, validate_sql,
}
use root_cx.Enforcement.Statements.Scanner.{
  Skips, Skips-trim_start, length-trim_start, strip_loop-Skips, strip_loop-ends,
}

-- The first token of an allowed statement: a parenthesis, or an allowed keyword in any case that no
-- further letter, digit, underscore or dollar sign goes on.
abbrev pub Opens : (Text → Bool) → Text → Type 0
Opens wide h =
    (starts_with h (bytes "(") ≡ true)
    ⊎ ((kw rest : Text) × Memᴰ kw allowed_prefixes
        × (to_upper h ≡ kw ++ rest)
        × (goes_on wide rest ≡ false))

keyword-rest :
    (wide : Text → Bool) (upper kw : Text)
    → is_keyword wide upper kw ≡ true
    → (rest : Text) × (upper ≡ kw ++ rest) × (goes_on wide rest ≡ false)
keyword-rest wide upper kw h =
    let (begins, ends) = and_split (starts_with upper kw) _ h in
    let (rest, same) = starts_with_sound upper kw begins in
    (
      rest,
      same,
      ap (goes_on wide) (sym (ap (drop (length kw)) same ∙ drop-append kw rest)) ∙ no_more _ ends,
    )
  where
    drop-append : (xs ys : Text) → drop (length xs) (xs ++ ys) ≡ ys
    drop-append [] ys = refl
    drop-append (x ∷ xs) ys = drop-append xs ys

    no_more : (b : Bool) → not b ≡ true → b ≡ false
    no_more b h = ground arith

check_head-Opens :
    (wide : Text → Bool) (h : Text) → check_head wide h ≡ allowed → Opens wide h × (h ≢ [])
check_head-Opens wide h e = elim (Bool-cases (starts_with h (bytes "("))) [
  | inl t ↦ (inl t, λ empty. cc (ap (λ x. starts_with x (bytes "(")) (sym empty) ∙ t))
  | inr f ↦ elim (Bool-cases (any (is_keyword wide (to_upper h)) allowed_prefixes)) [
    | inr none_fits ↦ cc (rw (f, none_fits) at e)
    | inl t ↦
        let (kw, m, fits) = any_witness (is_keyword wide (to_upper h)) allowed_prefixes t in
        let (rest, same, ends) = keyword-rest wide (to_upper h) kw fits in
        (
          inr (kw, rest, m, same, ends),
          λ empty.
              cc (ap (λ x. any (is_keyword wide (to_upper x)) allowed_prefixes) (sym empty) ∙ t),
        )
  ]
]

classified : (wide : Text → Bool) (h : Text) → check_head wide h ≢ out_of_fuel
classified wide h e = elim (Bool-cases (starts_with h (bytes "("))) [
  | inl t ↦ cc (rw t at e)
  | inr f ↦ elim (Bool-cases (any (is_keyword wide (to_upper h)) allowed_prefixes)) [
    | inl t ↦ cc (rw (f, t) at e)
    | inr none_fits ↦ cc (rw (f, none_fits) at e)
  ]
]

-- Whatever an app sends, it is classified, and what is let through begins with an allowed keyword or a
-- parenthesis once a scanner of nested comments has come to the first token: no comment hides another
-- statement.
pub validate_sql_sound :
    (wide : Text → Bool) (sql : Text)
    → (validate_sql wide sql ≢ out_of_fuel)
      × (validate_sql wide sql ≡ allowed → (h : Text) × Skips sql h × Opens wide h)
unfolding validate_sql strip_leading_noise
validate_sql_sound wide sql = by_stripped (strip_loop (suc (length sql)) (trim_start 0 sql)) refl
  where
    by_stripped :
        (r : Stripped)
        → strip_loop (suc (length sql)) (trim_start 0 sql) ≡ r
        → (check_stripped wide r ≢ out_of_fuel)
          × (check_stripped wide r ≡ allowed → (h : Text) × Skips sql h × Opens wide h)
    by_stripped unterminated e = (λ x. cc x, λ x. cc x)
    by_stripped ran_out e =
        absurd (strip_loop-ends (suc (length sql)) _ (omega (arith, length-trim_start 0 sql)) e)
    by_stripped (head h) e = (
      classified wide h,
      λ x.
          let (opens, some_token) = check_head-Opens wide h x in
          (
            h,
            Skips-trim_start (length sql) sql h (omega arith)
                (strip_loop-Skips (suc (length sql)) _ h e some_token),
            opens,
          ),
    )
