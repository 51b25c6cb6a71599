-- ===== src/Rules/Emit/Quotes.antt =====
-- core/src/manifest.rs, `quote_literal`, read back by the lexer of core/src/rules/parser.rs.
use root_cx.Prelude.{
  ℕ, suc, ◌+◌, ◌≡◌, ◌≢◌, refl, arith, false, [], ◌∷◌, ◌++◌, Text, length, drop, length-append, ltb,
  ap, ◌≤◌, ◌==◌, append_assoc, append-nil, ◌∙◌, ==_iff, Bool-cases, inl, inr,
}
use root_cx.Rules.Emit.{doubled, quote_literal}
use root_cx.Rules.Outcome.{ok}
use root_cx.Rules.Lexer.{Tok, quoted, string, max_string_bytes}

-- The text has no byte 0, which PostgreSQL does not take.
abbrev pub NoNul : Text → Type 0
NoNul [] = Unit
NoNul (c ∷ s) = (c ≢ 0) × NoNul s

-- The text does not go on with a quote.
abbrev pub NoQuote : Text → Type 0
NoQuote [] = Unit
NoQuote (c ∷ s) = c ≢ 39

module _ (src : Text) where
  quoted-plain :
      (start c : ℕ) (s rest : Text) (i : ℕ) (value : Text)
      → (c == 39) ≡ false
      → c ≢ 0
      → quoted src start (c ∷ (s ++ 39 ∷ rest)) i value
        ≡ quoted src start (s ++ 39 ∷ rest) (i + 1) (value ++ c ∷ [])
  unfolding quoted
  quoted-plain start c [] rest i value h n = ground arith
  quoted-plain start c (d ∷ s) rest i value h n = ground arith

  quoted-close :
      (start : ℕ) (rest : Text) (i : ℕ) (value : Text)
      → NoQuote rest
      → quoted src start (39 ∷ rest) i value ≡ ok (value, i)
  unfolding quoted
  quoted-close start [] i value q = refl
  quoted-close start (d ∷ rest) i value q = ground arith

  quoted-pair :
      (start : ℕ) (s : Text) (i : ℕ) (value : Text)
      → quoted src start (39 ∷ 39 ∷ s) i value ≡ quoted src start s (i + 2) (value ++ 39 ∷ [])
  unfolding quoted
  quoted-pair start s i value = refl

  quoted_until :
      (start : ℕ) (v rest : Text) (i : ℕ) (value w : Text) (k : ℕ)
      → NoNul v
      → NoQuote rest
      → w ≡ value ++ v
      → k ≡ i + length (doubled 39 v)
      → quoted src start (doubled 39 v ++ 39 ∷ rest) i value ≡ ok (w, k)
  unfolding doubled
  quoted_until start [] rest i value w k n q hw hk =
      let here : w ≡ value = hw ∙ append-nil value in
      let same : k ≡ i = omega (arith, hk) in cc (quoted-close start rest i value q, here, same)
  quoted_until start (c ∷ v) rest i value w k n q hw hk = elim (Bool-cases (c == 39)) [
    | inl e ↦
        let is_quote = (==_iff c 39).0 e in
        rw (e) (
          quoted-pair start (doubled 39 v ++ 39 ∷ rest) i value
          ∙ quoted_until start v rest (i + 2) _ w k n.1 q
              (cc (hw, is_quote, append_assoc value (c ∷ []) v)) (omega (arith, rw e at hk)))
    | inr e ↦ rw (e) (
        quoted-plain start c (doubled 39 v) rest i value e n.0
        ∙ quoted_until start v rest (i + 1) _ w k n.1 q (cc (hw, append_assoc value (c ∷ []) v))
            (omega (arith, rw e at hk)))
  ]

drop_past : (before : Text) (c : ℕ) (s : Text) → drop (suc (length before)) (before ++ c ∷ s) ≡ s
drop_past [] c s = refl
drop_past (b ∷ before) c s = drop_past before c s

ltb_of_le : (a b : ℕ) → b ≤ a → ltb a b ≡ false
ltb_of_le a b h = ground arith

string_of_read :
    (src v : Text) (start close : ℕ)
    → length v ≤ max_string_bytes
    → quoted src start (drop (start + 1) src) (start + 1) [] ≡ ok (v, close)
    → string src start ≡ ok (Tok.str v, close + 1)
unfolding string
string_of_read src v start close near h =
    rw (h, string) (rw (ltb_of_le max_string_bytes (length v) near) refl)

quote_literal-shape : (v rest : Text) → quote_literal v ++ rest ≡ 39 ∷ (doubled 39 v ++ 39 ∷ rest)
unfolding quote_literal
quote_literal-shape v rest = ap (λ t. 39 ∷ t) (append_assoc (doubled 39 v) (39 ∷ []) rest)

length-quote_literal : (v : Text) → length (quote_literal v) ≡ length (doubled 39 v) + 2
unfolding quote_literal
length-quote_literal v = omega (arith, length-append (doubled 39 v) (39 ∷ []))

-- The lexer reads a quoted literal back as the text that was quoted, and ends behind the closing
-- quote: wherever the literal stands, for a text within the limit of bytes that has no byte 0, where
-- what follows the literal does not start with a quote.
pub quote_literal-string :
    (before v rest : Text)
    → NoNul v
    → NoQuote rest
    → length v ≤ max_string_bytes
    → string (before ++ (quote_literal v ++ rest)) (length before)
      ≡ ok (Tok.str v, length before + length (quote_literal v))
quote_literal-string before v rest n q near =
    let start = length before in
    let src = before ++ 39 ∷ (doubled 39 v ++ 39 ∷ rest) in
    let close = start + 1 + length (doubled 39 v) in
    let behind : start + 1 ≡ suc start = omega arith in
    let inside : drop (start + 1) src ≡ doubled 39 v ++ 39 ∷ rest =
      ap (λ k. drop k src) behind ∙ drop_past before 39 (doubled 39 v ++ 39 ∷ rest) in
    let read : quoted src start (drop (start + 1) src) (start + 1) [] ≡ ok (v, close) =
      ap (λ s. quoted src start s (start + 1) []) inside
      ∙ quoted_until src start v rest (start + 1) [] v close n q refl refl in
    let ends : close + 1 ≡ start + length (quote_literal v) =
      omega (arith, length-quote_literal v) in
    ap (λ s. string (before ++ s) start) (quote_literal-shape v rest)
    ∙ string_of_read src v start close near read
    ∙ ap (λ k. ok (Tok.str v, k)) ends
