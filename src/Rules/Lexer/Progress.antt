-- ===== src/Rules/Lexer/Progress.antt =====
-- Every token but the last moves the lexer forward, so that `tokens` ends and its list is closed.
use root_cx.Prelude.{
  ℕ, zero, suc, ◌+◌, ◌-◌, ◌≤◌, ◌<◌, ◌≡◌, refl, Bool, true, false, ◌&&◌, ◌||◌, not, Option, none,
  some, List, [], ◌∷◌, Text, bytes, length, ltb, ends_with, has_part, slice, to_lower, text_eq, any,
  take, drop, run, get_elem?, is_digit, Bool-cases, Option-cases, if◌then◌else◌, arith, inl, inr,
  ◌==◌, leb,
}
use root_cx.Rules.Outcome.{Message, SyntaxError, Outcome, ok, err, out_of_fuel}
use root_cx.Rules.Lexer.{
  Tok, eof, is_last, past, byte_at, fail, quoted, string, number_until, lex_number, word,
  strip_signs, operator_length, operator_token, operator, token_at, next_of, next, word_of,
  operator_of, Kw, tokens_from, tokens, prepend, IsClosed, IsClosed-cons, is_word, is_space,
  is_word_start, listed, op_chars, sign_keepers, is_quote, is_interval, number_tail, reserved,
  max_string_bytes,
}

-- Where the token ends, if it is read.
data Ends (from : ℕ) : Outcome (Tok × ℕ) → Type 0 where
  token : {t : Tok} {end : ℕ} → from ≤ end → is_last t ≡ false → Ends from (ok (t, end))
  refused : {e : SyntaxError} → Ends from (err e)

Ends-if :
    {from : ℕ} {q r : Outcome (Tok × ℕ)} (b : Bool)
    → Ends from q
    → Ends from r
    → Ends from (if b then q else r)
Ends-if true q r = q
Ends-if false q r = r

Ends-when :
    {from : ℕ} {q r : Outcome (Tok × ℕ)} (b : Bool)
    → (b ≡ true → Ends from q)
    → Ends from r
    → Ends from (if b then q else r)
Ends-when true q r = q refl
Ends-when false q r = r

-- An operator's token, if there is one.
data Goes : Option Tok → Type 0 where
  goes : {t : Tok} → is_last t ≡ false → Goes (some t)
  stops : Goes none

Goes-if :
    {o : Option Tok} (b : Bool) (t : Tok)
    → is_last t ≡ false
    → Goes o
    → Goes (if b then some t else o)
Goes-if true t e g = goes e
Goes-if false t e g = g

operator_token-Goes : (text : Text) → Goes (operator_token text)
unfolding operator_token
operator_token-Goes text = Goes-if (text_eq text (bytes "=")) _ refl (
    Goes-if (text_eq text (bytes "<>")) _ refl (
      Goes-if (text_eq text (bytes "!=")) _ refl (
        Goes-if (text_eq text (bytes "<")) _ refl (
          Goes-if (text_eq text (bytes "<=")) _ refl (
            Goes-if (text_eq text (bytes ">")) _ refl (
              Goes-if (text_eq text (bytes ">=")) _ refl (
                Goes-if (text_eq text (bytes "~")) _ refl (
                  Goes-if (text_eq text (bytes "+")) _ refl (
                    Goes-if (text_eq text (bytes "-")) _ refl
                      (Goes-if (text_eq text (bytes "*")) _ refl stops))))))))))

get_elem?-lt : (s : Text) (i : ℕ) {c : ℕ} → get_elem? s i ≡ some c → i < length s
get_elem?-lt [] i h = cc
get_elem?-lt (x ∷ s) zero h = omega arith
get_elem?-lt (x ∷ s) (suc i) h = omega (arith, get_elem?-lt s i h)

length-take_pos : (n : ℕ) (s : Text) → 0 < n → 0 < length s → 0 < length (take n s)
length-take_pos zero s h l = elim h [ ]
length-take_pos (suc n) [] h l = l
length-take_pos (suc n) (c ∷ s) h l = omega arith

length-drop_pos : (i : ℕ) (s : Text) → i < length s → 0 < length (drop i s)
length-drop_pos zero s h = h
length-drop_pos (suc i) [] h = elim h [ ]
length-drop_pos (suc i) (c ∷ s) h = length-drop_pos i s (omega arith)

module _ (src : Text) where
  data Closes (from : ℕ) : Outcome (Text × ℕ) → Type 0 where
    closed : {v : Text} {close : ℕ} → from ≤ close → Closes from (ok (v, close))
    unclosed : {e : SyntaxError} → Closes from (err e)

  Closes-if :
      {from : ℕ} {q r : Outcome (Text × ℕ)} (b : Bool)
      → Closes from q
      → Closes from r
      → Closes from (if b then q else r)
  Closes-if true q r = q
  Closes-if false q r = r

  Closes-later :
      {from from' : ℕ} {r : Outcome (Text × ℕ)} → Closes from r → from' ≤ from → Closes from' r
  Closes-later (closed le) le' = closed (omega arith)
  Closes-later unclosed le' = unclosed

  quoted-Closes : (start : ℕ) (s : Text) (i : ℕ) (v : Text) → Closes i (quoted src start s i v)
  unfolding quoted
  quoted-Closes start [] i v = unclosed
  quoted-Closes start (c ∷ []) i v =
      Closes-if (c == b'\'') (closed (omega arith)) (Closes-if (c == 0) unclosed unclosed)
  quoted-Closes start (c ∷ d ∷ s) i v =
      Closes-if (c == b'\'')
        (Closes-if (d == b'\'') (Closes-later (quoted-Closes start s (i + 2) _) (omega arith))
          (closed (omega arith)))
        (Closes-if (c == 0) unclosed
          (Closes-later (quoted-Closes start (d ∷ s) (i + 1) _) (omega arith)))

  string-Ends : (start : ℕ) → Ends (start + 1) (string src start)
  unfolding string
  string-Ends start = by_close _ (quoted-Closes start (drop (start + 1) src) (start + 1) [])
    where
      by_close :
          (r : Outcome (Text × ℕ))
          → Closes (start + 1) r
          → Ends (start + 1) (elim r [
            | ok (value, close) ↦
                if ltb max_string_bytes (length value)
                then fail src start Message.string_too_long
                else ok (Tok.str value, close + 1)
            | err e ↦ err e
            | out_of_fuel ↦ out_of_fuel
          ])
      by_close r (closed {v} le) =
          Ends-if (ltb max_string_bytes (length v)) refused (token (omega arith) refl)
      by_close r unclosed = refused

  past-le : (p : ℕ → Bool) (i : ℕ) → i ≤ past src p i
  past-le p i = omega arith

  number_until-Ends :
      (start end : ℕ) → start + 1 ≤ end → Ends (start + 1) (number_until src start end)
  number_until-Ends start end le =
      Ends-if (byte_at src end number_tail) refused
        (Ends-if (ltb 40 (end - start)) refused (token le refl))

  -- A byte that passes the test is passed over.
  run_pos :
      (p : ℕ → Bool) (s : Text) (i : ℕ) {c : ℕ}
      → get_elem? s i ≡ some c
      → p c ≡ true
      → 0 < run p (drop i s)
  run_pos p [] i h t = cc
  run_pos p (x ∷ s) zero h t = ground arith
  run_pos p (x ∷ s) (suc i) h t = run_pos p s i h t

  module _ (start : ℕ) {c : ℕ} (here : get_elem? src start ≡ some c) where
    lex_number-Ends : is_digit c ≡ true → Ends (start + 1) (lex_number src start)
    unfolding lex_number
    lex_number-Ends digit =
        let pos = run_pos is_digit src start here digit in
        Ends-if (byte_at src (past src is_digit start) (λ c. c == b'.'))
          (Ends-if _ refused (number_until-Ends start _ (omega arith)))
          (number_until-Ends start _ (omega arith))

    word_of-Ends :
        (end : ℕ) (name : Text) (k : Option Kw)
        → start + 1 ≤ end
        → Ends (start + 1) (word_of src start end name k)
    unfolding word_of
    word_of-Ends end name (some k) le =
        Ends-if (byte_at src end is_quote && not (is_interval k)) refused (token le refl)
    word_of-Ends end name none le =
        Ends-if (byte_at src end is_quote) refused
          (Ends-if (any (text_eq (to_lower name)) reserved) refused (token le refl))

    word-Ends : is_word c ≡ true → Ends (start + 1) (word src start)
    unfolding word
    word-Ends w =
        let pos = run_pos is_word src start here w in
        Ends-if (byte_at src (past src is_word start) (λ c. c == b'$')) refused
          (word_of-Ends (past src is_word start) _ _ (omega arith))

    operator_of-Ends :
        (len : ℕ) (text : Text) {o : Option Tok}
        → 0 < len
        → Goes o
        → Ends (start + 1) (operator_of src start len text o)
    unfolding operator_of
    operator_of-Ends len text pos (goes e) = token (omega arith) e
    operator_of-Ends len text pos stops = refused

    strip_signs-pos : (n : ℕ) → 0 < n → 0 < strip_signs src start n
    unfolding strip_signs
    strip_signs-pos zero h = elim h [ ]
    strip_signs-pos (suc zero) h = omega arith
    strip_signs-pos (suc (suc n)) h = ground (arith, strip_signs-pos (suc n))

    operator_length-pos : (text : Text) → 0 < length text → 0 < operator_length src start text
    unfolding operator_length
    operator_length-pos text h =
        elim (Bool-cases (
          ltb 1 (length text)
          && ((ends_with text (bytes "+") || ends_with text (bytes "-"))
              && not (any (listed sign_keepers) text)))) [
                | inl stripped ↦ rw (stripped, operator_length) (strip_signs-pos (length text) h)
                | inr whole ↦ rw (whole, operator_length) h
              ]

    operator-Ends : listed op_chars c ≡ true → Ends (start + 1) (operator src start)
    unfolding operator
    operator-Ends o =
        let pos = run_pos (listed op_chars) src start here o in
        let text = slice src start (past src (listed op_chars) start) in
        let some_text =
          length-take_pos (past src (listed op_chars) start - start) (drop start src) (omega arith)
            (length-drop_pos start src (get_elem?-lt src start here)) in
        Ends-if (has_part text (bytes "--") || has_part text (bytes "/*")) refused (
          operator_of-Ends (operator_length src start text) _ (operator_length-pos text some_text)
            (operator_token-Goes _))

    word_start_is_word : is_word_start c ≡ true → is_word c ≡ true
    word_start_is_word h = ground arith

    token_at-Ends : Ends (start + 1) (token_at src start c)
    unfolding token_at
    token_at-Ends = Ends-if (leb 128 c) refused (
        Ends-if (c == b'(') (token le_here refl) (
          Ends-if (c == b')') (token le_here refl) (
            Ends-if (c == b',') (token le_here refl) (
              Ends-if (c == b'\'') (string-Ends start) (
                Ends-if (c == b'"') refused (
                  Ends-if (c == b'$') refused (
                    Ends-if (c == b':') refused (
                      Ends-if (c == b'.') refused (
                        Ends-if (listed (bytes ";[]{}\\") c) refused (
                          Ends-when (is_digit c) lex_number-Ends (
                            Ends-when (is_word_start c) (λ w. word-Ends (word_start_is_word w))
                              (Ends-when (listed op_chars c) operator-Ends refused))))))))))))
      where
        le_here : start + 1 ≤ start + 1
        le_here = omega arith

-- What `next` returns: the end of the source, an error, or a token that starts in the source.
data Reads (src : Text) (pos : ℕ) : Outcome (Tok × ℕ × ℕ) → Type 0 where
  at_end : {start end : ℕ} → Reads src pos (ok (eof, start, end))
  wrong : {e : SyntaxError} → Reads src pos (err e)
  moved :
      {t : Tok} {start end : ℕ}
      → is_last t ≡ false
      → pos < end
      → pos < length src
      → Reads src pos (ok (t, start, end))

Reads-token :
    (src : Text) (pos start : ℕ) (r : Outcome (Tok × ℕ))
    → pos ≤ start
    → start < length src
    → Ends (start + 1) r
    → Reads src pos (next_of start r)
Reads-token src pos start r le lt (token le' e) = moved e (omega arith) (omega arith)
Reads-token src pos start r le lt refused = wrong

next-Reads : (src : Text) (pos : ℕ) → Reads src pos (next src pos)
unfolding next
next-Reads src pos = elim (Option-cases (get_elem? src (past src is_space pos))) [
  | inl ended ↦ rw (ended, next) at_end
  | inr (c, here) ↦
      rw (here, next)
        (Reads-token src pos (past src is_space pos) _ (omega arith) (get_elem?-lt src _ here)
          (token_at-Ends src (past src is_space pos) here))
]

-- The token list that ends where the lexer stops.
data Lexed : Option (List (Tok × ℕ)) → Type 0 where
  lexed : {toks : List (Tok × ℕ)} → IsClosed toks → Lexed (some toks)

Lexed-cons : (t : Tok × ℕ) {o : Option (List (Tok × ℕ))} → Lexed o → Lexed (prepend t o)
Lexed-cons t (lexed {toks} c) = lexed (IsClosed-cons t toks c)

tokens_from-Lexed :
    (src : Text) (fuel pos : ℕ)
    → length src < pos + fuel
    → 0 < fuel
    → Lexed (tokens_from src fuel pos)
unfolding tokens_from
tokens_from-Lexed src zero pos enough h = elim h [ ]
tokens_from-Lexed src (suc fuel) pos enough h =
    by_next (λ end. tokens_from-Lexed src fuel end) _ (next-Reads src pos) refl
  where
    by_next :
        ((end : ℕ) → length src < end + fuel → 0 < fuel → Lexed (tokens_from src fuel end))
        → (r : Outcome (Tok × ℕ × ℕ)) → Reads src pos r
        → next src pos ≡ r
        → Lexed (tokens_from src (suc fuel) pos)
    by_next again r at_end e = rw (e, tokens_from) (lexed refl)
    by_next again r wrong e = rw (e, tokens_from) (lexed refl)
    by_next again r (moved {t} {start} {end} more lt in_src) e =
        rw (e, tokens_from)
          (rw more (Lexed-cons (t, start) (again end (omega arith) (omega arith))))

-- The lexer always ends, and its tokens end in `Eof` or in the error.
pub tokens-Lexed : (src : Text) → (toks : List (Tok × ℕ)) × (tokens src ≡ some toks) × IsClosed toks
unfolding tokens
tokens-Lexed src = result (tokens_from-Lexed src (suc (length src)) 0 (omega arith) (omega arith))
  where
    result :
        {o : Option (List (Tok × ℕ))}
        → Lexed o
        → (toks : List (Tok × ℕ)) × (o ≡ some toks) × IsClosed toks
    result (lexed {toks} c) = (toks, refl, c)
