-- ===== src/Rules/Parser/State.antt =====
-- core/src/rules/parser.rs: the parser's state and the steps from which every level is built.
use Prim.Native.Nat.{min}
use root_cx.Prelude.{ℕ, zero, suc, ◌+◌, ◌-◌, Bool, List, [], ◌∷◌, Text, length, ltb, if◌then◌else◌}
use root_cx.Rules.Ast.{Expr, binary, BinOp}
use root_cx.Rules.Outcome.{Message, SyntaxError, Outcome, ok, err}
use root_cx.Rules.Lexer.{Tok, bad, eof, is_last, describe, error}

abbrev pub max_source_bytes : ℕ
max_source_bytes = 2048

abbrev pub max_depth : ℕ
max_depth = 24

abbrev pub max_nodes : ℕ
max_nodes = 256

abbrev pub max_in_items : ℕ
max_in_items = 100

-- `lexer` and `tokens` never change: they are the section's parameters below.
pub record Parser : Type 0 where
  pub at : ℕ
  pub depth : ℕ
  pub nodes : ℕ

-- A method that takes `&mut self` and returns a `Result`.
abbrev pub M {ℓ} : Type ℓ → Type ℓ
M A = Parser → Outcome (A × Parser)

module _ {ℓ} {A : Type ℓ} where
  unfoldable pub pure : A → M A
  pure a s = ok (a, s)

module _ {ℓ κ} {A : Type ℓ} {B : Type κ} where
  abbrev pub follow : Outcome (A × Parser) → (A → M B) → Outcome (B × Parser)
  follow (ok (a, s)) f = f a s
  follow (err e) f = err e
  follow Outcome.out_of_fuel f = Outcome.out_of_fuel

  infixl 5 ◌>>=◌
  abbrev pub ◌>>=◌ : M A → (A → M B) → M B
  ◌>>=◌ m f s = follow (m s) f

infixl 5 ◌>>◌
abbrev pub ◌>>◌ {ℓ} : {B : Type ℓ} → M (Unit {0}) → M B → M B
m >> k = m >>= λ _. k

abbrev pub get_or : List (Tok × ℕ) → ℕ → (Tok × ℕ) → Tok × ℕ
get_or [] i d = d
get_or (x ∷ xs) zero d = x
get_or (x ∷ xs) (suc i) d = get_or xs i d

module _ (src : Text) (toks : List (Tok × ℕ)) where
  -- `self.tokens[i]`. An index out of range is a panic; the invariant of `Rules/Parser/Keeps` keeps `at` in range.
  abbrev pub token_of : ℕ → Tok × ℕ
  token_of i = get_or toks i (eof, length src)

  unfoldable pub peek : Parser → Tok
  peek s = (token_of s.at).0

  unfoldable pub peek2 : Parser → Tok
  peek2 s = (token_of (min (s.at + 1) (length toks - 1))).0

  unfoldable pub bump : M Tok
  bump s =
      let tok = (token_of s.at).0 in
      if is_last tok then ok (tok, s) else ok (tok, record s { at = s.at + 1 })

  -- `error_here`, for a token that is no lexing error.
  abbrev pub located : Tok → ℕ → Message → SyntaxError
  located (bad e) at message = e
  located _ at message = error src at message

  unfoldable pub error_here {ℓ} : {A : Type ℓ} → Message → M A
  error_here message s = let (tok, at) = token_of s.at in err (located tok at message)

  -- `self.at = at`
  unfoldable pub rewind : ℕ → M (Unit {0})
  rewind at s = ok (tt, record s { at = at })

  unfoldable pub skip : M (Unit {0})
  skip s = follow (bump s) (λ _ s'. ok (tt, s'))

  unfoldable pub expect : (Tok → Bool) → Text → M (Unit {0})
  expect is_it what s =
      if is_it (peek s) then skip s else error_here (Message.expected what (describe (peek s))) s

  unfoldable pub node : Expr → M Expr
  node expr s =
      let s' = record s { nodes = s.nodes + 1 } in
      if ltb max_nodes s'.nodes then error_here Message.too_many_nodes s' else ok (expr, s')

  -- `nested`: the depth is given back only where the inner parser succeeds; an error ends the parse.
  unfoldable pub nested {ℓ} : {A : Type ℓ} → M A → M A
  nested f s =
      let s' = record s { depth = s.depth + 1 } in
      if ltb max_depth s'.depth
      then error_here Message.too_deep s'
      else follow (f s') (λ a t. ok (a, record t { depth = t.depth - 1 }))

  unfoldable pub binary_node : BinOp → Expr → Expr → M Expr
  binary_node op l r = node (binary op l r)
