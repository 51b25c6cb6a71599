-- ===== src/Rules/Typing/Steps.antt =====
-- core/src/rules/typing.rs, `unify` and `binary`: each keeps the fields of the sides it is given.
use root_cx.Prelude.{
  true, ◌&&◌, ◌||◌, not, ◌≡◌, refl, arith, Option, none, some, length, ◌==◌, Text,
}
use root_cx.Rules.Ast.{Expr, BinOp, fields}
use root_cx.Rules.Pattern
use root_cx.Rules.Pattern.{Verdict, admitted, refused}
use root_cx.Rules.Typing.Types.{Ty, ty_eq, is_numeric, orderable, Fields, Checked, ok, Spellings}
use root_cx.Rules.Typing.Check.{
  Typed, is_sub, takes_literal, wrap, timestamp_literal, uuid_literal, match_of, orders,
  is_document, typed_literal, adopt, unify, sides, compare, combine, match, connect, binary,
}
use root_cx.Rules.Typing.Gives.{
  Gives, gives, refuses, Gives-bind, Gives-expect, Gives-if, Resolves, Keeps,
}

module _ (known : Fields) (spell : Spellings) (parse_regex : Text → Option Pattern.Ast) where
  pub timestamp_literal-kept :
      (value : Text) (parsed : Option Text)
      → Gives (Resolves (Expr.text value)) (timestamp_literal value parsed)
  unfolding fields
  timestamp_literal-kept value (some instant) = gives ((λ out. refl), tt)
  timestamp_literal-kept value none = refuses

  pub uuid_literal-kept :
      (value : Text) (parsed : Option Text)
      → Gives (Resolves (Expr.text value)) (uuid_literal value parsed)
  unfolding fields
  uuid_literal-kept value (some hyphenated) =
      Gives-if (length value == 36) (λ t. gives ((λ out. refl), tt)) refuses
  uuid_literal-kept value none = refuses

  pub literal-kept :
      (ty : Ty) (value : Text)
      → takes_literal ty ≡ true
      → Gives (Resolves (Expr.text value)) (typed_literal known spell parse_regex ty value)
  unfolding typed_literal fields
  literal-kept Ty.date value h =
      Gives-if (length value == 10 && spell.is_date value) (λ t. gives ((λ out. refl), tt)) refuses
  literal-kept Ty.timestamp value h = timestamp_literal-kept value (spell.timestamp_of value)
  literal-kept Ty.uuid value h = uuid_literal-kept value (spell.uuid_of value)
  literal-kept _ value h = ground arith

  pub adopt-kept :
      (ty : Ty) (e : Expr) (c : Typed)
      → Keeps e c
      → Gives (Keeps e) (adopt known spell parse_regex ty c)
  unfolding adopt
  adopt-kept ty e (Expr.text value, Ty.text_lit) h =
      Gives-if (takes_literal ty)
        (λ t.
          Gives-bind _ (literal-kept ty value t)
            λ literal kept. gives ((λ out. cc (kept.0 out, h.0 out)), kept.1))
        (gives h)
  adopt-kept ty e c h = gives h

  pub unify-kept :
      (ty : Ty) (e : Expr) (c : Typed)
      → Keeps e c
      → Gives (Keeps e) (unify known spell parse_regex ty c)
  unfolding unify
  unify-kept ty e c h = Gives-bind _ (adopt-kept ty e c h) λ met kept. Gives-expect _ _ (gives kept)

  abbrev pub KeepsBoth : Expr → Expr → Typed × Typed → Type 0
  KeepsBoth e e' both = Keeps e both.0 × Keeps e' both.1

  pub sides-kept :
      (e e' : Expr) (l r : Typed)
      → Keeps e l
      → Keeps e' r
      → Gives (KeepsBoth e e') (sides known spell parse_regex l r)
  unfolding sides
  sides-kept e e' l r hl hr =
      Gives-if (ty_eq l.1 Ty.text_lit)
        (λ t. Gives-bind _ (unify-kept r.1 e l hl) λ met kept. gives {a = (met, r)} (kept, hr))
        (Gives-bind _ (unify-kept l.1 e' r hr) λ met kept. gives {a = (l, met)} (hl, kept))

  abbrev pub KeepsBinary : BinOp → Expr → Expr → Typed → Type 0
  KeepsBinary op e e' c = Keeps (Expr.binary op e e') c

  pub wrap-kept :
      (op : BinOp) (e e' : Expr) (l r : Typed) (ty : Ty)
      → Keeps e l
      → Keeps e' r
      → KeepsBinary op e e' (wrap op l r ty)
  unfolding fields
  wrap-kept op e e' l r ty hl hr = ((λ out. cc (hr.0 (fields l.0 out), hl.0 out)), (hl.1, hr.1))

  pub compare-kept :
      (op : BinOp) (e e' : Expr) (l r : Typed)
      → Keeps e l
      → Keeps e' r
      → Gives (KeepsBinary op e e') (compare known spell parse_regex op l r)
  unfolding compare
  compare-kept op e e' l r hl hr = Gives-bind _ (sides-kept e e' l r hl hr) λ both kept.
      Gives-expect (not (orders op) || (orderable both.0.1 && orderable both.1.1)) _ (
        Gives-expect (not (is_document both.0.1)) _
          (gives (wrap-kept op e e' both.0 both.1 Ty.bool kept.0 kept.1)))

  pub combine-kept :
      (op : BinOp) (e e' : Expr) (l r : Typed)
      → Keeps e l
      → Keeps e' r
      → Gives (KeepsBinary op e e') (combine known spell parse_regex op l r)
  unfolding combine
  combine-kept op e e' l r hl hr =
      let done : (ty : Ty) → Gives (KeepsBinary op e e') (ok (wrap op l r ty)) =
        λ ty. gives (wrap-kept op e e' l r ty hl hr) in
      Gives-if (ty_eq l.1 Ty.timestamp && (ty_eq r.1 Ty.timestamp && is_sub op)) (λ t. done _)
        (Gives-if (ty_eq l.1 Ty.date && (ty_eq r.1 Ty.date && is_sub op)) (λ t. done _)
          (Gives-if (is_numeric l.1 && is_numeric r.1) (λ t. done _) refuses))

  pub match_of-kept :
      (e : Expr) (l : Typed) (value : Text) (verdict : Verdict)
      → Keeps e l
      → Gives (KeepsBinary BinOp.match e (Expr.text value)) (match_of l value verdict)
  match_of-kept e l value admitted hl = gives (
      wrap-kept BinOp.match e (Expr.text value) l (Expr.text value, Ty.text_lit) Ty.bool hl
        ((λ out. refl), tt))
  match_of-kept e l value (refused why) hl = refuses

  pub match-kept :
      (e e' : Expr) (l : Typed)
      → Keeps e l
      → Gives (KeepsBinary BinOp.match e e') (match known spell parse_regex l e')
  unfolding match
  match-kept e (Expr.text value) l hl = Gives-expect _ _ (match_of-kept e l value _ hl)
  match-kept e e' l hl = Gives-expect _ _ refuses

  pub connect-kept :
      (op : BinOp) (e e' : Expr) (l r : Typed)
      → Keeps e l
      → Keeps e' r
      → Gives (KeepsBinary op e e') (connect known spell parse_regex op l r)
  connect-kept op e e' l r hl hr = Gives-expect _ _ (gives (wrap-kept op e e' l r Ty.bool hl hr))

  pub binary-kept :
      (op : BinOp) (e e' : Expr) (l : Typed) {m : Checked Typed}
      → Keeps e l
      → Gives (Keeps e') m
      → Gives (KeepsBinary op e e') (binary known spell parse_regex op l e' m)
  unfolding binary
  binary-kept BinOp.and e e' l hl h = Gives-bind _ h λ r hr. connect-kept BinOp.and e e' l r hl hr
  binary-kept BinOp.or e e' l hl h = Gives-bind _ h λ r hr. connect-kept BinOp.or e e' l r hl hr
  binary-kept BinOp.match e e' l hl h = match-kept e e' l hl
  binary-kept BinOp.add e e' l hl h = Gives-bind _ h λ r hr. combine-kept BinOp.add e e' l r hl hr
  binary-kept BinOp.sub e e' l hl h = Gives-bind _ h λ r hr. combine-kept BinOp.sub e e' l r hl hr
  binary-kept BinOp.mul e e' l hl h = Gives-bind _ h λ r hr. combine-kept BinOp.mul e e' l r hl hr
  binary-kept op e e' l hl h = Gives-bind _ h λ r hr. compare-kept op e e' l r hl hr
